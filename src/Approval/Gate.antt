-- ===== src/Approval/Gate.antt =====
-- What a decision on an operation that waits for approval changes, and what it needs.
use iac.Prelude.{
  ◌≤◌, not, refl, is_blank, ℕ, ◌+◌, ◌≡◌, ◌≢◌, ap, ◌∙◌, true, false, Option, some, List, [], ◌∷◌,
  ◌++◌, All-append, length-append, String, ◌==◌, any, any-false→count_if, any-false→All, count_if,
  keep_if, find_if, find_if-All, find_if-holds, update_where, length, arith, if◌then◌else◌, ok,
  >>=-eq-ok, guard-ok, ok-injective, ok_or, not_found,
}
use iac.Json.{Value}
use iac.Tables.{OperationStatus, Appends, Db, DesiredState, Operation, Assignment, Actor}
use iac.Rollout.Gate.{IsPlaced}
use iac.Submit.Grouping.{route_all}
use iac.Submit.Rows.{new_assignments-IsPlaced, new_assignments-others}
use iac.Depsort.{compute_resource_layers, topo_sort_by_depends_on}
use iac.Approval.{
  approve_audit, awaits_approval, gated, approve_operation, reject_operation, planned, routing_list,
  approve_row, reject_row,
}

abbrev pub Decided : ℕ → Db → Type 0
Decided op_id db = any (gated op_id) db.operations ≡ false

planned-IsPlaced :
    (from_str : String → Option Value) (fresh : ℕ → ℕ) (now op_id : ℕ) (environment : String)
    (db : Db) (created : List Assignment)
    → planned from_str fresh now op_id environment db ≡ ok created
    → IsPlaced created
unfolding planned
planned-IsPlaced from_str fresh now op_id environment db created h =
    let (routing, listed, h1) =
      >>=-eq-ok
        (routing_list from_str
          (keep_if (λ (d : DesiredState). d.operation_id == op_id) db.desired_states))
        _ h in
    let (sorted, order, h2) = >>=-eq-ok (topo_sort_by_depends_on from_str routing) _ h1 in
    let (layers, layered, h3) = >>=-eq-ok (compute_resource_layers from_str sorted) _ h2 in
    (new_assignments-IsPlaced from_str fresh 0 op_id now []
      (route_all environment db.agents sorted layers).buckets created tt h3).0

pub planned-others :
    (other : ℕ) (from_str : String → Option Value) (fresh : ℕ → ℕ) (now op_id : ℕ)
    (environment : String) (db : Db) (created : List Assignment)
    → (op_id == other) ≡ false
    → planned from_str fresh now op_id environment db ≡ ok created
    → any (λ a. a.operation_id == other) created ≡ false
unfolding planned
planned-others other from_str fresh now op_id environment db created n h =
    let (routing, listed, h1) =
      >>=-eq-ok
        (routing_list from_str
          (keep_if (λ (d : DesiredState). d.operation_id == op_id) db.desired_states))
        _ h in
    let (sorted, order, h2) = >>=-eq-ok (topo_sort_by_depends_on from_str routing) _ h1 in
    let (layers, layered, h3) = >>=-eq-ok (compute_resource_layers from_str sorted) _ h2 in
    new_assignments-others other from_str fresh 0 op_id now []
      (route_all environment db.agents sorted layers).buckets created n h3

module _ (op_id : ℕ) where
  -- A decision rewrites the operation's row, so that it waits no longer.
  pub record Decides (os os' : List Operation) : Type 0 where
    pub decide : Operation → Operation
    pub same_id : (o : Operation) → (decide o).id ≡ o.id
    pub decided : (o : Operation) → awaits_approval (decide o).status ≡ false
    pub updates : os' ≡ update_where (gated op_id) decide os
    pub there : 1 ≤ count_if (λ o. o.id == op_id) os

  gated-there :
      (os : List Operation) → 1 ≤ count_if (gated op_id) os → 1 ≤ count_if (λ o. o.id == op_id) os
  gated-there [] h = h
  gated-there (o ∷ os) h = ground (arith, h, gated-there os)

  found-there :
      (os : List Operation) (o : Operation)
      → find_if (λ o. o.id == op_id) os ≡ some o
      → 1 ≤ count_if (λ o. o.id == op_id) os
  found-there [] o h = cc
  found-there (x ∷ os) o h = ground (arith, h, found-there os o)

  pub reject-Decides :
      (now : ℕ) (rejector : String) (actor : Actor) (reason : String) (db db' : Db)
      → reject_operation now op_id rejector actor reason db ≡ ok db'
      → Decides db.operations db'.operations
  unfolding reject_operation reject_row
  reject-Decides now rejector actor reason db db' h =
      let (given, h1) = guard-ok (not (is_blank reason)) _ _ h in
      let (waits, h2) = guard-ok (not (count_if (gated op_id) db.operations == 0)) _ _ h1 in
      let e = ok-injective h2 in
      record {
        decide = reject_row rejector now reason;
        same_id = λ o. refl;
        decided = λ o. refl;
        updates = ground (arith, e);
        there = gated-there db.operations (ground (arith, waits));
      }

  pub Decided-not_rejected :
      (now : ℕ) (rejector : String) (actor : Actor) (reason : String) (db db' : Db)
      → Decided op_id db
      → reject_operation now op_id rejector actor reason db ≢ ok db'
  unfolding reject_operation
  Decided-not_rejected now rejector actor reason db db' d h =
      let none_gated = any-false→count_if (gated op_id) db.operations d in
      ground (arith, none_gated)

  module _ (from_str : String → Option Value) (fresh : ℕ → ℕ) where
    -- What an approval did.
    pub record Approved (now : ℕ) (approver : String) (reason : Option String) (db db' : Db) (n : ℕ)
        : Type 0 where
      pub row : Operation
      pub created : List Assignment
      pub is_found : find_if (λ o. o.id == op_id) db.operations ≡ some row
      pub awaited : awaits_approval row.status ≡ true
      pub made : planned from_str fresh now op_id row.environment db ≡ ok created
      pub operations :
          db'.operations
          ≡ update_where (gated op_id) (approve_row approver now reason n) db.operations
      pub assignments : db'.assignments ≡ db.assignments ++ created
      pub counts : n ≡ length created
      pub audited : Appends db.audit db'.audit

    pub approve-Approved :
        (now : ℕ) (approver : String) (actor : Actor) (reason : Option String) (db db' : Db) (n : ℕ)
        → approve_operation from_str fresh now op_id approver actor reason db ≡ ok (db', n)
        → Approved now approver reason db db' n
    unfolding approve_operation
    approve-Approved now approver actor reason db db' n h =
        let (row, found, h1) =
          >>=-eq-ok (ok_or (find_if (λ (o : Operation). o.id == op_id) db.operations) not_found) _
            h in
        let (awaited, h2) = guard-ok (awaits_approval row.status) _ _ h1 in
        let (created, made, h3) =
          >>=-eq-ok (planned from_str fresh now op_id row.environment db) _ h2 in
        let (unique, h4) = guard-ok (count_if (gated op_id) db.operations == 1) _ _ h3 in
        let e = ok-injective h4 in
        record {
          row = row;
          created = created;
          is_found = ground (arith, found);
          awaited = awaited;
          made = made;
          operations = ground (arith, e);
          assignments = ground (arith, e);
          counts = ground (arith, e);
          audited =
              (approve_audit op_id actor approver reason (length created) ∷ [], ground (arith, e));
        }

    -- Not pending: the guard on the status that was read refuses.
    pub Decided-not_approved :
        (now : ℕ) (approver : String) (actor : Actor) (reason : Option String) (db db' : Db) (n : ℕ)
        → Decided op_id db
        → approve_operation from_str fresh now op_id approver actor reason db ≢ ok (db', n)
    Decided-not_approved now approver actor reason db db' n d h =
        let a = approve-Approved now approver actor reason db db' n h in
        let own = find_if-holds (λ (o : Operation). o.id == op_id) db.operations a.row a.is_found in
        let other =
          find_if-All (λ (o : Operation). gated op_id o ≡ false) _ db.operations a.row
            (any-false→All (gated op_id) db.operations d) a.is_found in
        ground (arith, a.awaited)

    pub approve-Decides :
        (now : ℕ) (approver : String) (actor : Actor) (reason : Option String) (db db' : Db) (n : ℕ)
        → approve_operation from_str fresh now op_id approver actor reason db ≡ ok (db', n)
        → Decides db.operations db'.operations
    unfolding approve_operation approve_row
    approve-Decides now approver actor reason db db' n h =
        let a = approve-Approved now approver actor reason db db' n h in
        record {
          decide = approve_row approver now reason n;
          same_id = λ o. refl;
          decided = λ o. row n;
          updates = a.operations;
          there = found-there db.operations a.row a.is_found;
        }
      where
        row :
            (k : ℕ)
            → awaits_approval
                (if k == 0 then OperationStatus.succeeded else OperationStatus.pending)
              ≡ false
        row k = ground arith

    -- An approval that succeeds adds as many assignments as it answers, and each row stands where the
    -- rollout expects it if each did before: only baseline rows of layer 0 wait for a canary, and
    -- only rows above layer 0 wait for a layer.
    pub approve_operation-IsPlaced :
        (now : ℕ) (approver : String) (actor : Actor) (reason : Option String) (db db' : Db) (n : ℕ)
        → IsPlaced db.assignments
        → approve_operation from_str fresh now op_id approver actor reason db ≡ ok (db', n)
        → IsPlaced db'.assignments × (length db'.assignments ≡ length db.assignments + n)
    approve_operation-IsPlaced now approver actor reason db db' n p h =
        let a = approve-Approved now approver actor reason db db' n h in
        let placed =
          planned-IsPlaced from_str fresh now op_id a.row.environment db a.created a.made in
        (
          rw a.assignments (All-append _ db.assignments a.created p placed),
          ap length a.assignments ∙ omega (arith, length-append db.assignments a.created, a.counts),
        )
