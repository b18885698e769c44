-- ===== src/Lifecycle/Gated.antt =====
-- An operation that waits for approval has no assignments, whatever calls come.
use iac.Prelude.{
  ℕ, ◌≤◌, ◌≡◌, ◌⊎◌, refl, ap, subst, inl, inr, Bool, true, false, Option, List, [], ◌∷◌, ◌++◌,
  String, ◌==◌, any, any-false→All, count_if, count_if-append, any-update_where-false, update_where,
  arith, Bool-cases, Option-cases, Pairs, ok, ◌-◌, keep_if, ==_iff, ◌&&◌,
}
use iac.Json.{Value}
use iac.Tables.{Db, Assignment, AssignmentStatus, has_status}
use iac.Submit.{create_operation, CreateOperation, CreateOperationOutcome}
use iac.Submit.Laws.{create-Submitted, created-others, created-gated}
use iac.Rollout.Moves.{Moved, advance_phased_apply-Moved}
use iac.Approval.{gated}
use iac.Approval.Gate.{approve-Approved, approve-Decides, planned-others}
use iac.Dispatch.{
  fetch_pending_assignments, claim_ssh_pending, claim, claimed_by, ssh_claimable, oldest, completed,
  record_result, listed,
}
use iac.Dispatch.Leases.{Reverted, revert_assignment_claims-Reverted}
use iac.Dispatch.Completion.{complete-Taken}
use iac.Lifecycle.{Step, Reach, create, approve, reject, fetch, revert, claim_ssh, complete}
use iac.Lifecycle.Placement.{reject-assignments}
use iac.Lifecycle.Unique.{Reach-unique}
use iac.Lifecycle.Decisions.{
  count_of, AllDecided, Step-grows, Step-AllDecided, first-AllDecided, AllDecided-Decided,
}

module _ (op_id : ℕ) where
  abbrev is_own : Assignment → Bool
  is_own a = a.operation_id == op_id

  abbrev NoRows : List Assignment → Type 0
  NoRows rows = any is_own rows ≡ false

  append-NoRows : (rows more : List Assignment) → NoRows rows → NoRows more → NoRows (rows ++ more)
  append-NoRows [] more h k = k
  append-NoRows (a ∷ rows) more h k =
      ground (arith, h, append-NoRows rows more (ground (arith, h)) k)

  update-NoRows :
      (p : Assignment → Bool) (f : Assignment → Assignment)
      → ((a : Assignment) → (f a).operation_id ≡ a.operation_id)
      → (rows : List Assignment) → NoRows rows
      → NoRows (update_where p f rows)
  update-NoRows p f same rows h =
      any-update_where-false (λ a. is_own a ≡ false) is_own p f rows
        (λ a n. elim (Bool-cases (p a)) [ inl e ↦ rw (e, same a) n | inr e ↦ rw e n ])
        (any-false→All is_own rows h)

  Pairs-NoRows :
      (R : Assignment → Assignment → Type 0)
      → ((a b : Assignment) → R a b → b.operation_id ≡ a.operation_id)
      → (rows rows' : List Assignment) → Pairs R rows rows'
      → NoRows rows
      → NoRows rows'
  Pairs-NoRows R same [] [] m h = refl
  Pairs-NoRows R same [] (b ∷ rows') m h = absurd m
  Pairs-NoRows R same (a ∷ rows) [] m h = absurd m
  Pairs-NoRows R same (a ∷ rows) (b ∷ rows') m h =
      ground (arith, h, same a b m.0, Pairs-NoRows R same rows rows' m.1 (ground (arith, h)))

  Reverted-operation :
      (ids : List ℕ) (a b : Assignment) → Reverted ids a b → b.operation_id ≡ a.operation_id
  Reverted-operation ids a b r =
      elim (Bool-cases (listed ids a.id && has_status a.status AssignmentStatus.fetched)) [
        | inl e ↦ ap (λ x. x.operation_id) (r.given_back e)
        | inr e ↦ ap (λ x. x.operation_id) (r.others_stay e)
      ]

  fetch-NoRows :
      (lease_secs now agent_id : ℕ) (db : Db)
      → NoRows db.assignments
      → NoRows (fetch_pending_assignments lease_secs now agent_id db).0.assignments
  unfolding fetch_pending_assignments
  fetch-NoRows lease_secs now agent_id db h =
      update-NoRows (claimed_by agent_id (now - lease_secs)) (claim now) (λ a. refl) db.assignments
        h

  claim_ssh-NoRows :
      (lease_secs now : ℕ) (target_ids : List ℕ) (db : Db)
      → NoRows db.assignments
      → NoRows (claim_ssh_pending lease_secs now target_ids db).0.assignments
  unfolding claim_ssh_pending
  claim_ssh-NoRows lease_secs now target_ids db h =
      elim (Option-cases
        (oldest (keep_if (ssh_claimable target_ids (now - lease_secs)) db.assignments))) [
          | inl e ↦ rw (claim_ssh_pending, e) h
          | inr (a, e) ↦
              rw (claim_ssh_pending, e)
                (update-NoRows (λ b. b.id == a.id) (claim now) (λ b. refl) db.assignments h)
        ]

  -- The operation is decided, or nothing of it can be dispatched.
  abbrev Gated : Db → Type 0
  Gated db = AllDecided op_id db.operations ⊎ NoRows db.assignments

  module _ (from_str : String → Option Value) where
    Step-NoRows :
        (db db' : Db)
        → Step from_str db db'
        → count_of op_id db' ≤ count_of op_id db
        → NoRows db.assignments
        → Gated db'
    Step-NoRows _ _ (create fresh now req db db' out h) n p =
        let s = create-Submitted from_str fresh now req db db' out h in
        let grown = rw s.operations at n in
        let other : (fresh 0 == op_id) ≡ false = ground (
          arith,
          count_if-append (λ o. o.id == op_id) db.operations (s.operation ∷ []),
          grown,
          s.is_new,
        ) in
        inr (
          rw s.assignments (
            append-NoRows db.assignments s.created p
              (created-others from_str fresh op_id now req db db' out s other)))
    Step-NoRows _ _ (approve fresh now id approver actor reason db db' m h) n p =
        elim (Bool-cases (id == op_id)) [
          | inl e ↦
              let d = approve-Decides id from_str fresh now approver actor reason db db' m h in
              let same : id ≡ op_id = (==_iff id op_id).0 e in
              inl (
                subst (λ k. AllDecided k db'.operations) same
                  (first-AllDecided id from_str db.operations db'.operations d))
          | inr e ↦
              let a = approve-Approved id from_str fresh now approver actor reason db db' m h in
              inr (
                rw a.assignments (
                  append-NoRows db.assignments a.created p (
                    planned-others op_id from_str fresh now id a.row.environment db a.created e
                      a.made)))
        ]
    Step-NoRows _ _ (reject now id rejector actor reason db db' h) n p =
        inr (rw (reject-assignments now id rejector actor reason db db' h) p)
    Step-NoRows _ _ (fetch lease_secs now agent_id db) n p =
        inr (fetch-NoRows lease_secs now agent_id db p)
    Step-NoRows _ _ (revert ids db) n p = inr (
        Pairs-NoRows (Reverted ids) (Reverted-operation ids) _ _
          (revert_assignment_claims-Reverted ids db) p)
    Step-NoRows _ _ (claim_ssh lease_secs now target_ids db) n p =
        inr (claim_ssh-NoRows lease_secs now target_ids db p)
    Step-NoRows _ _ (complete now agent_id assignment_id result extra db db' h) n p =
        let t = complete-Taken now agent_id assignment_id result extra db db' h in
        let op = t.found.operation_id in
        inr (
          rw t.rows (
            Pairs-NoRows (Moved op) (λ a b m. m.same_operation) _ _
              (advance_phased_apply-Moved op now
                (completed now assignment_id result db.assignments))
              (update-NoRows (λ a. a.id == assignment_id) (record_result now result) (λ a. refl)
                db.assignments p)))

    Step-Gated :
        (db db' : Db)
        → Step from_str db db'
        → count_of op_id db' ≤ count_of op_id db
        → Gated db
        → Gated db'
    Step-Gated db db' s n (inl d) = inl (Step-AllDecided op_id from_str db db' s n d)
    Step-Gated db db' s n (inr p) = Step-NoRows db db' s n p

module _ (from_str : String → Option Value) where
  -- After the submission of an operation that needs approval, whose fresh id no assignment has, and
  -- any series of calls: as long as the operation waits for approval, the database has no
  -- assignment of it, if it has no two operations of that id, as its primary key demands.
  pub gated-no_assignments :
      (fresh : ℕ → ℕ) (now : ℕ) (req : CreateOperation) (start first db : Db)
      (out : CreateOperationOutcome)
      → req.requires_approval ≡ true
      → any (λ a. a.operation_id == fresh 0) start.assignments ≡ false
      → create_operation from_str fresh now req start ≡ ok (first, out)
      → Reach from_str first db
      → count_if (λ o. o.id == fresh 0) db.operations ≤ 1
      → any (gated (fresh 0)) db.operations ≡ true
      → any (λ a. a.operation_id == fresh 0) db.assignments ≡ false
  gated-no_assignments fresh now req start first db out q unused h r unique waits =
      let s = create-Submitted from_str fresh now req start first out h in
      let no_rows : NoRows (fresh 0) first.assignments =
        rw (s.assignments, created-gated from_str fresh now req start first out s q)
          (append-NoRows (fresh 0) start.assignments [] unused refl) in
      let there : 1 ≤ count_of (fresh 0) first = rw s.operations (
        ground (
          arith,
          count_if-append (λ o. o.id == fresh 0) start.operations (s.operation ∷ []),
          s.is_new,
        )) in
      let held =
        Reach-unique from_str (count_of (fresh 0)) (Gated (fresh 0)) (Step-grows (fresh 0) from_str)
          (Step-Gated (fresh 0) from_str) first db r there unique (inr no_rows) in
      elim held.0 [
        | inl d ↦
            absurd (ground (arith, waits, AllDecided-Decided (fresh 0) from_str db.operations d))
        | inr p ↦ p
      ]
