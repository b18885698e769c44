-- ===== src/Lifecycle/Decisions.antt =====
-- An operation that waits for approval is decided once, whatever calls come in between.
use iac.Prelude.{
  ℕ, ◌≤◌, ◌≡◌, ◌≢◌, ◌⊎◌, refl, sym, ◌∙◌, inl, inr, Bool, false, not, Option, some, List, [], ◌∷◌,
  All, All-Unit, All-update_where, String, ◌==◌, any, count_if, count_if-append, update_where,
  if◌then◌else◌, arith, Bool-cases, Option-cases, ok, ◌-◌, map, keep_if,
}
use iac.Json.{Value}
use iac.Tables.{Db, Operation, OperationStatus, Assignment, Actor}
use iac.Submit.Laws.{create-Submitted}
use iac.Rollout.{rolled_up, tally, roll_up_operation}
use iac.Approval.{approve_operation, reject_operation, gated, awaits_approval}
use iac.Approval.Gate.{
  Decides, approve-Decides, reject-Decides, Decided-not_approved, Decided-not_rejected,
}
use iac.Dispatch.{
  fetch_pending_assignments, revert_assignment_claims, claim_ssh_pending, start_operation,
  start_operations, claim, claimed_by, ssh_claimable, oldest,
}
use iac.Dispatch.Completion.{complete-Taken}
use iac.Lifecycle.{Step, Reach, create, approve, reject, fetch, revert, claim_ssh, complete}
use iac.Lifecycle.Unique.{Reach-unique, has_key, count-update_where, IsSettled, append-IsSettled}

abbrev op_key : Operation → ℕ
op_key o = o.id

abbrev is_decided : Operation → Bool
is_decided o = not (awaits_approval o.status)

rolled_up-decided :
    (op : ℕ) (rows : List Assignment) (s : OperationStatus)
    → rolled_up (tally op rows) ≡ some s
    → awaits_approval s ≡ false
unfolding rolled_up
rolled_up-decided op rows s h = ground (arith, h)

module _ (op_id : ℕ) where
  abbrev pub count_of : Db → ℕ
  count_of db = count_if (has_key op_key op_id) db.operations

  abbrev pub AllDecided : List Operation → Type 0
  AllDecided = All (IsSettled op_key op_id is_decided)

  -- The operations after a call: as many of the key, and decided if they were.
  record Kept (os os' : List Operation) : Type 0 where
    as_many : count_if (has_key op_key op_id) os ≡ count_if (has_key op_key op_id) os'
    still : AllDecided os → AllDecided os'

  same-Kept : (os : List Operation) → Kept os os
  same-Kept os = record { as_many = refl; still = λ h. h }

  update-Kept :
      (p : Operation → Bool) (f : Operation → Operation)
      → ((o : Operation) → (f o).id ≡ o.id)
      → ((o : Operation) → awaits_approval (f o).status ≡ false)
      → (os : List Operation) → Kept os (update_where p f os)
  update-Kept p f same decided os = record {
    as_many = sym (count-update_where op_key op_id p f same os);
    still =
        All-update_where (IsSettled op_key op_id is_decided) (IsSettled op_key op_id is_decided) p f
          os
          (λ o h. elim (Bool-cases (p o)) [
            | inl e ↦ rw e (λ k. rw (decided o) refl)
            | inr e ↦ rw e h
          ]);
  }

  start_operation-Kept : (now id : ℕ) (os : List Operation) → Kept os (start_operation now id os)
  unfolding start_operation
  start_operation-Kept now id os = update-Kept _ _ (λ o. refl) (λ o. refl) os

  start_operations-Kept :
      (now : ℕ) (rows : List Assignment) (seen : List ℕ) (os : List Operation)
      → Kept os (start_operations now rows seen os)
  unfolding start_operations
  start_operations-Kept now [] seen os = same-Kept os
  start_operations-Kept now (a ∷ rows) seen os =
      elim (Bool-cases (any (λ o. o == a.operation_id) seen)) [
        | inl e ↦ rw e (start_operations-Kept now rows seen os)
        | inr e ↦
            let first = start_operation-Kept now a.operation_id os in
            let rest =
              start_operations-Kept now rows (a.operation_id ∷ seen)
                (start_operation now a.operation_id os) in
            rw e (record {
              as_many = first.as_many ∙ rest.as_many;
              still = λ h. rest.still (first.still h);
            })
      ]

  roll_up-Kept :
      (now op : ℕ) (rows : List Assignment) (os : List Operation)
      → Kept os (roll_up_operation op now rows os)
  unfolding roll_up_operation
  roll_up-Kept now op rows os = elim (Option-cases (rolled_up (tally op rows))) [
    | inl e ↦ rw (roll_up_operation, e) (same-Kept os)
    | inr (s, e) ↦
        rw (roll_up_operation, e)
          (update-Kept _ _ (λ o. refl) (λ o. rolled_up-decided op rows s e) os)
  ]

  decision-Kept : (id : ℕ) (os os' : List Operation) → Decides id os os' → Kept os os'
  decision-Kept id os os' d = rw d.updates (update-Kept (gated id) d.decide d.same_id d.decided os)

  fetch-Kept :
      (lease_secs now agent_id : ℕ) (db : Db)
      → Kept db.operations (fetch_pending_assignments lease_secs now agent_id db).0.operations
  unfolding fetch_pending_assignments
  fetch-Kept lease_secs now agent_id db =
      start_operations-Kept now
        (map (claim now) (keep_if (claimed_by agent_id (now - lease_secs)) db.assignments)) []
        db.operations

  revert-operations :
      (ids : List ℕ) (db : Db) → (revert_assignment_claims ids db).operations ≡ db.operations
  unfolding revert_assignment_claims
  revert-operations ids db = refl

  claim_ssh-Kept :
      (lease_secs now : ℕ) (target_ids : List ℕ) (db : Db)
      → Kept db.operations (claim_ssh_pending lease_secs now target_ids db).0.operations
  unfolding claim_ssh_pending
  claim_ssh-Kept lease_secs now target_ids db =
      elim (Option-cases
        (oldest (keep_if (ssh_claimable target_ids (now - lease_secs)) db.assignments))) [
          | inl e ↦ rw (claim_ssh_pending, e) (same-Kept db.operations)
          | inr (a, e) ↦
              rw (claim_ssh_pending, e) (start_operation-Kept now a.operation_id db.operations)
        ]

  module _ (from_str : String → Option Value) where
    pub Step-grows : (db db' : Db) → Step from_str db db' → count_of db ≤ count_of db'
    Step-grows _ _ (create fresh now req db db' out h) =
        let s = create-Submitted from_str fresh now req db db' out h in
        rw s.operations
          (omega (arith, count_if-append (has_key op_key op_id) db.operations (s.operation ∷ [])))
    Step-grows _ _ (approve fresh now id approver actor reason db db' n h) = omega (
      arith,
      (decision-Kept id _ _
          (approve-Decides id from_str fresh now approver actor reason db db' n h)).as_many,
    )
    Step-grows _ _ (reject now id rejector actor reason db db' h) = omega (
      arith,
      (decision-Kept id _ _ (reject-Decides id now rejector actor reason db db' h)).as_many,
    )
    Step-grows _ _ (fetch lease_secs now agent_id db) =
        omega (arith, (fetch-Kept lease_secs now agent_id db).as_many)
    Step-grows _ _ (revert ids db) = rw (revert-operations ids db) (omega arith)
    Step-grows _ _ (claim_ssh lease_secs now target_ids db) =
        omega (arith, (claim_ssh-Kept lease_secs now target_ids db).as_many)
    Step-grows _ _ (complete now agent_id assignment_id result extra db db' h) =
        let t = complete-Taken now agent_id assignment_id result extra db db' h in
        rw t.operations
          (omega (arith, (roll_up-Kept now t.found.operation_id _ db.operations).as_many))

    pub Step-AllDecided :
        (db db' : Db)
        → Step from_str db db'
        → count_of db' ≤ count_of db
        → AllDecided db.operations
        → AllDecided db'.operations
    Step-AllDecided _ _ (create fresh now req db db' out h) n p =
        let s = create-Submitted from_str fresh now req db db' out h in
        rw s.operations (
          append-IsSettled op_key op_id is_decided db.operations (s.operation ∷ []) p
            (rw s.operations at n))
    Step-AllDecided _ _ (approve fresh now id approver actor reason db db' m h) n p =
        (decision-Kept id _ _
            (approve-Decides id from_str fresh now approver actor reason db db' m h)).still
          p
    Step-AllDecided _ _ (reject now id rejector actor reason db db' h) n p =
        (decision-Kept id _ _ (reject-Decides id now rejector actor reason db db' h)).still p
    Step-AllDecided _ _ (fetch lease_secs now agent_id db) n p =
        (fetch-Kept lease_secs now agent_id db).still p
    Step-AllDecided _ _ (revert ids db) n p = rw (revert-operations ids db) p
    Step-AllDecided _ _ (claim_ssh lease_secs now target_ids db) n p =
        (claim_ssh-Kept lease_secs now target_ids db).still p
    Step-AllDecided _ _ (complete now agent_id assignment_id result extra db db' h) n p =
        let t = complete-Taken now agent_id assignment_id result extra db db' h in
        rw t.operations ((roll_up-Kept now t.found.operation_id _ db.operations).still p)

    pub first-AllDecided : (os os' : List Operation) → Decides op_id os os' → AllDecided os'
    first-AllDecided os os' d = rw d.updates (
        All-update_where (λ o. Unit {0}) (IsSettled op_key op_id is_decided) (gated op_id) d.decide
          os row (All-Unit os))
      where
        row :
            (o : Operation)
            → Unit {0}
            → IsSettled op_key op_id is_decided (if gated op_id o then d.decide o else o)
        row o u = elim (Bool-cases (gated op_id o)) [
          | inl e ↦ rw e (λ k. rw (d.decided o) refl)
          | inr e ↦ rw e (λ k. ground (arith, e, k))
        ]

    pub AllDecided-Decided : (os : List Operation) → AllDecided os → any (gated op_id) os ≡ false
    AllDecided-Decided [] h = refl
    AllDecided-Decided (o ∷ os) h = ground (arith, h.0, AllDecided-Decided os h.1)

    -- Once an approval or a rejection of an operation has succeeded, then after any series of calls
    -- no approval and no rejection of it succeeds, whoever makes it and whatever the reason, if
    -- the database has no two operations of its id by then, as its primary key demands.
    pub decision-final :
        (fresh fresh' : ℕ → ℕ) (now later : ℕ) (who by : String) (actor other : Actor)
        (reason why : Option String) (text because : String) (start first db after : Db) (n m : ℕ)
        → (approve_operation from_str fresh now op_id who actor reason start ≡ ok (first, n))
          ⊎ (reject_operation now op_id who actor text start ≡ ok first)
        → Reach from_str first db
        → count_if (λ o. o.id == op_id) db.operations ≤ 1
        → (approve_operation from_str fresh' later op_id by other why db ≢ ok (after, m))
          × (reject_operation later op_id by other because db ≢ ok after)
    decision-final fresh fresh' now later who by actor other reason why text because start first db
          after n m h r unique =
        let decision : Decides op_id start.operations first.operations = elim h [
          | inl a ↦ approve-Decides op_id from_str fresh now who actor reason start first n a
          | inr b ↦ reject-Decides op_id now who actor text start first b
        ] in
        let there : 1 ≤ count_of first =
          omega (arith, decision.there, (decision-Kept op_id _ _ decision).as_many) in
        let all =
          Reach-unique from_str count_of (λ d. AllDecided d.operations) Step-grows Step-AllDecided
            first db r there unique (first-AllDecided _ _ decision) in
        let d = AllDecided-Decided db.operations all.0 in
        (
          Decided-not_approved op_id from_str fresh' later by other why db after m d,
          Decided-not_rejected op_id later by other because db after d,
        )
