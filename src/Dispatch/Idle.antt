-- ===== src/Dispatch/Idle.antt =====
-- An operation of which nothing is dispatchable.
use iac.Prelude.{
  ◌&&◌, ◌⊎◌, err, ApiResult, ApiError, ℕ, ◌≡◌, refl, inl, inr, ◌∙◌, false, Option, List, [], ◌∷◌,
  ◌==◌, any, arith, map, keep_if, find_if-All, find_if-holds, update_where, Bool-cases,
  any-update_where-false, any-false→All, Pairs, ok, ◌-◌,
}
use iac.Tables.{AssignmentStatus, has_status, Db, Assignment, AssignmentResultRequest, AuditRecord}
use iac.Rollout.Gate.{dispatchable}
use iac.Rollout.Moves.{Moved, advance_phased_apply-Moved}
use iac.Dispatch.{
  listed, revert_assignment_claims, fetch_pending_assignments, claimed_by, claim, reportable,
  record_result, completed,
}
use iac.Dispatch.Leases.{Reverted, revert_assignment_claims-Reverted, any-sort_by_created}
use iac.Dispatch.Completion.{complete, complete-Taken}

module _ (op : ℕ) where
  abbrev Idle : List Assignment → Type 0
  Idle rows = any (dispatchable op) rows ≡ false

  claimed-other :
      (cutoff now agent_id : ℕ) (rows : List Assignment)
      → Idle rows
      → any
          (λ a. a.operation_id == op)
          (map (claim now) (keep_if (claimed_by agent_id cutoff) rows))
        ≡ false
  claimed-other cutoff now agent_id [] h = refl
  claimed-other cutoff now agent_id (a ∷ rows) h =
      ground (arith, h, claimed-other cutoff now agent_id rows)

  fetched-Idle :
      (cutoff now agent_id : ℕ) (rows : List Assignment)
      → Idle rows
      → Idle (update_where (claimed_by agent_id cutoff) (claim now) rows)
  fetched-Idle cutoff now agent_id rows h =
      any-update_where-false (λ a. dispatchable op a ≡ false) (dispatchable op)
        (claimed_by agent_id cutoff) (claim now) rows (λ a n. ground (arith, n))
        (any-false→All (dispatchable op) rows h)

  completed-Idle :
      (now assignment_id : ℕ) (result : AssignmentResultRequest) (rows : List Assignment)
      → Idle rows
      → Idle (completed now assignment_id result rows)
  completed-Idle now assignment_id result rows h =
      any-update_where-false (λ a. dispatchable op a ≡ false) (dispatchable op)
        (λ a. a.id == assignment_id) (record_result now result) rows (λ a n. ground (arith, n))
        (any-false→All (dispatchable op) rows h)

  Moved-Idle :
      (other : ℕ)
      → (other == op) ≡ false
      → (rows rows' : List Assignment) → Idle rows
      → Pairs (Moved other) rows rows'
      → Idle rows'
  Moved-Idle other n [] [] h m = refl
  Moved-Idle other n [] (b ∷ rows') h m = absurd m
  Moved-Idle other n (a ∷ rows) [] h m = absurd m
  Moved-Idle other n (a ∷ rows) (b ∷ rows') h m =
      let rest = Moved-Idle other n rows rows' (ground (arith, h)) m.1 in
      elim (Bool-cases (a.operation_id == other)) [
        | inl e ↦ ground (arith, e, n, m.0.same_operation, rest)
        | inr e ↦ rw (m.0.others_stay e) (ground (arith, h, rest))
      ]

  Reverted-Idle :
      (ids : List ℕ) (rows rows' : List Assignment)
      → Idle rows
      → Pairs (Reverted ids) rows rows'
      → Idle rows'
  Reverted-Idle ids [] [] h m = refl
  Reverted-Idle ids [] (b ∷ rows') h m = absurd m
  Reverted-Idle ids (a ∷ rows) [] h m = absurd m
  Reverted-Idle ids (a ∷ rows) (b ∷ rows') h m =
      let rest = Reverted-Idle ids rows rows' (ground (arith, h)) m.1 in
      elim (Bool-cases (listed ids a.id && has_status a.status AssignmentStatus.fetched)) [
        | inl e ↦ rw (m.0.given_back e) (ground (arith, e, h, rest))
        | inr e ↦ rw (m.0.others_stay e) (ground (arith, h, rest))
      ]

  reported-Idle :
      (now agent_id assignment_id : ℕ) (result : AssignmentResultRequest)
      (extra : Option AuditRecord) (db db' : Db)
      → Idle db.assignments
      → complete now agent_id assignment_id result extra db ≡ ok db'
      → Idle db'.assignments
  reported-Idle now agent_id assignment_id result extra db db' h e =
      let t = complete-Taken now agent_id assignment_id result extra db db' e in
      let idle =
        find_if-All (λ a. dispatchable op a ≡ false) _ db.assignments t.found
          (any-false→All (dispatchable op) db.assignments h) t.is_found in
      let taken =
        find_if-holds (reportable agent_id assignment_id) db.assignments t.found t.is_found in
      rw t.rows (
        Moved-Idle t.found.operation_id (ground (arith, idle, taken)) _ _
          (completed-Idle now assignment_id result db.assignments h)
          (advance_phased_apply-Moved t.found.operation_id now
            (completed now assignment_id result db.assignments)))

-- The calls of agents, and the claims that are given back when they could not be delivered.
pub data AgentCall : Type 0 where
  fetches : (lease_secs now agent_id : ℕ) → AgentCall
  gives_back : (ids : List ℕ) → AgentCall
  reports :
      (now agent_id assignment_id : ℕ) (result : AssignmentResultRequest)
      (extra : Option AuditRecord)
      → AgentCall

-- A transaction that fails leaves the database as it was.
abbrev committed : Db → ApiResult Db → Db
committed db (ok db') = db'
committed db (err reason) = db

abbrev pub after : AgentCall → Db → Db
after (fetches lease_secs now agent_id) db =
    (fetch_pending_assignments lease_secs now agent_id db).0
after (gives_back ids) db = revert_assignment_claims ids db
after (reports now agent_id assignment_id result extra) db =
    committed db (complete now agent_id assignment_id result extra db)

abbrev pub after_all : List AgentCall → Db → Db
after_all [] db = db
after_all (c ∷ calls) db = after_all calls (after c db)

ApiResult-cases : (r : ApiResult Db) → ((e : ApiError) × (r ≡ err e)) ⊎ ((db : Db) × (r ≡ ok db))
ApiResult-cases (err e) = inl (e, refl)
ApiResult-cases (ok db) = inr (db, refl)

module _ (op : ℕ) where
  fetch-Idle :
      (lease_secs now agent_id : ℕ) (db : Db)
      → Idle op db.assignments
      → Idle op (fetch_pending_assignments lease_secs now agent_id db).0.assignments
  unfolding fetch_pending_assignments
  fetch-Idle lease_secs now agent_id db h =
      fetched-Idle op (now - lease_secs) now agent_id db.assignments h

  after-Idle : (c : AgentCall) (db : Db) → Idle op db.assignments → Idle op (after c db).assignments
  after-Idle (fetches lease_secs now agent_id) db h = fetch-Idle lease_secs now agent_id db h
  after-Idle (gives_back ids) db h =
      Reverted-Idle op ids db.assignments _ h (revert_assignment_claims-Reverted ids db)
  after-Idle (reports now agent_id assignment_id result extra) db h =
      elim (ApiResult-cases (complete now agent_id assignment_id result extra db)) [
        | inl (e, k) ↦ rw k h
        | inr (db', k) ↦ rw k (reported-Idle op now agent_id assignment_id result extra db db' h k)
      ]

  after_all-Idle :
      (calls : List AgentCall) (db : Db)
      → Idle op db.assignments
      → Idle op (after_all calls db).assignments
  after_all-Idle [] db h = h
  after_all-Idle (c ∷ calls) db h = after_all-Idle calls (after c db) (after-Idle c db h)

  fetch-none :
      (lease_secs now agent_id : ℕ) (db : Db)
      → Idle op db.assignments
      → any (λ a. a.operation_id == op) (fetch_pending_assignments lease_secs now agent_id db).1
        ≡ false
  unfolding fetch_pending_assignments
  fetch-none lease_secs now agent_id db h =
      any-sort_by_created (λ a. a.operation_id == op) _
      ∙ claimed-other op (now - lease_secs) now agent_id db.assignments h

  -- An operation of which no assignment is pending or fetched stays so through every series of
  -- fetches, claims that are given back, and reports, taken or refused, by any agents at any times;
  -- and a fetch after them returns none of its assignments.
  pub agents-Idle :
      (calls : List AgentCall) (lease_secs now agent_id : ℕ) (db : Db)
      → any (dispatchable op) db.assignments ≡ false
      → (any (dispatchable op) (after_all calls db).assignments ≡ false)
        × (any
              (λ a. a.operation_id == op)
              (fetch_pending_assignments lease_secs now agent_id (after_all calls db)).1
            ≡ false)
  agents-Idle calls lease_secs now agent_id db h =
      let idle = after_all-Idle calls db h in
      (idle, fetch-none lease_secs now agent_id (after_all calls db) idle)
