-- ===== src/Lifecycle/Reports.antt =====
-- A report is taken once, whatever calls come in between.
use iac.Prelude.{
  ℕ, ◌≤◌, ◌≡◌, refl, sym, false, Option, some, List, [], ◌∷◌, All, ◌==◌, any, arith, All-Unit,
  All-update_where, find_if, any-false→find_if, ok, err, not_found, count_if, count_if-append,
  String,
}
use iac.Json.{Value}
use iac.Tables.{Db, Assignment, AssignmentResultRequest, AuditRecord}
use iac.Rollout.Moves.{advance_phased_apply-Moved}
use iac.Submit.Laws.{create-Submitted}
use iac.Approval.Gate.{approve-Approved}
use iac.Dispatch.{
  complete_assignment_with_extra_audit, reportable, completed, record_result,
  fetch_pending_assignments,
}
use iac.Dispatch.Completion.{complete-Taken, complete}
use iac.Dispatch.Leases.{revert_assignment_claims-Reverted}
use iac.Lifecycle.{
  Step, Reach, create, approve, reject, fetch, revert, claim_ssh, complete as reports,
}
use iac.Lifecycle.Placement.{reject-assignments}
use iac.Lifecycle.Unique.{Reach-unique, has_key, append-IsSettled}
use iac.Lifecycle.Rows.{
  id_key, is_done, rows_of, IsDone, fetch-Kept, Reverted-Kept, claim_ssh-Kept, report-Kept,
  Pairs-Kept,
}

module _ (assignment_id : ℕ) where
  -- Neither a report nor a fetch adds or removes a row.
  pub report-rows_of :
      (now agent_id id : ℕ) (result : AssignmentResultRequest) (extra : Option AuditRecord)
      (db db' : Db)
      → complete now agent_id id result extra db ≡ ok db'
      → rows_of assignment_id db' ≡ rows_of assignment_id db
  report-rows_of now agent_id id result extra db db' h =
      sym (report-Kept assignment_id now agent_id id result extra db db' h).as_many

  pub fetch-rows_of :
      (lease_secs now agent_id : ℕ) (db : Db)
      → rows_of assignment_id (fetch_pending_assignments lease_secs now agent_id db).0
        ≡ rows_of assignment_id db
  fetch-rows_of lease_secs now agent_id db =
      sym (fetch-Kept assignment_id lease_secs now agent_id db).as_many

  -- The rows after the report that is taken.
  first-IsDone :
      (now agent_id : ℕ) (result : AssignmentResultRequest) (extra : Option AuditRecord)
      (db db' : Db)
      → complete now agent_id assignment_id result extra db ≡ ok db'
      → All (IsDone assignment_id) db'.assignments
  first-IsDone now agent_id result extra db db' h =
      let t = complete-Taken now agent_id assignment_id result extra db db' h in
      let op = t.found.operation_id in
      let kept =
        Pairs-Kept assignment_id op _ _
          (advance_phased_apply-Moved op now (completed now assignment_id result db.assignments)) in
      rw t.rows (
        kept.still (
          All-update_where (λ a. Unit {0}) (IsDone assignment_id) (λ a. a.id == assignment_id)
            (record_result now result) db.assignments (λ a u k. ground (arith, k))
            (All-Unit db.assignments)))

  found-there :
      (agent_id : ℕ) (rows : List Assignment) (a : Assignment)
      → find_if (reportable agent_id assignment_id) rows ≡ some a
      → 1 ≤ count_if (has_key id_key assignment_id) rows
  found-there agent_id [] a h = cc
  found-there agent_id (x ∷ rows) a h = ground (arith, h, found-there agent_id rows a)

  none_reportable :
      (agent_id : ℕ) (rows : List Assignment)
      → All (IsDone assignment_id) rows
      → any (reportable agent_id assignment_id) rows ≡ false
  none_reportable agent_id [] h = refl
  none_reportable agent_id (a ∷ rows) h = ground (arith, h.0, none_reportable agent_id rows h.1)

  module _ (from_str : String → Option Value) where
    Step-grows :
        (db db' : Db) → Step from_str db db' → rows_of assignment_id db ≤ rows_of assignment_id db'
    Step-grows _ _ (create fresh now req db db' out h) =
        let s = create-Submitted from_str fresh now req db db' out h in
        rw s.assignments
          (omega (arith, count_if-append (has_key id_key assignment_id) db.assignments s.created))
    Step-grows _ _ (approve fresh now id approver actor reason db db' n h) =
        let a = approve-Approved id from_str fresh now approver actor reason db db' n h in
        rw a.assignments
          (omega (arith, count_if-append (has_key id_key assignment_id) db.assignments a.created))
    Step-grows _ _ (reject now id rejector actor reason db db' h) =
        rw (reject-assignments now id rejector actor reason db db' h) (omega arith)
    Step-grows _ _ (fetch lease_secs now agent_id db) =
        omega (arith, (fetch-Kept assignment_id lease_secs now agent_id db).as_many)
    Step-grows _ _ (revert ids db) = omega (
      arith,
      (Reverted-Kept assignment_id ids _ _ (revert_assignment_claims-Reverted ids db)).as_many,
    )
    Step-grows _ _ (claim_ssh lease_secs now target_ids db) =
        omega (arith, (claim_ssh-Kept assignment_id lease_secs now target_ids db).as_many)
    Step-grows _ _ (reports now agent_id id result extra db db' h) =
        omega (arith, (report-Kept assignment_id now agent_id id result extra db db' h).as_many)

    Step-IsDone :
        (db db' : Db)
        → Step from_str db db'
        → rows_of assignment_id db' ≤ rows_of assignment_id db
        → All (IsDone assignment_id) db.assignments
        → All (IsDone assignment_id) db'.assignments
    Step-IsDone _ _ (create fresh now req db db' out h) n p =
        let s = create-Submitted from_str fresh now req db db' out h in
        rw s.assignments (
          append-IsSettled id_key assignment_id is_done db.assignments s.created p
            (rw s.assignments at n))
    Step-IsDone _ _ (approve fresh now id approver actor reason db db' m h) n p =
        let a = approve-Approved id from_str fresh now approver actor reason db db' m h in
        rw a.assignments (
          append-IsSettled id_key assignment_id is_done db.assignments a.created p
            (rw a.assignments at n))
    Step-IsDone _ _ (reject now id rejector actor reason db db' h) n p =
        rw (reject-assignments now id rejector actor reason db db' h) p
    Step-IsDone _ _ (fetch lease_secs now agent_id db) n p =
        (fetch-Kept assignment_id lease_secs now agent_id db).still p
    Step-IsDone _ _ (revert ids db) n p =
        (Reverted-Kept assignment_id ids _ _ (revert_assignment_claims-Reverted ids db)).still p
    Step-IsDone _ _ (claim_ssh lease_secs now target_ids db) n p =
        (claim_ssh-Kept assignment_id lease_secs now target_ids db).still p
    Step-IsDone _ _ (reports now agent_id id result extra db db' h) n p =
        (report-Kept assignment_id now agent_id id result extra db db' h).still p

    -- Once a report on an assignment was taken, then after any series of calls every report on it is
    -- answered with not_found, whichever agent makes it and whatever it says, if the database has no
    -- two assignments of its id by then, as its primary key demands.
    pub reported-once :
        (now later agent_id by : ℕ) (result other : AssignmentResultRequest)
        (extra more : Option AuditRecord) (start first db : Db)
        → complete now agent_id assignment_id result extra start ≡ ok first
        → Reach from_str first db
        → count_if (λ a. a.id == assignment_id) db.assignments ≤ 1
        → complete later by assignment_id other more db ≡ err not_found
    unfolding complete_assignment_with_extra_audit
    reported-once now later agent_id by result other extra more start first db h r unique =
        let t = complete-Taken now agent_id assignment_id result extra start first h in
        let there : 1 ≤ rows_of assignment_id first = omega (
          arith,
          found-there agent_id start.assignments t.found t.is_found,
          (report-Kept assignment_id now agent_id assignment_id result extra start first h).as_many,
        ) in
        let all =
          Reach-unique from_str (rows_of assignment_id)
            (λ d. All (IsDone assignment_id) d.assignments) Step-grows Step-IsDone first db r there
            unique (first-IsDone now agent_id result extra start first h) in
        let gone =
          any-false→find_if (reportable by assignment_id) db.assignments
            (none_reportable by db.assignments all.0) in
        rw (gone, complete_assignment_with_extra_audit)
