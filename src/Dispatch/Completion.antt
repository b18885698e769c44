-- ===== src/Dispatch/Completion.antt =====
-- What the report of an agent does to the operation that it belongs to.
use iac.Prelude.{
  ℕ, ◌≡◌, ◌⊎◌, inl, inr, true, Option, some, List, ◌∷◌, All, ◌==◌, any, arith, find_if, Bool-cases,
  Option-cases, All-update_where, any-or_false, ApiResult, ok,
}
use iac.Tables.{Appends, Db, Assignment, Operation, AssignmentResultRequest, AuditRecord}
use iac.Rollout.{advance_phased_apply, roll_up_operation}
use iac.Rollout.Gate.{dispatchable, waiting, Progress, Placed, IsPlaced}
use iac.Rollout.Progress.{advance_phased_apply-Progress}
use iac.Rollout.Barrier.{advance_phased_apply-IsPlaced}
use iac.Rollout.Verdict.{is_terminal, roll_up_operation-terminal}
use iac.Dispatch.{
  complete_assignment_with_extra_audit, completion_audit, one_more, reportable, record_result,
  completed,
}

module _ (now agent_id assignment_id : ℕ) (result : AssignmentResultRequest)
    (extra : Option AuditRecord) where
  abbrev pub complete : Db → ApiResult Db
  complete = complete_assignment_with_extra_audit now agent_id assignment_id result extra

  completed-IsPlaced :
      (rows : List Assignment) → IsPlaced rows → IsPlaced (completed now assignment_id result rows)
  completed-IsPlaced rows h =
      All-update_where Placed Placed (λ a. a.id == assignment_id) (record_result now result) rows
        (λ a p. ground arith) h

  abbrev pub rows_after : ℕ → Db → List Assignment
  rows_after op db = advance_phased_apply op now (completed now assignment_id result db.assignments)

  -- A report that is taken found its assignment, and wrote the tables from it.
  pub record Taken (db db' : Db) : Type 0 where
    pub found : Assignment
    pub is_found : find_if (reportable agent_id assignment_id) db.assignments ≡ some found
    pub rows : db'.assignments ≡ rows_after found.operation_id db
    pub operations :
        db'.operations
        ≡ roll_up_operation found.operation_id now (rows_after found.operation_id db) db.operations
    pub audited : Appends db.audit db'.audit

  pub complete-Taken : (db db' : Db) → complete db ≡ ok db' → Taken db db'
  unfolding complete_assignment_with_extra_audit
  complete-Taken db db' e =
      elim (Option-cases (find_if (reportable agent_id assignment_id) db.assignments)) [
        | inl n ↦ absurd (ground arith)
        | inr (a, s) ↦ record {
          found = a;
          is_found = s;
          rows = ground arith;
          operations = ground arith;
          audited = (
            completion_audit agent_id assignment_id a.operation_id result ∷ one_more extra,
            ground arith,
          );
        }
      ]

  -- If rows wait for a canary only in the baseline of layer 0, and for a layer only above layer 0,
  -- this still holds after a report that is taken.
  pub complete-IsPlaced :
      (db db' : Db) → IsPlaced db.assignments → complete db ≡ ok db' → IsPlaced db'.assignments
  complete-IsPlaced db db' h e =
      let t = complete-Taken db db' e in
      rw t.rows (
        advance_phased_apply-IsPlaced t.found.operation_id now _
          (completed-IsPlaced db.assignments h))

  abbrev pub SettledOperation : ℕ → List Operation → Type 0
  SettledOperation op operations =
      All (λ o. (o.id == op) ≡ true → is_terminal o.status ≡ true) operations

  settled_rows :
      (op : ℕ) (rows : List Assignment) (operations : List Operation)
      → Progress op rows
      → (any (dispatchable op) rows ≡ true)
        ⊎ SettledOperation op (roll_up_operation op now rows operations)
  settled_rows op rows operations (inl d) = inl d
  settled_rows op rows operations (inr w) = elim (Bool-cases (any (dispatchable op) rows)) [
    | inl d ↦ inl d
    | inr d ↦ inr (
        roll_up_operation-terminal op now rows operations
          (any-or_false (dispatchable op) (waiting op) rows d w))
  ]

  -- In a table whose rows wait for a canary only in the baseline of layer 0, and for a layer only
  -- above layer 0, a report that is taken never leaves its operation stuck: the report's
  -- assignment is found, and afterwards some assignment of its operation is pending or fetched, or
  -- the operation has a terminal status.
  pub complete-no_stall :
      (db db' : Db)
      → IsPlaced db.assignments
      → complete db ≡ ok db'
      → (a : Assignment) × (find_if (reportable agent_id assignment_id) db.assignments ≡ some a)
        × ((any (dispatchable a.operation_id) db'.assignments ≡ true)
            ⊎ SettledOperation a.operation_id db'.operations)
  complete-no_stall db db' h e =
      let t = complete-Taken db db' e in
      let op = t.found.operation_id in
      (
        t.found,
        t.is_found,
        rw (t.rows, t.operations)
            (settled_rows op (rows_after op db) db.operations
              (advance_phased_apply-Progress op now _ (completed-IsPlaced db.assignments h))),
      )
