-- ===== src/Dispatch.antt =====
-- crates/iac-controlplane/src/store.rs: how agents get assignments and report on them.
-- `fetch_pending_assignments` claims under a lease, `revert_assignment_claims` gives claims back,
-- `claim_ssh_pending` claims one for the SSH push, and `complete_assignment` records the result and
-- advances the rollout. The lease and the time are arguments, in one unit.
pub mod Leases
pub mod Completion
pub mod Idle
pub mod SshClaim
use iac.Prelude.{
  ℕ, ◌-◌, Bool, true, false, not, ◌&&◌, ◌||◌, Option, none, some, List, [], ◌∷◌, ◌++◌, map, String,
  ◌==◌, ltb, leb, if◌then◌else◌, length, any, keep_if, find_if, update_where, ApiResult, ok, err,
  not_found, ◌>>=◌, ok_or,
}
use iac.Json.{Value, object, field, end, nat, string, string_or_null}
use iac.Tables.{
  Db, Operation, OperationStatus, Assignment, AssignmentStatus, has_status, AssignmentResultRequest,
  AssignmentResultStatus, AuditRecord, Actor,
}
use iac.Rollout.{advance_phased_apply, roll_up_operation}

-- `status = 'pending' OR (status = 'fetched' AND fetched_at IS NOT NULL AND fetched_at < ?)`.
abbrev pub claimable : ℕ → Assignment → Bool
claimable lease_cutoff a =
    has_status a.status AssignmentStatus.pending
    || has_status a.status AssignmentStatus.fetched
      && elim a.fetched_at [ none ↦ false | some t ↦ ltb t lease_cutoff ]

abbrev pub claim : ℕ → Assignment → Assignment
claim now a = record a { status = AssignmentStatus.fetched; fetched_at = some now }

abbrev pub is_pending : OperationStatus → Bool
is_pending OperationStatus.pending = true
is_pending _ = false

-- `UPDATE operations SET status = 'running', started_at = COALESCE(started_at, ?) WHERE id = ? AND
-- status = 'pending'`.
unfoldable pub start_operation : ℕ → ℕ → List Operation → List Operation
start_operation now op_id =
    update_where (λ o. o.id == op_id && is_pending o.status)
      λ o. record o {
        status = OperationStatus.running;
        started_at = elim o.started_at [ none ↦ some now | some t ↦ some t ];
      }

-- The loop over the claimed rows, with the operations seen so far.
unfoldable pub start_operations : ℕ → List Assignment → List ℕ → List Operation → List Operation
unfolding start_operation
start_operations now [] op_ids_seen operations = operations
start_operations now (a ∷ rows) op_ids_seen operations =
    let seen = any (λ o. o == a.operation_id) op_ids_seen in
    start_operations now rows (if seen then op_ids_seen else a.operation_id ∷ op_ids_seen)
      (if seen then operations else start_operation now a.operation_id operations)

-- The stable sort by `created_at`.
insert_by_created : Assignment → List Assignment → List Assignment
insert_by_created a [] = a ∷ []
insert_by_created a (b ∷ rows) =
    if leb a.created_at b.created_at then a ∷ b ∷ rows else b ∷ insert_by_created a rows

unfoldable pub sort_by_created : List Assignment → List Assignment
unfolding insert_by_created
sort_by_created [] = []
sort_by_created (a ∷ rows) = insert_by_created a (sort_by_created rows)

abbrev pub claimed_by : ℕ → ℕ → Assignment → Bool
claimed_by agent_id lease_cutoff a = a.agent_id == agent_id && claimable lease_cutoff a

-- The rows that are returned are the claimed ones; the envelope takes its fields from them.
unfoldable pub fetch_pending_assignments : ℕ → ℕ → ℕ → Db → Db × List Assignment
unfolding start_operations sort_by_created
fetch_pending_assignments lease_secs now agent_id db =
    let rows = map (claim now) (keep_if (claimed_by agent_id (now - lease_secs)) db.assignments) in
    (
      record db {
        assignments =
            update_where (claimed_by agent_id (now - lease_secs)) (claim now) db.assignments;
        operations = start_operations now rows [] db.operations;
      },
      sort_by_created rows,
    )

revert_row : Assignment → Assignment
revert_row a = record a { status = AssignmentStatus.pending; fetched_at = none }

abbrev pub reverted : ℕ → Assignment → Bool
reverted id a = a.id == id && has_status a.status AssignmentStatus.fetched

unfoldable pub revert_claims : List ℕ → List Assignment → List Assignment
unfolding revert_row
revert_claims [] rows = rows
revert_claims (id ∷ ids) rows = revert_claims ids (update_where (reverted id) revert_row rows)

unfoldable pub revert_assignment_claims : List ℕ → Db → Db
unfolding revert_claims
revert_assignment_claims assignment_ids db = record db {
  assignments = revert_claims assignment_ids db.assignments;
}

abbrev pub listed : List ℕ → ℕ → Bool
listed ids id = any (λ i. i == id) ids

-- `SELECT id ... WHERE agent_id IN (...) AND ... ORDER BY created_at LIMIT 1`.
abbrev pub ssh_claimable : List ℕ → ℕ → Assignment → Bool
ssh_claimable target_ids lease_cutoff a = listed target_ids a.agent_id && claimable lease_cutoff a

unfoldable pub oldest : List Assignment → Option Assignment
unfolding sort_by_created
oldest rows = elim (sort_by_created rows) [ [] ↦ none | a ∷ rest ↦ some a ]

unfoldable pub claim_ssh_pending : ℕ → ℕ → List ℕ → Db → Db × Option Assignment
unfolding oldest start_operation
claim_ssh_pending lease_secs now target_ids db =
    elim (oldest (keep_if (ssh_claimable target_ids (now - lease_secs)) db.assignments)) [
      | none ↦ (db, none)
      | some a ↦ (
        record db {
          assignments = update_where (λ b. b.id == a.id) (claim now) db.assignments;
          operations = start_operation now a.operation_id db.operations;
        },
        some (claim now a),
      )
    ]

abbrev pub result_status : AssignmentResultStatus → AssignmentStatus
result_status AssignmentResultStatus.succeeded = AssignmentStatus.succeeded
result_status AssignmentResultStatus.partially_applied = AssignmentStatus.partially_applied
result_status AssignmentResultStatus.failed = AssignmentStatus.failed

status_text : AssignmentResultStatus → String
status_text AssignmentResultStatus.succeeded = "succeeded"
status_text AssignmentResultStatus.partially_applied = "partially_applied"
status_text AssignmentResultStatus.failed = "failed"

severity_of : AssignmentResultStatus → String
severity_of AssignmentResultStatus.failed = "warning"
severity_of AssignmentResultStatus.partially_applied = "warning"
severity_of AssignmentResultStatus.succeeded = "info"

completion_audit : ℕ → ℕ → ℕ → AssignmentResultRequest → AuditRecord
completion_audit agent_id assignment_id op_id result = record {
  actor = Actor.agent agent_id;
  kind = "assignment.completed";
  severity = severity_of result.status;
  operation_id = some op_id;
  agent_id = some agent_id;
  resource_id = none;
  drift_id = none;
  payload = object (
      field "assignment_id" (nat assignment_id) (
        field "status" (string (status_text result.status)) (
          field "item_count" (nat (length result.items))
            (field "summary" (string_or_null result.summary) end))));
}

abbrev pub reportable : ℕ → ℕ → Assignment → Bool
reportable agent_id assignment_id a =
    a.id == assignment_id
    && a.agent_id == agent_id
    && (has_status a.status AssignmentStatus.pending
        || has_status a.status AssignmentStatus.fetched)

abbrev pub record_result : ℕ → AssignmentResultRequest → Assignment → Assignment
record_result now result a = record a {
  status = result_status result.status;
  completed_at = some now;
  result = some result;
}

-- The rows right after the completed one is written, before the gates are looked at.
abbrev pub completed : ℕ → ℕ → AssignmentResultRequest → List Assignment → List Assignment
completed now assignment_id result =
    update_where (λ a. a.id == assignment_id) (record_result now result)

abbrev one_more : Option AuditRecord → List AuditRecord
one_more none = []
one_more (some a) = a ∷ []

unfoldable pub complete_assignment_with_extra_audit :
    ℕ → ℕ → ℕ → AssignmentResultRequest → Option AuditRecord → Db → ApiResult Db
unfolding completion_audit severity_of status_text
complete_assignment_with_extra_audit now agent_id assignment_id result extra_audit db = do
  found ← ok_or (find_if (reportable agent_id assignment_id) db.assignments) not_found
  let op_id = found.operation_id
  let rows = advance_phased_apply op_id now (completed now assignment_id result db.assignments)
  ok (record db {
    assignments = rows;
    operations = roll_up_operation op_id now rows db.operations;
    audit = db.audit ++ completion_audit agent_id assignment_id op_id result ∷ one_more extra_audit;
  })

unfoldable pub complete_assignment : ℕ → ℕ → ℕ → AssignmentResultRequest → Db → ApiResult Db
unfolding complete_assignment_with_extra_audit
complete_assignment now agent_id assignment_id result =
    complete_assignment_with_extra_audit now agent_id assignment_id result none
