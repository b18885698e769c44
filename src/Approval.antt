-- ===== src/Approval.antt =====
-- crates/iac-controlplane/src/store.rs: `approve_operation` and `reject_operation`, the two ways
-- out of `pending_approval`. Each runs in one transaction: an error leaves the database as it was.
pub mod Gate
use iac.Prelude.{
  ℕ, zero, suc, Bool, true, false, not, ◌&&◌, Option, none, some, List, [], ◌∷◌, ◌++◌, map, String,
  ◌==◌, if◌then◌else◌, length, keep_if, find_if, count_if, update_where, ApiResult, ok, err,
  bad_request, conflict, not_found, json_error, ◌>>=◌, ◌>>◌, guard, ok_or, and_then, unwrap_or,
  is_blank,
}
use iac.Json.{Value, object, field, end, get, as_str, nat, string, string_or_null}
use iac.Tables.{
  Db, Operation, OperationStatus, Assignment, DesiredState, ResourceForRouting, AuditRecord, Actor,
}
use iac.Depsort.{compute_resource_layers, topo_sort_by_depends_on}
use iac.Submit.{new_assignments}
use iac.Submit.Grouping.{route_all}

abbrev pub awaits_approval : OperationStatus → Bool
awaits_approval OperationStatus.pending_approval = true
awaits_approval _ = false

host_selector_of : Value → Option String
host_selector_of value =
    and_then (and_then (and_then (get "spec" value) (get "hostSelector")) (get "name")) as_str

name_of : Value → String
name_of value = unwrap_or (and_then (and_then (get "metadata" value) (get "name")) as_str) ""

module _ (from_str : String → Option Value) where
  -- A persisted row as the routing reads it.
  unfoldable pub routing_of : DesiredState → ApiResult ResourceForRouting
  unfolding host_selector_of name_of
  routing_of row = do
    value ← ok_or (from_str row.spec_json) json_error
    ok (record {
      resource_id = row.resource_id;
      kind = row.kind;
      environment = row.environment;
      resource_json = row.spec_json;
      name = name_of value;
      host_selector = host_selector_of value;
    })

  unfoldable pub routing_list : List DesiredState → ApiResult (List ResourceForRouting)
  unfolding routing_of
  routing_list [] = ok []
  routing_list (row ∷ rows) = do r ← routing_of row; rs ← routing_list rows; ok (r ∷ rs)

approve_audit : ℕ → Actor → String → Option String → ℕ → AuditRecord
approve_audit op_id actor approver reason assignment_count = record {
  actor = actor;
  kind = "operation.approved";
  severity = "info";
  operation_id = some op_id;
  agent_id = none;
  resource_id = none;
  drift_id = none;
  payload = object (
      field "approver" (string approver) (
        field "reason" (string_or_null reason)
          (field "assignment_count" (nat assignment_count) end)));
}

-- `WHERE id = ? AND status = 'pending_approval'`.
abbrev pub gated : ℕ → Operation → Bool
gated op_id o = o.id == op_id && awaits_approval o.status

pub approve_row : String → ℕ → Option String → ℕ → Operation → Operation
approve_row approver now reason assignment_count o = record o {
  status = if assignment_count == 0 then OperationStatus.succeeded else OperationStatus.pending;
  approved_by = some approver;
  approved_at = some now;
  approval_reason = reason;
  finished_at = if assignment_count == 0 then some now else o.finished_at;
}

module _ (from_str : String → Option Value) (fresh : ℕ → ℕ) where
  -- The assignments that the approval creates, with no canary.
  unfoldable pub planned : ℕ → ℕ → String → Db → ApiResult (List Assignment)
  unfolding routing_list new_assignments route_all
  planned now op_id environment db = do
    routing ←
        routing_list from_str
          (keep_if (λ (d : DesiredState). d.operation_id == op_id) db.desired_states)
    sorted ← topo_sort_by_depends_on from_str routing
    layers ← compute_resource_layers from_str sorted
    let routed = route_all environment db.agents sorted layers
    new_assignments from_str fresh 0 op_id now [] routed.buckets

  unfoldable pub approve_operation :
      ℕ → ℕ → String → Actor → Option String → Db → ApiResult (Db × ℕ)
  unfolding planned approve_audit approve_row
  approve_operation now op_id approver actor reason db = do
    row ← ok_or (find_if (λ (o : Operation). o.id == op_id) db.operations) not_found
    guard (awaits_approval row.status) (conflict "operation is not pending_approval")
    created ← planned now op_id row.environment db
    guard (count_if (gated op_id) db.operations == 1)
        (conflict "operation no longer in pending_approval")
    ok (
      record db {
        operations =
            update_where (gated op_id) (approve_row approver now reason (length created))
              db.operations;
        assignments = db.assignments ++ created;
        audit = db.audit ++ approve_audit op_id actor approver reason (length created) ∷ [];
      },
      length created,
    )

pub reject_audit : ℕ → Actor → String → String → AuditRecord
reject_audit op_id actor rejector reason = record {
  actor = actor;
  kind = "operation.rejected";
  severity = "warning";
  operation_id = some op_id;
  agent_id = none;
  resource_id = none;
  drift_id = none;
  payload = object (field "rejector" (string rejector) (field "reason" (string reason) end));
}

reject_row : String → ℕ → String → Operation → Operation
reject_row rejector now reason o = record o {
  status = OperationStatus.rejected;
  rejected_by = some rejector;
  rejected_at = some now;
  rejection_reason = some reason;
  finished_at = some now;
}

unfoldable pub reject_operation : ℕ → ℕ → String → Actor → String → Db → ApiResult Db
unfolding reject_audit reject_row
reject_operation now op_id rejector actor reason db = do
  guard (not (is_blank reason)) (bad_request "reason must not be empty")
  guard (not (count_if (gated op_id) db.operations == 0))
      (conflict "operation not found or not in pending_approval")
  ok (record db {
    operations = update_where (gated op_id) (reject_row rejector now reason) db.operations;
    audit = db.audit ++ reject_audit op_id actor rejector reason ∷ [];
  })
