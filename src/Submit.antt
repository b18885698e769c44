-- ===== src/Submit.antt =====
-- crates/iac-controlplane/src/store.rs: `create_operation`, `approve_operation` and
-- `reject_operation`. Each runs in one transaction: an error leaves the database as it was. Fresh
-- ids and the time are arguments, and serde_json's parser is the parameter `from_str`.
pub mod Grouping
pub mod Rows
pub mod Accounts
pub mod Laws
use iac.Prelude.{
  ℕ, zero, suc, Bool, true, false, ◌&&◌, ◌||◌, Option, none, some, List, [], ◌∷◌, ◌++◌, map, String,
  str_eq, ◌==◌, if◌then◌else◌, length, keep_if, find_if, update_where, ApiResult, ok, err,
  bad_request, conflict, not_found, json_error, ◌>>=◌, ◌>>◌, guard, ok_or,
}
use iac.Json.{
  Value, null, string, object, array, field, end, get, as_str, nat, string_or_null, strings,
  map_field, remove_field,
}
use iac.Tables.{
  Db, Agent, Operation, OperationStatus, Assignment, AssignmentStatus, DesiredState,
  ResourceForRouting, CanarySpec, AuditRecord, Actor,
}
use iac.Routing.{route_resource, Unrouted, Target}
use iac.Canary.{bucket_agents_per_layer, compute_canary_split, batch_of, Split}
use iac.Depsort.{compute_resource_layers, topo_sort_by_depends_on}
use Grouping.{Bucket, Buckets, Routed, route_all, bucket_keys}

strip_spec : Value → Value
strip_spec (object fs) = object (remove_field "hostSelector" fs)
strip_spec v = v

-- `strip_routing_hints`.
unfoldable pub strip_routing_hints : Value → Value
unfolding strip_spec
strip_routing_hints (object fs) = object (map_field "spec" strip_spec fs)
strip_routing_hints v = v

-- The status of a new assignment, by its layer and its batch.
unfoldable pub initial_assignment_status : ℕ → Option ℕ → AssignmentStatus
initial_assignment_status zero none = AssignmentStatus.pending
initial_assignment_status zero (some zero) = AssignmentStatus.pending
initial_assignment_status zero (some (suc zero)) = AssignmentStatus.pending_canary
initial_assignment_status layer batch = AssignmentStatus.pending_layer

module _ (from_str : String → Option Value) where
  payload_of : List ResourceForRouting → ApiResult (List Value)
  unfolding strip_routing_hints
  payload_of [] = ok []
  payload_of (r ∷ rs) = do
    value ← ok_or (from_str r.resource_json) json_error
    rest ← payload_of rs
    ok (strip_routing_hints value ∷ rest)

  -- The loop that inserts one assignment for each bucket.
  unfoldable pub new_assignments :
      (ℕ → ℕ) → ℕ → ℕ → ℕ → Split → Buckets → ApiResult (List Assignment)
  unfolding payload_of initial_assignment_status batch_of
  new_assignments fresh k op_id now split [] = ok []
  new_assignments fresh k op_id now split (b ∷ buckets) = do
    payload ← payload_of b.items
    rest ← new_assignments fresh (suc k) op_id now split buckets
    let batch = batch_of b.agent_id b.layer split
    ok (
        record {
          id = fresh k;
          agent_id = b.agent_id;
          operation_id = op_id;
          payload = payload;
          created_at = now;
          status = initial_assignment_status b.layer batch;
          layer = b.layer;
          batch = batch;
          fetched_at = none;
          completed_at = none;
          result = none;
        }
        ∷ rest)

desired_state : ℕ → ResourceForRouting → DesiredState
desired_state op_id r = record {
  operation_id = op_id;
  resource_id = r.resource_id;
  kind = r.kind;
  environment = r.environment;
  spec_json = r.resource_json;
}

pub record CreateOperation : Type 0 where
  pub environment : String
  pub requested_by : String
  pub actor : Actor
  pub source_commit : Option String
  pub summary : Option String
  pub resources : List ResourceForRouting
  pub matched_policies : List String
  pub requires_approval : Bool
  pub canary : Option CanarySpec

pub record CreateOperationOutcome : Type 0 where
  pub operation_id : ℕ
  pub assignment_count : ℕ
  pub unrouted : List (String × Unrouted)
  pub matched_policies : List String
  pub requires_approval : Bool

unfoldable pub new_operation : ℕ → ℕ → CreateOperation → Operation
new_operation op_id now req = record {
  id = op_id;
  environment = req.environment;
  requested_by = req.requested_by;
  status =
      if req.requires_approval then OperationStatus.pending_approval else OperationStatus.pending;
  source_commit = req.source_commit;
  summary = req.summary;
  created_at = now;
  started_at = none;
  finished_at = none;
  requires_approval = req.requires_approval;
  matched_policies = req.matched_policies;
  approved_by = none;
  approved_at = none;
  approval_reason = none;
  rejected_by = none;
  rejected_at = none;
  rejection_reason = none;
}

-- With nothing to do the operation has succeeded at once.
unfoldable pub settle : ℕ → Operation → Operation
settle now o = record o {
  status = OperationStatus.succeeded;
  started_at = some now;
  finished_at = some now;
}

create_audit : ℕ → CreateOperation → ℕ → ℕ → AuditRecord
create_audit op_id req assignment_count unrouted_count = record {
  actor = req.actor;
  kind = if req.requires_approval then "operation.pending_approval" else "operation.submitted";
  severity = "info";
  operation_id = some op_id;
  agent_id = none;
  resource_id = none;
  drift_id = none;
  payload = object (
      field "environment" (string req.environment) (
        field "requested_by" (string req.requested_by) (
          field "resource_count" (nat (length req.resources)) (
            field "assignment_count" (nat assignment_count) (
              field "unrouted_count" (nat unrouted_count) (
                field "source_commit" (string_or_null req.source_commit)
                  (field "matched_policies" (array (strings req.matched_policies)) end)))))));
}

module _ (from_str : String → Option Value) (fresh : ℕ → ℕ) where
  -- `fresh 0` is the operation's id and `fresh (k + 1)` that of its k-th assignment.
  unfoldable pub create_operation :
      ℕ → CreateOperation → Db → ApiResult (Db × CreateOperationOutcome)
  unfolding new_operation settle create_audit desired_state new_assignments route_all
  create_operation now req db = do
    let op_id = fresh 0
    layers ← compute_resource_layers from_str req.resources
    let routed = route_all req.environment db.agents req.resources layers
    let split =
        compute_canary_split (bucket_agents_per_layer (bucket_keys routed.buckets)) req.canary
    created ←
        if req.requires_approval
        then ok []
        else new_assignments from_str fresh 1 op_id now split routed.buckets
    let operation = new_operation op_id now req
    let idle = if req.requires_approval then false else length created == 0
    ok (
      record db {
        operations = db.operations ++ (if idle then settle now operation else operation) ∷ [];
        desired_states = db.desired_states ++ map (desired_state op_id) req.resources;
        assignments = db.assignments ++ created;
        audit = db.audit ++ create_audit op_id req (length created) (length routed.unrouted) ∷ [];
      },
      record {
        operation_id = op_id;
        assignment_count = length created;
        unrouted = routed.unrouted;
        matched_policies = req.matched_policies;
        requires_approval = req.requires_approval;
      },
    )
