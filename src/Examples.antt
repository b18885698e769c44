-- ===== src/Examples.antt =====
-- Concrete inputs on which the theorems about the control plane apply.
mod Rollouts
mod Hosts
mod Texts
mod Runs
mod Handlers
mod Services
mod Logs
use iac.Prelude.{
  ℕ, ◌+◌, Option, none, some, List, [], ◌∷◌, String, true, false, ApiResult, ok, err, str_eq,
  if◌then◌else◌,
}
use iac.Json.{Value, null, string, array, object, field, end, cons, nil}
use iac.Tables.{
  Db, Agent, Assignment, AssignmentStatus, AssignmentResultRequest, AssignmentResultStatus,
  Operation, OperationStatus, ResourceForRouting, Actor, DesiredState,
}
use iac.Submit.{CreateOperation}

abbrev pub assignment : ℕ → ℕ → ℕ → Option ℕ → AssignmentStatus → Assignment
assignment id agent layer batch status = record {
  id = id;
  agent_id = agent;
  operation_id = 7;
  payload = [];
  created_at = 10;
  status = status;
  layer = layer;
  batch = batch;
  fetched_at = none;
  completed_at = none;
  result = none;
}

-- A canary that is being applied, its baseline, and a row of the next layer.
abbrev pub phased : AssignmentStatus → List Assignment
phased canary =
    assignment 1 100 0 (some 0) canary
    ∷ assignment 2 101 0 (some 1) AssignmentStatus.pending_canary
    ∷ assignment 3 100 1 none AssignmentStatus.pending_layer
    ∷ []

abbrev pub operation : OperationStatus → Operation
operation status = record {
  id = 7;
  environment = "prod";
  requested_by = "ada";
  status = status;
  source_commit = none;
  summary = none;
  created_at = 10;
  started_at = none;
  finished_at = none;
  requires_approval = true;
  matched_policies = [];
  approved_by = none;
  approved_at = none;
  approval_reason = none;
  rejected_by = none;
  rejected_at = none;
  rejection_reason = none;
}

abbrev pub fleet : List Agent
fleet =
    record { id = 100; name = "web-1"; environment = "prod" }
    ∷ record { id = 101; name = "web-2"; environment = "prod" }
    ∷ []

abbrev pub desired : List DesiredState
desired =
    record {
      operation_id = 7;
      resource_id = "File/site";
      kind = "File";
      environment = "prod";
      spec_json = "site";
    }
    ∷ []

abbrev pub db_with : List Assignment → OperationStatus → Db
db_with rows status = record {
  agents = fleet;
  operations = operation status ∷ [];
  desired_states = desired;
  assignments = rows;
  audit = [];
}

abbrev pub report : AssignmentResultRequest
report = record { status = AssignmentResultStatus.succeeded; summary = none; items = [] }

-- The database that a call leaves behind.
abbrev pub left_by {ℓ} : {A : Type ℓ} → Db → (A → Db) → ApiResult A → Db
left_by db get (ok a) = get a
left_by db get (err e) = db

-- Two resources: the second depends on the first.
abbrev pub parse : String → Option Value
parse text =
    if str_eq text "site"
    then some (
        object (
          field "metadata" (object (field "name" (string "site") end)) (
            field "spec"
              (object (field "hostSelector" (object (field "name" (string "web-1") end)) end))
              end)))
    else some (
        object (
          field "metadata" (object (field "dependsOn" (array (cons (string "File/site") nil)) end))
            end))

abbrev pub resources : List ResourceForRouting
resources =
    record {
      resource_id = "File/site";
      kind = "File";
      environment = "prod";
      resource_json = "site";
      name = "site";
      host_selector = some "web-1";
    }
    ∷ record {
      resource_id = "Service/nginx";
      kind = "Service";
      environment = "prod";
      resource_json = "nginx";
      name = "nginx";
      host_selector = some "web-3";
    }
    ∷ []

abbrev pub submission : CreateOperation
submission = record {
  environment = "prod";
  requested_by = "ada";
  actor = Actor.named "user:ada";
  source_commit = none;
  summary = none;
  resources = resources;
  matched_policies = [];
  requires_approval = false;
  canary = none;
}

abbrev pub gated_submission : CreateOperation
gated_submission = record submission { requires_approval = true }

abbrev pub fresh : ℕ → ℕ
fresh k = 40 + k
