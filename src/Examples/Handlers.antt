-- ===== src/Examples/Handlers.antt =====
-- The theorems about submitting, approving, fetching and completing, on a small fleet.
use iac.Prelude.{
  ◌∙◌, arith, inl, false, ◌≡◌, ◌≢◌, refl, ◌⊎◌, true, false, none, some, List, [], ◌∷◌, any, find_if,
  ◌==◌, Pairs, ok, err, not_found,
}
use iac.Tables.{Db, Assignment, AssignmentStatus, OperationStatus, Actor}
use iac.Rollout.Gate.{dispatchable}
use iac.Dispatch.{
  complete_assignment_with_extra_audit, fetch_pending_assignments, reportable,
  revert_assignment_claims, start_operations,
}
use iac.Dispatch.Leases.{revert_assignment_claims-Reverted, Reverted}
use iac.Dispatch.Completion.{complete, complete-no_stall, SettledOperation}
use iac.Dispatch.Idle.{agents-Idle, AgentCall, fetches, gives_back, reports, after_all}
use iac.Lifecycle.{here, next, fetch, revert}
use iac.Lifecycle.Rows.{rows_of}
use iac.Lifecycle.Reports.{reported-once, fetch-rows_of, report-rows_of}
use iac.Lifecycle.Gated.{gated-no_assignments}
use iac.Lifecycle.Decisions.{decision-final}
use iac.Submit.{create_operation, CreateOperationOutcome}
use iac.Routing.{route_resource, no_such_host}
use iac.Depsort.{compute_resource_layers, topo_sort_by_depends_on}
use iac.Approval.{approve_operation, reject_operation}
use iac.Examples.{
  assignment, phased, db_with, report, left_by, parse, submission, fresh, gated_submission,
}

abbrev waiting_db : Db
waiting_db = db_with (phased AssignmentStatus.pending) OperationStatus.pending

abbrev fetched_db : Db
fetched_db = db_with (phased AssignmentStatus.fetched) OperationStatus.running

revert_assignment_claims-Reverted_example :
    Pairs
      (Reverted (1 ∷ 3 ∷ []))
      fetched_db.assignments
      (revert_assignment_claims (1 ∷ 3 ∷ []) fetched_db).assignments
revert_assignment_claims-Reverted_example =
    revert_assignment_claims-Reverted (1 ∷ 3 ∷ []) fetched_db

abbrev completed_db : Db
completed_db = left_by fetched_db (λ db. db) (complete 1000 100 1 report none fetched_db)

abbrev refetched : Db
refetched = (fetch_pending_assignments 300 400 100 completed_db).0

one_row : rows_of 1 refetched ≡ 1
unfolding complete_assignment_with_extra_audit
one_row =
    fetch-rows_of 1 300 400 100 completed_db
    ∙ report-rows_of 1 1000 100 1 report none fetched_db completed_db refl

reported-once_example : complete 2000 101 1 report none refetched ≡ err not_found
unfolding complete_assignment_with_extra_audit
reported-once_example =
    reported-once 1 parse 1000 2000 100 101 report report none none fetched_db completed_db
      refetched refl (next here (fetch 300 400 100 completed_db)) (omega (arith, one_row))

complete-no_stall_example :
    (a : Assignment) × (find_if (reportable 100 1) fetched_db.assignments ≡ some a)
    × ((any (dispatchable a.operation_id) completed_db.assignments ≡ true)
        ⊎ SettledOperation 1000 100 1 report none a.operation_id completed_db.operations)
unfolding complete_assignment_with_extra_audit
complete-no_stall_example =
    complete-no_stall 1000 100 1 report none fetched_db completed_db (refl, (refl, (refl, tt))) refl

abbrev pub empty_db : Db
empty_db = db_with [] OperationStatus.succeeded

abbrev gated_db : Db
gated_db = left_by empty_db (λ r. r.0) (create_operation parse fresh 20 gated_submission empty_db)

abbrev asked_db : Db
asked_db = (fetch_pending_assignments 300 30 100 gated_db).0

gated-no_assignments_example : any (λ a. a.operation_id == 40) asked_db.assignments ≡ false
unfolding create_operation compute_resource_layers route_resource fetch_pending_assignments
    start_operations
gated-no_assignments_example =
    gated-no_assignments parse fresh 20 gated_submission empty_db gated_db asked_db
      (record {
        operation_id = 40;
        assignment_count = 0;
        unrouted = ("Service/nginx", no_such_host "web-3") ∷ [];
        matched_policies = [];
        requires_approval = true;
      })
      refl refl refl (next here (fetch 300 30 100 gated_db)) (omega arith) refl

abbrev pub outcome : CreateOperationOutcome
outcome = record {
  operation_id = 40;
  assignment_count = 1;
  unrouted = ("Service/nginx", no_such_host "web-3") ∷ [];
  matched_policies = [];
  requires_approval = false;
}

abbrev pub submitted_db : Db
submitted_db = left_by empty_db (λ r. r.0) (create_operation parse fresh 20 submission empty_db)

abbrev approvable : Db
approvable = db_with [] OperationStatus.pending_approval

abbrev ada : Actor
ada = Actor.named "user:ada"

abbrev bob : Actor
bob = Actor.named "user:bob"

abbrev approved : Db
approved =
    left_by approvable (λ r. r.0) (approve_operation parse fresh 30 7 "ada" ada none approvable)

decision-final_example :
    (approve_operation parse fresh 31 7 "bob" bob none (revert_assignment_claims [] approved)
      ≢ ok (approved, 1))
    × (reject_operation 31 7 "bob" bob "again" (revert_assignment_claims [] approved) ≢ ok approved)
unfolding approve_operation topo_sort_by_depends_on compute_resource_layers route_resource
    revert_assignment_claims
decision-final_example =
    decision-final 7 parse fresh fresh 30 31 "ada" "bob" ada bob none none "" "again" approvable
      approved (revert_assignment_claims [] approved) approved 1 1 (inl refl)
      (next here (revert [] approved)) (omega arith)

-- Operation 7 waits for a layer that nothing releases, while operation 8 is applied.
abbrev stuck_db : Db
stuck_db =
    db_with
      (assignment 3 100 1 none AssignmentStatus.pending_layer
        ∷ record (assignment 4 100 0 none AssignmentStatus.fetched) { operation_id = 8 }
        ∷ [])
      OperationStatus.pending

abbrev agent_calls : List AgentCall
agent_calls = fetches 300 1000 100 ∷ gives_back (4 ∷ []) ∷ reports 1000 100 4 report none ∷ []

agents-Idle_example :
    (any (dispatchable 7) (after_all agent_calls stuck_db).assignments ≡ false)
    × (any
          (λ a. a.operation_id == 7)
          (fetch_pending_assignments 300 2000 100 (after_all agent_calls stuck_db)).1
        ≡ false)
agents-Idle_example = agents-Idle 7 agent_calls 300 2000 100 stuck_db refl
