-- ===== src/Examples/Runs.antt =====
-- A run: a submission, a fetch of its assignment and the report on it.
use iac.Prelude.{◌≡◌, refl, none, some, List, [], ◌∷◌, ◌++◌}
use iac.Tables.{Db, AuditRecord, OperationStatus, ResourceForRouting}
use iac.Submit.{create_operation}
use iac.Depsort.{compute_resource_layers}
use iac.Canary.{compute_canary_split}
use iac.Routing.{route_resource}
use iac.Dispatch.{fetch_pending_assignments, complete_assignment_with_extra_audit}
use iac.Dispatch.Completion.{complete}
use iac.Rollout.Gate.{IsPlaced}
use iac.Lifecycle.{Reach, here, next, create, fetch, complete as report_taken}
use iac.Lifecycle.History.{reachable_keeps}
use iac.Examples.{operation, parse, submission, fresh, report, left_by}
use iac.Examples.Handlers.{empty_db, outcome, submitted_db}

abbrev given_out : Db
given_out = (fetch_pending_assignments 300 1000 100 submitted_db).0

abbrev reported : Db
reported = left_by given_out (λ db. db) (complete 1100 100 41 report none given_out)

submitted : Reach parse empty_db submitted_db
unfolding create_operation compute_resource_layers route_resource
submitted = next here (create fresh 20 submission empty_db submitted_db outcome refl)

ran : Reach parse empty_db reported
unfolding create_operation compute_resource_layers route_resource compute_canary_split
    fetch_pending_assignments complete_assignment_with_extra_audit
ran =
    next (next submitted (fetch 300 1000 100 submitted_db))
      (report_taken 1100 100 41 report none given_out reported refl)

reachable_keeps_example :
    (IsPlaced empty_db.assignments → IsPlaced reported.assignments)
    × ((more : List AuditRecord) × (reported.audit ≡ empty_db.audit ++ more))
reachable_keeps_example = reachable_keeps parse empty_db reported ran

-- Operation 5 has written the file before operation 7 did.
abbrev both_applied : Db
both_applied = record empty_db {
  operations =
      record (operation OperationStatus.succeeded) { id = 5; created_at = 4 }
      ∷ operation OperationStatus.failed
      ∷ [];
  desired_states =
      record {
        operation_id = 5;
        resource_id = "File/site";
        kind = "File";
        environment = "prod";
        spec_json = "site";
      }
      ∷ record {
        operation_id = 7;
        resource_id = "File/site";
        kind = "File";
        environment = "prod";
        spec_json = "site 2";
      }
      ∷ record {
        operation_id = 7;
        resource_id = "File/new";
        kind = "File";
        environment = "prod";
        spec_json = "new";
      }
      ∷ [];
}

abbrev restored : ResourceForRouting
restored = record {
  resource_id = "File/site";
  kind = "File";
  environment = "prod";
  resource_json = "site";
  name = "site";
  host_selector = some "web-1";
}
