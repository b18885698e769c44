-- ===== src/Examples/Rollouts.antt =====
-- The rollout's theorems on a canary with a baseline and a second layer.
use iac.Prelude.{
  ℕ, ◌≡◌, refl, true, false, ◌&&◌, none, some, List, [], ◌∷◌, any, length, keep_if, All, ◌==◌, ◌<◌,
  arith, zero, suc, get_or, ok,
}
use iac.Tables.{
  Assignment, AssignmentStatus, Operation, OperationStatus, CanarySpec, ResourceForRouting,
}
use iac.Rollout.{
  advance_phased_apply, advance_layer, outside_canary, roll_up_operation, rolled_up, tally,
}
use iac.Rollout.Gate.{Progress, dispatchable, waiting}
use iac.Rollout.Progress.{advance_phased_apply-Progress}
use iac.Rollout.Barrier.{barrier, failed_canary-halts}
use iac.Rollout.Verdict.{rolled_up-verdict, roll_up_operation-terminal, verdict, is_terminal}
use iac.Rollout.Moves.{advance_phased_apply-Moved, Rows}
use iac.Canary.{compute_canary_split}
use iac.Canary.Bounds.{compute_canary_split-IsSplit, IsSplit}
use iac.Routing.{route_resource}
use iac.Routing.Targets.{route_resource-RouteSpec, RouteSpec}
use iac.Depsort.{compute_resource_layers, topo_sort_by_depends_on, build_graph, Graph, id_to_idx}
use iac.Depsort.Counts.{occ}
use iac.Depsort.Order.{topo_sort-IsSortedBy, topo_sort_total, IsSortedBy}
use iac.Depsort.Layers.{compute_resource_layers-AllLayered, AllLayered}
use mathlib.Core.List.{reverse}
use iac.Examples.{assignment, phased, operation, fleet, parse, resources}

abbrev failed_rows : List Assignment
failed_rows = phased AssignmentStatus.failed

advance_phased_apply-Progress_example : Progress 7 (advance_phased_apply 7 20 failed_rows)
advance_phased_apply-Progress_example =
    advance_phased_apply-Progress 7 20 failed_rows (refl, (refl, (refl, tt)))

barrier_example :
    keep_if (dispatchable 7) (advance_layer 7 20 1 (phased AssignmentStatus.fetched))
    ≡ keep_if (dispatchable 7) (phased AssignmentStatus.fetched)
barrier_example = barrier 7 20 (phased AssignmentStatus.fetched) 1 refl

failed_canary-halts_example :
    (any (waiting 7) (advance_phased_apply 7 20 failed_rows) ≡ false)
    × (any (λ a. dispatchable 7 a && outside_canary 0 a) (advance_phased_apply 7 20 failed_rows)
        ≡ false)
failed_canary-halts_example =
    failed_canary-halts 7 20 failed_rows (refl, (refl, (refl, tt))) refl refl

rolled_up-verdict_example : rolled_up (tally 7 failed_rows) ≡ verdict 7 failed_rows
rolled_up-verdict_example = rolled_up-verdict 7 failed_rows

abbrev finished_rows : List Assignment
finished_rows = assignment 1 100 0 none AssignmentStatus.succeeded ∷ []

abbrev running : List Operation
running = operation OperationStatus.running ∷ []

roll_up_operation-terminal_example :
    All
      (λ o. (o.id == 7) ≡ true → is_terminal o.status ≡ true)
      (roll_up_operation 7 20 finished_rows running)
roll_up_operation-terminal_example = roll_up_operation-terminal 7 20 finished_rows running refl

advance_phased_apply-Moved_example : Rows 7 20 failed_rows (advance_phased_apply 7 20 failed_rows)
advance_phased_apply-Moved_example = advance_phased_apply-Moved 7 20 failed_rows

abbrev fifth : CanarySpec
fifth = record { pct = 20; min_count = none }

abbrev layers : List (ℕ × List ℕ)
layers = (0, 100 ∷ 101 ∷ 102 ∷ []) ∷ (1, 100 ∷ []) ∷ []

compute_canary_split-IsSplit_example :
    IsSplit fifth layers (compute_canary_split layers (some fifth))
compute_canary_split-IsSplit_example =
    compute_canary_split-IsSplit fifth layers (omega arith, (omega arith, tt))

abbrev lost : ResourceForRouting
lost = record {
  resource_id = "Service/nginx";
  kind = "Service";
  environment = "prod";
  resource_json = "nginx";
  name = "nginx";
  host_selector = some "web-3";
}

route_resource-RouteSpec_example :
    RouteSpec (some "web-3") "prod" fleet (route_resource lost "prod" fleet)
route_resource-RouteSpec_example = route_resource-RouteSpec lost "prod" fleet

compute_resource_layers-AllLayered_example :
    (2 ≡ length resources) × AllLayered parse (id_to_idx 0 resources []) (0 ∷ 1 ∷ []) 0 resources
unfolding compute_resource_layers
compute_resource_layers-AllLayered_example =
    compute_resource_layers-AllLayered parse resources (0 ∷ 1 ∷ []) refl

abbrev dependent_first : List ResourceForRouting
dependent_first = reverse resources

topo_sort-IsSortedBy_example : (order : List ℕ) × IsSortedBy parse dependent_first order resources
unfolding topo_sort_by_depends_on
topo_sort-IsSortedBy_example = topo_sort-IsSortedBy parse dependent_first resources refl

abbrev one_edge : Graph
one_edge = record { in_degree = 0 ∷ 1 ∷ []; adjacency = (1 ∷ []) ∷ [] ∷ [] }

one_edge_ranked : (u v : ℕ) → 0 < occ v (get_or one_edge.adjacency u []) → u < v
one_edge_ranked zero v h = ground (arith, h)
one_edge_ranked (suc zero) v h = absurd (omega (arith, h))
one_edge_ranked (suc (suc u)) v h = absurd (omega (arith, h))

topo_sort_total_example :
    (sorted : List ResourceForRouting) × (topo_sort_by_depends_on parse resources ≡ ok sorted)
unfolding build_graph id_to_idx
topo_sort_total_example = topo_sort_total parse resources one_edge (λ v. v) refl one_edge_ranked
