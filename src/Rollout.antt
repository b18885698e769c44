-- ===== src/Rollout.antt =====
-- crates/iac-controlplane/src/store.rs: the state machine of an operation's assignments, which
-- runs inside the transaction of each completion: `advance_canary`, `advance_phased_apply` and
-- `roll_up_operation`.
pub mod Rows
pub mod Gate
pub mod Progress
pub mod Barrier
pub mod Verdict
pub mod Moves
use iac.Prelude.{
  ℕ, zero, suc, ◌+◌, Bool, true, false, not, ◌&&◌, ◌||◌, Option, none, some, List, [], ◌∷◌, map,
  ◌==◌, ltb, if◌then◌else◌, keep_if, update_where, min, any,
}
use iac.Tables.{Assignment, AssignmentStatus, has_status, Operation, OperationStatus}
use Rows.{count_status, min_layer, distinct, of_operation}

-- The counts that a gate reads from `SELECT status, COUNT(*) ... GROUP BY status`.
pub record Counts : Type 0 where
  pub still_running : ℕ
  pub failed : ℕ
  pub succeeded : ℕ

-- The rows of the canary batch of a layer.
abbrev pub in_canary : ℕ → ℕ → Assignment → Bool
in_canary op layer a =
    a.operation_id == op && a.layer == layer && elim a.batch [ none ↦ false | some b ↦ b == 0 ]

pub canary_counts : ℕ → ℕ → List Assignment → Counts
canary_counts op layer rows = record {
  still_running =
      count_status (in_canary op layer) AssignmentStatus.pending rows
      + count_status (in_canary op layer) AssignmentStatus.fetched rows;
  failed =
      count_status (in_canary op layer) AssignmentStatus.failed rows
      + count_status (in_canary op layer) AssignmentStatus.partially_applied rows;
  succeeded = count_status (in_canary op layer) AssignmentStatus.succeeded rows;
}

abbrev pub cancel : ℕ → Assignment → Assignment
cancel now a = record a { status = AssignmentStatus.cancelled; completed_at = some now }

abbrev pub release : Assignment → Assignment
release a = record a { status = AssignmentStatus.pending }

-- `NOT (layer = ? AND batch = 0)`: on a NULL batch of that layer the test is NULL, and fails.
abbrev pub outside_canary : ℕ → Assignment → Bool
outside_canary layer a =
    if a.layer == layer then elim a.batch [ none ↦ false | some b ↦ not (b == 0) ] else true

abbrev pub cancelled_by_canary : ℕ → ℕ → Assignment → Bool
cancelled_by_canary op layer a =
    a.operation_id == op
    && (has_status a.status AssignmentStatus.pending_canary
        || has_status a.status AssignmentStatus.pending_layer
        || has_status a.status AssignmentStatus.pending
        || has_status a.status AssignmentStatus.fetched)
    && outside_canary layer a

abbrev pub baseline_at : ℕ → ℕ → Assignment → Bool
baseline_at op layer a =
    a.operation_id == op && a.layer == layer && has_status a.status AssignmentStatus.pending_canary

pub waiting_layers : ℕ → List Assignment → List ℕ
waiting_layers op rows =
    distinct (map (λ a. a.layer) (keep_if (of_operation op AssignmentStatus.pending_canary) rows))

-- The loop of `advance_canary` over the layers whose baseline waits.
pub canary_loop : ℕ → ℕ → List ℕ → List Assignment → List Assignment
canary_loop op now [] rows = rows
canary_loop op now (layer ∷ layers) rows =
    let counts = canary_counts op layer rows in
    let rest = canary_loop op now layers (
      if ltb 0 counts.still_running
      then rows
      else update_where (baseline_at op layer) release rows) in
    if ltb 0 counts.failed
    then update_where (cancelled_by_canary op layer) (cancel now) rows
    else rest

pub advance_canary : ℕ → ℕ → List Assignment → List Assignment
unfolding canary_loop waiting_layers canary_counts
advance_canary op now rows = canary_loop op now (waiting_layers op rows) rows

-- `layer = next_layer - 1`, with no row at layer -1.
abbrev pub below_layer : ℕ → ℕ → Assignment → Bool
below_layer op next_layer a = a.operation_id == op && a.layer + 1 == next_layer

pub layer_counts : ℕ → ℕ → List Assignment → Counts
layer_counts op next_layer rows = record {
  still_running =
      count_status (below_layer op next_layer) AssignmentStatus.pending rows
      + count_status (below_layer op next_layer) AssignmentStatus.fetched rows
      + count_status (below_layer op next_layer) AssignmentStatus.pending_layer rows
      + count_status (below_layer op next_layer) AssignmentStatus.pending_canary rows;
  failed =
      count_status (below_layer op next_layer) AssignmentStatus.failed rows
      + count_status (below_layer op next_layer) AssignmentStatus.partially_applied rows;
  succeeded = count_status (below_layer op next_layer) AssignmentStatus.succeeded rows;
}

abbrev pub held_at : ℕ → ℕ → Assignment → Bool
held_at op layer a =
    a.operation_id == op && a.layer == layer && has_status a.status AssignmentStatus.pending_layer

-- The second half of `advance_phased_apply`, once the next layer is known.
pub advance_layer : ℕ → ℕ → ℕ → List Assignment → List Assignment
unfolding layer_counts
advance_layer op now next_layer rows =
    let counts = layer_counts op next_layer rows in
    if ltb 0 counts.still_running
    then rows
    else if ltb 0 counts.failed
    then update_where (of_operation op AssignmentStatus.pending_layer) (cancel now) rows
    else update_where (held_at op next_layer) release rows

pub advance_phased_apply : ℕ → ℕ → List Assignment → List Assignment
unfolding advance_canary advance_layer
advance_phased_apply op now rows =
    let gated = advance_canary op now rows in
    elim (min_layer (of_operation op AssignmentStatus.pending_layer) gated) [
      | none ↦ gated
      | some next_layer ↦ advance_layer op now next_layer gated
    ]

-- The eight counts of `roll_up_operation`.
pub record Tally : Type 0 where
  pub pending : ℕ
  pub fetched : ℕ
  pub pending_layer : ℕ
  pub pending_canary : ℕ
  pub succeeded : ℕ
  pub partial : ℕ
  pub failed : ℕ
  pub cancelled : ℕ

pub tally : ℕ → List Assignment → Tally
tally op rows = record {
  pending = count AssignmentStatus.pending;
  fetched = count AssignmentStatus.fetched;
  pending_layer = count AssignmentStatus.pending_layer;
  pending_canary = count AssignmentStatus.pending_canary;
  succeeded = count AssignmentStatus.succeeded;
  partial = count AssignmentStatus.partially_applied;
  failed = count AssignmentStatus.failed;
  cancelled = count AssignmentStatus.cancelled;
}
  where
    count : AssignmentStatus → ℕ
    count s = count_status (λ a. a.operation_id == op) s rows

-- The status that the counts settle, or none while some assignment is still in flight.
unfoldable pub rolled_up : Tally → Option OperationStatus
rolled_up t =
    if ltb 0 (t.pending + t.fetched + t.pending_layer + t.pending_canary)
    then none
    else some (
        if ltb 0 (t.failed + t.partial + t.cancelled)
        then (if ltb 0 t.succeeded || ltb 0 t.partial
            then OperationStatus.partially_applied
            else OperationStatus.failed)
        else OperationStatus.succeeded)

unfoldable pub roll_up_operation : ℕ → ℕ → List Assignment → List Operation → List Operation
unfolding tally rolled_up
roll_up_operation op now rows operations = elim (rolled_up (tally op rows)) [
  | none ↦ operations
  | some new_status ↦
      update_where (λ o. o.id == op) (λ o. record o { status = new_status; finished_at = some now })
        operations
]
