-- ===== src/Rollout/Progress.antt =====
-- The rollout never stalls: whatever a completion leaves waiting, some assignment can still be
-- dispatched.
use iac.Prelude.{
  ℕ, ◌≡◌, any-false→All, any-or_false, All-Unit, inl, inr, true, false, ◌&&◌, none, some, List,
  ◌==◌, ltb, any, arith, update_where, Bool-cases, Option-cases, any-update_where-false,
  any-update_where_mono, count_if-zero_of,
}
use iac.Tables.{Assignment, AssignmentStatus, has_status}
use iac.Rollout.Gate.{
  dispatchable, baseline, held, waiting, Progress, Placed, IsPlaced, CanarySettled, Settled,
  advance_canary-Settled,
}
use iac.Rollout.Rows.{
  count_status, min_layer, of_operation, min_layer-none, min_layer-least, min_layer-attained,
}
use iac.Rollout.{
  cancel, release, advance_canary, advance_layer, advance_phased_apply, layer_counts, below_layer,
  held_at,
}

module _ (op now : ℕ) where
  module _ (rows : List Assignment) (m : ℕ) (least : min_layer (held op) rows ≡ some m) where
    -- A gate that is still closed has an assignment in flight behind it.
    gate_closed :
        Settled op now rows
        → ltb 0 (layer_counts op m rows).still_running ≡ true
        → any (dispatchable op) rows ≡ true
    unfolding layer_counts count_status
    gate_closed s h = elim (Bool-cases (any (dispatchable op) rows)) [
      | inl e ↦ e
      | inr e ↦ elim s.1 [
        | inl d ↦ d
        | inr b ↦ ground (
          arith,
          count_if-zero_of (λ a. below_layer op m a && has_status a.status AssignmentStatus.pending)
              (dispatchable op) rows (λ a q. ground arith) e,
          count_if-zero_of (λ a. below_layer op m a && has_status a.status AssignmentStatus.fetched)
              (dispatchable op) rows (λ a q. ground arith) e,
          count_if-zero_of
              (λ a. below_layer op m a && has_status a.status AssignmentStatus.pending_canary)
              (baseline op) rows (λ a q. ground arith) b,
          count_if-zero_of
              (λ a. below_layer op m a && has_status a.status AssignmentStatus.pending_layer)
              (λ a. held op a && ltb a.layer m) rows (λ a q. ground arith)
              (min_layer-least (held op) rows m m (omega arith) least),
        )
      ]
    ]

    -- Cancelling what is held leaves nothing waiting, unless some assignment is in flight.
    drop_held :
        CanarySettled op rows
        → Progress op
            (update_where (of_operation op AssignmentStatus.pending_layer) (cancel now) rows)
    drop_held (inl d) = inl (
        any-update_where_mono (λ a. Unit {0}) (dispatchable op) (dispatchable op) (held op)
          (cancel now) rows (λ a p e. ground arith) (All-Unit rows) d)
    drop_held (inr b) = inr (
        any-update_where-false (λ a. baseline op a ≡ false) (waiting op) (held op) (cancel now) rows
          (λ a e. ground arith) (any-false→All (baseline op) rows b))

    advance_layer-Progress : Settled op now rows → Progress op (advance_layer op now m rows)
    unfolding advance_layer
    advance_layer-Progress s = elim (Bool-cases (ltb 0 (layer_counts op m rows).still_running)) [
      | inl r ↦ rw r (inl (gate_closed s r))
      | inr r ↦ rw r (elim (Bool-cases (ltb 0 (layer_counts op m rows).failed)) [
        | inl f ↦ rw f (drop_held s.1)
        | inr f ↦ rw f (
            inl (
              any-update_where_mono Placed (λ a. held op a && a.layer == m) (dispatchable op)
                (held_at op m) release rows (λ a p e. ground arith) s.0
                (min_layer-attained (held op) rows m least)))
      ])
    ]

no_row_held :
    (op : ℕ) (rows : List Assignment)
    → CanarySettled op rows
    → min_layer (held op) rows ≡ none
    → Progress op rows
no_row_held op rows (inl d) e = inl d
no_row_held op rows (inr b) e =
    inr (any-or_false (held op) (baseline op) rows (min_layer-none (held op) rows e) b)

-- In a table whose rows wait for a canary only in the baseline of layer 0, and for a layer only
-- above layer 0, `advance_phased_apply` makes some assignment of the operation dispatchable, or
-- leaves none of its assignments waiting.
pub advance_phased_apply-Progress :
    (op now : ℕ) (rows : List Assignment)
    → IsPlaced rows
    → Progress op (advance_phased_apply op now rows)
unfolding advance_phased_apply
advance_phased_apply-Progress op now rows h =
    elim (Option-cases (min_layer (held op) (advance_canary op now rows))) [
      | inl e ↦
          rw (e, advance_phased_apply) (no_row_held op _ (advance_canary-Settled op now rows h).1 e)
      | inr (m, e) ↦
          rw (e, advance_phased_apply)
            (advance_layer-Progress op now _ m e (advance_canary-Settled op now rows h))
    ]
