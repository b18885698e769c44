-- ===== src/Rollout/Barrier.antt =====
-- What the gates keep closed: a layer waits for the layer below it, and a failure stops what waits.
use iac.Prelude.{
  ℕ, ◌≡◌, ◌≢◌, refl, sym, subst, inl, inr, Bool, true, false, not, ◌&&◌, ◌||◌, List, [], ◌∷◌, All,
  ltb, any, arith, update_where, Bool-cases, Option-cases, All-update_where, keep_if, map,
  any-update_where-false, any_mono_false,
}
use iac.Tables.{Assignment, AssignmentStatus, has_status}
use iac.Rollout.{
  cancel, release, cancelled_by_canary, canary_loop, advance_canary, advance_layer,
  advance_phased_apply, canary_counts, layer_counts, waiting_layers, in_canary, below_layer,
  held_at, outside_canary,
}
use iac.Rollout.Gate.{
  dispatchable, baseline, held, waiting, Placed, IsPlaced, advance_canary-Settled, halted,
  halted-not-waiting, waiting_layers-zero,
}
use iac.Rollout.Rows.{count_status, min_layer, min_layer-none_of, distinct, distinct-nil→any}

module _ (op now : ℕ) where
  advance_layer-IsPlaced :
      (rows : List Assignment) (m : ℕ) → IsPlaced rows → IsPlaced (advance_layer op now m rows)
  unfolding advance_layer
  advance_layer-IsPlaced rows m h = ground (
    arith,
    All-update_where Placed Placed (held op) (cancel now) rows (λ a p. ground arith) h,
    All-update_where Placed Placed (held_at op m) release rows (λ a p. ground arith) h,
  )

  -- If rows wait for a canary only in the baseline of layer 0, and for a layer only above layer 0,
  -- this still holds of the whole table after `advance_phased_apply`.
  pub advance_phased_apply-IsPlaced :
      (rows : List Assignment) → IsPlaced rows → IsPlaced (advance_phased_apply op now rows)
  unfolding advance_phased_apply
  advance_phased_apply-IsPlaced rows h =
      let gated = advance_canary op now rows in
      let placed = (advance_canary-Settled op now rows h).0 in
      elim (Option-cases (min_layer (held op) gated)) [
        | inl e ↦ rw (e, advance_phased_apply) placed
        | inr (m, e) ↦ rw (e, advance_phased_apply) (advance_layer-IsPlaced gated m placed)
      ]

  -- A row of the layer below that has neither succeeded nor been cancelled.
  abbrev pub unfinished_below : ℕ → Assignment → Bool
  unfinished_below m a =
      below_layer op m a
      && not (
          has_status a.status AssignmentStatus.succeeded
          || has_status a.status AssignmentStatus.cancelled)

  settled_below :
      (rows : List Assignment) (m : ℕ)
      → ltb 0 (layer_counts op m rows).still_running ≡ false
      → ltb 0 (layer_counts op m rows).failed ≡ false
      → any (unfinished_below m) rows ≡ false
  unfolding layer_counts count_status
  settled_below [] m s f = refl
  settled_below (a ∷ rows) m s f = ground (arith, settled_below rows m)

  cancel-dispatchable :
      (rows : List Assignment)
      → keep_if (dispatchable op) (update_where (held op) (cancel now) rows)
        ≡ keep_if (dispatchable op) rows
  cancel-dispatchable [] = refl
  cancel-dispatchable (a ∷ rows) = ground (arith, cancel-dispatchable rows)

  -- While some assignment of the operation in the layer below has neither succeeded nor been
  -- cancelled, the step that would release a layer releases nothing: the operation's dispatchable
  -- assignments stay the very same rows.
  pub barrier :
      (rows : List Assignment) (m : ℕ)
      → any (unfinished_below m) rows ≡ true
      → keep_if (dispatchable op) (advance_layer op now m rows) ≡ keep_if (dispatchable op) rows
  unfolding advance_layer
  barrier rows m h = elim (Bool-cases (ltb 0 (layer_counts op m rows).still_running)) [
    | inl r ↦ rw r
    | inr r ↦ rw r (elim (Bool-cases (ltb 0 (layer_counts op m rows).failed)) [
      | inl f ↦ rw f (cancel-dispatchable rows)
      | inr f ↦ cc (settled_below rows m r f)
    ])
  ]

  abbrev pub failed_canary : Assignment → Bool
  failed_canary a =
      in_canary op 0 a
      && (has_status a.status AssignmentStatus.failed
          || has_status a.status AssignmentStatus.partially_applied)

  count_failed_canary :
      (rows : List Assignment)
      → any failed_canary rows ≡ true
      → ltb 0 (canary_counts op 0 rows).failed ≡ true
  unfolding canary_counts count_status
  count_failed_canary [] h = cc
  count_failed_canary (a ∷ rows) h = ground (arith, count_failed_canary rows)

  loop_halts :
      (layers : List ℕ) (rows : List Assignment)
      → All (λ l. l ≡ 0) layers
      → layers ≢ []
      → any failed_canary rows ≡ true
      → canary_loop op now layers rows ≡ halted op now rows
  unfolding canary_loop
  loop_halts [] rows z n h = absurd (n refl)
  loop_halts (l ∷ layers) rows z n h =
      subst (λ k. canary_loop op now (k ∷ layers) rows ≡ halted op now rows) (sym z.0)
        (rw (count_failed_canary rows h))

  canary_halts :
      (rows : List Assignment)
      → IsPlaced rows
      → any (baseline op) rows ≡ true
      → any failed_canary rows ≡ true
      → advance_canary op now rows ≡ halted op now rows
  unfolding advance_canary waiting_layers
  canary_halts rows h b f =
      loop_halts (waiting_layers op rows) rows (waiting_layers-zero op now rows h)
        (λ e. cc (distinct-nil→any (baseline op) rows (nil_layers e))) f
    where
      nil_layers :
          waiting_layers op rows ≡ []
          → distinct (map (λ a. a.layer) (keep_if (baseline op) rows)) ≡ []
      nil_layers e = e

  nothing_held :
      (rows : List Assignment) → IsPlaced rows → any (held op) (halted op now rows) ≡ false
  nothing_held rows h =
      any_mono_false (held op) (waiting op) (halted op now rows) (λ a e. ground arith)
        (halted-not-waiting op now rows h)

  -- In a table whose rows wait for a canary only in the baseline of layer 0, and for a layer only
  -- above layer 0: when a baseline of the operation waits and its canary has a failed or partially
  -- applied assignment, the step leaves no assignment of the operation waiting, and only canary
  -- assignments of layer 0 may still be dispatched.
  pub failed_canary-halts :
      (rows : List Assignment)
      → IsPlaced rows
      → any (baseline op) rows ≡ true
      → any failed_canary rows ≡ true
      → (any (waiting op) (advance_phased_apply op now rows) ≡ false)
        × (any (λ a. dispatchable op a && outside_canary 0 a) (advance_phased_apply op now rows)
            ≡ false)
  unfolding advance_phased_apply
  failed_canary-halts rows h b f =
      rw
        (
          canary_halts rows h b f,
          min_layer-none_of (held op) (halted op now rows) (nothing_held rows h),
          advance_phased_apply,
        )
        (rw (canary_halts rows h b f) (halted-not-waiting op now rows h, only_canary rows h))
    where
      only_canary :
          (r : List Assignment)
          → IsPlaced r
          → any (λ a. dispatchable op a && outside_canary 0 a) (halted op now r) ≡ false
      only_canary r p =
          any-update_where-false Placed (λ a. dispatchable op a && outside_canary 0 a)
            (cancelled_by_canary op 0) (cancel now) r (λ a q. ground arith) p
