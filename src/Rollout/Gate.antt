-- ===== src/Rollout/Gate.antt =====
-- The canary gate: what `advance_canary` leaves waiting, and what it keeps of the table.
use iac.Prelude.{
  ℕ, ◌≡◌, refl, sym, subst, any_mono_false, ◌⊎◌, inl, inr, Bool, true, false, ◌&&◌, ◌||◌, Option,
  none, some, List, [], ◌∷◌, All, map, keep_if, ◌==◌, ltb, if◌then◌else◌, any, arith, update_where,
  Bool-cases, All-update_where, any-update_where-false, count_if-zero_of,
}
use iac.Tables.{Assignment, AssignmentStatus, has_status}
use iac.Rollout.Rows.{count_status, of_operation, All-distinct, distinct-nil→any}
use iac.Rollout.{
  cancel, release, cancelled_by_canary, baseline_at, canary_loop, advance_canary, canary_counts,
  in_canary, waiting_layers,
}

-- An agent may still be given the assignment, or works on it.
abbrev pub dispatchable : ℕ → Assignment → Bool
dispatchable op a =
    of_operation op AssignmentStatus.pending a || of_operation op AssignmentStatus.fetched a

abbrev pub baseline : ℕ → Assignment → Bool
baseline op = of_operation op AssignmentStatus.pending_canary

abbrev pub held : ℕ → Assignment → Bool
held op = of_operation op AssignmentStatus.pending_layer

-- The assignment waits for a gate.
abbrev pub waiting : ℕ → Assignment → Bool
waiting op a = held op a || baseline op a

-- Some assignment can be dispatched, or none waits.
abbrev pub Progress : ℕ → List Assignment → Type 0
Progress op rows = (any (dispatchable op) rows ≡ true) ⊎ (any (waiting op) rows ≡ false)

-- Where a status may stand: only baseline rows of layer 0 wait for a canary, and only rows beyond
-- layer 0 wait for a layer.
abbrev pub placed : AssignmentStatus → ℕ → Option ℕ → Bool
placed AssignmentStatus.pending_canary layer none = false
placed AssignmentStatus.pending_canary layer (some b) = layer == 0 && b == 1
placed AssignmentStatus.pending_layer layer batch = ltb 0 layer
placed _ layer batch = true

abbrev pub Placed : Assignment → Type 0
Placed a = placed a.status a.layer a.batch ≡ true

abbrev pub IsPlaced : List Assignment → Type 0
IsPlaced rows = All Placed rows

abbrev pub CanarySettled : ℕ → List Assignment → Type 0
CanarySettled op rows = (any (dispatchable op) rows ≡ true) ⊎ (any (baseline op) rows ≡ false)

cancel_row :
    (op now : ℕ) (a : Assignment)
    → Placed a
    → waiting op (if cancelled_by_canary op 0 a then cancel now a else a) ≡ false
cancel_row op now a h = ground arith

release_row :
    (op : ℕ) (a : Assignment)
    → Placed a
    → baseline op (if baseline_at op 0 a then release a else a) ≡ false
release_row op a h = ground arith

module _ (op now : ℕ) where
  -- One layer of the canary loop, from any rows that are placed.
  abbrev promoted : List Assignment → List Assignment
  promoted rows = update_where (baseline_at op 0) release rows

  abbrev pub halted : List Assignment → List Assignment
  halted rows = update_where (cancelled_by_canary op 0) (cancel now) rows

  promoted-IsPlaced : (rows : List Assignment) → IsPlaced rows → IsPlaced (promoted rows)
  promoted-IsPlaced rows h =
      All-update_where Placed Placed (baseline_at op 0) release rows (λ a p. ground arith) h

  halted-IsPlaced : (rows : List Assignment) → IsPlaced rows → IsPlaced (halted rows)
  halted-IsPlaced rows h =
      All-update_where Placed Placed (cancelled_by_canary op 0) (cancel now) rows
        (λ a p. ground arith) h

  -- The loop keeps what releasing a baseline and stopping a rollout keep.
  canary_loop_rule {ℓ} :
      (P : List Assignment → Type ℓ)
      → ((rows : List Assignment) → P rows → P (promoted rows))
      → ((rows : List Assignment) → P rows → P (halted rows))
      → (layers : List ℕ) (rows : List Assignment) → All (λ l. l ≡ 0) layers
      → P rows
      → P (canary_loop op now layers rows)
  unfolding canary_loop
  canary_loop_rule P up stop [] rows z h = h
  canary_loop_rule P up stop (l ∷ layers) rows z h =
      subst (λ k. P (canary_loop op now (k ∷ layers) rows)) (sym z.0)
        (elim (Bool-cases (ltb 0 (canary_counts op 0 rows).failed)) [
          | inl f ↦ rw f (stop rows h)
          | inr f ↦ rw f (elim (Bool-cases (ltb 0 (canary_counts op 0 rows).still_running)) [
            | inl r ↦ rw r (canary_loop_rule P up stop layers rows z.1 h)
            | inr r ↦ rw r (canary_loop_rule P up stop layers (promoted rows) z.1 (up rows h))
          ])
        ])

  abbrev pub Settled : List Assignment → Type 0
  Settled rows = IsPlaced rows × CanarySettled op rows

  pub halted-not-waiting :
      (rows : List Assignment) → IsPlaced rows → any (waiting op) (halted rows) ≡ false
  halted-not-waiting rows h =
      any-update_where-false Placed (waiting op) (cancelled_by_canary op 0) (cancel now) rows
        (λ a p. cancel_row op now a p) h

  halted-Settled : (rows : List Assignment) → IsPlaced rows → Settled (halted rows)
  halted-Settled rows h = (
    halted-IsPlaced rows h,
    inr (
        any_mono_false (baseline op) (waiting op) (halted rows) (λ a e. ground arith)
          (halted-not-waiting rows h)),
  )

  promoted-Settled : (rows : List Assignment) → IsPlaced rows → Settled (promoted rows)
  promoted-Settled rows h = (
    promoted-IsPlaced rows h,
    inr (
        any-update_where-false Placed (baseline op) (baseline_at op 0) release rows
          (λ a p. release_row op a p) h),
  )

  in_flight_canary :
      (rows : List Assignment)
      → ltb 0 (canary_counts op 0 rows).still_running ≡ true
      → any (dispatchable op) rows ≡ true
  unfolding canary_counts count_status
  in_flight_canary rows h = elim (Bool-cases (any (dispatchable op) rows)) [
    | inl e ↦ e
    | inr e ↦ ground (
      arith,
      count_if-zero_of (λ a. in_canary op 0 a && has_status a.status AssignmentStatus.pending)
          (dispatchable op) rows (λ a q. ground arith) e,
      count_if-zero_of (λ a. in_canary op 0 a && has_status a.status AssignmentStatus.fetched)
          (dispatchable op) rows (λ a q. ground arith) e,
    )
  ]

  canary_first-Settled :
      (layers : List ℕ) (rows : List Assignment)
      → All (λ l. l ≡ 0) layers
      → IsPlaced rows
      → Settled (canary_loop op now (0 ∷ layers) rows)
  unfolding canary_loop
  canary_first-Settled layers rows z h =
      elim (Bool-cases (ltb 0 (canary_counts op 0 rows).failed)) [
        | inl f ↦ rw f (halted-Settled rows h)
        | inr f ↦ rw f (elim (Bool-cases (ltb 0 (canary_counts op 0 rows).still_running)) [
          | inl r ↦ rw r (
              canary_loop_rule Settled (λ x y. promoted-Settled x y.0) (λ x y. halted-Settled x y.0)
                layers rows z (h, inl (in_flight_canary rows r)))
          | inr r ↦ rw r (
              canary_loop_rule Settled (λ x y. promoted-Settled x y.0) (λ x y. halted-Settled x y.0)
                layers (promoted rows) z (promoted-Settled rows h))
        ])
      ]

  placed_layers :
      (rows : List Assignment)
      → IsPlaced rows
      → All (λ l. l ≡ 0) (map (λ a. a.layer) (keep_if (baseline op) rows))
  placed_layers [] h = tt
  placed_layers (a ∷ rows) h = ground (arith, placed_layers rows h.1)

  pub waiting_layers-zero :
      (rows : List Assignment) → IsPlaced rows → All (λ l. l ≡ 0) (waiting_layers op rows)
  unfolding waiting_layers
  waiting_layers-zero rows h = All-distinct (λ l. l ≡ 0) _ (placed_layers rows h)

  loop-Settled :
      (layers : List ℕ) (rows : List Assignment)
      → All (λ l. l ≡ 0) layers
      → (layers ≡ [] → any (baseline op) rows ≡ false)
      → IsPlaced rows
      → Settled (canary_loop op now layers rows)
  unfolding canary_loop
  loop-Settled [] rows z none_waits h = (h, inr (none_waits refl))
  loop-Settled (l ∷ layers) rows z none_waits h =
      subst (λ k. Settled (canary_loop op now (k ∷ layers) rows)) (sym z.0)
        (canary_first-Settled layers rows z.1 h)

  pub advance_canary-Settled :
      (rows : List Assignment) → IsPlaced rows → Settled (advance_canary op now rows)
  unfolding advance_canary
  advance_canary-Settled rows h =
      loop-Settled (waiting_layers op rows) rows (waiting_layers-zero rows h)
        (distinct-nil→any (baseline op) rows) h
