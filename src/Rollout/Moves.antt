-- ===== src/Rollout/Moves.antt =====
-- What a step of the rollout may change: the table keeps its rows, and a status moves only from
-- waiting to pending, or from unfinished to cancelled.
use iac.Prelude.{
  ℕ, ◌≡◌, ◌∙◌, inl, inr, Bool, true, false, ◌&&◌, ◌||◌, List, [], ◌∷◌, ◌==◌, ltb, if◌then◌else◌,
  arith, update_where, Bool-cases, Option-cases, Pairs, Pairs-refl, Pairs-trans, Pairs-update_where,
}
use iac.Tables.{Assignment, AssignmentStatus, has_status}
use iac.Rollout.{
  cancel, release, cancelled_by_canary, baseline_at, canary_loop, advance_canary, advance_layer,
  advance_phased_apply, canary_counts, waiting_layers, held_at,
}
use iac.Rollout.Rows.{min_layer, of_operation}

abbrev pub waits : AssignmentStatus → Bool
waits s =
    has_status s AssignmentStatus.pending_layer || has_status s AssignmentStatus.pending_canary

abbrev pub runs : AssignmentStatus → Bool
runs s = has_status s AssignmentStatus.pending || has_status s AssignmentStatus.fetched

abbrev pub may_move : AssignmentStatus → AssignmentStatus → Bool
may_move s t =
    has_status s t
    || waits s && has_status t AssignmentStatus.pending
    || (waits s || runs s) && has_status t AssignmentStatus.cancelled

-- The row `b` that a step makes of the row `a`.
pub record Moved (op : ℕ) (a b : Assignment) : Type 0 where
  pub same_id : b.id ≡ a.id
  pub same_agent : b.agent_id ≡ a.agent_id
  pub same_operation : b.operation_id ≡ a.operation_id
  pub same_payload : b.payload ≡ a.payload
  pub same_layer : b.layer ≡ a.layer
  pub same_batch : b.batch ≡ a.batch
  pub status_moves : may_move a.status b.status ≡ true
  pub finished_stay : (waits a.status || runs a.status) ≡ false → b ≡ a
  pub others_stay : (a.operation_id == op) ≡ false → b ≡ a

may_move_trans :
    (s t u : AssignmentStatus) → may_move s t ≡ true → may_move t u ≡ true → may_move s u ≡ true
may_move_trans s t u p q = ground arith

may_move-finished :
    (s t : AssignmentStatus)
    → (waits s || runs s) ≡ false
    → may_move s t ≡ true
    → (waits t || runs t) ≡ false
may_move-finished s t h p = ground arith

module _ (op now : ℕ) where
  Moved-refl : (a : Assignment) → Moved op a a
  Moved-refl a = ground arith

  Moved-trans : (a b c : Assignment) → Moved op a b → Moved op b c → Moved op a c
  Moved-trans a b c p q = record {
    same_id = q.same_id ∙ p.same_id;
    same_agent = q.same_agent ∙ p.same_agent;
    same_operation = q.same_operation ∙ p.same_operation;
    same_payload = q.same_payload ∙ p.same_payload;
    same_layer = q.same_layer ∙ p.same_layer;
    same_batch = q.same_batch ∙ p.same_batch;
    status_moves = may_move_trans a.status b.status c.status p.status_moves q.status_moves;
    finished_stay = λ e.
        q.finished_stay (may_move-finished a.status b.status e p.status_moves) ∙ p.finished_stay e;
    others_stay = λ e. q.others_stay (rw p.same_operation e) ∙ p.others_stay e;
  }

  released :
      (p : Assignment → Bool)
      → ((a : Assignment) → p a ≡ true → (a.operation_id == op && waits a.status) ≡ true)
      → (a : Assignment) → Moved op a (if p a then release a else a)
  released p h a = elim (Bool-cases (p a)) [
    | inl e ↦ rw e (ground (arith, h a e))
    | inr e ↦ rw e (Moved-refl a)
  ]

  stopped :
      (p : Assignment → Bool)
      → ((a : Assignment)
          → p a ≡ true
          → (a.operation_id == op && (waits a.status || runs a.status)) ≡ true)
      → (a : Assignment) → Moved op a (if p a then cancel now a else a)
  stopped p h a = elim (Bool-cases (p a)) [
    | inl e ↦ rw e (ground (arith, h a e))
    | inr e ↦ rw e (Moved-refl a)
  ]

  abbrev pub Rows : List Assignment → List Assignment → Type 0
  Rows = Pairs (Moved op)

  canary_loop-Moved :
      (layers : List ℕ) (rows : List Assignment) → Rows rows (canary_loop op now layers rows)
  unfolding canary_loop
  canary_loop-Moved [] rows = Pairs-refl (Moved op) Moved-refl rows
  canary_loop-Moved (l ∷ layers) rows = elim (Bool-cases (ltb 0 (canary_counts op l rows).failed)) [
    | inl f ↦ rw f (
        Pairs-update_where (Moved op) (cancelled_by_canary op l) (cancel now)
          (stopped (cancelled_by_canary op l) (λ a e. ground arith)) rows)
    | inr f ↦ rw f (elim (Bool-cases (ltb 0 (canary_counts op l rows).still_running)) [
      | inl r ↦ rw r (canary_loop-Moved layers rows)
      | inr r ↦ rw r (
          Pairs-trans (Moved op) Moved-trans rows _ _
            (Pairs-update_where (Moved op) (baseline_at op l) release
              (released (baseline_at op l) (λ a e. ground arith)) rows)
            (canary_loop-Moved layers (update_where (baseline_at op l) release rows)))
    ])
  ]

  advance_layer-Moved : (m : ℕ) (rows : List Assignment) → Rows rows (advance_layer op now m rows)
  unfolding advance_layer
  advance_layer-Moved m rows = ground (
    arith,
    Pairs-refl (Moved op) Moved-refl rows,
    Pairs-update_where (Moved op) (of_operation op AssignmentStatus.pending_layer) (cancel now)
        (stopped (of_operation op AssignmentStatus.pending_layer) (λ a e. ground arith)) rows,
    Pairs-update_where (Moved op) (held_at op m) release
        (released (held_at op m) (λ a e. ground arith)) rows,
  )

  advance_canary-Moved : (rows : List Assignment) → Rows rows (advance_canary op now rows)
  unfolding advance_canary
  advance_canary-Moved rows = canary_loop-Moved (waiting_layers op rows) rows

  -- The step of the rollout keeps every row with its id, agent, operation, payload, layer and batch.
  -- A status only moves from waiting to pending, or from waiting or running to cancelled; a row that
  -- is finished, or of another operation, is left as it was.
  pub advance_phased_apply-Moved :
      (rows : List Assignment) → Rows rows (advance_phased_apply op now rows)
  unfolding advance_phased_apply
  advance_phased_apply-Moved rows =
      let gated = advance_canary op now rows in
      elim (Option-cases (min_layer (of_operation op AssignmentStatus.pending_layer) gated)) [
        | inl e ↦ rw (e, advance_phased_apply) (advance_canary-Moved rows)
        | inr (m, e) ↦
            rw (e, advance_phased_apply)
              (Pairs-trans (Moved op) Moved-trans rows gated _ (advance_canary-Moved rows)
                (advance_layer-Moved m gated))
      ]
