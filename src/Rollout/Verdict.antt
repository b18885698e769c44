-- ===== src/Rollout/Verdict.antt =====
-- The status that an operation ends with: the eight counts of `roll_up_operation` against a
-- description that asks only whether some assignment is in flight, fell short, or did something.
use iac.Prelude.{
  ℕ, ◌+◌, ◌≡◌, refl, ◌∙◌, All, Bool, true, false, ◌&&◌, ◌||◌, Option, none, some, List, [], ◌∷◌,
  ◌==◌, ltb, if◌then◌else◌, any, arith, update_where,
}
use iac.Tables.{Assignment, AssignmentStatus, has_status, Operation, OperationStatus}
use iac.Rollout.{tally, rolled_up, roll_up_operation}
use iac.Rollout.Gate.{dispatchable, waiting}
use iac.Rollout.Rows.{count_status}

module _ (op : ℕ) where
  abbrev pub in_flight : Assignment → Bool
  in_flight a = dispatchable op a || waiting op a

  abbrev pub fell_short : Assignment → Bool
  fell_short a =
      a.operation_id == op
      && (has_status a.status AssignmentStatus.failed
          || has_status a.status AssignmentStatus.partially_applied
          || has_status a.status AssignmentStatus.cancelled)

  abbrev pub did_something : Assignment → Bool
  did_something a =
      a.operation_id == op
      && (has_status a.status AssignmentStatus.succeeded
          || has_status a.status AssignmentStatus.partially_applied)

  abbrev pub verdict : List Assignment → Option OperationStatus
  verdict rows =
      if any in_flight rows
      then none
      else some (
          if any fell_short rows
          then (if any did_something rows
              then OperationStatus.partially_applied
              else OperationStatus.failed)
          else OperationStatus.succeeded)

  in_flight_lem :
      (rows : List Assignment)
      → let t = tally op rows in
        ltb 0 (t.pending + t.fetched + t.pending_layer + t.pending_canary) ≡ any in_flight rows
  unfolding tally count_status
  in_flight_lem [] = refl
  in_flight_lem (a ∷ rows) = ground (arith, in_flight_lem rows)

  fell_short_lem :
      (rows : List Assignment)
      → let t = tally op rows in ltb 0 (t.failed + t.partial + t.cancelled) ≡ any fell_short rows
  unfolding tally count_status
  fell_short_lem [] = refl
  fell_short_lem (a ∷ rows) = ground (arith, fell_short_lem rows)

  did_something_lem :
      (rows : List Assignment)
      → let t = tally op rows in (ltb 0 t.succeeded || ltb 0 t.partial) ≡ any did_something rows
  unfolding tally count_status
  did_something_lem [] = refl
  did_something_lem (a ∷ rows) = ground (arith, did_something_lem rows)

  -- The rolled-up status is none while some assignment of the operation is in flight; once none is,
  -- it is succeeded if none failed, was partially applied or cancelled, failed if one was and none
  -- succeeded or was partially applied, and partially_applied otherwise.
  pub rolled_up-verdict : (rows : List Assignment) → rolled_up (tally op rows) ≡ verdict rows
  unfolding rolled_up
  rolled_up-verdict rows = rw (in_flight_lem rows, fell_short_lem rows, did_something_lem rows)

abbrev pub is_terminal : OperationStatus → Bool
is_terminal OperationStatus.succeeded = true
is_terminal OperationStatus.partially_applied = true
is_terminal OperationStatus.failed = true
is_terminal OperationStatus.rejected = true
is_terminal _ = false

module _ (op now : ℕ) where
  set_terminal :
      (s : OperationStatus) (operations : List Operation)
      → is_terminal s ≡ true
      → All
          (λ o. (o.id == op) ≡ true → is_terminal o.status ≡ true)
          (update_where
            (λ o. o.id == op)
            (λ o. record o { status = s; finished_at = some now })
            operations)
  set_terminal s [] h = tt
  set_terminal s (o ∷ operations) h = (λ e. ground arith, set_terminal s operations h)

  verdict-terminal :
      (rows : List Assignment)
      → any (in_flight op) rows ≡ false
      → (s : OperationStatus) × (verdict op rows ≡ some s) × (is_terminal s ≡ true)
  verdict-terminal rows h =
      let s =
        if any (fell_short op) rows
        then (if any (did_something op) rows
            then OperationStatus.partially_applied
            else OperationStatus.failed)
        else OperationStatus.succeeded in
      (s, ground arith, ground arith)

  -- Once no assignment of the operation is pending, fetched or waiting, every row of that
  -- operation is given a terminal status.
  pub roll_up_operation-terminal :
      (rows : List Assignment) (operations : List Operation)
      → any (in_flight op) rows ≡ false
      → All
          (λ o. (o.id == op) ≡ true → is_terminal o.status ≡ true)
          (roll_up_operation op now rows operations)
  unfolding roll_up_operation
  roll_up_operation-terminal rows operations h =
      let (s, e, t) = verdict-terminal rows h in
      rw (rolled_up-verdict op rows ∙ e, roll_up_operation) (set_terminal s operations t)
