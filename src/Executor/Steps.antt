-- ===== src/Executor/Steps.antt =====
-- crates/iac-core/src/executor.rs: `apply_one`, the plan, the steps and the verification of one
-- resource.
pub mod Checkpoints
pub mod Order
use iac.Prelude.{
  ℕ, suc, Bool, true, false, not, Option, none, some, List, [], ◌∷◌, ◌++◌, String, unwrap_or,
  if◌then◌else◌,
}
use iac.Json.{Value}
use iac.Provider.{
  join, prefixed, Result, ok, err, Resource, id_of, is_change, StepStatus, is_failed, Step,
  StepResult, failed_result, Operation, ApplyContext, VerifyOutcome, match, mismatch, Provider,
  require,
}
use iac.Executor.{
  ItemStatus, StepRecord, VerifySummary, ApplyItem, File, checkpoint_file, applied, pre_applied,
  World, Runtime, Exec, ◌>>=◌, ◌>>◌, done, lift, attempt, look, call, mark_secret_changes, now,
  ensure_dir, write_json, checkpoint_workspace, write_applied, with_spec,
}

-- `VerifySummary::from`.
pub summary_of : VerifyOutcome → VerifySummary
summary_of match = record { matched = true; mismatched = none }
summary_of (mismatch changes) = record { matched = false; mismatched = some changes }

module _ {H : Type 0} (rt : Runtime H) where
  -- One step: the checkpoint is written between `pre_apply` and `apply`. The record comes with the
  -- text of the error that ends the resource's steps.
  failed_step : Step → String → Exec H (StepRecord × Option String)
  failed_step s text = do
    finished_at ← now rt
    done (
      record {
        step = record s { status = StepStatus.failed; finished_at = some finished_at };
        result = failed_result text;
      },
      some text,
    )

  result_of : Result StepResult → StepResult
  result_of (ok r) = r
  result_of (err e) = failed_result (prefixed "apply failed: " e)

  finished_step : Step → StepResult → Exec H (StepRecord × Option String)
  finished_step s result = do
    finished_at ← now rt
    done (
      record {
        step = record s { status = result.status; finished_at = some finished_at };
        result = result;
      },
      if is_failed result.status then some (unwrap_or result.error "") else none,
    )

  module _ (op_id : ℕ) (r : Resource) (p : Provider H) where
    unfoldable pub after_pre_apply :
        Step → ApplyContext → Value → Exec H (StepRecord × Option String)
    unfolding result_of finished_step with_spec
    after_pre_apply s ctx pre_data = do
      checkpoint ← with_spec rt (id_of r) op_id pre_data r.spec
      write_json rt (join ctx.workspace "checkpoint.json") (checkpoint_file checkpoint)
      outcome ← attempt (call (applied r s) (p.apply r s ctx))
      finished_step s (result_of outcome)

    unfoldable pub run_step : Step → Exec H (StepRecord × Option String)
    unfolding failed_step after_pre_apply
    run_step step = do
      let workspace = checkpoint_workspace rt op_id (id_of r) step.id
      ensure_dir rt workspace
      let ctx : ApplyContext = record { operation_id = op_id; workspace = workspace }
      started_at ← now rt
      let s : Step = record step { status = StepStatus.running; started_at = some started_at }
      outcome ← attempt (call (pre_applied r s) (p.pre_apply r s ctx))
      elim outcome [
        | err e ↦ failed_step s (prefixed "pre_apply failed: " e)
        | ok pre_data ↦ after_pre_apply s ctx pre_data
      ]

    -- The loop over the steps, with the records so far.
    unfoldable pub run_steps :
        List Step → List StepRecord → Exec H (List StepRecord × Option String)
    unfolding run_step
    run_steps [] records = done (records, none)
    run_steps (step ∷ steps) records = run_step step >>= λ ran. elim ran.1 [
      | some error ↦ done (records ++ ran.0 ∷ [], some error)
      | none ↦ run_steps steps (records ++ ran.0 ∷ [])
    ]

    unfoldable pub item :
        ItemStatus → List StepRecord → Option VerifySummary → Option String → ApplyItem
    item status steps verify error = record {
      resource_id = id_of r;
      kind = r.kind;
      status = status;
      steps = steps;
      verify = verify;
      error = error;
    }

    unfoldable pub verified : List StepRecord → Exec H ApplyItem
    unfolding summary_of item write_applied
    verified records = do
      outcome ← look (p.verify r)
      let summary = summary_of outcome
      if summary.matched
          then (write_applied rt r op_id
              >> done (item ItemStatus.succeeded records (some summary) none))
          else done (item ItemStatus.failed records (some summary) none)

    unfoldable pub apply_steps : List Step → Exec H ApplyItem
    unfolding run_steps verified item
    apply_steps steps = run_steps steps [] >>= λ ran. elim ran.1 [
      | some error ↦ done (item ItemStatus.failed ran.0 none (some error))
      | none ↦ verified ran.0
    ]

  unfoldable pub apply_one : Operation → Resource → Exec H ApplyItem
  unfolding mark_secret_changes apply_steps item write_applied lift
  apply_one op r = do
    p ← lift (require rt.registry r.kind)
    observed ← look (p.observe r)
    diff ← lift (p.diff r observed)
    if is_change (mark_secret_changes r diff)
        then (lift (p.plan r (mark_secret_changes r diff)) >>= apply_steps op.id r p)
        else (write_applied rt r op.id >> done (item op.id r p ItemStatus.no_change [] none none))
