-- ===== src/Executor/Steps/Order.antt =====
-- The steps of a resource run in their order up to the first that fails.
use iac.Prelude.{
  ℕ, ◌≡◌, ◌∙◌, refl, ap, sym, Bool, true, false, Option, none, some, List, [], ◌∷◌, ◌++◌, All, map,
  unwrap_or, String, if◌then◌else◌,
}
use mathlib.Core.List.{append_assoc, append-nil}
use iac.Provider.{
  Result, ok, err, Resource, Step, is_failed, StepResult, ApplyContext, Provider, prefixed,
}
use iac.Json.{Value}
use iac.Executor.{StepRecord, World, Runtime, done}
use iac.Executor.Ends.{Ends, >>=-Ends, after-Ends, >>-Ends, done-Ends}
use iac.Executor.Steps.{after_pre_apply, failed_step, finished_step, run_step, run_steps}

abbrev pub NotFailed : StepRecord → Type 0
NotFailed r = is_failed r.result.status ≡ false

-- The record failed with that text.
abbrev pub FailedWith : String → StepRecord → Type 0
FailedWith text r = (is_failed r.result.status ≡ true) × (unwrap_or r.result.error "" ≡ text)

-- How a list of records ends: with no failure, or with the one failure that stopped it.
abbrev pub Stopped : Option String → List StepRecord → Type 0
Stopped none records = All NotFailed records
Stopped (some text) records =
    (before : List StepRecord) × (last : StepRecord) × (records ≡ before ++ last ∷ [])
    × All NotFailed before
    × FailedWith text last

Stopped-cons :
    (error : Option String) (r : StepRecord) (records : List StepRecord)
    → NotFailed r
    → Stopped error records
    → Stopped error (r ∷ records)
Stopped-cons none r records h s = (h, s)
Stopped-cons (some text) r records h (before, last, e, all, f) =
    (r ∷ before, last, ap (λ l. r ∷ l) e, (h, all), f)

abbrev OneStep : Step → StepRecord × Option String → Type 0
OneStep step ran = (ran.0.step.id ≡ step.id) × Stopped ran.1 (ran.0 ∷ [])

-- The records are those of the first steps, and of all of them unless one failed.
pub record RanUpTo (steps : List Step) (error : Option String) (records : List StepRecord)
    : Type 0 where
  pub not_run : List ℕ
  pub in_order : map (λ s. s.id) steps ≡ map (λ (r : StepRecord). r.step.id) records ++ not_run
  pub all_run : error ≡ none → not_run ≡ []
  pub stopped : Stopped error records

module _ {H : Type 0} (rt : Runtime H) where
  failed_step-Ends :
      (step s : Step) (text : String) → s.id ≡ step.id → Ends (OneStep step) (failed_step rt s text)
  unfolding failed_step
  failed_step-Ends step s text h =
      after-Ends _ (λ t. done-Ends (OneStep step) _ (h, ([], _, refl, tt, (refl, refl))))

  finished_step-Ends :
      (step s : Step) (result : StepResult)
      → s.id ≡ step.id
      → Ends (OneStep step) (finished_step rt s result)
  unfolding finished_step
  finished_step-Ends step s result h =
      after-Ends _ (λ t. done-Ends (OneStep step) _ (h, ended t (is_failed result.status) refl))
    where
      ended :
          (t : ℕ) (b : Bool)
          → is_failed result.status ≡ b
          → Stopped (if b then some (unwrap_or result.error "") else none) (
              record {
                step = record s { status = result.status; finished_at = some t };
                result = result;
              }
              ∷ [])
      ended t true e = ([], _, refl, tt, (e, refl))
      ended t false e = (e, tt)

  module _ (op_id : ℕ) (r : Resource) (p : Provider H) where
    run_step-Ends : (step : Step) → Ends (OneStep step) (run_step rt op_id r p step)
    unfolding run_step after_pre_apply
    run_step-Ends step =
        >>-Ends _ (after-Ends _ (λ started_at. after-Ends _ (λ outcome. rest _ _ refl outcome)))
      where
        rest :
            (s : Step) (ctx : ApplyContext)
            → s.id ≡ step.id
            → (outcome : Result Value)
            → Ends (OneStep step) (elim outcome [
              | err e ↦ failed_step rt s (prefixed "pre_apply failed: " e)
              | ok pre_data ↦ after_pre_apply rt op_id r p s ctx pre_data
            ])
        rest s ctx h (err e) = failed_step-Ends step s _ h
        rest s ctx h (ok pre_data) =
            after-Ends _
              (λ checkpoint. >>-Ends _ (after-Ends _ (λ outcome. finished_step-Ends step s _ h)))

    -- The records so far stay, and those of the steps come after them.
    abbrev pub Continued : List Step → List StepRecord → List StepRecord × Option String → Type 0
    Continued steps records out =
        (more : List StepRecord) × (out.0 ≡ records ++ more) × RanUpTo steps out.1 more

    pub run_steps-Continued :
        (steps : List Step) (records : List StepRecord)
        → Ends (Continued steps records) (run_steps rt op_id r p steps records)
    unfolding run_steps
    run_steps-Continued [] records = done-Ends (Continued [] records) _ (
      [],
      sym (append-nil records),
      record { not_run = []; in_order = refl; all_run = λ _. refl; stopped = tt },
    )
    run_steps-Continued (step ∷ steps) records =
        >>=-Ends (run_step-Ends step)
          (λ ran h. rest ran.0 ran.1 h (run_steps-Continued steps (records ++ ran.0 ∷ [])))
      where
        rest :
            (ran : StepRecord) (error : Option String)
            → OneStep step (ran, error)
            → Ends
                (Continued steps (records ++ ran ∷ []))
                (run_steps rt op_id r p steps (records ++ ran ∷ []))
            → Ends (Continued (step ∷ steps) records) (elim error [
              | some text ↦ done (records ++ ran ∷ [], some text)
              | none ↦ run_steps rt op_id r p steps (records ++ ran ∷ [])
            ])
        rest ran (some text) (same, s) k = done-Ends (Continued (step ∷ steps) records) _ (
          ran ∷ [],
          refl,
          record {
            not_run = map (λ t. t.id) steps;
            in_order = ap (λ i. i ∷ map (λ t. t.id) steps) (sym same);
            all_run = λ e. cc;
            stopped = s;
          },
        )
        rest ran none (same, s) k = record {
          ends = λ w out e.
              let (more, all, c) = k.ends w out e in
              (
                ran ∷ more,
                all ∙ append_assoc records (ran ∷ []) more,
                record {
                  not_run = c.not_run;
                  in_order = rw same (ap (λ l. step.id ∷ l) c.in_order);
                  all_run = c.all_run;
                  stopped = Stopped-cons out.1 ran more s.0 c.stopped;
                },
              );
        }

    -- When the steps of a resource end without an executor error, the records are those of the first
    -- steps in their order, and of all of them unless one failed; no record failed but, where an error
    -- text is returned, the last one, and that text is its error.
    pub run_steps-RanUpTo :
        (steps : List Step) (w : World H) (records : List StepRecord) (error : Option String)
        → (run_steps rt op_id r p steps [] w).0 ≡ ok (records, error)
        → RanUpTo steps error records
    run_steps-RanUpTo steps w records error h =
        let (more, all, c) = (run_steps-Continued steps []).ends w (records, error) h in rw all c
