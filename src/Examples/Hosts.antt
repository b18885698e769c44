-- ===== src/Examples/Hosts.antt =====
-- One host: a counter that a provider raises, with a second resource whose second step fails.
use iac.Prelude.{
  ◌==◌, ℕ, zero, suc, ◌≡◌, refl, Bool, true, false, none, some, List, [], ◌∷◌, ◌++◌, map, String,
  str_eq, if◌then◌else◌, ◌≢◌, any, not, keep_if, Option,
}
use mathlib.Core.List.{Perm}
use iac.Json.{null}
use iac.Provider.{
  PathBuf, provider, command, Result, ok, err, Resource, DiffKind, Diff, Step, StepStatus,
  StepResult, OperationStatus, Checkpoint, match, Provider,
}
use iac.Executor.{
  ◌>>=◌, ◌>>◌, written, now, attempt, call, new_ulid, done, World, Runtime, Effect, removed, undone,
  ApplyResult, PlanResult, StepRecord,
}
use iac.Executor.Logs.{Guarded}
use iac.Executor.Steps.{run_steps}
use iac.Executor.Steps.Order.{run_steps-RanUpTo, RanUpTo}
use iac.Executor.Apply.{apply, plan, gc_operation_dirs, removable}
use iac.Executor.Apply.WriteAhead.{apply-checkpointed}
use iac.Executor.Apply.Outcome.{Outcome}
use iac.Executor.Apply.Retention.{gc_operation_dirs-Retained, Retained}
use iac.Executor.Apply.Dry.{plan-dry, PlannedAll}
use iac.Executor.Rollback.{rollback}
use iac.Executor.Rollback.Latest.{IsLatestFirst}
use iac.Executor.Rollback.Attempts.{rollback-attempts, is_known}

abbrev resource : String → Resource
resource name = record {
  api_version = "iac.example/v1";
  kind = "file";
  metadata = record {
    name = name;
    environment = "prod";
    owner = none;
    labels = [];
    annotations = ("iac.dev/secret-fields", "/spec/password") ∷ [];
  };
  spec = null;
  policy = null;
  file = "site.yaml";
  document_index = 0;
}

abbrev step : ℕ → Step
step n = record {
  id = n;
  action = "file.write";
  description = "";
  reversible = true;
  payload = null;
  status = StepStatus.pending;
  started_at = none;
  finished_at = none;
}

abbrev changed : Diff
changed = record {
  kind = DiffKind.update;
  changes = record { field = "content"; from = none; to = some null; sensitive = false } ∷ [];
  reasons = [];
  reversible = true;
}

abbrev is_second : ℕ → Bool
is_second (suc (suc zero)) = true
is_second _ = false

abbrev answer : Resource → Step → Result StepResult
answer r s =
    if is_second s.id
    then (if str_eq r.metadata.name "broken"
        then err (provider "file" "disk full")
        else ok
            (record { status = StepStatus.succeeded; message = ""; data_out = null; error = none }))
    else ok (record { status = StepStatus.succeeded; message = ""; data_out = null; error = none })

abbrev counter : Provider ℕ
counter = record {
  observe = λ r h. ok (record { present = true; spec = null; facts = []; observed_at = 0 });
  diff = λ r observed. ok changed;
  plan = λ r d. ok (step 1 ∷ step 2 ∷ step 3 ∷ []);
  pre_apply = λ r s ctx h. (ok null, h);
  apply = λ r s ctx h. (answer r s, suc h);
  verify = λ r h. ok match;
  rollback = λ r cp path h. (err (command "busy"), h);
}

abbrev saved : ℕ → String → PathBuf × Checkpoint
saved n kind = (
  "w",
  record {
    id = n;
    resource_id = record { kind = kind; environment = "prod"; name = "main" };
    operation_id = 7;
    created_at = 0;
    data_in = null;
    resource_spec = none;
  },
)

abbrev entries : List (PathBuf × Checkpoint)
entries = saved 3 "file" ∷ saved 9 "file" ∷ saved 5 "gone" ∷ []

abbrev runtime : Runtime ℕ
runtime = record {
  clock = λ k. k;
  ulid = λ k. k;
  ulid_text = λ k. "01H";
  digest = λ s. "e3b0c44298fc1c14";
  refuses = λ path w. none;
  operation_dirs = λ w. ok (3 ∷ 1 ∷ 2 ∷ []);
  stays = λ w n. n == 1;
  is_dir = λ path w. true;
  checkpoints = λ id w. ok entries;
  state_dir = "state";
  actor = "ada";
  registry = ("file", counter) ∷ [];
}

abbrev start : World ℕ
start = record { host = 0; drawn = 0; log = [] }

abbrev both : List Resource
both = resource "main" ∷ resource "broken" ∷ []

apply-checkpointed_example :
    (more : List Effect) × ((apply runtime both start).1.log ≡ [] ++ more) × Guarded none more
apply-checkpointed_example = apply-checkpointed runtime both start

abbrev result_or_empty : Result ApplyResult → ApplyResult
result_or_empty (ok a) = a
result_or_empty (err e) = record {
  operation = record {
    id = 0;
    kind = "apply";
    status = OperationStatus.pending;
    source_commit = none;
    requested_by = "";
    created_at = 0;
    started_at = none;
    finished_at = none;
  };
  items = [];
}

abbrev applied_both : ApplyResult
applied_both = result_or_empty (apply runtime both start).0

abbrev ran_of : Result (List StepRecord × Option String) → List StepRecord × Option String
ran_of (ok a) = a
ran_of (err e) = ([], none)

abbrev ran : List StepRecord × Option String
ran =
    ran_of
      (run_steps runtime 7 (resource "broken") counter (step 1 ∷ step 2 ∷ step 3 ∷ []) [] start).0

run_steps-RanUpTo_example : RanUpTo (step 1 ∷ step 2 ∷ step 3 ∷ []) ran.1 ran.0
unfolding run_steps ◌>>=◌ ◌>>◌ written now attempt call new_ulid done
run_steps-RanUpTo_example =
    run_steps-RanUpTo runtime 7 (resource "broken") counter (step 1 ∷ step 2 ∷ step 3 ∷ []) start
      ran.0 ran.1 refl

gc_operation_dirs-Retained_example :
    (gone : List ℕ) × Retained 1 (3 ∷ 1 ∷ 2 ∷ []) gone
    × ((gc_operation_dirs runtime 1 start).1.log ≡ [] ++ map removed (removable runtime start gone))
    × ((gc_operation_dirs runtime 1 start).1.host ≡ 0)
    × ((gc_operation_dirs runtime 1 start).0 ≡ ok tt)
gc_operation_dirs-Retained_example =
    gc_operation_dirs-Retained runtime 1 start (3 ∷ 1 ∷ 2 ∷ []) refl

plan-dry_example :
    ((plan runtime both start).1.host ≡ 0)
    × ((plan runtime both start).1.log ≡ [])
    × ((out : PlanResult) → (plan runtime both start).0 ≡ ok out → PlannedAll both out.items)
plan-dry_example = plan-dry runtime both start

rollback-attempts_example :
    (sorted : List (PathBuf × Checkpoint)) × Perm sorted entries
    × IsLatestFirst sorted
    × ((rollback runtime 7 start).1.log
        ≡ [] ++ map (λ (e : PathBuf × Checkpoint). undone e.1) (keep_if (is_known runtime) sorted))
    × (any (λ e. not (is_known runtime e)) sorted ≡ true → (rollback runtime 7 start).0 ≢ ok tt)
rollback-attempts_example = rollback-attempts runtime 7 start entries refl refl refl
