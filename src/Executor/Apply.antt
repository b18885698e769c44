-- ===== src/Executor/Apply.antt =====
-- crates/iac-core/src/executor.rs: `plan` and `apply` over a list of resources, and the removal of
-- old operation directories. Their names are ULIDs, which sort as the numbers that they encode; the
-- names that a listing finds are a parameter, and none are found where the directory is missing.
pub mod WriteAhead
pub mod Outcome
pub mod Retention
pub mod Dry
use iac.Prelude.{
  ℕ, ◌-◌, zero, suc, Bool, true, false, ◌||◌, Option, none, some, List, [], ◌∷◌, ◌++◌, map, length,
  leb, any, not, keep_if, if◌then◌else◌,
}
use iac.Provider.{
  join, Result, ok, err, Resource, id_of, is_change, Step, OperationStatus, Operation, Provider,
  Error, require,
}
use iac.Executor.{
  ItemStatus, ApplyItem, ApplyResult, PlanItem, PlanResult, Effect, created, operation_file,
  result_file, World, Runtime, Exec, ◌>>=◌, ◌>>◌, done, lift, attempt, look, mark_secret_changes,
  now, ensure_dir, write_json, operation_dir, new_operation, removed,
}
use iac.Executor.Steps.{apply_one}

-- The oldest name first.
insert_name : ℕ → List ℕ → List ℕ
insert_name n [] = n ∷ []
insert_name n (m ∷ names) = if leb n m then n ∷ m ∷ names else m ∷ insert_name n names

unfoldable pub sort_names : List ℕ → List ℕ
unfolding insert_name
sort_names [] = []
sort_names (n ∷ names) = insert_name n (sort_names names)

abbrev pub take : ℕ → List ℕ → List ℕ
take zero names = []
take (suc k) [] = []
take (suc k) (n ∷ names) = n ∷ take k names

-- The names that are dropped so that at most `keep` are left.
unfoldable pub dropped : ℕ → List ℕ → List ℕ
unfolding sort_names
dropped keep names =
    if leb (length names) keep then [] else take (length names - keep) (sort_names names)

abbrev pub is_failed_item : ItemStatus → Bool
is_failed_item ItemStatus.failed = true
is_failed_item _ = false

abbrev pub is_succeeded_item : ItemStatus → Bool
is_succeeded_item ItemStatus.succeeded = true
is_succeeded_item _ = false

abbrev pub any_failed : List ApplyItem → Bool
any_failed = any (λ i. is_failed_item i.status)

abbrev pub any_changed : List ApplyItem → Bool
any_changed = any (λ i. is_succeeded_item i.status)

unfoldable pub final_status : Bool → Bool → OperationStatus
final_status true true = OperationStatus.partially_applied
final_status true false = OperationStatus.failed
final_status false changed = OperationStatus.succeeded

module _ {H : Type 0} (rt : Runtime H) where
  -- The names whose removal succeeds.
  abbrev pub removable : World H → List ℕ → List ℕ
  removable w = keep_if (λ n. not (rt.stays w n))

  -- Each name is tried once; a directory that cannot be removed is passed over, and stays.
  unfoldable pub gc_operation_dirs : ℕ → Exec H (Unit {0})
  unfolding dropped
  gc_operation_dirs keep w = elim (rt.operation_dirs w) [
    | err e ↦ (err e, w)
    | ok names ↦ (ok tt, record w { log = w.log ++ map removed (removable w (dropped keep names)) })
  ]

  unfoldable pub apply_all : Operation → List Resource → Exec H (List ApplyItem)
  apply_all op [] = done []
  apply_all op (r ∷ rs) = do item ← apply_one rt op r; items ← apply_all op rs; done (item ∷ items)

  unfoldable pub apply : List Resource → Exec H ApplyResult
  unfolding final_status new_operation gc_operation_dirs apply_all
  apply resources = do
    op ← new_operation rt "apply"
    started_at ← now rt
    let op_dir = operation_dir rt op.id
    ensure_dir rt op_dir
    items ←
        apply_all (record op { status = OperationStatus.running; started_at = some started_at })
          resources
    finished_at ← now rt
    let result : ApplyResult = record {
      operation = record op {
        status = final_status (any_failed items) (any_changed items);
        started_at = some started_at;
        finished_at = some finished_at;
      };
      items = items;
    }
    write_json rt (join op_dir "operation.json") (operation_file result.operation)
    write_json rt (join op_dir "apply-result.json") (result_file result)
    attempt (gc_operation_dirs 200)
    done result

  unfoldable pub plan_one : Resource → Exec H PlanItem
  unfolding lift mark_secret_changes
  plan_one r = do
    p ← lift (require rt.registry r.kind)
    observed ← look (p.observe r)
    diff ← lift (p.diff r observed)
    let marked = mark_secret_changes r diff
    steps ← if is_change marked then lift (p.plan r marked) else done []
    done (record { resource_id = id_of r; kind = r.kind; diff = marked; steps = steps })

  unfoldable pub plan_all : List Resource → Exec H (List PlanItem)
  unfolding plan_one
  plan_all [] = done []
  plan_all (r ∷ rs) = do item ← plan_one r; items ← plan_all rs; done (item ∷ items)

  unfoldable pub plan : List Resource → Exec H PlanResult
  unfolding plan_all new_operation
  plan resources = do
    op ← new_operation rt "plan"
    items ← plan_all resources
    finished_at ← now rt
    done (record {
      operation = record op { status = OperationStatus.succeeded; finished_at = some finished_at };
      items = items;
    })
