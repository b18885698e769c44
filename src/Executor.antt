-- ===== src/Executor.antt =====
-- crates/iac-core/src/executor.rs: planning, applying and rolling back on one host. Providers and
-- their host are parameters; so are the clock, the fresh ULIDs, and what the file system refuses.
-- `log` holds the effects in their order: a directory or a file that the executor writes, and the
-- calls of providers that may change the host. Two paths of the state directory are the same where
-- their texts are.
pub mod Logs
pub mod Ends
pub mod Steps
pub mod Apply
pub mod Rollback
use iac.Prelude.{
  ℕ, suc, Bool, true, false, not, ◌&&◌, ◌||◌, Option, none, some, List, [], ◌∷◌, ◌++◌, map, String,
  str_eq, any, unwrap_or, if◌then◌else◌,
}
use iac.Json.{Value, null}
use iac.Identity.{ResourceId, is_empty, fs_key}
use iac.Provider.{
  PathBuf, join, json_name, Error, prefixed, Result, ok, err, Resource, id_of, DiffKind,
  FieldChange, Diff, is_change, is_change_kind, StepStatus, is_failed, Step, StepResult,
  failed_result, OperationStatus, Operation, Checkpoint, AppliedState, ApplyContext, VerifyOutcome,
  match, mismatch, Provider, require,
}

pub data ItemStatus : Type 0 where
  no_change succeeded failed skipped : ItemStatus

pub record StepRecord : Type 0 where
  pub step : Step
  pub result : StepResult

pub record VerifySummary : Type 0 where
  pub matched : Bool
  pub mismatched : Option (List FieldChange)

pub record ApplyItem : Type 0 where
  pub resource_id : ResourceId
  pub kind : String
  pub status : ItemStatus
  pub steps : List StepRecord
  pub verify : Option VerifySummary
  pub error : Option String

pub record ApplyResult : Type 0 where
  pub operation : Operation
  pub items : List ApplyItem

pub record PlanItem : Type 0 where
  pub resource_id : ResourceId
  pub kind : String
  pub diff : Diff
  pub steps : List Step

pub record PlanResult : Type 0 where
  pub operation : Operation
  pub items : List PlanItem

-- What a file of the state directory holds.
pub data File : Type 0 where
  applied_file : AppliedState → File
  checkpoint_file : Checkpoint → File
  operation_file : Operation → File
  result_file : ApplyResult → File

pub data Effect : Type 0 where
  created : PathBuf → Effect
  wrote : PathBuf → File → Effect
  pre_applied : Resource → Step → Effect
  applied : Resource → Step → Effect
  undone : Checkpoint → Effect
  removed : ℕ → Effect

pub record World (H : Type 0) : Type 0 where
  pub host : H
  pub drawn : ℕ
  pub log : List Effect

-- `clock` and `ulid` give the k-th time and the k-th fresh id that are drawn, `refuses` the error
-- with which a write at a path ends, if it fails, and `digest` is `sha256_hex`. What is read back from
-- the state directory are the names in `operations`, of which those that `stays` cannot be removed, whether a directory exists, and the checkpoint
-- files of an operation, each with its workspace.
pub record Runtime (H : Type 0) : Type 0 where
  pub clock : ℕ → ℕ
  pub ulid : ℕ → ℕ
  pub ulid_text : ℕ → String
  pub digest : String → String
  pub refuses : PathBuf → World H → Option Error
  pub operation_dirs : World H → Result (List ℕ)
  pub stays : World H → ℕ → Bool
  pub is_dir : PathBuf → World H → Bool
  pub checkpoints : ℕ → World H → Result (List (PathBuf × Checkpoint))
  pub state_dir : PathBuf
  pub actor : String
  pub registry : List (String × Provider H)

abbrev pub Exec : Type 0 → Type 0 → Type 0
Exec H A = World H → Result A × World H

module _ {H : Type 0} where
  abbrev pub then_on : {A B : Type 0} → Result A × World H → (A → Exec H B) → Result B × World H
  then_on (err e, w) next = (err e, w)
  then_on (ok a, w) next = next a w

  -- `?` in a function that changes the world: an error keeps what was done so far.
  infixl 5 ◌>>=◌ ◌>>◌
  unfoldable pub ◌>>=◌ : {A B : Type 0} → Exec H A → (A → Exec H B) → Exec H B
  ◌>>=◌ m next w = then_on (m w) next

  unfoldable pub ◌>>◌ : {A B : Type 0} → Exec H A → Exec H B → Exec H B
  ◌>>◌ m next w = then_on (m w) (λ _. next)

  unfoldable pub done : {A : Type 0} → A → Exec H A
  done a w = (ok a, w)

  unfoldable pub lift : {A : Type 0} → Result A → Exec H A
  lift r w = (r, w)

  -- The call's error is a value for the caller.
  unfoldable pub attempt : {A : Type 0} → Exec H A → Exec H (Result A)
  attempt m w = (ok (m w).0, (m w).1)

  unfoldable pub look : {A : Type 0} → (H → Result A) → Exec H A
  look f w = (f w.host, w)

  -- A provider's call that may change the host.
  unfoldable pub call : {A : Type 0} → Effect → (H → Result A × H) → Exec H A
  call e f w = ((f w.host).0, record w { host = (f w.host).1; log = w.log ++ e ∷ [] })

pub has_secrets : List (String × String) → Bool
has_secrets [] = false
has_secrets ((k, v) ∷ annotations) =
    if str_eq k "iac.dev/secret-fields" then not (is_empty v) else has_secrets annotations

mark_sensitive : FieldChange → FieldChange
mark_sensitive change = record change { sensitive = true }

unfoldable pub mark_secret_changes : Resource → Diff → Diff
unfolding has_secrets mark_sensitive
mark_secret_changes r diff =
    if has_secrets r.metadata.annotations
    then record diff { changes = map mark_sensitive diff.changes }
    else diff

module _ {H : Type 0} (rt : Runtime H) where
  unfoldable pub now : Exec H ℕ
  now w = (ok (rt.clock w.drawn), record w { drawn = suc w.drawn })

  unfoldable pub new_ulid : Exec H ℕ
  new_ulid w = (ok (rt.ulid w.drawn), record w { drawn = suc w.drawn })

  unfoldable pub written : PathBuf → Effect → Exec H (Unit {0})
  written path e w = elim (rt.refuses path w) [
    | some error ↦ (err error, w)
    | none ↦ (ok tt, record w { log = w.log ++ e ∷ [] })
  ]

  abbrev ensure_dir : PathBuf → Exec H (Unit {0})
  ensure_dir path = written path (created path)

  abbrev write_json : PathBuf → File → Exec H (Unit {0})
  write_json path file = written path (wrote path file)

  abbrev operation_dir : ℕ → PathBuf
  operation_dir op_id = join (join rt.state_dir "operations") (rt.ulid_text op_id)

  abbrev checkpoint_workspace : ℕ → ResourceId → ℕ → PathBuf
  checkpoint_workspace op_id rid step_id =
      join (join (join (operation_dir op_id) "checkpoints") (fs_key rt.digest rid))
        (rt.ulid_text step_id)

  abbrev applied_path : ResourceId → PathBuf
  applied_path rid = join (join rt.state_dir "applied") (json_name (fs_key rt.digest rid))

  -- `Operation::new`.
  new_operation : String → Exec H Operation
  new_operation kind = do
    id ← new_ulid
    created_at ← now
    done (record {
      id = id;
      kind = kind;
      status = OperationStatus.pending;
      source_commit = none;
      requested_by = rt.actor;
      created_at = created_at;
      started_at = none;
      finished_at = none;
    })

  -- `Checkpoint::with_spec`.
  with_spec : ResourceId → ℕ → Value → Value → Exec H Checkpoint
  with_spec rid op_id data_in spec = do
    id ← new_ulid
    created_at ← now
    done (record {
      id = id;
      resource_id = rid;
      operation_id = op_id;
      created_at = created_at;
      data_in = data_in;
      resource_spec = some spec;
    })

  unfoldable pub write_applied : Resource → ℕ → Exec H (Unit {0})
  write_applied r op_id = do
    ensure_dir (join rt.state_dir "applied")
    applied_at ← now
    write_json (applied_path (id_of r)) (
        applied_file (record {
          spec = r.spec;
          generation = 1;
          operation_id = some op_id;
          applied_at = applied_at;
        }))
