-- ===== src/Provider.antt =====
-- crates/iac-core/src: resource.rs, diff.rs, operation.rs, state.rs, provider.rs, registry.rs and
-- error.rs, the types that the executor and the providers share. `H` is the host as the providers
-- see it, their files in a step's workspace included. A YAML or JSON value that is only carried along
-- is a `Value`; a ULID is the number that its text encodes, and a timestamp is a number too.
use iac.Prelude.{
  ℕ, Bool, true, false, Option, none, some, List, [], ◌∷◌, String, str_eq, if◌then◌else◌,
}
use Prim.Native.String.{◌++◌}
use iac.Json.{Value, null}
use iac.Identity.{ResourceId}

abbrev pub PathBuf : Type 0
PathBuf = String

-- `Path::join` with a relative name.
abbrev pub join : PathBuf → String → PathBuf
join path name = path ++ ("/" ++ name)

abbrev pub json_name : String → String
json_name stem = stem ++ ".json"

-- An error of another crate is its text.
pub data Error : Type 0 where
  io : (path : PathBuf) (source : String) → Error
  yaml : (path : PathBuf) (source : String) → Error
  json : (source : String) → Error
  manifest : (path : PathBuf) (message : String) → Error
  validation : (resource : String) (message : String) → Error
  unknown_kind : String → Error
  provider : (name : String) (message : String) → Error
  checkpoint : (resource : String) (message : String) → Error
  command : String → Error

unfoldable pub display_error : Error → String
display_error (io path source) = "io error at " ++ (path ++ (": " ++ source))
display_error (yaml path source) = "yaml parse error in " ++ (path ++ (": " ++ source))
display_error (json source) = "json error: " ++ source
display_error (manifest path message) = "manifest error in " ++ (path ++ (": " ++ message))
display_error (validation resource message) =
    "validation failed for " ++ (resource ++ (": " ++ message))
display_error (unknown_kind kind) = "unknown resource kind: " ++ kind
display_error (provider name message) = "provider " ++ (name ++ (" failed: " ++ message))
display_error (checkpoint resource message) =
    "checkpoint missing for resource " ++ (resource ++ (": " ++ message))
display_error (command text) = "command failed: " ++ text

abbrev pub prefixed : String → Error → String
prefixed prefix e = prefix ++ display_error e

-- `format!("{rid}: {e}")`.
abbrev pub labelled : String → Error → String
labelled name e = name ++ (": " ++ display_error e)

abbrev pub named_operation : String → String
named_operation id = "operation " ++ id

abbrev pub missing_directory : PathBuf → String
missing_directory path = "operation directory " ++ (path ++ " does not exist")

-- The texts joined by "; ".
joined : List String → String
joined [] = ""
joined (s ∷ []) = s
joined (s ∷ t ∷ texts) = s ++ ("; " ++ joined (t ∷ texts))

unfoldable pub spelled : String → List String → String
unfolding joined
spelled start texts = start ++ joined texts

pub data Result {κ} (T : Type κ) : Type κ where
  err : (error : Error) → Result T
  ok : (value : T) → Result T

pub record Metadata : Type 0 where
  pub name : String
  pub environment : String
  pub owner : Option String
  pub labels : List (String × String)
  pub annotations : List (String × String)

pub record Resource : Type 0 where
  pub api_version : String
  pub kind : String
  pub metadata : Metadata
  pub spec : Value
  pub policy : Value
  pub file : PathBuf
  pub document_index : ℕ

abbrev pub id_of : Resource → ResourceId
id_of r = record { kind = r.kind; environment = r.metadata.environment; name = r.metadata.name }

pub data DiffKind : Type 0 where
  no_change create update delete : DiffKind

pub record FieldChange : Type 0 where
  pub field : String
  pub from : Option Value
  pub to : Option Value
  pub sensitive : Bool

pub record Diff : Type 0 where
  pub kind : DiffKind
  pub changes : List FieldChange
  pub reasons : List String
  pub reversible : Bool

abbrev pub is_change_kind : DiffKind → Bool
is_change_kind DiffKind.no_change = false
is_change_kind _ = true

abbrev pub is_change : Diff → Bool
is_change diff = is_change_kind diff.kind

pub data StepStatus : Type 0 where
  pending running succeeded failed skipped rolled_back : StepStatus

abbrev pub is_failed : StepStatus → Bool
is_failed StepStatus.failed = true
is_failed _ = false

pub record Step : Type 0 where
  pub id : ℕ
  pub action : String
  pub description : String
  pub reversible : Bool
  pub payload : Value
  pub status : StepStatus
  pub started_at : Option ℕ
  pub finished_at : Option ℕ

pub record StepResult : Type 0 where
  pub status : StepStatus
  pub message : String
  pub data_out : Value
  pub error : Option String

-- `StepResult::failed`.
abbrev pub failed_result : String → StepResult
failed_result text = record {
  status = StepStatus.failed;
  message = text;
  data_out = null;
  error = some text;
}

pub data OperationStatus : Type 0 where
  pending planning waiting_approval running partially_applied failed : OperationStatus
  rolling_back rolled_back succeeded cancelled : OperationStatus

pub record Operation : Type 0 where
  pub id : ℕ
  pub kind : String
  pub status : OperationStatus
  pub source_commit : Option String
  pub requested_by : String
  pub created_at : ℕ
  pub started_at : Option ℕ
  pub finished_at : Option ℕ

pub record Checkpoint : Type 0 where
  pub id : ℕ
  pub resource_id : ResourceId
  pub operation_id : ℕ
  pub created_at : ℕ
  pub data_in : Value
  pub resource_spec : Option Value

pub record ObservedState : Type 0 where
  pub present : Bool
  pub spec : Value
  pub facts : List (String × Value)
  pub observed_at : ℕ

pub record AppliedState : Type 0 where
  pub spec : Value
  pub generation : ℕ
  pub operation_id : Option ℕ
  pub applied_at : ℕ

pub record ApplyContext : Type 0 where
  pub operation_id : ℕ
  pub workspace : PathBuf

pub data VerifyOutcome : Type 0 where
  match : VerifyOutcome
  mismatch : List FieldChange → VerifyOutcome

-- The trait: what looks at the host leaves it as it is, and the others return the new host.
pub record Provider (H : Type 0) : Type 0 where
  pub observe : Resource → H → Result ObservedState
  pub diff : Resource → ObservedState → Result Diff
  pub plan : Resource → Diff → Result (List Step)
  pub pre_apply : Resource → Step → ApplyContext → H → Result Value × H
  pub apply : Resource → Step → ApplyContext → H → Result StepResult × H
  pub verify : Resource → H → Result VerifyOutcome
  pub rollback : Resource → Checkpoint → PathBuf → H → Result (Unit {0}) × H

module _ {H : Type 0} where
  abbrev pub get_provider : String → List (String × Provider H) → Option (Provider H)
  get_provider kind [] = none
  get_provider kind ((k, p) ∷ providers) =
      if str_eq k kind then some p else get_provider kind providers

  -- `ProviderRegistry::require`.
  unfoldable pub require : List (String × Provider H) → String → Result (Provider H)
  require providers kind = elim (get_provider kind providers) [
    | none ↦ err (unknown_kind kind)
    | some p ↦ ok p
  ]
