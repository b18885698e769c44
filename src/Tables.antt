-- ===== src/Tables.antt =====
-- The rows of the control plane's database that crates/iac-controlplane/src/store.rs reads and
-- writes. A ULID is the 128-bit number that its text encodes, and a timestamp the instant that
-- its text names; a JSON column holds the value that was serialised into it.
use iac.Prelude.{ℕ, ◌≡◌, ◌++◌, Bool, Option, List, String, ◌==◌}
use iac.Json.{Value}

-- The texts that the `status` column of `assignments` takes.
pub data AssignmentStatus : Type 0 where
  pending fetched pending_layer pending_canary : AssignmentStatus
  succeeded partially_applied failed cancelled : AssignmentStatus

abbrev code : AssignmentStatus → ℕ
code AssignmentStatus.pending = 0
code AssignmentStatus.fetched = 1
code AssignmentStatus.pending_layer = 2
code AssignmentStatus.pending_canary = 3
code AssignmentStatus.succeeded = 4
code AssignmentStatus.partially_applied = 5
code AssignmentStatus.failed = 6
code AssignmentStatus.cancelled = 7

-- `status = '…'` in a WHERE clause.
abbrev pub has_status : AssignmentStatus → AssignmentStatus → Bool
has_status s t = code s == code t

pub data AssignmentResultStatus : Type 0 where
  succeeded partially_applied failed : AssignmentResultStatus

pub record AssignmentItemResult : Type 0 where
  pub resource_id : String
  pub status : String
  pub error : Option String

pub record AssignmentResultRequest : Type 0 where
  pub status : AssignmentResultStatus
  pub summary : Option String
  pub items : List AssignmentItemResult

pub record Assignment : Type 0 where
  pub id : ℕ
  pub agent_id : ℕ
  pub operation_id : ℕ
  pub payload : List Value
  pub created_at : ℕ
  pub status : AssignmentStatus
  pub layer : ℕ
  pub batch : Option ℕ
  pub fetched_at : Option ℕ
  pub completed_at : Option ℕ
  pub result : Option AssignmentResultRequest

-- The texts that the `status` column of `operations` takes.
pub data OperationStatus : Type 0 where
  pending_approval pending running succeeded partially_applied failed rejected : OperationStatus

pub record Operation : Type 0 where
  pub id : ℕ
  pub environment : String
  pub requested_by : String
  pub status : OperationStatus
  pub source_commit : Option String
  pub summary : Option String
  pub created_at : ℕ
  pub started_at : Option ℕ
  pub finished_at : Option ℕ
  pub requires_approval : Bool
  pub matched_policies : List String
  pub approved_by : Option String
  pub approved_at : Option ℕ
  pub approval_reason : Option String
  pub rejected_by : Option String
  pub rejected_at : Option ℕ
  pub rejection_reason : Option String

pub record Agent : Type 0 where
  pub id : ℕ
  pub name : String
  pub environment : String

pub record DesiredState : Type 0 where
  pub operation_id : ℕ
  pub resource_id : String
  pub kind : String
  pub environment : String
  pub spec_json : String

-- A resource of a submission, as the routing reads it; `resource_json` is the text of the whole
-- resource.
pub record ResourceForRouting : Type 0 where
  pub resource_id : String
  pub kind : String
  pub environment : String
  pub resource_json : String
  pub name : String
  pub host_selector : Option String

-- protocol.rs
pub record CanarySpec : Type 0 where
  pub pct : ℕ
  pub min_count : Option ℕ

-- Who acted: the display of an actor that the code formats from a prefix and an id or a name.
pub data Actor : Type 0 where
  named : String → Actor
  agent : ℕ → Actor

-- `AuditRecord`: what a handler asks to be recorded.
pub record AuditRecord : Type 0 where
  pub actor : Actor
  pub kind : String
  pub severity : String
  pub operation_id : Option ℕ
  pub agent_id : Option ℕ
  pub resource_id : Option String
  pub drift_id : Option ℕ
  pub payload : Value

-- The tables that the operation handlers share. `audit` holds the recorded events in order; the
-- hash chain of its rows is modelled in Audit.
pub record Db : Type 0 where
  pub agents : List Agent
  pub operations : List Operation
  pub desired_states : List DesiredState
  pub assignments : List Assignment
  pub audit : List AuditRecord

-- The log has only been added to.
abbrev pub Appends : List AuditRecord → List AuditRecord → Type 0
Appends earlier later = (more : List AuditRecord) × (later ≡ earlier ++ more)
