-- ===== src/Lifecycle.antt =====
-- crates/iac-controlplane/src/store.rs: the transactions on operations and assignments as the steps
-- of one database, each committed whole, in any order. A step is a call that succeeded; a call that
-- fails leaves the database as it was. serde_json's parser is the parameter `from_str`.
pub mod Placement
pub mod Unique
pub mod Decisions
pub mod Rows
pub mod Reports
pub mod Gated
pub mod History
use iac.Prelude.{ℕ, ◌≡◌, Option, List, String, ok}
use iac.Json.{Value}
use iac.Tables.{Db, Actor, AuditRecord, AssignmentResultRequest}
use iac.Submit.{create_operation, CreateOperation, CreateOperationOutcome}
use iac.Approval.{approve_operation, reject_operation}
use iac.Dispatch.{
  fetch_pending_assignments, revert_assignment_claims, claim_ssh_pending,
  complete_assignment_with_extra_audit,
}

pub data Step (from_str : String → Option Value) : Db → Db → Type 0 where
  create :
      (fresh : ℕ → ℕ) (now : ℕ) (req : CreateOperation) (db db' : Db) (out : CreateOperationOutcome)
      → create_operation from_str fresh now req db ≡ ok (db', out)
      → Step from_str db db'
  approve :
      (fresh : ℕ → ℕ) (now op_id : ℕ) (approver : String) (actor : Actor) (reason : Option String)
      (db db' : Db) (n : ℕ)
      → approve_operation from_str fresh now op_id approver actor reason db ≡ ok (db', n)
      → Step from_str db db'
  reject :
      (now op_id : ℕ) (rejector : String) (actor : Actor) (reason : String) (db db' : Db)
      → reject_operation now op_id rejector actor reason db ≡ ok db'
      → Step from_str db db'
  fetch :
      (lease_secs now agent_id : ℕ) (db : Db)
      → Step from_str db (fetch_pending_assignments lease_secs now agent_id db).0
  revert : (ids : List ℕ) (db : Db) → Step from_str db (revert_assignment_claims ids db)
  claim_ssh :
      (lease_secs now : ℕ) (target_ids : List ℕ) (db : Db)
      → Step from_str db (claim_ssh_pending lease_secs now target_ids db).0
  complete :
      (now agent_id assignment_id : ℕ) (result : AssignmentResultRequest)
      (extra : Option AuditRecord) (db db' : Db)
      → complete_assignment_with_extra_audit now agent_id assignment_id result extra db ≡ ok db'
      → Step from_str db db'

-- What a series of calls can make of a database.
pub data Reach (from_str : String → Option Value) (start : Db) : Db → Type 0 where
  here : Reach from_str start start
  next : {db db' : Db} → Reach from_str start db → Step from_str db db' → Reach from_str start db'
