-- ===== src/Lifecycle/History.antt =====
-- What no series of calls takes back.
use iac.Prelude.{ℕ, ◌≡◌, refl, sym, ap, ◌∙◌, ◌++◌, Option, List, [], ◌∷◌, String, arith, ok}
use mathlib.Core.List.{append_assoc, append-nil}
use iac.Json.{Value}
use iac.Submit.Laws.{create-Submitted}
use iac.Approval.{reject_audit}
use iac.Approval.Gate.{approve-Approved}
use iac.Dispatch.Completion.{complete-Taken}
use iac.Tables.{Appends, Db, Actor, AuditRecord}
use iac.Approval.{reject_operation}
use iac.Dispatch.{fetch_pending_assignments, revert_assignment_claims, claim_ssh_pending}
use iac.Rollout.Gate.{IsPlaced}
use iac.Lifecycle.Placement.{reachable-IsPlaced}
use iac.Lifecycle.{
  Step, Reach, create, approve, reject, fetch, revert, claim_ssh, complete, here, next,
}

reject-Appends :
    (now op_id : ℕ) (rejector : String) (actor : Actor) (reason : String) (db db' : Db)
    → reject_operation now op_id rejector actor reason db ≡ ok db'
    → Appends db.audit db'.audit
unfolding reject_operation
reject-Appends now op_id rejector actor reason db db' h =
    (reject_audit op_id actor rejector reason ∷ [], ground (arith, h))

claim_ssh-audit :
    (lease_secs now : ℕ) (target_ids : List ℕ) (db : Db)
    → (claim_ssh_pending lease_secs now target_ids db).0.audit ≡ db.audit
unfolding claim_ssh_pending
claim_ssh-audit lease_secs now target_ids db = ground arith

fetch-audit :
    (lease_secs now agent_id : ℕ) (db : Db)
    → (fetch_pending_assignments lease_secs now agent_id db).0.audit ≡ db.audit
unfolding fetch_pending_assignments
fetch-audit lease_secs now agent_id db = refl

revert-audit : (ids : List ℕ) (db : Db) → (revert_assignment_claims ids db).audit ≡ db.audit
unfolding revert_assignment_claims
revert-audit ids db = refl

kept : (earlier later : List AuditRecord) → later ≡ earlier → Appends earlier later
kept earlier later e = ([], e ∙ sym (append-nil earlier))

module _ (from_str : String → Option Value) where
  Step-Appends : (db db' : Db) → Step from_str db db' → Appends db.audit db'.audit
  Step-Appends _ _ (create fresh now req db db' out h) =
      (create-Submitted from_str fresh now req db db' out h).audited
  Step-Appends _ _ (approve fresh now op_id approver actor reason db db' n h) =
      (approve-Approved op_id from_str fresh now approver actor reason db db' n h).audited
  Step-Appends _ _ (reject now op_id rejector actor reason db db' h) =
      reject-Appends now op_id rejector actor reason db db' h
  Step-Appends _ _ (fetch lease_secs now agent_id db) =
      kept db.audit _ (fetch-audit lease_secs now agent_id db)
  Step-Appends _ _ (revert ids db) = kept db.audit _ (revert-audit ids db)
  Step-Appends _ _ (claim_ssh lease_secs now target_ids db) =
      kept db.audit _ (claim_ssh-audit lease_secs now target_ids db)
  Step-Appends _ _ (complete now agent_id assignment_id result extra db db' h) =
      (complete-Taken now agent_id assignment_id result extra db db' h).audited

  reachable-Appends : (start db : Db) → Reach from_str start db → Appends start.audit db.audit
  reachable-Appends start _ here = kept start.audit start.audit refl
  reachable-Appends start _ (next {db} {db'} r s) =
      let (earlier, e) = reachable-Appends start db r in
      let (later, f) = Step-Appends db db' s in
      (earlier ++ later, f ∙ ap (λ l. l ++ later) e ∙ append_assoc start.audit earlier later)

  -- Whatever submissions, decisions, fetches, claims and reports a database has been through, in any
  -- order: if its rows stood where the rollout expects them before, that is if only baseline rows of
  -- layer 0 waited for a canary and only rows above layer 0 for a layer, this still holds; and no
  -- audit record has been removed or rewritten, since the records are those of the start, followed by
  -- more.
  pub reachable_keeps :
      (start db : Db)
      → Reach from_str start db
      → (IsPlaced start.assignments → IsPlaced db.assignments) × Appends start.audit db.audit
  reachable_keeps start db r =
      (reachable-IsPlaced from_str start db r, reachable-Appends start db r)
