-- ===== src/Lifecycle/Placement.antt =====
-- Where the rows of a database may stand, after any series of calls.
use iac.Prelude.{
  ℕ, ◌≡◌, inl, inr, Option, List, All-update_where, String, ◌==◌, arith, Option-cases, keep_if, ◌-◌,
  ok,
}
use iac.Json.{Value}
use iac.Tables.{Db, Actor}
use iac.Rollout.Gate.{Placed, IsPlaced}
use iac.Submit.Laws.{create_operation-IsPlaced}
use iac.Approval.{reject_operation}
use iac.Approval.Gate.{approve_operation-IsPlaced}
use iac.Dispatch.{claim_ssh_pending, claim, ssh_claimable, oldest}
use iac.Dispatch.Leases.{fetch-IsPlaced, revert-IsPlaced}
use iac.Dispatch.Completion.{complete-IsPlaced}
use iac.Lifecycle.{
  Step, Reach, create, approve, reject, fetch, revert, claim_ssh, complete, here, next,
}

claim_ssh-IsPlaced :
    (lease_secs now : ℕ) (target_ids : List ℕ) (db : Db)
    → IsPlaced db.assignments
    → IsPlaced (claim_ssh_pending lease_secs now target_ids db).0.assignments
unfolding claim_ssh_pending
claim_ssh-IsPlaced lease_secs now target_ids db p =
    elim (Option-cases
      (oldest (keep_if (ssh_claimable target_ids (now - lease_secs)) db.assignments))) [
        | inl e ↦ rw (claim_ssh_pending, e) p
        | inr (a, e) ↦
            rw (claim_ssh_pending, e)
              (All-update_where Placed Placed (λ b. b.id == a.id) (claim now) db.assignments
                (λ b q. ground arith) p)
      ]

pub reject-assignments :
    (now op_id : ℕ) (rejector : String) (actor : Actor) (reason : String) (db db' : Db)
    → reject_operation now op_id rejector actor reason db ≡ ok db'
    → db'.assignments ≡ db.assignments
unfolding reject_operation
reject-assignments now op_id rejector actor reason db db' h = ground (arith, h)

module _ (from_str : String → Option Value) where
  Step-IsPlaced :
      (db db' : Db) → Step from_str db db' → IsPlaced db.assignments → IsPlaced db'.assignments
  Step-IsPlaced _ _ (create fresh now req db db' out h) p =
      create_operation-IsPlaced from_str fresh now req db db' out p h
  Step-IsPlaced _ _ (approve fresh now op_id approver actor reason db db' n h) p =
      (approve_operation-IsPlaced op_id from_str fresh now approver actor reason db db' n p h).0
  Step-IsPlaced _ _ (reject now op_id rejector actor reason db db' h) p =
      rw (reject-assignments now op_id rejector actor reason db db' h) p
  Step-IsPlaced _ _ (fetch lease_secs now agent_id db) p =
      fetch-IsPlaced lease_secs now agent_id db p
  Step-IsPlaced _ _ (revert ids db) p = revert-IsPlaced ids db p
  Step-IsPlaced _ _ (claim_ssh lease_secs now target_ids db) p =
      claim_ssh-IsPlaced lease_secs now target_ids db p
  Step-IsPlaced _ _ (complete now agent_id assignment_id result extra db db' h) p =
      complete-IsPlaced now agent_id assignment_id result extra db db' p h

  pub reachable-IsPlaced :
      (start db : Db)
      → Reach from_str start db
      → IsPlaced start.assignments
      → IsPlaced db.assignments
  reachable-IsPlaced start _ here p = p
  reachable-IsPlaced start _ (next {db} {db'} r s) p =
      Step-IsPlaced db db' s (reachable-IsPlaced start db r p)
