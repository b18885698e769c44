-- ===== src/PrepareRollback/Prior.antt =====
-- A rollback takes each resource back to its newest spec of an earlier operation that was applied.
use iac.Prelude.{
  ℕ, ◌≡◌, ◌≤◌, ◌<◌, ◌⊎◌, false, Option, some, List, [], ◌∷◌, All, String, ◌==◌, find_if, ok,
}
use iac.Json.{Value}
use iac.Tables.{Db, Operation, OperationStatus, DesiredState, ResourceForRouting}
use iac.Approval.{routing_of}
use iac.PrepareRollback.{priors}

-- The row is of another operation, which was applied and was created at `time`, before the one that
-- is rolled back.
pub record IsPrior (operations : List Operation) (op_id created_at : ℕ) (resource_id : String)
    (time : ℕ) (d : DesiredState) : Type 0 where
  pub operation : Operation
  pub found : find_if (λ o. o.id == d.operation_id) operations ≡ some operation
  pub applied :
      (operation.status ≡ OperationStatus.succeeded)
      ⊎ (operation.status ≡ OperationStatus.partially_applied)
  pub at : time ≡ operation.created_at
  pub earlier : time < created_at
  pub other : (d.operation_id == op_id) ≡ false
  pub same : d.resource_id ≡ resource_id

module _ (operations : List Operation) (op_id created_at : ℕ) (resource_id : String) where
  abbrev Prior : ℕ × DesiredState → Type 0
  Prior p = IsPrior operations op_id created_at resource_id p.0 p.1

module _ (from_str : String → Option Value) (db : Db) (op_id created_at : ℕ) where
  abbrev pub priors_of : DesiredState → List (ℕ × DesiredState)
  priors_of d = priors db.operations op_id created_at d.resource_id db.desired_states

  -- The row's resource goes back to the newest of its prior specs.
  pub record Restores (d : DesiredState) (r : ResourceForRouting) : Type 0 where
    pub time : ℕ
    pub prior : DesiredState
    pub is_prior_row : IsPrior db.operations op_id created_at d.resource_id time prior
    pub newest :
        All
          (λ d'. (t : ℕ) → IsPrior db.operations op_id created_at d.resource_id t d' → t ≤ time)
          db.desired_states
    pub read : routing_of from_str prior ≡ ok r

  -- No row of the table is one that the resource could go back to.
  abbrev pub HasNoPrior : DesiredState → Type 0
  HasNoPrior d =
      All (λ d'. (t : ℕ) → IsPrior db.operations op_id created_at d.resource_id t d' → ⊥)
        db.desired_states

  -- Each row is restored, or orphaned because it has no prior spec; both in the order of the rows.
  abbrev pub Divides : List DesiredState → List ResourceForRouting → List String → Type 0
  Divides [] rs ids = (rs ≡ []) × (ids ≡ [])
  Divides (d ∷ ds) rs ids =
      ((r : ResourceForRouting) × (rest : List ResourceForRouting) × (rs ≡ r ∷ rest)
        × Restores d r
        × Divides ds rest ids)
      ⊎ ((rest : List String) × (ids ≡ d.resource_id ∷ rest) × HasNoPrior d × Divides ds rs rest)
