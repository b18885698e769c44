-- ===== src/PrepareRollback.antt =====
-- crates/iac-controlplane/src/store.rs: `prepare_rollback`, the specs that an operation's resources
-- had before it. Rows of `desired_states` stand in the order of their ids, since an INSERT appends;
-- the rows of the operation are read in that order.
pub mod Latest
pub mod Prior
use iac.Prelude.{
  ℕ, Bool, true, false, not, ◌&&◌, Option, none, some, List, [], ◌∷◌, String, str_eq, ◌==◌, ltb,
  leb, if◌then◌else◌, find_if, keep_if, ApiResult, ok, err, conflict, not_found, ◌>>=◌, ◌>>◌, guard,
  ok_or,
}
use iac.Json.{Value}
use iac.Tables.{Db, Operation, OperationStatus, DesiredState, ResourceForRouting}
use iac.Approval.{routing_of}

abbrev pub is_finished : OperationStatus → Bool
is_finished OperationStatus.succeeded = true
is_finished OperationStatus.partially_applied = true
is_finished OperationStatus.failed = true
is_finished _ = false

-- `o.status IN ('succeeded', 'partially_applied')`.
abbrev pub was_applied : OperationStatus → Bool
was_applied OperationStatus.succeeded = true
was_applied OperationStatus.partially_applied = true
was_applied _ = false

-- The WHERE clause, for a row and its operation.
abbrev pub is_prior : ℕ → ℕ → String → Operation → DesiredState → Bool
is_prior op_id created_at resource_id o d =
    str_eq d.resource_id resource_id
    && not (d.operation_id == op_id)
    && was_applied o.status
    && ltb o.created_at created_at

-- The rows that the JOIN and the WHERE clause let through, each with its operation's time.
unfoldable pub priors :
    List Operation → ℕ → ℕ → String → List DesiredState → List (ℕ × DesiredState)
priors operations op_id created_at resource_id [] = []
priors operations op_id created_at resource_id (d ∷ ds) =
    let rest = priors operations op_id created_at resource_id ds in
    elim (find_if (λ o. o.id == d.operation_id) operations) [
      | none ↦ rest
      | some o ↦
          if is_prior op_id created_at resource_id o d then (o.created_at, d) ∷ rest else rest
    ]

-- `ORDER BY o.created_at DESC, ds.id DESC LIMIT 1`: of rows of one time the later one.
unfoldable pub latest :
    Option (ℕ × DesiredState) → List (ℕ × DesiredState) → Option (ℕ × DesiredState)
latest best [] = best
latest none (x ∷ xs) = latest (some x) xs
latest (some b) (x ∷ xs) = latest (some (if leb b.0 x.0 then x else b)) xs

abbrev pub Plan : Type 0
Plan = List ResourceForRouting × List String

module _ (from_str : String → Option Value) where
  -- The loop over the rows of the operation.
  unfoldable pub revert_rows : Db → ℕ → ℕ → List DesiredState → ApiResult Plan
  unfolding priors latest
  revert_rows db op_id created_at [] = ok ([], [])
  revert_rows db op_id created_at (d ∷ ds) =
      let rest = revert_rows db op_id created_at ds in
      elim (latest none (priors db.operations op_id created_at d.resource_id db.desired_states)) [
        | none ↦ rest >>= λ plan. ok (plan.0, d.resource_id ∷ plan.1)
        | some prior ↦ routing_of from_str prior.1 >>= λ r. rest >>= λ plan. ok (r ∷ plan.0, plan.1)
      ]

  unfoldable pub prepare_rollback : Db → ℕ → ApiResult (Plan × String)
  unfolding revert_rows
  prepare_rollback db op_id = do
    row ← ok_or (find_if (λ (o : Operation). o.id == op_id) db.operations) not_found
    guard (is_finished row.status) (conflict "rollback only on terminal operations")
    plan ←
        revert_rows db op_id row.created_at
          (keep_if (λ (d : DesiredState). d.operation_id == op_id) db.desired_states)
    ok (plan, row.environment)
