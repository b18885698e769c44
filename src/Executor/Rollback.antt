-- ===== src/Executor/Rollback.antt =====
-- crates/iac-core/src/executor.rs: `rollback` of an operation's checkpoints, the latest id first. A
-- failure ends in an error that carries the failures' texts, without their number.
pub mod Latest
pub mod Attempts
use iac.Prelude.{
  ℕ, Bool, true, false, not, Option, none, some, List, [], ◌∷◌, ◌++◌, ◌⊎◌, inl, inr, ◌≡◌, ◌≤◌, refl,
  All, leb, length, unwrap_or, if◌then◌else◌, String, arith,
}
use iac.Json.{null}
use iac.Identity.{display}
use iac.Provider.{
  PathBuf, join, labelled, named_operation, missing_directory, spelled, Error, checkpoint, command,
  Result, ok, err, Resource, id_of, Checkpoint, Provider, require,
}
use iac.Executor.{
  Effect, undone, World, Runtime, Exec, ◌>>=◌, ◌>>◌, done, lift, attempt, call, operation_dir,
}

unfoldable pub synthesize_resource : Checkpoint → Resource
synthesize_resource cp = record {
  api_version = "iac.example/v1";
  kind = cp.resource_id.kind;
  metadata = record {
    name = cp.resource_id.name;
    environment = cp.resource_id.environment;
    owner = none;
    labels = [];
    annotations = [];
  };
  spec = unwrap_or cp.resource_spec null;
  policy = null;
  file = "";
  document_index = 0;
}

-- The stable sort by `Reverse(id)`.
insert_latest : PathBuf × Checkpoint → List (PathBuf × Checkpoint) → List (PathBuf × Checkpoint)
insert_latest e [] = e ∷ []
insert_latest e (f ∷ entries) =
    if leb f.1.id e.1.id then e ∷ f ∷ entries else f ∷ insert_latest e entries

unfoldable pub latest_first : List (PathBuf × Checkpoint) → List (PathBuf × Checkpoint)
unfolding insert_latest
latest_first [] = []
latest_first (e ∷ entries) = insert_latest e (latest_first entries)

module _ {H : Type 0} (rt : Runtime H) where
  -- What one checkpoint adds to the failures.
  unfoldable pub roll_back_one : PathBuf × Checkpoint → Exec H (List String)
  unfolding synthesize_resource
  roll_back_one (workspace, cp) =
      let r = synthesize_resource cp in
      elim (require rt.registry r.kind) [
        | err e ↦ done (labelled (display (id_of r)) e ∷ [])
        | ok p ↦ attempt (call (undone cp) (p.rollback r cp workspace)) >>= λ outcome.
            elim outcome [ ok u ↦ done [] | err e ↦ done (labelled (display (id_of r)) e ∷ []) ]
      ]

  unfoldable pub roll_back_all : List (PathBuf × Checkpoint) → Exec H (List String)
  unfolding roll_back_one
  roll_back_all [] = done []
  roll_back_all (e ∷ entries) = do
    failed ← roll_back_one e
    more ← roll_back_all entries
    done (failed ++ more)

  report : List String → Exec H (Unit {0})
  report [] w = (ok tt, w)
  report (e ∷ errors) w =
      (err (command (spelled "rollback completed with checkpoint failure(s): " (e ∷ errors))), w)

  unfoldable pub rollback : ℕ → Exec H (Unit {0})
  unfolding roll_back_all latest_first report
  rollback op_id w =
      let op_dir = operation_dir rt op_id in
      if not (rt.is_dir op_dir w)
      then (err (checkpoint (named_operation (rt.ulid_text op_id)) (missing_directory op_dir)), w)
      else if not (rt.is_dir (join op_dir "checkpoints") w)
      then (ok tt, w)
      else ((λ (v : World H). (rt.checkpoints op_id v, v)) >>= λ entries.
            roll_back_all (latest_first entries) >>= report)
          w
