-- ===== src/Executor/Apply/WriteAhead.antt =====
-- The log of an apply.
use iac.Prelude.{ℕ, String, refl, ◌≡◌, ◌++◌, none, List, [], ◌∷◌}
use iac.Provider.{Resource, Operation, Result, ok, err}
use iac.Executor.{Effect, removed, World, Runtime, new_operation}
use iac.Executor.Logs.{
  Guarded, Added, unlogged, Adds, >>=-Adds, >>-Adds, done-Adds, attempt-Adds, now-Adds,
  new_ulid-Adds, written-Adds,
}
use iac.Executor.Steps.Checkpoints.{apply_one-Adds}
use iac.Executor.Apply.{gc_operation_dirs, apply_all, apply, dropped, removable}
use mathlib.Core.List.{map}

removed-Guarded : (names : List ℕ) → Guarded none (map removed names)
removed-Guarded [] = tt
removed-Guarded (n ∷ names) = removed-Guarded names

module _ {H : Type 0} (rt : Runtime H) where
  gc-Added :
      (keep : ℕ) (w : World H) (listing : Result (List ℕ))
      → Added none w.log
          (elim listing as (λ _. Result (Unit {0}) × World H) [
            | err e ↦ (err e, w)
            | ok names ↦ (
              ok tt,
              record w { log = w.log ++ map removed (removable rt w (dropped keep names)) },
            )
          ]).1.log
  gc-Added keep w (err e) = unlogged none w.log
  gc-Added keep w (ok names) = (
    map removed (removable rt w (dropped keep names)),
    refl,
    removed-Guarded (removable rt w (dropped keep names)),
  )

  gc-Adds : (keep : ℕ) → Adds (gc_operation_dirs rt keep)
  unfolding gc_operation_dirs
  gc-Adds keep = record { adds = λ w. gc-Added keep w (rt.operation_dirs w) }

  apply_all-Adds : (op : Operation) (rs : List Resource) → Adds (apply_all rt op rs)
  unfolding apply_all
  apply_all-Adds op [] = done-Adds []
  apply_all-Adds op (r ∷ rs) =
      >>=-Adds (apply_one-Adds rt op r)
        (λ item. >>=-Adds (apply_all-Adds op rs) (λ items. done-Adds _))

  new_operation-Adds : (kind : String) → Adds (new_operation rt kind)
  unfolding new_operation
  new_operation-Adds kind =
      >>=-Adds (new_ulid-Adds rt) (λ id. >>=-Adds (now-Adds rt) (λ t. done-Adds _))

  apply-Adds : (resources : List Resource) → Adds (apply rt resources)
  unfolding apply
  apply-Adds resources = >>=-Adds (new_operation-Adds "apply") (λ op.
      >>=-Adds (now-Adds rt) (λ started_at. >>-Adds (written-Adds rt _ _ tt) (
        >>=-Adds (apply_all-Adds _ resources) (λ items. >>=-Adds (now-Adds rt) (λ finished_at.
          >>-Adds (written-Adds rt _ _ tt) (
            >>-Adds (written-Adds rt _ _ tt)
              (>>-Adds (attempt-Adds (gc-Adds 200)) (done-Adds _))))))))

  -- Whatever the providers answer and wherever the file system refuses a write, an apply only adds to
  -- the log, and each call of a provider's `apply` in what it adds comes directly after the write of a
  -- checkpoint of that resource that holds the resource's spec.
  pub apply-checkpointed :
      (resources : List Resource) (w : World H)
      → (more : List Effect) × ((apply rt resources w).1.log ≡ w.log ++ more) × Guarded none more
  apply-checkpointed resources w = (apply-Adds resources).adds w
