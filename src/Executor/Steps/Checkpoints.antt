-- ===== src/Executor/Steps/Checkpoints.antt =====
-- A provider changes the host only after the checkpoint of that step has been written.
use iac.Prelude.{
  ℕ, ◌≡◌, ◌∙◌, refl, inl, inr, Option, none, some, String, List, [], ◌∷◌, ◌++◌, Option-cases,
}
use mathlib.Core.List.{append_assoc}
use iac.Identity.{ResourceId}
use iac.Json.{Value}
use iac.Provider.{
  PathBuf, Result, ok, err, Resource, id_of, Step, StepResult, Checkpoint, Operation, ApplyContext,
  Provider, prefixed, is_change, require,
}
use iac.Executor.{
  wrote, applied, checkpoint_file, ItemStatus, StepRecord, World, Runtime, Exec, ◌>>=◌, ◌>>◌, done,
  attempt, call, now, new_ulid, write_json, written, with_spec, mark_secret_changes,
}
use iac.Executor.Steps.{
  summary_of, item, result_of, after_pre_apply, failed_step, finished_step, run_step, run_steps,
  verified, apply_steps, apply_one,
}
use iac.Executor.Logs.{
  unlogged, AddsAfter, Adds, >>=-Adds, >>-Adds, holding-Adds, lift-Adds, done-Adds, look-Adds,
  attempt-Adds, call-Adds, now-Adds, written-Adds, write_applied-Adds, chosen-Adds,
}

module _ {H : Type 0} where
  module _ (rt : Runtime H) where
    -- A checkpoint is written, and what follows may rely on it.
    checkpoint-Adds :
        {A : Type 0} (path : PathBuf) (cp : Checkpoint) (next : Exec H A)
        → AddsAfter (some cp) next
        → Adds (write_json rt path (checkpoint_file cp) >> next)
    unfolding written ◌>>◌
    checkpoint-Adds path cp next k = record {
      adds = λ w. elim (Option-cases (rt.refuses path w)) [
        | inl allowed ↦
            let e = wrote path (checkpoint_file cp) in
            let (fs, h, g) = k.adds (record w { log = w.log ++ e ∷ [] }) in
            rw (◌>>◌, written, allowed) (e ∷ fs, h ∙ append_assoc w.log (e ∷ []) fs, g)
        | inr (error, refused) ↦ rw (◌>>◌, written, refused) (unlogged none w.log)
      ];
    }

    with_spec-holds :
        (rid : ResourceId) (op_id : ℕ) (data_in spec : Value) (w : World H)
        → (cp : Checkpoint) × ((with_spec rt rid op_id data_in spec w).0 ≡ ok cp)
          × ((cp.resource_id ≡ rid) × (cp.resource_spec ≡ some spec))
          × ((with_spec rt rid op_id data_in spec w).1.log ≡ w.log)
    unfolding with_spec ◌>>=◌ now new_ulid done
    with_spec-holds rid op_id data_in spec w = (_, refl, (refl, refl), refl)

    failed_step-Adds : (s : Step) (text : String) → Adds (failed_step rt s text)
    unfolding failed_step
    failed_step-Adds s text = >>=-Adds (now-Adds rt) (λ t. done-Adds _)

    finished_step-Adds : (s : Step) (result : StepResult) → Adds (finished_step rt s result)
    unfolding finished_step
    finished_step-Adds s result = >>=-Adds (now-Adds rt) (λ t. done-Adds _)

    module _ (op_id : ℕ) (r : Resource) (p : Provider H) where
      applied-Adds :
          (cp : Checkpoint) (s : Step) (ctx : ApplyContext)
          → cp.resource_id ≡ id_of r
          → cp.resource_spec ≡ some r.spec
          → AddsAfter (some cp) (
              attempt (call (applied r s) (p.apply r s ctx)) >>= λ outcome.
              finished_step rt s (result_of rt outcome))
      applied-Adds cp s ctx e f =
          >>=-Adds (attempt-Adds (call-Adds (some cp) (applied r s) _ ((e, f), tt)))
            (λ outcome. finished_step-Adds s _)

      after_pre_apply-Adds :
          (s : Step) (ctx : ApplyContext) (pre_data : Value)
          → Adds (after_pre_apply rt op_id r p s ctx pre_data)
      unfolding after_pre_apply
      after_pre_apply-Adds s ctx pre_data =
          holding-Adds (λ cp. (cp.resource_id ≡ id_of r) × (cp.resource_spec ≡ some r.spec)) _
            (with_spec-holds (id_of r) op_id pre_data r.spec)
            (λ cp k. checkpoint-Adds _ cp _ (applied-Adds cp s ctx k.0 k.1))

      pre_applied-Adds :
          (s : Step) (ctx : ApplyContext) (outcome : Result Value)
          → Adds (elim outcome [
            | err e ↦ failed_step rt s (prefixed "pre_apply failed: " e)
            | ok pre_data ↦ after_pre_apply rt op_id r p s ctx pre_data
          ])
      pre_applied-Adds s ctx (err e) = failed_step-Adds s _
      pre_applied-Adds s ctx (ok pre_data) = after_pre_apply-Adds s ctx pre_data

      run_step-Adds : (step : Step) → Adds (run_step rt op_id r p step)
      unfolding run_step
      run_step-Adds step = >>-Adds (written-Adds rt _ _ tt) (
          >>=-Adds (now-Adds rt)
            (λ t. >>=-Adds (attempt-Adds (call-Adds none _ _ tt)) (pre_applied-Adds _ _)))

      run_steps-Adds :
          (steps : List Step) (records : List StepRecord)
          → Adds (run_steps rt op_id r p steps records)
      unfolding run_steps
      run_steps-Adds [] records = done-Adds (records, none)
      run_steps-Adds (step ∷ steps) records =
          >>=-Adds (run_step-Adds step)
            (λ ran. rest ran.1 ran.0 (run_steps-Adds steps (records ++ ran.0 ∷ [])))
        where
          rest :
              (error : Option String) (ran : StepRecord)
              → Adds (run_steps rt op_id r p steps (records ++ ran ∷ []))
              → Adds (elim error [
                | some text ↦ done (records ++ ran ∷ [], some text)
                | none ↦ run_steps rt op_id r p steps (records ++ ran ∷ [])
              ])
          rest (some text) ran k = done-Adds _
          rest none ran k = k

      verified-Adds : (records : List StepRecord) → Adds (verified rt op_id r p records)
      unfolding verified
      verified-Adds records = >>=-Adds (look-Adds (p.verify r)) (λ outcome.
          chosen-Adds (summary_of outcome).matched
            (>>-Adds (write_applied-Adds rt r op_id) (done-Adds _)) (done-Adds _))

      apply_steps-Adds : (steps : List Step) → Adds (apply_steps rt op_id r p steps)
      unfolding apply_steps
      apply_steps-Adds steps = >>=-Adds (run_steps-Adds steps []) (λ ran. rest ran.1 ran.0)
        where
          rest :
              (error : Option String) (records : List StepRecord)
              → Adds (elim error [
                | some text ↦ done (item rt op_id r p ItemStatus.failed records none (some text))
                | none ↦ verified rt op_id r p records
              ])
          rest (some text) records = done-Adds _
          rest none records = verified-Adds records

    pub apply_one-Adds : (op : Operation) (r : Resource) → Adds (apply_one rt op r)
    unfolding apply_one
    apply_one-Adds op r = >>=-Adds (lift-Adds (require rt.registry r.kind)) (λ p.
        >>=-Adds (look-Adds (p.observe r)) (λ observed.
          >>=-Adds (lift-Adds (p.diff r observed)) (λ diff.
            chosen-Adds (is_change (mark_secret_changes r diff))
              (>>=-Adds (lift-Adds _) (apply_steps-Adds op.id r p))
              (>>-Adds (write_applied-Adds rt r op.id) (done-Adds _)))))
