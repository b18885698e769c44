-- ===== src/Executor/Apply/Dry.antt =====
-- A plan changes nothing.
use iac.Prelude.{◌≡◌, refl, ◌∙◌, Bool, true, false, List, [], ◌∷◌, All, map, if◌then◌else◌, String}
use iac.Provider.{Result, ok, err, Resource, id_of, is_change, Step, Diff, FieldChange}
use iac.Executor.{
  World, Runtime, Exec, Effect, PlanItem, PlanResult, then_on, ◌>>=◌, done, lift, look, now,
  new_ulid, new_operation, mark_secret_changes, has_secrets, mark_sensitive,
}
use iac.Executor.Ends.{Ends, >>=-Ends, after-Ends, done-Ends, chosen-Ends}
use iac.Executor.Apply.{plan_one, plan_all, plan}

-- The host and the log stay as they were, whether the run ends in an error or not.
record IsDry {H A : Type 0} (m : Exec H A) : Type 0 where
  dry : (w : World H) → ((m w).1.host ≡ w.host) × ((m w).1.log ≡ w.log)

module _ {H : Type 0} where
  then_on-dry :
      {A B : Type 0} (host : H) (log : List Effect) (r : Result A × World H) (next : A → Exec H B)
      → (r.1.host ≡ host) × (r.1.log ≡ log)
      → ((a : A) → IsDry (next a))
      → ((then_on r next).1.host ≡ host) × ((then_on r next).1.log ≡ log)
  then_on-dry host log (err e, w) next h k = h
  then_on-dry host log (ok a, w) next h k = (((k a).dry w).0 ∙ h.0, ((k a).dry w).1 ∙ h.1)

  >>=-IsDry :
      {A B : Type 0} {m : Exec H A} {next : A → Exec H B}
      → IsDry m
      → ((a : A) → IsDry (next a))
      → IsDry (m >>= next)
  unfolding ◌>>=◌
  >>=-IsDry {m} {next} h k = record { dry = λ w. then_on-dry w.host w.log (m w) next (h.dry w) k }

  lift-IsDry : {A : Type 0} (r : Result A) → IsDry {H = H} (lift r)
  unfolding lift
  lift-IsDry r = record { dry = λ w. (refl, refl) }

  done-IsDry : {A : Type 0} (a : A) → IsDry {H = H} (done a)
  unfolding done
  done-IsDry a = record { dry = λ w. (refl, refl) }

  look-IsDry : {A : Type 0} (f : H → Result A) → IsDry (look f)
  unfolding look
  look-IsDry f = record { dry = λ w. (refl, refl) }

  either-IsDry :
      {A : Type 0} (b : Bool) {m n : Exec H A} → IsDry m → IsDry n → IsDry (if b then m else n)
  either-IsDry true h k = h
  either-IsDry false h k = k

  module _ (rt : Runtime H) where
    now-IsDry : IsDry (now rt)
    unfolding now
    now-IsDry = record { dry = λ w. (refl, refl) }

    new_ulid-IsDry : IsDry (new_ulid rt)
    unfolding new_ulid
    new_ulid-IsDry = record { dry = λ w. (refl, refl) }

    new_operation-IsDry : (kind : String) → IsDry (new_operation rt kind)
    unfolding new_operation
    new_operation-IsDry kind =
        >>=-IsDry new_ulid-IsDry (λ id. >>=-IsDry now-IsDry (λ t. done-IsDry _))

    plan_one-IsDry : (r : Resource) → IsDry (plan_one rt r)
    unfolding plan_one
    plan_one-IsDry r = >>=-IsDry (lift-IsDry _) (λ p. >>=-IsDry (look-IsDry _) (λ observed.
        >>=-IsDry (lift-IsDry _) (λ diff.
          >>=-IsDry
            (either-IsDry (is_change (mark_secret_changes r diff))
              (lift-IsDry (p.plan r (mark_secret_changes r diff))) (done-IsDry []))
            (λ steps. done-IsDry _))))

    plan_all-IsDry : (rs : List Resource) → IsDry (plan_all rt rs)
    unfolding plan_all
    plan_all-IsDry [] = done-IsDry []
    plan_all-IsDry (r ∷ rs) =
        >>=-IsDry (plan_one-IsDry r) (λ item. >>=-IsDry (plan_all-IsDry rs) (λ items. done-IsDry _))

    plan-IsDry : (resources : List Resource) → IsDry (plan rt resources)
    unfolding plan
    plan-IsDry resources = >>=-IsDry (new_operation-IsDry "plan") (λ op.
        >>=-IsDry (plan_all-IsDry resources) (λ items. >>=-IsDry now-IsDry (λ t. done-IsDry _)))

-- An item of a plan: it has steps only where there is a change, and all the changes that it shows are
-- sensitive if the resource is annotated with secret fields.
pub record Planned (r : Resource) (i : PlanItem) : Type 0 where
  pub same : i.resource_id ≡ id_of r
  pub idle : is_change i.diff ≡ false → i.steps ≡ []
  pub secret :
      has_secrets r.metadata.annotations ≡ true
      → All (λ (c : FieldChange). c.sensitive ≡ true) i.diff.changes

abbrev pub PlannedAll : List Resource → List PlanItem → Type 0
PlannedAll [] [] = Unit
PlannedAll [] (i ∷ items) = ⊥
PlannedAll (r ∷ rs) [] = ⊥
PlannedAll (r ∷ rs) (i ∷ items) = Planned r i × PlannedAll rs items

mark_sensitive-All :
    (changes : List FieldChange) → All (λ c. c.sensitive ≡ true) (map mark_sensitive changes)
unfolding mark_sensitive
mark_sensitive-All [] = tt
mark_sensitive-All (c ∷ changes) = (refl, mark_sensitive-All changes)

marked_secret :
    (r : Resource) (diff : Diff)
    → has_secrets r.metadata.annotations ≡ true
    → All (λ (c : FieldChange). c.sensitive ≡ true) (mark_secret_changes r diff).changes
unfolding mark_secret_changes
marked_secret r diff h = rw (mark_secret_changes, h) (mark_sensitive-All diff.changes)

module _ {H : Type 0} (rt : Runtime H) where
  plan_one-Planned : (r : Resource) → Ends (Planned r) (plan_one rt r)
  unfolding plan_one
  plan_one-Planned r = after-Ends _ (λ p. after-Ends _ (λ observed. after-Ends _ (λ diff.
      let marked = mark_secret_changes r diff in
      >>=-Ends
        (chosen-Ends {Q = λ (steps : List Step). is_change marked ≡ false → steps ≡ []}
          (is_change marked) (λ e. record { ends = λ w a h n. cc })
          (λ e. done-Ends _ [] (λ n. refl)))
        (λ steps idle.
          done-Ends (Planned r) _
            (record { same = refl; idle = idle; secret = marked_secret r diff })))))

  plan_all-Planned : (rs : List Resource) → Ends (PlannedAll rs) (plan_all rt rs)
  unfolding plan_all
  plan_all-Planned [] = done-Ends (PlannedAll []) [] tt
  plan_all-Planned (r ∷ rs) = >>=-Ends (plan_one-Planned r) (λ i h.
      >>=-Ends (plan_all-Planned rs)
        (λ items k. done-Ends (PlannedAll (r ∷ rs)) (i ∷ items) (h, k)))

  plan-Planned :
      (resources : List Resource)
      → Ends (λ (out : PlanResult). PlannedAll resources out.items) (plan rt resources)
  unfolding plan
  plan-Planned resources = after-Ends _ (λ op. >>=-Ends (plan_all-Planned resources) (λ items h.
      after-Ends _ (λ t. done-Ends (λ (out : PlanResult). PlannedAll resources out.items) _ h)))

  -- A plan leaves the host as it was and writes nothing, whether it succeeds or not. If it succeeds it
  -- has one item for each resource, in their order: an item without a change has no steps, and all
  -- changes of a resource that is annotated with secret fields are sensitive.
  pub plan-dry :
      (resources : List Resource) (w : World H)
      → ((plan rt resources w).1.host ≡ w.host)
        × ((plan rt resources w).1.log ≡ w.log)
        × ((out : PlanResult) → (plan rt resources w).0 ≡ ok out → PlannedAll resources out.items)
  plan-dry resources w =
      let d = (plan-IsDry rt resources).dry w in (d.0, d.1, (plan-Planned resources).ends w)
