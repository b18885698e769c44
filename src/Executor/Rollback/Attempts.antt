-- ===== src/Executor/Rollback/Attempts.antt =====
-- A rollback attempts every checkpoint, the latest first.
use iac.Prelude.{
  ℕ, ◌≡◌, ◌≢◌, refl, ◌∙◌, ap, sym, Bool, true, false, inl, inr, ◌⊎◌, List, [], ◌∷◌, ◌++◌, map,
  keep_if, is_some, not, any, arith, Bool-cases, Option-cases, String, if◌then◌else◌,
}
use mathlib.Core.List.{append_assoc, append-nil, Perm}
use iac.Identity.{display}
use iac.Provider.{
  PathBuf, join, Result, ok, err, Error, unknown_kind, id_of, Checkpoint, get_provider, require,
  labelled,
}
use iac.Executor.{
  World, Runtime, Exec, Effect, undone, then_on, ◌>>=◌, done, attempt, call, operation_dir,
}
use iac.Executor.Rollback.{
  synthesize_resource, latest_first, roll_back_one, roll_back_all, report, rollback,
}
use iac.Executor.Rollback.Latest.{
  Entry, IsLatestFirst, latest_first-IsLatestFirst, Perm-latest_first,
}

Result-cases : {A : Type 0} (r : Result A) → ((e : Error) × (r ≡ err e)) ⊎ ((a : A) × (r ≡ ok a))
Result-cases (err e) = inl (e, refl)
Result-cases (ok a) = inr (a, refl)

then_on-ok :
    {H A B : Type 0} (r : Result A × World H) (next : A → Exec H B) (a : A)
    → r.0 ≡ ok a
    → then_on r next ≡ next a r.1
then_on-ok (err e, w) next a h = cc
then_on-ok (ok b, w) next a h = let same : b ≡ a = cc in ap (λ x. next x w) same

bind-ok :
    {H A B : Type 0} (m : Exec H A) (next : A → Exec H B) (w : World H) (a : A)
    → (m w).0 ≡ ok a
    → (m >>= next) w ≡ next a (m w).1
unfolding ◌>>=◌
bind-ok m next w a h = then_on-ok (m w) next a h

append_ne_nil : (xs ys : List String) → (xs ≢ []) ⊎ (ys ≢ []) → xs ++ ys ≢ []
append_ne_nil [] ys (inl n) h = n refl
append_ne_nil [] ys (inr n) h = n h
append_ne_nil (x ∷ xs) ys n h = cc

-- The registry has a provider for the checkpoint's kind.
abbrev pub is_known : {H : Type 0} → Runtime H → PathBuf × Checkpoint → Bool
is_known rt e = is_some (get_provider e.1.resource_id.kind rt.registry)

module _ {H : Type 0} (rt : Runtime H) where
  -- What one attempt does, whatever the provider answers.
  record Attempted (e : Entry) (w : World H) : Type 0 where
    failures : List String
    returns : (roll_back_one rt e w).0 ≡ ok failures
    logs : (roll_back_one rt e w).1.log ≡ w.log ++ (if is_known rt e then undone e.1 ∷ [] else [])
    unknown : is_known rt e ≡ false → failures ≢ []

  roll_back_one-Attempted : (e : Entry) (w : World H) → Attempted e w
  unfolding roll_back_one require synthesize_resource done attempt call ◌>>=◌
  roll_back_one-Attempted (path, cp) w =
      let r = synthesize_resource cp in
      let kind = cp.resource_id.kind in
      elim (Option-cases (get_provider kind rt.registry)) [
        | inl n ↦ record {
          failures = labelled (display (id_of r)) (unknown_kind kind) ∷ [];
          returns = rw (roll_back_one, require, n, done) refl;
          logs = rw (roll_back_one, require, n, done) (sym (append-nil w.log));
          unknown = λ u h. cc;
        }
        | inr (p, k) ↦ elim (Result-cases (p.rollback r cp path w.host).0) [
          | inl (e, f) ↦ record {
            failures = labelled (display (id_of r)) e ∷ [];
            returns = ground (arith, k, f);
            logs = ground (arith, k, f);
            unknown = λ u h. cc;
          }
          | inr (u, f) ↦ record {
            failures = [];
            returns = ground (arith, k, f);
            logs = ground (arith, k, f);
            unknown = λ u. absurd (ground (arith, k, u));
          }
        ]
      ]

  abbrev attempts : List Entry → List Effect
  attempts entries = map (λ (e : Entry). undone e.1) (keep_if (is_known rt) entries)

  attempts-cons :
      (e : Entry) (entries : List Entry)
      → (if is_known rt e then undone e.1 ∷ [] else []) ++ attempts entries ≡ attempts (e ∷ entries)
  attempts-cons e entries = elim (Bool-cases (is_known rt e)) [
    | inl k ↦ rw k refl
    | inr k ↦ rw k refl
  ]

  -- What the attempts do, whatever the providers answer.
  record AttemptedAll (entries : List Entry) (w : World H) : Type 0 where
    failures : List String
    returns : (roll_back_all rt entries w).0 ≡ ok failures
    logs :
        (roll_back_all rt entries w).1.log
        ≡ w.log ++ map (λ (e : Entry). undone e.1) (keep_if (is_known rt) entries)
    unknown : any (λ e. not (is_known rt e)) entries ≡ true → failures ≢ []

  roll_back_all-AttemptedAll : (entries : List Entry) (w : World H) → AttemptedAll entries w
  unfolding roll_back_all done
  roll_back_all-AttemptedAll [] w = record {
    failures = [];
    returns = refl;
    logs = sym (append-nil w.log);
    unknown = λ u. cc;
  }
  roll_back_all-AttemptedAll (e ∷ entries) w =
      let a = roll_back_one-Attempted e w in
      let w' = (roll_back_one rt e w).1 in
      let rest = roll_back_all-AttemptedAll entries w' in
      let whole : roll_back_all rt (e ∷ entries) w
          ≡ (ok (a.failures ++ rest.failures), (roll_back_all rt entries w').1) =
        bind-ok (roll_back_one rt e) _ w a.failures a.returns
        ∙ bind-ok (roll_back_all rt entries) _ w' rest.failures rest.returns in
      record {
        failures = a.failures ++ rest.failures;
        returns = ap (λ r. r.0) whole;
        logs =
            ap (λ r. r.1.log) whole
            ∙ (rest.logs
                ∙ (ap (λ l. l ++ attempts entries) a.logs
                    ∙ (append_assoc w.log _ (attempts entries)
                        ∙ ap (λ l. w.log ++ l) (attempts-cons e entries))));
        unknown = elim (Bool-cases (is_known rt e)) [
          | inl k ↦ λ u.
              append_ne_nil a.failures rest.failures (inr (rest.unknown (ground (arith, k, u))))
          | inr k ↦ λ u. append_ne_nil a.failures rest.failures (inl (a.unknown k))
        ];
      }

  report-log : (failures : List String) (w : World H) → (report rt failures w).1.log ≡ w.log
  unfolding report
  report-log [] w = refl
  report-log (f ∷ failures) w = refl

  report-fails :
      (failures : List String) (w : World H) → failures ≢ [] → (report rt failures w).0 ≢ ok tt
  unfolding report
  report-fails [] w n h = n refl
  report-fails (f ∷ failures) w n h = cc

  -- Where there are the operation's directory and its checkpoints, a rollback calls the providers' for
  -- exactly the checkpoints whose kind is known, the highest id first, whatever the calls before have
  -- answered; and it ends in an error if some checkpoint's kind is not known.
  pub rollback-attempts :
      (op_id : ℕ) (w : World H) (entries : List (PathBuf × Checkpoint))
      → rt.is_dir (operation_dir rt op_id) w ≡ true
      → rt.is_dir (join (operation_dir rt op_id) "checkpoints") w ≡ true
      → rt.checkpoints op_id w ≡ ok entries
      → (sorted : List (PathBuf × Checkpoint)) × Perm sorted entries
        × IsLatestFirst sorted
        × ((rollback rt op_id w).1.log
            ≡ w.log
              ++ map (λ (e : PathBuf × Checkpoint). undone e.1) (keep_if (is_known rt) sorted))
        × (any (λ e. not (is_known rt e)) sorted ≡ true → (rollback rt op_id w).0 ≢ ok tt)
  unfolding rollback
  rollback-attempts op_id w entries d c h =
      let sorted = latest_first entries in
      let a = roll_back_all-AttemptedAll sorted w in
      let whole : rollback rt op_id w ≡ report rt a.failures (roll_back_all rt sorted w).1 =
        rw (rollback, d, c)
          (bind-ok (λ (v : World H). (rt.checkpoints op_id v, v)) _ w entries h
            ∙ bind-ok (roll_back_all rt sorted) (report rt) w a.failures a.returns) in
      (
        sorted,
        Perm-latest_first entries,
        latest_first-IsLatestFirst entries,
        ap (λ r. r.1.log) whole ∙ (report-log a.failures (roll_back_all rt sorted w).1 ∙ a.logs),
        λ u. rw whole (report-fails a.failures (roll_back_all rt sorted w).1 (a.unknown u)),
      )
