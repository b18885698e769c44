-- ===== src/Executor/Ends.antt =====
-- What a run of the executor returns when it ends without an error.
use iac.Prelude.{◌≡◌, refl, Bool, true, false, subst, if◌then◌else◌}
use iac.Provider.{Result, ok, err}
use iac.Executor.{World, Exec, then_on, ◌>>=◌, ◌>>◌, done}

pub record Ends {H A : Type 0} (Q : A → Type 0) (m : Exec H A) : Type 0 where
  pub ends : (w : World H) (a : A) → (m w).0 ≡ ok a → Q a

module _ {H : Type 0} where
  then_on-Ends :
      {A B : Type 0} (P : A → Type 0) (Q : B → Type 0) (r : Result A × World H)
      (next : A → Exec H B) (b : B)
      → ((a : A) → r.0 ≡ ok a → P a)
      → ((a : A) → P a → Ends Q (next a))
      → (then_on r next).0 ≡ ok b
      → Q b
  then_on-Ends P Q (err e, w) next b h k e' = cc
  then_on-Ends P Q (ok a, w) next b h k e' = (k a (h a refl)).ends w b e'

  pub >>=-Ends :
      {A B : Type 0} {P : A → Type 0} {Q : B → Type 0} {m : Exec H A} {next : A → Exec H B}
      → Ends P m
      → ((a : A) → P a → Ends Q (next a))
      → Ends Q (m >>= next)
  unfolding ◌>>=◌
  >>=-Ends {P} {Q} {m} {next} h k = record {
    ends = λ w b e. then_on-Ends P Q (m w) next b (h.ends w) k e;
  }

  -- Nothing is known of what the first run returns.
  pub after-Ends :
      {A B : Type 0} {Q : B → Type 0} (m : Exec H A) {next : A → Exec H B}
      → ((a : A) → Ends Q (next a))
      → Ends Q (m >>= next)
  unfolding ◌>>=◌
  after-Ends {A} {Q} m {next} k = record {
    ends = λ w b e. then_on-Ends (λ (a : A). Unit {0}) Q (m w) next b (λ a h. tt) (λ a u. k a) e;
  }

  pub >>-Ends :
      {A B : Type 0} {Q : B → Type 0} (m : Exec H A) {next : Exec H B}
      → Ends Q next
      → Ends Q (m >> next)
  unfolding ◌>>◌
  >>-Ends {A} {Q} m {next} k = record {
    ends =
        λ w b e. then_on-Ends (λ (a : A). Unit {0}) Q (m w) (λ _. next) b (λ a h. tt) (λ a u. k) e;
  }

  pub done-Ends : {A : Type 0} (Q : A → Type 0) (a : A) → Q a → Ends {H = H} Q (done a)
  unfolding done
  done-Ends Q a q = record { ends = λ w b e. let same : a ≡ b = cc in subst Q same q }

  pub chosen-Ends :
      {A : Type 0} {Q : A → Type 0} (b : Bool) {m n : Exec H A}
      → (b ≡ true → Ends Q m)
      → (b ≡ false → Ends Q n)
      → Ends Q (if b then m else n)
  chosen-Ends true h k = h refl
  chosen-Ends false h k = k refl
