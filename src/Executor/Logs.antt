-- ===== src/Executor/Logs.antt =====
-- What a run of the executor adds to the log.
use iac.Prelude.{
  ℕ, ◌≡◌, ◌∙◌, refl, sym, ap, subst, inl, inr, Bool, true, false, Option, none, some, List, [], ◌∷◌,
  ◌++◌, if◌then◌else◌, Option-cases,
}
use mathlib.Core.List.{append_assoc, append-nil}
use iac.Provider.{PathBuf, Result, ok, err, Resource, id_of, Checkpoint}
use iac.Executor.{
  Effect, created, wrote, pre_applied, applied, undone, removed, applied_file, checkpoint_file,
  operation_file, result_file, World, Runtime, Exec, then_on, ◌>>=◌, ◌>>◌, done, lift, attempt,
  look, call, now, new_ulid, written, write_applied,
}

-- The checkpoint just written is one of this resource, with the spec to go back to.
abbrev pub Covers : Option Checkpoint → Resource → Type 0
Covers none r = ⊥
Covers (some cp) r = (cp.resource_id ≡ id_of r) × (cp.resource_spec ≡ some r.spec)

-- Each `apply` comes right after the write of such a checkpoint; `last` is the checkpoint that the
-- effect before the list wrote, if it wrote one.
abbrev pub Guarded : Option Checkpoint → List Effect → Type 0
Guarded last [] = Unit
Guarded last (applied r s ∷ es) = Covers last r × Guarded none es
Guarded last (wrote path (checkpoint_file cp) ∷ es) = Guarded (some cp) es
Guarded last (wrote path (applied_file a) ∷ es) = Guarded none es
Guarded last (wrote path (operation_file o) ∷ es) = Guarded none es
Guarded last (wrote path (result_file r) ∷ es) = Guarded none es
Guarded last (created path ∷ es) = Guarded none es
Guarded last (pre_applied r s ∷ es) = Guarded none es
Guarded last (undone cp ∷ es) = Guarded none es
Guarded last (removed n ∷ es) = Guarded none es

Guarded-later : (cp : Checkpoint) (es : List Effect) → Guarded none es → Guarded (some cp) es
Guarded-later cp [] g = tt
Guarded-later cp (applied r s ∷ es) g = elim g.0 [ ]
Guarded-later cp (wrote path (checkpoint_file c) ∷ es) g = g
Guarded-later cp (wrote path (applied_file a) ∷ es) g = g
Guarded-later cp (wrote path (operation_file o) ∷ es) g = g
Guarded-later cp (wrote path (result_file r) ∷ es) g = g
Guarded-later cp (created path ∷ es) g = g
Guarded-later cp (pre_applied r s ∷ es) g = g
Guarded-later cp (undone c ∷ es) g = g
Guarded-later cp (removed n ∷ es) g = g

Guarded-start : (last : Option Checkpoint) (es : List Effect) → Guarded none es → Guarded last es
Guarded-start none es g = g
Guarded-start (some cp) es g = Guarded-later cp es g

pub Guarded-append :
    (last : Option Checkpoint) (es fs : List Effect)
    → Guarded last es
    → Guarded none fs
    → Guarded last (es ++ fs)
Guarded-append last [] fs g h = Guarded-start last fs h
Guarded-append last (applied r s ∷ es) fs g h = (g.0, Guarded-append none es fs g.1 h)
Guarded-append last (wrote path (checkpoint_file c) ∷ es) fs g h = Guarded-append (some c) es fs g h
Guarded-append last (wrote path (applied_file a) ∷ es) fs g h = Guarded-append none es fs g h
Guarded-append last (wrote path (operation_file o) ∷ es) fs g h = Guarded-append none es fs g h
Guarded-append last (wrote path (result_file r) ∷ es) fs g h = Guarded-append none es fs g h
Guarded-append last (created path ∷ es) fs g h = Guarded-append none es fs g h
Guarded-append last (pre_applied r s ∷ es) fs g h = Guarded-append none es fs g h
Guarded-append last (undone c ∷ es) fs g h = Guarded-append none es fs g h
Guarded-append last (removed n ∷ es) fs g h = Guarded-append none es fs g h

-- What is added to the log.
abbrev pub Added : Option Checkpoint → List Effect → List Effect → Type 0
Added last before after = (more : List Effect) × (after ≡ before ++ more) × Guarded last more

pub unlogged : (last : Option Checkpoint) (log : List Effect) → Added last log log
unlogged last log = ([], sym (append-nil log), tt)

pub logged :
    (last : Option Checkpoint) (e : Effect) (log : List Effect)
    → Guarded last (e ∷ [])
    → Added last log (log ++ e ∷ [])
logged last e log g = (e ∷ [], refl, g)

-- What a run adds to the log, whether it ends in an error or not.
pub record AddsAfter {H : Type 0} {A : Type 0} (last : Option Checkpoint) (m : Exec H A)
    : Type 0 where
  pub adds : (w : World H) → Added last w.log (m w).1.log

abbrev pub Adds : {H A : Type 0} → Exec H A → Type 0
Adds m = AddsAfter none m

module _ {H : Type 0} where
  pub then_on-Added :
      {A B : Type 0} (last : Option Checkpoint) (log : List Effect) (r : Result A × World H)
      (next : A → Exec H B)
      → Added last log r.1.log
      → ((a : A) → Adds (next a))
      → Added last log (then_on r next).1.log
  then_on-Added last log (err e, w) next g k = g
  then_on-Added last log (ok a, w) next (es, h, g) k =
      let (fs, h', g') = (k a).adds w in
      (es ++ fs, h' ∙ ap (λ l. l ++ fs) h ∙ append_assoc log es fs, Guarded-append last es fs g g')

  pub >>=-Adds :
      {A B : Type 0} {last : Option Checkpoint} {m : Exec H A} {next : A → Exec H B}
      → AddsAfter last m
      → ((a : A) → Adds (next a))
      → AddsAfter last (m >>= next)
  unfolding ◌>>=◌
  >>=-Adds {last} {m} {next} h k = record {
    adds = λ w. then_on-Added last w.log (m w) next (h.adds w) k;
  }

  pub >>-Adds :
      {A B : Type 0} {last : Option Checkpoint} {m : Exec H A} {next : Exec H B}
      → AddsAfter last m
      → Adds next
      → AddsAfter last (m >> next)
  unfolding ◌>>◌
  >>-Adds {last} {m} {next} h k = record {
    adds = λ w. then_on-Added last w.log (m w) (λ _. next) (h.adds w) (λ _. k);
  }

  held-Added :
      {A B : Type 0} (log : List Effect) (r : Result A × World H) (a : A) (next : A → Exec H B)
      → r.0 ≡ ok a
      → r.1.log ≡ log
      → Adds (next a)
      → Added none log (then_on r next).1.log
  held-Added log (err e, w) a next h l k = cc
  held-Added log (ok b, w) a next h l k =
      let same : a ≡ b = cc in
      subst (λ g. Added none g (next b w).1.log) l ((subst (λ x. Adds (next x)) same k).adds w)

  -- A run that draws a value with a property, and logs nothing.
  pub holding-Adds :
      {A B : Type 0} (P : A → Type 0) (m : Exec H A) {next : A → Exec H B}
      → ((w : World H) → (a : A) × ((m w).0 ≡ ok a) × P a × ((m w).1.log ≡ w.log))
      → ((a : A) → P a → Adds (next a))
      → Adds (m >>= next)
  unfolding ◌>>=◌
  holding-Adds P m {next} h k = record {
    adds = λ w. let (a, e, p, l) = h w in held-Added w.log (m w) a next e l (k a p);
  }

  pub lift-Adds : {A : Type 0} (r : Result A) → Adds {H = H} (lift r)
  unfolding lift
  lift-Adds r = record { adds = λ w. unlogged none w.log }

  pub done-Adds : {A : Type 0} (a : A) → Adds {H = H} (done a)
  unfolding done
  done-Adds a = record { adds = λ w. unlogged none w.log }

  pub look-Adds : {A : Type 0} (f : H → Result A) → Adds (look f)
  unfolding look
  look-Adds f = record { adds = λ w. unlogged none w.log }

  pub attempt-Adds :
      {A : Type 0} {last : Option Checkpoint} {m : Exec H A}
      → AddsAfter last m
      → AddsAfter last (attempt m)
  unfolding attempt
  attempt-Adds h = record { adds = h.adds }

  pub call-Adds :
      {A : Type 0} (last : Option Checkpoint) (e : Effect) (f : H → Result A × H)
      → Guarded last (e ∷ [])
      → AddsAfter last (call e f)
  unfolding call
  call-Adds last e f g = record { adds = λ w. logged last e w.log g }

  pub chosen-Adds :
      {A : Type 0} (b : Bool) {m n : Exec H A} → Adds m → Adds n → Adds (if b then m else n)
  chosen-Adds true h k = h
  chosen-Adds false h k = k

  module _ (rt : Runtime H) where
    pub now-Adds : Adds (now rt)
    unfolding now
    now-Adds = record { adds = λ w. unlogged none w.log }

    pub new_ulid-Adds : Adds (new_ulid rt)
    unfolding new_ulid
    new_ulid-Adds = record { adds = λ w. unlogged none w.log }

    pub written-Adds :
        (path : PathBuf) (e : Effect) → Guarded none (e ∷ []) → Adds (written rt path e)
    unfolding written
    written-Adds path e g = record {
      adds = λ w. elim (Option-cases (rt.refuses path w)) [
        | inl allowed ↦ rw (written, allowed) (logged none e w.log g)
        | inr (error, refused) ↦ rw (written, refused) (unlogged none w.log)
      ];
    }

    pub write_applied-Adds : (r : Resource) (op_id : ℕ) → Adds (write_applied rt r op_id)
    unfolding write_applied
    write_applied-Adds r op_id =
        >>-Adds (written-Adds _ _ tt) (>>=-Adds now-Adds (λ applied_at. written-Adds _ _ tt))
