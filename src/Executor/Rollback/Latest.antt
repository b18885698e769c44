-- ===== src/Executor/Rollback/Latest.antt =====
-- The checkpoints of a rollback, the latest first.
use iac.Prelude.{◌≤◌, inl, inr, List, [], ◌∷◌, All, leb, arith, Bool-cases}
use mathlib.Core.List.{Perm}
use mathlib.Core.List.Perm
use iac.Provider.{PathBuf, Checkpoint}
use iac.Executor.Rollback.{insert_latest, latest_first}

abbrev pub Entry : Type 0
Entry = PathBuf × Checkpoint

abbrev NotBelow : Checkpoint → List Entry → Type 0
NotBelow c = All (λ (e : Entry). e.1.id ≤ c.id)

-- The ids fall, or stay.
abbrev pub IsLatestFirst : List (PathBuf × Checkpoint) → Type 0
IsLatestFirst [] = Unit
IsLatestFirst (e ∷ entries) = NotBelow e.1 entries × IsLatestFirst entries

NotBelow-le : (c d : Checkpoint) (es : List Entry) → d.id ≤ c.id → NotBelow d es → NotBelow c es
NotBelow-le c d [] h a = tt
NotBelow-le c d (e ∷ es) h a = (omega (arith, h, a.0), NotBelow-le c d es h a.1)

NotBelow-insert_latest :
    (c : Checkpoint) (e : Entry) (es : List Entry)
    → e.1.id ≤ c.id
    → NotBelow c es
    → NotBelow c (insert_latest e es)
unfolding insert_latest
NotBelow-insert_latest c e [] h a = (h, tt)
NotBelow-insert_latest c e (f ∷ es) h a = elim (Bool-cases (leb f.1.id e.1.id)) [
  | inl t ↦ rw t (h, a)
  | inr t ↦ rw t (a.0, NotBelow-insert_latest c e es h a.1)
]

insert_latest-IsLatestFirst :
    (e : Entry) (es : List Entry) → IsLatestFirst es → IsLatestFirst (insert_latest e es)
unfolding insert_latest
insert_latest-IsLatestFirst e [] s = (tt, tt)
insert_latest-IsLatestFirst e (f ∷ es) s = elim (Bool-cases (leb f.1.id e.1.id)) [
  | inl t ↦
      let le : f.1.id ≤ e.1.id = ground (arith, t) in rw t ((le, NotBelow-le e.1 f.1 es le s.0), s)
  | inr t ↦ rw t (
    NotBelow-insert_latest f.1 e es (ground (arith, t)) s.0,
    insert_latest-IsLatestFirst e es s.1,
  )
]

pub latest_first-IsLatestFirst : (es : List Entry) → IsLatestFirst (latest_first es)
unfolding latest_first
latest_first-IsLatestFirst [] = tt
latest_first-IsLatestFirst (e ∷ es) =
    insert_latest-IsLatestFirst e (latest_first es) (latest_first-IsLatestFirst es)

Perm-insert_latest : (e : Entry) (es : List Entry) → Perm (insert_latest e es) (e ∷ es)
unfolding insert_latest
Perm-insert_latest e [] = Perm.refl _
Perm-insert_latest e (f ∷ es) = elim (Bool-cases (leb f.1.id e.1.id)) [
  | inl t ↦ rw t (Perm.refl _)
  | inr t ↦ rw t (Perm.trans (Perm.cons f (Perm-insert_latest e es)) (Perm.swap e f es))
]

pub Perm-latest_first : (es : List Entry) → Perm (latest_first es) es
unfolding latest_first
Perm-latest_first [] = Perm.refl _
Perm-latest_first (e ∷ es) =
    Perm.trans (Perm-insert_latest e (latest_first es)) (Perm.cons e (Perm-latest_first es))
