-- ===== src/Executor/Apply/Retention.antt =====
-- The removal of old operation directories.
use iac.Prelude.{
  ℕ, zero, suc, ◌+◌, ◌-◌, ◌≤◌, ◌≡◌, refl, ◌∙◌, min, inl, inr, List, [], ◌∷◌, ◌++◌, All, map, length,
  leb, arith, Bool-cases,
}
use iac.Depsort.Counts.{occ}
use iac.Provider.{ok}
use iac.Executor.{World, Runtime, removed}
use iac.Executor.Apply.{insert_name, sort_names, take, dropped, removable, gc_operation_dirs}

abbrev drop : ℕ → List ℕ → List ℕ
drop zero names = names
drop (suc k) [] = []
drop (suc k) (n ∷ names) = drop k names

abbrev NotAbove : ℕ → List ℕ → Type 0
NotAbove n = All (λ m. n ≤ m)

abbrev IsSorted : List ℕ → Type 0
IsSorted [] = Unit
IsSorted (n ∷ names) = NotAbove n names × IsSorted names

NotAbove-le : (n m : ℕ) (names : List ℕ) → n ≤ m → NotAbove m names → NotAbove n names
NotAbove-le n m [] h a = tt
NotAbove-le n m (x ∷ names) h a = (omega (arith, h, a.0), NotAbove-le n m names h a.1)

NotAbove-insert_name :
    (n m : ℕ) (names : List ℕ) → n ≤ m → NotAbove n names → NotAbove n (insert_name m names)
unfolding insert_name
NotAbove-insert_name n m [] h a = (h, tt)
NotAbove-insert_name n m (x ∷ names) h a = elim (Bool-cases (leb m x)) [
  | inl e ↦ rw e (h, a)
  | inr e ↦ rw e (a.0, NotAbove-insert_name n m names h a.1)
]

insert_name-IsSorted : (n : ℕ) (names : List ℕ) → IsSorted names → IsSorted (insert_name n names)
unfolding insert_name
insert_name-IsSorted n [] s = (tt, tt)
insert_name-IsSorted n (x ∷ names) s = elim (Bool-cases (leb n x)) [
  | inl e ↦ let le : n ≤ x = ground (arith, e) in rw e ((le, NotAbove-le n x names le s.0), s)
  | inr e ↦
      rw e
        (NotAbove-insert_name x n names (ground (arith, e)) s.0, insert_name-IsSorted n names s.1)
]

sort_names-IsSorted : (names : List ℕ) → IsSorted (sort_names names)
unfolding sort_names
sort_names-IsSorted [] = tt
sort_names-IsSorted (n ∷ names) =
    insert_name-IsSorted n (sort_names names) (sort_names-IsSorted names)

occ-insert_name : (v n : ℕ) (names : List ℕ) → occ v (insert_name n names) ≡ occ v (n ∷ names)
unfolding insert_name
occ-insert_name v n [] = refl
occ-insert_name v n (x ∷ names) = ground (arith, occ-insert_name v n names)

occ-sort_names : (v : ℕ) (names : List ℕ) → occ v (sort_names names) ≡ occ v names
unfolding sort_names
occ-sort_names v [] = refl
occ-sort_names v (n ∷ names) =
    ground (arith, occ-insert_name v n (sort_names names), occ-sort_names v names)

length-insert_name : (n : ℕ) (names : List ℕ) → length (insert_name n names) ≡ suc (length names)
unfolding insert_name
length-insert_name n [] = refl
length-insert_name n (x ∷ names) = ground (arith, length-insert_name n names)

length-sort_names : (names : List ℕ) → length (sort_names names) ≡ length names
unfolding sort_names
length-sort_names [] = refl
length-sort_names (n ∷ names) =
    omega (arith, length-insert_name n (sort_names names), length-sort_names names)

NotAbove-drop : (n k : ℕ) (names : List ℕ) → NotAbove n names → NotAbove n (drop k names)
NotAbove-drop n zero names a = a
NotAbove-drop n (suc k) [] a = tt
NotAbove-drop n (suc k) (x ∷ names) a = NotAbove-drop n k names a.1

-- The parts of a sorted list.
take-NotAbove-drop :
    (k : ℕ) (names : List ℕ) → IsSorted names → All (λ g. NotAbove g (drop k names)) (take k names)
take-NotAbove-drop zero names s = tt
take-NotAbove-drop (suc k) [] s = tt
take-NotAbove-drop (suc k) (n ∷ names) s =
    (NotAbove-drop n k names s.0, take-NotAbove-drop k names s.1)

occ-take-drop :
    (v k : ℕ) (names : List ℕ) → occ v (take k names) + occ v (drop k names) ≡ occ v names
occ-take-drop v zero names = omega arith
occ-take-drop v (suc k) [] = refl
occ-take-drop v (suc k) (n ∷ names) = ground (arith, occ-take-drop v k names)

length-drop : (k : ℕ) (names : List ℕ) → length (drop k names) ≡ length names - k
length-drop zero names = omega arith
length-drop (suc k) [] = omega arith
length-drop (suc k) (n ∷ names) = omega (arith, length-drop k names)

-- The names that go, and those that are left.
pub record Retained (keep : ℕ) (names gone : List ℕ) : Type 0 where
  pub left : List ℕ
  pub split : (v : ℕ) → occ v gone + occ v left ≡ occ v names
  pub enough : length left ≡ min keep (length names)
  pub older : All (λ g. All (λ l. g ≤ l) left) gone

dropped-Retained : (keep : ℕ) (names : List ℕ) → Retained keep names (dropped keep names)
unfolding dropped
dropped-Retained keep names = elim (Bool-cases (leb (length names) keep)) [
  | inl e ↦
      rw e
        (record { left = names; split = λ v. omega arith; enough = ground (arith, e); older = tt })
  | inr e ↦
      let k = length names - keep in
      rw e (record {
        left = drop k (sort_names names);
        split = λ v. occ-take-drop v k (sort_names names) ∙ occ-sort_names v names;
        enough = ground (arith, e, length-drop k (sort_names names), length-sort_names names);
        older = take-NotAbove-drop k (sort_names names) (sort_names-IsSorted names);
      })
]

-- When the operation directories can be listed, the removal splits them into those that are to go and
-- those that are left: as many as `keep` are left, or all if there are fewer, and none that is to go is
-- newer than one that is left. Exactly the ones that are to go and can be removed are removed, even
-- if the removal of another one fails; the removal ends without an error, and the host stays as it was.
pub gc_operation_dirs-Retained :
    {H : Type 0} (rt : Runtime H) (keep : ℕ) (w : World H) (names : List ℕ)
    → rt.operation_dirs w ≡ ok names
    → (gone : List ℕ) × Retained keep names gone
      × ((gc_operation_dirs rt keep w).1.log ≡ w.log ++ map removed (removable rt w gone))
      × ((gc_operation_dirs rt keep w).1.host ≡ w.host)
      × ((gc_operation_dirs rt keep w).0 ≡ ok tt)
unfolding gc_operation_dirs
gc_operation_dirs-Retained rt keep w names h = (
  dropped keep names,
  dropped-Retained keep names,
  rw (gc_operation_dirs, h) refl,
  rw (gc_operation_dirs, h) refl,
  rw (gc_operation_dirs, h) refl,
)
