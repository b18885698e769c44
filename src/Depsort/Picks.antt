-- ===== src/Depsort/Picks.antt =====
-- What `take_all` takes from the vector of emptied cells.
use iac.Prelude.{
  ℕ, zero, suc, ◌≤◌, ◌<◌, ◌≡◌, refl, ◌⊎◌, inl, inr, Bool, true, false, Option, none, some, List, [],
  ◌∷◌, map, ◌==◌, if◌then◌else◌, length, get_or, get_elem?, set, is_some, arith, Option-cases,
  ApiError, ok, ok_or,
}
use iac.Depsort.{take_all}
use iac.Depsort.Counts.{occ, get_or-clear}

module _ {ℓ} {A : Type ℓ} (items : List A) where
  -- Each cell holds its item, or has been emptied.
  abbrev pub Cells : List (Option A) → Type ℓ
  Cells taker = (j : ℕ) → (get_or taker j none ≡ none) ⊎ (get_or taker j none ≡ get_elem? items j)

  Cells-clear : (taker : List (Option A)) (i : ℕ) → Cells taker → Cells (set taker i none)
  Cells-clear taker i c j = rw (get_or-clear taker i j none) (one (j == i))
    where
      one :
          (b : Bool)
          → ((if b then none else get_or taker j none) ≡ none)
            ⊎ ((if b then none else get_or taker j none) ≡ get_elem? items j)
      one true = inl refl
      one false = c j

  pub take_all_picks :
      (taker : List (Option A)) (order : List ℕ) (xs : List A)
      → Cells taker
      → take_all taker order ≡ some xs
      → map some xs ≡ map (get_elem? items) order
  unfolding take_all
  take_all_picks taker [] xs c h = let e : xs ≡ [] = ground (arith, h) in rw e refl
  take_all_picks taker (i ∷ order) xs c h = elim (Option-cases (get_or taker i none)) [
    | inl e ↦ absurd (ground (arith, e, h))
    | inr (x, e) ↦ elim (Option-cases (take_all (set taker i none) order)) [
      | inl f ↦ absurd (ground (arith, e, f, h))
      | inr (rest, f) ↦
          let tail = take_all_picks (set taker i none) order rest (Cells-clear taker i c) f in
          let whole : xs ≡ x ∷ rest = ground (arith, e, f, h) in
          let head : some x ≡ get_elem? items i = ground (arith, e, c i) in
          rw whole (cc (head, tail))
    ]
  ]

  pub take_all_total :
      (taker : List (Option A)) (order : List ℕ)
      → ((j : ℕ) → 0 < occ j order → is_some (get_or taker j none) ≡ true)
      → ((j : ℕ) → occ j order ≤ 1)
      → (xs : List A) × (take_all taker order ≡ some xs)
  unfolding take_all
  take_all_total taker [] h k = ([], refl)
  take_all_total taker (i ∷ order) h k = elim (Option-cases (get_or taker i none)) [
    | inl e ↦ absurd (ground (arith, e, h i))
    | inr (x, e) ↦
        let (rest, f) =
          take_all_total (set taker i none) order
            (λ j p. ground (arith, get_or-clear taker i j none, h j, k i, p))
            (λ j. ground (arith, k j)) in
        (x ∷ rest, rw (take_all, e, f) refl)
  ]

pub cell_of {ℓ} : {A : Type ℓ} (xs : List A) (j : ℕ) → get_or (map some xs) j none ≡ get_elem? xs j
cell_of [] j = refl
cell_of (x ∷ xs) zero = refl
cell_of (x ∷ xs) (suc j) = cell_of xs j

pub some-injective {ℓ} : {A : Type ℓ} {a b : A} → some a ≡ some b → a ≡ b
some-injective h = cc

pub ok_or-some {ℓ} :
    {A : Type ℓ} (m : Option A) (e : ApiError) {a : A} → ok_or m e ≡ ok a → m ≡ some a
ok_or-some none e h = cc
ok_or-some (some x) e h = cc

pub cell_some {ℓ} :
    {A : Type ℓ} (xs : List A) (j : ℕ)
    → j < length xs
    → is_some (get_or (map some xs) j none) ≡ true
cell_some [] j h = absurd (omega arith)
cell_some (x ∷ xs) zero h = refl
cell_some (x ∷ xs) (suc j) h = cell_some xs j (omega arith)

pub get_or_beyond {ℓ} :
    {A : Type ℓ} (xs : List A) (j : ℕ) (d : A) → length xs ≤ j → get_or xs j d ≡ d
get_or_beyond [] j d h = refl
get_or_beyond (x ∷ xs) zero d h = absurd (omega arith)
get_or_beyond (x ∷ xs) (suc j) d h = get_or_beyond xs j d (omega arith)
