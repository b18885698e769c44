-- ===== src/Depsort/Counts.antt =====
-- Occurrences of a number in a list, and in the lists of a table.
use iac.Prelude.{
  ℕ, zero, suc, ◌+◌, ◌≤◌, ◌<◌, ◌≡◌, refl, ◌∙◌, ◌⊎◌, inl, inr, List, [], ◌∷◌, ◌++◌, ◌==◌, ltb,
  if◌then◌else◌, length, count_if, count_if-append, get_or, set, arith,
}
use native.Mathlib.Decide.{dec_lt}

compare_zero : (n : ℕ) → (n ≡ 0) ⊎ (0 < n)
compare_zero zero = inl refl
compare_zero (suc n) = inr (omega arith)

eq_or_lt : (v n : ℕ) → v < suc n → (v ≡ n) ⊎ (v < n)
eq_or_lt v n h = elim (dec_lt v n) [ yes k ↦ inr k | no k ↦ inl (omega arith) ]

abbrev pub occ : ℕ → List ℕ → ℕ
occ v xs = count_if (λ x. x == v) xs

-- The occurrences in all the lists of the table.
abbrev pub arrows : ℕ → List (List ℕ) → ℕ
arrows v [] = 0
arrows v (s ∷ table) = occ v s + arrows v table

pub arrows-clear :
    (v i : ℕ) (table : List (List ℕ))
    → arrows v (set table i []) + occ v (get_or table i []) ≡ arrows v table
arrows-clear v i [] = omega arith
arrows-clear v zero (s ∷ table) = omega arith
arrows-clear v (suc i) (s ∷ table) = omega (arith, arrows-clear v i table)

pub arrows-extend :
    (v u i : ℕ) (table : List (List ℕ))
    → u < length table
    → arrows v (set table u (get_or table u [] ++ i ∷ [])) ≡ arrows v table + occ v (i ∷ [])
arrows-extend v u i [] h = absurd (omega arith)
arrows-extend v zero i (s ∷ table) h = omega (arith, count_if-append (λ x. x == v) s (i ∷ []))
arrows-extend v (suc u) i (s ∷ table) h = omega (arith, arrows-extend v u i table (omega arith))

pub occ-le-arrows : (v u : ℕ) (table : List (List ℕ)) → occ v (get_or table u []) ≤ arrows v table
occ-le-arrows v u [] = omega arith
occ-le-arrows v zero (s ∷ table) = omega arith
occ-le-arrows v (suc u) (s ∷ table) = omega (arith, occ-le-arrows v u table)

-- A vertex with an arrow has one from some list of the table.
pub arrows_source :
    (v : ℕ) (table : List (List ℕ)) → 0 < arrows v table → (u : ℕ) × (0 < occ v (get_or table u []))
arrows_source v [] h = absurd (omega arith)
arrows_source v (s ∷ table) h = elim (compare_zero (occ v s)) [
  | inl z ↦ let (u, k) = arrows_source v table (omega (arith, h, z)) in (suc u, k)
  | inr p ↦ (0, p)
]

module _ {ℓ} {A : Type ℓ} where
  pub length-set : (xs : List A) (i : ℕ) (x : A) → length (set xs i x) ≡ length xs
  length-set [] i x = refl
  length-set (y ∷ xs) zero x = refl
  length-set (y ∷ xs) (suc i) x = omega (arith, length-set xs i x)

  pub get_or-set :
      (xs : List A) (i j : ℕ) (x d : A)
      → i < length xs
      → get_or (set xs i x) j d ≡ (if j == i then x else get_or xs j d)
  get_or-set [] i j x d h = absurd (omega arith)
  get_or-set (y ∷ xs) zero zero x d h = refl
  get_or-set (y ∷ xs) zero (suc j) x d h = ground arith
  get_or-set (y ∷ xs) (suc i) zero x d h = ground arith
  get_or-set (y ∷ xs) (suc i) (suc j) x d h = get_or-set xs i j x d (omega arith) ∙ ground arith

  -- Writing the default needs no bound.
  pub get_or-clear :
      (xs : List A) (i j : ℕ) (d : A)
      → get_or (set xs i d) j d ≡ (if j == i then d else get_or xs j d)
  get_or-clear [] i j d = ground arith
  get_or-clear (y ∷ xs) zero zero d = refl
  get_or-clear (y ∷ xs) zero (suc j) d = ground arith
  get_or-clear (y ∷ xs) (suc i) zero d = ground arith
  get_or-clear (y ∷ xs) (suc i) (suc j) d = get_or-clear xs i j d ∙ ground arith

-- The elements below a bound.
abbrev below : ℕ → List ℕ → ℕ
below n = count_if (λ x. ltb x n)

below-suc : (n : ℕ) (xs : List ℕ) → below (suc n) xs ≡ below n xs + occ n xs
below-suc n [] = omega arith
below-suc n (x ∷ xs) = ground (arith, below-suc n xs)

below-zero : (xs : List ℕ) → below 0 xs ≡ 0
below-zero [] = refl
below-zero (x ∷ xs) = ground (arith, below-zero xs)

below-le : (n : ℕ) (xs : List ℕ) → ((v : ℕ) → occ v xs ≤ 1) → below n xs ≤ n
below-le zero xs h = omega (arith, below-zero xs)
below-le (suc n) xs h = omega (arith, below-suc n xs, h n, below-le n xs h)

-- All of a list's elements lie below a bound.
abbrev pub Below : ℕ → List ℕ → Type 0
Below n xs = (v : ℕ) → n ≤ v → occ v xs ≡ 0

below-length : (n : ℕ) (xs : List ℕ) → Below n xs → below n xs ≡ length xs
below-length n [] h = refl
below-length n (x ∷ xs) h = ground (arith, h x, below-length n xs (λ v k. ground (arith, h v k)))

pub pigeonhole : (n : ℕ) (xs : List ℕ) → Below n xs → ((v : ℕ) → occ v xs ≤ 1) → length xs ≤ n
pigeonhole n xs b h = omega (arith, below-length n xs b, below-le n xs h)

below_full :
    (n : ℕ) (xs : List ℕ)
    → ((v : ℕ) → occ v xs ≤ 1)
    → below n xs ≡ n
    → (v : ℕ) → v < n
    → occ v xs ≡ 1
below_full zero xs h e v k = absurd (omega arith)
below_full (suc n) xs h e v k =
    let least = below-le n xs h in
    let last = below-suc n xs in
    elim (eq_or_lt v n k) [
      | inl same ↦ rw same (omega (arith, h n, e))
      | inr less ↦ below_full n xs h (omega (arith, h n, e)) v less
    ]

-- As many different elements below n as n: each occurs.
pub pigeonhole_full :
    (n : ℕ) (xs : List ℕ)
    → Below n xs
    → ((v : ℕ) → occ v xs ≤ 1)
    → length xs ≡ n
    → (v : ℕ) → v < n
    → occ v xs ≡ 1
pigeonhole_full n xs b h e = below_full n xs h (below-length n xs b ∙ e)

below_each : (n : ℕ) (xs : List ℕ) → ((v : ℕ) → v < n → occ v xs ≡ 1) → below n xs ≡ n
below_each zero xs h = below-zero xs
below_each (suc n) xs h =
    omega (arith, below-suc n xs, h n (omega arith), below_each n xs (λ v k. h v (omega arith)))

pub each_length :
    (n : ℕ) (xs : List ℕ) → Below n xs → ((v : ℕ) → v < n → occ v xs ≡ 1) → length xs ≡ n
each_length n xs b h = omega (arith, below-length n xs b, below_each n xs h)
