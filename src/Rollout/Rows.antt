-- ===== src/Rollout/Rows.antt =====
-- Reading the assignment table: counts by status, the lowest layer, the distinct layers.
use iac.Prelude.{
  ℕ, ◌≤◌, ◌≡◌, ◌≢◌, refl, Bool, true, false, ◌&&◌, Option, none, some, List, [], ◌∷◌, ◌==◌, inl,
  inr, All, Bool-cases, map, if◌then◌else◌, count_if, any, any_mono_false, Option-cases, ltb, arith,
  keep_if, min,
}
use iac.Tables.{Assignment, AssignmentStatus, has_status}

-- A row of `SELECT status, COUNT(*) ... WHERE sel GROUP BY status`.
unfoldable pub count_status : (Assignment → Bool) → AssignmentStatus → List Assignment → ℕ
count_status sel s rows = count_if (λ a. sel a && has_status a.status s) rows

abbrev pub of_operation : ℕ → AssignmentStatus → Assignment → Bool
of_operation op s a = a.operation_id == op && has_status a.status s

-- `SELECT MIN(layer) ... WHERE sel`.
unfoldable pub min_layer : (Assignment → Bool) → List Assignment → Option ℕ
min_layer sel [] = none
min_layer sel (a ∷ rows) =
    let rest = min_layer sel rows in
    if sel a then some (elim rest [ none ↦ a.layer | some m ↦ min a.layer m ]) else rest

abbrev pub member : ℕ → List ℕ → Bool
member n = any (λ m. m == n)

-- `SELECT DISTINCT`, in the order of first occurrence from the back.
unfoldable pub distinct : List ℕ → List ℕ
distinct [] = []
distinct (n ∷ ns) = let rest = distinct ns in if member n rest then rest else n ∷ rest

pub All-distinct {ℓ} : (P : ℕ → Type ℓ) (ns : List ℕ) → All P ns → All P (distinct ns)
unfolding distinct
All-distinct P [] h = tt
All-distinct P (n ∷ ns) h = ground (arith, All-distinct P ns h.1)

push-ne-nil : (n : ℕ) (ns : List ℕ) → (if member n ns then ns else n ∷ ns) ≢ []
push-ne-nil n [] e = cc
push-ne-nil n (m ∷ ns) e = ground arith

pub distinct-nil→any :
    (p : Assignment → Bool) (rows : List Assignment)
    → distinct (map (λ a. a.layer) (keep_if p rows)) ≡ []
    → any p rows ≡ false
unfolding distinct
distinct-nil→any p [] h = refl
distinct-nil→any p (a ∷ rows) h = elim (Bool-cases (p a)) [
  | inl e ↦
      absurd (push-ne-nil a.layer (distinct (map (λ b. b.layer) (keep_if p rows))) (ground arith))
  | inr e ↦ ground (arith, distinct-nil→any p rows)
]

module _ (sel : Assignment → Bool) where
  pub min_layer-none : (rows : List Assignment) → min_layer sel rows ≡ none → any sel rows ≡ false
  unfolding min_layer
  min_layer-none [] h = refl
  min_layer-none (a ∷ rows) h = ground (arith, min_layer-none rows)

  -- No selected row lies below the lowest layer.
  pub min_layer-least :
      (rows : List Assignment) (m k : ℕ)
      → k ≤ m
      → min_layer sel rows ≡ some m
      → any (λ a. sel a && ltb a.layer k) rows ≡ false
  unfolding min_layer
  min_layer-least [] m k le h = refl
  min_layer-least (a ∷ rows) m k le h = elim (Option-cases (min_layer sel rows)) [
    | inl e ↦ ground (
      arith,
      any_mono_false (λ x. sel x && ltb x.layer k) sel rows (λ x q. ground arith)
          (min_layer-none rows e),
    )
    | inr (n, e) ↦ ground (arith, min_layer-least rows n k)
  ]

  -- And some selected row lies on it.
  pub min_layer-attained :
      (rows : List Assignment) (m : ℕ)
      → min_layer sel rows ≡ some m
      → any (λ a. sel a && a.layer == m) rows ≡ true
  unfolding min_layer
  min_layer-attained [] m h = cc
  min_layer-attained (a ∷ rows) m h = elim (Option-cases (min_layer sel rows)) [
    | inl e ↦ ground arith
    | inr (n, e) ↦ ground (arith, min_layer-attained rows n)
  ]

  pub min_layer-none_of :
      (rows : List Assignment) → any sel rows ≡ false → min_layer sel rows ≡ none
  unfolding min_layer
  min_layer-none_of [] h = refl
  min_layer-none_of (a ∷ rows) h = ground (arith, min_layer-none_of rows)
