-- ===== src/Prelude/Lists.antt =====
-- Lists measured and searched by Boolean tests, over the native numbers.
use Prim.Native.Nat.{ℕ, zero, suc, ◌+◌, ◌<◌, ◌≤◌}
use mathlib.Core.Path.{◌≡◌, refl, subst}
use mathlib.Core.Logic.{inl, inr}
use mathlib.Core.Bool.{Bool, true, false, not, ◌||◌}
use mathlib.Core.List.{List, [], ◌∷◌, ◌++◌}
use mathlib.Core.Option.{Option, none, some}
use native.Mathlib.Omega.{arith}
use iac.Prelude.Tests.{if◌then◌else◌, Bool-cases}

module _ {ℓ} {A : Type ℓ} where
  abbrev pub length : List A → ℕ
  length [] = 0
  length (x ∷ xs) = suc (length xs)

  pub length-append : (xs ys : List A) → length (xs ++ ys) ≡ length xs + length ys
  length-append [] ys = omega arith
  length-append (x ∷ xs) ys = omega (arith, length-append xs ys)

  abbrev pub get_elem? : List A → ℕ → Option A
  get_elem? [] i = none
  get_elem? (x ∷ xs) zero = some x
  get_elem? (x ∷ xs) (suc i) = get_elem? xs i

  -- How many elements pass a test.
  abbrev pub count_if : (A → Bool) → List A → ℕ
  count_if p [] = 0
  count_if p (x ∷ xs) = if p x then suc (count_if p xs) else count_if p xs

  abbrev pub any : (A → Bool) → List A → Bool
  any p [] = false
  any p (x ∷ xs) = p x || any p xs

  abbrev pub keep_if : (A → Bool) → List A → List A
  keep_if p [] = []
  keep_if p (x ∷ xs) = if p x then x ∷ keep_if p xs else keep_if p xs

  abbrev pub find_if : (A → Bool) → List A → Option A
  find_if p [] = none
  find_if p (x ∷ xs) = if p x then some x else find_if p xs

  -- The rows that pass the test are rewritten, as by SQL's UPDATE ... WHERE.
  abbrev pub update_where : (A → Bool) → (A → A) → List A → List A
  update_where p f [] = []
  update_where p f (x ∷ xs) = (if p x then f x else x) ∷ update_where p f xs

abbrev pub All {ℓ κ} : {A : Type ℓ} → (A → Type κ) → List A → Type κ
All P [] = Unit
All P (x ∷ xs) = P x × All P xs

module _ {ℓ κ} {A : Type ℓ} (P : A → Type κ) where
  pub All-append : (xs ys : List A) → All P xs → All P ys → All P (xs ++ ys)
  All-append [] ys h k = k
  All-append (x ∷ xs) ys h k = (h.0, All-append xs ys h.1 k)

module _ {ℓ} {A : Type ℓ} (p : A → Bool) where
  pub count_if-append : (xs ys : List A) → count_if p (xs ++ ys) ≡ count_if p xs + count_if p ys
  count_if-append [] ys = omega arith
  count_if-append (x ∷ xs) ys = ground (arith, count_if-append xs ys)

  pub count_if-zero→any : (xs : List A) → count_if p xs ≡ 0 → any p xs ≡ false
  count_if-zero→any [] h = refl
  count_if-zero→any (x ∷ xs) h = ground (arith, count_if-zero→any xs)

  pub any→count_if-pos : (xs : List A) → any p xs ≡ true → 0 < count_if p xs
  any→count_if-pos (x ∷ xs) h = ground (arith, any→count_if-pos xs)
  any→count_if-pos [] h = ground arith

module _ {ℓ} {A : Type ℓ} where
  pub count_if-zero_of :
      (p q : A → Bool) (xs : List A)
      → ((x : A) → q x ≡ false → p x ≡ false)
      → any q xs ≡ false
      → count_if p xs ≡ 0
  count_if-zero_of p q [] h e = refl
  count_if-zero_of p q (x ∷ xs) h e = ground (arith, h x, count_if-zero_of p q xs h)

  -- What holds of each element, rewritten or not, holds of the whole table after the update.
  pub All-update_where {κ μ} :
      (P : A → Type κ) (Q : A → Type μ) (p : A → Bool) (f : A → A) (xs : List A)
      → ((x : A) → P x → Q (if p x then f x else x))
      → All P xs
      → All Q (update_where p f xs)
  All-update_where P Q p f [] h a = tt
  All-update_where P Q p f (x ∷ xs) h a = (h x a.0, All-update_where P Q p f xs h a.1)

  pub any-update_where-false {κ} :
      (P : A → Type κ) (q p : A → Bool) (f : A → A) (xs : List A)
      → ((x : A) → P x → q (if p x then f x else x) ≡ false)
      → All P xs
      → any q (update_where p f xs) ≡ false
  any-update_where-false P q p f [] h a = refl
  any-update_where-false P q p f (x ∷ xs) h a =
      ground (arith, h x a.0, any-update_where-false P q p f xs h a.1)

  pub any-update_where_mono {κ} :
      (P : A → Type κ) (r q p : A → Bool) (f : A → A) (xs : List A)
      → ((x : A) → P x → r x ≡ true → q (if p x then f x else x) ≡ true)
      → All P xs
      → any r xs ≡ true
      → any q (update_where p f xs) ≡ true
  any-update_where_mono P r q p f [] h a e = e
  any-update_where_mono P r q p f (x ∷ xs) h a e =
      ground (arith, h x a.0, any-update_where_mono P r q p f xs h a.1)

  pub any_mono_false :
      (p q : A → Bool) (xs : List A)
      → ((x : A) → q x ≡ false → p x ≡ false)
      → any q xs ≡ false
      → any p xs ≡ false
  any_mono_false p q [] h e = refl
  any_mono_false p q (x ∷ xs) h e = ground (arith, h x, any_mono_false p q xs h)

  pub any-false→All : (p : A → Bool) (xs : List A) → any p xs ≡ false → All (λ x. p x ≡ false) xs
  any-false→All p [] h = tt
  any-false→All p (x ∷ xs) h = (ground arith, any-false→All p xs (ground arith))

  pub any-or_false :
      (p q : A → Bool) (xs : List A)
      → any p xs ≡ false
      → any q xs ≡ false
      → any (λ x. p x || q x) xs ≡ false
  any-or_false p q [] h k = refl
  any-or_false p q (x ∷ xs) h k = ground (arith, any-or_false p q xs)

  pub All-Unit : (xs : List A) → All (λ x. Unit {0}) xs
  All-Unit [] = tt
  All-Unit (x ∷ xs) = (tt, All-Unit xs)

module _ {ℓ} {A : Type ℓ} where
  abbrev pub get_or : List A → ℕ → A → A
  get_or [] i d = d
  get_or (x ∷ xs) zero d = x
  get_or (x ∷ xs) (suc i) d = get_or xs i d

  -- A write out of bounds changes nothing.
  abbrev pub set : List A → ℕ → A → List A
  set [] i v = []
  set (x ∷ xs) zero v = v ∷ xs
  set (x ∷ xs) (suc i) v = x ∷ set xs i v

  abbrev pub replicate : ℕ → A → List A
  replicate zero a = []
  replicate (suc n) a = a ∷ replicate n a

-- Two lists of one length whose elements are related in pairs.
module _ {ℓ} {A : Type ℓ} where
  abbrev pub Pairs : (A → A → Type 0) → List A → List A → Type 0
  Pairs R [] [] = Unit
  Pairs R [] (y ∷ ys) = ⊥
  Pairs R (x ∷ xs) [] = ⊥
  Pairs R (x ∷ xs) (y ∷ ys) = R x y × Pairs R xs ys

  pub Pairs-refl : (R : A → A → Type 0) → ((x : A) → R x x) → (xs : List A) → Pairs R xs xs
  Pairs-refl R r [] = tt
  Pairs-refl R r (x ∷ xs) = (r x, Pairs-refl R r xs)

  pub Pairs-trans :
      (R : A → A → Type 0)
      → ((x y z : A) → R x y → R y z → R x z)
      → (xs ys zs : List A) → Pairs R xs ys
      → Pairs R ys zs
      → Pairs R xs zs
  Pairs-trans R t [] [] [] p q = tt
  Pairs-trans R t [] [] (z ∷ zs) p q = q
  Pairs-trans R t [] (y ∷ ys) zs p q = absurd p
  Pairs-trans R t (x ∷ xs) [] zs p q = absurd p
  Pairs-trans R t (x ∷ xs) (y ∷ ys) [] p q = q
  Pairs-trans R t (x ∷ xs) (y ∷ ys) (z ∷ zs) p q =
      (t x y z p.0 q.0, Pairs-trans R t xs ys zs p.1 q.1)

  pub Pairs-update_where :
      (R : A → A → Type 0) (p : A → Bool) (f : A → A)
      → ((x : A) → R x (if p x then f x else x))
      → (xs : List A) → Pairs R xs (update_where p f xs)
  Pairs-update_where R p f h [] = tt
  Pairs-update_where R p f h (x ∷ xs) = (h x, Pairs-update_where R p f h xs)

  pub any-false→find_if : (p : A → Bool) (xs : List A) → any p xs ≡ false → find_if p xs ≡ none
  any-false→find_if p [] h = refl
  any-false→find_if p (x ∷ xs) h = ground (arith, any-false→find_if p xs)

  pub count_if_bound : (p : A → Bool) (xs : List A) → count_if p xs ≤ length xs
  count_if_bound p [] = omega arith
  count_if_bound p (x ∷ xs) = ground (arith, count_if_bound p xs)

  pub any-false→count_if : (p : A → Bool) (xs : List A) → any p xs ≡ false → count_if p xs ≡ 0
  any-false→count_if p [] h = refl
  any-false→count_if p (x ∷ xs) h = ground (arith, any-false→count_if p xs)

  pub any-false→keep_if : (p : A → Bool) (xs : List A) → any p xs ≡ false → keep_if p xs ≡ []
  any-false→keep_if p [] h = refl
  any-false→keep_if p (x ∷ xs) h = ground (arith, any-false→keep_if p xs)

  pub get_or-append_left :
      (xs ys : List A) (i : ℕ) (d : A) → i < length xs → get_or (xs ++ ys) i d ≡ get_or xs i d
  get_or-append_left [] ys i d h = elim h [ ]
  get_or-append_left (x ∷ xs) ys zero d h = refl
  get_or-append_left (x ∷ xs) ys (suc i) d h = get_or-append_left xs ys i d (omega arith)

  pub get_or-append_length : (xs ys : List A) (y d : A) → get_or (xs ++ y ∷ ys) (length xs) d ≡ y
  get_or-append_length [] ys y d = refl
  get_or-append_length (x ∷ xs) ys y d = get_or-append_length xs ys y d

  pub length-keep_if : (p : A → Bool) (xs : List A) → length (keep_if p xs) ≡ count_if p xs
  length-keep_if p [] = refl
  length-keep_if p (x ∷ xs) = ground (arith, length-keep_if p xs)

module _ {ℓ} {A : Type ℓ} where
  pub find_if-holds : (p : A → Bool) (xs : List A) (x : A) → find_if p xs ≡ some x → p x ≡ true
  find_if-holds p [] x h = cc
  find_if-holds p (y ∷ xs) x h = elim (Bool-cases (p y)) [
    | inl e ↦ ground (arith, e, h)
    | inr e ↦ find_if-holds p xs x (ground (arith, e, h))
  ]

  pub find_if-All {κ} :
      (Q : A → Type κ) (p : A → Bool) (xs : List A) (x : A) → All Q xs → find_if p xs ≡ some x → Q x
  find_if-All Q p [] x a h = absurd (none_ne_some h)
    where
      none_ne_some : none ≡ some x → ⊥
      none_ne_some e = cc
  find_if-All Q p (y ∷ xs) x a h = elim (Bool-cases (p y)) [
    | inl e ↦ subst Q (ground (arith, e, h)) a.0
    | inr e ↦ find_if-All Q p xs x a.1 (ground (arith, e, h))
  ]

  pub All-keep_if : (p : A → Bool) (xs : List A) → All (λ x. p x ≡ true) (keep_if p xs)
  All-keep_if p [] = tt
  All-keep_if p (x ∷ xs) = elim (Bool-cases (p x)) [
    | inl e ↦ rw e (e, All-keep_if p xs)
    | inr e ↦ rw e (All-keep_if p xs)
  ]

  pub length-keep_if-not :
      (p : A → Bool) (xs : List A)
      → length (keep_if (λ x. not (p x)) xs) + count_if p xs ≡ length xs
  length-keep_if-not p [] = refl
  length-keep_if-not p (x ∷ xs) = ground (arith, length-keep_if-not p xs)
