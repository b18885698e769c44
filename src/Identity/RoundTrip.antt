-- ===== src/Identity/RoundTrip.antt =====
-- A resource's identity and its text.
use iac.Prelude.{
  ℕ, ◌≡◌, ◌⊎◌, ◌∙◌, refl, ap, sym, subst, ◌↔◌, inl, inr, Bool, false, ◌||◌, some, String, ◌==◌,
  arith, Bool-cases, Option-cases,
}
use Prim.Native.Char.{Char, code}
use Prim.Native.String.{◌++◌}
use text.Mathlib.TextEquality.{Char-path}
use text.Mathlib.TextLemmas.{nil-append, cons-append}
use iac.Identity.{ResourceId, slash, is_empty, split_once, display, parse, of_parts}

-- The text has a character of that code.
abbrev pub contains : ℕ → String → Bool
contains sep String.[] = false
contains sep (String.◌∷◌ c s) = code c == sep || contains sep s

slash_first : (b : String) → "/" ++ b ≡ String.◌∷◌ "/" b
slash_first b = cons-append "/" "" b ∙ ap (λ t. String.◌∷◌ "/" t) (nil-append b)

split_once-append :
    (a b : String) → contains slash a ≡ false → split_once slash (a ++ ("/" ++ b)) ≡ some (a, b)
split_once-append String.[] b h = rw (nil-append ("/" ++ b), slash_first b) refl
split_once-append (String.◌∷◌ c a) b h =
    rw (cons-append c a ("/" ++ b)) (ground (arith, h, split_once-append a b))

abbrev At : Char → String → String → String → Type 0
At c s a b = (code c ≡ slash) × (a ≡ "") × (b ≡ s)

abbrev Later : Char → String → String → String → Type 0
Later c s a b = (a' : String) × (a ≡ String.◌∷◌ c a') × (split_once slash s ≡ some (a', b))

split_once-cases :
    (c : Char) (s a b : String)
    → split_once slash (String.◌∷◌ c s) ≡ some (a, b)
    → At c s a b ⊎ Later c s a b
split_once-cases c s a b h = elim (Bool-cases (code c == slash)) [
  | inl e ↦ inl (ground (arith, e), ground (arith, e, h), ground (arith, e, h))
  | inr e ↦ elim (Option-cases (split_once slash s)) [
    | inl n ↦ absurd (ground (arith, e, n, h))
    | inr ((a', b'), f) ↦ inr (a', ground (arith, e, f, h), ground (arith, e, f, h))
  ]
]

split_once-back : (s a b : String) → split_once slash s ≡ some (a, b) → a ++ ("/" ++ b) ≡ s
split_once-back String.[] a b h = absurd (ground (arith, h))
split_once-back (String.◌∷◌ c s) a b h = elim (split_once-cases c s a b h) [
  | inl (e, p, q) ↦
      rw (p, q, nil-append ("/" ++ s), slash_first s)
        (ap (λ d. String.◌∷◌ d s) (Char-path "/" c (sym e)))
  | inr (a', p, f) ↦
      rw (p, cons-append c a' ("/" ++ b)) (ap (λ t. String.◌∷◌ c t) (split_once-back s a' b f))
]

parse-display :
    (id : ResourceId)
    → (is_empty id.kind || is_empty id.environment || is_empty id.name) ≡ false
    → (contains slash id.kind || contains slash id.environment) ≡ false
    → parse (display id) ≡ some id
unfolding parse display of_parts
parse-display id full plain =
    let first =
      split_once-append id.kind (id.environment ++ ("/" ++ id.name)) (ground (arith, plain)) in
    let second = split_once-append id.environment id.name (ground (arith, plain)) in
    ground (arith, first, second, full)

display-parse : (s : String) (id : ResourceId) → parse s ≡ some id → display id ≡ s
unfolding parse display of_parts
display-parse s id h = elim (Option-cases (split_once slash s)) [
  | inl n ↦ absurd (ground (arith, n, h))
  | inr ((a, t), e) ↦ elim (Option-cases (split_once slash t)) [
    | inl n ↦ absurd (ground (arith, e, n, h))
    | inr ((b, c), f) ↦
        let parts : (id.kind ≡ a) × (id.environment ≡ b) × (id.name ≡ c) =
          ground (arith, e, f, h) in
        rw (parts.0, parts.1, parts.2)
          (ap (λ u. a ++ ("/" ++ u)) (split_once-back t b c f) ∙ split_once-back s a t e)
  ]
]

-- An identity whose parts are not empty, with no slash in its kind and its environment, is what its
-- text is read as, and no other text is read as it.
pub parse_iff :
    (s : String) (id : ResourceId)
    → (is_empty id.kind || is_empty id.environment || is_empty id.name) ≡ false
    → (contains slash id.kind || contains slash id.environment) ≡ false
    → (parse s ≡ some id) ↔ (s ≡ display id)
parse_iff s id full plain = (
  λ h. sym (display-parse s id h),
  λ e. subst (λ t. parse t ≡ some id) (sym e) (parse-display id full plain),
)
