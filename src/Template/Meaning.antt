-- ===== src/Template/Meaning.antt =====
-- What a template means.
use iac.Prelude.{
  ℕ, zero, suc, ◌<◌, ◌≡◌, ◌⊎◌, refl, ap, sym, ◌∙◌, inl, inr, true, false, ◌&&◌, Option, none, some,
  String, ◌==◌, arith, Bool-cases, Option-cases,
}
use Prim.Native.Char.{Char, code}
use Prim.Native.String.{◌++◌}
use text.Mathlib.TextEquality.{Char-path}
use text.Mathlib.TextLemmas.{nil-append, cons-append, append_assoc}
use iac.Template.{
  TemplateError, unterminated, not_scalar, Result, ok, err, ◌>>=◌, opens, rest_of, find_pair, trim,
  chars, render_from, render,
}

-- A template is text with references, each between two pairs of braces; its end may be an opening
-- pair that is never closed.
pub data Template : Type 0 where
  plain : String → Template
  unclosed : String → String → Template
  reference : String → String → Template → Template

-- The character twice, before a text.
abbrev pub twice : Char → String → String
twice c s = String.◌∷◌ c (String.◌∷◌ c s)

abbrev pub print : Template → String
print (plain s) = s
print (unclosed s t) = s ++ twice "{" t
print (reference s raw t) = s ++ twice "{" (raw ++ twice "}" (print t))

-- No text holds a pair that would open or close earlier than the template says.
abbrev pub IsClear : Template → Type 0
IsClear (plain s) = find_pair "{" s ≡ none
IsClear (unclosed s t) = (find_pair "{" (s ++ "{") ≡ none) × (find_pair "}" t ≡ none)
IsClear (reference s raw t) =
    (find_pair "{" (s ++ "{") ≡ none) × (find_pair "}" (raw ++ "}") ≡ none) × IsClear t

module _ (lookup : String → Result (Option String)) where
  -- Each reference stands for the value of its trimmed name; the first that has none decides the
  -- error.
  abbrev pub meaning : Template → Result String
  meaning (plain s) = ok s
  meaning (unclosed s t) = err unterminated
  meaning (reference s raw t) =
      let rest = meaning t in
      lookup (trim raw) >>= λ found. elim found [
        | none ↦ err (not_scalar (trim raw))
        | some v ↦ rest >>= λ r. ok (s ++ (v ++ r))
      ]

-- The cases of a search that finds a pair.
find_pair-cases :
    (c d : Char) (s a b : String)
    → find_pair c (String.◌∷◌ d s) ≡ some (a, b)
    → ((code d ≡ code c) × (opens c s ≡ true) × (a ≡ "") × (b ≡ rest_of s))
      ⊎ ((a' : String) × (a ≡ String.◌∷◌ d a')
          × (find_pair c s ≡ some (a', b))
          × ((code d == code c && opens c s) ≡ false))
unfolding find_pair
find_pair-cases c d s a b h = elim (Bool-cases (code d == code c && opens c s)) [
  | inl e ↦ inl (ground (arith, e), ground (arith, e), ground (arith, e, h), ground (arith, e, h))
  | inr e ↦ elim (Option-cases (find_pair c s)) [
    | inl n ↦ absurd (ground (arith, e, n, h))
    | inr ((a', b'), f) ↦ inr (a', ground (arith, e, f, h), ground (arith, e, f, h), e)
  ]
]

opens-twice :
    (c d : Char) (s : String)
    → code d ≡ code c
    → opens c s ≡ true
    → String.◌∷◌ d s ≡ twice c (rest_of s)
opens-twice c d String.[] e o = cc
opens-twice c d (String.◌∷◌ f s) e o = rw (Char-path d c e, Char-path f c (ground (arith, o))) refl

find_pair-back : (c : Char) (s a b : String) → find_pair c s ≡ some (a, b) → a ++ twice c b ≡ s
unfolding find_pair
find_pair-back c String.[] a b h = cc
find_pair-back c (String.◌∷◌ d s) a b h = elim (find_pair-cases c d s a b h) [
  | inl (e, o, p, q) ↦ rw (p, q, nil-append (twice c (rest_of s))) (sym (opens-twice c d s e o))
  | inr (a', p, f, n) ↦
      rw (p, cons-append d a' (twice c b)) (ap (λ t. String.◌∷◌ d t) (find_pair-back c s a' b f))
]

find_pair-shorter : (c : Char) (s a b : String) → find_pair c s ≡ some (a, b) → chars b < chars s
unfolding find_pair
find_pair-shorter c String.[] a b h = absurd (ground (arith, h))
find_pair-shorter c (String.◌∷◌ d s) a b h = elim (find_pair-cases c d s a b h) [
  | inl (e, o, p, q) ↦ rw q (shorter s)
  | inr (a', p, f, n) ↦ omega (arith, find_pair-shorter c s a' b f)
]
  where
    shorter : (t : String) → chars (rest_of t) < suc (chars t)
    shorter String.[] = omega arith
    shorter (String.◌∷◌ e t) = omega arith

opens-append :
    (c : Char) (a x y : String) → opens c (a ++ String.◌∷◌ c x) ≡ opens c (a ++ String.◌∷◌ c y)
opens-append c String.[] x y = rw (nil-append (String.◌∷◌ c x), nil-append (String.◌∷◌ c y)) refl
opens-append c (String.◌∷◌ d a) x y =
    rw (cons-append d a (String.◌∷◌ c x), cons-append d a (String.◌∷◌ c y)) refl

-- Nothing before the pair holds another, not even with the first character of the pair.
find_pair-clear :
    (c : Char) (s a b : String)
    → find_pair c s ≡ some (a, b)
    → find_pair c (a ++ String.◌∷◌ c "") ≡ none
unfolding find_pair
find_pair-clear c String.[] a b h = cc
find_pair-clear c (String.◌∷◌ d s) a b h = elim (find_pair-cases c d s a b h) [
  | inl (e, o, p, q) ↦ rw (p, nil-append (String.◌∷◌ c "")) (ground arith)
  | inr (a', p, f, n) ↦
      let same = opens-append c a' "" (String.◌∷◌ c b) ∙ ap (opens c) (find_pair-back c s a' b f) in
      let rest = find_pair-clear c s a' b f in
      rw (p, cons-append d a' (String.◌∷◌ c "")) (ground (arith, n, same, rest))
]

prefixed : String → Result String → Result String
prefixed out (ok r) = ok (out ++ r)
prefixed out (err e) = err e

prefixed_on :
    (out before v : String) (m : Result String)
    → prefixed ((out ++ before) ++ v) m ≡ prefixed out (m >>= λ r. ok (before ++ (v ++ r)))
unfolding prefixed
prefixed_on out before v (err e) = refl
prefixed_on out before v (ok r) =
    ap ok (append_assoc (out ++ before) v r ∙ append_assoc out before (v ++ r))

prefixed_nothing : (m : Result String) → prefixed "" m ≡ m
unfolding prefixed
prefixed_nothing (err e) = refl
prefixed_nothing (ok r) = ap ok (nil-append r)

Result-cases :
    {A : Type 0} (r : Result A) → ((e : TemplateError) × (r ≡ err e)) ⊎ ((a : A) × (r ≡ ok a))
Result-cases (err e) = inl (e, refl)
Result-cases (ok a) = inr (a, refl)

module _ (lookup : String → Result (Option String)) where
  -- What the loop makes of the rest: a template that is printed as the rest, and its meaning.
  record Means (fuel : ℕ) (out rest : String) : Type 0 where
    template : Template
    printed : print template ≡ rest
    clear : IsClear template
    rendered : render_from lookup fuel out rest ≡ prefixed out (meaning lookup template)

  render_from-Means : (fuel : ℕ) (out rest : String) → chars rest < fuel → Means fuel out rest
  unfolding render_from prefixed
  render_from-Means zero out rest h = absurd (omega arith)
  render_from-Means (suc fuel) out rest h = elim (Option-cases (find_pair "{" rest)) [
    | inl n ↦ record {
      template = plain rest;
      printed = refl;
      clear = n;
      rendered = rw (render_from, n) refl;
    }
    | inr ((before, after), e) ↦ elim (Option-cases (find_pair "}" after)) [
      | inl n ↦ record {
        template = unclosed before after;
        printed = find_pair-back "{" rest before after e;
        clear = (find_pair-clear "{" rest before after e, n);
        rendered = rw (render_from, e, n) refl;
      }
      | inr ((raw, rest'), f) ↦
          let shorter : chars rest' < fuel = omega (
            arith,
            find_pair-shorter "{" rest before after e,
            find_pair-shorter "}" after raw rest' f,
          ) in
          let built : Template → Template = reference before raw in
          let shown : (t : Template) → print t ≡ rest' → print (built t) ≡ rest = λ t g.
            ap (λ x. before ++ twice "{" (raw ++ twice "}" x)) g
            ∙ (ap (λ x. before ++ twice "{" x) (find_pair-back "}" after raw rest' f)
                ∙ find_pair-back "{" rest before after e) in
          let clear_before = find_pair-clear "{" rest before after e in
          let clear_raw = find_pair-clear "}" after raw rest' f in
          elim (Result-cases (lookup (trim raw))) [
            | inl (x, g) ↦
                let m = render_from-Means fuel "" rest' shorter in
                record {
                  template = built m.template;
                  printed = shown m.template m.printed;
                  clear = (clear_before, clear_raw, m.clear);
                  rendered = rw (render_from, e, f, g) refl;
                }
            | inr (none, g) ↦
                let m = render_from-Means fuel "" rest' shorter in
                record {
                  template = built m.template;
                  printed = shown m.template m.printed;
                  clear = (clear_before, clear_raw, m.clear);
                  rendered = rw (render_from, e, f, g) refl;
                }
            | inr (some v, g) ↦
                let m = render_from-Means fuel ((out ++ before) ++ v) rest' shorter in
                record {
                  template = built m.template;
                  printed = shown m.template m.printed;
                  clear = (clear_before, clear_raw, m.clear);
                  rendered =
                      rw (render_from, e, f, g)
                        (m.rendered ∙ prefixed_on out before v (meaning lookup m.template));
                }
          ]
    ]
  ]

  -- Every text is the print of a template whose parts hold no pair of braces that would open or close
  -- earlier, and rendering the text gives what that template means: the text with each reference
  -- replaced by the value of its trimmed name, or the error of the first reference that has no scalar
  -- value, or, after those, that the last opening pair is never closed.
  pub render-meaning :
      (input : String)
      → (t : Template) × (print t ≡ input) × IsClear t × (render lookup input ≡ meaning lookup t)
  unfolding render
  render-meaning input =
      let m = render_from-Means (suc (chars input)) "" input (omega arith) in
      (m.template, m.printed, m.clear, m.rendered ∙ prefixed_nothing (meaning lookup m.template))
