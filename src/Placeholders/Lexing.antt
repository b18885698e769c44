-- ===== src/Placeholders/Lexing.antt =====
-- The translation of placeholders, against a lexer that reads one character after another.
use iac.Prelude.{
  ℕ, zero, suc, ◌+◌, ◌%◌, ◌^◌, ◌<◌, ◌≤◌, ◌≡◌, refl, ap, sym, ◌∙◌, inl, inr, ◌&&◌, String, ◌==◌,
  if◌then◌else◌, arith, Bool-cases,
}
use Prim.Native.Char.{Char, code}
use Prim.Native.String.{◌++◌}
use text.Mathlib.TextLemmas.{nil-append, cons-append, append-nil, append_assoc}
use iac.Template.{chars, opens}
use iac.Placeholders.{
  Dialect, Turn, take_literal, take_comment, translate_turn, translate_loop,
  translate_placeholders_to_pg, sql,
}

-- A doubled quote needs no mode: it leaves the literal and enters it again.
pub data Mode : Type 0 where
  query literal comment : Mode

push-append : (c : Char) (s : String) → String.◌∷◌ c "" ++ s ≡ String.◌∷◌ c s
push-append c s = cons-append c "" s ∙ ap (λ t. String.◌∷◌ c t) (nil-append s)

module _ (decimal : ℕ → String) where
  -- The count is that of the placeholders so far.
  abbrev pub numbered : Mode → ℕ → String → String
  numbered mode n String.[] = ""
  numbered Mode.literal n (String.◌∷◌ c s) =
      String.◌∷◌ c
        (if code c == code "'" then numbered Mode.query n s else numbered Mode.literal n s)
  numbered Mode.comment n (String.◌∷◌ c s) =
      String.◌∷◌ c
        (if code c == code "\n" then numbered Mode.query n s else numbered Mode.comment n s)
  numbered Mode.query n (String.◌∷◌ c s) =
      if code c == code "'"
      then String.◌∷◌ c (numbered Mode.literal n s)
      else if code c == code "-" && opens "-" s
      then String.◌∷◌ c (numbered Mode.comment n s)
      else if code c == code "?"
      then String.◌∷◌ "$" (decimal (n + 1) ++ numbered Mode.query (n + 1) s)
      else String.◌∷◌ c (numbered Mode.query n s)

  numbered-comment :
      (n : ℕ) (s : String)
      → numbered Mode.comment n s ≡ (take_comment s).0 ++ numbered Mode.query n (take_comment s).1
  unfolding take_comment
  numbered-comment n String.[] = refl
  numbered-comment n (String.◌∷◌ c s) = elim (Bool-cases (code c == code "\n")) [
    | inl e ↦ rw e (sym (push-append c (numbered Mode.query n s)))
    | inr e ↦ rw e (
        ap (λ t. String.◌∷◌ c t) (numbered-comment n s)
        ∙ sym (cons-append c (take_comment s).0 (numbered Mode.query n (take_comment s).1)))
  ]

  numbered-literal :
      (n : ℕ) (s : String)
      → numbered Mode.literal n s ≡ (take_literal s).0 ++ numbered Mode.query n (take_literal s).1
  unfolding take_literal
  numbered-literal n String.[] = refl
  numbered-literal n (String.◌∷◌ c String.[]) = elim (Bool-cases (code c == code "'")) [
    | inl e ↦ rw e (sym (push-append c ""))
    | inr e ↦ rw e (sym (push-append c ""))
  ]
  numbered-literal n (String.◌∷◌ c (String.◌∷◌ d s)) = elim (Bool-cases (code c == code "'")) [
    | inl e ↦ elim (Bool-cases (code d == code "'")) [
      | inl f ↦
          rw (e, f)
            (ap (λ t. String.◌∷◌ c (String.◌∷◌ d t)) (numbered-literal n s)
              ∙ sym (cons-append c _ _ ∙ ap (λ t. String.◌∷◌ c t) (cons-append d _ _)))
      | inr f ↦
          let left : numbered Mode.literal n (String.◌∷◌ c (String.◌∷◌ d s))
              ≡ String.◌∷◌ c (numbered Mode.query n (String.◌∷◌ d s)) =
            rw (numbered, e) refl in
          let taken : take_literal (String.◌∷◌ c (String.◌∷◌ d s))
              ≡ (String.◌∷◌ c "", String.◌∷◌ d s) =
            rw (take_literal, e, f) refl in
          left ∙ rw taken (sym (push-append c (numbered Mode.query n (String.◌∷◌ d s))))
    ]
    | inr e ↦
        rw e
          (ap (λ t. String.◌∷◌ c t) (numbered-literal n (String.◌∷◌ d s)) ∙ sym (cons-append c _ _))
  ]

take_comment-shorter : (s : String) → chars (take_comment s).1 ≤ chars s
unfolding take_comment
take_comment-shorter String.[] = omega arith
take_comment-shorter (String.◌∷◌ c s) = elim (Bool-cases (code c == code "\n")) [
  | inl e ↦ rw e (omega arith)
  | inr e ↦ rw e (omega (arith, take_comment-shorter s))
]

take_literal-shorter : (s : String) → chars (take_literal s).1 ≤ chars s
unfolding take_literal
take_literal-shorter String.[] = omega arith
take_literal-shorter (String.◌∷◌ c String.[]) = omega arith
take_literal-shorter (String.◌∷◌ c (String.◌∷◌ d s)) = elim (Bool-cases (code c == code "'")) [
  | inl e ↦ elim (Bool-cases (code d == code "'")) [
    | inl f ↦ rw (e, f) (omega (arith, take_literal-shorter s))
    | inr f ↦ rw (e, f) (omega arith)
  ]
  | inr e ↦ rw e (omega (arith, take_literal-shorter (String.◌∷◌ d s)))
]

by_way_of : {a c : String} (b : String) → a ≡ b → b ≡ c → a ≡ c
by_way_of b p q = p ∙ q

module _ (decimal : ℕ → String) where
  -- A turn of the loop, against the lexer.
  record Lexed (n : ℕ) (c : Char) (s : String) (t : Turn) : Type 0 where
    text :
        numbered decimal Mode.query n (String.◌∷◌ c s)
        ≡ t.pushed ++ numbered decimal Mode.query t.counter t.rest
    shorter : chars t.rest ≤ chars s
    counted : t.counter ≤ n + 1

  translate_turn-Lexed :
      (n : ℕ) (c : Char) (s : String) → n + 1 < 2 ^ 32 → Lexed n c s (translate_turn decimal n c s)
  unfolding translate_turn
  translate_turn-Lexed n c s small = elim (Bool-cases (code c == code "'")) [
    | inl e ↦ rw e (record {
      text =
          by_way_of (String.◌∷◌ c (numbered decimal Mode.literal n s)) (rw (numbered, e) refl)
            (ap (λ t. String.◌∷◌ c t) (numbered-literal decimal n s) ∙ sym (cons-append c _ _));
      shorter = take_literal-shorter s;
      counted = omega arith;
    })
    | inr e ↦ elim (Bool-cases (code c == code "-" && opens "-" s)) [
      | inl f ↦
          rw (e, f)
            (record {
              text =
                  by_way_of (String.◌∷◌ c (numbered decimal Mode.comment n s))
                    (rw (numbered, e, f) refl)
                    (ap (λ t. String.◌∷◌ c t) (numbered-comment decimal n s)
                      ∙ sym (cons-append c _ _));
              shorter = take_comment-shorter s;
              counted = omega arith;
            })
      | inr f ↦ elim (Bool-cases (code c == code "?")) [
        | inl g ↦
            let exact : (n + 1) % 2 ^ 32 ≡ n + 1 = omega (arith, small) in
            rw (e, f, g, exact)
              (record {
                text =
                    by_way_of
                      (String.◌∷◌ "$" (decimal (n + 1) ++ numbered decimal Mode.query (n + 1) s))
                      (rw (numbered, e, f, g) refl) (sym (cons-append "$" _ _));
                shorter = omega arith;
                counted = omega arith;
              })
        | inr g ↦
            rw (e, f, g)
              (record {
                text =
                    by_way_of (String.◌∷◌ c (numbered decimal Mode.query n s))
                      (rw (numbered, e, f, g) refl) (sym (push-append c _));
                shorter = omega arith;
                counted = omega arith;
              })
      ]
    ]
  ]

  translate_loop-numbered :
      (fuel n : ℕ) (out rest : String)
      → chars rest < fuel
      → n + chars rest < 2 ^ 32
      → translate_loop decimal fuel n out rest ≡ out ++ numbered decimal Mode.query n rest
  unfolding translate_loop
  translate_loop-numbered zero n out rest enough small = absurd (omega (arith, enough))
  translate_loop-numbered (suc fuel) n out String.[] enough small = sym (append-nil out)
  translate_loop-numbered (suc fuel) n out (String.◌∷◌ c s) enough small =
      let t = translate_turn decimal n c s in
      let l = translate_turn-Lexed n c s (omega (arith, small)) in
      translate_loop-numbered fuel t.counter (out ++ t.pushed) t.rest
        (omega (arith, enough, l.shorter)) (omega (arith, small, l.shorter, l.counted))
      ∙ (append_assoc out t.pushed _ ∙ ap (λ x. out ++ x) (sym l.text))

  -- For Postgres, a text of less than 2 ^ 32 characters becomes the one in which each `?` outside of
  -- a literal and of a comment is replaced by `$` and its number, from 1 on in their order, and
  -- nothing else is changed.
  pub sql-numbered :
      (text : String)
      → chars text < 2 ^ 32
      → sql decimal Dialect.postgres text ≡ numbered decimal Mode.query 0 text
  unfolding sql translate_placeholders_to_pg
  sql-numbered text small =
      translate_loop-numbered (suc (chars text)) 0 "" text (omega arith) (omega (arith, small))
      ∙ nil-append (numbered decimal Mode.query 0 text)
