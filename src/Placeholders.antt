-- ===== src/Placeholders.antt =====
-- crates/iac-controlplane/src/store.rs: the translation of `?` to `$1`, `$2`, … that every query
-- passes for Postgres. The decimal text of a u32 is the parameter `decimal`.
pub mod Lexing
use iac.Prelude.{ℕ, zero, suc, ◌+◌, ◌%◌, ◌^◌, ◌&&◌, Bool, String, ◌==◌, if◌then◌else◌}
use Prim.Native.Char.{Char, code}
use Prim.Native.String.{◌++◌}
use iac.Template.{chars, opens}

pub data Dialect : Type 0 where
  sqlite postgres : Dialect

-- The output of a loop grows by a character.
abbrev pub push : Char → String × String → String × String
push c (out, rest) = (String.◌∷◌ c out, rest)

-- What the loop of a literal takes, after its opening quote, and what it leaves.
unfoldable pub take_literal : String → String × String
take_literal String.[] = ("", "")
take_literal (String.◌∷◌ c2 String.[]) = (String.◌∷◌ c2 "", "")
take_literal (String.◌∷◌ c2 (String.◌∷◌ c3 s)) =
    if code c2 == code "'"
    then (if code c3 == code "'"
        then push c2 (push c3 (take_literal s))
        else (String.◌∷◌ c2 "", String.◌∷◌ c3 s))
    else push c2 (take_literal (String.◌∷◌ c3 s))

-- What the loop of a comment takes, after its first dash, and what it leaves.
unfoldable pub take_comment : String → String × String
take_comment String.[] = ("", "")
take_comment (String.◌∷◌ c2 s) =
    if code c2 == code "\n" then (String.◌∷◌ c2 "", s) else push c2 (take_comment s)

-- What a turn of the outer loop leaves: the count, what it pushes, and the rest.
pub record Turn : Type 0 where
  pub counter : ℕ
  pub pushed : String
  pub rest : String

module _ (decimal : ℕ → String) where
  unfoldable pub translate_turn : ℕ → Char → String → Turn
  unfolding take_literal take_comment
  translate_turn counter c s =
      let (literal, after_literal) = take_literal s in
      let (comment, after_comment) = take_comment s in
      let count = (counter + 1) % 2 ^ 32 in
      if code c == code "'"
      then record { counter = counter; pushed = String.◌∷◌ c literal; rest = after_literal }
      else if code c == code "-" && opens "-" s
      then record { counter = counter; pushed = String.◌∷◌ c comment; rest = after_comment }
      else if code c == code "?"
      then record { counter = count; pushed = String.◌∷◌ "$" (decimal count); rest = s }
      else record { counter = counter; pushed = String.◌∷◌ c ""; rest = s }

  unfoldable pub translate_loop : ℕ → ℕ → String → String → String
  unfolding translate_turn
  translate_loop zero counter out rest = out
  translate_loop (suc fuel) counter out String.[] = out
  translate_loop (suc fuel) counter out (String.◌∷◌ c s) =
      let t = translate_turn counter c s in translate_loop fuel t.counter (out ++ t.pushed) t.rest

  unfoldable pub translate_placeholders_to_pg : String → String
  unfolding translate_loop
  translate_placeholders_to_pg text = translate_loop (suc (chars text)) 0 "" text

  unfoldable pub sql : Dialect → String → String
  unfolding translate_placeholders_to_pg
  sql Dialect.sqlite text = text
  sql Dialect.postgres text = translate_placeholders_to_pg text
