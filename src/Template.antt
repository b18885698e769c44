-- ===== src/Template.antt =====
-- crates/iac-core/src/template.rs: the scan that puts values in the place of `{{ name }}`, and the
-- scope of a JSON object. The text of a JSON number is the parameter `number_text`.
pub mod Meaning
use iac.Prelude.{
  ℕ, zero, suc, Bool, true, false, ◌&&◌, Option, none, some, String, ◌==◌, if◌then◌else◌,
  is_whitespace,
}
use Prim.Native.Char.{Char, code}
use Prim.Native.String.{◌++◌}
use iac.Json.{Value, Number, Fields, null, bool, number, string, array, object, get_field}

pub data TemplateError : Type 0 where
  unterminated : TemplateError
  missing_key not_scalar : String → TemplateError

pub data Result {κ} (T : Type κ) : Type κ where
  err : (error : TemplateError) → Result T
  ok : (value : T) → Result T

infixl 5 ◌>>=◌
abbrev pub ◌>>=◌ {κ μ} : {T : Type κ} {U : Type μ} → Result T → (T → Result U) → Result U
err error >>= next = err error
ok value >>= next = next value

abbrev pub opens : Char → String → Bool
opens c String.[] = false
opens c (String.◌∷◌ d s) = code d == code c

abbrev pub rest_of : String → String
rest_of String.[] = ""
rest_of (String.◌∷◌ d s) = s

abbrev with_first : Char → Option (String × String) → Option (String × String)
with_first d none = none
with_first d (some (a, b)) = some (String.◌∷◌ d a, b)

-- `find` of a character twice in a row: what stands before the first such pair, and after it.
unfoldable pub find_pair : Char → String → Option (String × String)
find_pair c String.[] = none
find_pair c (String.◌∷◌ d s) =
    if code d == code c && opens c s then some ("", rest_of s) else with_first d (find_pair c s)

trim_start : String → String
trim_start String.[] = ""
trim_start (String.◌∷◌ d s) = if is_whitespace (code d) then trim_start s else String.◌∷◌ d s

trim_end : String → String
trim_end String.[] = ""
trim_end (String.◌∷◌ d s) = drop_blank d (trim_end s)
  where
    drop_blank : Char → String → String
    drop_blank e String.[] = if is_whitespace (code e) then "" else String.◌∷◌ e ""
    drop_blank e (String.◌∷◌ f t) = String.◌∷◌ e (String.◌∷◌ f t)

unfoldable pub trim : String → String
unfolding trim_start trim_end
trim s = trim_end (trim_start s)

abbrev pub chars : String → ℕ
chars String.[] = 0
chars (String.◌∷◌ d s) = suc (chars s)

module _ (lookup : String → Result (Option String)) where
  -- The loop, with the output so far. Each turn takes a pair off the rest.
  unfoldable pub render_from : ℕ → String → String → Result String
  unfolding find_pair trim
  render_from zero out rest = ok (out ++ rest)
  render_from (suc fuel) out rest = elim (find_pair "{" rest) [
    | none ↦ ok (out ++ rest)
    | some (before, after) ↦ elim (find_pair "}" after) [
      | none ↦ err unterminated
      | some (raw, rest') ↦ lookup (trim raw) >>= λ found. elim found [
        | none ↦ err (not_scalar (trim raw))
        | some s ↦ render_from fuel ((out ++ before) ++ s) rest'
      ]
    ]
  ]

  unfoldable pub render : String → Result String
  unfolding render_from
  render template = render_from (suc (chars template)) "" template

module _ (number_text : Number → String) where
  scalar : Value → Result (Option String)
  scalar (string s) = ok (some s)
  scalar (number n) = ok (some (number_text n))
  scalar (bool b) = ok (some (if b then "true" else "false"))
  scalar null = ok (some "")
  scalar (array items) = ok none
  scalar (object fields) = ok none

  lookup_in : Fields → String → Result (Option String)
  unfolding scalar
  lookup_in vars key = elim (get_field key vars) [
    | none ↦ err (missing_key key)
    | some v ↦ scalar v
  ]

  unfoldable pub render_json_top_scalars : String → Fields → Result String
  unfolding render lookup_in
  render_json_top_scalars template vars = render (lookup_in vars) template
