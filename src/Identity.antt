-- ===== src/Identity.antt =====
-- crates/iac-core/src/id.rs: the identity of a resource, its text and its key in the file system.
-- `sha256_hex` is the parameter `digest`.
pub mod RoundTrip
pub mod Keys
use iac.Prelude.{
  ℕ, zero, suc, Bool, true, false, not, ◌&&◌, ◌||◌, Option, none, some, List, [], ◌∷◌, String, ◌==◌,
  leb, if◌then◌else◌,
}
use Prim.Native.Char.{Char, code}
use Prim.Native.String.{◌++◌}

pub record ResourceId : Type 0 where
  pub kind : String
  pub environment : String
  pub name : String

abbrev pub slash : ℕ
slash = 0x2F

abbrev pub is_empty : String → Bool
is_empty String.[] = true
is_empty (String.◌∷◌ c s) = false

-- What stands before the first separator, and what stands after it.
abbrev pub split_once : ℕ → String → Option (String × String)
split_once sep String.[] = none
split_once sep (String.◌∷◌ c s) =
    if code c == sep
    then some ("", s)
    else elim (split_once sep s) [ none ↦ none | some (a, b) ↦ some (String.◌∷◌ c a, b) ]

-- `str::splitn` with a character: at most n pieces, the last of which is not split.
abbrev pub splitn : ℕ → ℕ → String → List String
splitn zero sep s = []
splitn (suc zero) sep s = s ∷ []
splitn (suc (suc n)) sep s = elim (split_once sep s) [
  | none ↦ s ∷ []
  | some (a, b) ↦ a ∷ splitn (suc n) sep b
]

unfoldable pub display : ResourceId → String
display id = id.kind ++ ("/" ++ (id.environment ++ ("/" ++ id.name)))

-- The three pieces are there, and none is empty.
of_parts : List String → Option ResourceId
of_parts (kind ∷ environment ∷ name ∷ []) =
    if is_empty kind || is_empty environment || is_empty name
    then none
    else some (record { kind = kind; environment = environment; name = name })
of_parts _ = none

unfoldable pub parse : String → Option ResourceId
unfolding of_parts
parse s = of_parts (splitn 3 slash s)

-- `is_ascii_alphanumeric`, and the two other characters that are kept.
abbrev pub is_kept : ℕ → Bool
is_kept c =
    (leb 0x30 c && leb c 0x39)
    || (leb 0x41 c && leb c 0x5A)
    || (leb 0x61 c && leb c 0x7A)
    || c == 0x2D
    || c == 0x2E

unfoldable pub sanitize : String → String
sanitize String.[] = ""
sanitize (String.◌∷◌ c s) = String.◌∷◌ (if is_kept (code c) then c else "_") (sanitize s)

-- The first characters of a text.
abbrev pub take : ℕ → String → String
take zero s = ""
take (suc n) String.[] = ""
take (suc n) (String.◌∷◌ c s) = String.◌∷◌ c (take n s)

module _ (digest : String → String) where
  unfoldable pub fs_key : ResourceId → String
  unfolding sanitize
  fs_key id =
      sanitize id.kind
      ++ ("__"
          ++ (sanitize id.environment
              ++ ("__"
                  ++ (sanitize id.name
                      ++ ("__"
                          ++ take 12 (
                              digest
                                (id.kind ++ ("\0" ++ (id.environment ++ ("\0" ++ id.name))))))))))
