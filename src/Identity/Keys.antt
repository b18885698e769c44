-- ===== src/Identity/Keys.antt =====
-- A resource's key names one entry of a directory.
use iac.Prelude.{ℕ, zero, suc, ◌≡◌, refl, inl, inr, false, String, arith, Bool-cases}
use Prim.Native.Char.{code}
use Prim.Native.String.{◌++◌}
use text.Mathlib.TextLemmas.{nil-append, cons-append}
use iac.Identity.{ResourceId, slash, is_kept, sanitize, take, fs_key}
use iac.Identity.RoundTrip.{contains}

contains-append :
    (c : ℕ) (s t : String)
    → contains c s ≡ false
    → contains c t ≡ false
    → contains c (s ++ t) ≡ false
contains-append c String.[] t h k = rw (nil-append t) k
contains-append c (String.◌∷◌ d s) t h k =
    rw (cons-append d s t) (ground (arith, h, contains-append c s t))

contains-sanitize : (s : String) → contains slash (sanitize s) ≡ false
unfolding sanitize
contains-sanitize String.[] = refl
contains-sanitize (String.◌∷◌ c s) = elim (Bool-cases (is_kept (code c))) [
  | inl e ↦ rw e (ground (arith, e, contains-sanitize s))
  | inr e ↦ rw e (contains-sanitize s)
]

contains-take : (n : ℕ) (s : String) → contains slash s ≡ false → contains slash (take n s) ≡ false
contains-take zero s h = refl
contains-take (suc n) String.[] h = refl
contains-take (suc n) (String.◌∷◌ c s) h = ground (arith, h, contains-take n s)

record IsPlain (s : String) : Type 0 where
  plain : contains slash s ≡ false

append-IsPlain : {s t : String} → IsPlain s → IsPlain t → IsPlain (s ++ t)
append-IsPlain {s} {t} p q = record { plain = contains-append slash s t p.plain q.plain }

sanitize-IsPlain : (s : String) → IsPlain (sanitize s)
sanitize-IsPlain s = record { plain = contains-sanitize s }

short-IsPlain : (s : String) → contains slash s ≡ false → IsPlain (take 12 s)
short-IsPlain s h = record { plain = contains-take 12 s h }

separated : {s t : String} → IsPlain s → IsPlain t → IsPlain (s ++ ("__" ++ t))
separated p q = append-IsPlain p (append-IsPlain (record { plain = refl }) q)

-- If no digest holds a slash, no resource's key does, whatever its kind, environment and name are: a
-- key is a single name in its directory.
pub fs_key-plain :
    (digest : String → String) (id : ResourceId)
    → ((s : String) → contains slash (digest s) ≡ false)
    → contains slash (fs_key digest id) ≡ false
unfolding fs_key
fs_key-plain digest id h =
    let named = id.kind ++ ("\0" ++ (id.environment ++ ("\0" ++ id.name))) in
    let key : IsPlain (fs_key digest id) = separated (sanitize-IsPlain id.kind) (
      separated (sanitize-IsPlain id.environment)
        (separated (sanitize-IsPlain id.name) (short-IsPlain (digest named) (h named)))) in
    key.plain
