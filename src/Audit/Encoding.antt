-- ===== src/Audit/Encoding.antt =====
-- What the bytes of a row's hash determine.
use iac.Prelude.{
  ℕ, zero, suc, ◌*◌, ◌/◌, ◌%◌, ◌^◌, ◌<◌, ◌≡◌, ◌≢◌, ◌⊎◌, refl, sym, subst, ap, ◌∙◌, inl, inr, Option,
  none, some, [], ◌∷◌, ◌++◌, length, arith,
}
use iac.Audit.{
  Bytes, to_be_bytes, write_field, write_optional_str, write_optional_id, write_fields,
  AuditRowInputs, compute_audit_row_hash,
}
use mathlib.Core.List.{append_assoc, append-nil}
use native.Mathlib.Nat.{pow-suc, div-div-eq-div-mul, div-eq_of_lt}

cons-injective : {x y : ℕ} {xs ys : Bytes} → x ∷ xs ≡ y ∷ ys → (x ≡ y) × (xs ≡ ys)
cons-injective h = (cc, cc)

-- Texts of one length at the front of equal byte strings are equal.
prefix-injective :
    (xs ys us vs : Bytes) → length xs ≡ length ys → xs ++ us ≡ ys ++ vs → (xs ≡ ys) × (us ≡ vs)
prefix-injective [] [] us vs n h = (refl, h)
prefix-injective [] (y ∷ ys) us vs n h = absurd (omega arith)
prefix-injective (x ∷ xs) [] us vs n h = absurd (omega arith)
prefix-injective (x ∷ xs) (y ∷ ys) us vs n h =
    let (e, r) = cons-injective h in
    let (es, rest) = prefix-injective xs ys us vs (omega arith) r in (rw (e, es) refl, rest)

-- A quotient from its own quotient and remainder by 256.
quotient_step :
    (k n m : ℕ) → n / (k * 256) ≡ m / (k * 256) → n / k % 256 ≡ m / k % 256 → n / k ≡ m / k
quotient_step k n m q r =
    omega (arith, div-div-eq-div-mul n k 256, div-div-eq-div-mul m k 256, q, r)

to_be_bytes-injective :
    (width n m : ℕ) (us vs : Bytes)
    → n / 256 ^ width ≡ m / 256 ^ width
    → to_be_bytes width n ++ us ≡ to_be_bytes width m ++ vs
    → (n ≡ m) × (us ≡ vs)
unfolding to_be_bytes
to_be_bytes-injective zero n m us vs q h = (omega (arith, q), h)
to_be_bytes-injective (suc width) n m us vs q h =
    let (byte, rest) = cons-injective h in
    to_be_bytes-injective width n m us vs
      (quotient_step (256 ^ width) n m (subst (λ k. n / k ≡ m / k) (pow-suc 256 width) q) byte) rest

abbrev IsWord : ℕ → Type 0
IsWord n = n < 18446744073709551616

word-injective :
    (n m : ℕ) (us vs : Bytes)
    → IsWord n
    → IsWord m
    → to_be_bytes 8 n ++ us ≡ to_be_bytes 8 m ++ vs
    → (n ≡ m) × (us ≡ vs)
word-injective n m us vs p q h =
    to_be_bytes-injective 8 n m us vs (div-eq_of_lt p ∙ sym (div-eq_of_lt q)) h

write_field-injective :
    (xs ys us vs : Bytes)
    → IsWord (length xs)
    → IsWord (length ys)
    → write_field xs ++ us ≡ write_field ys ++ vs
    → (xs ≡ ys) × (us ≡ vs)
unfolding write_field
write_field-injective xs ys us vs p q h =
    let (n, rest) = word-injective (length xs) (length ys) (xs ++ us) (ys ++ vs) p q (
      sym (append_assoc (to_be_bytes 8 (length xs)) xs us)
      ∙ h
      ∙ append_assoc (to_be_bytes 8 (length ys)) ys vs) in
    prefix-injective xs ys us vs n rest

abbrev IsShort : Option Bytes → Type 0
IsShort none = Unit {0}
IsShort (some s) = IsWord (length s)

write_optional_str-injective :
    (x y : Option Bytes) (us vs : Bytes)
    → IsShort x
    → IsShort y
    → write_optional_str x ++ us ≡ write_optional_str y ++ vs
    → (x ≡ y) × (us ≡ vs)
unfolding write_optional_str
write_optional_str-injective none none us vs p q h = (refl, (cons-injective h).1)
write_optional_str-injective none (some s) us vs p q h =
    absurd (omega (arith, (cons-injective h).0))
write_optional_str-injective (some s) none us vs p q h =
    absurd (omega (arith, (cons-injective h).0))
write_optional_str-injective (some s) (some t) us vs p q h =
    let (e, rest) = write_field-injective s t us vs p q (cons-injective h).1 in (ap some e, rest)

abbrev IsShortId : Option ℕ → Type 0
IsShortId none = Unit {0}
IsShortId (some n) = IsWord n

write_optional_id-injective :
    (x y : Option ℕ) (us vs : Bytes)
    → IsShortId x
    → IsShortId y
    → write_optional_id x ++ us ≡ write_optional_id y ++ vs
    → (x ≡ y) × (us ≡ vs)
unfolding write_optional_id
write_optional_id-injective none none us vs p q h = (refl, (cons-injective h).1)
write_optional_id-injective none (some s) us vs p q h = absurd (omega (arith, (cons-injective h).0))
write_optional_id-injective (some s) none us vs p q h = absurd (omega (arith, (cons-injective h).0))
write_optional_id-injective (some s) (some t) us vs p q h =
    let (e, rest) = word-injective s t us vs p q (cons-injective h).1 in (ap some e, rest)

-- Every field is shorter than 2 ^ 64 bytes, and the id is a word.
pub record Fits (r : AuditRowInputs) : Type 0 where
  pub timestamp : IsWord (length r.timestamp)
  pub actor : IsWord (length r.actor)
  pub kind : IsWord (length r.kind)
  pub severity : IsWord (length r.severity)
  pub operation_id : IsShort r.operation_id
  pub agent_id : IsShort r.agent_id
  pub resource_id : IsShort r.resource_id
  pub drift_id : IsShortId r.drift_id
  pub payload_json : IsWord (length r.payload_json)

write_fields-injective :
    (r s : AuditRowInputs) → Fits r → Fits s → write_fields r ≡ write_fields s → r ≡ s
unfolding write_fields
write_fields-injective r s p q h =
    let (timestamp, h1) =
      write_field-injective r.timestamp s.timestamp _ _ p.timestamp q.timestamp h in
    let (actor, h2) = write_field-injective r.actor s.actor _ _ p.actor q.actor h1 in
    let (kind, h3) = write_field-injective r.kind s.kind _ _ p.kind q.kind h2 in
    let (severity, h4) = write_field-injective r.severity s.severity _ _ p.severity q.severity h3 in
    let (operation_id, h5) =
      write_optional_str-injective r.operation_id s.operation_id _ _ p.operation_id q.operation_id
        h4 in
    let (agent_id, h6) =
      write_optional_str-injective r.agent_id s.agent_id _ _ p.agent_id q.agent_id h5 in
    let (resource_id, h7) =
      write_optional_str-injective r.resource_id s.resource_id _ _ p.resource_id q.resource_id h6 in
    let (drift_id, h8) =
      write_optional_id-injective r.drift_id s.drift_id _ _ p.drift_id q.drift_id h7 in
    let (payload_json, done) =
      write_field-injective r.payload_json s.payload_json [] [] p.payload_json q.payload_json
        (append-nil _ ∙ h8 ∙ sym (append-nil _)) in
    λ i. record {
      timestamp = timestamp i;
      actor = actor i;
      kind = kind i;
      severity = severity i;
      operation_id = operation_id i;
      agent_id = agent_id i;
      resource_id = resource_id i;
      drift_id = drift_id i;
      payload_json = payload_json i;
    }

-- If two rows that differ in any field, or the hashes before them, have the same row hash, then two
-- different messages have the same digest. Each field is shorter than 2 ^ 64 bytes, and the two
-- previous hashes are equally long.
pub compute_audit_row_hash-Collides :
    (digest : Bytes → Bytes) (prev prev' : Bytes) (r s : AuditRowInputs)
    → Fits r
    → Fits s
    → length prev ≡ length prev'
    → (prev ≢ prev') ⊎ (r ≢ s)
    → compute_audit_row_hash digest prev 0 r ≡ compute_audit_row_hash digest prev' 0 s
    → (m : Bytes) × (m' : Bytes) × (m ≢ m') × (digest m ≡ digest m')
unfolding compute_audit_row_hash
compute_audit_row_hash-Collides digest prev prev' r s p q n differ h = (
  prev ++ (to_be_bytes 8 0 ++ write_fields r),
  prev' ++ (to_be_bytes 8 0 ++ write_fields s),
  differing differ,
  h,
)
  where
    differing :
        ((prev ≢ prev') ⊎ (r ≢ s))
        → prev ++ (to_be_bytes 8 0 ++ write_fields r) ≢ prev' ++ (to_be_bytes 8 0 ++ write_fields s)
    differing (inl before) e =
        before
          (prefix-injective prev prev' (to_be_bytes 8 0 ++ write_fields r)
            (to_be_bytes 8 0 ++ write_fields s) n e).0
    differing (inr fields) e = fields (
        write_fields-injective r s p q
          (prefix-injective (to_be_bytes 8 0) (to_be_bytes 8 0) (write_fields r) (write_fields s)
            refl
            (prefix-injective prev prev' (to_be_bytes 8 0 ++ write_fields r)
              (to_be_bytes 8 0 ++ write_fields s) n e).1).1)
