-- ===== src/Prelude/Results.antt =====
-- The control plane's error values, and the monad of its fallible handlers.
use Prim.Native.Nat.{ℕ}
use mathlib.Core.Path.{◌≡◌, refl}
use mathlib.Core.Bool.{Bool, true, false}
use mathlib.Core.Option.{Option, none, some}
use Prim.Native.String.{String}

-- error.rs: the identity of the bucket that refused a request.
pub record RateLimitBucket : Type 0 where
  pub type : String
  pub name : String

-- error.rs: `ApiError` without the variants that wrap a driver's error.
pub data ApiError : Type 0 where
  not_found unauthorized forbidden payload_too_large json_error database_error : ApiError
  conflict bad_request internal : String → ApiError
  too_many_requests : (bucket : RateLimitBucket) (retry_after_secs : ℕ) → ApiError
  service_unavailable : (reason : String) (retry_after_secs : ℕ) → ApiError

-- `Result<T, ApiError>`.
pub data ApiResult {κ} (T : Type κ) : Type κ where
  err : (reason : ApiError) → ApiResult T
  ok : (value : T) → ApiResult T

-- `ok_or`, as of an `Option`.
abbrev pub ok_or {κ} : {T : Type κ} → Option T → ApiError → ApiResult T
ok_or (some value) reason = ok value
ok_or none reason = err reason

-- `?`: an error ends the handler.
infixl 5 ◌>>=◌ ◌>>◌
abbrev pub ◌>>=◌ {κ μ} : {T : Type κ} {U : Type μ} → ApiResult T → (T → ApiResult U) → ApiResult U
err reason >>= next = err reason
ok value >>= next = next value

abbrev pub ◌>>◌ {μ} : {U : Type μ} → ApiResult (Unit {0}) → ApiResult U → ApiResult U
err reason >> next = err reason
ok value >> next = next

-- An early return of an error unless the test holds.
abbrev pub guard : Bool → ApiError → ApiResult (Unit {0})
guard false reason = err reason
guard true reason = ok tt

-- A handler that succeeds has got past each of its steps.
pub >>=-eq-ok {κ μ} :
    {T : Type κ} {U : Type μ} (step : ApiResult T) (next : T → ApiResult U) {out : U}
    → (step >>= next) ≡ ok out
    → (value : T) × (step ≡ ok value) × (next value ≡ ok out)
>>=-eq-ok (err reason) next h = cc
>>=-eq-ok (ok value) next h = (value, refl, h)

pub ok-injective {ℓ} : {A : Type ℓ} {a b : A} → ok a ≡ ok b → a ≡ b
ok-injective h = cc

-- A guard that lets a chain go on held.
pub guard-ok {ℓ} :
    {A : Type ℓ} (t : Bool) (e : ApiError) (m : ApiResult A) {a : A}
    → (guard t e >> m) ≡ ok a
    → (t ≡ true) × (m ≡ ok a)
guard-ok true e m h = (refl, h)
guard-ok false e m h = cc
