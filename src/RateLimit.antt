-- ===== src/RateLimit.antt =====
-- crates/iac-controlplane/src/rate_limit.rs: sliding windows of sixty seconds, one for each bucket.
-- An instant is the number of nanoseconds since the clock's origin. A call returns the limiter that
-- it leaves, with its result: a refused call changes the limiter too.
pub mod Window
pub mod Admission
pub mod Batch
use iac.Prelude.{
  ℕ, suc, ◌+◌, ◌-◌, ◌/◌, min, max, Bool, true, false, not, ◌&&◌, Option, none, some, List, [], ◌∷◌,
  ◌++◌, map, String, str_eq, ◌==◌, ltb, leb, if◌then◌else◌, length, keep_if, ApiResult, ok, err,
  ApiError, too_many_requests, RateLimitBucket, is_blank,
}
use Prim.Native.String.{◌++◌ as append}
use Window.{Queues, queue_of, put, prune}

pub record RateLimitConfig : Type 0 where
  pub operations_per_minute : Option ℕ
  pub agent_requests_per_minute : Option ℕ
  pub login_per_minute_per_user : Option ℕ
  pub login_per_minute_per_ip : Option ℕ
  pub register_per_minute_per_ip : Option ℕ

-- `Caps` holds the five atomics; 0 means that the cap is disabled.
pub record Caps : Type 0 where
  pub max_per_minute : ℕ
  pub agent_max_per_minute : ℕ
  pub login_user_max_per_minute : ℕ
  pub login_ip_max_per_minute : ℕ
  pub register_ip_max_per_minute : ℕ

pub record RateLimiter : Type 0 where
  pub caps : Caps
  pub state : Queues
  pub checks_total : ℕ
  pub rejected_total : ℕ

unfoldable pub norm : Option ℕ → ℕ
norm none = 0
norm (some n) = n

unfoldable pub caps_of : RateLimitConfig → Caps
unfolding norm
caps_of cfg = record {
  max_per_minute = norm cfg.operations_per_minute;
  agent_max_per_minute = norm cfg.agent_requests_per_minute;
  login_user_max_per_minute = norm cfg.login_per_minute_per_user;
  login_ip_max_per_minute = norm cfg.login_per_minute_per_ip;
  register_ip_max_per_minute = norm cfg.register_per_minute_per_ip;
}

unfoldable pub from_config : RateLimitConfig → RateLimiter
unfolding caps_of
from_config cfg = record { caps = caps_of cfg; state = []; checks_total = 0; rejected_total = 0 }

-- A reload changes the caps and keeps every window.
unfoldable pub apply_config : RateLimitConfig → RateLimiter → RateLimiter
unfolding caps_of
apply_config cfg l = record l { caps = caps_of cfg }

abbrev pub second : ℕ
second = 1_000_000_000

-- `60u64.saturating_sub(..)` of the whole seconds since the oldest entry, at least 1.
unfoldable pub retry_secs : ℕ → List ℕ → ℕ
retry_secs now [] = max 60 1
retry_secs now (t ∷ q) = max (60 - (now - t) / second) 1

abbrev pub key_of : RateLimitBucket → String
key_of b = append b.type (append ":" b.name)

abbrev pub Outcome : Type 0
Outcome = RateLimiter × ApiResult (Unit {0})

refuse : RateLimitBucket → ℕ → List ℕ → RateLimiter → Outcome
refuse bucket now q l = (
  record l { rejected_total = l.rejected_total + 1 },
  err (too_many_requests bucket (retry_secs now q)),
)

-- The check itself, on the pruned queue `q` of the bucket.
unfoldable pub settle : RateLimitBucket → ℕ → ℕ → List ℕ → RateLimiter → Outcome
unfolding refuse
settle bucket cap now q l =
    let checked = record l {
      checks_total = l.checks_total + 1;
      state = put (key_of bucket) q l.state;
    } in
    if leb cap (length q)
    then refuse bucket now q checked
    else (record checked { state = put (key_of bucket) (q ++ now ∷ []) l.state }, ok tt)

unfoldable pub check_and_record_keyed_at : RateLimitBucket → ℕ → ℕ → RateLimiter → Outcome
unfolding settle
check_and_record_keyed_at bucket cap now l =
    settle bucket cap now (prune now (queue_of (key_of bucket) l.state)) l

unfoldable pub bucket : String → String → RateLimitBucket
bucket type name = record { type = type; name = name }

-- A cap of 0 lets the call pass unchecked.
unfoldable pub limited : ℕ → RateLimitBucket → ℕ → RateLimiter → Outcome
unfolding check_and_record_keyed_at
limited cap b now l = if cap == 0 then (l, ok tt) else check_and_record_keyed_at b cap now l

unfoldable pub check_and_record : String → ℕ → RateLimiter → Outcome
unfolding limited bucket
check_and_record environment now l = limited l.caps.max_per_minute (bucket "env" environment) now l

unfoldable pub check_and_record_agent : String → ℕ → RateLimiter → Outcome
unfolding limited bucket
check_and_record_agent agent_id now l =
    limited l.caps.agent_max_per_minute (bucket "agent" agent_id) now l

unfoldable pub check_and_record_policy : String → ℕ → ℕ → RateLimiter → Outcome
unfolding limited bucket
check_and_record_policy policy_name max_per_minute now l =
    limited max_per_minute (bucket "policy" policy_name) now l

unfoldable pub check_and_record_register : String → ℕ → RateLimiter → Outcome
unfolding limited bucket
check_and_record_register client_ip now l =
    limited l.caps.register_ip_max_per_minute
      (bucket "register_ip" (if is_blank client_ip then "unknown" else client_ip)) now l

-- The second check of a login, unless the first refused.
unfoldable pub then_client : String → ℕ → Outcome → Outcome
unfolding limited bucket
then_client client_ip later (l, ok u) =
    limited l.caps.login_ip_max_per_minute (bucket "client" client_ip) later l
then_client client_ip later (l, err e) = (l, err e)

-- Each check takes its own instant.
unfoldable pub check_and_record_login : String → String → ℕ → ℕ → RateLimiter → Outcome
unfolding limited bucket then_client
check_and_record_login username client_ip now later l =
    then_client client_ip later
      (limited l.caps.login_user_max_per_minute (bucket "login_user" username) now l)

-- The buckets of `check_and_record_policies`: disabled caps are left out.
unfoldable pub active_policies : List (String × ℕ) → List (RateLimitBucket × ℕ)
unfolding bucket
active_policies [] = []
active_policies ((name, cap) ∷ policies) =
    if cap == 0
    then active_policies policies
    else (bucket "policy" name, cap) ∷ active_policies policies

-- The first phase prunes and checks each bucket, and records nothing.
unfoldable pub dry_run : List (RateLimitBucket × ℕ) → ℕ → RateLimiter → Outcome
unfolding refuse
dry_run [] now l = (l, ok tt)
dry_run ((b, cap) ∷ active) now l =
    let q = prune now (queue_of (key_of b) l.state) in
    let checked = record l {
      checks_total = l.checks_total + 1;
      state = put (key_of b) q l.state;
    } in
    let rest = dry_run active now checked in
    if leb cap (length q) then refuse b now q checked else rest

-- The second phase records one hit for each bucket.
unfoldable pub commit : List (RateLimitBucket × ℕ) → ℕ → Queues → Queues
commit [] now state = state
commit ((b, cap) ∷ active) now state =
    commit active now (put (key_of b) (queue_of (key_of b) state ++ now ∷ []) state)

commit_checked : List (RateLimitBucket × ℕ) → ℕ → Outcome → Outcome
unfolding commit
commit_checked active now (l, ok u) = (record l { state = commit active now l.state }, ok tt)
commit_checked active now (l, err e) = (l, err e)

unfoldable pub check_and_record_policies : List (String × ℕ) → ℕ → RateLimiter → Outcome
unfolding dry_run commit_checked active_policies
check_and_record_policies policies now l =
    let active = active_policies policies in commit_checked active now (dry_run active now l)
