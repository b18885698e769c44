-- ===== src/Examples/Services.antt =====
-- The theorems about rate limits, policies and accounts, on small inputs.
use iac.Prelude.{
  inl, ℕ, ◌+◌, ◌≡◌, ◌≢◌, refl, true, Option, none, some, List, [], ◌∷◌, any, String, ApiResult, ok,
  err, RateLimitBucket, arith,
}
use iac.RateLimit.{RateLimiter, check_and_record_keyed_at, check_and_record_policies}
use iac.RateLimit.Window.{queue_of}
use iac.RateLimit.Admission.{check_and_record-Checked, Checked}
use iac.RateLimit.Batch.{check_and_record_policies-Batched, Batched}
use iac.Policy.{Policy, OperationFacts, evaluate}
use iac.Policy.Growth.{evaluate-grown, grown}
use iac.Users.{
  viewer, operator, admin, Accounts, User, UserToken, user_record, disable_user, refresh_user_token,
  find_user_by_token,
}
use iac.Users.Admins.{run, run-HasAdmin, HasAdmin, disables, updates_roles}
use iac.Fleet.{AgentRow, AgentKind, AgentHealth, AgentCredentials, Fleet, rotate_agent_token}
use iac.Fleet.Login.{Rotated, rotate_agent_token-Rotated}
use iac.Users.Tokens.{old_tokens-logged_out}

abbrev limiter : RateLimiter
limiter = record {
  caps = record {
    max_per_minute = 2;
    agent_max_per_minute = 0;
    login_user_max_per_minute = 0;
    login_ip_max_per_minute = 0;
    register_ip_max_per_minute = 0;
  };
  state = ("env:prod", 10_000_000_000 ∷ 70_000_000_000 ∷ []) ∷ [];
  checks_total = 0;
  rejected_total = 0;
}

abbrev prod : RateLimitBucket
prod = record { type = "env"; name = "prod" }

abbrev now : ℕ
now = 80_000_000_000

check_and_record-Checked_example :
    Checked prod 2 now limiter
      (check_and_record_keyed_at prod 2 now limiter).0
      (check_and_record_keyed_at prod 2 now limiter).1
unfolding queue_of
check_and_record-Checked_example =
    check_and_record-Checked prod 2 now limiter
      (omega arith, (omega arith, tt), (omega arith, tt, tt))

abbrev charged : List (String × ℕ)
charged = ("guarded", 1) ∷ ("slow", 5) ∷ []

check_and_record_policies-Batched_example :
    Batched charged now limiter
      (check_and_record_policies charged now limiter).0
      (check_and_record_policies charged now limiter).1
check_and_record_policies-Batched_example = check_and_record_policies-Batched charged now limiter

abbrev large : Policy
large = record {
  name = "large";
  matching = record { environment = some "prod"; kind = none; resource_count_min = some 2 };
  requires_approval = true;
  approvers = [];
  rate_limit_per_minute = none;
}

abbrev facts : OperationFacts
facts = record { environment = "prod"; resources = "File" ∷ "Service" ∷ [] }

evaluate-grown_example :
    any (λ p. p.requires_approval) (evaluate (large ∷ []) (grown facts ("File" ∷ []))) ≡ true
unfolding evaluate
evaluate-grown_example =
    evaluate-grown (λ p. p.requires_approval) (large ∷ []) facts ("File" ∷ []) refl

abbrev root_user : User
root_user = record {
  id = 1;
  username = "root";
  password_hash = "x";
  roles = admin ∷ [];
  created_at = 0;
  disabled_at = none;
}

abbrev ada : User
ada = record {
  id = 2;
  username = "ada";
  password_hash = "y";
  roles = operator ∷ [];
  created_at = 0;
  disabled_at = none;
}

abbrev issued : ℕ → ℕ → UserToken
issued hash user_id = record {
  token_hash = hash;
  user_id = user_id;
  issued_at = 0;
  expires_at = 100;
}

abbrev accounts : Accounts
accounts = record { users = root_user ∷ ada ∷ []; tokens = issued 11 1 ∷ issued 12 2 ∷ [] }

abbrev hash : ℕ → ℕ
hash token = token + 10

run-HasAdmin_example : HasAdmin (run accounts (disables 5 1 ∷ updates_roles 2 (viewer ∷ []) ∷ []))
run-HasAdmin_example =
    run-HasAdmin accounts (disables 5 1 ∷ updates_roles 2 (viewer ∷ []) ∷ []) (omega arith)

abbrev left_accounts {ℓ} : {A : Type ℓ} → (A → Accounts) → ApiResult A → Accounts
left_accounts get (ok a) = get a
left_accounts get (err e) = accounts

abbrev without_ada : Accounts
without_ada = left_accounts (λ a. a) (disable_user 50 2 accounts)

old_tokens-logged_out_example : (user_record root_user).id ≢ 2
unfolding disable_user find_user_by_token
old_tokens-logged_out_example =
    old_tokens-logged_out hash 60 1 50 2 "new" "z" accounts without_ada (user_record root_user)
      (inl refl) refl

abbrev fresh_token : ℕ
fresh_token = 3

abbrev refreshed : Accounts
refreshed = left_accounts (λ r. r.0) (refresh_user_token hash 60 2 3 40 accounts)

abbrev agent_row : ℕ → String → String → AgentRow
agent_row id name token_hash = record {
  id = id;
  name = name;
  environment = "prod";
  token_hash = token_hash;
  token_expires_at = none;
  kind = AgentKind.pull;
  registered_at = 1;
  last_heartbeat_at = none;
  last_status = AgentHealth.healthy;
  last_managed = 0;
  last_open_drifts = 0;
}

abbrev two_agents : Fleet
two_agents = record { agents = agent_row 1 "web" "old" ∷ agent_row 2 "db" "key" ∷ []; audit = [] }

abbrev add_secs : ℕ → ℕ → Option ℕ
add_secs now secs = some (now + secs)

abbrev left_fleet : ApiResult (Fleet × AgentCredentials) → Fleet
left_fleet (ok r) = r.0
left_fleet (err e) = two_agents

abbrev with_new_token : Fleet
with_new_token = left_fleet (rotate_agent_token (λ s. s) add_secs "new" 50 1 (some 30) two_agents)

abbrev new_credentials : AgentCredentials
new_credentials = record { agent_id = 1; token = "new"; expires_at = some 80 }

rotate_agent_token-Rotated_example :
    Rotated (λ s. s) add_secs 1 new_credentials two_agents with_new_token
unfolding rotate_agent_token
rotate_agent_token-Rotated_example =
    rotate_agent_token-Rotated (λ s. s) add_secs "new" 50 1 (some 30) two_agents with_new_token
      new_credentials refl
