-- ===== src/Users.antt =====
-- crates/iac-controlplane/src/store.rs: users and their tokens. A token is the 256-bit number that
-- its text encodes; `hash_token` (SHA-256) and `verify_password` (Argon2) are parameters, a fresh
-- token, a fresh id and a password's hash are arguments, and so is the time.
pub mod Admins
pub mod Tokens
use iac.Prelude.{
  ℕ, ◌+◌, Bool, true, false, not, ◌&&◌, ◌||◌, Option, none, some, List, [], ◌∷◌, ◌++◌, String,
  str_eq, ◌==◌, ltb, leb, if◌then◌else◌, any, count_if, keep_if, find_if, update_where, is_some,
  is_none, length, ApiResult, ok, err, unauthorized, not_found, conflict, bad_request, ◌>>=◌, ◌>>◌,
  guard, ok_or,
}

-- identity.rs: the roles, in ascending order.
pub data Role : Type 0 where
  viewer operator approver admin : Role

abbrev pub level : Role → ℕ
level viewer = 0
level operator = 1
level approver = 2
level admin = 3

-- `Role::includes`.
abbrev pub includes : Role → Role → Bool
includes r required = leb (level required) (level r)

pub record User : Type 0 where
  pub id : ℕ
  pub username : String
  pub password_hash : String
  pub roles : List Role
  pub created_at : ℕ
  pub disabled_at : Option ℕ

pub record UserToken : Type 0 where
  pub token_hash : ℕ
  pub user_id : ℕ
  pub issued_at : ℕ
  pub expires_at : ℕ

pub record Accounts : Type 0 where
  pub users : List User
  pub tokens : List UserToken

pub record UserRecord : Type 0 where
  pub id : ℕ
  pub username : String
  pub roles : List Role

abbrev pub user_record : User → UserRecord
user_record u = record { id = u.id; username = u.username; roles = u.roles }

abbrev pub is_admin : List Role → Bool
is_admin = any (λ r. level r == level admin)

abbrev pub active_admin : User → Bool
active_admin u = is_none u.disabled_at && is_admin u.roles

pub data ProposedChange : Type 0 where
  disable : ProposedChange
  set_roles : List Role → ProposedChange

-- The user as the guard sees it after the change, for the count of active admins.
abbrev pub effective_admin : ℕ → ProposedChange → User → Bool
effective_admin target disable u = if u.id == target then false else active_admin u
effective_admin target (set_roles roles) u =
    if u.id == target then is_none u.disabled_at && is_admin roles else active_admin u

unfoldable pub ensure_active_admin_remains : ℕ → ProposedChange → List User → ApiResult (Unit {0})
ensure_active_admin_remains target change users =
    let before = count_if active_admin users in
    let after = count_if (effective_admin target change) users in
    guard (not (ltb 0 before && after == 0)) (conflict "at least one active admin must remain")

-- The two texts are non-empty, and the username is new: the column is UNIQUE.
unfoldable pub create_user :
    ℕ → ℕ → String → String → String → List Role → Accounts → ApiResult (Accounts × ℕ)
create_user now id username password hash roles db = do
  guard (not (str_eq username "" || str_eq password ""))
      (bad_request "username and password must be non-empty")
  guard (not (any (λ u. str_eq u.username username) db.users)) (conflict "user already exists")
  ok (
    record db {
      users =
          db.users
          ++ record {
            id = id;
            username = username;
            password_hash = hash;
            roles = roles;
            created_at = now;
            disabled_at = none;
          }
            ∷ [];
    },
    id,
  )

unfoldable pub update_user_roles : ℕ → List Role → Accounts → ApiResult Accounts
unfolding ensure_active_admin_remains
update_user_roles user_id roles db = do
  ensure_active_admin_remains user_id (set_roles roles) db.users
  guard (any (λ u. u.id == user_id) db.users) not_found
  ok (record db {
    users = update_where (λ u. u.id == user_id) (λ u. record u { roles = roles }) db.users;
  })

abbrev pub not_of_user : ℕ → UserToken → Bool
not_of_user user_id t = not (t.user_id == user_id)

unfoldable pub disable_user : ℕ → ℕ → Accounts → ApiResult Accounts
unfolding ensure_active_admin_remains
disable_user now user_id db = do
  let enabled = λ (u : User). u.id == user_id && is_none u.disabled_at
  ensure_active_admin_remains user_id disable db.users
  guard (any enabled db.users) not_found
  ok (record db {
    users = update_where enabled (λ u. record u { disabled_at = some now }) db.users;
    tokens = keep_if (not_of_user user_id) db.tokens;
  })

unfoldable pub enable_user : ℕ → Accounts → ApiResult Accounts
enable_user user_id db = do
  let disabled = λ (u : User). u.id == user_id && is_some u.disabled_at
  guard (any disabled db.users) not_found
  ok (record db { users = update_where disabled (λ u. record u { disabled_at = none }) db.users })

unfoldable pub set_user_password : ℕ → String → String → Accounts → ApiResult Accounts
set_user_password user_id new_password hash db = do
  guard (not (str_eq new_password "")) (bad_request "password must not be empty")
  guard (any (λ u. u.id == user_id) db.users) not_found
  ok (record db {
    users = update_where (λ u. u.id == user_id) (λ u. record u { password_hash = hash }) db.users;
    tokens = keep_if (not_of_user user_id) db.tokens;
  })

unfoldable pub prune_expired_tokens : ℕ → Accounts → Accounts × ℕ
prune_expired_tokens now db = (
  record db { tokens = keep_if (λ t. ltb now t.expires_at) db.tokens },
  count_if (λ t. leb t.expires_at now) db.tokens,
)

abbrev pub enabled_only : User → ApiResult (Unit {0})
enabled_only u = guard (is_none u.disabled_at) unauthorized

unfoldable pub new_token : ℕ → ℕ → ℕ → ℕ → UserToken
new_token hash user_id now ttl_secs = record {
  token_hash = hash;
  user_id = user_id;
  issued_at = now;
  expires_at = now + ttl_secs;
}

module _ (hash_token : ℕ → ℕ) where
  -- `FROM user_tokens t JOIN users u ... WHERE t.token_hash = ? AND t.expires_at > ?`.
  abbrev pub live_token : ℕ → ℕ → UserToken → Bool
  live_token now token t = t.token_hash == hash_token token && ltb now t.expires_at

  unfoldable pub owner_of : ℕ → ℕ → Accounts → Option User
  owner_of now token db = elim (find_if (live_token now token) db.tokens) [
    | none ↦ none
    | some t ↦ find_if (λ u. u.id == t.user_id) db.users
  ]

  unfoldable pub find_user_by_token : ℕ → ℕ → Accounts → Option UserRecord
  unfolding owner_of
  find_user_by_token now token db = elim (owner_of now token db) [
    | none ↦ none
    | some u ↦ if is_some u.disabled_at then none else some (user_record u)
  ]

  unfoldable pub revoke_user_token : ℕ → Accounts → Accounts
  revoke_user_token token db = record db {
    tokens = keep_if (λ t. not (t.token_hash == hash_token token)) db.tokens;
  }

  unfoldable pub login :
      (String → String → Bool)
      → ℕ
      → ℕ
      → String
      → String
      → ℕ
      → Accounts
      → ApiResult (Accounts × ℕ × UserRecord)
  unfolding new_token
  login verify_password now token username password ttl_secs db = do
    u ← ok_or (find_if (λ u. str_eq u.username username) db.users) unauthorized
    enabled_only u
    guard (verify_password password u.password_hash) unauthorized
    ok (
      record db { tokens = db.tokens ++ new_token (hash_token token) u.id now ttl_secs ∷ [] },
      token,
      user_record u,
    )

  -- The old token is deleted first, and exactly one row must go.
  unfoldable pub refresh_user_token :
      ℕ → ℕ → ℕ → ℕ → Accounts → ApiResult (Accounts × ℕ × UserRecord)
  unfolding owner_of new_token
  refresh_user_token now token fresh ttl_secs db = do
    u ← ok_or (owner_of now token db) unauthorized
    enabled_only u
    guard (count_if (λ t. t.token_hash == hash_token token) db.tokens == 1) unauthorized
    ok (
      record db {
        tokens =
            keep_if (λ t. not (t.token_hash == hash_token token)) db.tokens
            ++ new_token (hash_token fresh) u.id now ttl_secs ∷ [];
      },
      fresh,
      user_record u,
    )
