-- ===== src/Users/Admins.antt =====
-- The accounts never lose their last active admin.
use iac.Prelude.{
  ℕ, ◌≤◌, ◌<◌, ◌≡◌, refl, ◌&&◌, none, some, List, [], ◌∷◌, String, ◌==◌, is_some, is_none, count_if,
  count_if-append, update_where, arith, ApiResult, ok, err,
}
use iac.Users.{
  User, Role, Accounts, ProposedChange, active_admin, effective_admin, ensure_active_admin_remains,
  create_user, update_user_roles, disable_user, enable_user, set_user_password,
}

count_set_roles :
    (target : ℕ) (roles : List Role) (users : List User)
    → count_if active_admin
        (update_where (λ u. u.id == target) (λ u. record u { roles = roles }) users)
      ≡ count_if (effective_admin target (ProposedChange.set_roles roles)) users
count_set_roles target roles [] = refl
count_set_roles target roles (u ∷ users) = ground (arith, count_set_roles target roles users)

count_disable :
    (now target : ℕ) (users : List User)
    → count_if active_admin (
        update_where
          (λ (u : User). u.id == target && is_none u.disabled_at)
          (λ u. record u { disabled_at = some now })
          users)
      ≡ count_if (effective_admin target ProposedChange.disable) users
count_disable now target [] = refl
count_disable now target (u ∷ users) = ground (arith, count_disable now target users)

count_enable :
    (target : ℕ) (users : List User)
    → count_if active_admin users
      ≤ count_if active_admin (
          update_where
            (λ (u : User). u.id == target && is_some u.disabled_at)
            (λ u. record u { disabled_at = none })
            users)
count_enable target [] = omega arith
count_enable target (u ∷ users) = ground (arith, count_enable target users)

count_password :
    (target : ℕ) (hash : String) (users : List User)
    → count_if active_admin
        (update_where (λ u. u.id == target) (λ u. record u { password_hash = hash }) users)
      ≡ count_if active_admin users
count_password target hash [] = refl
count_password target hash (u ∷ users) = ground (arith, count_password target hash users)

-- The calls that change users.
pub data UserCall : Type 0 where
  creates : (now id : ℕ) (username password hash : String) (roles : List Role) → UserCall
  updates_roles : (user_id : ℕ) (roles : List Role) → UserCall
  disables : (now user_id : ℕ) → UserCall
  enables : (user_id : ℕ) → UserCall
  sets_password : (user_id : ℕ) (new_password hash : String) → UserCall

-- A call that fails leaves the accounts as they were.
abbrev after_call : Accounts → ApiResult Accounts → Accounts
after_call db (ok db') = db'
after_call db (err e) = db

abbrev after_create : Accounts → ApiResult (Accounts × ℕ) → Accounts
after_create db (ok (db', id)) = db'
after_create db (err e) = db

unfoldable pub step : Accounts → UserCall → Accounts
step db (creates now id username password hash roles) =
    after_create db (create_user now id username password hash roles db)
step db (updates_roles user_id roles) = after_call db (update_user_roles user_id roles db)
step db (disables now user_id) = after_call db (disable_user now user_id db)
step db (enables user_id) = after_call db (enable_user user_id db)
step db (sets_password user_id new_password hash) =
    after_call db (set_user_password user_id new_password hash db)

unfoldable pub run : Accounts → List UserCall → Accounts
unfolding step
run db [] = db
run db (c ∷ calls) = run (step db c) calls

abbrev pub HasAdmin : Accounts → Type 0
HasAdmin db = 0 < count_if active_admin db.users

step-HasAdmin : (db : Accounts) (c : UserCall) → HasAdmin db → HasAdmin (step db c)
unfolding step create_user update_user_roles disable_user enable_user set_user_password
    ensure_active_admin_remains
step-HasAdmin db (creates now id username password hash roles) h =
    let new : User = record {
      id = id;
      username = username;
      password_hash = hash;
      roles = roles;
      created_at = now;
      disabled_at = none;
    } in
    ground (arith, count_if-append active_admin db.users (new ∷ []))
step-HasAdmin db (updates_roles user_id roles) h =
    ground (arith, count_set_roles user_id roles db.users)
step-HasAdmin db (disables now user_id) h = ground (arith, count_disable now user_id db.users)
step-HasAdmin db (enables user_id) h = ground (arith, count_enable user_id db.users)
step-HasAdmin db (sets_password user_id new_password hash) h =
    ground (arith, count_password user_id hash db.users)

-- Once there is an active admin, there is one after any calls, whether they succeed or fail.
pub run-HasAdmin : (db : Accounts) (calls : List UserCall) → HasAdmin db → HasAdmin (run db calls)
unfolding run
run-HasAdmin db [] h = h
run-HasAdmin db (c ∷ calls) h = run-HasAdmin (step db c) calls (step-HasAdmin db c h)
