-- ===== src/Users/Tokens.antt =====
-- Which tokens still let their owner in.
use iac.Prelude.{
  ◌⊎◌, inl, inr, ℕ, ◌≡◌, ◌≢◌, inl, inr, true, not, some, [], ◌∷◌, ◌++◌, All, String, ◌==◌, is_none,
  count_if, keep_if, find_if, find_if-holds, find_if-All, All-keep_if, arith, Option-cases, ok,
}
use iac.Users.{
  User, UserToken, UserRecord, user_record, Accounts, disable_user, set_user_password, not_of_user,
  owner_of, find_user_by_token, live_token, new_token,
}

module _ (hash_token : ℕ → ℕ) (now token : ℕ) where
  -- A token that lets someone in belongs to an enabled user, and has not expired.
  record LetsIn (db : Accounts) (r : UserRecord) : Type 0 where
    row : UserToken
    user : User
    row_found : find_if (live_token hash_token now token) db.tokens ≡ some row
    user_found : find_if (λ u. u.id == row.user_id) db.users ≡ some user
    enabled : is_none user.disabled_at ≡ true
    answers : r ≡ user_record user

  find-LetsIn :
      (db : Accounts) (r : UserRecord)
      → find_user_by_token hash_token now token db ≡ some r
      → LetsIn db r
  unfolding find_user_by_token
  find-LetsIn db r h = elim (Option-cases (find_if (live_token hash_token now token) db.tokens)) [
    | inl e ↦ absurd (ground arith)
    | inr (t, e) ↦ elim (Option-cases (find_if (λ u. u.id == t.user_id) db.users)) [
      | inl f ↦ absurd (ground arith)
      | inr (u, f) ↦ record {
        row = t;
        user = u;
        row_found = e;
        user_found = f;
        enabled = ground arith;
        answers = ground arith;
      }
    ]
  ]

  -- Where no token belongs to the user, no token lets the user in.
  no_token-no_user :
      (db : Accounts) (user_id : ℕ) (r : UserRecord)
      → All (λ t. not_of_user user_id t ≡ true) db.tokens
      → find_user_by_token hash_token now token db ≡ some r
      → r.id ≢ user_id
  no_token-no_user db user_id r a h same =
      let i = find-LetsIn db r h in
      let other = find_if-All (λ t. not_of_user user_id t ≡ true) _ db.tokens i.row a i.row_found in
      let owned = find_if-holds (λ u. u.id == i.row.user_id) db.users i.user i.user_found in
      ground (arith, i.answers)

  disable_user-logs_out :
      (at user_id : ℕ) (db db' : Accounts) (r : UserRecord)
      → disable_user at user_id db ≡ ok db'
      → find_user_by_token hash_token now token db' ≡ some r
      → r.id ≢ user_id
  unfolding disable_user
  disable_user-logs_out at user_id db db' r e h =
      let kept : db'.tokens ≡ keep_if (not_of_user user_id) db.tokens = ground arith in
      no_token-no_user db' user_id r (rw kept (All-keep_if (not_of_user user_id) db.tokens)) h

  set_user_password-logs_out :
      (user_id : ℕ) (password hash : String) (db db' : Accounts) (r : UserRecord)
      → set_user_password user_id password hash db ≡ ok db'
      → find_user_by_token hash_token now token db' ≡ some r
      → r.id ≢ user_id
  unfolding set_user_password
  set_user_password-logs_out user_id password hash db db' r e h =
      let kept : db'.tokens ≡ keep_if (not_of_user user_id) db.tokens = ground arith in
      no_token-no_user db' user_id r (rw kept (All-keep_if (not_of_user user_id) db.tokens)) h

  -- After a user is disabled, or the user's password is set, no token that was issued before lets that
  -- user in, at any time.
  pub old_tokens-logged_out :
      (at user_id : ℕ) (password hash : String) (db db' : Accounts) (r : UserRecord)
      → (disable_user at user_id db ≡ ok db')
        ⊎ (set_user_password user_id password hash db ≡ ok db')
      → find_user_by_token hash_token now token db' ≡ some r
      → r.id ≢ user_id
  old_tokens-logged_out at user_id password hash db db' r (inl e) h =
      disable_user-logs_out at user_id db db' r e h
  old_tokens-logged_out at user_id password hash db db' r (inr e) h =
      set_user_password-logs_out user_id password hash db db' r e h

  -- What a refresh leaves, once it has answered the fresh token for the user.
  pub record Refreshed (at fresh ttl_secs : ℕ) (db db' : Accounts) (u : UserRecord) : Type 0 where
    pub user : User
    pub was_owner : owner_of hash_token at token db ≡ some user
    pub answers : u ≡ user_record user
    pub enabled : is_none user.disabled_at ≡ true
    pub same_users : db'.users ≡ db.users
    pub replaced :
        db'.tokens
        ≡ keep_if (λ x. not (x.token_hash == hash_token token)) db.tokens
          ++ new_token (hash_token fresh) user.id at ttl_secs ∷ []
    pub unique : count_if (λ x. x.token_hash == hash_token token) db.tokens ≡ 1
