-- ===== src/Fleet/Login.antt =====
-- Who can log in as an agent after its token was rotated.
use iac.Prelude.{
  ℕ, ◌≡◌, ◌∙◌, refl, ap, sym, inl, inr, true, false, Option, some, List, [], ◌∷◌, String, str_eq,
  eq_iff, ◌==◌, arith, any, find_if, update_where, Bool-cases, ok, ok_or, unauthorized, not_found,
  guard-ok, find_if-holds, ==_iff, ok-injective, >>=-eq-ok,
}
use text.Mathlib.TextPositions.{eq_refl}
use iac.Fleet.{
  AgentRow, is_live, AgentCredentials, AgentRecord, record_of, Fleet, expiry, rotate_agent_token,
  authenticate,
}

module _ (hash : String) (expires_at : Option ℕ) (agent_id : ℕ) where
  abbrev rotated : AgentRow → AgentRow
  rotated a = record a { token_hash = hash; token_expires_at = expires_at }

  abbrev rows_after : List AgentRow → List AgentRow
  rows_after = update_where (λ a. a.id == agent_id) rotated

  find-others :
      (id : ℕ) (rows : List AgentRow)
      → (id == agent_id) ≡ false
      → find_if (λ a. a.id == id) (rows_after rows) ≡ find_if (λ a. a.id == id) rows
  find-others id [] h = refl
  find-others id (a ∷ rows) h = ground (arith, h, find-others id rows)

  find-own :
      (rows : List AgentRow)
      → any (λ a. a.id == agent_id) rows ≡ true
      → (a : AgentRow) × (find_if (λ a. a.id == agent_id) (rows_after rows) ≡ some (rotated a))
  find-own [] h = absurd (ground (arith, h))
  find-own (a ∷ rows) h = elim (Bool-cases (a.id == agent_id)) [
    | inl e ↦ (a, ground (arith, e))
    | inr e ↦ let (b, k) = find-own rows (ground (arith, e, h)) in (b, ground (arith, e, k))
  ]

module _ (hash_token : String → String) (add_secs : ℕ → ℕ → Option ℕ) where
  -- What a rotation means for the logins after it.
  pub record Rotated (agent_id : ℕ) (c : AgentCredentials) (db db' : Fleet) : Type 0 where
    pub others :
        (at id : ℕ) (token : String)
        → (id == agent_id) ≡ false
        → authenticate hash_token add_secs at id token db'
          ≡ authenticate hash_token add_secs at id token db
    pub only_new :
        (at : ℕ) (token : String) (r : AgentRecord)
        → authenticate hash_token add_secs at agent_id token db' ≡ ok r
        → (hash_token token ≡ hash_token c.token) × (is_live at c.expires_at ≡ true)
    pub new_works :
        (at : ℕ)
        → is_live at c.expires_at ≡ true
        → (r : AgentRecord) × (authenticate hash_token add_secs at agent_id c.token db' ≡ ok r)
          × (r.id ≡ agent_id)

  -- After a token was rotated, the agent's logins that succeed are those with a token of the new
  -- one's hash before the new expiry, and the new token does log that agent in until then; the logins
  -- of all other agents are as before.
  pub rotate_agent_token-Rotated :
      (token : String) (now agent_id : ℕ) (ttl : Option ℕ) (db db' : Fleet) (c : AgentCredentials)
      → rotate_agent_token hash_token add_secs token now agent_id ttl db ≡ ok (db', c)
      → Rotated agent_id c db db'
  unfolding rotate_agent_token authenticate
  rotate_agent_token-Rotated token now agent_id ttl db db' c h =
      let exp = expiry hash_token add_secs now ttl in
      let new = hash_token token in
      let (there, h1) =
        guard-ok (any (λ (a : AgentRow). a.id == agent_id) db.agents) not_found _ h in
      let e = ok-injective h1 in
      let rows : db'.agents ≡ rows_after new exp agent_id db.agents =
        ap (λ r. r.0.agents) (sym e) in
      let issued : c.token ≡ token = ap (λ r. r.1.token) (sym e) in
      let until : c.expires_at ≡ exp = ap (λ r. r.1.expires_at) (sym e) in
      let (row, own) = find-own new exp agent_id db.agents there in
      record {
        others = λ at id t other.
            let same = find-others new exp agent_id id db.agents other in
            rw (authenticate, rows, same) refl;
        only_new = λ at t r k.
            let (row', found, k1) =
              >>=-eq-ok
                (ok_or (find_if (λ (a : AgentRow). a.id == agent_id) db'.agents) unauthorized) _
                k in
            let (matches, k2) = guard-ok (str_eq (hash_token t) row'.token_hash) _ _ k1 in
            let (live, k3) = guard-ok (is_live at row'.token_expires_at) _ _ k2 in
            let same : row' ≡ rotated new exp agent_id row =
              ok-injective (sym found ∙ rw (rows, own) refl) in
            (
              (eq_iff (hash_token t) row'.token_hash).0 matches
                  ∙ (ap (λ a. a.token_hash) same ∙ ap hash_token (sym issued)),
              ap (is_live at) (until ∙ sym (ap (λ a. a.token_expires_at) same)) ∙ live,
            );
        new_works = λ at live.
            let live' : is_live at exp ≡ true = ap (is_live at) (sym until) ∙ live in
            let is_own =
              find_if-holds (λ (a : AgentRow). a.id == agent_id)
                (rows_after new exp agent_id db.agents) (rotated new exp agent_id row) own in
            (
              record_of (rotated new exp agent_id row),
              rw (authenticate, rows, own, issued, eq_refl new, live') refl,
              (==_iff row.id agent_id).0 is_own,
            );
      }
