-- ===== src/Dispatch/Leases.antt =====
-- Claims and leases: who may get an assignment, and when it may be given out again.
use iac.Prelude.{
  ℕ, ◌-◌, ◌≡◌, refl, ◌∙◌, inl, inr, Bool, true, false, ◌&&◌, ◌||◌, none, List, [], ◌∷◌, ltb, any,
  arith, update_where, Bool-cases, All-update_where, Pairs, Pairs-refl, if◌then◌else◌,
}
use iac.Tables.{Db, Assignment, AssignmentStatus, has_status}
use iac.Rollout.Gate.{Placed, IsPlaced}
use iac.Dispatch.{
  claimable, claim, claimed_by, sort_by_created, insert_by_created, fetch_pending_assignments,
  revert_row, reverted, revert_claims, revert_assignment_claims, listed,
}

module _ (p : Assignment → Bool) where
  any-insert_by_created :
      (a : Assignment) (rows : List Assignment)
      → any p (insert_by_created a rows) ≡ (p a || any p rows)
  unfolding insert_by_created
  any-insert_by_created a [] = refl
  any-insert_by_created a (b ∷ rows) = ground (arith, any-insert_by_created a rows)

  pub any-sort_by_created : (rows : List Assignment) → any p (sort_by_created rows) ≡ any p rows
  unfolding sort_by_created
  any-sort_by_created [] = refl
  any-sort_by_created (a ∷ rows) =
      any-insert_by_created a (sort_by_created rows) ∙ ground (arith, any-sort_by_created rows)

module _ (lease_secs now agent_id : ℕ) where
  abbrev fetch : Db → Db × List Assignment
  fetch = fetch_pending_assignments lease_secs now agent_id

  -- What a row becomes, and whether it may be claimed again at a later time.
  pub record Leased (later : ℕ) (a b : Assignment) : Type 0 where
    pub same_id : b.id ≡ a.id
    pub on_lease :
        claimed_by agent_id (now - lease_secs) a ≡ true
        → claimable (later - lease_secs) b ≡ ltb now (later - lease_secs)
    pub others_stay : claimed_by agent_id (now - lease_secs) a ≡ false → b ≡ a

  -- If rows wait for a canary only in the baseline of layer 0, and for a layer only above layer 0,
  -- this still holds after a fetch.
  pub fetch-IsPlaced : (db : Db) → IsPlaced db.assignments → IsPlaced (fetch db).0.assignments
  unfolding fetch_pending_assignments
  fetch-IsPlaced db h =
      All-update_where Placed Placed (claimed_by agent_id (now - lease_secs)) (claim now)
        db.assignments (λ a p. ground arith) h

-- What becomes of a row when the claims on `ids` are given back.
pub record Reverted (ids : List ℕ) (a b : Assignment) : Type 0 where
  pub given_back :
      (listed ids a.id && has_status a.status AssignmentStatus.fetched) ≡ true
      → b ≡ record a { status = AssignmentStatus.pending; fetched_at = none }
  pub others_stay :
      (listed ids a.id && has_status a.status AssignmentStatus.fetched) ≡ false → b ≡ a

Reverted-step :
    (id : ℕ) (ids : List ℕ) (a b : Assignment)
    → Reverted ids (if reverted id a then revert_row a else a) b
    → Reverted (id ∷ ids) a b
unfolding revert_row
Reverted-step id ids a b r = elim (Bool-cases (reverted id a)) [
  | inl e ↦
      let done : Reverted ids (revert_row a) b = rw e at r in
      let given = done.others_stay (ground arith) in
      record { given_back = λ _. given; others_stay = λ n. absurd (ground arith) }
  | inr e ↦
      let rest : Reverted ids a b = rw e at r in
      record {
        given_back = λ g. rest.given_back (ground arith);
        others_stay = λ n. rest.others_stay (ground arith);
      }
]

Reverted-all :
    (id : ℕ) (ids : List ℕ) (rows rows' : List Assignment)
    → Pairs (Reverted ids) (update_where (reverted id) revert_row rows) rows'
    → Pairs (Reverted (id ∷ ids)) rows rows'
Reverted-all id ids [] [] r = tt
Reverted-all id ids [] (b ∷ rows') r = r
Reverted-all id ids (a ∷ rows) [] r = r
Reverted-all id ids (a ∷ rows) (b ∷ rows') r =
    (Reverted-step id ids a b r.0, Reverted-all id ids rows rows' r.1)

revert_claims-Reverted :
    (ids : List ℕ) (rows : List Assignment) → Pairs (Reverted ids) rows (revert_claims ids rows)
unfolding revert_claims
revert_claims-Reverted [] rows =
    Pairs-refl (Reverted []) (λ a. record { given_back = λ e. cc; others_stay = λ _. refl }) rows
revert_claims-Reverted (id ∷ ids) rows =
    Reverted-all id ids rows _
      (revert_claims-Reverted ids (update_where (reverted id) revert_row rows))

-- Giving claims back makes exactly the listed rows that are still fetched pending again, with no
-- time of a fetch, and leaves every other row as it was.
pub revert_assignment_claims-Reverted :
    (ids : List ℕ) (db : Db)
    → Pairs (Reverted ids) db.assignments (revert_assignment_claims ids db).assignments
unfolding revert_assignment_claims
revert_assignment_claims-Reverted ids db = revert_claims-Reverted ids db.assignments

revert_claims-IsPlaced :
    (ids : List ℕ) (rows : List Assignment) → IsPlaced rows → IsPlaced (revert_claims ids rows)
unfolding revert_claims revert_row
revert_claims-IsPlaced [] rows p = p
revert_claims-IsPlaced (id ∷ ids) rows p =
    revert_claims-IsPlaced ids _
      (All-update_where Placed Placed (reverted id) revert_row rows (λ a q. ground arith) p)

pub revert-IsPlaced :
    (ids : List ℕ) (db : Db)
    → IsPlaced db.assignments
    → IsPlaced (revert_assignment_claims ids db).assignments
unfolding revert_assignment_claims
revert-IsPlaced ids db p = revert_claims-IsPlaced ids db.assignments p
