-- ===== src/Dispatch/SshClaim.antt =====
-- The claim of one assignment for the SSH push.
use iac.Prelude.{
  ℕ, ◌≤◌, ◌≡◌, refl, inl, inr, ◌∙◌, sym, Bool, true, false, not, ◌||◌, Option, none, some, List, [],
  ◌∷◌, All, leb, any, arith, keep_if, Bool-cases, Option-cases, ◌-◌, subst,
}
use iac.Tables.{Db, Assignment}
use iac.Dispatch.{claim_ssh_pending, ssh_claimable, oldest, sort_by_created, insert_by_created}
use iac.Dispatch.Leases.{any-sort_by_created}

abbrev NotBefore : Assignment → List Assignment → Type 0
NotBefore a = All (λ b. a.created_at ≤ b.created_at)

abbrev first : List Assignment → Option Assignment
first [] = none
first (a ∷ rows) = some a

some-injective : {a b : Assignment} → some a ≡ some b → a ≡ b
some-injective h = cc

-- The first of the rows after an insertion is not after any row that its list was not after.
first-insert_by_created :
    (x : Assignment) (s : List Assignment) (a : Assignment)
    → first (insert_by_created x s) ≡ some a
    → (a.created_at ≤ x.created_at)
      × ((y : Assignment) → first s ≡ some y → a.created_at ≤ y.created_at)
unfolding insert_by_created
first-insert_by_created x [] a h = (ground (arith, h), λ y e. ground (arith, e))
first-insert_by_created x (y ∷ s) a h = (ground (arith, h), λ z e. ground (arith, h, e))

NotBefore-mono :
    (a y : Assignment) (rows : List Assignment)
    → a.created_at ≤ y.created_at
    → NotBefore y rows
    → NotBefore a rows
NotBefore-mono a y [] h n = tt
NotBefore-mono a y (b ∷ rows) h n = (omega (arith, h, n.0), NotBefore-mono a y rows h n.1)

nothing_first : (s : List Assignment) → first s ≡ none → any (λ _. true) s ≡ false
nothing_first [] h = refl
nothing_first (a ∷ s) h = ground (arith, h)

no_rows :
    (a : Assignment) (rows : List Assignment) → any (λ _. true) rows ≡ false → NotBefore a rows
no_rows a [] h = tt
no_rows a (b ∷ rows) h = absurd (ground (arith, h))

first-sort_by_created :
    (rows : List Assignment) (a : Assignment)
    → first (sort_by_created rows) ≡ some a
    → NotBefore a rows
unfolding sort_by_created
first-sort_by_created [] a h = tt
first-sort_by_created (x ∷ rows) a h =
    let i = first-insert_by_created x (sort_by_created rows) a h in
    elim (Option-cases (first (sort_by_created rows))) [
      | inl e ↦ (
        i.0,
        no_rows a rows
            (sym (any-sort_by_created (λ _. true) rows) ∙ nothing_first (sort_by_created rows) e),
      )
      | inr (y, e) ↦ (i.0, NotBefore-mono a y rows (i.1 y e) (first-sort_by_created rows y e))
    ]

-- Each row that the test lets through is not before `a`.
abbrev pub NoneBefore : (Assignment → Bool) → Assignment → List Assignment → Type 0
NoneBefore p a = All (λ b. (not (p b) || leb a.created_at b.created_at) ≡ true)

keep_if-NoneBefore :
    (p : Assignment → Bool) (a : Assignment) (rows : List Assignment)
    → NotBefore a (keep_if p rows)
    → NoneBefore p a rows
keep_if-NoneBefore p a [] n = tt
keep_if-NoneBefore p a (b ∷ rows) n = elim (Bool-cases (p b)) [
  | inl e ↦
      let m : NotBefore a (b ∷ keep_if p rows) = rw e at n in
      (ground (arith, e, m.0), keep_if-NoneBefore p a rows m.1)
  | inr e ↦ (ground (arith, e), keep_if-NoneBefore p a rows (rw e at n))
]

oldest-first :
    (rows : List Assignment) (a : Assignment)
    → oldest rows ≡ some a
    → first (sort_by_created rows) ≡ some a
unfolding oldest
oldest-first rows a h = h

-- The oldest row is one of the rows.
pub oldest-not :
    (p : Assignment → Bool) (rows : List Assignment) (a : Assignment)
    → any p rows ≡ false
    → oldest rows ≡ some a
    → p a ≡ false
oldest-not p rows a n h =
    head_of (sort_by_created rows) (any-sort_by_created p rows ∙ n) (oldest-first rows a h)
  where
    head_of : (s : List Assignment) → any p s ≡ false → first s ≡ some a → p a ≡ false
    head_of [] k e = cc
    head_of (b ∷ s) k e = subst (λ c. p c ≡ false) (some-injective e) (ground (arith, k))

-- The assignment that is claimed for the SSH push was not created after any row of the targets that
-- may be claimed, and it is fetched at `now`.
pub claim_ssh_pending-NoneBefore :
    (lease_secs now : ℕ) (target_ids : List ℕ) (db : Db) (a : Assignment)
    → (claim_ssh_pending lease_secs now target_ids db).1 ≡ some a
    → (a.fetched_at ≡ some now)
      × NoneBefore (ssh_claimable target_ids (now - lease_secs)) a db.assignments
unfolding claim_ssh_pending
claim_ssh_pending-NoneBefore lease_secs now target_ids db a h =
    let rows = keep_if (ssh_claimable target_ids (now - lease_secs)) db.assignments in
    elim (Option-cases (oldest rows)) [
      | inl e ↦ absurd (ground (arith, e, h))
      | inr (b, e) ↦
          let n =
            keep_if-NoneBefore (ssh_claimable target_ids (now - lease_secs)) b db.assignments
              (first-sort_by_created rows b (oldest-first rows b e)) in
          subst
            (λ x.
              (x.fetched_at ≡ some now)
              × NoneBefore (ssh_claimable target_ids (now - lease_secs)) x db.assignments)
            (some-injective (rw (claim_ssh_pending, e) at h)) (refl, n)
    ]
