-- ===== src/Lifecycle/Rows.antt =====
-- The assignments that a call keeps: as many rows of one id, and done if they were.
use iac.Prelude.{
  ℕ, ◌≡◌, refl, sym, ◌∙◌, inl, inr, Bool, true, false, not, ◌&&◌, ◌||◌, Option, List, [], ◌∷◌, All,
  ◌==◌, any, arith, Bool-cases, Option-cases, Pairs, All-update_where, ok, count_if, keep_if,
  update_where, ◌-◌,
}
use iac.Tables.{Db, Assignment, AssignmentStatus, has_status, AssignmentResultRequest, AuditRecord}
use iac.Rollout.Moves.{Moved, waits, runs, advance_phased_apply-Moved}
use iac.Dispatch.{
  completed, listed, record_result, fetch_pending_assignments, claim_ssh_pending, claim, claimed_by,
  ssh_claimable, oldest,
}
use iac.Dispatch.Completion.{complete-Taken, complete}
use iac.Dispatch.Leases.{Reverted}
use iac.Dispatch.SshClaim.{oldest-not}
use iac.Lifecycle.Unique.{has_key, count-update_where, IsSettled}

abbrev pub id_key : Assignment → ℕ
id_key a = a.id

abbrev pub is_done : Assignment → Bool
is_done a = not (waits a.status || runs a.status)

module _ (assignment_id : ℕ) where
  abbrev pub rows_of : Db → ℕ
  rows_of db = count_if (has_key id_key assignment_id) db.assignments

  abbrev pub IsDone : Assignment → Type 0
  IsDone = IsSettled id_key assignment_id is_done

  -- The assignments after a call: as many of the key, and done if they were.
  pub record Kept (rows rows' : List Assignment) : Type 0 where
    pub as_many :
        count_if (has_key id_key assignment_id) rows ≡ count_if (has_key id_key assignment_id) rows'
    pub still : All IsDone rows → All IsDone rows'

  same-Kept : (rows : List Assignment) → Kept rows rows
  same-Kept rows = record { as_many = refl; still = λ h. h }

  trans-Kept : (xs ys zs : List Assignment) → Kept xs ys → Kept ys zs → Kept xs zs
  trans-Kept xs ys zs p q = record {
    as_many = p.as_many ∙ q.as_many;
    still = λ h. q.still (p.still h);
  }

  update-Kept :
      (p : Assignment → Bool) (f : Assignment → Assignment)
      → ((a : Assignment) → (f a).id ≡ a.id)
      → ((a : Assignment) → p a ≡ true → IsDone a → IsDone (f a))
      → (rows : List Assignment) → Kept rows (update_where p f rows)
  update-Kept p f same done rows = record {
    as_many = sym (count-update_where id_key assignment_id p f same rows);
    still =
        All-update_where IsDone IsDone p f rows
          (λ a h. elim (Bool-cases (p a)) [ inl e ↦ rw e (done a e h) | inr e ↦ rw e h ]);
  }

  pub Pairs-Kept :
      (op : ℕ) (rows rows' : List Assignment) → Pairs (Moved op) rows rows' → Kept rows rows'
  Pairs-Kept op [] [] m = same-Kept []
  Pairs-Kept op [] (b ∷ rows') m = absurd m
  Pairs-Kept op (a ∷ rows) [] m = absurd m
  Pairs-Kept op (a ∷ rows) (b ∷ rows') m =
      let rest = Pairs-Kept op rows rows' m.1 in
      record {
        as_many = ground (arith, m.0.same_id, rest.as_many);
        still = λ h. (
          λ e.
              let k : (a.id == assignment_id) ≡ true = ground (arith, e, m.0.same_id) in
              rw (m.0.finished_stay (ground (arith, h.0 k))) (h.0 k),
          rest.still h.1,
        );
      }

  pub fetch-Kept :
      (lease_secs now agent_id : ℕ) (db : Db)
      → Kept db.assignments (fetch_pending_assignments lease_secs now agent_id db).0.assignments
  unfolding fetch_pending_assignments
  fetch-Kept lease_secs now agent_id db =
      update-Kept (claimed_by agent_id (now - lease_secs)) (claim now) (λ a. refl)
        (λ a e h k. absurd (ground (arith, e, h k))) db.assignments

  pub Reverted-Kept :
      (ids : List ℕ) (rows rows' : List Assignment)
      → Pairs (Reverted ids) rows rows'
      → Kept rows rows'
  Reverted-Kept ids [] [] m = same-Kept []
  Reverted-Kept ids [] (b ∷ rows') m = absurd m
  Reverted-Kept ids (a ∷ rows) [] m = absurd m
  Reverted-Kept ids (a ∷ rows) (b ∷ rows') m =
      let rest = Reverted-Kept ids rows rows' m.1 in
      elim (Bool-cases (listed ids a.id && has_status a.status AssignmentStatus.fetched)) [
        | inl e ↦ rw (m.0.given_back e) (record {
          as_many = ground (arith, rest.as_many);
          still = λ h. (λ k. absurd (ground (arith, e, h.0 k)), rest.still h.1);
        })
        | inr e ↦
            rw (m.0.others_stay e) (record {
              as_many = ground (arith, rest.as_many);
              still = λ h. (h.0, rest.still h.1);
            })
      ]

  none_claimable :
      (targets : List ℕ) (cutoff : ℕ) (rows : List Assignment)
      → All IsDone rows
      → any (has_key id_key assignment_id) (keep_if (ssh_claimable targets cutoff) rows) ≡ false
  none_claimable targets cutoff [] h = refl
  none_claimable targets cutoff (a ∷ rows) h =
      ground (arith, h.0, none_claimable targets cutoff rows h.1)

  pub claim_ssh-Kept :
      (lease_secs now : ℕ) (target_ids : List ℕ) (db : Db)
      → Kept db.assignments (claim_ssh_pending lease_secs now target_ids db).0.assignments
  unfolding claim_ssh_pending
  claim_ssh-Kept lease_secs now target_ids db =
      let rows = keep_if (ssh_claimable target_ids (now - lease_secs)) db.assignments in
      elim (Option-cases (oldest rows)) [
        | inl e ↦ rw (claim_ssh_pending, e) (same-Kept db.assignments)
        | inr (a, e) ↦
            rw (claim_ssh_pending, e)
              (record {
                as_many = sym (
                    count-update_where id_key assignment_id (λ b. b.id == a.id) (claim now)
                      (λ b. refl) db.assignments);
                still = λ h.
                    let other =
                      oldest-not (has_key id_key assignment_id) rows a
                        (none_claimable target_ids (now - lease_secs) db.assignments h) e in
                    (update-Kept (λ b. b.id == a.id) (claim now) (λ b. refl)
                        (λ b f g k. absurd (ground (arith, f, other, k))) db.assignments).still
                      h;
              })
      ]

  pub completed-Kept :
      (now id : ℕ) (result : AssignmentResultRequest) (rows : List Assignment)
      → Kept rows (completed now id result rows)
  completed-Kept now id result rows =
      update-Kept (λ a. a.id == id) (record_result now result) (λ a. refl) (λ a e h k. ground arith)
        rows

  pub report-Kept :
      (now agent_id id : ℕ) (result : AssignmentResultRequest) (extra : Option AuditRecord)
      (db db' : Db)
      → complete now agent_id id result extra db ≡ ok db'
      → Kept db.assignments db'.assignments
  report-Kept now agent_id id result extra db db' h =
      let t = complete-Taken now agent_id id result extra db db' h in
      let op = t.found.operation_id in
      rw t.rows (
        trans-Kept db.assignments _ _ (completed-Kept now id result db.assignments) (
          Pairs-Kept op _ _
            (advance_phased_apply-Moved op now (completed now id result db.assignments))))
