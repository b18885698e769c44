-- ===== src/RateLimit/Batch.antt =====
-- The policies of one submission are charged together: all of them, or none.
use iac.Prelude.{
  ℕ, ◌+◌, ◌<◌, ◌≡◌, refl, ◌∙◌, sym, ap, subst, ◌⊎◌, inl, inr, Bool, true, false, ◌||◌, Option, none,
  some, List, [], ◌∷◌, ◌++◌, String, str_eq, eq_iff, leb, if◌then◌else◌, arith, any, count_if,
  length, replicate, All, Bool-cases, ApiResult, ok, err, ApiError, RateLimitBucket,
}
use mathlib.Core.List.{append-nil, append_assoc}
use iac.RateLimit.Window.{
  Queues, queue_of, put, prune, prune_from, drop_older, cutoff, queue_of-put,
}
use iac.RateLimit.{
  RateLimiter, Outcome, dry_run, commit, commit_checked, check_and_record_policies, active_policies,
  key_of,
}

drop_older_idem :
    (limit : ℕ) (q : List ℕ) → drop_older limit (drop_older limit q) ≡ drop_older limit q
drop_older_idem limit [] = refl
drop_older_idem limit (t ∷ q) = ground (arith, drop_older_idem limit q)

prune_from_idem :
    (limit : Option ℕ) (q : List ℕ) → prune_from limit (prune_from limit q) ≡ prune_from limit q
prune_from_idem none q = refl
prune_from_idem (some limit) q = drop_older_idem limit q

prune_idem : (now : ℕ) (q : List ℕ) → prune now (prune now q) ≡ prune now q
unfolding prune
prune_idem now q = prune_from_idem (cutoff now) q

abbrev pub charges : String → RateLimitBucket × ℕ → Bool
charges key e = str_eq (key_of e.0) key

refused_ne_ok : (e : ApiError) (r : ApiResult (Unit {0})) → r ≡ err e → r ≡ ok tt → ⊥
refused_ne_ok e r h k = cc

module _ (now : ℕ) (key : String) where
  -- A queue that is as it was, or has lost its entries from before the window.
  abbrev pub Unrecorded : List ℕ → List ℕ → Type 0
  Unrecorded q q' = (q' ≡ q) ⊎ (q' ≡ prune now q)

  Unrecorded-trans : (q q' q'' : List ℕ) → Unrecorded q q' → Unrecorded q' q'' → Unrecorded q q''
  Unrecorded-trans q q' q'' (inl a) (inl b) = inl (b ∙ a)
  Unrecorded-trans q q' q'' (inl a) (inr b) = inr (b ∙ ap (prune now) a)
  Unrecorded-trans q q' q'' (inr a) (inl b) = inr (b ∙ a)
  Unrecorded-trans q q' q'' (inr a) (inr b) = inr (b ∙ ap (prune now) a ∙ prune_idem now q)

  put-prune :
      (k : String) (state : Queues)
      → queue_of key (put k (prune now (queue_of k state)) state)
        ≡ (if str_eq k key then prune now (queue_of key state) else queue_of key state)
  put-prune k state = elim (Bool-cases (str_eq k key)) [
    | inl e ↦ rw (queue_of-put k key (prune now (queue_of k state)) state, e, (eq_iff k key).0 e)
    | inr e ↦ rw (queue_of-put k key (prune now (queue_of k state)) state, e)
  ]

  put-Unrecorded :
      (k : String) (state : Queues)
      → Unrecorded (queue_of key state) (queue_of key (put k (prune now (queue_of k state)) state))
  put-Unrecorded k state = elim (Bool-cases (str_eq k key)) [
    | inl e ↦ inr (put-prune k state ∙ rw e)
    | inr e ↦ inl (put-prune k state ∙ rw e)
  ]

  dry_run-Unrecorded :
      (active : List (RateLimitBucket × ℕ)) (l : RateLimiter)
      → Unrecorded (queue_of key l.state) (queue_of key (dry_run active now l).0.state)
  unfolding dry_run
  dry_run-Unrecorded [] l = inl refl
  dry_run-Unrecorded ((b, cap) ∷ active) l =
      let q = prune now (queue_of (key_of b) l.state) in
      let checked : RateLimiter = record l {
        checks_total = l.checks_total + 1;
        state = put (key_of b) q l.state;
      } in
      let here = put-Unrecorded (key_of b) l.state in
      elim (Bool-cases (leb cap (length q))) [
        | inl e ↦ rw e here
        | inr e ↦ rw e (Unrecorded-trans _ _ _ here (dry_run-Unrecorded active checked))
      ]

  abbrev after_prune : Bool → List ℕ → List ℕ
  after_prune charged q = if charged then prune now q else q

  after_prune-step :
      (here later : Bool) (q : List ℕ)
      → after_prune later (after_prune here q) ≡ after_prune (here || later) q
  after_prune-step true true q = prune_idem now q
  after_prune-step true false q = refl
  after_prune-step false later q = refl

  dry_run-pruned :
      (active : List (RateLimitBucket × ℕ)) (l : RateLimiter)
      → (dry_run active now l).1 ≡ ok tt
      → queue_of key (dry_run active now l).0.state
        ≡ after_prune (any (charges key) active) (queue_of key l.state)
  unfolding dry_run
  dry_run-pruned [] l h = refl
  dry_run-pruned ((b, cap) ∷ active) l h =
      let q = prune now (queue_of (key_of b) l.state) in
      let checked : RateLimiter = record l {
        checks_total = l.checks_total + 1;
        state = put (key_of b) q l.state;
      } in
      elim (Bool-cases (leb cap (length q))) [
        | inl e ↦ absurd (refused_ne_ok _ _ refl (rw e at h))
        | inr e ↦ rw e (
            dry_run-pruned active checked (rw e at h)
            ∙ ap (after_prune (any (charges key) active)) (put-prune (key_of b) l.state)
            ∙ after_prune-step (str_eq (key_of b) key) (any (charges key) active)
                (queue_of key l.state))
      ]

  commit-hits :
      (active : List (RateLimitBucket × ℕ)) (state : Queues)
      → queue_of key (commit active now state)
        ≡ queue_of key state ++ replicate (count_if (charges key) active) now
  unfolding commit
  commit-hits [] state = sym (append-nil _)
  commit-hits ((b, cap) ∷ active) state =
      let q = queue_of (key_of b) state ++ now ∷ [] in
      let rest = commit-hits active (put (key_of b) q state) in
      elim (Bool-cases (str_eq (key_of b) key)) [
        | inl e ↦
            rw (rest, queue_of-put (key_of b) key q state, e, (eq_iff (key_of b) key).0 e)
              (append_assoc (queue_of key state) (now ∷ []) _)
        | inr e ↦ rw (rest, queue_of-put (key_of b) key q state, e)
      ]

prune-put-prune :
    (now : ℕ) (key k : String) (state : Queues)
    → prune now (queue_of key (put k (prune now (queue_of k state)) state))
      ≡ prune now (queue_of key state)
prune-put-prune now key k state = elim (Bool-cases (str_eq k key)) [
  | inl e ↦ ap (prune now) (put-prune now key k state ∙ rw e) ∙ prune_idem now (queue_of key state)
  | inr e ↦ ap (prune now) (put-prune now key k state ∙ rw e)
]

abbrev HasRoom : ℕ → RateLimiter → RateLimitBucket × ℕ → Type 0
HasRoom now l e = length (prune now (queue_of (key_of e.0) l.state)) < e.1

rooms_before :
    (now : ℕ) (k : String) (l l' : RateLimiter) (active : List (RateLimitBucket × ℕ))
    → l'.state ≡ put k (prune now (queue_of k l.state)) l.state
    → All (HasRoom now l') active
    → All (HasRoom now l) active
rooms_before now k l l' [] s h = tt
rooms_before now k l l' ((b, cap) ∷ active) s h = (
  omega (
    arith,
    h.0,
    ap length (
        ap (λ st. prune now (queue_of (key_of b) st)) s ∙ prune-put-prune now (key_of b) k l.state),
  ),
  rooms_before now k l l' active s h.1,
)

dry_run-rooms :
    (now : ℕ) (active : List (RateLimitBucket × ℕ)) (l : RateLimiter)
    → (dry_run active now l).1 ≡ ok tt
    → All (HasRoom now l) active
unfolding dry_run
dry_run-rooms now [] l h = tt
dry_run-rooms now ((b, cap) ∷ active) l h =
    let q = prune now (queue_of (key_of b) l.state) in
    let checked : RateLimiter = record l {
      checks_total = l.checks_total + 1;
      state = put (key_of b) q l.state;
    } in
    elim (Bool-cases (leb cap (length q))) [
      | inl e ↦ absurd (refused_ne_ok _ _ refl (rw e at h))
      | inr e ↦ (
        ground arith,
        rooms_before now (key_of b) l checked active refl
            (dry_run-rooms now active checked (rw e at h)),
      )
    ]

module _ (policies : List (String × ℕ)) (now : ℕ) (l : RateLimiter) where
  abbrev active : List (RateLimitBucket × ℕ)
  active = active_policies policies

  -- What a batch leaves behind.
  pub record Batched (l' : RateLimiter) (r : ApiResult (Unit {0})) : Type 0 where
    pub nothing_recorded :
        (e : ApiError)
        → r ≡ err e
        → (key : String) → Unrecorded now key (queue_of key l.state) (queue_of key l'.state)
    pub had_room :
        r ≡ ok tt → All (λ e. length (prune now (queue_of (key_of e.0) l.state)) < e.1) active
    pub recorded :
        r ≡ ok tt
        → (key : String)
        → queue_of key l'.state
          ≡ after_prune now key (any (charges key) active) (queue_of key l.state)
            ++ replicate (count_if (charges key) active) now

  commit_checked-Batched :
      (o : Outcome)
      → o ≡ dry_run active now l
      → let r = commit_checked active now o in Batched r.0 r.1
  unfolding commit_checked
  commit_checked-Batched (l', ok u) e = record {
    nothing_recorded = λ e' h key. absurd (refused_ne_ok e' _ h refl);
    had_room = λ _. dry_run-rooms now active l (sym (ap (λ o. o.1) e));
    recorded = λ _ key.
        commit-hits now key active l'.state
        ∙ ap (λ q. q ++ replicate (count_if (charges key) active) now)
            (ap (λ o. queue_of key o.0.state) e
              ∙ dry_run-pruned now key active l (sym (ap (λ o. o.1) e)));
  }
  commit_checked-Batched (l', err e') e = record {
    nothing_recorded = λ _ _ key.
        subst (λ o. Unrecorded now key (queue_of key l.state) (queue_of key o.0.state)) (sym e)
          (dry_run-Unrecorded now key active l);
    had_room = λ h. absurd (refused_ne_ok e' _ refl h);
    recorded = λ h. absurd (refused_ne_ok e' _ refl h);
  }

  -- The policies of one submission are charged together or not at all. A refused batch has
  -- recorded no call: each queue is as it was, or only lost its old entries. In an admitted batch
  -- each active policy had room before any call was recorded, and then each bucket's queue gains
  -- one entry for each policy that charges it.
  pub check_and_record_policies-Batched :
      let r = check_and_record_policies policies now l in Batched r.0 r.1
  unfolding check_and_record_policies
  check_and_record_policies-Batched = commit_checked-Batched (dry_run active now l) refl
