-- ===== src/RateLimit/Admission.antt =====
-- Which calls one bucket admits.
use iac.Prelude.{
  ℕ, ◌≤◌, ◌<◌, ◌≡◌, refl, inl, inr, false, List, [], ◌∷◌, ◌++◌, String, str_eq, leb, arith, keep_if,
  length, length-append, Bool-cases, ApiResult, ok, err, too_many_requests, RateLimitBucket,
}
use text.Mathlib.TextPositions.{eq_refl}
use iac.RateLimit.Window.{
  queue_of, put, queue_of-put, IsTimeline, recent, prune-recent, keep_if-IsTimeline,
  snoc-IsTimeline,
}
use iac.RateLimit.{RateLimiter, check_and_record_keyed_at, retry_secs, key_of, settle}

pub retry_secs_bounds : (now : ℕ) (q : List ℕ) → (1 ≤ retry_secs now q) × (retry_secs now q ≤ 60)
unfolding retry_secs
retry_secs_bounds now [] = omega arith
retry_secs_bounds now (t ∷ q) = (omega arith, ground arith)

module _ (b : RateLimitBucket) (cap now : ℕ) (l : RateLimiter) where
  -- What is left of the bucket's queue within the window.
  abbrev pub kept : List ℕ
  kept = keep_if (recent now) (queue_of (key_of b) l.state)

  -- What a check of the bucket answers and leaves behind.
  pub record Checked (l' : RateLimiter) (r : ApiResult (Unit {0})) : Type 0 where
    pub admits :
        length kept < cap
        → (r ≡ ok tt)
          × (queue_of (key_of b) l'.state ≡ kept ++ now ∷ [])
          × (length (queue_of (key_of b) l'.state) ≤ cap)
    pub refuses :
        cap ≤ length kept
        → (s : ℕ) × (r ≡ err (too_many_requests b s))
          × (1 ≤ s)
          × (s ≤ 60)
          × (queue_of (key_of b) l'.state ≡ kept)
    pub timeline : IsTimeline now (queue_of (key_of b) l'.state)
    pub others_stay :
        (key : String)
        → str_eq (key_of b) key ≡ false
        → queue_of key l'.state ≡ queue_of key l.state
    pub same_caps : l'.caps ≡ l.caps

  settle-Checked : IsTimeline now kept → let r = settle b cap now kept l in Checked r.0 r.1
  unfolding settle
  settle-Checked h = elim (Bool-cases (leb cap (length kept))) [
    | inl e ↦ rw e (record {
      admits = λ few. absurd (ground arith);
      refuses = λ many. (
        retry_secs now kept,
        refl,
        (retry_secs_bounds now kept).0,
        (retry_secs_bounds now kept).1,
        same kept,
      );
      timeline = rw (same kept) h;
      others_stay = λ key n. other kept key n;
      same_caps = refl;
    })
    | inr e ↦ rw e (record {
      admits = λ few. (
        refl,
        same (kept ++ now ∷ []),
        rw (same (kept ++ now ∷ [])) (omega (arith, length-append kept (now ∷ []))),
      );
      refuses = λ many. absurd (ground arith);
      timeline = rw (same (kept ++ now ∷ [])) (snoc-IsTimeline now kept h);
      others_stay = λ key n. other (kept ++ now ∷ []) key n;
      same_caps = refl;
    })
  ]
    where
      same : (q : List ℕ) → queue_of (key_of b) (put (key_of b) q l.state) ≡ q
      same q = rw (queue_of-put (key_of b) (key_of b) q l.state, eq_refl (key_of b))

      other :
          (q : List ℕ) (key : String)
          → str_eq (key_of b) key ≡ false
          → queue_of key (put (key_of b) q l.state) ≡ queue_of key l.state
      other q key n = rw (queue_of-put (key_of b) key q l.state, n)

  -- When the bucket's queue is in order and holds no later instant than `now`: a check is admitted
  -- exactly while fewer than `cap` calls lie within the window, and then the bucket's queue is
  -- those calls and this one, at most `cap` of them; otherwise it is refused with a wait of one to
  -- sixty seconds, and no call is recorded. The queue stays in order, other buckets keep their
  -- queues, and the caps stay.
  pub check_and_record-Checked :
      IsTimeline now (queue_of (key_of b) l.state)
      → let r = check_and_record_keyed_at b cap now l in Checked r.0 r.1
  unfolding check_and_record_keyed_at
  check_and_record-Checked h =
      rw (prune-recent now (queue_of (key_of b) l.state) h)
        (settle-Checked (keep_if-IsTimeline now (recent now) _ h))
