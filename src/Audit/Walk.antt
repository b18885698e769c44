-- ===== src/Audit/Walk.antt =====
-- The chunked walk of the audit chain against the walk of the whole table at once.
use iac.Prelude.{
  ℕ, zero, suc, ◌≤◌, ◌<◌, max, min, ◌-◌, ◌⊎◌, ◌≡◌, refl, sym, subst, ap, ◌∙◌, inl, inr, true,
  Option, none, some, List, [], ◌∷◌, ltb, length, All, count_if_bound, keep_if, length-keep_if,
  is_some, unwrap_or, Bool-cases, arith,
}
use iac.Audit.{
  Bytes, AuditRow, AuditLog, Walked, broken, reached, take_rows, pending, verify_rows, verify_loop,
  chunk_size, seed_hash, audit_verify_chain_from,
}

-- The ids increase, from above the bound.
abbrev pub Ordered : ℕ → List AuditRow → Type 0
Ordered bound [] = Unit
Ordered bound (r ∷ rows) = (bound < r.id) × Ordered r.id rows

abbrev pub verdict : Walked → Option ℕ
verdict (broken id) = some id
verdict (reached prev_hash last_seen) = none

drop_rows : ℕ → List AuditRow → List AuditRow
drop_rows zero rows = rows
drop_rows (suc n) [] = []
drop_rows (suc n) (r ∷ rows) = drop_rows n rows

keep_if-pending :
    (c d : ℕ) (rows : List AuditRow)
    → c ≤ d
    → keep_if (pending d) (keep_if (pending c) rows) ≡ keep_if (pending d) rows
keep_if-pending c d [] h = refl
keep_if-pending c d (r ∷ rows) h = ground (arith, keep_if-pending c d rows h)

pub keep_if-Ordered :
    (last b c : ℕ) (rows : List AuditRow)
    → c ≤ max b last
    → Ordered b rows
    → Ordered c (keep_if (pending last) rows)
keep_if-Ordered last b c [] h o = tt
keep_if-Ordered last b c (r ∷ rows) h o = elim (Bool-cases (pending last r)) [
  | inl e ↦ rw e (ground (arith, e), keep_if-Ordered last r.id r.id rows (omega arith) o.1)
  | inr e ↦ rw e (keep_if-Ordered last r.id c rows (omega (arith, o.0)) o.1)
]

abbrev Chained : List AuditRow → Type 0
Chained = All (λ r. is_some r.row_hash ≡ true)

keep_if-Chained : (last : ℕ) (rows : List AuditRow) → Chained (keep_if (pending last) rows)
keep_if-Chained last [] = tt
keep_if-Chained last (r ∷ rows) = elim (Bool-cases (pending last r)) [
  | inl e ↦ rw e (ground (arith, e), keep_if-Chained last rows)
  | inr e ↦ rw e (keep_if-Chained last rows)
]

keep_if-same :
    (c b : ℕ) (rows : List AuditRow)
    → c ≤ b
    → Chained rows
    → Ordered b rows
    → keep_if (pending c) rows ≡ rows
keep_if-same c b [] h a o = refl
keep_if-same c b (r ∷ rows) h a o =
    ground (arith, a.0, o.0, keep_if-same c r.id rows (omega (arith, o.0)) a.1 o.1)

module _ (digest : Bytes → Bytes) where
  -- A chunk that was walked to its end leaves the rest of the rows to walk.
  record Stepped (n last : ℕ) (prev next : Bytes) (seen : ℕ) (rows : List AuditRow) : Type 0 where
    whole : verify_rows digest prev last rows ≡ verify_rows digest next seen (drop_rows n rows)
    ordered : Ordered seen (drop_rows n rows)
    later : last ≤ seen
    left : keep_if (pending seen) rows ≡ drop_rows n rows

  -- What a row that is intact says of the walk.
  verify_rows-cons :
      (prev : Bytes) (last : ℕ) (r : AuditRow) (rows : List AuditRow) (next : Bytes) (seen : ℕ)
      → verify_rows digest prev last (r ∷ rows) ≡ reached next seen
      → (more : List AuditRow)
      → (verify_rows digest prev last (r ∷ more)
          ≡ verify_rows digest (unwrap_or r.row_hash []) r.id more)
  unfolding verify_rows
  verify_rows-cons prev last r rows next seen h more = ground (arith, h)

  stop :
      {last seen : ℕ} {prev next : Bytes} {rows : List AuditRow}
      → prev ≡ next
      → last ≡ seen
      → Chained rows
      → Ordered last rows
      → Stepped zero last prev next seen rows
  unfolding drop_rows
  stop {last} {seen} {prev} {next} {rows} p q a o = record {
    whole = rw (p, q) refl;
    ordered = subst (λ c. Ordered c rows) q o;
    later = omega arith;
    left = keep_if-same seen last rows (omega arith) a o;
  }

  verify_rows-take :
      (n last : ℕ) (prev next : Bytes) (seen : ℕ) (rows : List AuditRow)
      → Chained rows
      → Ordered last rows
      → verify_rows digest prev last (take_rows n rows) ≡ reached next seen
      → Stepped n last prev next seen rows
  unfolding take_rows verify_rows drop_rows
  verify_rows-take zero last prev next seen rows a o h =
      stop (ground (arith, h)) (ground (arith, h)) a o
  verify_rows-take (suc n) last prev next seen [] a o h = record {
    whole = ground (arith, h);
    ordered = tt;
    later = ground (arith, h);
    left = refl;
  }
  verify_rows-take (suc n) last prev next seen (r ∷ rows) a o h =
      let stored = unwrap_or r.row_hash [] in
      let step = verify_rows-cons prev last r (take_rows n rows) next seen h in
      let s =
        verify_rows-take n r.id stored next seen rows a.1 o.1 (sym (step (take_rows n rows)) ∙ h) in
      record {
        whole = step rows ∙ s.whole;
        ordered = s.ordered;
        later = omega (arith, o.0, s.later);
        left = ground (arith, s.left, s.later);
      }

  verify_rows-take_broken :
      (n last : ℕ) (prev : Bytes) (id : ℕ) (rows : List AuditRow)
      → verify_rows digest prev last (take_rows n rows) ≡ broken id
      → verify_rows digest prev last rows ≡ broken id
  unfolding take_rows verify_rows
  verify_rows-take_broken zero last prev id rows h = absurd (ground (arith, h))
  verify_rows-take_broken (suc n) last prev id [] h = absurd (ground (arith, h))
  verify_rows-take_broken (suc n) last prev id (r ∷ rows) h =
      ground (arith, h, verify_rows-take_broken n r.id (unwrap_or r.row_hash []) id rows)

  Walked-cases :
      (w : Walked)
      → ((id : ℕ) × (w ≡ broken id)) ⊎ ((next : Bytes) × (seen : ℕ) × (w ≡ reached next seen))
  Walked-cases (broken id) = inl (id, refl)
  Walked-cases (reached next seen) = inr (next, seen, refl)

  length-take_rows :
      (n : ℕ) (rows : List AuditRow) → length (take_rows n rows) ≡ min n (length rows)
  unfolding take_rows
  length-take_rows zero rows = omega arith
  length-take_rows (suc n) [] = omega arith
  length-take_rows (suc n) (r ∷ rows) = omega (arith, length-take_rows n rows)

  length-drop_rows : (n : ℕ) (rows : List AuditRow) → length (drop_rows n rows) ≡ length rows - n
  unfolding drop_rows
  length-drop_rows zero rows = omega arith
  length-drop_rows (suc n) [] = omega arith
  length-drop_rows (suc n) (r ∷ rows) = omega (arith, length-drop_rows n rows)

  drop_rows-Chained : (n : ℕ) (rows : List AuditRow) → Chained rows → Chained (drop_rows n rows)
  unfolding drop_rows
  drop_rows-Chained zero rows a = a
  drop_rows-Chained (suc n) [] a = tt
  drop_rows-Chained (suc n) (r ∷ rows) a = drop_rows-Chained n rows a.1

  nothing_left :
      (prev : Bytes) (last : ℕ) (rows : List AuditRow)
      → length rows ≡ 0
      → verdict (verify_rows digest prev last rows) ≡ none
  unfolding verify_rows
  nothing_left prev last [] h = refl
  nothing_left prev last (r ∷ rows) h = absurd (omega arith)

  verify_loop-whole :
      (fuel chunk : ℕ) (table : List AuditRow) (prev : Bytes) (last : ℕ) (rows : List AuditRow)
      → 0 < chunk
      → keep_if (pending last) table ≡ rows
      → Ordered last rows
      → Chained rows
      → length rows < fuel
      → verify_loop digest fuel chunk table prev last
        ≡ some (verdict (verify_rows digest prev last rows))
  unfolding verify_loop
  verify_loop-whole zero chunk table prev last rows c k o a f = absurd (omega arith)
  verify_loop-whole (suc fuel) chunk table prev last rows c k o a f =
      elim (Walked-cases (verify_rows digest prev last (take_rows chunk rows))) [
        | inl (id, e) ↦
            rw (verify_loop, k, e, verify_rows-take_broken chunk last prev id rows e) refl
        | inr (next, seen, e) ↦
            let s = verify_rows-take chunk last prev next seen rows a o e in
            let left : keep_if (pending seen) table ≡ drop_rows chunk rows =
              sym (keep_if-pending last seen table s.later)
              ∙ ap (keep_if (pending seen)) k
              ∙ s.left in
            let taken = length-take_rows chunk rows in
            let dropped = length-drop_rows chunk rows in
            let size : length (take_rows chunk (keep_if (pending last) table))
                ≡ min chunk (length rows) =
              ap (λ x. length (take_rows chunk x)) k ∙ taken in
            elim (Bool-cases (ltb (length rows) chunk)) [
              | inl short ↦
                  let done =
                    nothing_left next seen (drop_rows chunk rows)
                      (ground (arith, short, dropped)) in
                  rw (verify_loop, k, e, s.whole) (ground (arith, size, done, short))
              | inr long ↦
                  let rest =
                    verify_loop-whole fuel chunk table next seen (drop_rows chunk rows) c left
                      s.ordered (drop_rows-Chained chunk rows a)
                      (ground (arith, dropped, long, f, c)) in
                  rw (verify_loop, k, e, s.whole) (ground (arith, size, rest, long, c))
            ]
      ]

  -- On a table whose ids increase from above 0, the walk in chunks ends, and finds the first broken
  -- row after `from_id` that one walk over all those rows finds, or none.
  pub audit_verify_chain_from-whole :
      (from_id : ℕ) (log : AuditLog)
      → Ordered 0 log.rows
      → audit_verify_chain_from digest from_id log
        ≡ some (
            verdict (
              verify_rows digest
                (seed_hash from_id log.rows)
                from_id
                (keep_if (pending from_id) log.rows)))
  unfolding audit_verify_chain_from
  audit_verify_chain_from-whole from_id log o =
      verify_loop-whole (suc (length log.rows)) chunk_size log.rows (seed_hash from_id log.rows)
        from_id (keep_if (pending from_id) log.rows) (omega arith) refl
        (keep_if-Ordered from_id 0 from_id log.rows (omega arith) o)
        (keep_if-Chained from_id log.rows)
        (omega (
          arith,
          length-keep_if (pending from_id) log.rows,
          count_if_bound (pending from_id) log.rows,
        ))
