-- ===== src/Lifecycle/Unique.antt =====
-- Rows with a primary key: no call removes one, and while the key is unique no call adds another.
use iac.Prelude.{
  ℕ, ◌≤◌, ◌≡◌, refl, inl, inr, Bool, true, Option, List, [], ◌∷◌, ◌++◌, All, All-append, String,
  ◌==◌, count_if, count_if-append, update_where, arith, Bool-cases,
}
use iac.Json.{Value}
use iac.Tables.{Db}
use iac.Lifecycle.{Step, Reach, here, next}

module _ (from_str : String → Option Value) (count : Db → ℕ) (P : Db → Type 0)
    (grows : (db db' : Db) → Step from_str db db' → count db ≤ count db')
    (keeps : (db db' : Db) → Step from_str db db' → count db' ≤ count db → P db → P db') where
  -- What calls keep that add no row of the key holds after any calls, if one row has the key at the
  -- start, and no more than one at the end.
  pub Reach-unique :
      (start db : Db)
      → Reach from_str start db
      → 1 ≤ count start
      → count db ≤ 1
      → P start
      → P db × (1 ≤ count db)
  Reach-unique start _ here there unique p = (p, there)
  Reach-unique start _ (next {db} {db'} r s) there unique p =
      let more = grows db db' s in
      let (q, still) = Reach-unique start db r there (omega (arith, more, unique)) p in
      (keeps db db' s (omega (arith, unique, still)) q, omega (arith, more, still))

module _ {A : Type 0} (key : A → ℕ) (x : ℕ) where
  abbrev pub has_key : A → Bool
  has_key a = key a == x

  pub count-update_where :
      (p : A → Bool) (f : A → A)
      → ((a : A) → key (f a) ≡ key a)
      → (rows : List A) → count_if has_key (update_where p f rows) ≡ count_if has_key rows
  count-update_where p f same [] = refl
  count-update_where p f same (a ∷ rows) = elim (Bool-cases (p a)) [
    | inl e ↦ rw (e, same a) (ground (arith, count-update_where p f same rows))
    | inr e ↦ rw e (ground (arith, count-update_where p f same rows))
  ]

  module _ (settled : A → Bool) where
    -- The rows of the key, wherever they stand in the table, are settled.
    abbrev pub IsSettled : A → Type 0
    IsSettled a = has_key a ≡ true → settled a ≡ true

    no_key-IsSettled : (rows : List A) → count_if has_key rows ≤ 0 → All IsSettled rows
    no_key-IsSettled [] h = tt
    no_key-IsSettled (a ∷ rows) h =
        (λ e. absurd (ground (arith, e, h)), no_key-IsSettled rows (ground (arith, h)))

    pub append-IsSettled :
        (rows created : List A)
        → All IsSettled rows
        → count_if has_key (rows ++ created) ≤ count_if has_key rows
        → All IsSettled (rows ++ created)
    append-IsSettled rows created h n =
        All-append IsSettled rows created h
          (no_key-IsSettled created (omega (arith, n, count_if-append has_key rows created)))
