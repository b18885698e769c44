-- ===== src/PrepareRollback/Latest.antt =====
-- The choice of the latest row.
use iac.Prelude.{
  ℕ, ◌≡◌, ◌≤◌, ◌⊎◌, refl, inl, inr, Option, none, some, List, [], ◌∷◌, All, leb, arith,
  if◌then◌else◌, Bool-cases, subst,
}
use iac.Tables.{DesiredState}
use iac.PrepareRollback.{latest}

abbrev pub Timed : Type 0
Timed = ℕ × DesiredState

abbrev pub BestSoFar : ℕ → Option Timed → Type 0
BestSoFar t none = Unit
BestSoFar t (some b) = b.0 ≤ t

some-injective : {z w : Timed} → some z ≡ some w → z ≡ w
some-injective q = cc

-- The result is the best so far or one of the list, and none of these is later.
pub record Chosen (best : Option Timed) (xs : List Timed) (x : Timed) : Type 1 where
  pub from : (best ≡ some x) ⊎ ((P : Timed → Type 0) → All P xs → P x)
  pub over_best : BestSoFar x.0 best
  pub over_all : All (λ (y : Timed). y.0 ≤ x.0) xs

pub latest-Chosen :
    (best : Option Timed) (xs : List Timed) (x : Timed) → latest best xs ≡ some x → Chosen best xs x
unfolding latest
latest-Chosen none [] x h = cc
latest-Chosen (some b) [] x h =
    let e : b.0 ≡ x.0 = ground (arith, h) in
    record { from = inl h; over_best = omega (arith, e); over_all = tt }
latest-Chosen none (y ∷ ys) x h =
    let c = latest-Chosen (some y) ys x h in
    record {
      from =
          inr
            (λ P all. elim c.from [ inl e ↦ subst P (some-injective e) all.0 | inr k ↦ k P all.1 ]);
      over_best = tt;
      over_all = (c.over_best, c.over_all);
    }
latest-Chosen (some b) (y ∷ ys) x h = elim (Bool-cases (leb b.0 y.0)) [
  | inl e ↦
      let c = latest-Chosen (some y) ys x (ground (arith, e, h)) in
      record {
        from =
            inr (λ P all. elim c.from [
              | inl f ↦ subst P (some-injective f) all.0
              | inr k ↦ k P all.1
            ]);
        over_best = ground (arith, e, c.over_best);
        over_all = (c.over_best, c.over_all);
      }
  | inr e ↦
      let c = latest-Chosen (some b) ys x (ground (arith, e, h)) in
      record {
        from = elim c.from [ inl f ↦ inl f | inr k ↦ inr (λ P all. k P all.1) ];
        over_best = c.over_best;
        over_all = (ground (arith, e, c.over_best), c.over_all);
      }
]

pub latest-none : (xs : List Timed) → latest none xs ≡ none → xs ≡ []
unfolding latest
latest-none [] h = refl
latest-none (x ∷ xs) h = absurd (never (some x) xs refl h)
  where
    never :
        (best : Option Timed) (ys : List Timed)
        → {b : Timed} → best ≡ some b
        → latest best ys ≡ none
        → ⊥
    never (some b) [] e g = cc
    never none ys e g = cc
    never (some b) (y ∷ ys) e g = never (some (if leb b.0 y.0 then y else b)) ys refl g
