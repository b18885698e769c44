-- ===== src/Policy/Growth.antt =====
-- A submission cannot slip out of a policy by growing.
use iac.Prelude.{
  ℕ, ◌≡◌, refl, inl, inr, Bool, true, false, Option, none, some, List, [], ◌∷◌, ◌++◌, String,
  str_eq, any, length-append, arith, Bool-cases,
}
use iac.Policy.{Policy, OperationFacts, matches, evaluate, kind_missing, too_few}

abbrev pub grown : OperationFacts → List String → OperationFacts
grown facts more = record facts { resources = facts.resources ++ more }

any-append : (p : String → Bool) (xs ys : List String) → any p xs ≡ true → any p (xs ++ ys) ≡ true
any-append p [] ys h = cc
any-append p (x ∷ xs) ys h = ground (arith, any-append p xs ys)

kind_missing-grown :
    (kind : Option String) (facts : OperationFacts) (more : List String)
    → kind_missing kind facts ≡ false
    → kind_missing kind (grown facts more) ≡ false
kind_missing-grown none facts more h = refl
kind_missing-grown (some k) facts more h =
    ground (arith, any-append (λ j. str_eq j k) facts.resources more)

too_few-grown :
    (min : Option ℕ) (facts : OperationFacts) (more : List String)
    → too_few min facts ≡ false
    → too_few min (grown facts more) ≡ false
too_few-grown none facts more h = refl
too_few-grown (some m) facts more h = ground (arith, length-append facts.resources more)

matches-grown :
    (p : Policy) (facts : OperationFacts) (more : List String)
    → matches p facts ≡ true
    → matches p (grown facts more) ≡ true
unfolding matches
matches-grown p facts more h = ground (
  arith,
  kind_missing-grown p.matching.kind facts more,
  too_few-grown p.matching.resource_count_min facts more,
)

-- Whatever holds of some policy that an operation meets holds of some policy that it still meets
-- with more resources: an operation cannot grow out of an approval or of a rate limit.
pub evaluate-grown :
    (q : Policy → Bool) (policies : List Policy) (facts : OperationFacts) (more : List String)
    → any q (evaluate policies facts) ≡ true
    → any q (evaluate policies (grown facts more)) ≡ true
unfolding evaluate
evaluate-grown q [] facts more h = h
evaluate-grown q (p ∷ policies) facts more h = elim (Bool-cases (matches p facts)) [
  | inl e ↦
      rw (matches-grown p facts more e) (ground (arith, e, evaluate-grown q policies facts more))
  | inr e ↦ ground (arith, e, evaluate-grown q policies facts more)
]
