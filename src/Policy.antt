-- ===== src/Policy.antt =====
-- crates/iac-controlplane/src/policy.rs: which policies an operation meets.
pub mod Growth
use iac.Prelude.{
  ℕ, Bool, true, false, not, ◌&&◌, ◌||◌, Option, none, some, List, [], ◌∷◌, String, str_eq, leb,
  any, length, is_none, if◌then◌else◌, keep_if,
}

pub record PolicyMatch : Type 0 where
  pub environment : Option String
  pub kind : Option String
  pub resource_count_min : Option ℕ

pub record Policy : Type 0 where
  pub name : String
  pub matching : PolicyMatch
  pub requires_approval : Bool
  pub approvers : List String
  pub rate_limit_per_minute : Option ℕ

pub record OperationFacts : Type 0 where
  pub environment : String
  pub resources : List String

abbrev wrong_environment : Option String → OperationFacts → Bool
wrong_environment none facts = false
wrong_environment (some env) facts = not (str_eq env "*") && not (str_eq env facts.environment)

abbrev too_few : Option ℕ → OperationFacts → Bool
too_few none facts = false
too_few (some min) facts = not (leb min (length facts.resources))

abbrev kind_missing : Option String → OperationFacts → Bool
kind_missing none facts = false
kind_missing (some kind) facts = not (any (λ k. str_eq k kind) facts.resources)

-- The early returns in their order; the last one is for an empty match block.
unfoldable pub matches : Policy → OperationFacts → Bool
matches p facts =
    let m = p.matching in
    if wrong_environment m.environment facts
    then false
    else if too_few m.resource_count_min facts
    then false
    else if kind_missing m.kind facts
    then false
    else not (is_none m.environment && is_none m.resource_count_min && is_none m.kind)

unfoldable pub evaluate : List Policy → OperationFacts → List Policy
unfolding matches
evaluate policies facts = keep_if (λ p. matches p facts) policies
