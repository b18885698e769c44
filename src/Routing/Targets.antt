-- ===== src/Routing/Targets.antt =====
-- Where a routed resource goes.
use iac.Prelude.{
  ◌≡◌, refl, ap, count_if-zero→any, inl, inr, Bool, true, false, ◌&&◌, Option, none, some, List, [],
  ◌∷◌, String, str_eq, keep_if, any, arith, Bool-cases, ◌==◌, length, ◌≤◌, count_if,
}
use iac.Tables.{Agent, ResourceForRouting}
use iac.Routing.{
  Target, ok, err, route_resource, named_host, only_agent, env_agents, no_such_host, no_agents,
  ambiguous,
}

-- The agents that a resource may go to: those of the environment, and under a host selector only
-- those of that name.
abbrev pub eligible : Option String → String → Agent → Bool
eligible none env a = str_eq a.environment env
eligible (some host) env a = str_eq a.name host && str_eq a.environment env

-- What the routing promises: an eligible agent, the only one where there is no selector, or the
-- reason why there is none or more than one.
abbrev pub RouteSpec : Option String → String → List Agent → Target → Type 0
RouteSpec sel env agents (ok id) =
    (any (λ a. eligible sel env a && a.id == id) agents ≡ true)
    × ((sel ≡ none) → count_if (eligible sel env) agents ≡ 1)
RouteSpec sel env agents (err (no_such_host host)) =
    (sel ≡ some host) × (any (eligible sel env) agents ≡ false)
RouteSpec sel env agents (err no_agents) = (sel ≡ none) × (any (eligible sel env) agents ≡ false)
RouteSpec sel env agents (err (ambiguous n)) =
    (sel ≡ none) × (count_if (eligible sel env) agents ≡ n) × (2 ≤ n)

abbrev Hosted : String → String → List Agent → Target → Type 0
Hosted host env agents (ok id) = any (λ a. eligible (some host) env a && a.id == id) agents ≡ true
Hosted host env agents (err u) =
    (u ≡ no_such_host host) × (any (eligible (some host) env) agents ≡ false)

Hosted-weaken :
    (host env : String) (a : Agent) (agents : List Agent) (t : Target)
    → eligible (some host) env a ≡ false
    → Hosted host env agents t
    → Hosted host env (a ∷ agents) t
Hosted-weaken host env a agents (ok id) e h = ground arith
Hosted-weaken host env a agents (err u) e h = ground arith

named_host-Hosted :
    (host env : String) (agents : List Agent) → Hosted host env agents (named_host host env agents)
unfolding named_host
named_host-Hosted host env [] = (refl, refl)
named_host-Hosted host env (a ∷ agents) = elim (Bool-cases (eligible (some host) env a)) [
  | inl e ↦ rw e (ground arith)
  | inr e ↦ rw e (
      Hosted-weaken host env a agents (named_host host env agents) e
        (named_host-Hosted host env agents))
]

length-env_agents :
    (env : String) (agents : List Agent)
    → length (env_agents env agents) ≡ count_if (eligible none env) agents
length-env_agents env [] = refl
length-env_agents env (a ∷ agents) = ground (arith, length-env_agents env agents)

any-keep_if :
    (p q : Agent → Bool) (xs : List Agent)
    → any q (keep_if p xs) ≡ true
    → any (λ x. p x && q x) xs ≡ true
any-keep_if p q [] h = h
any-keep_if p q (x ∷ xs) h = ground (arith, any-keep_if p q xs)

Hosted→RouteSpec :
    (host env : String) (agents : List Agent) (t : Target)
    → Hosted host env agents t
    → RouteSpec (some host) env agents t
Hosted→RouteSpec host env agents (ok id) h = (h, λ e. cc)
Hosted→RouteSpec host env agents (err u) h = rw (h.0) (refl, h.1)

only_agent-RouteSpec :
    (env : String) (agents found : List Agent)
    → env_agents env agents ≡ found
    → RouteSpec none env agents (only_agent found)
unfolding only_agent
only_agent-RouteSpec env agents [] e = (
  refl,
  count_if-zero→any (eligible none env) agents
      (omega (arith, length-env_agents env agents, ap length e)),
)
only_agent-RouteSpec env agents (a ∷ []) e = (
  any-keep_if (eligible none env) (λ b. b.id == a.id) agents (rw e (ground arith)),
  λ _. omega (arith, length-env_agents env agents, ap length e),
)
only_agent-RouteSpec env agents (a ∷ b ∷ rest) e =
    (refl, omega (arith, length-env_agents env agents, ap length e), omega arith)

by_selector :
    (sel : Option String) (env : String) (agents : List Agent) (r : ResourceForRouting)
    → r.host_selector ≡ sel
    → RouteSpec sel env agents (route_resource r env agents)
unfolding route_resource
by_selector none env agents r e = rw (e, route_resource) (only_agent-RouteSpec env agents _ refl)
by_selector (some host) env agents r e =
    rw (e, route_resource) (Hosted→RouteSpec host env agents _ (named_host-Hosted host env agents))

-- A resource goes to an agent of the operation's environment, of the selected name if it has a
-- selector, and to the only one of the environment if it has none. It is left unrouted exactly for
-- the reason that is given: no agent of that name there, no agent there, or n of them, with n ≥ 2.
pub route_resource-RouteSpec :
    (r : ResourceForRouting) (env : String) (agents : List Agent)
    → RouteSpec r.host_selector env agents (route_resource r env agents)
route_resource-RouteSpec r env agents = by_selector r.host_selector env agents r refl
