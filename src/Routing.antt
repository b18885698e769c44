-- ===== src/Routing.antt =====
-- crates/iac-controlplane/src/store.rs: `route_resource`, which picks the agent of a resource.
pub mod Targets
use iac.Prelude.{
  ℕ, Bool, ◌&&◌, Option, none, some, List, [], ◌∷◌, String, str_eq, if◌then◌else◌, keep_if, length,
}
use iac.Tables.{Agent, ResourceForRouting}

-- The three reasons for which a resource stays unrouted, with the values that their texts show.
pub data Unrouted : Type 0 where
  no_such_host : (host : String) → Unrouted
  no_agents : Unrouted
  ambiguous : (count : ℕ) → Unrouted

pub data Target : Type 0 where
  ok : (agent_id : ℕ) → Target
  err : Unrouted → Target

named_host : String → String → List Agent → Target
named_host host operation_env [] = err (no_such_host host)
named_host host operation_env (a ∷ agents) =
    if str_eq a.name host && str_eq a.environment operation_env
    then ok a.id
    else named_host host operation_env agents

abbrev pub env_agents : String → List Agent → List Agent
env_agents operation_env = keep_if (λ a. str_eq a.environment operation_env)

only_agent : List Agent → Target
only_agent [] = err no_agents
only_agent (a ∷ []) = ok a.id
only_agent (a ∷ b ∷ rest) = err (ambiguous (length (a ∷ b ∷ rest)))

unfoldable pub route_resource : ResourceForRouting → String → List Agent → Target
unfolding named_host only_agent
route_resource r operation_env agents = elim r.host_selector [
  | some host ↦ named_host host operation_env agents
  | none ↦ only_agent (env_agents operation_env agents)
]
