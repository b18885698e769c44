-- ===== src/Canary.antt =====
-- crates/iac-controlplane/src/store.rs: `bucket_agents_per_layer` and `compute_canary_split`.
pub mod Bounds
use iac.Prelude.{
  ℕ, zero, suc, ◌+◌, ◌-◌, ◌*◌, ◌/◌, ◌%◌, ◌^◌, min, max, Bool, Option, none, some, List, [], ◌∷◌,
  ◌++◌, ◌==◌, ltb, leb, if◌then◌else◌, length, ◌&&◌,
}
use iac.Tables.{CanarySpec}

-- Agents by layer, each list sorted and without duplicates.
abbrev pub LayerAgents : Type 0
LayerAgents = List (ℕ × List ℕ)

-- `v.contains` and `v.push`, then `v.sort`: an insertion that keeps the order.
unfoldable pub insert_sorted : ℕ → List ℕ → List ℕ
insert_sorted n [] = n ∷ []
insert_sorted n (m ∷ ms) =
    if n == m then m ∷ ms else if ltb n m then n ∷ m ∷ ms else m ∷ insert_sorted n ms

-- `BTreeMap::entry(layer).or_default()`, with the layers in ascending order.
unfoldable pub add_agent : ℕ → ℕ → LayerAgents → LayerAgents
unfolding insert_sorted
add_agent layer agent [] = (layer, agent ∷ []) ∷ []
add_agent layer agent ((l, agents) ∷ rest) =
    if layer == l
    then (l, insert_sorted agent agents) ∷ rest
    else if ltb layer l
    then (layer, agent ∷ []) ∷ (l, agents) ∷ rest
    else (l, agents) ∷ add_agent layer agent rest

unfoldable pub bucket_agents_per_layer : List (ℕ × ℕ) → LayerAgents
unfolding add_agent
bucket_agents_per_layer [] = []
bucket_agents_per_layer ((agent, layer) ∷ keys) =
    add_agent layer agent (bucket_agents_per_layer keys)

abbrev u32_max : ℕ
u32_max = 4294967295

abbrev pub clamp : ℕ → ℕ → ℕ → ℕ
clamp lo hi x = max lo (min hi x)

-- How many of the n agents of a layer go first: ceil(n * pct / 100), at least `min_count`, and at
-- most n - 1. `saturating_mul` stops at the largest u32.
unfoldable pub canary_count : ℕ → CanarySpec → ℕ
canary_count n spec =
    let pct = clamp 1 99 spec.pct in
    let min_count = max 1 (elim spec.min_count [ none ↦ 1 | some c ↦ c ]) in
    let from_pct = (min u32_max (n * pct) + 99) / 100 in min (n - 1) (max from_pct min_count)

-- The map from (agent, layer) to the batch, as the list of its entries.
abbrev pub Split : Type 0
Split = List (ℕ × ℕ × ℕ)

unfoldable pub split_layer : ℕ → ℕ → ℕ → List ℕ → Split
split_layer layer count i [] = []
split_layer layer count i (agent ∷ agents) =
    (agent, layer, if ltb i count then 0 else 1) ∷ split_layer layer count (suc i) agents

abbrev u32_mod : ℕ
u32_mod = 4294967296

unfoldable pub split_layers : LayerAgents → CanarySpec → Split
unfolding canary_count split_layer
split_layers [] spec = []
split_layers ((layer, agents) ∷ rest) spec =
    let n = length agents % u32_mod in
    (if leb n 1 then [] else split_layer layer (canary_count n spec) 0 agents)
    ++ split_layers rest spec

unfoldable pub compute_canary_split : LayerAgents → Option CanarySpec → Split
unfolding split_layers
compute_canary_split agents_per_layer none = []
compute_canary_split agents_per_layer (some spec) = split_layers agents_per_layer spec

unfoldable pub batch_of : ℕ → ℕ → Split → Option ℕ
batch_of agent layer [] = none
batch_of agent layer ((a, l, b) ∷ split) =
    if a == agent && l == layer then some b else batch_of agent layer split
