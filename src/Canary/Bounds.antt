-- ===== src/Canary/Bounds.antt =====
-- The canary is a proper part of the agents of a layer.
use iac.Prelude.{
  ℕ, suc, ◌+◌, ◌-◌, ◌*◌, ◌/◌, ◌≤◌, ◌<◌, ◌≡◌, refl, ◌⊎◌, inl, inr, min, max, Bool, none, some, List,
  [], ◌∷◌, ◌==◌, leb, if◌then◌else◌, length, arith, count_if, ◌%◌, All, map, ◌++◌,
}
use native.Mathlib.Decide.{dec_le}
use native.Mathlib.Nat.{mod-eq_of_lt}
use iac.Tables.{CanarySpec}
use iac.Canary.{
  canary_count, split_layer, split_layers, clamp, Split, LayerAgents, compute_canary_split,
}

-- Of a layer of at least two agents, at least one and not all go first, whatever the percentage
-- and the minimum that are asked for.
pub canary_count_bounds :
    (n : ℕ) (spec : CanarySpec) → 2 ≤ n → (1 ≤ canary_count n spec) × (canary_count n spec < n)
unfolding canary_count
canary_count_bounds n spec h = ground arith

share :
    (n x m : ℕ)
    → 2 ≤ n
    → x ≤ 4294967295
    → let q = max ((min 4294967295 x + 99) / 100) m in
      (x ≤ 100 * min (n - 1) q) ⊎ (min (n - 1) q ≡ n - 1)
share n x m h k =
    let q = max ((min 4294967295 x + 99) / 100) m in
    elim (dec_le q (n - 1)) [ yes e ↦ inl (omega arith) | no e ↦ inr (omega arith) ]

pct_fits : (n p : ℕ) → p ≤ 99 → n * 99 ≤ 4294967295 → n * p ≤ 4294967295
pct_fits n p h k = grind arith

-- The share is kept: the percentage of the agents goes first, unless all but one do.
canary_count-share :
    (n : ℕ) (spec : CanarySpec)
    → 2 ≤ n
    → n * 99 ≤ 4294967295
    → (n * clamp 1 99 spec.pct ≤ 100 * canary_count n spec) ⊎ (canary_count n spec ≡ n - 1)
unfolding canary_count
canary_count-share n spec h k =
    share n (n * clamp 1 99 spec.pct) (max 1 (elim spec.min_count [ none ↦ 1 | some c ↦ c ])) h
      (pct_fits n (clamp 1 99 spec.pct) (omega arith) k)

abbrev pub in_batch : ℕ → ℕ × ℕ × ℕ → Bool
in_batch b e = e.2 == b

split_layer-canary :
    (layer count i : ℕ) (agents : List ℕ)
    → count_if (in_batch 0) (split_layer layer count i agents) ≡ min (count - i) (length agents)
unfolding split_layer
split_layer-canary layer count i [] = omega arith
split_layer-canary layer count i (a ∷ agents) =
    ground (arith, split_layer-canary layer count (suc i) agents)

split_layer-baseline :
    (layer count i : ℕ) (agents : List ℕ)
    → count_if (in_batch 1) (split_layer layer count i agents)
      ≡ length agents - min (count - i) (length agents)
unfolding split_layer
split_layer-baseline layer count i [] = omega arith
split_layer-baseline layer count i (a ∷ agents) =
    ground (arith, split_layer-baseline layer count (suc i) agents)

-- The entries of one layer: its agents in order, at least one of them in the canary batch, at least
-- one in the baseline, and the canary as large as `canary_count` says.
pub record IsPortion (spec : CanarySpec) (layer : ℕ) (agents : List ℕ) (part : Split) : Type 0 where
  pub covers : map (λ e. e.0) part ≡ agents
  pub on_layer : All (λ e. e.1 ≡ layer) part
  pub canary : count_if (in_batch 0) part ≡ canary_count (length agents) spec
  pub total : count_if (in_batch 0) part + count_if (in_batch 1) part ≡ length agents
  pub some_first : 1 ≤ count_if (in_batch 0) part
  pub some_later : 1 ≤ count_if (in_batch 1) part

-- The split is made of one part for each layer, empty where the layer has at most one agent.
abbrev pub IsSplit : CanarySpec → LayerAgents → Split → Type 0
IsSplit spec [] split = split ≡ []
IsSplit spec ((layer, agents) ∷ rest) split =
    (part : Split) × (others : Split) × (split ≡ part ++ others)
    × (length agents ≤ 1 → part ≡ [])
    × (2 ≤ length agents → IsPortion spec layer agents part)
    × IsSplit spec rest others

split_layer-covers :
    (layer count i : ℕ) (agents : List ℕ)
    → map (λ e. e.0) (split_layer layer count i agents) ≡ agents
unfolding split_layer
split_layer-covers layer count i [] = refl
split_layer-covers layer count i (a ∷ agents) = rw (split_layer-covers layer count (suc i) agents)

split_layer-on_layer :
    (layer count i : ℕ) (agents : List ℕ)
    → All (λ e. e.1 ≡ layer) (split_layer layer count i agents)
unfolding split_layer
split_layer-on_layer layer count i [] = tt
split_layer-on_layer layer count i (a ∷ agents) =
    (refl, split_layer-on_layer layer count (suc i) agents)

split_layer-IsPortion :
    (spec : CanarySpec) (layer : ℕ) (agents : List ℕ)
    → 2 ≤ length agents
    → IsPortion spec layer agents (split_layer layer (canary_count (length agents) spec) 0 agents)
split_layer-IsPortion spec layer agents h =
    let c = canary_count (length agents) spec in
    let bounds = canary_count_bounds (length agents) spec h in
    let first = split_layer-canary layer c 0 agents in
    let later = split_layer-baseline layer c 0 agents in
    record {
      covers = split_layer-covers layer c 0 agents;
      on_layer = split_layer-on_layer layer c 0 agents;
      canary = omega (arith, bounds.1);
      total = omega (arith, bounds.1);
      some_first = omega (arith, bounds.0);
      some_later = omega (arith, bounds.1);
    }

layer_part : CanarySpec → ℕ → List ℕ → Split
layer_part spec layer agents =
    let n = length agents % 4294967296 in
    if leb n 1 then [] else split_layer layer (canary_count n spec) 0 agents

layer_part-nil :
    (spec : CanarySpec) (layer : ℕ) (agents : List ℕ)
    → length agents ≤ 1
    → layer_part spec layer agents ≡ []
unfolding layer_part
layer_part-nil spec layer agents h = ground arith

layer_part-split :
    (spec : CanarySpec) (layer : ℕ) (agents : List ℕ)
    → 2 ≤ length agents
    → length agents < 4294967296
    → layer_part spec layer agents ≡ split_layer layer (canary_count (length agents) spec) 0 agents
unfolding layer_part
layer_part-split spec layer agents h k = rw (mod-eq_of_lt k) (ground arith)

split_layers-IsSplit :
    (spec : CanarySpec) (layers : LayerAgents)
    → All (λ e. length e.1 < 4294967296) layers
    → IsSplit spec layers (split_layers layers spec)
unfolding split_layers layer_part
split_layers-IsSplit spec [] h = refl
split_layers-IsSplit spec ((layer, agents) ∷ rest) h = (
  layer_part spec layer agents,
  split_layers rest spec,
  refl,
  layer_part-nil spec layer agents,
  λ two.
      rw (layer_part-split spec layer agents two h.0) (split_layer-IsPortion spec layer agents two),
  split_layers-IsSplit spec rest h.1,
)

-- With a canary requested, and fewer than 2 ^ 32 agents in each layer, each layer of at least two
-- agents is split into a canary and a baseline that are both non-empty and together hold every
-- agent of the layer once; smaller layers are not split.
pub compute_canary_split-IsSplit :
    (spec : CanarySpec) (layers : LayerAgents)
    → All (λ e. length e.1 < 4294967296) layers
    → IsSplit spec layers (compute_canary_split layers (some spec))
unfolding compute_canary_split
compute_canary_split-IsSplit spec layers h = split_layers-IsSplit spec layers h
