-- ===== src/Submit/Rows.antt =====
-- The assignments that `create_operation` and `approve_operation` insert.
use iac.Prelude.{
  any, ◌==◌, false, ℕ, zero, suc, ◌%◌, ◌<◌, ◌≡◌, refl, ap, subst, ok-injective, Bool, true, false,
  ◌&&◌, Option, none, some, List, [], ◌∷◌, All, All-append, String, ◌==◌, leb, if◌then◌else◌,
  length, arith, ok, >>=-eq-ok,
}
use iac.Json.{Value}
use iac.Tables.{Assignment, CanarySpec}
use iac.Rollout.Gate.{placed, IsPlaced}
use iac.Canary.{
  Split, LayerAgents, split_layer, split_layers, compute_canary_split, batch_of, canary_count,
}
use iac.Submit.{new_assignments, initial_assignment_status, payload_of}
use iac.Submit.Grouping.{Buckets}

-- The batches are 0, the canary, and 1, the baseline.
abbrev pub TwoBatches : Split → Type 0
TwoBatches = All (λ (s : ℕ × ℕ × ℕ). s.2 < 2)

split_layer-TwoBatches :
    (layer count i : ℕ) (agents : List ℕ) → TwoBatches (split_layer layer count i agents)
unfolding split_layer
split_layer-TwoBatches layer count i [] = tt
split_layer-TwoBatches layer count i (a ∷ agents) =
    (ground arith, split_layer-TwoBatches layer count (suc i) agents)

split_layers-TwoBatches :
    (layers : LayerAgents) (spec : CanarySpec) → TwoBatches (split_layers layers spec)
unfolding split_layers
split_layers-TwoBatches [] spec = tt
split_layers-TwoBatches ((layer, agents) ∷ rest) spec =
    All-append _ _ _ (one (leb (length agents % 4294967296) 1)) (split_layers-TwoBatches rest spec)
  where
    one :
        (b : Bool)
        → TwoBatches (
            if b
            then []
            else split_layer layer (canary_count (length agents % 4294967296) spec) 0 agents)
    one true = tt
    one false = split_layer-TwoBatches layer _ 0 agents

pub compute_canary_split-TwoBatches :
    (layers : LayerAgents) (canary : Option CanarySpec)
    → TwoBatches (compute_canary_split layers canary)
unfolding compute_canary_split
compute_canary_split-TwoBatches layers none = tt
compute_canary_split-TwoBatches layers (some spec) = split_layers-TwoBatches layers spec

abbrev IsBatch : Option ℕ → Type 0
IsBatch none = Unit {0}
IsBatch (some b) = b < 2

batch_of-IsBatch :
    (agent layer : ℕ) (split : Split) → TwoBatches split → IsBatch (batch_of agent layer split)
unfolding batch_of
batch_of-IsBatch agent layer [] h = tt
batch_of-IsBatch agent layer ((a, l, b) ∷ split) h =
    found (a == agent && l == layer) (batch_of-IsBatch agent layer split h.1)
  where
    found :
        (t : Bool)
        → IsBatch (batch_of agent layer split)
        → IsBatch (if t then some b else batch_of agent layer split)
    found true later = h.0
    found false later = later

initial-placed :
    (layer : ℕ) (batch : Option ℕ)
    → IsBatch batch
    → placed (initial_assignment_status layer batch) layer batch ≡ true
unfolding initial_assignment_status
initial-placed zero none h = refl
initial-placed zero (some zero) h = refl
initial-placed zero (some (suc zero)) h = refl
initial-placed zero (some (suc (suc b))) h = absurd (omega arith)
initial-placed (suc layer) none h = ground arith
initial-placed (suc layer) (some zero) h = ground arith
initial-placed (suc layer) (some (suc zero)) h = ground arith
initial-placed (suc layer) (some (suc (suc b))) h = ground arith

pub new_assignments-IsPlaced :
    (from_str : String → Option Value) (fresh : ℕ → ℕ) (k op_id now : ℕ) (split : Split)
    (buckets : Buckets) (rows : List Assignment)
    → TwoBatches split
    → new_assignments from_str fresh k op_id now split buckets ≡ ok rows
    → IsPlaced rows × (length rows ≡ length buckets)
unfolding new_assignments
new_assignments-IsPlaced from_str fresh k op_id now split [] rows t h = ground arith
new_assignments-IsPlaced from_str fresh k op_id now split (b ∷ buckets) rows t h =
    let (payload, reads, h1) = >>=-eq-ok (payload_of from_str b.items) _ h in
    let (rest, more, h2) =
      >>=-eq-ok (new_assignments from_str fresh (suc k) op_id now split buckets) _ h1 in
    let (p, n) =
      new_assignments-IsPlaced from_str fresh (suc k) op_id now split buckets rest t more in
    subst (λ r. IsPlaced r × (length r ≡ suc (length buckets))) (ok-injective h2)
      (
        (
          initial-placed b.layer (batch_of b.agent_id b.layer split)
              (batch_of-IsBatch b.agent_id b.layer split t),
          p,
        ),
        ap suc n,
      )

-- The new assignments are of the operation.
pub new_assignments-others :
    (other : ℕ) (from_str : String → Option Value) (fresh : ℕ → ℕ) (k op_id now : ℕ) (split : Split)
    (buckets : Buckets) (rows : List Assignment)
    → (op_id == other) ≡ false
    → new_assignments from_str fresh k op_id now split buckets ≡ ok rows
    → any (λ a. a.operation_id == other) rows ≡ false
unfolding new_assignments
new_assignments-others other from_str fresh k op_id now split [] rows n h = ground arith
new_assignments-others other from_str fresh k op_id now split (b ∷ buckets) rows n h =
    let (payload, reads, h1) = >>=-eq-ok (payload_of from_str b.items) _ h in
    let (rest, more, h2) =
      >>=-eq-ok (new_assignments from_str fresh (suc k) op_id now split buckets) _ h1 in
    let m =
      new_assignments-others other from_str fresh (suc k) op_id now split buckets rest n more in
    subst (λ r. any (λ a. a.operation_id == other) r ≡ false) (ok-injective h2)
      (ground (arith, n, m))
