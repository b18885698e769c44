-- ===== src/Depsort.antt =====
-- crates/iac-controlplane/src/depsort.rs: the order and the layers that `metadata.dependsOn` asks
-- for. serde_json's parser is the parameter `from_str`. An error carries the fixed part of its text.
pub mod Layers
pub mod Counts
pub mod Kahn
pub mod Edges
pub mod Picks
pub mod Order
use iac.Prelude.{
  ℕ, zero, suc, ◌+◌, ◌-◌, max, Bool, true, false, not, ◌&&◌, ◌||◌, Option, none, some, List, [],
  ◌∷◌, ◌++◌, map, String, str_eq, ◌==◌, ltb, if◌then◌else◌, any, length, get_elem?, get_or, set,
  keep_if, replicate, ApiResult, ok, err, bad_request, internal, ◌>>=◌, ◌>>◌, guard, ok_or,
}
use iac.Json.{Value, Items, nil, cons, get, as_array, as_str}
use iac.Tables.{ResourceForRouting}

abbrev pub seen_before : String → List String → Bool
seen_before s = any (λ t. str_eq t s)

-- The loop over the entries; `seen` holds those that came before.
read_entries : Items → List String → ApiResult (List String)
read_entries nil seen = ok []
read_entries (cons item items) seen =
    let rest = λ (s : String). read_entries items (s ∷ seen) in
    elim (as_str item) [
      | none ↦ err (bad_request "metadata.dependsOn entries must be strings")
      | some s ↦
          if seen_before s seen
          then err (bad_request "metadata.dependsOn has duplicate entry")
          else (rest s >>= λ out. ok (s ∷ out))
    ]

depends_on_value : Value → ApiResult (List String)
unfolding read_entries
depends_on_value value = elim (get "metadata" value) [
  | none ↦ ok []
  | some m ↦ elim (get "dependsOn" m) [
    | none ↦ ok []
    | some deps ↦ elim (as_array deps) [
      | none ↦ err (bad_request "metadata.dependsOn must be an array of resource id strings")
      | some entries ↦ read_entries entries []
    ]
  ]
]

-- The map from a resource id to its index: a later resource of the same id takes the entry.
abbrev pub IdToIdx : Type 0
IdToIdx = List (String × ℕ)

abbrev pub find_idx : String → IdToIdx → Option ℕ
find_idx id [] = none
find_idx id ((k, i) ∷ m) = if str_eq k id then some i else find_idx id m

unfoldable pub id_to_idx : ℕ → List ResourceForRouting → IdToIdx → IdToIdx
id_to_idx i [] m = m
id_to_idx i (r ∷ rs) m = id_to_idx (suc i) rs ((r.resource_id, i) ∷ m)

module _ (from_str : String → Option Value) where
  unfoldable pub read_depends_on : String → ApiResult (List String)
  unfolding depends_on_value
  read_depends_on resource_json = do
    value ← ok_or (from_str resource_json) (bad_request "malformed resource json")
    depends_on_value value

-- The inner loop of `compute_resource_layers`: `next` is `max_dep_layer + 1`, and `layers` the
-- part of the vector that is already known.
unfoldable pub max_dep : IdToIdx → List ℕ → ℕ → List String → ℕ → ApiResult ℕ
max_dep ids layers i [] next = ok next
max_dep ids layers i (dep_id ∷ deps) next =
    let rest =
      λ (dep_idx : ℕ). max_dep ids layers i deps (max next (suc (get_or layers dep_idx 0))) in
    elim (find_idx dep_id ids) [
      | none ↦ err (bad_request "dependsOn references unknown resource")
      | some dep_idx ↦
          if ltb dep_idx i
          then rest dep_idx
          else err (internal "compute_resource_layers: dep not yet visited")
    ]

module _ (from_str : String → Option Value) where
  layer_loop : IdToIdx → ℕ → List ℕ → List ResourceForRouting → ApiResult (List ℕ)
  unfolding max_dep read_depends_on
  layer_loop ids i layers [] = ok layers
  layer_loop ids i layers (r ∷ rs) = do
    deps ← read_depends_on from_str r.resource_json
    layer ← max_dep ids layers i deps 0
    layer_loop ids (suc i) (layers ++ layer ∷ []) rs

  unfoldable pub compute_resource_layers : List ResourceForRouting → ApiResult (List ℕ)
  unfolding layer_loop id_to_idx
  compute_resource_layers routing = layer_loop (id_to_idx 0 routing []) 0 [] routing

-- The arrays that `topo_sort_by_depends_on` builds.
pub record Graph : Type 0 where
  pub in_degree : List ℕ
  pub adjacency : List (List ℕ)

-- `adjacency[dep_idx].push(i); in_degree[i] += 1`.
unfoldable pub add_edge : ℕ → ℕ → Graph → Graph
add_edge dep_idx i g = record g {
  in_degree = set g.in_degree i (get_or g.in_degree i 0 + 1);
  adjacency = set g.adjacency dep_idx (get_or g.adjacency dep_idx [] ++ i ∷ []);
}

unfoldable pub add_edges : IdToIdx → ℕ → List String → Graph → ApiResult Graph
unfolding add_edge
add_edges ids i [] g = ok g
add_edges ids i (dep_id ∷ deps) g =
    let rest = λ (dep_idx : ℕ). add_edges ids i deps (add_edge dep_idx i g) in
    elim (find_idx dep_id ids) [
      | none ↦ err (bad_request "dependsOn references unknown resource")
      | some dep_idx ↦
          if dep_idx == i
          then err (bad_request "dependsOn must not point at itself")
          else rest dep_idx
    ]

module _ (from_str : String → Option Value) where
  unfoldable pub build_graph : IdToIdx → ℕ → List ResourceForRouting → Graph → ApiResult Graph
  unfolding add_edges read_depends_on
  build_graph ids i [] g = ok g
  build_graph ids i (r ∷ rs) g = do
    deps ← read_depends_on from_str r.resource_json
    g' ← add_edges ids i deps g
    build_graph ids (suc i) rs g'

-- `(0..n).filter(|&i| in_degree[i] == 0)`, from `i` on.
unfoldable pub seeds : ℕ → List ℕ → List ℕ
seeds i [] = []
seeds i (d ∷ ds) = if d == 0 then i ∷ seeds (suc i) ds else seeds (suc i) ds

-- The `for` loop over the successors: their degrees and the queue.
unfoldable pub relax : List ℕ → List ℕ → List ℕ → List ℕ × List ℕ
relax [] in_degree queue = (in_degree, queue)
relax (next ∷ rest) in_degree queue =
    let d = get_or in_degree next 0 - 1 in
    relax rest (set in_degree next d) (if d == 0 then queue ++ next ∷ [] else queue)

-- Kahn's loop. Each round takes one node from the queue, so n rounds are enough for n nodes; the
-- result is the degrees and the order.
unfoldable pub kahn : ℕ → List (List ℕ) → List ℕ → List ℕ → List ℕ → List ℕ × List ℕ
unfolding relax
kahn fuel adjacency in_degree [] order = (in_degree, order)
kahn zero adjacency in_degree (idx ∷ queue) order = (in_degree, order)
kahn (suc fuel) adjacency in_degree (idx ∷ queue) order =
    let relaxed = relax (get_or adjacency idx []) in_degree queue in
    kahn fuel adjacency relaxed.0 relaxed.1 (order ++ idx ∷ [])

-- `taker[idx].take().expect(..)` for each index of the order: none where the `expect` panics.
unfoldable pub take_all {ℓ} : {A : Type ℓ} → List (Option A) → List ℕ → Option (List A)
take_all taker [] = some []
take_all taker (idx ∷ order) =
    let rest = take_all (set taker idx none) order in
    elim (get_or taker idx none) [
      | none ↦ none
      | some x ↦ elim rest [ none ↦ none | some xs ↦ some (x ∷ xs) ]
    ]

abbrev pub empty_graph : ℕ → Graph
empty_graph n = record { in_degree = replicate n 0; adjacency = replicate n [] }

abbrev pub kahn_order : ℕ → Graph → List ℕ
kahn_order n g = (kahn n g.adjacency g.in_degree (seeds 0 g.in_degree) []).1

-- The early returns on an empty list give what the rest gives there. A panic stands as an internal
-- error of its own text.
module _ (from_str : String → Option Value) where
  unfoldable pub topo_sort_by_depends_on :
      List ResourceForRouting → ApiResult (List ResourceForRouting)
  unfolding id_to_idx build_graph seeds kahn take_all
  topo_sort_by_depends_on routing = do
    let n = length routing
    g ← build_graph from_str (id_to_idx 0 routing []) 0 routing (empty_graph n)
    guard (length (kahn_order n g) == n) (bad_request "dependsOn cycle detected")
    ok_or (take_all (map some routing) (kahn_order n g)) (internal "each idx is visited once")
