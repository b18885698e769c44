-- ===== src/Depsort/Layers.antt =====
-- The layer of a resource is one more than the highest layer among its dependencies.
use iac.Prelude.{
  ℕ, suc, ◌≤◌, ◌<◌, ◌≡◌, refl, ◌∙◌, sym, ap, ◌⊎◌, inl, inr, max, Option, some, List, [], ◌∷◌, ◌++◌,
  String, ltb, ltb→lt, arith, length, length-append, get_or, get_or-append_left,
  get_or-append_length, Bool-cases, Option-cases, ok, ◌>>=◌, subst, >>=-eq-ok,
}
use mathlib.Core.List.{append_assoc, append-nil}
use iac.Json.{Value}
use iac.Tables.{ResourceForRouting}
use iac.Depsort.{
  IdToIdx, find_idx, id_to_idx, read_depends_on, max_dep, layer_loop, compute_resource_layers,
}

-- Each dependency names an earlier resource, of a lower layer.
abbrev pub DepsBelow : IdToIdx → List ℕ → ℕ → ℕ → List String → Type 0
DepsBelow ids layers i layer [] = Unit
DepsBelow ids layers i layer (d ∷ deps) =
    ((j : ℕ) × (find_idx d ids ≡ some j) × (j < i) × (get_or layers j 0 < layer))
    × DepsBelow ids layers i layer deps

-- Some dependency lies exactly one layer below.
abbrev pub DepReaches : IdToIdx → List ℕ → ℕ → ℕ → List String → Type 0
DepReaches ids layers i layer [] = ⊥
DepReaches ids layers i layer (d ∷ deps) =
    ((j : ℕ) × (find_idx d ids ≡ some j) × (j < i) × (suc (get_or layers j 0) ≡ layer))
    ⊎ DepReaches ids layers i layer deps

DepsBelow-mono :
    (ids : IdToIdx) (layers : List ℕ) (i m n : ℕ) (deps : List String)
    → m ≤ n
    → DepsBelow ids layers i m deps
    → DepsBelow ids layers i n deps
DepsBelow-mono ids layers i m n [] h b = tt
DepsBelow-mono ids layers i m n (d ∷ deps) h ((j, e, lt, low), rest) =
    ((j, e, lt, omega arith), DepsBelow-mono ids layers i m n deps h rest)

-- What the inner loop has found out when it ends with `layer`, from `next`.
record MaxDep (ids : IdToIdx) (layers : List ℕ) (i next : ℕ) (deps : List String) (layer : ℕ)
    : Type 0 where
  below : DepsBelow ids layers i layer deps
  grows : next ≤ layer
  reached : (layer ≡ next) ⊎ DepReaches ids layers i layer deps

max_dep-cons :
    (ids : IdToIdx) (layers : List ℕ) (i next : ℕ) (d : String) (deps : List String) (layer : ℕ)
    → max_dep ids layers i (d ∷ deps) next ≡ ok layer
    → (j : ℕ) × (find_idx d ids ≡ some j)
      × (j < i)
      × (max_dep ids layers i deps (max next (suc (get_or layers j 0))) ≡ ok layer)
unfolding max_dep
max_dep-cons ids layers i next d deps layer h = elim (Option-cases (find_idx d ids)) [
  | inl e ↦ absurd (ground arith)
  | inr (j, e) ↦ elim (Bool-cases (ltb j i)) [
    | inl t ↦ (j, e, ground arith, ground arith)
    | inr t ↦ absurd (ground arith)
  ]
]

reached_here :
    (ids : IdToIdx) (layers : List ℕ) (i next j : ℕ) (d : String) (deps : List String) (layer : ℕ)
    → find_idx d ids ≡ some j
    → j < i
    → layer ≡ max next (suc (get_or layers j 0))
    → (layer ≡ next) ⊎ DepReaches ids layers i layer (d ∷ deps)
reached_here ids layers i next j d deps layer e lt same =
    elim (Bool-cases (ltb next (suc (get_or layers j 0)))) [
      | inl t ↦ inr (inl (j, e, lt, omega (arith, ltb→lt next (suc (get_or layers j 0)) t)))
      | inr t ↦ inl (ground arith)
    ]

max_dep-MaxDep :
    (ids : IdToIdx) (layers : List ℕ) (i next : ℕ) (deps : List String) (layer : ℕ)
    → max_dep ids layers i deps next ≡ ok layer
    → MaxDep ids layers i next deps layer
unfolding max_dep
max_dep-MaxDep ids layers i next [] layer h =
    let e : next ≡ layer = ground arith in
    record { below = tt; grows = omega arith; reached = inl (sym e) }
max_dep-MaxDep ids layers i next (d ∷ deps) layer h =
    let (j, e, lt, rest) = max_dep-cons ids layers i next d deps layer h in
    let m = max_dep-MaxDep ids layers i (max next (suc (get_or layers j 0))) deps layer rest in
    record {
      below = ((j, e, lt, omega (arith, m.grows)), m.below);
      grows = omega (arith, m.grows);
      reached = elim m.reached [
        | inl same ↦ reached_here ids layers i next j d deps layer e lt same
        | inr later ↦ inr (inr later)
      ];
    }

-- What holds of resource `i` and its dependencies, in the finished layers.
pub record IsLayered (from_str : String → Option Value) (ids : IdToIdx) (layers : List ℕ) (i : ℕ)
    (r : ResourceForRouting) : Type 0 where
  pub deps : List String
  pub reads : read_depends_on from_str r.resource_json ≡ ok deps
  pub below : DepsBelow ids layers i (get_or layers i 0) deps
  pub tight : (get_or layers i 0 ≡ 0) ⊎ DepReaches ids layers i (get_or layers i 0) deps

abbrev pub AllLayered :
    (String → Option Value) → IdToIdx → List ℕ → ℕ → List ResourceForRouting → Type 0
AllLayered from_str ids layers i [] = Unit
AllLayered from_str ids layers i (r ∷ rs) =
    IsLayered from_str ids layers i r × AllLayered from_str ids layers (suc i) rs

module _ (ids : IdToIdx) (layers more : List ℕ) (i layer : ℕ) (fits : i ≤ length layers) where
  below_extends :
      (deps : List String)
      → DepsBelow ids layers i layer deps
      → DepsBelow ids (layers ++ more) i layer deps
  below_extends [] b = tt
  below_extends (d ∷ deps) ((j, e, lt, low), rest) = (
    (j, e, lt, rw (get_or-append_left layers more j 0 (omega arith)) low),
    below_extends deps rest,
  )

  reaches_extends :
      (deps : List String)
      → DepReaches ids layers i layer deps
      → DepReaches ids (layers ++ more) i layer deps
  reaches_extends [] r = r
  reaches_extends (d ∷ deps) (inl (j, e, lt, same)) =
      inl (j, e, lt, rw (get_or-append_left layers more j 0 (omega arith)) same)
  reaches_extends (d ∷ deps) (inr r) = inr (reaches_extends deps r)

module _ (from_str : String → Option Value) (ids : IdToIdx) where
  -- What the outer loop adds to the layers that are known.
  record Extended (layers : List ℕ) (i : ℕ) (rs : List ResourceForRouting) (out : List ℕ)
      : Type 0 where
    more : List ℕ
    is_out : out ≡ layers ++ more
    long : length more ≡ length rs
    layered : AllLayered from_str ids out i rs

  layer_loop-cons :
      (i : ℕ) (layers : List ℕ) (r : ResourceForRouting) (rs : List ResourceForRouting)
      (out : List ℕ)
      → layer_loop from_str ids i layers (r ∷ rs) ≡ ok out
      → (deps : List String) × (layer : ℕ) × (read_depends_on from_str r.resource_json ≡ ok deps)
        × (max_dep ids layers i deps 0 ≡ ok layer)
        × (layer_loop from_str ids (suc i) (layers ++ layer ∷ []) rs ≡ ok out)
  unfolding layer_loop
  layer_loop-cons i layers r rs out h =
      let next = λ (layer : ℕ). layer_loop from_str ids (suc i) (layers ++ layer ∷ []) rs in
      let (deps, reads, h') =
        >>=-eq-ok (read_depends_on from_str r.resource_json)
          (λ deps. max_dep ids layers i deps 0 >>= next) h in
      let (layer, found, h'') = >>=-eq-ok (max_dep ids layers i deps 0) next h' in
      (deps, layer, reads, found, h'')

  extend :
      (i : ℕ) (layers : List ℕ) (r : ResourceForRouting) (rs : List ResourceForRouting)
      (out : List ℕ) (deps : List String) (layer : ℕ)
      → i ≡ length layers
      → read_depends_on from_str r.resource_json ≡ ok deps
      → MaxDep ids layers i 0 deps layer
      → Extended (layers ++ layer ∷ []) (suc i) rs out
      → Extended layers i (r ∷ rs) out
  extend i layers r rs out deps layer n reads m rest =
      let all : out ≡ layers ++ (layer ∷ rest.more) =
        rest.is_out ∙ append_assoc layers (layer ∷ []) rest.more in
      let here : get_or out i 0 ≡ layer =
        rw (all, n) (get_or-append_length layers rest.more layer 0) in
      let below = below_extends ids layers (layer ∷ rest.more) i layer (omega arith) deps m.below in
      record {
        more = layer ∷ rest.more;
        is_out = all;
        long = omega (arith, rest.long);
        layered = (
          record {
            deps = deps;
            reads = reads;
            below = rw here (subst (λ l. DepsBelow ids l i layer deps) (sym all) below);
            tight = rw here (elim m.reached [
              | inl base ↦ inl base
              | inr some_dep ↦ inr (
                  subst (λ l. DepReaches ids l i layer deps) (sym all)
                    (reaches_extends ids layers (layer ∷ rest.more) i layer (omega arith) deps
                      some_dep))
            ]);
          },
          rest.layered,
        );
      }

  layer_loop-Extended :
      (i : ℕ) (layers : List ℕ) (rs : List ResourceForRouting) (out : List ℕ)
      → i ≡ length layers
      → layer_loop from_str ids i layers rs ≡ ok out
      → Extended layers i rs out
  unfolding layer_loop
  layer_loop-Extended i layers [] out n h = record {
    more = [];
    is_out = rw append-nil (ground arith);
    long = refl;
    layered = tt;
  }
  layer_loop-Extended i layers (r ∷ rs) out n h =
      let (deps, layer, reads, found, h') = layer_loop-cons i layers r rs out h in
      extend i layers r rs out deps layer n reads (max_dep-MaxDep ids layers i 0 deps layer found) (
        layer_loop-Extended (suc i) (layers ++ layer ∷ []) rs out
          (omega (arith, n, length-append layers (layer ∷ []))) h')

-- Layers that are computed are one for each resource. Each dependency of a resource names an earlier
-- resource, of a lower layer, and a resource above layer 0 has a dependency on the layer just below.
pub compute_resource_layers-AllLayered :
    (from_str : String → Option Value) (routing : List ResourceForRouting) (layers : List ℕ)
    → compute_resource_layers from_str routing ≡ ok layers
    → (length layers ≡ length routing)
      × AllLayered from_str (id_to_idx 0 routing []) layers 0 routing
unfolding compute_resource_layers
compute_resource_layers-AllLayered from_str routing layers h =
    let x = layer_loop-Extended from_str (id_to_idx 0 routing []) 0 [] routing layers refl h in
    (ap length x.is_out ∙ x.long, x.layered)
