-- ===== src/Depsort/Order.antt =====
-- What `topo_sort_by_depends_on` returns, and when.
use iac.Prelude.{
  ℕ, zero, suc, ◌+◌, ◌≤◌, ◌<◌, ◌≡◌, ◌≢◌, refl, subst, ap, inr, Option, some, List, [], ◌∷◌, ◌++◌,
  map, All, ◌==◌, String, length, get_or, get_elem?, arith, ok, >>=-eq-ok, guard-ok, internal,
}
use native.Mathlib.Decide.{dec_lt}
use iac.Json.{Value}
use iac.Tables.{ResourceForRouting}
use iac.Depsort.{
  IdToIdx, find_idx, id_to_idx, Graph, build_graph, read_depends_on, empty_graph, kahn, kahn_order,
  seeds, take_all, topo_sort_by_depends_on,
}
use iac.Depsort.Counts.{occ, arrows, arrows_source, Below, pigeonhole_full, each_length}
use iac.Depsort.Kahn.{Visiting, kahn-Visiting, seeds-freed, Topological}
use iac.Depsort.Edges.{
  Within, id_to_idx-Within, IsCounted, HasEdges, AllEdges, build_graph-Built, empty_graph-IsCounted,
}
use iac.Depsort.Picks.{
  cell_of, some-injective, ok_or-some, cell_some, get_or_beyond, take_all_picks, take_all_total,
}

module _ (from_str : String → Option Value) (routing : List ResourceForRouting) where
  abbrev pub ids : IdToIdx
  ids = id_to_idx 0 routing []

  ids-Within : Within (length routing) ids
  ids-Within = id_to_idx-Within (length routing) 0 routing [] (omega arith) tt

  -- Each dependency of the resource at `v` names an index among `before`.
  abbrev pub DepsAmong : List ℕ → ℕ → Type 0
  DepsAmong before v =
      (r : ResourceForRouting)
      → get_elem? routing v ≡ some r
      → (deps : List String) × (read_depends_on from_str r.resource_json ≡ ok deps)
        × All (λ d. (u : ℕ) × (find_idx d ids ≡ some u) × (0 < occ u before)) deps

  abbrev pub DepsFirst : List ℕ → List ℕ → Type 0
  DepsFirst before [] = Unit
  DepsFirst before (v ∷ order) = DepsAmong before v × DepsFirst (before ++ v ∷ []) order

  -- The list `sorted` holds the resources in an order in which each index stands once, after those
  -- of its dependencies.
  pub record IsSortedBy (order : List ℕ) (sorted : List ResourceForRouting) : Type 0 where
    pub long : length order ≡ length routing
    pub once : (v : ℕ) → v < length routing → occ v order ≡ 1
    pub picks : map some sorted ≡ map (get_elem? routing) order
    pub deps_first : DepsFirst [] order

  abbrev EdgesOf : Graph → ResourceForRouting → ℕ → Type 0
  EdgesOf g r v =
      (deps : List String) × (read_depends_on from_str r.resource_json ≡ ok deps)
      × HasEdges ids g v deps

  AllEdges-at :
      (g : Graph) (i k : ℕ) (rs : List ResourceForRouting) (r : ResourceForRouting)
      → AllEdges (length routing) ids ids-Within from_str g i rs
      → get_elem? rs k ≡ some r
      → EdgesOf g r (i + k)
  AllEdges-at g i k [] r e h = absurd (ground (arith, h))
  AllEdges-at g i zero (s ∷ rs) r e h =
      subst (λ x. EdgesOf g x (i + 0)) (some-injective h) (subst (EdgesOf g s) (omega arith) e.0)
  AllEdges-at g i (suc k) (s ∷ rs) r e h =
      subst (EdgesOf g r) (omega arith) (AllEdges-at g (suc i) k rs r e.1 h)

  module _ (g : Graph) (c : IsCounted (length routing) g)
      (edges : AllEdges (length routing) ids ids-Within from_str g 0 routing) where
    visited_start :
        Visiting
          (length routing)
          g.adjacency
          c.fits
          g.adjacency
          g.in_degree
          (seeds 0 g.in_degree)
          []
    visited_start = record {
      counted = record {
        size = c.sized;
        degrees = λ v k. omega (arith, c.degrees v);
        visited = λ v. omega (arith, seeds-freed (length routing) g.in_degree c.sized v);
        fits = tt;
      };
      unread = λ u. refl;
      sorted = tt;
    }

    finished :
        (rem : List (List ℕ)) × Visiting
          (length routing)
          g.adjacency
          c.fits
          rem
          (kahn (length routing) g.adjacency g.in_degree (seeds 0 g.in_degree) []).0
          []
          (kahn_order (length routing) g)
    finished =
        kahn-Visiting (length routing) g.adjacency c.fits (length routing) g.adjacency g.in_degree
          (seeds 0 g.in_degree) [] visited_start (omega arith)

    at_most_once : (v : ℕ) → occ v (kahn_order (length routing) g) ≤ 1
    at_most_once v = ground (arith, finished.1.counted.visited v)

    only_nodes : Below (length routing) (kahn_order (length routing) g)
    only_nodes v h = ground (arith, finished.1.counted.visited v)

    edge_lt : (u v : ℕ) → 0 < occ v (get_or g.adjacency u []) → u < length routing
    edge_lt u v h = elim (dec_lt u (length routing)) [
      | yes lt ↦ lt
      | no far ↦
          absurd (
            ground
              (arith, h, ap (occ v) (get_or_beyond g.adjacency u [] (omega (arith, c.tabled)))))
    ]

    -- A node that the loop leaves out has a node of lower rank that is left out too.
    none_left :
        (rank : ℕ → ℕ)
        → ((u v : ℕ) → 0 < occ v (get_or g.adjacency u []) → rank u < rank v)
        → (k v : ℕ) → v < length routing
        → rank v < k
        → occ v (kahn_order (length routing) g) ≢ 0
    none_left rank ranked zero v lt low left = absurd (omega arith)
    none_left rank ranked (suc k) v lt low left =
        let (rem, s) = finished in
        let busy : 0 < arrows v rem = ground (arith, s.counted.visited v, s.counted.degrees v lt) in
        let (u, some_edge) = arrows_source v rem busy in
        let same = ap (occ v) (s.unread u) in
        let unvisited : occ u (kahn_order (length routing) g) ≡ 0 =
          ground (arith, same, some_edge) in
        let edge : 0 < occ v (get_or g.adjacency u []) = ground (arith, same, some_edge) in
        none_left rank ranked k u (edge_lt u v edge) (omega (arith, ranked u v edge)) unvisited

    occurs_lt : (v : ℕ) → 0 < occ v (kahn_order (length routing) g) → v < length routing
    occurs_lt v h = elim (dec_lt v (length routing)) [
      | yes lt ↦ lt
      | no far ↦ absurd (omega (arith, only_nodes v (omega arith)))
    ]

    deps-DepsAmong :
        (before : List ℕ) (v : ℕ) (deps : List String)
        → ((u : ℕ) → 0 < occ v (get_or g.adjacency u []) → 0 < occ u before)
        → HasEdges ids g v deps
        → All (λ d. (u : ℕ) × (find_idx d ids ≡ some u) × (0 < occ u before)) deps
    deps-DepsAmong before v [] t h = tt
    deps-DepsAmong before v (d ∷ deps) t ((u, e, p), h) =
        ((u, e, t u p), deps-DepsAmong before v deps t h)

    Topological-DepsFirst :
        (before order : List ℕ) → Topological g.adjacency before order → DepsFirst before order
    Topological-DepsFirst before [] t = tt
    Topological-DepsFirst before (v ∷ order) t = (
      λ r h.
          let (deps, reads, e) =
            subst (EdgesOf g r) (omega arith) (AllEdges-at g 0 v routing r edges h) in
          (deps, reads, deps-DepsAmong before v deps t.0 e),
      Topological-DepsFirst (before ++ v ∷ []) order t.1,
    )

  -- A sort that succeeds returns the resources in such an order: a rearrangement in which every
  -- dependency comes before the resources that name it.
  pub topo_sort-IsSortedBy :
      (sorted : List ResourceForRouting)
      → topo_sort_by_depends_on from_str routing ≡ ok sorted
      → (order : List ℕ) × IsSortedBy order sorted
  unfolding topo_sort_by_depends_on
  topo_sort-IsSortedBy sorted h =
      let n = length routing in
      let (g, built, h1) = >>=-eq-ok (build_graph from_str ids 0 routing (empty_graph n)) _ h in
      let b =
        build_graph-Built n ids ids-Within from_str 0 routing (empty_graph n) g (omega arith)
          (empty_graph-IsCounted n) built in
      let (full, h2) = guard-ok (length (kahn_order n g) == n) _ _ h1 in
      let taken =
        ok_or-some (take_all (map some routing) (kahn_order n g))
          (internal "each idx is visited once") h2 in
      let long : length (kahn_order n g) ≡ n = ground (arith, full) in
      (
        kahn_order n g,
        record {
          long = long;
          once =
              pigeonhole_full n (kahn_order n g) (only_nodes g b.counted b.edges)
                (at_most_once g b.counted b.edges) long;
          picks =
              take_all_picks routing (map some routing) (kahn_order n g) sorted
                (λ j. inr (cell_of routing j)) taken;
          deps_first =
              Topological-DepsFirst g b.counted b.edges [] (kahn_order n g)
                (finished g b.counted b.edges).1.sorted;
        },
      )

  -- If the graph is built, that is if the dependencies of every resource are read and name submitted
  -- resources, and some ranking of the indexes puts the source of each of its edges below the target,
  -- the sort succeeds.
  pub topo_sort_total :
      (g : Graph) (rank : ℕ → ℕ)
      → build_graph from_str ids 0 routing (empty_graph (length routing)) ≡ ok g
      → ((u v : ℕ) → 0 < occ v (get_or g.adjacency u []) → rank u < rank v)
      → (sorted : List ResourceForRouting) × (topo_sort_by_depends_on from_str routing ≡ ok sorted)
  unfolding topo_sort_by_depends_on
  topo_sort_total g rank built ranked =
      let n = length routing in
      let b =
        build_graph-Built n ids ids-Within from_str 0 routing (empty_graph n) g (omega arith)
          (empty_graph-IsCounted n) built in
      let once : (v : ℕ) → v < n → occ v (kahn_order n g) ≡ 1 = λ v lt. ground (
        arith,
        at_most_once g b.counted b.edges v,
        none_left g b.counted b.edges rank ranked (suc (rank v)) v lt (omega arith),
      ) in
      let full = each_length n (kahn_order n g) (only_nodes g b.counted b.edges) once in
      let (sorted, taken) =
        take_all_total routing (map some routing) (kahn_order n g)
          (λ j occurs. cell_some routing j (occurs_lt g b.counted b.edges j occurs))
          (at_most_once g b.counted b.edges) in
      (sorted, ground (arith, built, full, taken))
