-- ===== src/Depsort/Edges.antt =====
-- The graph that `topo_sort_by_depends_on` builds: the degrees count the edges, and each dependency
-- has its edge.
use iac.Prelude.{
  ℕ, zero, suc, ◌+◌, ◌≤◌, ◌<◌, ◌≡◌, refl, sym, subst, ap, ◌∙◌, inl, inr, Bool, true, false, Option,
  some, List, [], ◌∷◌, ◌++◌, All, All-append, ◌==◌, String, str_eq, if◌then◌else◌, length,
  count_if-append, get_or, replicate, arith, Bool-cases, Option-cases, ok, ok-injective, >>=-eq-ok,
}
use iac.Json.{Value}
use iac.Tables.{ResourceForRouting}
use iac.Depsort.{
  IdToIdx, find_idx, id_to_idx, Graph, add_edge, add_edges, build_graph, read_depends_on,
  empty_graph,
}
use iac.Depsort.Counts.{occ, arrows, arrows-extend, length-set, get_or-set}

-- Every index of the map is below the number of resources.
abbrev pub Within : ℕ → IdToIdx → Type 0
Within n = All (λ (e : String × ℕ). e.1 < n)

pub id_to_idx-Within :
    (n i : ℕ) (rs : List ResourceForRouting) (m : IdToIdx)
    → i + length rs ≤ n
    → Within n m
    → Within n (id_to_idx i rs m)
unfolding id_to_idx
id_to_idx-Within n i [] m h w = w
id_to_idx-Within n i (r ∷ rs) m h w =
    id_to_idx-Within n (suc i) rs ((r.resource_id, i) ∷ m) (omega arith) (omega arith, w)

find_idx-lt :
    (n : ℕ) (d : String) (m : IdToIdx) (u : ℕ) → Within n m → find_idx d m ≡ some u → u < n
find_idx-lt n d [] u w h = cc
find_idx-lt n d ((k, i) ∷ m) u w h = elim (Bool-cases (str_eq k d)) [
  | inl e ↦ ground (arith, e, h, w.0)
  | inr e ↦ find_idx-lt n d m u w.1 (ground (arith, e, h))
]

pub record IsCounted (n : ℕ) (g : Graph) : Type 0 where
  pub sized : length g.in_degree ≡ n
  pub tabled : length g.adjacency ≡ n
  pub degrees : (v : ℕ) → get_or g.in_degree v 0 ≡ arrows v g.adjacency
  pub fits : (u : ℕ) → All (λ v. v < n) (get_or g.adjacency u [])

either_fits :
    (n : ℕ) (xs ys : List ℕ) (b : Bool)
    → All (λ v. v < n) xs
    → All (λ v. v < n) ys
    → All (λ v. v < n) (if b then xs else ys)
either_fits n xs ys true h k = h
either_fits n xs ys false h k = k

add_edge-IsCounted :
    (n u i : ℕ) (g : Graph) → u < n → i < n → IsCounted n g → IsCounted n (add_edge u i g)
unfolding add_edge
add_edge-IsCounted n u i g p q c = record {
  sized = length-set g.in_degree i _ ∙ c.sized;
  tabled = length-set g.adjacency u _ ∙ c.tabled;
  degrees = λ v. ground (
    arith,
    get_or-set g.in_degree i v (get_or g.in_degree i 0 + 1) 0 (omega (arith, c.sized)),
    arrows-extend v u i g.adjacency (omega (arith, c.tabled)),
    c.degrees v,
    c.degrees i,
  );
  fits = λ w.
      rw
        (get_or-set g.adjacency u w (get_or g.adjacency u [] ++ i ∷ []) []
          (omega (arith, c.tabled)))
        (either_fits n (get_or g.adjacency u [] ++ i ∷ []) (get_or g.adjacency w []) (w == u)
          (All-append (λ v. v < n) (get_or g.adjacency u []) (i ∷ []) (c.fits u) (q, tt))
          (c.fits w));
}

-- No edge is lost.
abbrev pub Grows : Graph → Graph → Type 0
Grows g g' = (u v : ℕ) → 0 < occ v (get_or g.adjacency u []) → 0 < occ v (get_or g'.adjacency u [])

add_edge-Grows : (n u i : ℕ) (g : Graph) → u < n → IsCounted n g → Grows g (add_edge u i g)
unfolding add_edge
add_edge-Grows n u i g p c w v h = ground (
  arith,
  ap (occ v)
      (get_or-set g.adjacency u w (get_or g.adjacency u [] ++ i ∷ []) [] (omega (arith, c.tabled))),
  count_if-append (λ x. x == v) (get_or g.adjacency u []) (i ∷ []),
  h,
)

add_edge_own :
    (n u i : ℕ) (g : Graph)
    → u < n
    → IsCounted n g
    → 0 < occ i (get_or (add_edge u i g).adjacency u [])
unfolding add_edge
add_edge_own n u i g p c = ground (
  arith,
  ap (occ i)
      (get_or-set g.adjacency u u (get_or g.adjacency u [] ++ i ∷ []) [] (omega (arith, c.tabled))),
  count_if-append (λ x. x == i) (get_or g.adjacency u []) (i ∷ []),
)

-- Each dependency names a node with an edge to `v`.
abbrev pub HasEdges : IdToIdx → Graph → ℕ → List String → Type 0
HasEdges ids g v deps =
    All (λ d. (u : ℕ) × (find_idx d ids ≡ some u) × (0 < occ v (get_or g.adjacency u []))) deps

HasEdges-Grows :
    (ids : IdToIdx) (g g' : Graph) (v : ℕ) (deps : List String)
    → Grows g g'
    → HasEdges ids g v deps
    → HasEdges ids g' v deps
HasEdges-Grows ids g g' v [] k h = tt
HasEdges-Grows ids g g' v (d ∷ deps) k ((u, e, p), h) =
    ((u, e, k u v p), HasEdges-Grows ids g g' v deps k h)

module _ (n : ℕ) (ids : IdToIdx) (within : Within n ids) where
  record Added (i : ℕ) (deps : List String) (g g' : Graph) : Type 0 where
    counted : IsCounted n g'
    grows : Grows g g'
    edges : HasEdges ids g' i deps

  add_edges-Added :
      (i : ℕ) (deps : List String) (g g' : Graph)
      → i < n
      → IsCounted n g
      → add_edges ids i deps g ≡ ok g'
      → Added i deps g g'
  unfolding add_edges
  add_edges-Added i [] g g' p c h =
      let same = ok-injective h in
      record {
        counted = subst (IsCounted n) same c;
        grows = subst (Grows g) same (λ u v k. k);
        edges = tt;
      }
  add_edges-Added i (d ∷ deps) g g' p c h = elim (Option-cases (find_idx d ids)) [
    | inl e ↦ absurd (ground (arith, e, h))
    | inr (u, e) ↦
        let lt = find_idx-lt n d ids u within e in
        let rest =
          add_edges-Added i deps (add_edge u i g) g' p (add_edge-IsCounted n u i g lt p c)
            (ground (arith, e, h)) in
        record {
          counted = rest.counted;
          grows = λ w v k. rest.grows w v (add_edge-Grows n u i g lt c w v k);
          edges = ((u, e, rest.grows u i (add_edge_own n u i g lt c)), rest.edges);
        }
  ]

  module _ (from_str : String → Option Value) where
    -- Each resource's dependencies are read, and have their edges.
    abbrev pub AllEdges : Graph → ℕ → List ResourceForRouting → Type 0
    AllEdges g i [] = Unit
    AllEdges g i (r ∷ rs) =
        ((deps : List String) × (read_depends_on from_str r.resource_json ≡ ok deps)
          × HasEdges ids g i deps)
        × AllEdges g (suc i) rs

    pub record Built (i : ℕ) (rs : List ResourceForRouting) (g g' : Graph) : Type 0 where
      pub counted : IsCounted n g'
      pub grows : Grows g g'
      pub edges : AllEdges g' i rs

    pub build_graph-Built :
        (i : ℕ) (rs : List ResourceForRouting) (g g' : Graph)
        → i + length rs ≤ n
        → IsCounted n g
        → build_graph from_str ids i rs g ≡ ok g'
        → Built i rs g g'
    unfolding build_graph
    build_graph-Built i [] g g' p c h =
        let same = ok-injective h in
        record {
          counted = subst (IsCounted n) same c;
          grows = subst (Grows g) same (λ u v k. k);
          edges = tt;
        }
    build_graph-Built i (r ∷ rs) g g' p c h =
        let (deps, reads, h1) = >>=-eq-ok (read_depends_on from_str r.resource_json) _ h in
        let (mid, added, h2) = >>=-eq-ok (add_edges ids i deps g) _ h1 in
        let a = add_edges-Added i deps g mid (omega arith) c added in
        let b = build_graph-Built (suc i) rs mid g' (omega arith) a.counted h2 in
        record {
          counted = b.counted;
          grows = λ u v k. b.grows u v (a.grows u v k);
          edges = ((deps, reads, HasEdges-Grows ids mid g' i deps b.grows a.edges), b.edges);
        }

get_or-replicate {ℓ} : {A : Type ℓ} (n i : ℕ) (d : A) → get_or (replicate n d) i d ≡ d
get_or-replicate zero i d = refl
get_or-replicate (suc n) zero d = refl
get_or-replicate (suc n) (suc i) d = get_or-replicate n i d

length-replicate {ℓ} : {A : Type ℓ} (n : ℕ) (d : A) → length (replicate n d) ≡ n
length-replicate zero d = refl
length-replicate (suc n) d = omega (arith, length-replicate n d)

arrows-replicate : (v n : ℕ) → arrows v (replicate n []) ≡ 0
arrows-replicate v zero = refl
arrows-replicate v (suc n) = omega (arith, arrows-replicate v n)

pub empty_graph-IsCounted : (n : ℕ) → IsCounted n (empty_graph n)
empty_graph-IsCounted n = record {
  sized = length-replicate n 0;
  tabled = length-replicate n [];
  degrees = λ v. get_or-replicate n v 0 ∙ sym (arrows-replicate v n);
  fits = λ u. rw (get_or-replicate {A = List ℕ} n u []) tt;
}
