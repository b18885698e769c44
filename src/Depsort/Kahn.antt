-- ===== src/Depsort/Kahn.antt =====
-- The loop of Kahn's algorithm. `rem` is the adjacency with the lists of the nodes in the order
-- emptied: what is left of the edges.
use iac.Prelude.{
  ℕ, zero, suc, ◌+◌, ◌-◌, ◌≤◌, ◌<◌, ◌≡◌, refl, sym, subst, ap, ◌∙◌, ◌&&◌, List, [], ◌∷◌, ◌++◌, All,
  ◌==◌, ltb, if◌then◌else◌, length, length-append, count_if-append, get_or, set, arith,
}
use mathlib.Core.List.{append_assoc, append-nil}
use iac.Depsort.{relax, kahn, seeds}
use iac.Depsort.Counts.{
  occ, arrows, arrows-clear, occ-le-arrows, length-set, get_or-set, get_or-clear, Below, pigeonhole,
}

-- Whether a node is free of edges that are left.
abbrev pub freed : ℕ → List ℕ → ℕ → ℕ
freed n deg v = if ltb v n && get_or deg v 0 == 0 then 1 else 0

-- `left` holds the successors of the node in hand that are still to be looked at.
pub record Counted (n : ℕ) (rem : List (List ℕ)) (left deg queue order : List ℕ) : Type 0 where
  pub size : length deg ≡ n
  pub degrees : (v : ℕ) → v < n → get_or deg v 0 ≡ arrows v rem + occ v left
  pub visited : (v : ℕ) → occ v order + occ v queue ≡ freed n deg v
  pub fits : All (λ v. v < n) left

module _ (n : ℕ) (rem : List (List ℕ)) (order : List ℕ) where
  relax_one :
      (next : ℕ) (rest deg queue : List ℕ)
      → Counted n rem (next ∷ rest) deg queue order
      → let d = get_or deg next 0 - 1 in
        Counted n rem rest (set deg next d) (if d == 0 then queue ++ next ∷ [] else queue) order
  relax_one next rest deg queue c =
      let d = get_or deg next 0 - 1 in
      let within : next < length deg = omega (arith, c.fits.0, c.size) in
      let own = c.degrees next c.fits.0 in
      record {
        size = length-set deg next d ∙ c.size;
        degrees = λ v k. ground (arith, get_or-set deg next v d 0 within, c.degrees v k, own);
        visited = λ v. ground (
          arith,
          get_or-set deg next v d 0 within,
          c.visited v,
          own,
          c.fits.0,
          count_if-append (λ x. x == v) queue (next ∷ []),
        );
        fits = c.fits.1;
      }

  pub relax-Counted :
      (left deg queue : List ℕ)
      → Counted n rem left deg queue order
      → Counted n rem [] (relax left deg queue).0 (relax left deg queue).1 order
  unfolding relax
  relax-Counted [] deg queue c = c
  relax-Counted (next ∷ rest) deg queue c = relax-Counted rest _ _ (relax_one next rest deg queue c)

-- Each node of the list comes after all nodes with an edge to it.
abbrev pub Topological : List (List ℕ) → List ℕ → List ℕ → Type 0
Topological adjacency before [] = Unit
Topological adjacency before (v ∷ order) =
    ((u : ℕ) → 0 < occ v (get_or adjacency u []) → 0 < occ u before)
    × Topological adjacency (before ++ v ∷ []) order

Topological-snoc :
    (adjacency : List (List ℕ)) (before order : List ℕ) (v : ℕ)
    → Topological adjacency before order
    → ((u : ℕ) → 0 < occ v (get_or adjacency u []) → 0 < occ u (before ++ order))
    → Topological adjacency before (order ++ v ∷ [])
Topological-snoc adjacency before [] v t h =
    (λ u k. subst (λ l. 0 < occ u l) (append-nil before) (h u k), tt)
Topological-snoc adjacency before (w ∷ order) v t h = (
  t.0,
  Topological-snoc adjacency (before ++ w ∷ []) order v t.1
      (λ u k. subst (λ l. 0 < occ u l) (sym (append_assoc before (w ∷ []) order)) (h u k)),
)

module _ (n : ℕ) (adjacency : List (List ℕ))
    (fits : (u : ℕ) → All (λ v. v < n) (get_or adjacency u [])) where
  -- The state at the head of the loop.
  pub record Visiting (rem : List (List ℕ)) (deg queue order : List ℕ) : Type 0 where
    pub counted : Counted n rem [] deg queue order
    pub unread :
        (u : ℕ) → get_or rem u [] ≡ (if occ u order == 0 then get_or adjacency u [] else [])
    pub sorted : Topological adjacency [] order

  module _ (rem : List (List ℕ)) (idx : ℕ) (deg queue order : List ℕ)
      (s : Visiting rem deg (idx ∷ queue) order) where
    popped_free : (idx < n) × (get_or deg idx 0 ≡ 0) × (occ idx order ≡ 0)
    popped_free = ground (arith, s.counted.visited idx)

    popped_arrows : arrows idx rem ≡ 0
    popped_arrows = omega (arith, s.counted.degrees idx popped_free.0, popped_free.1)

    popped-Counted :
        Counted n (set rem idx []) (get_or adjacency idx []) deg queue (order ++ idx ∷ [])
    popped-Counted = record {
      size = s.counted.size;
      degrees = λ v k. ground (
        arith,
        s.counted.degrees v k,
        arrows-clear v idx rem,
        ap (occ v) (s.unread idx),
        popped_free,
      );
      visited =
          λ v. ground (arith, s.counted.visited v, count_if-append (λ x. x == v) order (idx ∷ []));
      fits = fits idx;
    }

    popped_unread :
        (u : ℕ)
        → get_or (set rem idx []) u []
          ≡ (if occ u (order ++ idx ∷ []) == 0 then get_or adjacency u [] else [])
    popped_unread u = ground (
      arith,
      get_or-clear rem idx u [],
      s.unread u,
      count_if-append (λ x. x == u) order (idx ∷ []),
    )

    popped_source : (u : ℕ) → 0 < occ idx (get_or adjacency u []) → 0 < occ u order
    popped_source u h =
        ground (arith, h, occ-le-arrows idx u rem, popped_arrows, ap (occ idx) (s.unread u))

    popped :
        Visiting
          (set rem idx [])
          (relax (get_or adjacency idx []) deg queue).0
          (relax (get_or adjacency idx []) deg queue).1
          (order ++ idx ∷ [])
    popped = record {
      counted =
          relax-Counted n (set rem idx []) (order ++ idx ∷ []) (get_or adjacency idx []) deg queue
            popped-Counted;
      unread = popped_unread;
      sorted = Topological-snoc adjacency [] order idx s.sorted popped_source;
    }

  pub order_once :
      (rem : List (List ℕ)) (deg queue order : List ℕ)
      → Visiting rem deg queue order
      → (v : ℕ) → occ v (order ++ queue) ≤ 1
  order_once rem deg queue order s v =
      ground (arith, s.counted.visited v, count_if-append (λ x. x == v) order queue)

  pub order-Below :
      (rem : List (List ℕ)) (deg queue order : List ℕ)
      → Visiting rem deg queue order
      → Below n (order ++ queue)
  order-Below rem deg queue order s v h =
      ground (arith, h, s.counted.visited v, count_if-append (λ x. x == v) order queue)

  -- As much fuel as there are nodes left empties the queue.
  pub kahn-Visiting :
      (fuel : ℕ) (rem : List (List ℕ)) (deg queue order : List ℕ)
      → Visiting rem deg queue order
      → n ≤ fuel + length order
      → (rem' : List (List ℕ)) × Visiting rem'
          (kahn fuel adjacency deg queue order).0
          []
          (kahn fuel adjacency deg queue order).1
  unfolding kahn
  kahn-Visiting fuel rem deg [] order s h = (rem, s)
  kahn-Visiting zero rem deg (idx ∷ queue) order s h = absurd (
      omega (
        arith,
        pigeonhole n (order ++ idx ∷ queue) (order-Below rem deg (idx ∷ queue) order s)
            (order_once rem deg (idx ∷ queue) order s),
        length-append order (idx ∷ queue),
      ))
  kahn-Visiting (suc fuel) rem deg (idx ∷ queue) order s h =
      kahn-Visiting fuel (set rem idx []) _ _ (order ++ idx ∷ []) (popped rem idx deg queue order s)
        (omega (arith, length-append order (idx ∷ [])))

-- The nodes that the queue starts with are those of degree 0.
seeds_before : (v i : ℕ) (ds : List ℕ) → v < i → occ v (seeds i ds) ≡ 0
unfolding seeds
seeds_before v i [] h = refl
seeds_before v i (d ∷ ds) h = ground (arith, seeds_before v (suc i) ds)

seeds_from :
    (k i : ℕ) (ds : List ℕ)
    → occ (i + k) (seeds i ds) ≡ (if ltb k (length ds) && get_or ds k 0 == 0 then 1 else 0)
unfolding seeds
seeds_from k i [] = ground arith
seeds_from zero i (d ∷ ds) = ground (arith, seeds_before i (suc i) ds)
seeds_from (suc k) i (d ∷ ds) =
    let same : i + suc k ≡ suc i + k = omega arith in
    rw same (ground (arith, seeds_from k (suc i) ds))

pub seeds-freed :
    (n : ℕ) (ds : List ℕ) → length ds ≡ n → (v : ℕ) → occ v (seeds 0 ds) ≡ freed n ds v
seeds-freed n ds e v =
    let same : 0 + v ≡ v = omega arith in
    subst (λ w. occ w (seeds 0 ds) ≡ freed n ds v) same (ground (arith, e, seeds_from v 0 ds))
