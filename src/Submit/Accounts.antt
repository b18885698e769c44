-- ===== src/Submit/Accounts.antt =====
-- Where the resources of a submission end up.
use iac.Prelude.{
  inl, inr, All, Bool-cases, ◌&&◌, ◌||◌, ltb, count_if, count_if-append, ℕ, ◌+◌, ◌≡◌, refl, ap, ◌∙◌,
  Bool, List, [], ◌∷◌, All-append, String, ◌==◌, length, arith, ok, err,
}
use iac.Tables.{Agent, ResourceForRouting}
use iac.Routing.{Unrouted, route_resource, Target, ok, err}
use iac.Submit.Grouping.{Bucket, Buckets, Routed, add_to_bucket, route_one, route_from}

module _ (p : String → Bool) where
  -- How many of the resources, of the buckets' and of the unrouted ones have an id of the test.
  abbrev pub count_ids : List ResourceForRouting → ℕ
  count_ids = count_if (λ r. p r.resource_id)

  abbrev pub count_placed : Buckets → ℕ
  count_placed [] = 0
  count_placed (b ∷ buckets) = count_ids b.items + count_placed buckets

  abbrev pub count_unrouted : List (String × Unrouted) → ℕ
  count_unrouted = count_if (λ u. p u.0)

  count_placed-add :
      (agent layer : ℕ) (r : ResourceForRouting) (buckets : Buckets)
      → count_placed (add_to_bucket agent layer r buckets)
        ≡ count_ids (r ∷ []) + count_placed buckets
  unfolding add_to_bucket
  count_placed-add agent layer r [] = omega arith
  count_placed-add agent layer r (b ∷ buckets) =
      elim (Bool-cases (agent == b.agent_id && layer == b.layer)) [
        | inl e ↦ rw e (omega (arith, count_if-append (λ x. p x.resource_id) b.items (r ∷ [])))
        | inr e ↦
            rw e
              (elim (Bool-cases
                (ltb agent b.agent_id || agent == b.agent_id && ltb layer b.layer)) [
                  | inl f ↦ rw f (omega arith)
                  | inr f ↦ rw f (omega (arith, count_placed-add agent layer r buckets))
                ])
      ]

  abbrev pub count_routed : Routed → ℕ
  count_routed r = count_placed r.buckets + count_unrouted r.unrouted

  count_routed-one :
      (t : Target) (layer : ℕ) (r : ResourceForRouting) (acc : Routed)
      → count_routed (route_one t layer r acc) ≡ count_ids (r ∷ []) + count_routed acc
  unfolding route_one
  count_routed-one (ok agent) layer r acc =
      omega (arith, count_placed-add agent layer r acc.buckets)
  count_routed-one (err reason) layer r acc =
      ground (arith, count_if-append (λ u. p u.0) acc.unrouted ((r.resource_id, reason) ∷ []))

  pub count_routed-from :
      (env : String) (agents : List Agent) (rs : List ResourceForRouting) (layers : List ℕ)
      (acc : Routed)
      → length layers ≡ length rs
      → count_routed (route_from env agents rs layers acc) ≡ count_ids rs + count_routed acc
  unfolding route_from
  count_routed-from env agents [] layers acc h = omega arith
  count_routed-from env agents (r ∷ rs) [] acc h = absurd (omega arith)
  count_routed-from env agents (r ∷ rs) (layer ∷ layers) acc h =
      let t = route_resource r env agents in
      ground (
        arith,
        count_routed-one t layer r acc,
        count_routed-from env agents rs layers (route_one t layer r acc) (omega arith),
      )

module _ (env : String) (agents : List Agent) where
  -- The resources of a bucket are routed to its agent.
  abbrev pub IsOwn : Bucket → Type 0
  IsOwn b = All (λ r. route_resource r env agents ≡ ok b.agent_id) b.items

  add-IsOwn :
      (agent layer : ℕ) (r : ResourceForRouting)
      → route_resource r env agents ≡ ok agent
      → (buckets : Buckets) → All IsOwn buckets
      → All IsOwn (add_to_bucket agent layer r buckets)
  unfolding add_to_bucket
  add-IsOwn agent layer r h [] o = ((h, tt), tt)
  add-IsOwn agent layer r h (b ∷ buckets) o =
      elim (Bool-cases (agent == b.agent_id && layer == b.layer)) [
        | inl e ↦
            let same : agent ≡ b.agent_id = ground (arith, e) in
            rw e (
              All-append (λ x. route_resource x env agents ≡ ok b.agent_id) b.items (r ∷ []) o.0
                  (h ∙ ap ok same, tt),
              o.1,
            )
        | inr e ↦
            rw e
              (elim (Bool-cases
                (ltb agent b.agent_id || agent == b.agent_id && ltb layer b.layer)) [
                  | inl f ↦ rw f ((h, tt), o)
                  | inr f ↦ rw f (o.0, add-IsOwn agent layer r h buckets o.1)
                ])
      ]

  one-IsOwn :
      (t : Target) (layer : ℕ) (r : ResourceForRouting) (acc : Routed)
      → route_resource r env agents ≡ t
      → All IsOwn acc.buckets
      → All IsOwn (route_one t layer r acc).buckets
  unfolding route_one
  one-IsOwn (ok agent) layer r acc h o = add-IsOwn agent layer r h acc.buckets o
  one-IsOwn (err reason) layer r acc h o = o

  pub from-IsOwn :
      (rs : List ResourceForRouting) (layers : List ℕ) (acc : Routed)
      → All IsOwn acc.buckets
      → All IsOwn (route_from env agents rs layers acc).buckets
  unfolding route_from
  from-IsOwn [] layers acc o = o
  from-IsOwn (r ∷ rs) [] acc o = o
  from-IsOwn (r ∷ rs) (layer ∷ layers) acc o =
      let t = route_resource r env agents in
      from-IsOwn rs layers (route_one t layer r acc) (one-IsOwn t layer r acc refl o)
