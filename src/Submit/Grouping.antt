-- ===== src/Submit/Grouping.antt =====
-- The buckets of an operation's resources, by agent and layer, in the order of the `BTreeMap`.
use iac.Prelude.{ℕ, ◌&&◌, ◌||◌, List, [], ◌∷◌, ◌++◌, map, String, ◌==◌, ltb, if◌then◌else◌}
use iac.Tables.{Agent, ResourceForRouting}
use iac.Routing.{route_resource, Unrouted, Target, ok, err}

pub record Bucket : Type 0 where
  pub agent_id : ℕ
  pub layer : ℕ
  pub items : List ResourceForRouting

abbrev pub Buckets : Type 0
Buckets = List Bucket

-- `buckets.entry((agent_id, layer)).or_default().push(r)`.
unfoldable pub add_to_bucket : ℕ → ℕ → ResourceForRouting → Buckets → Buckets
add_to_bucket agent layer r [] = record { agent_id = agent; layer = layer; items = r ∷ [] } ∷ []
add_to_bucket agent layer r (b ∷ buckets) =
    if agent == b.agent_id && layer == b.layer
    then record b { items = b.items ++ r ∷ [] } ∷ buckets
    else if ltb agent b.agent_id || agent == b.agent_id && ltb layer b.layer
    then record { agent_id = agent; layer = layer; items = r ∷ [] } ∷ b ∷ buckets
    else b ∷ add_to_bucket agent layer r buckets

pub record Routed : Type 0 where
  pub buckets : Buckets
  pub unrouted : List (String × Unrouted)

unfoldable pub route_one : Target → ℕ → ResourceForRouting → Routed → Routed
unfolding add_to_bucket
route_one (ok agent) layer r acc = record acc { buckets = add_to_bucket agent layer r acc.buckets }
route_one (err reason) layer r acc = record acc {
  unrouted = acc.unrouted ++ (r.resource_id, reason) ∷ [];
}

-- The loop over the resources and their layers.
unfoldable pub route_from : String → List Agent → List ResourceForRouting → List ℕ → Routed → Routed
unfolding route_one
route_from env agents [] layers acc = acc
route_from env agents (r ∷ rs) [] acc = acc
route_from env agents (r ∷ rs) (layer ∷ layers) acc =
    route_from env agents rs layers (route_one (route_resource r env agents) layer r acc)

unfoldable pub route_all : String → List Agent → List ResourceForRouting → List ℕ → Routed
unfolding route_from
route_all env agents resources layers =
    route_from env agents resources layers (record { buckets = []; unrouted = [] })

abbrev pub bucket_keys : Buckets → List (ℕ × ℕ)
bucket_keys = map (λ b. (b.agent_id, b.layer))
