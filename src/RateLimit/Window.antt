-- ===== src/RateLimit/Window.antt =====
-- The map from a bucket's key to its queue of instants, oldest first.
use iac.Prelude.{
  ℕ, ◌-◌, ◌≤◌, ◌≡◌, refl, Bool, true, not, Option, none, some, List, [], ◌∷◌, ◌++◌, String, str_eq,
  ltb, leb, if◌then◌else◌, arith, eq_iff, keep_if, All, Bool-cases, inl, inr, sym, ap,
}

abbrev pub Queues : Type 0
Queues = List (String × List ℕ)

-- `entry(key).or_default()`: a missing key has the empty queue.
unfoldable pub queue_of : String → Queues → List ℕ
queue_of key [] = []
queue_of key ((k, q) ∷ state) = if str_eq k key then q else queue_of key state

unfoldable pub put : String → List ℕ → Queues → Queues
put key q [] = (key, q) ∷ []
put key q ((k, old) ∷ state) = if str_eq k key then (k, q) ∷ state else (k, old) ∷ put key q state

abbrev pub window : ℕ
window = 60_000_000_000

-- `now.checked_sub(Duration::from_secs(60))`.
abbrev pub cutoff : ℕ → Option ℕ
cutoff now = if leb window now then some (now - window) else none

abbrev pub drop_older : ℕ → List ℕ → List ℕ
drop_older limit [] = []
drop_older limit (t ∷ q) = if ltb t limit then drop_older limit q else t ∷ q

abbrev pub prune_from : Option ℕ → List ℕ → List ℕ
prune_from none q = q
prune_from (some limit) q = drop_older limit q

-- Entries that are older than the window leave from the front.
unfoldable pub prune : ℕ → List ℕ → List ℕ
prune now = prune_from (cutoff now)

pub queue_of-put :
    (k j : String) (q : List ℕ) (state : Queues)
    → queue_of j (put k q state) ≡ (if str_eq k j then q else queue_of j state)
unfolding queue_of put
queue_of-put k j q [] = refl
queue_of-put k j q ((i, old) ∷ state) =
    ground (arith, eq_iff k j, eq_iff i k, eq_iff i j, queue_of-put k j q state)

-- The instants do not fall along the queue, and the last is no later than `now`.
abbrev pub IsTimeline : ℕ → List ℕ → Type 0
IsTimeline now [] = Unit
IsTimeline now (t ∷ q) = (t ≤ now) × All (λ u. t ≤ u) q × IsTimeline now q

abbrev pub recent_from : Option ℕ → ℕ → Bool
recent_from none t = true
recent_from (some limit) t = not (ltb t limit)

abbrev pub recent : ℕ → ℕ → Bool
recent now = recent_from (cutoff now)

keep_later :
    (limit t : ℕ) (q : List ℕ)
    → limit ≤ t
    → All (λ u. t ≤ u) q
    → keep_if (λ u. not (ltb u limit)) q ≡ q
keep_later limit t [] h a = refl
keep_later limit t (u ∷ q) h a = ground (arith, keep_later limit t q h a.1)

module _ (now : ℕ) where
  drop_older-recent :
      (limit : ℕ) (q : List ℕ)
      → IsTimeline now q
      → drop_older limit q ≡ keep_if (λ t. not (ltb t limit)) q
  drop_older-recent limit [] h = refl
  drop_older-recent limit (t ∷ q) h = elim (Bool-cases (ltb t limit)) [
    | inl e ↦ ground (arith, drop_older-recent limit q h.2)
    | inr e ↦ ground (arith, keep_later limit t q (ground arith) h.1)
  ]

  keep_all : (q : List ℕ) → keep_if (λ t. true) q ≡ q
  keep_all [] = refl
  keep_all (t ∷ q) = ap (◌∷◌ t) (keep_all q)

  prune_from-recent :
      (limit : Option ℕ) (q : List ℕ)
      → IsTimeline now q
      → prune_from limit q ≡ keep_if (recent_from limit) q
  prune_from-recent none q h = sym (keep_all q)
  prune_from-recent (some limit) q h = drop_older-recent limit q h

  -- On a timeline the front loop keeps exactly what is within the window.
  pub prune-recent : (q : List ℕ) → IsTimeline now q → prune now q ≡ keep_if (recent now) q
  unfolding prune
  prune-recent q h = prune_from-recent (cutoff now) q h

  All-keep_if :
      (t : ℕ) (p : ℕ → Bool) (q : List ℕ) → All (λ u. t ≤ u) q → All (λ u. t ≤ u) (keep_if p q)
  All-keep_if t p [] h = tt
  All-keep_if t p (u ∷ q) h = ground (arith, All-keep_if t p q h.1)

  pub keep_if-IsTimeline :
      (p : ℕ → Bool) (q : List ℕ) → IsTimeline now q → IsTimeline now (keep_if p q)
  keep_if-IsTimeline p [] h = tt
  keep_if-IsTimeline p (t ∷ q) h = ground (arith, keep_if-IsTimeline p q h.2, All-keep_if t p q h.1)

  All-snoc : (t : ℕ) (q : List ℕ) → t ≤ now → All (λ u. t ≤ u) q → All (λ u. t ≤ u) (q ++ now ∷ [])
  All-snoc t [] h a = (h, tt)
  All-snoc t (u ∷ q) h a = (a.0, All-snoc t q h a.1)

  pub snoc-IsTimeline : (q : List ℕ) → IsTimeline now q → IsTimeline now (q ++ now ∷ [])
  snoc-IsTimeline [] h = (omega arith, tt, tt)
  snoc-IsTimeline (t ∷ q) h = (h.0, All-snoc t q h.0 h.1, snoc-IsTimeline q h.2)
