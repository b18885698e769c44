-- ===== src/Drift/Open.antt =====
-- An agent has at most one open drift event for a resource.
use iac.Prelude.{
  ℕ, suc, ◌≤◌, ◌≡◌, sym, inl, inr, Bool, true, false, Option, List, [], ◌∷◌, String, any, count_if,
  count_if-append, any-false→count_if, update_where, ApiResult, ok, err, arith, Bool-cases,
  any-update_where-false, Option-cases, All-Unit, eq_iff,
}
use iac.Json.{Value}
use iac.Tables.{Actor}
use iac.Drift.{
  DriftItem, DriftEvent, DriftDb, DriftBulkFilter, open_for, refresh, new_event, record_item,
  record_items, record_drift, accept_drift, accept_drift_bulk, ignore_drift, ignore_drift_bulk,
  stale, close_drift_not_in, open_id, selects,
}

-- An update after which only rows are open that were open before.
count_if-update_where-le :
    (p q : DriftEvent → Bool) (f : DriftEvent → DriftEvent)
    → ((e : DriftEvent) → p (f e) ≡ true → p e ≡ true)
    → (events : List DriftEvent) → count_if p (update_where q f events) ≤ count_if p events
count_if-update_where-le p q f h [] = omega arith
count_if-update_where-le p q f h (e ∷ events) =
    ground (arith, h e, count_if-update_where-le p q f h events)

abbrev pub OneOpen : List DriftEvent → Type 0
OneOpen events =
    (agent_id : ℕ) (resource_id : String) → count_if (open_for agent_id resource_id) events ≤ 1

update-OneOpen :
    (q : DriftEvent → Bool) (f : DriftEvent → DriftEvent)
    → ((agent_id : ℕ) (resource_id : String) (e : DriftEvent)
        → open_for agent_id resource_id (f e) ≡ true
        → open_for agent_id resource_id e ≡ true)
    → (events : List DriftEvent) → OneOpen events
    → OneOpen (update_where q f events)
update-OneOpen q f h events o agent_id resource_id = omega (
  arith,
  count_if-update_where-le (open_for agent_id resource_id) q f (h agent_id resource_id) events,
  o agent_id resource_id,
)

-- The new row counts only for its own agent and resource.
new_event-counts :
    (id now agent_id : ℕ) (item : DriftItem) (events : List DriftEvent)
    → count_if (open_for agent_id item.resource_id) events ≡ 0
    → (a : ℕ) (r : String) → count_if (open_for a r) (new_event id now agent_id item ∷ []) ≡ 1
    → count_if (open_for a r) events ≡ 0
unfolding new_event
new_event-counts id now agent_id item events z a r h =
    let same_agent : agent_id ≡ a = ground (arith, h) in
    let same_resource : item.resource_id ≡ r = (eq_iff item.resource_id r).0 (ground (arith, h)) in
    rw (sym same_agent, sym same_resource) z

count_one : (p : DriftEvent → Bool) (e : DriftEvent) → count_if p (e ∷ []) ≤ 1
count_one p e = ground arith

record_item-OneOpen :
    (id now agent_id : ℕ) (item : DriftItem) (events : List DriftEvent)
    → OneOpen events
    → OneOpen (record_item id now agent_id item events)
unfolding record_item refresh
record_item-OneOpen id now agent_id item events o a r =
    let mine = open_for agent_id item.resource_id in
    let updated = update_where mine (refresh now item) events in
    let le =
      count_if-update_where-le (open_for a r) mine (refresh now item) (λ e h. ground (arith, h))
        events in
    elim (Bool-cases (any mine events)) [
      | inl e ↦ rw e (omega (arith, count_if-append (open_for a r) updated [], le, o a r))
      | inr e ↦
          let new = new_event id now agent_id item in
          let only =
            new_event-counts id now agent_id item events (any-false→count_if mine events e) a r in
          rw e (
            ground (
              arith,
              count_if-append (open_for a r) updated (new ∷ []),
              le,
              o a r,
              only,
              count_one (open_for a r) new,
            ))
    ]

record_items-OneOpen :
    (fresh : ℕ → ℕ) (k now agent_id : ℕ) (items : List DriftItem) (events : List DriftEvent)
    → OneOpen events
    → OneOpen (record_items fresh k now agent_id items events)
unfolding record_items
record_items-OneOpen fresh k now agent_id [] events o = o
record_items-OneOpen fresh k now agent_id (item ∷ items) events o =
    record_items-OneOpen fresh (suc k) now agent_id items _
      (record_item-OneOpen (fresh k) now agent_id item events o)

-- The calls that change drift events.
pub data DriftCall : Type 0 where
  records : (fresh : ℕ → ℕ) (now agent_id : ℕ) (items : List DriftItem) → DriftCall
  accepts : (now drift_id : ℕ) (actor : Actor) (reason : String) → DriftCall
  accepts_bulk : (now : ℕ) (filter : DriftBulkFilter) (actor : Actor) (reason : String) → DriftCall
  ignores : (drift_id : ℕ) (actor : Actor) (until : String) → DriftCall
  ignores_bulk : (filter : DriftBulkFilter) (actor : Actor) (until : String) → DriftCall
  closes : (now agent_id : ℕ) (current : List String) → DriftCall

-- A call that fails leaves the rows as they were.
abbrev after_drift_call {ℓ} : {A : Type ℓ} → DriftDb → (A → DriftDb) → ApiResult A → DriftDb
after_drift_call db get (ok a) = get a
after_drift_call db get (err e) = db

module _ (parse_timestamp : String → Option ℕ) (show_timestamp : ℕ → String)
    (agent_json : Option ℕ → Value) where
  unfoldable pub drift_step : DriftDb → DriftCall → DriftDb
  drift_step db (records fresh now agent_id items) = (record_drift fresh now agent_id items db).0
  drift_step db (accepts now drift_id actor reason) =
      after_drift_call db (λ d. d) (accept_drift now drift_id actor reason db)
  drift_step db (accepts_bulk now filter actor reason) =
      (accept_drift_bulk agent_json now filter actor reason db).0
  drift_step db (ignores drift_id actor until) =
      after_drift_call db (λ d. d)
        (ignore_drift parse_timestamp show_timestamp drift_id actor until db)
  drift_step db (ignores_bulk filter actor until) =
      after_drift_call db (λ d. d.0)
        (ignore_drift_bulk parse_timestamp show_timestamp agent_json filter actor until db)
  drift_step db (closes now agent_id current) = (close_drift_not_in now agent_id current db).0

  unfoldable pub drift_run : DriftDb → List DriftCall → DriftDb
  unfolding drift_step
  drift_run db [] = db
  drift_run db (c ∷ calls) = drift_run (drift_step db c) calls

  drift_step-OneOpen :
      (db : DriftDb) (c : DriftCall) → OneOpen db.events → OneOpen (drift_step db c).events
  unfolding drift_step record_drift accept_drift accept_drift_bulk ignore_drift ignore_drift_bulk
      close_drift_not_in
  drift_step-OneOpen db (records fresh now agent_id items) o =
      record_items-OneOpen fresh 0 now agent_id items db.events o
  drift_step-OneOpen db (accepts now drift_id actor reason) o =
      elim (Bool-cases (any (open_id drift_id) db.events)) [
        | inl e ↦
            rw e (update-OneOpen (open_id drift_id) _ (λ a r x h. ground (arith, h)) db.events o)
        | inr e ↦ rw e o
      ]
  drift_step-OneOpen db (accepts_bulk now filter actor reason) o =
      update-OneOpen (selects filter) _ (λ a r x h. ground (arith, h)) db.events o
  drift_step-OneOpen db (ignores drift_id actor until) o =
      elim (Option-cases (parse_timestamp until)) [
        | inl e ↦ rw e o
        | inr (ts, e) ↦ elim (Bool-cases (any (open_id drift_id) db.events)) [
          | inl f ↦
              rw (e, f)
                (update-OneOpen (open_id drift_id) _ (λ a r x h. ground (arith, h)) db.events o)
          | inr f ↦ rw (e, f) o
        ]
      ]
  drift_step-OneOpen db (ignores_bulk filter actor until) o =
      elim (Option-cases (parse_timestamp until)) [
        | inl e ↦ rw e o
        | inr (ts, e) ↦
            rw e (update-OneOpen (selects filter) _ (λ a r x h. ground (arith, h)) db.events o)
      ]
  drift_step-OneOpen db (closes now agent_id current) o =
      update-OneOpen (stale agent_id current) _ (λ a r x h. ground (arith, h)) db.events o

  -- If each agent has at most one open drift event for each resource, this still holds after any
  -- calls that record, accept, ignore or close drift, whether they succeed or fail.
  pub drift_run-OneOpen :
      (db : DriftDb) (calls : List DriftCall)
      → OneOpen db.events
      → OneOpen (drift_run db calls).events
  unfolding drift_run
  drift_run-OneOpen db [] o = o
  drift_run-OneOpen db (c ∷ calls) o =
      drift_run-OneOpen (drift_step db c) calls (drift_step-OneOpen db c o)

-- After an agent's push, each of its open drift events is for a resource that the push named.
pub close_drift_not_in-leaves :
    (now agent_id : ℕ) (current : List String) (db : DriftDb)
    → any (stale agent_id current) (close_drift_not_in now agent_id current db).0.events ≡ false
unfolding close_drift_not_in
close_drift_not_in-leaves now agent_id current db =
    any-update_where-false (λ e. Unit {0}) (stale agent_id current) (stale agent_id current) _
      db.events (λ e u. ground arith) (All-Unit db.events)
