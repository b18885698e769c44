-- ===== src/Drift.antt =====
-- crates/iac-controlplane/src/store.rs: drift events. A row is open until it is resolved. The ids
-- that the INSERTs return, the time, and the reading and printing of timestamps are parameters.
pub mod Open
use iac.Prelude.{
  ℕ, zero, suc, ◌+◌, Bool, true, false, not, ◌&&◌, ◌||◌, Option, none, some, List, [], ◌∷◌, ◌++◌,
  String, str_eq, ◌==◌, if◌then◌else◌, length, any, count_if, update_where, is_none, ApiResult, ok,
  err, bad_request, not_found, ◌>>=◌, ◌>>◌, guard, ok_or,
}
use Prim.Native.String.{◌++◌ as append}
use iac.Json.{Value, string, object, field, end, nat, string_or_null}
use iac.Tables.{AuditRecord, Actor}

-- An item of an agent's push.
pub record DriftItem : Type 0 where
  pub resource_id : String
  pub kind : String
  pub severity : String
  pub diff : Value
  pub detected_at : String

-- A row of `drift_events`.
pub record DriftEvent : Type 0 where
  pub id : ℕ
  pub agent_id : ℕ
  pub resource_id : String
  pub kind : String
  pub severity : String
  pub diff : Value
  pub detected_at : String
  pub received_at : ℕ
  pub resolved_at : Option ℕ
  pub resolution : Option String
  pub ignored_until : Option ℕ

pub record DriftDb : Type 0 where
  pub events : List DriftEvent
  pub audit : List AuditRecord

abbrev pub is_open : DriftEvent → Bool
is_open e = is_none e.resolved_at

abbrev pub open_for : ℕ → String → DriftEvent → Bool
open_for agent_id resource_id e =
    e.agent_id == agent_id && str_eq e.resource_id resource_id && is_open e

unfoldable pub refresh : ℕ → DriftItem → DriftEvent → DriftEvent
refresh now item e = record e {
  kind = item.kind;
  severity = item.severity;
  diff = item.diff;
  detected_at = item.detected_at;
  received_at = now;
}

unfoldable pub new_event : ℕ → ℕ → ℕ → DriftItem → DriftEvent
new_event id now agent_id item = record {
  id = id;
  agent_id = agent_id;
  resource_id = item.resource_id;
  kind = item.kind;
  severity = item.severity;
  diff = item.diff;
  detected_at = item.detected_at;
  received_at = now;
  resolved_at = none;
  resolution = none;
  ignored_until = none;
}

-- One item: refresh its open row, or insert one if there is none.
unfoldable pub record_item : ℕ → ℕ → ℕ → DriftItem → List DriftEvent → List DriftEvent
unfolding refresh new_event
record_item id now agent_id item events =
    let mine = open_for agent_id item.resource_id in
    update_where mine (refresh now item) events
    ++ (if any mine events then [] else new_event id now agent_id item ∷ [])

unfoldable pub record_items :
    (ℕ → ℕ) → ℕ → ℕ → ℕ → List DriftItem → List DriftEvent → List DriftEvent
unfolding record_item
record_items fresh k now agent_id [] events = events
record_items fresh k now agent_id (item ∷ items) events =
    record_items fresh (suc k) now agent_id items (record_item (fresh k) now agent_id item events)

unfoldable pub record_drift : (ℕ → ℕ) → ℕ → ℕ → List DriftItem → DriftDb → DriftDb × ℕ
unfolding record_items
record_drift fresh now agent_id items db =
    (record db { events = record_items fresh 0 now agent_id items db.events }, length items)

-- `resolved_at = ?, resolution = ?, ignored_until = NULL`.
abbrev pub resolve : ℕ → String → DriftEvent → DriftEvent
resolve now resolution e = record e {
  resolved_at = some now;
  resolution = some resolution;
  ignored_until = none;
}

abbrev pub open_id : ℕ → DriftEvent → Bool
open_id drift_id e = e.id == drift_id && is_open e

abbrev audit_of : Actor → String → Option ℕ → Value → AuditRecord
audit_of actor kind drift_id payload = record {
  actor = actor;
  kind = kind;
  severity = "info";
  operation_id = none;
  agent_id = none;
  resource_id = none;
  drift_id = drift_id;
  payload = payload;
}

unfoldable pub accept_drift : ℕ → ℕ → Actor → String → DriftDb → ApiResult DriftDb
accept_drift now drift_id actor reason db = do
  guard (any (open_id drift_id) db.events) not_found
  ok (record {
    events = update_where (open_id drift_id) (resolve now (append "accepted: " reason)) db.events;
    audit =
        db.audit
        ++ audit_of actor "drift.accepted" (some drift_id)
            (object (field "reason" (string reason) end))
          ∷ [];
  })

pub record DriftBulkFilter : Type 0 where
  pub agent_id : Option ℕ
  pub kind : Option String
  pub severity : Option String

abbrev pub is_any {ℓ} : {A : Type ℓ} → (A → Bool) → Option A → Bool
is_any p none = true
is_any p (some x) = p x

abbrev pub selects : DriftBulkFilter → DriftEvent → Bool
selects filter e =
    is_open e
    && is_any (λ a. e.agent_id == a) filter.agent_id
    && is_any (λ k. str_eq e.kind k) filter.kind
    && is_any (λ s. str_eq e.severity s) filter.severity

-- `agent_json` is the JSON of an agent's id.
module _ (agent_json : Option ℕ → Value) where
  filter_json : DriftBulkFilter → Value
  filter_json filter = object (
      field "agent_id" (agent_json filter.agent_id) (
        field "kind" (string_or_null filter.kind)
          (field "severity" (string_or_null filter.severity) end)))

  unfoldable pub accept_drift_bulk : ℕ → DriftBulkFilter → Actor → String → DriftDb → DriftDb × ℕ
  unfolding filter_json
  accept_drift_bulk now filter actor reason db =
      let affected = count_if (selects filter) db.events in
      (
        record {
          events =
              update_where (selects filter) (resolve now (append "accepted (bulk): " reason))
                db.events;
          audit =
              db.audit
              ++ (if affected == 0
                  then []
                  else audit_of actor "drift.accepted_bulk" none (
                      object (
                        field "reason" (string reason) (
                          field "matched" (nat affected)
                            (field "filter" (filter_json filter) end))))
                    ∷ []);
        },
        affected,
      )

module _ (parse_timestamp : String → Option ℕ) (show_timestamp : ℕ → String) where
  unfoldable pub ignore_drift : ℕ → Actor → String → DriftDb → ApiResult DriftDb
  ignore_drift drift_id actor until db = do
    ts ← ok_or (parse_timestamp until) (bad_request "invalid `until`")
    guard (any (open_id drift_id) db.events) not_found
    ok (record {
      events =
          update_where (open_id drift_id) (λ e. record e { ignored_until = some ts }) db.events;
      audit =
          db.audit
          ++ audit_of actor "drift.ignored" (some drift_id)
              (object (field "until" (string (show_timestamp ts)) end))
            ∷ [];
    })

  unfoldable pub ignore_drift_bulk :
      (Option ℕ → Value) → DriftBulkFilter → Actor → String → DriftDb → ApiResult (DriftDb × ℕ)
  unfolding filter_json
  ignore_drift_bulk agent_json filter actor until db = do
    ts ← ok_or (parse_timestamp until) (bad_request "invalid `until`")
    let affected = count_if (selects filter) db.events
    ok (
      record {
        events =
            update_where (selects filter) (λ e. record e { ignored_until = some ts }) db.events;
        audit =
            db.audit
            ++ (if affected == 0
                then []
                else audit_of actor "drift.ignored_bulk" none (
                    object (
                      field "until" (string until) (
                        field "matched" (nat affected)
                          (field "filter" (filter_json agent_json filter) end))))
                  ∷ []);
      },
      affected,
    )

-- With no current resource the condition on the resource is left out, and holds of every row.
abbrev pub stale : ℕ → List String → DriftEvent → Bool
stale agent_id current e =
    e.agent_id == agent_id && is_open e && not (any (λ r. str_eq e.resource_id r) current)

unfoldable pub close_drift_not_in : ℕ → ℕ → List String → DriftDb → DriftDb × ℕ
close_drift_not_in now agent_id current db = (
  record db {
    events =
        update_where (stale agent_id current)
          (λ e. record e { resolved_at = some now; resolution = some "agent stopped reporting" })
          db.events;
  },
  count_if (stale agent_id current) db.events,
)
