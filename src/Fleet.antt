-- ===== src/Fleet.antt =====
-- crates/iac-controlplane/src/store.rs: the agents, their bearer tokens and their heartbeats. The
-- SHA-256 of auth.rs is the parameter `hash_token`, and `add_secs` is jiff's addition, which has no
-- result past its range; the number of seconds is one that a Span of jiff holds, since a larger one
-- panics. The metadata and the time of the last observation are not in the rows. The fresh id and the fresh token are arguments. An expiry that is written is
-- read back as the same time.
pub mod Login
use iac.Prelude.{
  ℕ, Bool, true, false, not, ◌&&◌, ◌||◌, Option, none, some, List, [], ◌∷◌, ◌++◌, String, str_eq,
  ◌==◌, ltb, if◌then◌else◌, any, find_if, update_where, unwrap_or, ApiResult, ok, err, bad_request,
  conflict, not_found, unauthorized, database_error, ◌>>=◌, ◌>>◌, guard, ok_or,
}
use iac.Json.{Value, null, nat, string, object, field, end}
use iac.Tables.{AuditRecord, Actor}
use iac.Identity.{is_empty}

pub data AgentHealth : Type 0 where
  healthy degraded unhealthy : AgentHealth

pub data AgentKind : Type 0 where
  pull ssh : AgentKind

abbrev pub is_ssh : AgentKind → Bool
is_ssh AgentKind.ssh = true
is_ssh AgentKind.pull = false

pub record AgentRow : Type 0 where
  pub id : ℕ
  pub name : String
  pub environment : String
  pub token_hash : String
  pub token_expires_at : Option ℕ
  pub kind : AgentKind
  pub registered_at : ℕ
  pub last_heartbeat_at : Option ℕ
  pub last_status : AgentHealth
  pub last_managed : ℕ
  pub last_open_drifts : ℕ

pub record HeartbeatRequest : Type 0 where
  pub status : AgentHealth
  pub managed : ℕ
  pub open_drifts : ℕ
  pub last_observe_at : Option String

pub record AgentCredentials : Type 0 where
  pub agent_id : ℕ
  pub token : String
  pub expires_at : Option ℕ

pub record AgentRecord : Type 0 where
  pub id : ℕ
  pub name : String
  pub environment : String
  pub token_hash : String

-- The table, and the log that the calls add to.
pub record Fleet : Type 0 where
  pub agents : List AgentRow
  pub audit : List AuditRecord

-- The primary key and the UNIQUE name.
abbrev pub clashes : ℕ → String → List AgentRow → Bool
clashes id name = any (λ a. a.id == id || str_eq a.name name)

abbrev pub new_row : ℕ → String → String → String → Option ℕ → AgentKind → ℕ → AgentRow
new_row id name environment token_hash expires_at kind now = record {
  id = id;
  name = name;
  environment = environment;
  token_hash = token_hash;
  token_expires_at = expires_at;
  kind = kind;
  registered_at = now;
  last_heartbeat_at = none;
  last_status = AgentHealth.healthy;
  last_managed = 0;
  last_open_drifts = 0;
}

abbrev pub is_live : ℕ → Option ℕ → Bool
is_live now none = true
is_live now (some exp) = ltb now exp

abbrev pub record_of : AgentRow → AgentRecord
record_of a = record {
  id = a.id;
  name = a.name;
  environment = a.environment;
  token_hash = a.token_hash;
}

nat_or_null : Option ℕ → Value
nat_or_null none = null
nat_or_null (some n) = nat n

registered_audit : ℕ → String → String → Option ℕ → AuditRecord
registered_audit id name environment token_ttl_secs = record {
  actor = Actor.named "system";
  kind = "agent.registered";
  severity = "info";
  operation_id = none;
  agent_id = some id;
  resource_id = none;
  drift_id = none;
  payload = object (
      field "name" (string name) (
        field "environment" (string environment)
          (field "token_ttl_secs" (nat_or_null token_ttl_secs) end)));
}

rotated_audit : ℕ → ℕ → Option ℕ → AuditRecord
rotated_audit id now token_ttl_secs = record {
  actor = Actor.agent id;
  kind = "agent.token_rotated";
  severity = "info";
  operation_id = none;
  agent_id = some id;
  resource_id = none;
  drift_id = none;
  payload =
      object
        (field "token_ttl_secs" (nat_or_null token_ttl_secs) (field "rotated_at" (nat now) end));
}

module _ (hash_token : String → String) (add_secs : ℕ → ℕ → Option ℕ) where
  -- The addition falls back to the time itself.
  abbrev pub expiry : ℕ → Option ℕ → Option ℕ
  expiry now none = none
  expiry now (some ttl) = some (unwrap_or (add_secs now ttl) now)

  unfoldable pub register_agent :
      ℕ → String → ℕ → String → String → Option ℕ → Fleet → ApiResult (Fleet × AgentCredentials)
  unfolding registered_audit nat_or_null
  register_agent id token now name environment token_ttl_secs db = do
    guard (not (is_empty name || is_empty environment))
        (bad_request "name and environment must be non-empty")
    guard (not (clashes id name db.agents)) (conflict "agent name already taken")
    let expires_at = expiry now token_ttl_secs
    ok (
      record {
        agents =
            db.agents
            ++ new_row id name environment (hash_token token) expires_at AgentKind.pull now ∷ [];
        audit = db.audit ++ registered_audit id name environment token_ttl_secs ∷ [];
      },
      record { agent_id = id; token = token; expires_at = expires_at },
    )

  unfoldable pub rotate_agent_token :
      String → ℕ → ℕ → Option ℕ → Fleet → ApiResult (Fleet × AgentCredentials)
  unfolding rotated_audit nat_or_null
  rotate_agent_token token now agent_id token_ttl_secs db = do
    guard (any (λ (a : AgentRow). a.id == agent_id) db.agents) not_found
    let expires_at = expiry now token_ttl_secs
    ok (
      record {
        agents =
            update_where (λ a. a.id == agent_id)
              (λ a. record a { token_hash = hash_token token; token_expires_at = expires_at })
              db.agents;
        audit = db.audit ++ rotated_audit agent_id now token_ttl_secs ∷ [];
      },
      record { agent_id = agent_id; token = token; expires_at = expires_at },
    )

  unfoldable pub authenticate : ℕ → ℕ → String → Fleet → ApiResult AgentRecord
  authenticate now agent_id token db = do
    row ← ok_or (find_if (λ (a : AgentRow). a.id == agent_id) db.agents) unauthorized
    guard (str_eq (hash_token token) row.token_hash) unauthorized
    guard (is_live now row.token_expires_at) unauthorized
    ok (record_of row)

unfoldable pub record_heartbeat : ℕ → ℕ → HeartbeatRequest → Fleet → Fleet
record_heartbeat now agent_id hb db = record db {
  agents =
      update_where (λ a. a.id == agent_id)
        (λ a. record a {
          last_heartbeat_at = some now;
          last_status = hb.status;
          last_managed = hb.managed;
          last_open_drifts = hb.open_drifts;
        })
        db.agents;
}

-- The row of the target is found, or inserted with an empty hash.
unfoldable pub upsert_ssh_target : ℕ → ℕ → String → String → Fleet → ApiResult (Fleet × ℕ)
upsert_ssh_target id now name environment db =
    elim (find_if
      (λ (a : AgentRow). str_eq a.name name && str_eq a.environment environment && is_ssh a.kind)
      db.agents) [
        | some a ↦ ok (db, a.id)
        | none ↦
            guard (not (clashes id name db.agents)) database_error
            >> ok (
              record db {
                agents = db.agents ++ new_row id name environment "" none AgentKind.ssh now ∷ [];
              },
              id,
            )
      ]
