-- ===== src/Lib.antt =====
-- Verification of the iac control plane.
--
-- The program. `iac` describes hosts by resources. The control plane (crates/iac-controlplane)
-- takes an operation, a list of resources for one environment, routes each resource to an agent,
-- orders the resources in layers by their dependencies, and creates one assignment for each agent
-- and layer. Agents fetch their assignments under a lease and report on them; each report advances
-- the rollout (first a canary of layer 0, then its baseline, then the further layers) and rolls
-- the operation up into its status. Policies decide whether an operation waits for an approval and
-- how often one may be submitted. Users log in with tokens. Every change is recorded in an audit
-- log whose rows form a hash chain. On a host the executor (crates/iac-core) plans and applies the
-- resources of an assignment by providers, one for each kind, and can roll an operation back from
-- the checkpoints that it wrote.
--
-- The files. Prelude: the tests, lists and results that all modules share. Json: serde_json's
-- values. Tables: the rows of the database (crates/iac-controlplane/src/store.rs,
-- crates/iac-core/src/protocol.rs). The other files model these functions, under their names:
--   Rollout: advance_phased_apply, advance_canary, roll_up_operation of store.rs.
--   Routing: route_resource. Canary: bucket_agents_per_layer, compute_canary_split.
--   Depsort: crates/iac-controlplane/src/depsort.rs.
--   Submit: create_operation. Approval: approve_operation, reject_operation.
--   Dispatch: fetch_pending_assignments, revert_assignment_claims, claim_ssh_pending,
--     complete_assignment and complete_assignment_with_extra_audit.
--   RateLimit: crates/iac-controlplane/src/rate_limit.rs, with the errors of error.rs.
--   Policy: crates/iac-controlplane/src/policy.rs.
--   Users: the user functions of store.rs, and Role of identity.rs.
--   Audit: record_audit_on, compute_audit_row_hash, audit_verify_chain_from of store.rs.
--   PrepareRollback: prepare_rollback of store.rs.
--   Lifecycle: these transactions as the steps of one database, in any order. Unique is about
--     rows of one key, Reports and Decisions about what is taken or decided once,
--     Gated about operations that wait for approval.
--   Fleet: the agents table (store.rs): register_agent, rotate_agent_token, authenticate,
--     record_heartbeat, upsert_ssh_target.
--   Placeholders: translate_placeholders_to_pg and sql (store.rs), which every query passes.
--   Drift: record_drift, accept_drift, ignore_drift, their bulk forms, close_drift_not_in.
-- An agent applies resources to its host by crates/iac-core:
--   Identity: id.rs. Template: template.rs.
--   Provider: the types of resource.rs, diff.rs, operation.rs, state.rs, error.rs,
--     the trait of provider.rs as a record of functions, and registry.rs.
--   Executor: executor.rs; Steps has apply_one, Apply has plan, apply and gc_operation_dirs, and
--     Rollback has rollback.
-- A child module holds the theorems about its parent and the helpers of their proofs; Examples
-- applies them to concrete inputs. Submit and Approval call Depsort, Routing and Canary; Dispatch
-- calls Rollout on every report.
--
-- The state. A table is the list of its rows in the order in which SQL returns them; an UPDATE with
-- a WHERE clause is `update_where`, a DELETE `keep_if`, an INSERT appends. A handler takes the
-- database and returns the new one or an `ApiError`; since it runs in one transaction, an error
-- leaves the database as it was. ULIDs and timestamps are the numbers that their texts encode. ULIDs
-- sort as these numbers; the texts of timestamps do so too if they have as many digits in the
-- fraction of the second, of which jiff trims the zeros at the end, so within one second the
-- comparisons of SQL may differ from the model's. A JSON column holds the value that was serialised
-- into it. Errors carry the fixed part of their text. The keys are primary keys in the database; a
-- theorem that needs that says that no id occurs twice. Fresh ids, the time, the lease and the id that an INSERT returns are
-- arguments. The executor runs in a world of the host, as the providers see it, and a log of the
-- files that it writes and of the calls that may change the host; an error keeps what was done so
-- far. Its clock, its fresh ids, and what the file system refuses and lists are functions of that
-- world. serde_json's parser, SHA-256 and Argon2 are parameters.
--
-- Bounds and fuel. u32 and u64 arithmetic is written out where it can saturate or wrap (the canary
-- count, the number of agents, the lengths in the hash). The loop of Kahn's algorithm takes as much
-- fuel as there are resources, since each turn emits another one, and none twice. The walk of
-- the audit chain takes one more than the number of rows, since each turn but the last sees at
-- least one. Rendering a template and translating a query take one turn more than the text has
-- characters, since each takes some of them.
--
-- Not modelled. Concurrency between transactions, which the database serialises; observations,
-- webhooks, secrets, retention, the HTTP layer; the agent, the command line
-- and the providers, which call system tools. Of the executor, the reading of checkpoint files and
-- the permissions of files are left out.
mod Prelude
pub mod Json
pub mod Lifecycle
pub mod Tables
pub mod Rollout
pub mod Identity
pub mod Template
pub mod Provider
pub mod Executor
pub mod Routing
pub mod Canary
pub mod Depsort
pub mod Submit
pub mod Approval
pub mod Dispatch
pub mod PrepareRollback
pub mod RateLimit
pub mod Policy
pub mod Users
pub mod Fleet
pub mod Placeholders
pub mod Audit
pub mod Drift
pub mod Examples
