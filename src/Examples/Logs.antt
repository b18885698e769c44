-- ===== src/Examples/Logs.antt =====
-- The theorems about the audit chain and drift, on small inputs.
use iac.Prelude.{ℕ, ◌+◌, ◌%◌, ap, ◌≡◌, ◌≢◌, refl, inr, none, some, List, [], ◌∷◌, keep_if, arith}
use iac.Json.{null}
use iac.Tables.{Actor}
use iac.Drift.{DriftItem, DriftDb}
use iac.Drift.Open.{OneOpen, DriftCall, records, ignores, closes, drift_run, drift_run-OneOpen}
use iac.Audit.{
  Bytes, AuditRowInputs, AuditLog, record_audit_on, audit_verify_chain, audit_verify_chain_from,
  verify_rows, pending, seed_hash, compute_audit_row_hash, write_fields, write_field,
  write_optional_str, write_optional_id,
}
use iac.Audit.Walk.{audit_verify_chain_from-whole, verdict}
use iac.Audit.Chain.{IsChained, record_audit_on-verifies}
use iac.Audit.Encoding.{compute_audit_row_hash-Collides, Fits}

abbrev event : AuditRowInputs
event = record {
  timestamp = 49 ∷ [];
  actor = 97 ∷ 100 ∷ [];
  kind = 107 ∷ [];
  severity = 105 ∷ [];
  operation_id = some (55 ∷ []);
  agent_id = none;
  resource_id = none;
  drift_id = some 3;
  payload_json = 123 ∷ 125 ∷ [];
}

-- A digest for the examples: one byte, the sum of the message's bytes.
abbrev sum : Bytes → ℕ
sum [] = 0
sum (b ∷ bytes) = b + sum bytes

abbrev digest : Bytes → Bytes
digest message = sum message % 256 ∷ []

abbrev empty_log : AuditLog
empty_log = record {
  rows = [];
  tip = some (record { last_id = 0; last_hash = []; updated_at = [] });
}

abbrev log : AuditLog
log = record_audit_on digest 1 event empty_log

record_audit_on-verifies_example :
    IsChained digest log × (audit_verify_chain digest log ≡ some none)
unfolding record_audit_on verify_rows
record_audit_on-verifies_example =
    record_audit_on-verifies digest 1 event empty_log
      (record {
        seen = 0;
        walked = refl;
        ordered = tt;
        tip = record { last_id = 0; last_hash = []; updated_at = [] };
        has_tip = refl;
      })
      (omega arith, tt)

audit_verify_chain_from-whole_example :
    audit_verify_chain_from digest 0 log
    ≡ some (verdict (verify_rows digest (seed_hash 0 log.rows) 0 (keep_if (pending 0) log.rows)))
unfolding record_audit_on
audit_verify_chain_from-whole_example = audit_verify_chain_from-whole digest 0 log (omega arith, tt)

abbrev forged : AuditRowInputs
forged = record event { actor = 100 ∷ 97 ∷ [] }

event-Fits : Fits event
event-Fits = record {
  timestamp = omega arith;
  actor = omega arith;
  kind = omega arith;
  severity = omega arith;
  operation_id = omega arith;
  agent_id = tt;
  resource_id = tt;
  drift_id = omega arith;
  payload_json = omega arith;
}

forged-Fits : Fits forged
forged-Fits = record {
  timestamp = omega arith;
  actor = omega arith;
  kind = omega arith;
  severity = omega arith;
  operation_id = omega arith;
  agent_id = tt;
  resource_id = tt;
  drift_id = omega arith;
  payload_json = omega arith;
}

event_ne_forged : event ≢ forged
event_ne_forged e = absurd (omega (arith, ap (λ r. sum_first r.actor) e))
  where
    sum_first : Bytes → ℕ
    sum_first [] = 0
    sum_first (b ∷ bytes) = b

compute_audit_row_hash-Collides_example :
    (m : Bytes) × (m' : Bytes) × (m ≢ m') × (digest m ≡ digest m')
unfolding compute_audit_row_hash write_fields write_field write_optional_str write_optional_id
compute_audit_row_hash-Collides_example =
    compute_audit_row_hash-Collides digest [] [] event forged event-Fits forged-Fits refl
      (inr event_ne_forged) refl

abbrev drifted : DriftItem
drifted = record {
  resource_id = "File/site";
  kind = "File";
  severity = "warning";
  diff = null;
  detected_at = "t";
}

abbrev no_drift : DriftDb
no_drift = record { events = []; audit = [] }

abbrev pushes : List DriftCall
pushes =
    records (λ k. k) 10 7 (drifted ∷ drifted ∷ [])
    ∷ ignores 0 (Actor.named "ada") "later"
    ∷ records (λ k. k) 11 7 (drifted ∷ [])
    ∷ closes 12 7 []
    ∷ []

drift_run-OneOpen_example :
    OneOpen (drift_run (λ t. some 100) (λ n. "100") (λ a. null) no_drift pushes).events
drift_run-OneOpen_example =
    drift_run-OneOpen (λ t. some 100) (λ n. "100") (λ a. null) no_drift pushes (λ a r. omega arith)
