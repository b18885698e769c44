-- ===== src/Audit.antt =====
-- crates/iac-controlplane/src/store.rs: the audit log's hash chain. A text is the list of its
-- bytes, and `digest` is SHA-256 followed by its spelling in hexadecimal digits, a parameter. The
-- table's rows stand in the order of their ids; ids are positive.
pub mod Walk
pub mod Chain
pub mod Encoding
use iac.Prelude.{
  ℕ, zero, suc, ◌/◌, ◌%◌, ◌^◌, Bool, true, false, not, ◌&&◌, Option, none, some, List, [], ◌∷◌,
  ◌++◌, ◌==◌, ltb, if◌then◌else◌, length, keep_if, find_if, is_some, unwrap_or, and_then,
}

abbrev pub Bytes : Type 0
Bytes = List ℕ

unfoldable pub bytes_eq : Bytes → Bytes → Bool
bytes_eq [] [] = true
bytes_eq [] (y ∷ ys) = false
bytes_eq (x ∷ xs) [] = false
bytes_eq (x ∷ xs) (y ∷ ys) = x == y && bytes_eq xs ys

-- `to_be_bytes` of an integer of that many bytes.
unfoldable pub to_be_bytes : ℕ → ℕ → Bytes
to_be_bytes zero n = []
to_be_bytes (suc width) n = n / 256 ^ width % 256 ∷ to_be_bytes width n

unfoldable pub write_field : Bytes → Bytes
unfolding to_be_bytes
write_field bytes = to_be_bytes 8 (length bytes) ++ bytes

unfoldable pub write_optional_str : Option Bytes → Bytes
unfolding write_field
write_optional_str none = 0 ∷ []
write_optional_str (some s) = 1 ∷ write_field s

unfoldable pub write_optional_id : Option ℕ → Bytes
unfolding to_be_bytes
write_optional_id none = 0 ∷ []
write_optional_id (some n) = 1 ∷ to_be_bytes 8 n

pub record AuditRowInputs : Type 0 where
  pub timestamp : Bytes
  pub actor : Bytes
  pub kind : Bytes
  pub severity : Bytes
  pub operation_id : Option Bytes
  pub agent_id : Option Bytes
  pub resource_id : Option Bytes
  pub drift_id : Option ℕ
  pub payload_json : Bytes

-- The fields of a row, as they are written into the hash.
unfoldable pub write_fields : AuditRowInputs → Bytes
write_fields r =
    write_field r.timestamp
    ++ (write_field r.actor
        ++ (write_field r.kind
            ++ (write_field r.severity
                ++ (write_optional_str r.operation_id
                    ++ (write_optional_str r.agent_id
                        ++ (write_optional_str r.resource_id
                            ++ (write_optional_id r.drift_id ++ write_field r.payload_json)))))))

pub record AuditRow : Type 0 where
  pub id : ℕ
  pub inputs : AuditRowInputs
  pub prev_hash : Option Bytes
  pub row_hash : Option Bytes

pub record AuditChainTip : Type 0 where
  pub last_id : ℕ
  pub last_hash : Bytes
  pub updated_at : Bytes

pub record AuditLog : Type 0 where
  pub rows : List AuditRow
  pub tip : Option AuditChainTip

-- What a walk over rows ends with: the first broken row, or the hash and the id it came to.
pub data Walked : Type 0 where
  broken : (id : ℕ) → Walked
  reached : (prev_hash : Bytes) (last_seen : ℕ) → Walked

unfoldable pub take_rows : ℕ → List AuditRow → List AuditRow
take_rows zero rows = []
take_rows (suc n) [] = []
take_rows (suc n) (r ∷ rows) = r ∷ take_rows n rows

-- `WHERE row_hash IS NOT NULL AND id > ?`.
abbrev pub pending : ℕ → AuditRow → Bool
pending last_seen r = is_some r.row_hash && ltb last_seen r.id

-- The hash of the tip, and "" where there is none.
abbrev pub tip_hash : Option AuditChainTip → Bytes
tip_hash none = []
tip_hash (some tip) = tip.last_hash

abbrev pub chunk_size : ℕ
chunk_size = 10000

-- The hash that the row `from_id` stores, and "" where there is none.
unfoldable pub seed_hash : ℕ → List AuditRow → Bytes
seed_hash from_id table =
    if from_id == 0
    then []
    else unwrap_or
        (and_then (find_if (λ (r : AuditRow). r.id == from_id && is_some r.row_hash) table)
          (λ r. r.row_hash))
        []

module _ (digest : Bytes → Bytes) where
  -- The row's id goes into the hash as 0.
  unfoldable pub compute_audit_row_hash : Bytes → ℕ → AuditRowInputs → Bytes
  compute_audit_row_hash prev_hash id r = digest (prev_hash ++ (to_be_bytes 8 id ++ write_fields r))

  -- `new_id` is the id that the INSERT returns.
  unfoldable pub record_audit_on : ℕ → AuditRowInputs → AuditLog → AuditLog
  record_audit_on new_id inputs log =
      let prev_hash = tip_hash log.tip in
      let row_hash = compute_audit_row_hash prev_hash 0 inputs in
      record {
        rows =
            log.rows
            ++ record {
              id = new_id;
              inputs = inputs;
              prev_hash = some prev_hash;
              row_hash = some row_hash;
            }
              ∷ [];
        tip = elim log.tip [
          | none ↦ none
          | some tip ↦
              some
                (record { last_id = new_id; last_hash = row_hash; updated_at = inputs.timestamp })
        ];
      }

  -- The loop over the rows of a chunk.
  unfoldable pub verify_rows : Bytes → ℕ → List AuditRow → Walked
  unfolding bytes_eq
  verify_rows prev_hash last_seen [] = reached prev_hash last_seen
  verify_rows prev_hash last_seen (r ∷ rows) =
      let stored = unwrap_or r.row_hash [] in
      let rest = verify_rows stored r.id rows in
      if not (bytes_eq (unwrap_or r.prev_hash []) prev_hash)
      then broken r.id
      else if not (bytes_eq (compute_audit_row_hash prev_hash 0 r.inputs) stored)
      then broken r.id
      else rest

  -- The loop over the chunks, on fuel: `none` when it runs out.
  unfoldable pub verify_loop : (fuel chunk : ℕ) → List AuditRow → Bytes → ℕ → Option (Option ℕ)
  unfolding verify_rows take_rows
  verify_loop zero chunk table prev_hash last_seen = none
  verify_loop (suc fuel) chunk table prev_hash last_seen =
      let rows = take_rows chunk (keep_if (pending last_seen) table) in
      elim (verify_rows prev_hash last_seen rows) [
        | broken id ↦ some (some id)
        | reached next_hash next_seen ↦
            let rest = verify_loop fuel chunk table next_hash next_seen in
            if length rows == 0
            then some none
            else if ltb (length rows) chunk
            then some none
            else rest
      ]

  unfoldable pub audit_verify_chain_from : ℕ → AuditLog → Option (Option ℕ)
  unfolding verify_loop seed_hash
  audit_verify_chain_from from_id log =
      verify_loop (suc (length log.rows)) chunk_size log.rows (seed_hash from_id log.rows) from_id

  unfoldable pub audit_verify_chain : AuditLog → Option (Option ℕ)
  unfolding audit_verify_chain_from
  audit_verify_chain log = audit_verify_chain_from 0 log
