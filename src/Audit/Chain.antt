-- ===== src/Audit/Chain.antt =====
-- What recording does to the audit chain.
use iac.Prelude.{
  ℕ, ◌<◌, ◌≡◌, refl, sym, ap, ◌∙◌, true, none, some, List, [], ◌∷◌, ◌++◌, keep_if, unwrap_or, arith,
}
use iac.Audit.{
  Bytes, bytes_eq, AuditRow, AuditRowInputs, AuditLog, AuditChainTip, tip_hash, Walked, broken,
  reached, pending, verify_rows, compute_audit_row_hash, record_audit_on, audit_verify_chain,
  seed_hash,
}
use iac.Audit.Walk.{Ordered, audit_verify_chain_from-whole}

bytes_eq_refl : (xs : Bytes) → bytes_eq xs xs ≡ true
unfolding bytes_eq
bytes_eq_refl [] = refl
bytes_eq_refl (x ∷ xs) = ground (arith, bytes_eq_refl xs)

keep_if-append :
    (last : ℕ) (rows more : List AuditRow)
    → keep_if (pending last) (rows ++ more)
      ≡ keep_if (pending last) rows ++ keep_if (pending last) more
keep_if-append last [] more = refl
keep_if-append last (r ∷ rows) more = ground (arith, keep_if-append last rows more)

Ordered-last : (b : ℕ) (rows : List AuditRow) (r : AuditRow) → Ordered b (rows ++ r ∷ []) → b < r.id
Ordered-last b [] r o = o.0
Ordered-last b (x ∷ rows) r o = omega (arith, o.0, Ordered-last x.id rows r o.1)

module _ (digest : Bytes → Bytes) where
  -- The log's rows verify, in the order of their ids, and the tip holds the hash they come to.
  pub record IsChained (log : AuditLog) : Type 0 where
    pub seen : ℕ
    pub walked :
        verify_rows digest [] 0 (keep_if (pending 0) log.rows) ≡ reached (tip_hash log.tip) seen
    pub ordered : Ordered 0 log.rows
    pub tip : AuditChainTip
    pub has_tip : log.tip ≡ some tip

  -- The walk over more rows, from where a walk ended.
  abbrev after : Walked → List AuditRow → Walked
  after (broken id) more = broken id
  after (reached prev last) more = verify_rows digest prev last more

  verify_rows-append :
      (prev : Bytes) (last : ℕ) (rows more : List AuditRow) (next : Bytes) (seen : ℕ)
      → verify_rows digest prev last rows ≡ reached next seen
      → verify_rows digest prev last (rows ++ more) ≡ verify_rows digest next seen more
  unfolding verify_rows
  verify_rows-append prev last [] more next seen h = ap (λ w. after w more) h
  verify_rows-append prev last (r ∷ rows) more next seen h =
      ground (arith, h, verify_rows-append (unwrap_or r.row_hash []) r.id rows more next seen)

  verify_rows-new :
      (prev : Bytes) (last new_id : ℕ) (inputs : AuditRowInputs)
      → verify_rows digest prev last (
          record {
            id = new_id;
            inputs = inputs;
            prev_hash = some prev;
            row_hash = some (compute_audit_row_hash digest prev 0 inputs);
          }
          ∷ [])
        ≡ reached (compute_audit_row_hash digest prev 0 inputs) new_id
  unfolding verify_rows
  verify_rows-new prev last new_id inputs =
      rw (bytes_eq_refl prev, bytes_eq_refl (compute_audit_row_hash digest prev 0 inputs)) refl

  IsChained-verifies : (log : AuditLog) → IsChained log → audit_verify_chain digest log ≡ some none
  unfolding audit_verify_chain seed_hash
  IsChained-verifies log c = audit_verify_chain_from-whole digest 0 log c.ordered ∙ rw c.walked refl

  record_audit_on-IsChained :
      (new_id : ℕ) (inputs : AuditRowInputs) (log : AuditLog)
      → IsChained log
      → Ordered 0 (record_audit_on digest new_id inputs log).rows
      → IsChained (record_audit_on digest new_id inputs log)
  unfolding record_audit_on
  record_audit_on-IsChained new_id inputs log c o =
      let hash = compute_audit_row_hash digest (tip_hash log.tip) 0 inputs in
      let row : AuditRow = record {
        id = new_id;
        inputs = inputs;
        prev_hash = some (tip_hash log.tip);
        row_hash = some hash;
      } in
      let next : AuditChainTip = record {
        last_id = new_id;
        last_hash = hash;
        updated_at = inputs.timestamp;
      } in
      let positive = Ordered-last 0 log.rows row o in
      let tip : (record_audit_on digest new_id inputs log).tip ≡ some next =
        ground (arith, c.has_tip) in
      let rows : keep_if (pending 0) (log.rows ++ row ∷ [])
          ≡ keep_if (pending 0) log.rows ++ row ∷ [] =
        keep_if-append 0 log.rows (row ∷ []) ∙ ground (arith, positive) in
      record {
        seen = new_id;
        walked =
            ap (verify_rows digest [] 0) rows
            ∙ verify_rows-append [] 0 (keep_if (pending 0) log.rows) (row ∷ []) (tip_hash log.tip)
                c.seen c.walked
            ∙ verify_rows-new (tip_hash log.tip) c.seen new_id inputs
            ∙ ap (λ t. reached (tip_hash t) new_id) (sym tip);
        ordered = o;
        tip = next;
        has_tip = tip;
      }

  -- A log that verifies, whose tip is the hash of its last chained row, stays so when a row is
  -- recorded under an id above those in the table: the walk of the chain then finds nothing broken.
  pub record_audit_on-verifies :
      (new_id : ℕ) (inputs : AuditRowInputs) (log : AuditLog)
      → IsChained log
      → Ordered 0 (record_audit_on digest new_id inputs log).rows
      → IsChained (record_audit_on digest new_id inputs log)
        × (audit_verify_chain digest (record_audit_on digest new_id inputs log) ≡ some none)
  record_audit_on-verifies new_id inputs log c o =
      let next = record_audit_on-IsChained new_id inputs log c o in
      (next, IsChained-verifies (record_audit_on digest new_id inputs log) next)
