-- ===== src/Submit/Laws.antt =====
-- What a submitted operation leaves in the database.
use iac.Prelude.{
  any, ◌==◌, inl, inr, Bool-cases, false, refl, ℕ, ◌≡◌, subst, Bool, true, false, Option, List, [],
  ◌∷◌, ◌++◌, All-append, String, ◌==◌, length, arith, if◌then◌else◌, ApiResult, ok, >>=-eq-ok,
  ok-injective,
}
use iac.Json.{Value}
use iac.Tables.{Appends, Db, Operation, Assignment}
use iac.Routing.{ok}
use iac.Depsort.{compute_resource_layers}
use iac.Canary.{Split, bucket_agents_per_layer, compute_canary_split}
use iac.Rollout.Gate.{IsPlaced}
use iac.Submit.{
  create_audit, CreateOperation, CreateOperationOutcome, create_operation, new_assignments,
  new_operation, settle,
}
use iac.Submit.Grouping.{Routed, route_all, bucket_keys}
use iac.Submit.Rows.{
  new_assignments-others, new_assignments-IsPlaced, compute_canary_split-TwoBatches,
}

module _ (from_str : String → Option Value) (fresh : ℕ → ℕ) where
  abbrev create : ℕ → CreateOperation → Db → ApiResult (Db × CreateOperationOutcome)
  create = create_operation from_str fresh

  abbrev pub routed_of : CreateOperation → Db → List ℕ → Routed
  routed_of req db layers = route_all req.environment db.agents req.resources layers

  abbrev pub split_of : CreateOperation → Routed → Split
  split_of req routed =
      compute_canary_split (bucket_agents_per_layer (bucket_keys routed.buckets)) req.canary

  -- What a submission did.
  pub record Submitted (now : ℕ) (req : CreateOperation) (db db' : Db)
      (out : CreateOperationOutcome) : Type 0 where
    layers : List ℕ
    pub created : List Assignment
    laid : compute_resource_layers from_str req.resources ≡ ok layers
    made :
        (if req.requires_approval
          then ok []
          else new_assignments from_str fresh 1
              (fresh 0)
              now
              (split_of req (routed_of req db layers))
              (routed_of req db layers).buckets)
        ≡ ok created
    pub operation : Operation
    pub is_new : operation.id ≡ fresh 0
    pub operations : db'.operations ≡ db.operations ++ operation ∷ []
    pub assignments : db'.assignments ≡ db.assignments ++ created
    answers : out.operation_id ≡ fresh 0
    counts : out.assignment_count ≡ length created
    unrouted : out.unrouted ≡ (routed_of req db layers).unrouted
    pub audited : Appends db.audit db'.audit

  pub create-Submitted :
      (now : ℕ) (req : CreateOperation) (db db' : Db) (out : CreateOperationOutcome)
      → create now req db ≡ ok (db', out)
      → Submitted now req db db' out
  unfolding create_operation
  create-Submitted now req db db' out h =
      let (layers, laid, h1) = >>=-eq-ok (compute_resource_layers from_str req.resources) _ h in
      let (created, made, h2) =
        >>=-eq-ok
          (if req.requires_approval
            then ok []
            else new_assignments from_str fresh 1 (fresh 0) now
                (split_of req (routed_of req db layers)) (routed_of req db layers).buckets)
          _ h1 in
      let e = ok-injective h2 in
      record {
        layers = layers;
        created = created;
        laid = laid;
        made = made;
        operation =
            if (if req.requires_approval then false else length created == 0)
            then settle now (new_operation (fresh 0) now req)
            else new_operation (fresh 0) now req;
        is_new = ground arith;
        operations = ground (arith, e);
        assignments = ground (arith, e);
        answers = ground (arith, e);
        counts = ground (arith, e);
        unrouted = ground (arith, e);
        audited = (
          create_audit (fresh 0) req (length created) (length (routed_of req db layers).unrouted)
              ∷ [],
          ground (arith, e),
        );
      }

  -- The assignments that a submission adds: of its operation, and none if it needs approval.
  pub created-others :
      (other now : ℕ) (req : CreateOperation) (db db' : Db) (out : CreateOperationOutcome)
      (s : Submitted now req db db' out)
      → (fresh 0 == other) ≡ false
      → any (λ a. a.operation_id == other) s.created ≡ false
  created-others other now req db db' out s n = elim (Bool-cases req.requires_approval) [
    | inl q ↦ let none_made : s.created ≡ [] = ground (arith, s.made, q) in rw none_made refl
    | inr q ↦
        let r = routed_of req db s.layers in
        new_assignments-others other from_str fresh 1 (fresh 0) now (split_of req r) r.buckets
          s.created n (ground (arith, s.made, q))
  ]

  pub created-gated :
      (now : ℕ) (req : CreateOperation) (db db' : Db) (out : CreateOperationOutcome)
      (s : Submitted now req db db' out)
      → req.requires_approval ≡ true
      → s.created ≡ []
  created-gated now req db db' out s q = ground (arith, s.made, q)

  -- If rows wait for a canary only in the baseline of layer 0, and for a layer only above layer 0,
  -- this still holds after a submission that succeeds.
  pub create_operation-IsPlaced :
      (now : ℕ) (req : CreateOperation) (db db' : Db) (out : CreateOperationOutcome)
      → IsPlaced db.assignments
      → create now req db ≡ ok (db', out)
      → IsPlaced db'.assignments
  create_operation-IsPlaced now req db db' out p h =
      let s = create-Submitted now req db db' out h in
      rw s.assignments
        (All-append _ db.assignments s.created p (created_rows req.requires_approval s s.made))
    where
      created_rows :
          (t : Bool) (s : Submitted now req db db' out)
          → (if t
              then ok []
              else new_assignments from_str fresh 1
                  (fresh 0)
                  now
                  (split_of req (routed_of req db s.layers))
                  (routed_of req db s.layers).buckets)
            ≡ ok s.created
          → IsPlaced s.created
      created_rows true s made = subst IsPlaced (ok-injective made) tt
      created_rows false s made =
          let r = routed_of req db s.layers in
          (new_assignments-IsPlaced from_str fresh 1 (fresh 0) now (split_of req r) r.buckets
            s.created
            (compute_canary_split-TwoBatches (bucket_agents_per_layer (bucket_keys r.buckets))
              req.canary)
            made).0
