-- ===== src/Payload/Engine/Fields.antt =====
-- src/payload/engine.rs: which messages of the Engine API pass.
use reth_cosmos.Prelude.{◌≡◌, ◌↔◌, refl, Option, none, some, ok, >>=-eq-ok}
use reth_cosmos.Payload.Engine.{
  PayloadOrAttributes, payload_attributes, EngineUpstream, CosmosEngineValidator, chain_spec,
  check_if_any, validate_version_specific_fields, ensure_well_formed_attributes,
}

module _ {Chain D A V Q B E X N : Type 0} (u : EngineUpstream Chain D A V Q B E X N) where
  -- The requests of a message, if it has any, pass their own check.
  pub data RequestsPass (message : PayloadOrAttributes D A) : Type 0 where
    no_requests : u.execution_requests message ≡ none → RequestsPass message
    valid_requests :
        (q : Q)
        → u.execution_requests message ≡ some q
        → u.validate_execution_requests q ≡ ok tt
        → RequestsPass message

  check-RequestsPass :
      (message : PayloadOrAttributes D A) (found : Option Q)
      → u.execution_requests message ≡ found
      → check_if_any u.validate_execution_requests found ≡ ok tt
      → RequestsPass message
  unfolding check_if_any
  check-RequestsPass message none e h = no_requests e
  check-RequestsPass message (some q) e h = valid_requests q e h

  RequestsPass-check :
      (message : PayloadOrAttributes D A)
      → RequestsPass message
      → check_if_any u.validate_execution_requests (u.execution_requests message) ≡ ok tt
  unfolding check_if_any
  RequestsPass-check message (no_requests e) = rw e
  RequestsPass-check message (valid_requests q e h) = rw e h

  module _ (v : CosmosEngineValidator Chain) (version : V) where
    -- A message passes exactly when its requests, if it has any, are valid, and the fields of its
    -- version are those that the chain asks for.
    pub version_fields_iff :
        (message : PayloadOrAttributes D A)
        → (validate_version_specific_fields u v version message ≡ ok tt)
          ↔ (RequestsPass message × (u.validate_fields v.inner version message ≡ ok tt))
    unfolding validate_version_specific_fields chain_spec
    version_fields_iff message = (
      λ h.
          let (a, requests, fields) =
            >>=-eq-ok (check_if_any u.validate_execution_requests (u.execution_requests message)) _
              h in
          (check-RequestsPass message (u.execution_requests message) refl requests, fields),
      λ p. rw (RequestsPass-check message p.0) p.1,
    )

    -- If attributes carry no requests, they get the same verdict alone as in a message.
    pub attributes_alone :
        (attributes : A)
        → u.execution_requests (payload_attributes attributes) ≡ none
        → ensure_well_formed_attributes u v version attributes
          ≡ validate_version_specific_fields u v version (payload_attributes attributes)
    unfolding validate_version_specific_fields ensure_well_formed_attributes check_if_any
    attributes_alone attributes e = rw e
