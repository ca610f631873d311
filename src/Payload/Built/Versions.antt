-- ===== src/Payload/Built/Versions.antt =====
-- src/payload/built.rs: which versions of the Engine API a payload can be served in.
use reth_cosmos.Prelude.{
  ◌≡◌, refl, none, some, Bytes, ok, or_err, or_err-eq-ok, >>=-eq-ok, ok-injective, false,
}
use reth_cosmos.Payload.Built.{
  BlobSidecars, empty, eip4844, eip7594, CosmosBuiltPayload, missing_block_access_list, EnvelopeV4,
  EnvelopeV5, Forms, blobs_v1, blobs_v2, try_into_v3, try_into_v4, try_into_v5, try_into_v6,
  or_none,
}

module _ {Block A B R P₃ P₄ V₁ V₂ D C : Type 0} (f : Forms Block A B R P₃ P₄ V₁ V₂ D C) where
  blobs-eq-empty :
      (q : BlobSidecars A B) {v₁ : V₁} {v₂ : V₂}
      → blobs_v1 f q ≡ ok v₁
      → blobs_v2 f q ≡ ok v₂
      → q ≡ empty
  unfolding blobs_v1 blobs_v2
  blobs-eq-empty empty h k = refl
  blobs-eq-empty (eip4844 sidecars) h k = cc
  blobs-eq-empty (eip7594 sidecars) h k = cc

  -- A payload with blobs is never served both in version 4 and in version 5: what converts to both
  -- has no sidecars.
  pub try_into_v4-try_into_v5 :
      (p : CosmosBuiltPayload Block (BlobSidecars A B) R) {v₄ : EnvelopeV4 P₃ V₁ R}
      {v₅ : EnvelopeV5 P₃ V₂ R}
      → try_into_v4 f p ≡ ok v₄
      → try_into_v5 f p ≡ ok v₅
      → p.sidecars ≡ empty
  unfolding try_into_v3 try_into_v4 try_into_v5
  try_into_v4-try_into_v5 p h k =
      let (inner, h₁, _) = >>=-eq-ok (try_into_v3 f (record p { requests = none })) _ h in
      let (v₁, a, _) = >>=-eq-ok (blobs_v1 f p.sidecars) _ h₁ in
      let (v₂, b, _) = >>=-eq-ok (blobs_v2 f p.sidecars) _ k in blobs-eq-empty p.sidecars a b

  -- A payload is served in version 6 only with its block access list, and then in version 5 too,
  -- with the same value, blobs and requests.
  pub try_into_v6-try_into_v5 :
      (p : CosmosBuiltPayload Block (BlobSidecars A B) R) {v₆ : EnvelopeV5 P₄ V₂ R}
      → try_into_v6 f p ≡ ok v₆
      → (bal : Bytes) × (v₅ : EnvelopeV5 P₃ V₂ R) × (p.block_access_list ≡ some bal)
        × (try_into_v5 f p ≡ ok v₅)
        × (v₆.execution_payload ≡ f.payload_v4 (f.hash p.block) p.block bal)
        × (v₆.block_value ≡ v₅.block_value)
        × (v₆.blobs_bundle ≡ v₅.blobs_bundle)
        × (v₆.execution_requests ≡ v₅.execution_requests)
  unfolding try_into_v6 try_into_v5
  try_into_v6-try_into_v5 p h =
      let (bal, listed, h₁) =
        >>=-eq-ok (or_err p.block_access_list missing_block_access_list) _ h in
      let (v₂, b, h₂) = >>=-eq-ok (blobs_v2 f p.sidecars) _ h₁ in
      let same = ok-injective h₂ in
      let v₅ : EnvelopeV5 P₃ V₂ R = record {
        execution_payload = f.payload_v3 (f.hash p.block) p.block;
        block_value = p.fees;
        should_override_builder = false;
        blobs_bundle = v₂;
        execution_requests = or_none f.no_requests p.requests;
      } in
      (
        bal,
        v₅,
        or_err-eq-ok p.block_access_list _ listed,
        rw b refl,
        rw (← same) refl,
        rw (← same) refl,
        rw (← same) refl,
        rw (← same) refl,
      )
