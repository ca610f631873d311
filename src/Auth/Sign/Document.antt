-- ===== src/Auth/Sign/Document.antt =====
-- Operation::sign_bytes: the document is canonical, and binds every field of the operation.
use reth_cosmos.Prelude.{◌≡◌, ◌≢◌, refl, sym, ap, ◌∙◌, true, Bytes, ok}
use reth_cosmos.Extern.Rlp.{Rlp, RlpLaws}
use reth_cosmos.Extern.Crypto.{Crypto, Base64Laws}
use reth_cosmos.Extern.Json.{Json, JsonLaws, is_sorted, bytes_lt}
use reth_cosmos.Auth.{Operation, IsOperation}
use reth_cosmos.Auth.Limits.{IsWithin}
use reth_cosmos.Auth.Payload.{decode_payload}
use reth_cosmos.Auth.Payload.RoundTrip.{decode_payload-payload}
use reth_cosmos.Auth.Sign.{sign_doc, sign_bytes}

-- The keys of the document are in byte order at every level, whatever it signs.
pub sign_doc-IsSorted : (content signer : Bytes) → is_sorted (sign_doc content signer) ≡ true
unfolding sign_doc is_sorted bytes_lt
sign_doc-IsSorted content signer = refl

sign_doc-injective :
    (content content' signer signer' : Bytes)
    → sign_doc content signer ≡ sign_doc content' signer'
    → content ≡ content'
unfolding sign_doc
sign_doc-injective content content' signer signer' h = cc

module _ (c : Rlp) (laws : RlpLaws c) {Key Sig : Type 0} (k : Crypto Key Sig) (b : Base64Laws k)
    (to_vec : Json → Bytes) (j : JsonLaws to_vec) where
  sign_bytes-injective :
      (op other : Operation)
      → IsOperation op
      → IsWithin op
      → IsOperation other
      → IsWithin other
      → sign_bytes c k to_vec op ≡ sign_bytes c k to_vec other
      → op ≡ other
  unfolding sign_bytes
  sign_bytes-injective op other v w v' w' h =
      let docs = j.to_vec_injective _ _ (sign_doc-IsSorted _ _) (sign_doc-IsSorted _ _) h in
      let payloads = b.base64_injective _ _ (sign_doc-injective _ _ _ _ docs) in
      let found : ok op ≡ ok other =
        sym (decode_payload-payload c laws op v w)
        ∙ ap (decode_payload c) payloads
        ∙ decode_payload-payload c laws other v' w' in
      cc

  -- Two operations that differ in any field, both in range and within the limits, have different
  -- sign bytes, for a codec, a base64 and a JSON writer that keep their laws.
  pub sign_bytes-binds :
      (op other : Operation)
      → IsOperation op
      → IsWithin op
      → IsOperation other
      → IsWithin other
      → op ≢ other
      → sign_bytes c k to_vec op ≢ sign_bytes c k to_vec other
  sign_bytes-binds op other v w v' w' differ h = differ (sign_bytes-injective op other v w v' w' h)
