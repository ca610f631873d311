-- ===== src/Auth/Wire/Exact.antt =====
-- decode_wire: which inputs it accepts, and with what result.
use reth_cosmos.Prelude.{
  ◌≡◌, ◌↔◌, [], ◌∷◌, sym, ◌∙◌, ap, subst, ◌&&◌, Bytes, IsBytes, ok, ◌>>=◌, ◌>>◌, guard, length,
  is_empty, ◌==◌, leb, bytes_eq, >>=-eq-ok, guard-eq-ok, ok-injective,
}
use reth_cosmos.Extern.Rlp.{Rlp, RlpLaws}
use reth_cosmos.Extern.Rlp.Ranges.{RlpRanges}
use reth_cosmos.Auth.{limit, max_raw_tx, Operation, IsOperation, encoding, public_key, signature}
use reth_cosmos.Auth.Limits.{IsWithin}
use reth_cosmos.Auth.Payload.{list_body, decode_payload}
use reth_cosmos.Auth.Payload.Ranges.{list_body-IsBytes, decode_payload-IsOperation, read_bytes}
use reth_cosmos.Auth.Wire.{has_tx_type, encode_wire, decode_wire, behind_first}
use reth_cosmos.Auth.Wire.RoundTrip.{decode_wire-encode_wire}
use reth_cosmos.Auth.Wire.Canonical.{decode_wire-IsCanonical}

-- The parts of a transaction in the ranges of their types and within the limits of the protocol.
pub record IsWire (op : Operation) (key sig : Bytes) : Type 0 where
  pub range : IsOperation op
  pub within : IsWithin op
  pub key_bytes : IsBytes key
  pub key_length : length key ≡ 33
  pub sig_bytes : IsBytes sig
  pub sig_length : length sig ≡ 64

behind_first-IsBytes : (raw : Bytes) → IsBytes raw → IsBytes (behind_first raw)
unfolding behind_first
behind_first-IsBytes [] h = tt
behind_first-IsBytes (b ∷ bs) h = h.1

module _ (c : Rlp) (ranges : RlpRanges c) where
  -- The parts of a decoded transaction are in the ranges of their types.
  abbrev InRange : Operation × Bytes × Bytes → Type 0
  InRange t = IsOperation t.0 × IsBytes t.1 × IsBytes t.2

  behind_parts-InRange :
      (raw payload_bytes key sig rest : Bytes) {t : Operation × Bytes × Bytes}
      → IsBytes payload_bytes
      → IsBytes key
      → IsBytes sig
      → (decode_payload c payload_bytes >>= λ op.
          guard (length key == 33) public_key
          >> (guard (length sig == 64) signature
              >> (guard (is_empty rest && bytes_eq (encode_wire c op key sig) raw) encoding
                  >> ok (op, key, sig))))
        ≡ ok t
      → InRange t
  behind_parts-InRange raw payload_bytes key sig rest b k s h =
      let (op, e, h₁) = >>=-eq-ok (decode_payload c payload_bytes) _ h in
      let (_, h₂) = guard-eq-ok (length key == 33) public_key _ h₁ in
      let (_, h₃) = guard-eq-ok (length sig == 64) signature _ h₂ in
      let (_, done) =
        guard-eq-ok (is_empty rest && bytes_eq (encode_wire c op key sig) raw) encoding
          (ok (op, key, sig)) h₃ in
      subst InRange (ok-injective done)
        (decode_payload-IsOperation c ranges payload_bytes b e, k, s)

  decode_wire-InRange :
      (raw : Bytes) {t : Operation × Bytes × Bytes}
      → IsBytes raw
      → decode_wire c raw ≡ ok t
      → InRange t
  unfolding decode_wire
  decode_wire-InRange raw b h =
      let (_, h₁) = guard-eq-ok (leb (length raw) max_raw_tx) limit _ h in
      let (_, h₂) = guard-eq-ok (has_tx_type raw) encoding _ h₁ in
      let (buf, e, h₃) = >>=-eq-ok (list_body c (behind_first raw)) _ h₂ in
      let i = list_body-IsBytes c ranges (behind_first raw) (behind_first-IsBytes raw b) e in
      read_bytes c ranges buf i _ h₃ (λ payload_bytes b₁ p c₁ h₄.
        read_bytes c ranges b₁ c₁ _ h₄ (λ key b₂ k c₂ h₅.
          read_bytes c ranges b₂ c₂ _ h₅
            (λ sig rest s c₃ h₆. behind_parts-InRange raw payload_bytes key sig rest p k s h₆)))

  -- Under the laws of RLP and the ranges of what it decodes: a byte string decodes to an operation, a
  -- key and a signature exactly when these are in the ranges of their types, the operation is within
  -- the limits, the key has 33 bytes and the signature 64, and the byte string is their encoding.
  pub decode_wire_iff :
      (laws : RlpLaws c) (raw : Bytes) (op : Operation) (key sig : Bytes)
      → IsBytes raw
      → (decode_wire c raw ≡ ok (op, key, sig))
        ↔ (IsWire op key sig × (encode_wire c op key sig ≡ raw))
  decode_wire_iff laws raw op key sig b = (
    λ h.
        let v = decode_wire-IsCanonical c raw h in
        let (range, key_bytes, sig_bytes) = decode_wire-InRange raw b h in
        (
          record {
            range = range;
            within = v.within;
            key_bytes = key_bytes;
            key_length = v.key_length;
            sig_bytes = sig_bytes;
            sig_length = v.sig_length;
          },
          v.same,
        ),
    λ p.
        let w = p.0 in
        ap (decode_wire c) (sym p.1)
        ∙ decode_wire-encode_wire c laws op key sig w.range w.within w.key_bytes w.key_length
            w.sig_bytes w.sig_length,
  )
