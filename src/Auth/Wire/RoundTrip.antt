-- ===== src/Auth/Wire/RoundTrip.antt =====
-- encode_wire and decode_wire: decoding inverts encoding.
use mathlib.Core.List.{append-nil}
use reth_cosmos.Prelude.{
  ◌+◌, ◌^◌, ◌≤◌, ◌<◌, ◌≡◌, refl, true, some, [], arith, Bytes, IsBytes, ok, length, length-append,
  le→leb, bytes_eq_refl,
}
use reth_cosmos.Extern.Rlp.{Rlp, RlpLaws}
use reth_cosmos.Auth.{Operation, IsOperation, max_raw_tx}
use reth_cosmos.Auth.Limits.{IsWithin}
use reth_cosmos.Auth.Payload.{payload, list_body}
use reth_cosmos.Auth.Payload.Size.{payload-IsBytes, length-payload, length-list}
use reth_cosmos.Auth.Payload.RoundTrip.{list_body-list, decode_payload-payload}
use reth_cosmos.Auth.Wire.{wire_fields, encode_wire, decode_wire, has_tx_type, behind_first}

module _ (c : Rlp) (laws : RlpLaws c) where
  bytes_last :
      (b : Bytes) → IsBytes b → length b < 2 ^ 64 → c.decode_bytes (c.encode_bytes b) ≡ some (b, [])
  bytes_last b h n = let e = laws.bytes_round b [] h n in rw (append-nil (c.encode_bytes b)) at e

  module _ (op : Operation) (key sig : Bytes) (v : IsOperation op) (w : IsWithin op)
      (key_bytes : IsBytes key) (key_length : length key ≡ 33) (sig_bytes : IsBytes sig)
      (sig_length : length sig ≡ 64) where
    pub length-wire_fields : length (wire_fields c op key sig) ≤ length op.input + 364
    unfolding wire_fields
    length-wire_fields =
        let n = length-payload c laws op v (omega arith) in
        omega (
          arith,
          length-append {0},
          n,
          laws.bytes_size (payload c op) (payload-IsBytes c laws op v (omega arith)) (omega arith),
          laws.bytes_size key key_bytes (omega arith),
          laws.bytes_size sig sig_bytes (omega arith),
        )

    -- Under the laws of RLP, the wire bytes of an operation in range and within the limits, with a
    -- key of 33 bytes and a signature of 64, are at most 374 bytes longer than its input, so that
    -- the largest leaves 138 of the bytes that a transaction may have.
    pub encode_wire-fits : length (encode_wire c op key sig) ≤ length op.input + 374
    unfolding encode_wire
    encode_wire-fits = omega (
      arith,
      length-wire_fields,
      length-list c laws (wire_fields c op key sig) (omega (arith, length-wire_fields)),
    )

    encode_wire-body :
        list_body c (behind_first (encode_wire c op key sig)) ≡ ok (wire_fields c op key sig)
    unfolding encode_wire behind_first
    encode_wire-body =
        list_body-list c laws (wire_fields c op key sig) (omega (arith, length-wire_fields))

    encode_wire-has_tx_type : has_tx_type (encode_wire c op key sig) ≡ true
    unfolding encode_wire has_tx_type
    encode_wire-has_tx_type = refl

    -- Under the laws of RLP, decoding the wire bytes of an operation in range and within the
    -- limits, with a key of 33 bytes and a signature of 64, gives the three back.
    pub decode_wire-encode_wire : decode_wire c (encode_wire c op key sig) ≡ ok (op, key, sig)
    unfolding decode_wire wire_fields
    decode_wire-encode_wire = rw (
      le→leb (length (encode_wire c op key sig)) max_raw_tx (omega (arith, encode_wire-fits)),
      encode_wire-has_tx_type,
      encode_wire-body,
      laws.bytes_round (payload c op) _ (payload-IsBytes c laws op v (omega arith))
          (omega (arith, length-payload c laws op v (omega arith))),
      laws.bytes_round key _ key_bytes (omega arith),
      bytes_last sig sig_bytes (omega arith),
      decode_payload-payload c laws op v w,
      key_length,
      sig_length,
      bytes_eq_refl (encode_wire c op key sig),
    )
