-- ===== src/Node/Endpoint/Text.antt =====
-- src/main.rs: no transaction is too long or of the wrong form for the endpoint.
use reth_cosmos.Prelude.{
  ℕ, ◌+◌, ◌*◌, ◌/◌, ◌%◌, ◌≤◌, ◌<◌, ◌≡◌, refl, Option, some, [], ◌∷◌, ◌++◌, Bytes, IsBytes,
  All-append, ok, length, ltb, arith, if◌then◌else◌,
}
use reth_cosmos.Extern.Rlp.{Rlp, RlpLaws}
use reth_cosmos.Extern.Rlp.Ranges.{RlpRanges}
use reth_cosmos.Extern.Json.{codes}
use reth_cosmos.Auth.{Operation, max_raw_tx}
use reth_cosmos.Auth.Payload.{list, payload}
use reth_cosmos.Auth.Payload.Size.{list-IsBytes, payload-IsBytes, length-payload}
use reth_cosmos.Auth.Wire.{wire_fields, encode_wire}
use reth_cosmos.Auth.Wire.Exact.{IsWire}
use reth_cosmos.Auth.Wire.RoundTrip.{length-wire_fields, encode_wire-fits}
use reth_cosmos.Node.Endpoint.{pool_limit, admit}
use reth_cosmos.Node.Endpoint.Accepted.{admit_iff}

-- The hexadecimal text of bytes, in lower case.
unfoldable pub digit : ℕ → ℕ
digit n = if ltb n 10 then 48 + n else 87 + n

unfoldable pub hex : Bytes → Bytes
hex [] = []
hex (b ∷ bs) = digit (b / 16) ∷ digit (b % 16) ∷ hex bs

length-hex : (bs : Bytes) → length (hex bs) ≡ 2 * length bs
unfolding hex
length-hex [] = omega arith
length-hex (b ∷ bs) = omega (arith, length-hex bs)

-- The parser gives bytes, and reads what is the text of bytes.
pub record HexLaws (parse : Bytes → Option Bytes) : Type 0 where
  pub parses_bytes : (text bytes : Bytes) → parse text ≡ some bytes → IsBytes bytes
  pub reads : (bytes : Bytes) → IsBytes bytes → parse (codes "0x" ++ hex bytes) ≡ some bytes

module _ (c : Rlp) (laws : RlpLaws c) (ranges : RlpRanges c) (op : Operation) (key sig : Bytes)
    (w : IsWire op key sig) where
  wire_fields-IsBytes : IsBytes (wire_fields c op key sig)
  unfolding wire_fields
  wire_fields-IsBytes =
      let join = All-append (λ x. x < 256) in
      let within = w.within in
      let key_length = w.key_length in
      let sig_length = w.sig_length in
      let small = length-payload c laws op w.range (omega arith) in
      join _ _
        (laws.bytes_bytes (payload c op) (payload-IsBytes c laws op w.range (omega arith))
          (omega (arith, small)))
        (join _ _ (laws.bytes_bytes key w.key_bytes (omega arith))
          (laws.bytes_bytes sig w.sig_bytes (omega arith)))

  encode_wire-IsBytes : IsBytes (encode_wire c op key sig)
  unfolding encode_wire
  encode_wire-IsBytes =
      let within = w.within in
      (
        omega arith,
        list-IsBytes c laws (wire_fields c op key sig) wire_fields-IsBytes (
            omega (
              arith,
              length-wire_fields c laws op key sig w.range w.within w.key_bytes w.key_length
                  w.sig_bytes w.sig_length,
            )),
      )

  text_fits : length (codes "0x" ++ hex (encode_wire c op key sig)) ≤ 2 + 2 * max_raw_tx
  text_fits =
      let within = w.within in
      omega (
        arith,
        length-hex (encode_wire c op key sig),
        encode_wire-fits c laws op key sig w.range w.within w.key_bytes w.key_length w.sig_bytes
            w.sig_length,
      )

  -- Under the laws of RLP, of the ranges of what it decodes and of hexadecimal text, while the pool
  -- has room: the text of every transaction passes the checks, if its operation is within the limits,
  -- its key has 33 bytes and its signature 64, all in the ranges of their types. Its bytes are sent.
  pub admit-text :
      (parse : Bytes → Option Bytes)
      → HexLaws parse
      → (pool_total : ℕ) → pool_total < pool_limit
      → admit c parse pool_total (some (codes "0x" ++ hex (encode_wire c op key sig)))
        ≡ ok (encode_wire c op key sig)
  unfolding hex digit encode_wire
  admit-text parse h pool_total room =
      (admit_iff c parse laws ranges h.parses_bytes pool_total
          (some (codes "0x" ++ hex (encode_wire c op key sig))) (encode_wire c op key sig)).1
        (record {
          digits = hex (list c (wire_fields c op key sig));
          given = refl;
          parsed = h.reads (encode_wire c op key sig) encode_wire-IsBytes;
          short = text_fits;
          room = room;
          operation = op;
          key = key;
          sig = sig;
          wire = w;
          encoded = refl;
        })
