-- ===== src/Primitives/Storage/RoundTrip.antt =====
-- src/primitives/storage.rs: a stored transaction is read back.
use mathlib.Core.List.{append-nil}
use reth_cosmos.Prelude.{
  ℕ, ◌+◌, ◌≤◌, ◌≡◌, ap, Bool, not, false, true, some, [], ◌++◌, Bytes, IsBytes, arith, length,
  length-append, take-append, drop-append, append_assoc, le→leb,
}
use reth_cosmos.Prelude.Panics.{assert}
use reth_cosmos.Extern.Rlp.{Rlp, RlpLaws, Header, Signature}
use reth_cosmos.Extern.Crypto.{Crypto}
use reth_cosmos.Auth.{IsOperation, max_raw_tx}
use reth_cosmos.Auth.Payload.{payload}
use reth_cosmos.Auth.Payload.Size.{payload-IsBytes, length-payload}
use reth_cosmos.Auth.Payload.RoundTrip.{decode_payload-payload}
use reth_cosmos.Auth.Wire.Canonical.{IsCanonical, decode_wire-IsCanonical}
use reth_cosmos.Primitives.TxType.{cosmos_type}
use reth_cosmos.Primitives.Signed.{CosmosSigned, signature_of, signature_bytes}
use reth_cosmos.Primitives.Signed.Cached.{IsSigned, IsSigned-rebuilt}
use reth_cosmos.Primitives.Envelope.{cosmos}
use reth_cosmos.Primitives.Storage.{EthCompact, to_tx_compact, from_fields, from_tx_compact}

module _ {T : Type 0} (e : EthCompact T) (c : Rlp) (laws : RlpLaws c) {Key Sig : Type 0}
    (k : Crypto Key Sig) (t : CosmosSigned) (s : IsSigned c k t) (v : IsOperation t.operation)
    (b : IsBytes t.public_key) where
  fields : Bytes
  fields = c.encode_bytes (payload c t.operation) ++ c.encode_bytes t.public_key

  stored-parts : IsCanonical c t.raw t.operation t.public_key (signature_bytes c t)
  stored-parts = decode_wire-IsCanonical c t.raw s.decodes

  length-stored :
      length fields
      ≡ length (c.encode_bytes (payload c t.operation)) + length (c.encode_bytes t.public_key)
  unfolding fields
  length-stored =
      length-append (c.encode_bytes (payload c t.operation)) (c.encode_bytes t.public_key)

  parity_false : t.signature.v ≡ false
  unfolding signature_of
  parity_false = ap (λ (g : Signature). g.v) s.parity

  length-fields : length fields ≤ max_raw_tx
  unfolding fields
  length-fields =
      let w = stored-parts.within in
      let key = stored-parts.key_length in
      omega (
        arith,
        length-append (c.encode_bytes (payload c t.operation)) (c.encode_bytes t.public_key),
        length-payload c laws t.operation v (omega arith),
        laws.bytes_size (payload c t.operation) (payload-IsBytes c laws t.operation v (omega arith))
            (omega (arith, length-payload c laws t.operation v (omega arith))),
        laws.bytes_size t.public_key b (omega arith),
      )

  from_fields-fields : from_fields e c k fields t.signature ≡ some t
  unfolding from_fields fields signature_bytes
  from_fields-fields =
      let w = stored-parts.within in
      let key = stored-parts.key_length in
      let last : c.decode_bytes (c.encode_bytes t.public_key) ≡ some (t.public_key, []) =
        rw (append-nil (c.encode_bytes t.public_key)) at
          (laws.bytes_round t.public_key [] b (omega arith)) in
      rw (
        laws.bytes_round (payload c t.operation) (c.encode_bytes t.public_key)
            (payload-IsBytes c laws t.operation v (omega arith))
            (omega (arith, length-payload c laws t.operation v (omega arith))),
        last,
        decode_payload-payload c laws t.operation v w,
        IsSigned-rebuilt c k t s,
      )

  -- Under the laws of RLP, what the database holds of a transaction whose caches agree is read
  -- back as that transaction, and the bytes behind it are left.
  pub from_tx_compact-to_tx_compact :
      (rest : Bytes)
      → from_tx_compact e c k (to_tx_compact e c (cosmos t) ++ rest) cosmos_type t.signature
        ≡ some (cosmos t, rest)
  unfolding from_tx_compact to_tx_compact fields
  from_tx_compact-to_tx_compact rest =
      let n : ℕ =
        length (c.encode_bytes (payload c t.operation)) + length (c.encode_bytes t.public_key) in
      let size : length fields ≡ n = length-stored in
      let h : Header = record { list = true; payload_length = n } in
      let header : c.decode_header ((c.encode_header h ++ fields) ++ rest)
          ≡ some (h, fields ++ rest) =
        rw (append_assoc (c.encode_header h) fields rest) (
          laws.list_round n (fields ++ rest) (omega (arith, length-fields))
            (omega (arith, length-append fields rest))) in
      rw (
        ap (λ (b : Bool). assert (not b)) parity_false,
        header,
        le→leb n max_raw_tx (omega (arith, length-fields)),
        le→leb n (length (fields ++ rest)) (omega (arith, length-append fields rest)),
        take-append n fields rest size,
        drop-append n fields rest size,
        from_fields-fields,
      )
