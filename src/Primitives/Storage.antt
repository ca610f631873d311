-- ===== src/Primitives/Storage.antt =====
-- src/primitives/storage.rs: the database's form of a transaction. The signature and the type stand
-- beside the bytes, in the upstream `CompactEnvelope`. `none` is a panic on corrupt data.
pub mod RoundTrip
pub mod Database
pub mod Parts
use reth_cosmos.Prelude.{
  ℕ, ◌+◌, Bool, true, false, not, ◌&&◌, Option, none, some, ◌++◌, Bytes, Result, ok, err, length,
  is_empty, take, drop, leb, ◌==◌, if◌then◌else◌,
}
use reth_cosmos.Prelude.Panics.{◌>>=◌, ◌>>◌, assert, expect}
use reth_cosmos.Extern.Rlp.{Rlp, Header, Signature}
use reth_cosmos.Extern.Crypto.{Crypto}
use reth_cosmos.Auth.{tx_type_const, max_raw_tx}
use reth_cosmos.Auth.Payload.{payload, decode_payload}
use reth_cosmos.Primitives.TxType.{CosmosTxType}
use reth_cosmos.Primitives.Signed.{CosmosSigned, signature_bytes, new}
use reth_cosmos.Primitives.Envelope.{CosmosEnvelope, ethereum, cosmos}

-- The upstream codec of an Ethereum transaction.
pub record EthCompact (T : Type 0) : Type 0 where
  pub to_tx_compact : T → Bytes
  -- The type's byte and the signature; `none` is a panic.
  pub from_tx_compact : Bytes → ℕ → Signature → Option (T × Bytes)
  pub signature : T → Signature

module _ {T : Type 0} (e : EthCompact T) where
  -- `Envelope::signature`.
  unfoldable pub signature : CosmosEnvelope T → Signature
  signature (ethereum t) = e.signature t
  signature (cosmos t) = t.signature

  module _ (c : Rlp) where
    -- `ToTxCompact::to_tx_compact`: the bytes that are written.
    unfoldable pub to_tx_compact : CosmosEnvelope T → Bytes
    to_tx_compact (ethereum t) = e.to_tx_compact t
    to_tx_compact (cosmos t) =
        let op_bytes = c.encode_bytes (payload c t.operation) in
        let key_bytes = c.encode_bytes t.public_key in
        c.encode_header
          (record { list = true; payload_length = length op_bytes + length key_bytes })
        ++ (op_bytes ++ key_bytes)

    module _ {Key Sig : Type 0} (k : Crypto Key Sig) where
      -- The Cosmos branch behind the header: the fields, and the signature that stands beside them.
      unfoldable pub from_fields : Bytes → Signature → Option CosmosSigned
      from_fields fields sig = do
        (payload_bytes, b₁) ← c.decode_bytes fields
        (key, b₂) ← c.decode_bytes b₁
        assert (is_empty b₂)
        op ← expect (decode_payload c payload_bytes)
        expect (new c k op key (take 64 (c.as_bytes sig)))

      -- `FromTxCompact::from_tx_compact`.
      unfoldable pub from_tx_compact :
          Bytes → CosmosTxType → Signature → Option (CosmosEnvelope T × Bytes)
      from_tx_compact buf ty sig =
          if not (ty.ty == tx_type_const)
          then (do (t, rest) ← e.from_tx_compact buf ty.ty sig; some (ethereum t, rest))
          else (do
            assert (not sig.v)
            (h, body) ← c.decode_header buf
            assert (h.list && leb h.payload_length max_raw_tx && leb h.payload_length (length body))
            tx ← from_fields (take h.payload_length body) sig
            some (cosmos tx, drop h.payload_length body))
