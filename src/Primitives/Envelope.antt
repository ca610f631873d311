-- ===== src/Primitives/Envelope.antt =====
-- src/primitives/envelope.rs: `CosmosEnvelope<T>`, an Ethereum transaction of the upstream type `T`
-- or a Cosmos transaction. `EthTx` holds what the code calls of `T`.
pub mod Recovery
pub mod Decoding
pub mod Pooled
pub mod Types
use reth_cosmos.Prelude.{
  ℕ, suc, ◌+◌, ◌-◌, Bool, true, false, not, ◌&&◌, ◌||◌, Option, none, some, [], ◌∷◌, ◌++◌, Bytes,
  Result, ok, err, ◌>>=◌, ◌>>◌, guard, or_err, map_err, length, take, drop, leb, ltb, ◌==◌,
  if◌then◌else◌,
}
use reth_cosmos.Extern.Rlp.{Rlp, Header}
use reth_cosmos.Extern.Crypto.{Crypto}
use reth_cosmos.Extern.Json.{Json}
use reth_cosmos.Auth.{tx_type_const, max_raw_tx}
use reth_cosmos.Auth.Wire.{decode_wire}
use reth_cosmos.Primitives.TxType.{CosmosTxType, try_from}
use reth_cosmos.Primitives.View.{TxView, cosmos_view}
use reth_cosmos.Primitives.Signed.{CosmosSigned, RecoveryError, new, verify_signed}
use reth_cosmos.Primitives.Signed

pub record EthTx (T AccessList Authorization : Type 0) : Type 0 where
  pub view : T → TxView AccessList Authorization
  pub ty : T → ℕ
  pub is_type : ℕ → Bool
  pub size : T → ℕ
  pub tx_hash : T → Bytes
  pub recover_signer : T → Result RecoveryError Bytes
  pub recover_signer_unchecked : T → Result RecoveryError Bytes
  -- The buffered forms return the buffer too, which they may write.
  pub recover_with_buf : T → Bytes → Result RecoveryError Bytes × Bytes
  pub recover_unchecked_with_buf : T → Bytes → Result RecoveryError Bytes × Bytes
  pub encode_2718_len : T → ℕ
  pub encode_2718 : T → Bytes
  -- The value with the bytes behind it; `none` is an error.
  pub typed_decode : ℕ → Bytes → Option (T × Bytes)
  pub fallback_decode : Bytes → Option (T × Bytes)

pub data CosmosEnvelope (T : Type 0) : Type 0 where
  ethereum : T → CosmosEnvelope T
  cosmos : CosmosSigned → CosmosEnvelope T

-- `Eip2718Error`: from upstream, of the header, or one of the two custom texts.
pub data DecodeError : Type 0 where
  upstream header_error invalid_size invalid_encoding : DecodeError

module _ {T AccessList Authorization : Type 0} (e : EthTx T AccessList Authorization) where
  -- `impl Transaction`: every method dispatches on the variant.
  unfoldable pub view : (ℕ → ℕ → Option ℕ → ℕ) → CosmosEnvelope T → TxView AccessList Authorization
  view calc (ethereum t) = e.view t
  view calc (cosmos t) = cosmos_view calc t

  unfoldable pub ty : CosmosEnvelope T → ℕ
  ty (ethereum t) = e.ty t
  ty (cosmos t) = Signed.ty t

  -- `TransactionEnvelope::tx_type`; `none` is the panic of `expect`.
  unfoldable pub tx_type : (ℕ → Bool) → CosmosEnvelope T → Option CosmosTxType
  unfolding ty
  tx_type eth_type t = elim (try_from eth_type (ty t)) [ ok k ↦ some k | err x ↦ none ]

  unfoldable pub is_type : ℕ → Bool
  is_type k = k == tx_type_const || e.is_type k

  unfoldable pub size : ℕ → CosmosEnvelope T → ℕ
  size own (ethereum t) = e.size t
  size own (cosmos t) = Signed.size own t

  unfoldable pub tx_hash : CosmosEnvelope T → Bytes
  tx_hash (ethereum t) = e.tx_hash t
  tx_hash (cosmos t) = t.hash

  unfoldable pub encode_2718_len : CosmosEnvelope T → ℕ
  encode_2718_len (ethereum t) = e.encode_2718_len t
  encode_2718_len (cosmos t) = length t.raw

  unfoldable pub encode_2718 : CosmosEnvelope T → Bytes
  encode_2718 (ethereum t) = e.encode_2718 t
  encode_2718 (cosmos t) = t.raw

  unfoldable pub fallback_decode : Bytes → Result DecodeError (CosmosEnvelope T × Bytes)
  fallback_decode buf = do
    (t, rest) ← or_err (e.fallback_decode buf) upstream
    ok (ethereum t, rest)

  module _ (c : Rlp) {Key Sig : Type 0} (k : Crypto Key Sig) where
    module _ (to_vec : Json → Bytes) where
      -- `impl SignerRecoverable`.
      unfoldable pub recover_signer : CosmosEnvelope T → Result RecoveryError Bytes
      recover_signer (ethereum t) = e.recover_signer t
      recover_signer (cosmos t) = verify_signed c k to_vec t

      unfoldable pub recover_signer_unchecked : CosmosEnvelope T → Result RecoveryError Bytes
      recover_signer_unchecked (ethereum t) = e.recover_signer_unchecked t
      recover_signer_unchecked (cosmos t) = verify_signed c k to_vec t

      unfoldable pub recover_with_buf :
          CosmosEnvelope T → Bytes → Result RecoveryError Bytes × Bytes
      recover_with_buf (ethereum t) buf = e.recover_with_buf t buf
      recover_with_buf (cosmos t) buf = (verify_signed c k to_vec t, buf)

      unfoldable pub recover_unchecked_with_buf :
          CosmosEnvelope T → Bytes → Result RecoveryError Bytes × Bytes
      recover_unchecked_with_buf (ethereum t) buf = e.recover_unchecked_with_buf t buf
      recover_unchecked_with_buf (cosmos t) buf = (verify_signed c k to_vec t, buf)

    -- The Cosmos branch of `typed_decode`, from the bytes behind the type.
    unfoldable pub decode_cosmos : Bytes → Result DecodeError (CosmosSigned × Bytes)
    decode_cosmos original = do
      (h, probe) ← or_err (c.decode_header original) header_error
      let len = length (c.encode_header h) + h.payload_length
      guard (h.list && leb len (max_raw_tx - 1) && leb len (length original)) invalid_size
      (op, key, sig) ← map_err (decode_wire c (tx_type_const ∷ take len original)) invalid_encoding
      signed ← map_err (new c k op key sig) invalid_encoding
      ok (signed, drop len original)

    -- `Decodable2718::typed_decode`: the value, with the bytes that `buf` is left at.
    unfoldable pub typed_decode : ℕ → Bytes → Result DecodeError (CosmosEnvelope T × Bytes)
    typed_decode k_type buf =
        if not (k_type == tx_type_const)
        then (do (t, rest) ← or_err (e.typed_decode k_type buf) upstream; ok (ethereum t, rest))
        else (do (t, rest) ← decode_cosmos buf; ok (cosmos t, rest))
