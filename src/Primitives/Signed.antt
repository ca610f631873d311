-- ===== src/Primitives/Signed.antt =====
-- src/primitives/cosmos.rs: `CosmosSigned`, a transaction with its Cosmos authorization.
pub mod Cached
pub mod Rpc
pub mod Getters
use reth_cosmos.Prelude.{
  ℕ, Bool, true, false, ◌&&◌, Option, none, some, Bytes, Result, ok, err, ◌>>=◌, ◌>>◌, guard,
  map_err, length, take, drop, ◌==◌, ◌+◌,
}
use reth_cosmos.Extern.Rlp.{Rlp, Signature}
use reth_cosmos.Extern.Crypto.{Crypto}
use reth_cosmos.Extern.Json.{Json}
use reth_cosmos.Auth.{
  Operation, AuthError, public_key, signature, genesis_hash_const, tx_type_const, validate_limits,
}
use reth_cosmos.Auth.Sign.{verify}
use reth_cosmos.Auth.Wire.{encode_wire, decode_wire, transaction_hash}

pub record CosmosSigned : Type 0 where
  pub operation : Operation
  pub public_key : Bytes
  pub signature : Signature
  pub hash : Bytes
  pub raw : Bytes

-- `alloy_consensus::crypto::RecoveryError`.
pub data RecoveryError : Type 0 where
  recovery_error : RecoveryError

-- `Signature::new` of the two halves of `sig`, with the parity `false`.
unfoldable pub signature_of : Rlp → Bytes → Signature
signature_of c sig = record {
  r = c.from_be_slice (take 32 sig);
  s = c.from_be_slice (drop 32 sig);
  v = false;
}

-- `&self.signature.as_bytes()[..64]`.
unfoldable pub signature_bytes : Rlp → CosmosSigned → Bytes
signature_bytes c t = take 64 (c.as_bytes t.signature)

module _ (c : Rlp) {Key Sig : Type 0} (k : Crypto Key Sig) where
  -- `CosmosSigned::new`.
  unfoldable pub new : Operation → Bytes → Bytes → Result AuthError CosmosSigned
  new operation key sig = do
    validate_limits operation
    guard (length key == 33) public_key
    guard (length sig == 64) signature
    let raw = encode_wire c operation key sig
    (decoded, _, parts) ← decode_wire c raw
    ok (record {
      operation = decoded;
      public_key = key;
      signature = signature_of c parts;
      hash = transaction_hash k raw;
      raw = raw;
    })

  -- `CosmosSigned::verify`.
  unfoldable pub verify_signed : (Json → Bytes) → CosmosSigned → Result RecoveryError Bytes
  verify_signed to_vec t =
      map_err (verify c k to_vec t.operation t.public_key (signature_bytes c t) genesis_hash_const)
        recovery_error

-- `Typed2718::ty`.
abbrev pub ty : CosmosSigned → ℕ
ty t = tx_type_const

-- `InMemorySize::size`; the first argument is `size_of::<CosmosSigned>()`.
unfoldable pub size : ℕ → CosmosSigned → ℕ
size own t = own + length t.operation.input + length t.public_key + length t.raw
