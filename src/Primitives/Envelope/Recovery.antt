-- ===== src/Primitives/Envelope/Recovery.antt =====
-- src/primitives/envelope.rs: sender recovery of a Cosmos transaction is its authorization.
use reth_cosmos.Prelude.{◌≡◌, ◌↔◌, sym, ap, Bytes, Result, ok, map_err-eq-ok}
use reth_cosmos.Extern.Rlp.{Rlp}
use reth_cosmos.Extern.Crypto.{Crypto}
use reth_cosmos.Extern.Json.{Json}
use reth_cosmos.Auth.{genesis_hash_const}
use reth_cosmos.Auth.Sign.Verify.{IsAuthorized, verify_complete, verify_sound}
use reth_cosmos.Primitives.Signed.{
  CosmosSigned, RecoveryError, recovery_error, signature_bytes, verify_signed,
}
use reth_cosmos.Primitives.Envelope.{
  EthTx, CosmosEnvelope, cosmos, recover_signer, recover_signer_unchecked, recover_with_buf,
  recover_unchecked_with_buf,
}

-- The four methods of `SignerRecoverable`, the buffered ones with their buffer.
pub data RecoveryPath : Type 0 where
  checked unchecked : RecoveryPath
  with_buf unchecked_with_buf : Bytes → RecoveryPath

module _ (c : Rlp) {Key Sig : Type 0} (k : Crypto Key Sig) (to_vec : Json → Bytes) where
  -- The authorization that a transaction holds, in the domain of the chain.
  abbrev pub IsAuthorizedTx : CosmosSigned → Type 0
  IsAuthorizedTx t =
      IsAuthorized c k to_vec t.operation t.public_key (signature_bytes c t) genesis_hash_const

  pub verify_signed_iff :
      (t : CosmosSigned) (a : Bytes)
      → (verify_signed c k to_vec t ≡ ok a) ↔ ((a ≡ t.operation.sender) × IsAuthorizedTx t)
  unfolding verify_signed
  verify_signed_iff t a = (
    (λ h.
        verify_sound c k to_vec t.operation t.public_key (signature_bytes c t) genesis_hash_const
          (map_err-eq-ok _ recovery_error h)),
    λ p.
        rw
          (verify_complete c k to_vec t.operation t.public_key (signature_bytes c t)
            genesis_hash_const p.1)
          (ap ok (sym p.0)),
  )

  module _ {T AccessList Authorization : Type 0} (e : EthTx T AccessList Authorization) where
    -- The method that a path names.
    unfoldable pub recover_by : RecoveryPath → CosmosEnvelope T → Result RecoveryError Bytes
    recover_by checked t = recover_signer e c k to_vec t
    recover_by unchecked t = recover_signer_unchecked e c k to_vec t
    recover_by (with_buf buf) t = (recover_with_buf e c k to_vec t buf).0
    recover_by (unchecked_with_buf buf) t = (recover_unchecked_with_buf e c k to_vec t buf).0

    -- Every recovery path, the unchecked ones included, recovers a sender of a Cosmos transaction
    -- exactly when the transaction is authorized for the chain, and recovers the operation's
    -- sender.
    pub recover_by_iff :
        (path : RecoveryPath) (t : CosmosSigned) (a : Bytes)
        → (recover_by path (cosmos t) ≡ ok a) ↔ ((a ≡ t.operation.sender) × IsAuthorizedTx t)
    unfolding recover_by recover_signer recover_signer_unchecked recover_with_buf
        recover_unchecked_with_buf
    recover_by_iff checked t a = verify_signed_iff t a
    recover_by_iff unchecked t a = verify_signed_iff t a
    recover_by_iff (with_buf buf) t a = verify_signed_iff t a
    recover_by_iff (unchecked_with_buf buf) t a = verify_signed_iff t a
