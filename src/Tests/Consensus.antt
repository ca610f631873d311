-- ===== src/Tests/Consensus.antt =====
-- tests/integration.rs, import validation: the properties of `Consensus` at a block of one
-- transaction.
use reth_cosmos.Prelude.{
  bytes_eq_refl, ℕ, ◌≡◌, ◌↔◌, refl, none, [], ◌∷◌, ok, err, arith, Bytes, All,
}
use reth_cosmos.Auth.{genesis_hash_const}
use reth_cosmos.Primitives.Signed.{CosmosSigned}
use reth_cosmos.Primitives.Envelope.{cosmos}
use reth_cosmos.Consensus.{
  SealedBlock, EthBeacon, new_consensus, transaction_signer_recovery,
  validate_block_pre_execution_with_tx_root,
}
use reth_cosmos.Consensus.Authorization.{
  IsAuthorizedEnvelope, pre_execution_iff, pre_execution_refuses,
}
use reth_cosmos.Node.Endpoint.{accepts_genesis}
use reth_cosmos.Node.Start.{components, started_pre_execution_iff}
use reth_cosmos.Tests.Codec.{codec}
use reth_cosmos.Tests.Json.{to_vec}
use reth_cosmos.Tests.Toy.{toy}
use reth_cosmos.Tests.Accounts.{toy_signed, toy_signed-IsAuthorizedTx}

-- Ethereum rules that accept everything.
abbrev pub lenient : EthBeacon Bytes ℕ ℕ ℕ ℕ
lenient = record {
  genesis_hash = genesis_hash_const;
  validate_header = λ h. ok tt;
  validate_header_against_parent = λ h p. ok tt;
  validate_body_against_header = λ b h. ok tt;
  validate_pre_execution = λ b r. ok tt;
  validate_post_execution = λ b r. ok tt;
}

abbrev pub block_of : CosmosSigned → SealedBlock Bytes ℕ ℕ
block_of t = record { header = 1; transactions = cosmos t ∷ []; rest = 0 }

-- The toy transaction with another chain in its operation.
abbrev tampered : CosmosSigned
tampered = record toy_signed { operation = record toy_signed.operation { chain_id = 1 } }

pre_execution_iff_example :
    (validate_block_pre_execution_with_tx_root codec toy to_vec lenient (block_of toy_signed) none
      ≡ ok tt)
    ↔ ((lenient.genesis_hash ≡ genesis_hash_const)
        × All (IsAuthorizedEnvelope codec toy to_vec) (block_of toy_signed).transactions
        × (lenient.validate_pre_execution (block_of toy_signed) none ≡ ok tt))
pre_execution_iff_example = pre_execution_iff codec toy to_vec lenient (block_of toy_signed) none

pub toy_block_passes :
    validate_block_pre_execution_with_tx_root codec toy to_vec lenient (block_of toy_signed) none
    ≡ ok tt
toy_block_passes = pre_execution_iff_example.1 (refl, (toy_signed-IsAuthorizedTx, tt), refl)

pre_execution_refuses_example :
    validate_block_pre_execution_with_tx_root codec toy to_vec lenient (block_of tampered) none
    ≡ err transaction_signer_recovery
pre_execution_refuses_example =
    pre_execution_refuses codec toy to_vec lenient (block_of tampered) none
      (λ h. absurd (omega (arith, h.0.chain)))

started_pre_execution_iff_example :
    (validate_block_pre_execution_with_tx_root codec toy to_vec
        (components (λ (n : ℕ). n) (new_consensus (λ n. lenient)) 1).1
        (block_of toy_signed)
        none
      ≡ ok tt)
    ↔ (All (IsAuthorizedEnvelope codec toy to_vec) (block_of toy_signed).transactions
        × (lenient.validate_pre_execution (block_of toy_signed) none ≡ ok tt))
unfolding accepts_genesis
started_pre_execution_iff_example =
    started_pre_execution_iff codec toy to_vec (λ n. genesis_hash_const) (λ n. n) (λ n. lenient)
      (λ n. refl) 1 (block_of toy_signed) none (bytes_eq_refl genesis_hash_const)
