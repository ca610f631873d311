-- ===== src/Consensus.antt =====
-- src/consensus.rs: `CosmosConsensus`, Cosmos authorization in front of the upstream
-- `EthBeaconConsensus`, whose methods are the fields of `EthBeacon`.
pub mod Authorization
pub mod Produced
pub mod Replayed
use reth_cosmos.Prelude.{
  ℕ, Bool, not, Option, none, some, List, [], ◌∷◌, Bytes, Result, ok, err, ◌>>=◌, ◌>>◌, guard,
  map_err, bytes_eq,
}
use reth_cosmos.Extern.Rlp.{Rlp}
use reth_cosmos.Extern.Crypto.{Crypto}
use reth_cosmos.Extern.Json.{Json}
use reth_cosmos.Auth.{genesis_hash_const}
use reth_cosmos.Primitives.Signed.{CosmosSigned, verify_signed}
use reth_cosmos.Primitives.Envelope.{CosmosEnvelope, ethereum, cosmos}

-- `ConsensusError`: the one that this code raises, and those of upstream.
pub data ConsensusError (E : Type 0) : Type 0 where
  transaction_signer_recovery : ConsensusError E
  upstream : E → ConsensusError E

-- `SealedBlock<Block>`: the sealed header, the transactions, and the rest of the body.
pub record SealedBlock (T Header Rest : Type 0) : Type 0 where
  pub header : Header
  pub transactions : List (CosmosEnvelope T)
  pub rest : Rest

-- A check that raises upstream errors.
abbrev pub Check : Type 0 → Type 0
Check E = Result (ConsensusError E) (Unit {0})

-- `EthBeaconConsensus`: the header rules, the body against its header, the block before its
-- execution with a known transaction root or none, and the results of the execution.
pub record EthBeacon (T Header Rest Outcome E : Type 0) : Type 0 where
  pub genesis_hash : Bytes
  pub validate_header : Header → Check E
  pub validate_header_against_parent : Header → Header → Check E
  pub validate_body_against_header : SealedBlock T Header Rest → Header → Check E
  pub validate_pre_execution : SealedBlock T Header Rest → Option Bytes → Check E
  pub validate_post_execution : SealedBlock T Header Rest → Outcome → Check E

module _ (c : Rlp) {Key Sig : Type 0} (k : Crypto Key Sig) (to_vec : Json → Bytes)
    {T : Type 0} where
  -- The loop of `verify_authorizations`.
  unfoldable pub verify_each : {E : Type 0} → List (CosmosEnvelope T) → Check E
  verify_each [] = ok tt
  verify_each (ethereum t ∷ txs) = verify_each txs
  verify_each (cosmos t ∷ txs) = do
    a ← map_err (verify_signed c k to_vec t) transaction_signer_recovery
    verify_each txs

  module _ {Header Rest Outcome E : Type 0} (inner : EthBeacon T Header Rest Outcome E) where
    -- `CosmosConsensus::verify_authorizations`.
    unfoldable pub verify_authorizations : SealedBlock T Header Rest → Check E
    verify_authorizations block = do
      guard (bytes_eq inner.genesis_hash genesis_hash_const) transaction_signer_recovery
      verify_each block.transactions

    -- `validate_block_pre_execution_with_tx_root`.
    unfoldable pub validate_block_pre_execution_with_tx_root :
        SealedBlock T Header Rest → Option Bytes → Check E
    validate_block_pre_execution_with_tx_root block root = do
      verify_authorizations block
      inner.validate_pre_execution block root

    -- `validate_block_pre_execution`.
    unfoldable pub validate_block_pre_execution : SealedBlock T Header Rest → Check E
    unfolding validate_block_pre_execution_with_tx_root
    validate_block_pre_execution block = validate_block_pre_execution_with_tx_root block none

-- `CosmosConsensus::new`, around `EthBeaconConsensus::new`.
unfoldable pub new_consensus :
    {C T Header Rest Outcome E : Type 0}
    → (C → EthBeacon T Header Rest Outcome E)
    → C
    → EthBeacon T Header Rest Outcome E
new_consensus new_beacon chain = new_beacon chain

-- The methods that only call upstream.
module _ {T Header Rest Outcome E : Type 0} (inner : EthBeacon T Header Rest Outcome E) where
  unfoldable pub validate_header : Header → Check E
  validate_header header = inner.validate_header header

  unfoldable pub validate_header_against_parent : Header → Header → Check E
  validate_header_against_parent header parent = inner.validate_header_against_parent header parent

  unfoldable pub validate_body_against_header : SealedBlock T Header Rest → Header → Check E
  validate_body_against_header body header = inner.validate_body_against_header body header

  unfoldable pub validate_block_post_execution : SealedBlock T Header Rest → Outcome → Check E
  validate_block_post_execution block outcome = inner.validate_post_execution block outcome
