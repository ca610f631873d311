-- ===== src/Node/Start.antt =====
-- src/main.rs: the closures of `run_with_components`, and what the check of the genesis means for the
-- validation of blocks.
use reth_cosmos.Prelude.{◌≡◌, ◌↔◌, ◌∙◌, true, Option, Bytes, ok, bytes_eq→eq, All}
use reth_cosmos.Extern.Rlp.{Rlp}
use reth_cosmos.Extern.Crypto.{Crypto}
use reth_cosmos.Extern.Json.{Json}
use reth_cosmos.Auth.{genesis_hash_const}
use reth_cosmos.Consensus.{
  SealedBlock, EthBeacon, new_consensus, validate_block_pre_execution_with_tx_root,
}
use reth_cosmos.Consensus.Authorization.{IsAuthorizedEnvelope, pre_execution_iff}
use reth_cosmos.Node.Endpoint.{accepts_genesis}

-- The components of a chain: `CosmosEvmConfig::new` and `CosmosConsensus::new`.
unfoldable pub components :
    {Chain Evm Consensus : Type 0} → (Chain → Evm) → (Chain → Consensus) → Chain → Evm × Consensus
components new_evm consensus chain = (new_evm chain, consensus chain)

module _ (c : Rlp) {Key Sig : Type 0} (k : Crypto Key Sig) (to_vec : Json → Bytes)
    {T Header Rest Outcome E Chain Evm : Type 0} (genesis_hash : Chain → Bytes)
    (new_evm : Chain → Evm) (new_beacon : Chain → EthBeacon T Header Rest Outcome E)
    (keeps : (chain : Chain) → (new_beacon chain).genesis_hash ≡ genesis_hash chain) where
  -- If the node starts on a chain, whose genesis the consensus has too, a block passes the validation
  -- before execution exactly when its Cosmos transactions are authorized and the Ethereum rules
  -- hold of it: the check of the genesis in the consensus refuses no block.
  pub started_pre_execution_iff :
      (chain : Chain) (block : SealedBlock T Header Rest) (root : Option Bytes)
      → accepts_genesis (genesis_hash chain) ≡ true
      → (validate_block_pre_execution_with_tx_root c k to_vec
            (components new_evm (new_consensus new_beacon) chain).1
            block
            root
          ≡ ok tt)
        ↔ (All (IsAuthorizedEnvelope c k to_vec) block.transactions
            × ((new_beacon chain).validate_pre_execution block root ≡ ok tt))
  unfolding components accepts_genesis new_consensus
  started_pre_execution_iff chain block root started =
      let same : (new_beacon chain).genesis_hash ≡ genesis_hash_const =
        keeps chain ∙ bytes_eq→eq (genesis_hash chain) genesis_hash_const started in
      let i = pre_execution_iff c k to_vec (new_beacon chain) block root in
      ((λ h. let p = i.0 h in (p.1, p.2)), λ p. i.1 (same, p.0, p.1))
