-- ===== src/Node/Wiring.antt =====
-- src/node.rs: the components of the node, built from the command line's configuration. The records
-- `PoolUpstream` and `ApiUpstream` hold what the code calls of upstream crates.
pub mod Settings
pub mod Components
use reth_cosmos.Prelude.{
  ℕ, Bool, not, ◌||◌, Option, Bytes, Result, ok, err, ◌>>=◌, ◌>>◌, guard, ◌==◌,
}
use reth_cosmos.Auth.{tx_type_const}
use reth_cosmos.Consensus.{EthBeacon, new_consensus}
use reth_cosmos.Evm.Contexts.{CosmosEvmConfig, new_evm_config}
use reth_cosmos.Payload.Engine.{CosmosEngineValidator, new_validator}
use reth_cosmos.Payload.Builder.Setup.{CosmosPayloadBuilder, new_builder}

-- What the builders read of `BuilderContext`, with local transaction settings `L`, a chain `C` and a
-- provider `R`.
pub record BuilderContext (L C R : Type 0) : Type 0 where
  pub chain_spec : C
  pub provider : R
  pub jit_enabled : Bool
  -- `config().txpool`.
  pub disable_blobs_support : Bool
  pub blobpool_max_count : ℕ
  pub max_tx_input_bytes : ℕ
  pub max_tx_gas_limit : Option ℕ
  pub minimum_priority_fee : Option ℕ
  pub additional_validation_tasks : ℕ
  -- `config().rpc`.
  pub rpc_tx_fee_cap : ℕ
  -- `pool_config()`.
  pub blob_cache_size : Option ℕ
  pub local_transactions_config : L
  -- `payload_builder_config().extra_data()`.
  pub extra_data : Bytes

-- The errors of `eyre`: that of `ensure!`, and those of upstream.
pub data BuildError (E : Type 0) : Type 0 where
  jit_not_configured : BuildError E
  upstream : E → BuildError E

-- `CosmosExecutorBuilder::build_evm`, from the constructors of the configuration's parts.
unfoldable pub build_evm :
    {L C R A F G E : Type 0}
    → (C → A)
    → (C → F)
    → (C → G)
    → BuilderContext L C R
    → Result (BuildError E) (CosmosEvmConfig A F G)
unfolding new_evm_config
build_evm new_ethereum new_factory new_assembler ctx = do
  guard (not ctx.jit_enabled) jit_not_configured
  ok (new_evm_config new_ethereum new_factory new_assembler ctx.chain_spec)

-- `CosmosConsensusBuilder::build_consensus`, from `EthBeaconConsensus::new`.
unfoldable pub build_consensus :
    {L C R T Header Rest Outcome F E : Type 0}
    → (C → EthBeacon T Header Rest Outcome F)
    → BuilderContext L C R
    → Result (BuildError E) (EthBeacon T Header Rest Outcome F)
unfolding new_consensus
build_consensus new_beacon ctx = ok (new_consensus new_beacon ctx.chain_spec)

-- The builder `W` of a pool validator with its setters, a blob store `B`, KZG settings `K`, a built
-- validator `V` and a pool `P`.
pub record PoolUpstream (L C R M W B K V P E : Type 0) : Type 0 where
  pub create_blob_store_with_cache : BuilderContext L C R → Option ℕ → Result (BuildError E) B
  pub kzg_settings : BuilderContext L C R → Result (BuildError E) K
  -- `TransactionValidationTaskExecutor::eth_builder`, of a provider and an EVM configuration `M`.
  pub eth_builder : R → M → W
  pub with_custom_tx_type : ℕ → W → W
  pub set_eip4844 : Bool → W → W
  pub with_kzg_settings : K → W → W
  pub with_max_tx_input_bytes : ℕ → W → W
  pub with_local_transactions_config : L → W → W
  pub set_tx_fee_cap : ℕ → W → W
  pub with_max_tx_gas_limit : Option ℕ → W → W
  pub with_minimum_priority_fee : Option ℕ → W → W
  pub with_additional_tasks : ℕ → W → W
  pub build_with_tasks : B → W → V
  -- `TxPoolBuilder::new(ctx).with_validator(validator).build_and_spawn_maintenance_task`.
  pub build_and_spawn : BuilderContext L C R → V → B → Result (BuildError E) P

unfoldable pub blobs_disabled : {L C R : Type 0} → BuilderContext L C R → Bool
blobs_disabled ctx = ctx.disable_blobs_support || ctx.blobpool_max_count == 0

module _ {L C R M W B K V P E : Type 0} (u : PoolUpstream L C R M W B K V P E) where
  -- The builder of the validator behind its setters.
  unfoldable pub validator_builder : BuilderContext L C R → M → K → W
  unfolding blobs_disabled
  validator_builder ctx evm kzg =
      let w₁ = u.with_custom_tx_type tx_type_const (u.eth_builder ctx.provider evm) in
      let w₂ = u.with_kzg_settings kzg (u.set_eip4844 (not (blobs_disabled ctx)) w₁) in
      let w₃ = u.with_max_tx_input_bytes ctx.max_tx_input_bytes w₂ in
      let w₄ = u.with_local_transactions_config ctx.local_transactions_config w₃ in
      let w₅ = u.set_tx_fee_cap ctx.rpc_tx_fee_cap w₄ in
      let w₆ = u.with_max_tx_gas_limit ctx.max_tx_gas_limit w₅ in
      let w₇ = u.with_minimum_priority_fee ctx.minimum_priority_fee w₆ in
      u.with_additional_tasks ctx.additional_validation_tasks w₇

  -- `CosmosPoolBuilder::build_pool`.
  unfoldable pub build_pool : BuilderContext L C R → M → Result (BuildError E) P
  unfolding validator_builder
  build_pool ctx evm = do
    blobs ← u.create_blob_store_with_cache ctx ctx.blob_cache_size
    kzg ← u.kzg_settings ctx
    u.build_and_spawn ctx (u.build_with_tasks blobs (validator_builder ctx evm kzg)) blobs

-- `CosmosPayloadBuilderBuilder::build_payload_builder`; `with_extra_data` is that of a new
-- `EthereumBuilderConfig`.
unfoldable pub build_payload_builder :
    {L C R P M G E : Type 0}
    → (Bytes → G)
    → BuilderContext L C R
    → P
    → M
    → Result (BuildError E) (CosmosPayloadBuilder R P M G)
unfolding new_builder
build_payload_builder with_extra_data ctx pool evm =
    ok (new_builder ctx.provider pool evm (with_extra_data ctx.extra_data))

-- What `build_eth_api` calls: `RpcConverter::new` of `EthReceiptConverter::new(chain)` with a
-- builder of receipts `F`, and the builder `A` of the API with its converter.
pub record ApiUpstream (C F S D A H : Type 0) : Type 0 where
  pub new_receipt_converter : C → S
  pub with_builder : S → F → S
  pub new_converter : S → D
  pub map_converter : (D → D) → A → A
  pub build : A → H

-- `CosmosEthApiBuilder::build_eth_api`, of the chain, `receipt_converter` and the context's builder.
unfoldable pub build_eth_api :
    {C F S D A H E : Type 0} → ApiUpstream C F S D A H → C → F → A → Result (BuildError E) H
build_eth_api u chain receipt_converter api_builder =
    let converter =
      u.new_converter (u.with_builder (u.new_receipt_converter chain) receipt_converter) in
    ok (u.build (u.map_converter (λ d. converter) api_builder))

-- `CosmosEngineValidatorBuilder::build`.
unfoldable pub build_engine_validator :
    {C E : Type 0} → C → Result (BuildError E) (CosmosEngineValidator C)
unfolding new_validator
build_engine_validator chain = ok (new_validator chain)

-- `DebugNode::rpc_to_primitive_block`: an RPC block `B` of transactions `X`, which hold their
-- consensus form `T` in an inner value `I`.
unfoldable pub rpc_to_primitive_block :
    {B X I T M N : Type 0} → (B → M) → ((X → T) → M → N) → (X → I) → (I → T) → B → N
rpc_to_primitive_block into_consensus map_transactions inner into_inner block =
    map_transactions (λ tx. into_inner (inner tx)) (into_consensus block)

-- `DebugNode::local_payload_attributes_builder`; `new` is `LocalPayloadAttributesBuilder::new`.
unfoldable pub local_payload_attributes_builder : {C A : Type 0} → (C → A) → C → A
local_payload_attributes_builder new chain = new chain
