-- ===== src/Evm/Contexts.antt =====
-- src/evm.rs: the configuration of the EVM, and the contexts in which blocks and payloads are
-- executed. `O` are ommers and `W` withdrawals, `C` is the chain's specification, `A` the upstream
-- `EthEvmConfig`, `F` the executor's factory and `G` the block assembler.
use reth_cosmos.Prelude.{ℕ, ◌≡◌, Option, some, List, [], Bytes, length, map, refl, ◌∷◌, arith}

-- `CosmosEvmConfig`.
pub record CosmosEvmConfig (A F G : Type 0) : Type 0 where
  pub ethereum : A
  pub factory : F
  pub assembler : G

-- `CosmosEvmConfig::new`, from the constructors of its parts.
unfoldable pub new_evm_config :
    {C A F G : Type 0} → (C → A) → (C → F) → (C → G) → C → CosmosEvmConfig A F G
new_evm_config new_ethereum new_factory new_assembler chain = record {
  ethereum = new_ethereum chain;
  factory = new_factory chain;
  assembler = new_assembler chain;
}

-- `CosmosEvmConfig::chain_spec`, that of the wrapped configuration, and the getters of
-- `ConfigureEvm`.
module _ {A F G : Type 0} where
  unfoldable pub chain_spec : {C : Type 0} → (A → C) → CosmosEvmConfig A F G → C
  chain_spec inner config = inner config.ethereum

  unfoldable pub block_executor_factory : CosmosEvmConfig A F G → F
  block_executor_factory config = config.factory

  unfoldable pub block_assembler : CosmosEvmConfig A F G → G
  block_assembler config = config.assembler

-- The methods of `ConfigureEvm` that only call upstream: `H` is a header, `J` the attributes of the
-- next block, `V` an environment and `X` a context.
module _ {A F G H : Type 0} where
  unfoldable pub evm_env : {V : Type 0} → (A → H → V) → CosmosEvmConfig A F G → H → V
  evm_env upstream config header = upstream config.ethereum header

  unfoldable pub next_evm_env : {J V : Type 0} → (A → H → J → V) → CosmosEvmConfig A F G → H → J → V
  next_evm_env upstream config parent attrs = upstream config.ethereum parent attrs

  unfoldable pub context_for_next_block :
      {J X : Type 0} → (A → H → J → X) → CosmosEvmConfig A F G → H → J → X
  context_for_next_block upstream config parent attributes =
      upstream config.ethereum parent attributes

-- `EthBlockExecutionCtx`.
pub record ExecutionContext (O W : Type 0) : Type 0 where
  pub tx_count_hint : Option ℕ
  pub parent_hash : Bytes
  pub parent_beacon_block_root : Option Bytes
  pub ommers : List O
  pub withdrawals : Option (List W)
  pub extra_data : Bytes
  pub slot_number : Option ℕ

-- What `context_for_block` reads of a block with transactions `T`.
pub record BlockParts (T O W : Type 0) : Type 0 where
  pub transactions : List T
  pub parent_hash : Bytes
  pub parent_beacon_block_root : Option Bytes
  pub ommers : List O
  pub withdrawals : Option (List W)
  pub extra_data : Bytes
  pub slot_number : Option ℕ

unfoldable pub context_for_block : {T O W : Type 0} → BlockParts T O W → ExecutionContext O W
context_for_block block = record {
  tx_count_hint = some (length block.transactions);
  parent_hash = block.parent_hash;
  parent_beacon_block_root = block.parent_beacon_block_root;
  ommers = block.ommers;
  withdrawals = block.withdrawals;
  extra_data = block.extra_data;
  slot_number = block.slot_number;
}

-- What `context_for_payload` reads of `ExecutionData`: the encoded transactions, the sidecar's root
-- and the slot number of version 4.
pub record PayloadParts (W : Type 0) : Type 0 where
  pub transactions : List Bytes
  pub parent_hash : Bytes
  pub parent_beacon_block_root : Option Bytes
  pub withdrawals : Option (List W)
  pub extra_data : Bytes
  pub slot_number_v4 : Option ℕ

unfoldable pub context_for_payload : {O W : Type 0} → PayloadParts W → ExecutionContext O W
context_for_payload payload = record {
  tx_count_hint = some (length payload.transactions);
  parent_hash = payload.parent_hash;
  parent_beacon_block_root = payload.parent_beacon_block_root;
  ommers = [];
  withdrawals = payload.withdrawals;
  extra_data = payload.extra_data;
  slot_number = payload.slot_number_v4;
}

-- The payload holds the block's transactions, encoded, and its fields.
pub record IsPayloadOf {T O W : Type 0} (encode : T → Bytes) (block : BlockParts T O W)
    (payload : PayloadParts W) : Type 0 where
  pub transactions : payload.transactions ≡ map encode block.transactions
  pub parent_hash : payload.parent_hash ≡ block.parent_hash
  pub root : payload.parent_beacon_block_root ≡ block.parent_beacon_block_root
  pub withdrawals : payload.withdrawals ≡ block.withdrawals
  pub extra_data : payload.extra_data ≡ block.extra_data
  pub slot_number : payload.slot_number_v4 ≡ block.slot_number

length-map : {A B : Type 0} (h : A → B) (xs : List A) → length (map h xs) ≡ length xs
length-map h [] = refl
length-map h (x ∷ xs) = omega (arith, length-map h xs)

-- A block without ommers is executed in the same context whether it comes as a block or as the
-- payload that holds its transactions and fields.
pub context_for_payload-context_for_block :
    {T O W : Type 0} (encode : T → Bytes) (block : BlockParts T O W) (payload : PayloadParts W)
    → IsPayloadOf encode block payload
    → block.ommers ≡ []
    → context_for_payload payload ≡ context_for_block block
unfolding context_for_payload context_for_block
context_for_payload-context_for_block encode block payload p alone = rw (
  p.transactions,
  length-map encode block.transactions,
  p.parent_hash,
  p.root,
  p.withdrawals,
  p.extra_data,
  p.slot_number,
  alone,
)
