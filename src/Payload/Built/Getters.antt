-- ===== src/Payload/Built/Getters.antt =====
-- src/payload/built.rs: what a built payload shows, through its methods and through `BuiltPayload`.
-- `Block` is a recovered block behind its `Arc`.
use reth_cosmos.Prelude.{ℕ, Option, Bytes}
use reth_cosmos.Payload.Built.{CosmosBuiltPayload}

module _ {Block Q R : Type 0} where
  -- `CosmosBuiltPayload::block`, and that of `BuiltPayload`; `sealed_block` is the block's.
  unfoldable pub block :
      {Sealed : Type 0} → (Block → Sealed) → CosmosBuiltPayload Block Q R → Sealed
  block sealed_block p = sealed_block p.block

  unfoldable pub recovered_block : CosmosBuiltPayload Block Q R → Block
  recovered_block p = p.block

  unfoldable pub block_arc : CosmosBuiltPayload Block Q R → Block
  block_arc p = p.block

  unfoldable pub into_block_arc : CosmosBuiltPayload Block Q R → Block
  into_block_arc p = p.block

  -- `CosmosBuiltPayload::fees`, and that of `BuiltPayload`.
  unfoldable pub fees : CosmosBuiltPayload Block Q R → ℕ
  fees p = p.fees

  unfoldable pub sidecars : CosmosBuiltPayload Block Q R → Q
  sidecars p = p.sidecars

  unfoldable pub block_access_list : CosmosBuiltPayload Block Q R → Option Bytes
  block_access_list p = p.block_access_list

  unfoldable pub requests : CosmosBuiltPayload Block Q R → Option R
  requests p = p.requests
