-- ===== src/Payload/Built/Conversions.antt =====
-- src/payload/built.rs: the conversions of a built payload, by the traits `From` and `TryFrom`. The
-- conversion to `ExecutionPayloadV1` and the field of version 2 are upstream's `from_block_unchecked`.
use reth_cosmos.Prelude.{ℕ, Option, none, Bytes, Result}
use reth_cosmos.Payload.Built.{
  BlobSidecars, CosmosBuiltPayload, ConversionError, EnvelopeV3, EnvelopeV4, EnvelopeV5, Forms,
  try_into_v3, try_into_v4, try_into_v5, try_into_v6, into_execution_data,
}

-- `ExecutionPayloadEnvelopeV2`.
pub record EnvelopeV2 (P : Type 0) : Type 0 where
  pub block_value : ℕ
  pub execution_payload : P

module _ {Block U Q R P : Type 0} (hash : Block → Bytes) (into_block : Block → U)
    (from_block_unchecked : Bytes → U → P) where
  -- `From<CosmosBuiltPayload> for ExecutionPayloadV1`.
  unfoldable pub into_v1 : CosmosBuiltPayload Block Q R → P
  into_v1 value = from_block_unchecked (hash value.block) (into_block value.block)

  -- `From<CosmosBuiltPayload> for ExecutionPayloadEnvelopeV2`.
  unfoldable pub into_v2 : CosmosBuiltPayload Block Q R → EnvelopeV2 P
  into_v2 value = record {
    block_value = value.fees;
    execution_payload = from_block_unchecked (hash value.block) (into_block value.block);
  }

module _ {Block A B R P₃ P₄ V₁ V₂ D C : Type 0} (f : Forms Block A B R P₃ P₄ V₁ V₂ D C) where
  unfoldable pub try_from_v3 :
      CosmosBuiltPayload Block (BlobSidecars A B) R → Result ConversionError (EnvelopeV3 P₃ V₁)
  try_from_v3 value = try_into_v3 f value

  unfoldable pub try_from_v4 :
      CosmosBuiltPayload Block (BlobSidecars A B) R → Result ConversionError (EnvelopeV4 P₃ V₁ R)
  try_from_v4 value = try_into_v4 f value

  unfoldable pub try_from_v5 :
      CosmosBuiltPayload Block (BlobSidecars A B) R → Result ConversionError (EnvelopeV5 P₃ V₂ R)
  try_from_v5 value = try_into_v5 f value

  unfoldable pub try_from_v6 :
      CosmosBuiltPayload Block (BlobSidecars A B) R → Result ConversionError (EnvelopeV5 P₄ V₂ R)
  try_from_v6 value = try_into_v6 f value

  unfoldable pub from_built : CosmosBuiltPayload Block (BlobSidecars A B) R → D × C
  from_built value = into_execution_data f value

  -- `From<CosmosBuiltPayload> for BigBlockData`, which panics.
  unfoldable pub into_big_block :
      {G : Type 0} → CosmosBuiltPayload Block (BlobSidecars A B) R → Option G
  into_big_block value = none
