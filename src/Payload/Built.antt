-- ===== src/Payload/Built.antt =====
-- src/payload/built.rs: a built payload, and its forms for the versions of the Engine API.
pub mod Versions
pub mod Conversions
pub mod Getters
use reth_cosmos.Prelude.{
  ℕ, Bool, true, false, Option, none, some, List, Bytes, Result, ok, err, ◌>>=◌, or_err,
}

-- `BlobSidecars`, with sidecars `A` of EIP-4844 and `B` of EIP-7594.
pub data BlobSidecars (A B : Type 0) : Type 0 where
  empty : BlobSidecars A B
  eip4844 : List A → BlobSidecars A B
  eip7594 : List B → BlobSidecars A B

-- `CosmosBuiltPayload`, with its sidecars `Q` and requests `R`.
pub record CosmosBuiltPayload (Block Q R : Type 0) : Type 0 where
  pub block : Block
  pub fees : ℕ
  pub sidecars : Q
  pub requests : Option R
  pub block_access_list : Option Bytes

-- `CosmosBuiltPayload::new`, with the sidecars that `BlobSidecars::Empty` is.
unfoldable pub new_payload :
    {Block Q R : Type 0} → Q → Block → ℕ → Option R → Option Bytes → CosmosBuiltPayload Block Q R
new_payload no_blobs block fees requests block_access_list = record {
  block = block;
  fees = fees;
  sidecars = no_blobs;
  requests = requests;
  block_access_list = block_access_list;
}

unfoldable pub with_sidecars :
    {Block Q R : Type 0} → CosmosBuiltPayload Block Q R → Q → CosmosBuiltPayload Block Q R
with_sidecars p sidecars = record p { sidecars = sidecars }

-- `BuiltPayloadConversionError`.
pub data ConversionError : Type 0 where
  unexpected_eip4844 unexpected_eip7594 missing_block_access_list : ConversionError

-- `ExecutionPayloadEnvelopeV3`, V5 and V6, with an execution payload `P` and a bundle of blobs `V`;
-- V4 adds requests to V3.
pub record EnvelopeV3 (P V : Type 0) : Type 0 where
  pub execution_payload : P
  pub block_value : ℕ
  pub should_override_builder : Bool
  pub blobs_bundle : V

pub record EnvelopeV4 (P V R : Type 0) : Type 0 where
  pub execution_requests : R
  pub envelope_inner : EnvelopeV3 P V

pub record EnvelopeV5 (P V R : Type 0) : Type 0 where
  pub execution_payload : P
  pub block_value : ℕ
  pub should_override_builder : Bool
  pub blobs_bundle : V
  pub execution_requests : R

-- What the conversions call of upstream: the execution payloads of a block with its hash, the
-- bundles of blobs of versions 1 and 2, and the execution data with its sidecar.
pub record Forms (Block A B R P₃ P₄ V₁ V₂ D C : Type 0) : Type 0 where
  pub hash : Block → Bytes
  pub payload_v3 : Bytes → Block → P₃
  pub payload_v4 : Bytes → Block → Bytes → P₄
  pub empty_v1 : V₁
  pub bundle_v1 : List A → V₁
  pub empty_v2 : V₂
  pub bundle_v2 : List B → V₂
  pub no_requests : R
  pub with_extras : Bytes → Block → Option Bytes → D × C
  pub parent_beacon_block_root : Block → Option Bytes
  pub versioned_hashes : Block → List Bytes
  -- `ExecutionPayloadSidecar::v4`.
  pub sidecar_v4 : Bytes → List Bytes → R → C

unfoldable pub or_none : {R : Type 0} → R → Option R → R
or_none d none = d
or_none d (some r) = r

module _ {Block A B R P₃ P₄ V₁ V₂ D C : Type 0} (f : Forms Block A B R P₃ P₄ V₁ V₂ D C) where
  -- `match sidecars` of version 3, and of versions 5 and 6.
  unfoldable pub blobs_v1 : BlobSidecars A B → Result ConversionError V₁
  blobs_v1 empty = ok f.empty_v1
  blobs_v1 (eip4844 sidecars) = ok (f.bundle_v1 sidecars)
  blobs_v1 (eip7594 sidecars) = err unexpected_eip7594

  unfoldable pub blobs_v2 : BlobSidecars A B → Result ConversionError V₂
  blobs_v2 empty = ok f.empty_v2
  blobs_v2 (eip7594 sidecars) = ok (f.bundle_v2 sidecars)
  blobs_v2 (eip4844 sidecars) = err unexpected_eip4844

  unfoldable pub try_into_v3 :
      CosmosBuiltPayload Block (BlobSidecars A B) R → Result ConversionError (EnvelopeV3 P₃ V₁)
  try_into_v3 p = do
    bundle ← blobs_v1 p.sidecars
    ok (record {
      execution_payload = f.payload_v3 (f.hash p.block) p.block;
      block_value = p.fees;
      should_override_builder = false;
      blobs_bundle = bundle;
    })

  unfoldable pub try_into_v4 :
      CosmosBuiltPayload Block (BlobSidecars A B) R → Result ConversionError (EnvelopeV4 P₃ V₁ R)
  unfolding or_none
  try_into_v4 p = do
    inner ← try_into_v3 (record p { requests = none })
    ok (record { execution_requests = or_none f.no_requests p.requests; envelope_inner = inner })

  unfoldable pub try_into_v5 :
      CosmosBuiltPayload Block (BlobSidecars A B) R → Result ConversionError (EnvelopeV5 P₃ V₂ R)
  unfolding or_none
  try_into_v5 p = do
    bundle ← blobs_v2 p.sidecars
    ok (record {
      execution_payload = f.payload_v3 (f.hash p.block) p.block;
      block_value = p.fees;
      should_override_builder = false;
      blobs_bundle = bundle;
      execution_requests = or_none f.no_requests p.requests;
    })

  -- Version 6 has the fields of version 5, with another execution payload.
  unfoldable pub try_into_v6 :
      CosmosBuiltPayload Block (BlobSidecars A B) R → Result ConversionError (EnvelopeV5 P₄ V₂ R)
  unfolding or_none
  try_into_v6 p = do
    block_access_list ← or_err p.block_access_list missing_block_access_list
    bundle ← blobs_v2 p.sidecars
    ok (record {
      execution_payload = f.payload_v4 (f.hash p.block) p.block block_access_list;
      block_value = p.fees;
      should_override_builder = false;
      blobs_bundle = bundle;
      execution_requests = or_none f.no_requests p.requests;
    })

  unfoldable pub data_sidecar : Block → C → Option R → Option Bytes → C
  data_sidecar block sidecar (some requests) (some root) =
      f.sidecar_v4 root (f.versioned_hashes block) requests
  data_sidecar block sidecar (some requests) none = sidecar
  data_sidecar block sidecar none root = sidecar

  -- `into_execution_data`.
  unfoldable pub into_execution_data : CosmosBuiltPayload Block (BlobSidecars A B) R → D × C
  unfolding data_sidecar
  into_execution_data p =
      let (form, sidecar) = f.with_extras (f.hash p.block) p.block p.block_access_list in
      (form, data_sidecar p.block sidecar p.requests (f.parent_beacon_block_root p.block))
