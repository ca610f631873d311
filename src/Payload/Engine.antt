-- ===== src/Payload/Engine.antt =====
-- src/payload/engine.rs: the validator of the Engine API. `EngineUpstream` holds what the code calls
-- of the upstream crates, for a chain `Chain`: `D` is `ExecutionData`, `A` the payload attributes,
-- `V` a version of the messages, `Q` the requests of EIP-7685, `B` a sealed block, `E` an
-- `EngineObjectValidationError` and `N` a `NewPayloadError`.
pub mod Fields
use reth_cosmos.Prelude.{Option, none, some, Bytes, Result, ok, err, ◌>>=◌, ◌>>◌, map_err}

-- `PayloadOrAttributes`.
pub data PayloadOrAttributes (D A : Type 0) : Type 0 where
  execution_payload : D → PayloadOrAttributes D A
  payload_attributes : A → PayloadOrAttributes D A

pub record EngineUpstream (Chain D A V Q B E X N : Type 0) : Type 0 where
  -- `EthereumExecutionPayloadValidator::ensure_well_formed_payload`, with its error `X`.
  pub ensure_well_formed_payload : Chain → D → Result X B
  -- `NewPayloadError::from`.
  pub into_new_payload_error : X → N
  -- `PayloadOrAttributes::execution_requests`.
  pub execution_requests : PayloadOrAttributes D A → Option Q
  pub validate_execution_requests : Q → Result E (Unit {0})
  pub validate_fields : Chain → V → PayloadOrAttributes D A → Result E (Unit {0})

-- `CosmosEngineValidator`, whose `inner` validator is given by its chain.
pub record CosmosEngineValidator (Chain : Type 0) : Type 0 where
  pub inner : Chain

-- `CosmosEngineValidator::new`.
unfoldable pub new_validator : {Chain : Type 0} → Chain → CosmosEngineValidator Chain
new_validator chain = record { inner = chain }

unfoldable pub chain_spec : {Chain : Type 0} → CosmosEngineValidator Chain → Chain
chain_spec v = v.inner

-- `option.map(check).transpose()?`.
unfoldable pub check_if_any :
    {Q E : Type 0} → (Q → Result E (Unit {0})) → Option Q → Result E (Unit {0})
check_if_any check none = ok tt
check_if_any check (some q) = check q

module _ {Chain D A V Q B E X N : Type 0} (u : EngineUpstream Chain D A V Q B E X N) where
  unfoldable pub convert_payload_to_block : CosmosEngineValidator Chain → D → Result N B
  convert_payload_to_block v payload = elim (u.ensure_well_formed_payload v.inner payload) [
    | ok b ↦ ok b
    | err x ↦ err (u.into_new_payload_error x)
  ]

  unfoldable pub validate_version_specific_fields :
      CosmosEngineValidator Chain → V → PayloadOrAttributes D A → Result E (Unit {0})
  unfolding check_if_any chain_spec
  validate_version_specific_fields v version message = do
    check_if_any u.validate_execution_requests (u.execution_requests message)
    u.validate_fields (chain_spec v) version message

  unfoldable pub ensure_well_formed_attributes :
      CosmosEngineValidator Chain → V → A → Result E (Unit {0})
  unfolding chain_spec
  ensure_well_formed_attributes v version attributes =
      u.validate_fields (chain_spec v) version (payload_attributes attributes)

-- `CosmosEngineTypes::block_to_payload`: a block `B`, with its hash and its unsealed form `U`, as
-- the execution data of a payload `P` with a sidecar `C`.
unfoldable pub block_to_payload :
    {B U P C : Type 0}
    → (B → Bytes)
    → (B → U)
    → (Bytes → U → Option Bytes → P × C)
    → B
    → Option Bytes
    → P × C
block_to_payload hash into_block from_block_unchecked_with_extras block bal =
    let (payload, sidecar) = from_block_unchecked_with_extras (hash block) (into_block block) bal in
    (payload, sidecar)
