-- ===== src/Evm.antt =====
-- src/evm.rs: how transactions reach the EVM. `Others` are the fields of revm's `TxEnv` that a
-- Cosmos transaction leaves at their defaults.
pub mod Execution
pub mod Blocks
pub mod Contexts
pub mod Payloads
use reth_cosmos.Prelude.{
  ℕ, Bool, true, false, Option, none, some, List, [], Bytes, Result, ok, err, ◌==◌, bytes_eq, leb,
  if◌then◌else◌, length,
}
use reth_cosmos.Prelude.Panics.{◌>>=◌, ◌>>◌, assert, expect}
use reth_cosmos.Primitives.TxType.{CosmosTxType}
use reth_cosmos.Primitives.Signed.{CosmosSigned, RecoveryError}
use reth_cosmos.Primitives.View.{TxKind, call}
use reth_cosmos.Primitives.Envelope.{CosmosEnvelope, ethereum, cosmos}

pub record TxEnv (Others : Type 0) : Type 0 where
  pub tx_type : ℕ
  pub caller : Bytes
  pub gas_limit : ℕ
  pub gas_price : ℕ
  pub kind : TxKind
  pub value : ℕ
  pub content : Bytes
  pub nonce : ℕ
  pub chain_id : Option ℕ
  pub gas_priority_fee : Option ℕ
  pub others : Others

-- The receipt of `build_receipt`, with logs `L`.
pub record Receipt (L : Type 0) : Type 0 where
  pub tx_type : CosmosTxType
  pub success : Bool
  pub cumulative_gas_used : ℕ
  pub logs : List L

-- `CosmosReceiptBuilder::build_receipt`, from the type, the result `R` of the execution with what
-- the code reads of it, and the gas.
unfoldable pub build_receipt :
    {R L : Type 0} → (R → Bool) → (R → List L) → CosmosTxType → R → ℕ → Receipt L
build_receipt is_success into_logs tx_type result cumulative_gas_used = record {
  tx_type = tx_type;
  success = is_success result;
  cumulative_gas_used = cumulative_gas_used;
  logs = into_logs result;
}

module _ {T Others : Type 0} (upstream : T → Bytes → TxEnv Others) (defaults : Others) where
  -- `Self { tx_type: 2, .. }`.
  abbrev pub cosmos_env : CosmosSigned → Bytes → TxEnv Others
  cosmos_env t caller = record {
    tx_type = 2;
    caller = caller;
    gas_limit = t.operation.gas_limit;
    gas_price = t.operation.max_fee_per_gas;
    kind = call t.operation.to;
    value = t.operation.value;
    content = t.operation.input;
    nonce = t.operation.nonce;
    chain_id = some t.operation.chain_id;
    gas_priority_fee = some t.operation.max_priority_fee_per_gas;
    others = defaults;
  }

  -- `FromRecoveredTx::from_recovered_tx`; `none` is the panic of `assert_eq!`.
  unfoldable pub from_recovered_tx : CosmosEnvelope T → Bytes → Option (TxEnv Others)
  from_recovered_tx (ethereum t) caller = some (upstream t caller)
  from_recovered_tx (cosmos t) caller = do
    assert (bytes_eq caller t.operation.sender)
    some (cosmos_env t caller)

  -- `FromTxWithEncoded::from_encoded_tx`.
  unfoldable pub from_encoded_tx :
      (T → Bytes → Bytes → TxEnv Others) → CosmosEnvelope T → Bytes → Bytes → Option (TxEnv Others)
  from_encoded_tx upstream_encoded (ethereum t) caller encoded =
      some (upstream_encoded t caller encoded)
  from_encoded_tx upstream_encoded (cosmos t) caller encoded = from_recovered_tx (cosmos t) caller

-- The closure of `tx_iterator_for_payload`, with `decode_2718_exact` and `try_recover`; `none` is
-- any error.
unfoldable pub convert :
    {T : Type 0}
    → (Bytes → Option (CosmosEnvelope T))
    → (CosmosEnvelope T → Result RecoveryError Bytes)
    → Bytes
    → Option (CosmosEnvelope T × Bytes)
convert decode_2718_exact try_recover raw = do
  tx ← decode_2718_exact raw
  signer ← expect (try_recover tx)
  some (tx, signer)

-- `tx_iterator_for_payload`: the encoded transactions of a payload with the closure.
unfoldable pub tx_iterator_for_payload :
    {T D : Type 0}
    → (D → List Bytes)
    → (Bytes → Option (CosmosEnvelope T))
    → (CosmosEnvelope T → Result RecoveryError Bytes)
    → D
    → List Bytes × (Bytes → Option (CosmosEnvelope T × Bytes))
unfolding convert
tx_iterator_for_payload transactions decode_2718_exact try_recover payload =
    (transactions payload, convert decode_2718_exact try_recover)

-- What `evm_env_for_payload` reads of a payload.
pub record PayloadView : Type 0 where
  pub timestamp : ℕ
  pub block_number : ℕ
  pub fee_recipient : Bytes
  pub prev_randao : Bytes
  pub gas_limit : ℕ
  pub saturated_base_fee : ℕ
  pub excess_blob_gas : Option ℕ
  -- `as_v4().map(|v4| v4.slot_number)`.
  pub slot_number : Option ℕ

-- The fork schedule: blob parameters `F`, and hard forks by their order.
pub record Schedule (F : Type 0) : Type 0 where
  pub chain_id : ℕ
  pub blob_params : ℕ → Option F
  pub max_blobs_per_tx : F → ℕ
  pub blob_fee : F → ℕ → ℕ
  pub spec : ℕ → ℕ → ℕ
  pub merge : ℕ
  pub is_osaka : ℕ → Bool
  -- `MAX_TX_GAS_LIMIT_OSAKA`.
  pub max_tx_gas_limit : ℕ

-- The values that the code sets in `CfgEnv` and `BlockEnv`.
pub record EvmEnv : Type 0 where
  pub chain_id : ℕ
  pub spec : ℕ
  -- `none` where the default is left.
  pub max_blobs_per_tx : Option ℕ
  pub tx_gas_limit_cap : Option ℕ
  pub number : ℕ
  pub beneficiary : Bytes
  pub timestamp : ℕ
  pub difficulty : ℕ
  pub prevrandao : Option Bytes
  pub gas_limit : ℕ
  pub basefee : ℕ
  -- The excess gas and the price.
  pub blob_excess_gas_and_price : Option (ℕ × ℕ)
  pub slot_num : ℕ

unfoldable pub blob_price : {F : Type 0} → (F → ℕ → ℕ) → Option ℕ → Option F → Option (ℕ × ℕ)
blob_price fee excess params = do g ← excess; p ← params; some (g, fee p g)

unfoldable pub or_default : Option ℕ → ℕ
or_default none = 0
or_default (some n) = n

-- `evm_env_for_payload`; the first argument reads 32 bytes as a number.
unfoldable pub evm_env_for_payload : {F : Type 0} → (Bytes → ℕ) → Schedule F → PayloadView → EvmEnv
evm_env_for_payload from_bytes chain payload =
    let blob_params = chain.blob_params payload.timestamp in
    let spec = chain.spec payload.timestamp payload.block_number in
    record {
      chain_id = chain.chain_id;
      spec = spec;
      max_blobs_per_tx = blob_params >>= λ p. some (chain.max_blobs_per_tx p);
      tx_gas_limit_cap =
          if chain.is_osaka payload.timestamp then some chain.max_tx_gas_limit else none;
      number = payload.block_number;
      beneficiary = payload.fee_recipient;
      timestamp = payload.timestamp;
      difficulty = if leb chain.merge spec then 0 else from_bytes payload.prev_randao;
      prevrandao = if leb chain.merge spec then some payload.prev_randao else none;
      gas_limit = payload.gas_limit;
      basefee = payload.saturated_base_fee;
      blob_excess_gas_and_price = blob_price chain.blob_fee payload.excess_blob_gas blob_params;
      slot_num = or_default payload.slot_number;
    }
