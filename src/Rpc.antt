-- ===== src/Rpc.antt =====
-- src/rpc.rs: receipts with the places of their logs, and requests to build a transaction.
pub mod Receipts
pub mod Requests
use reth_cosmos.Prelude.{
  ℕ, ◌+◌, ◌%◌, ◌^◌, Bool, true, false, Option, none, some, List, [], ◌∷◌, Bytes, Result, ok, err,
  ◌>>=◌, ◌==◌, if◌then◌else◌,
}
use reth_cosmos.Auth.{tx_type_const}
use reth_cosmos.Primitives.TxType.{CosmosTxType}
use reth_cosmos.Primitives.Envelope.{CosmosEnvelope, ethereum}
use reth_cosmos.Evm.{Receipt}

-- What `receipt_converter` reads of `TransactionMeta`.
pub record Meta : Type 0 where
  pub tx_hash : Bytes
  pub index : ℕ
  pub block_hash : Bytes
  pub block_number : ℕ
  pub timestamp : ℕ

-- `alloy_rpc_types_eth::Log`, of an inner log `L`.
pub record Log (L : Type 0) : Type 0 where
  pub inner : L
  pub block_hash : Option Bytes
  pub block_number : Option ℕ
  pub block_timestamp : Option ℕ
  pub transaction_hash : Option Bytes
  pub transaction_index : Option ℕ
  pub log_index : Option ℕ
  pub removed : Bool

-- `ReceiptWithBloom`, with a bloom filter `F`.
pub record ReceiptWithBloom (L F : Type 0) : Type 0 where
  pub logs_bloom : F
  pub receipt : Receipt (Log L)

module _ {L : Type 0} (meta : Meta) where
  abbrev pub placed : L → ℕ → Log L
  placed log index = record {
    inner = log;
    block_hash = some meta.block_hash;
    block_number = some meta.block_number;
    block_timestamp = some meta.timestamp;
    transaction_hash = some meta.tx_hash;
    transaction_index = some meta.index;
    log_index = some index;
    removed = false;
  }

  -- `receipt.map_logs` with the closure, which counts `next_log` up.
  unfoldable pub map_logs : ℕ → List L → List (Log L)
  map_logs next_log [] = []
  map_logs next_log (log ∷ logs) = placed log next_log ∷ map_logs ((next_log + 1) % 2 ^ 64) logs

-- `receipt_converter`, with `receipt.bloom()`.
unfoldable pub receipt_converter :
    {L F : Type 0} → (Receipt L → F) → Receipt L → ℕ → Meta → ReceiptWithBloom L F
unfolding map_logs
receipt_converter bloom receipt first_log meta = record {
  logs_bloom = bloom receipt;
  receipt = record {
    tx_type = receipt.tx_type;
    success = receipt.success;
    cumulative_gas_used = receipt.cumulative_gas_used;
    logs = map_logs meta first_log receipt.logs;
  };
}

-- `Option<u8>` against a byte.
unfoldable pub is_some_type : ℕ → Option ℕ → Bool
is_some_type ty none = false
is_some_type ty (some n) = n == ty

-- `SignTxRequestError` and `ValueError`: the refusal of the code, or an error from upstream.
pub data RequestError (E : Type 0) : Type 0 where
  invalid_request : RequestError E
  upstream_error : E → RequestError E

-- A request `R` with its `transaction_type`, and a transaction `T` that upstream builds of it.
module _ {R T E : Type 0} (transaction_type : R → Option ℕ) (build : R → Result E T) where
  unfoldable pub build_ethereum : R → Result (RequestError E) (CosmosEnvelope T)
  build_ethereum r = elim (build r) [ ok t ↦ ok (ethereum t) | err e ↦ err (upstream_error e) ]

  -- `SignableTxRequest::try_build_and_sign`, where `build` signs, and `TryIntoSimTx::try_into_sim_tx`,
  -- where it does not: both have the same guard.
  unfoldable pub try_build_and_sign : R → Result (RequestError E) (CosmosEnvelope T)
  unfolding build_ethereum is_some_type
  try_build_and_sign r =
      if is_some_type tx_type_const (transaction_type r)
      then err invalid_request
      else build_ethereum r

  unfoldable pub try_into_sim_tx : R → Result (RequestError E) (CosmosEnvelope T)
  unfolding build_ethereum is_some_type
  try_into_sim_tx r =
      if is_some_type tx_type_const (transaction_type r)
      then err invalid_request
      else build_ethereum r
