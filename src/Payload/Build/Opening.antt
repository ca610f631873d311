-- ===== src/Payload/Build/Opening.antt =====
-- src/payload/builder.rs: how `default_ethereum_payload` opens the block. `St` is a state provider, `C`
-- an execution cache, `Db` the database, `X` the block's builder, and `W` the withdrawals.
use reth_cosmos.Prelude.{ℕ, ◌%◌, ◌^◌, Bool, Option, none, some, Bytes, Result, ok, err, ◌>>=◌}
use reth_cosmos.Payload.Build.{Context}

-- `EthPayloadAttributes`.
pub record Attributes (W : Type 0) : Type 0 where
  pub timestamp : ℕ
  pub suggested_fee_recipient : Bytes
  pub prev_randao : Bytes
  pub target_gas_limit : Option ℕ
  pub parent_beacon_block_root : Option Bytes
  pub withdrawals : Option W
  pub slot_number : Option ℕ

-- What the code reads of the parent's header; `root` is its state root with no updates of the trie.
pub record Parent (R : Type 0) : Type 0 where
  pub hash : Bytes
  pub gas_limit : ℕ
  pub root : R

-- What the code reads of `EthereumBuilderConfig`, with its method `gas_limit_with_target`.
pub record BuilderConfig : Type 0 where
  pub gas_limit_with_target : ℕ → Option ℕ → ℕ
  pub extra_data : Bytes
  pub max_blobs_per_block : Option ℕ
  pub skip_state_root : Bool
  pub await_payload_on_missing : Bool

-- `BuildArguments`, with its `PayloadConfig`.
pub record BuildArguments (W R C Rd Payload : Type 0) : Type 0 where
  pub cached_reads : Rd
  pub execution_cache : Option C
  -- What the state-root job will give, if there is one: `some none` is a job that will fail.
  pub state_root_handle : Option (Option R)
  pub parent_header : Parent R
  pub attributes : Attributes W
  -- The answer of `cancel.is_cancelled()` when it is asked for the n-th time.
  pub is_cancelled : ℕ → Bool
  pub best_payload : Option Payload

pub record NextBlockEnvAttributes (W : Type 0) : Type 0 where
  pub timestamp : ℕ
  pub suggested_fee_recipient : Bytes
  pub prev_randao : Bytes
  pub gas_limit : ℕ
  pub parent_beacon_block_root : Option Bytes
  pub withdrawals : Option W
  pub extra_data : Bytes
  pub slot_number : Option ℕ

-- The fork schedule, by timestamps.
pub record Forks : Type 0 where
  pub is_amsterdam : ℕ → Bool
  pub is_osaka : ℕ → Bool
  pub is_prague : ℕ → Bool
  -- `max_blob_count` of the blob parameters.
  pub max_blob_count : ℕ → Option ℕ

-- What the code calls to open a block, with the error `D` of the EVM configuration.
pub record Openers (W R C Rd St Db X D E : Type 0) : Type 0 where
  pub state_by_block_hash : Bytes → Result E St
  -- `CachedStateProvider::new`.
  pub with_execution_cache : C → St → St
  -- `State::builder()` on the cached reads and the state, with a builder of the access list or
  -- without one.
  pub database : Rd → St → Bool → Db
  -- That of the EVM configuration with JIT support.
  pub builder_for_next_block : Db → Parent R → NextBlockEnvAttributes W → Result D X
  -- `PayloadBuilderError::other`.
  pub other : D → E
  pub block_gas_limit : X → ℕ
  pub tx_gas_limit_cap : X → ℕ
  pub base_fee : X → ℕ
  pub blob_gasprice : X → Option ℕ
  -- `set_state_hook` with the hook of the state-root job.
  pub set_state_hook : X → X
  pub withdrawals_length : W → ℕ
  pub max_rlp_block_size : ℕ

unfoldable pub map_some : {A B : Type 0} → (A → B) → Option A → Option B
map_some h none = none
map_some h (some a) = some (h a)

unfoldable pub or_other : {A D E : Type 0} → (D → E) → Result D A → Result E A
or_other other (ok a) = ok a
or_other other (err d) = err (other d)

unfoldable pub with_cache : {C St : Type 0} → (C → St → St) → Option C → St → St
with_cache add none state = state
with_cache add (some cache) state = add cache state

unfoldable pub with_hook : {R X : Type 0} → (X → X) → Option R → X → X
with_hook set none x = x
with_hook set (some job) x = set x

module _ {W R C Rd Payload : Type 0} (config : BuilderConfig)
    (args : BuildArguments W R C Rd Payload) where
  -- The attributes of the block's environment; the conversion of the withdrawals keeps them.
  unfoldable pub next_attributes : NextBlockEnvAttributes W
  next_attributes = record {
    timestamp = a.timestamp;
    suggested_fee_recipient = a.suggested_fee_recipient;
    prev_randao = a.prev_randao;
    gas_limit = config.gas_limit_with_target args.parent_header.gas_limit a.target_gas_limit;
    parent_beacon_block_root = a.parent_beacon_block_root;
    withdrawals = a.withdrawals;
    extra_data = config.extra_data;
    slot_number = a.slot_number;
  }
    where
      open args use {attributes as a}

  module _ {St Db X D E : Type 0} (f : Forks) (w : Openers W R C Rd St Db X D E) where
    -- The block's builder, from the parent's state behind the caches.
    unfoldable pub open_builder : Result E X
    unfolding next_attributes or_other with_cache
    open_builder = do
      state ← w.state_by_block_hash args.parent_header.hash
      or_other w.other (
          w.builder_for_next_block
            (w.database args.cached_reads
              (with_cache w.with_execution_cache args.execution_cache state)
              (f.is_amsterdam args.attributes.timestamp))
            args.parent_header next_attributes)

    -- What the code computes before the loop.
    unfoldable pub context_of : X → Context R
    unfolding map_some
    context_of x = record {
      is_amsterdam = f.is_amsterdam args.attributes.timestamp;
      is_osaka = f.is_osaka args.attributes.timestamp;
      is_prague = f.is_prague args.attributes.timestamp;
      block_gas_limit = w.block_gas_limit x;
      tx_gas_limit_cap = w.tx_gas_limit_cap x;
      base_fee = w.base_fee x;
      protocol_blobs = f.max_blob_count args.attributes.timestamp;
      max_blobs_per_block = config.max_blobs_per_block;
      withdrawals_length = map_some w.withdrawals_length args.attributes.withdrawals;
      max_rlp_block_size = w.max_rlp_block_size;
      skip_state_root = config.skip_state_root;
      parent_root = args.parent_header.root;
    }

    -- The iterator that `best_txs` gives at the block's fees; `gasprice as u64` of the blobs'.
    unfoldable pub best_of : {B : Type 0} → (ℕ → Option ℕ → B) → X → B
    unfolding map_some
    best_of best_txs x =
        best_txs (w.base_fee x) (map_some (λ gasprice. gasprice % 2 ^ 64) (w.blob_gasprice x))
