-- ===== src/Payload/Builder.antt =====
-- src/payload/builder.rs: the loop of `default_ethereum_payload` that fills a block. The pool, the
-- executor and the fork schedule are parameters: `Source` holds what the loop calls, and `Limits`
-- the values that are computed before it.
pub mod Rounds
pub mod Bounds
pub mod Gas
pub mod Size
pub mod Totals
pub mod Exact
pub mod Setup
pub mod Selection
pub mod Termination
use reth_cosmos.Prelude.{
  ℕ, zero, suc, ◌+◌, ◌-◌, ◌*◌, ◌%◌, ◌^◌, Bool, true, false, ◌&&◌, Option, none, some, List, [], ◌∷◌,
  Bytes, Result, ok, err, ltb, ◌==◌, if◌then◌else◌, min, max,
}

-- `InvalidPoolTransactionError`, as far as the loop raises it.
pub data Reason : Type 0 where
  exceeds_gas_limit oversized_data too_many_blobs : ℕ → ℕ → Reason
  missing_sidecar unexpected_4844_after_osaka unexpected_7594_before_osaka : Reason
  tx_type_not_supported : Reason

-- What `execute_transaction_with_result_closure` returns: the gas of the transaction, the state gas
-- and the regular gas; an invalid transaction, and whether its nonce is too low; a gas limit above
-- what the block has left; any other error.
pub data Execution (E : Type 0) : Type 0 where
  executed : ℕ → ℕ → ℕ → Execution E
  invalid_tx : Bool → Execution E
  gas_unavailable : ℕ → ℕ → Execution E
  failed : E → Execution E

-- Pool transactions `P`, blob sidecars `S` and their collection `Q`, the iterator `B` over the best
-- transactions, the block under construction `X`, and the errors `E` that end the build.
pub record Source (P S Q B X E : Type 0) : Type 0 where
  pub gas_limit : P → ℕ
  pub rlp_length : P → ℕ
  pub blob_count : P → Option ℕ
  pub tx_hash : P → Bytes
  -- `effective_tip_per_gas` at a base fee.
  pub effective_tip : P → ℕ → Option ℕ
  pub next : B → Option (P × B)
  pub mark_invalid : P → Reason → B → B
  pub skip_blobs : B → B
  pub get_blob : Bytes → Result E (Option S)
  pub is_eip7594 : S → Bool
  pub is_eip4844 : S → Bool
  pub push_sidecar : Q → S → Q
  -- The answer of `cancel.is_cancelled()` when it is asked for the n-th time.
  pub is_cancelled : ℕ → Bool
  pub execute : P → X → X × Execution E

pub record Limits : Type 0 where
  pub is_amsterdam : Bool
  pub is_osaka : Bool
  pub block_gas_limit : ℕ
  pub tx_gas_limit_cap : ℕ
  pub base_fee : ℕ
  pub max_blob_count : ℕ
  pub withdrawals_rlp_length : ℕ
  -- `MAX_RLP_BLOCK_SIZE`.
  pub max_rlp_block_size : ℕ

-- `u64`, `usize` and `U256` addition.
abbrev pub add64 : ℕ → ℕ → ℕ
add64 a b = (a + b) % 2 ^ 64

abbrev pub add256 : ℕ → ℕ → ℕ
add256 a b = (a + b) % 2 ^ 256

-- The limit on blobs, from the builder's setting and the protocol's.
unfoldable pub max_blobs : Option ℕ → ℕ → ℕ
max_blobs none protocol = protocol
max_blobs (some user) protocol = max (min user protocol) 1

pub record Fill (Q B X : Type 0) : Type 0 where
  pub best : B
  pub block : X
  pub cumulative_tx_gas_used : ℕ
  pub block_regular_gas_used : ℕ
  pub block_state_gas_used : ℕ
  pub block_blob_count : ℕ
  pub block_transactions_rlp_length : ℕ
  pub total_fees : ℕ
  pub blob_sidecars : Q
  -- How often the cancellation has been asked for.
  pub polls : ℕ

-- How one round ends. `panicked` is the `expect` of the fee.
pub data Round (Q B X E : Type 0) : Type 0 where
  continue : Fill Q B X → Round Q B X E
  cancelled panicked : Round Q B X E
  stopped : E → Round Q B X E

-- How the loop ends.
pub data Filled (Q B X E : Type 0) : Type 0 where
  filled : Fill Q B X → Filled Q B X E
  was_cancelled has_panicked out_of_fuel : Filled Q B X E
  was_stopped : E → Filled Q B X E

module _ {P S Q B X E : Type 0} (o : Source P S Q B X E) (g : Limits) where
  -- The pair of a limit and the gas that is available, if the transaction exceeds it.
  unfoldable pub exceeds : Fill Q B X → P → Option (ℕ × ℕ)
  exceeds s p =
      if g.is_amsterdam
      then (let regular_available = g.block_gas_limit - s.block_regular_gas_used in
          let state_available = g.block_gas_limit - s.block_state_gas_used in
          let regular_limit = min (o.gas_limit p) g.tx_gas_limit_cap in
          if ltb regular_available regular_limit
          then some (regular_limit, regular_available)
          else if ltb state_available (o.gas_limit p)
          then some (o.gas_limit p, state_available)
          else none)
      else (let available = g.block_gas_limit - s.cumulative_tx_gas_used in
          if ltb available (o.gas_limit p) then some (o.gas_limit p, available) else none)

  -- `best_txs.mark_invalid(..); continue`.
  unfoldable pub mark : Fill Q B X → P → Reason → Round Q B X E
  mark s p r = continue (record s { best = o.mark_invalid p r s.best })

  -- The accounts after a transaction was executed, from the tip, its blobs with their sidecar, and
  -- its gas, state gas and regular gas.
  unfoldable pub account : Fill Q B X → P → ℕ → Option (ℕ × S) → ℕ → ℕ → ℕ → Fill Q B X
  account s p tip none gas state_gas regular = record s {
    cumulative_tx_gas_used = add64 s.cumulative_tx_gas_used gas;
    block_regular_gas_used = add64 s.block_regular_gas_used regular;
    block_state_gas_used = add64 s.block_state_gas_used state_gas;
    block_transactions_rlp_length = add64 s.block_transactions_rlp_length (o.rlp_length p);
    total_fees = add256 s.total_fees (tip * gas % 2 ^ 256);
  }
  account s p tip (some (n, sidecar)) gas state_gas regular = record s {
    best = if add64 s.block_blob_count n == g.max_blob_count then o.skip_blobs s.best else s.best;
    cumulative_tx_gas_used = add64 s.cumulative_tx_gas_used gas;
    block_regular_gas_used = add64 s.block_regular_gas_used regular;
    block_state_gas_used = add64 s.block_state_gas_used state_gas;
    block_blob_count = add64 s.block_blob_count n;
    block_transactions_rlp_length = add64 s.block_transactions_rlp_length (o.rlp_length p);
    total_fees = add256 s.total_fees (tip * gas % 2 ^ 256);
    blob_sidecars = o.push_sidecar s.blob_sidecars sidecar;
  }

  -- The result of the execution; the fee is read only after a success.
  unfoldable pub settle : Fill Q B X → P → Option (ℕ × S) → Option ℕ → Execution E → Round Q B X E
  settle s p blobs (some tip) (executed gas state_gas regular) =
      continue (account s p tip blobs gas state_gas regular)
  settle s p blobs none (executed gas state_gas regular) = panicked
  settle s p blobs tip (invalid_tx true) = continue s
  settle s p blobs tip (invalid_tx false) = mark s p tx_type_not_supported
  settle s p blobs tip (gas_unavailable limit available) =
      mark s p (exceeds_gas_limit limit available)
  settle s p blobs tip (failed e) = stopped e

  unfoldable pub execute_stage : Fill Q B X → P → Option (ℕ × S) → Round Q B X E
  execute_stage s p blobs =
      let (block', result) = o.execute p s.block in
      settle (record s { block = block' }) p blobs (o.effective_tip p g.base_fee) result

  -- The block labelled `'sidecar`.
  unfoldable pub choose_sidecar : Option S → Result Reason S
  choose_sidecar none = err missing_sidecar
  choose_sidecar (some sidecar) =
      if g.is_osaka
      then (if o.is_eip7594 sidecar then ok sidecar else err unexpected_4844_after_osaka)
      else if o.is_eip4844 sidecar
      then ok sidecar
      else err unexpected_7594_before_osaka

  unfoldable pub with_sidecar : Fill Q B X → P → ℕ → Result Reason S → Round Q B X E
  with_sidecar s p n (ok sidecar) = execute_stage s p (some (n, sidecar))
  with_sidecar s p n (err r) = mark s p r

  unfoldable pub fetch_sidecar : Fill Q B X → P → ℕ → Result E (Option S) → Round Q B X E
  fetch_sidecar s p n (err e) = stopped e
  fetch_sidecar s p n (ok found) = with_sidecar s p n (choose_sidecar found)

  unfoldable pub blob_stage : Fill Q B X → P → Option ℕ → Round Q B X E
  blob_stage s p none = execute_stage s p none
  blob_stage s p (some n) =
      if ltb g.max_blob_count (add64 s.block_blob_count n)
      then mark s p (too_many_blobs (add64 s.block_blob_count n) g.max_blob_count)
      else fetch_sidecar s p n (o.get_blob (o.tx_hash p))

  -- With 1024 bytes for the header.
  unfoldable pub estimate : Fill Q B X → P → ℕ
  estimate s p =
      add64
        (add64 (add64 s.block_transactions_rlp_length (o.rlp_length p)) g.withdrawals_rlp_length)
        1024

  unfoldable pub size_stage : Fill Q B X → P → Round Q B X E
  size_stage s p =
      if g.is_osaka && ltb g.max_rlp_block_size (estimate s p)
      then mark s p (oversized_data (estimate s p) g.max_rlp_block_size)
      else blob_stage s p (o.blob_count p)

  unfoldable pub gas_stage : Fill Q B X → P → Option (ℕ × ℕ) → Round Q B X E
  gas_stage s p (some (limit, available)) = mark s p (exceeds_gas_limit limit available)
  gas_stage s p none =
      if o.is_cancelled s.polls then cancelled else size_stage (record s { polls = s.polls + 1 }) p

  -- The body of `while let Some(pool_tx) = best_txs.next()`.
  unfoldable pub round : Fill Q B X → P → B → Round Q B X E
  round s p rest = gas_stage (record s { best = rest }) p (exceeds s p)

  -- The end of a round: it goes on with the rest of the loop, or leaves it.
  unfoldable pub after_round : (Fill Q B X → Filled Q B X E) → Round Q B X E → Filled Q B X E
  after_round loop (continue s) = loop s
  after_round loop cancelled = was_cancelled
  after_round loop panicked = has_panicked
  after_round loop (stopped e) = was_stopped e

  -- `while let Some(pool_tx) = ..` with what `best_txs.next()` has returned.
  unfoldable pub take_next :
      (Fill Q B X → Filled Q B X E) → Fill Q B X → Option (P × B) → Filled Q B X E
  take_next loop s none = filled s
  take_next loop s (some (p, rest)) = after_round loop (round s p rest)

  -- The loop, on fuel.
  unfoldable pub fill : ℕ → Fill Q B X → Filled Q B X E
  fill zero s = out_of_fuel
  fill (suc fuel) s = take_next (fill fuel) s (o.next s.best)
