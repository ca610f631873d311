-- ===== src/Payload/Build.antt =====
-- src/payload/builder.rs: what `default_ethereum_payload` does from the first changes of an open
-- block to its outcome, which hands back the reads `Rd` that the build has cached. The executor and
-- the sealing are parameters. Opening.antt has the code before this, and Setup.antt the builder's
-- methods.
pub mod Concluded
pub mod Outcome
pub mod Opening
pub mod Requested
pub mod Sealing
pub mod Setup
pub mod Empty
pub mod Transactions
pub mod Sidecars
pub mod Served
pub mod Data
use reth_cosmos.Prelude.{
  ℕ, Bool, true, false, not, ◌&&◌, Option, none, some, Bytes, ltb, if◌then◌else◌, Result, ok, err,
}
use reth_cosmos.Payload.Builder.{
  Source, Limits, max_blobs, Fill, Filled, filled, was_cancelled, has_panicked, out_of_fuel,
  was_stopped, fill,
}
use reth_cosmos.Payload.Built.{CosmosBuiltPayload, new_payload, with_sidecars}

-- What the code computes before the loop: the fork schedule at the block's timestamp, the gas that
-- the block's environment gives, and the builder's settings.
pub record Context (R : Type 0) : Type 0 where
  pub is_amsterdam : Bool
  pub is_osaka : Bool
  pub is_prague : Bool
  pub block_gas_limit : ℕ
  pub tx_gas_limit_cap : ℕ
  pub base_fee : ℕ
  -- `max_blob_count` of the blob parameters, if the fork has any.
  pub protocol_blobs : Option ℕ
  pub max_blobs_per_block : Option ℕ
  -- The length of the withdrawals, if there are any.
  pub withdrawals_length : Option ℕ
  pub max_rlp_block_size : ℕ
  pub skip_state_root : Bool
  -- The parent's state root, with no updates of the trie.
  pub parent_root : R

unfoldable pub or_zero : Option ℕ → ℕ
or_zero none = 0
or_zero (some n) = n

unfoldable pub limits_of : {R : Type 0} → Context R → Limits
unfolding or_zero max_blobs
limits_of g = record {
  is_amsterdam = g.is_amsterdam;
  is_osaka = g.is_osaka;
  block_gas_limit = g.block_gas_limit;
  tx_gas_limit_cap = g.tx_gas_limit_cap;
  base_fee = g.base_fee;
  max_blob_count = max_blobs g.max_blobs_per_block (or_zero g.protocol_blobs);
  withdrawals_rlp_length = or_zero g.withdrawals_length;
  max_rlp_block_size = g.max_rlp_block_size;
}

-- The variables of the loop at its start.
unfoldable pub initial : {Q B X : Type 0} → Q → B → X → Fill Q B X
initial no_blobs best block = record {
  best = best;
  block = block;
  cumulative_tx_gas_used = 0;
  block_regular_gas_used = 0;
  block_state_gas_used = 0;
  block_blob_count = 0;
  block_transactions_rlp_length = 0;
  total_fees = 0;
  blob_sidecars = no_blobs;
  polls = 0;
}

-- `BlockBuilderOutcome`, with the requests `Rq` of the execution, and the cached reads as `finish`
-- leaves them.
pub record Sealed (Block Rq Rd : Type 0) : Type 0 where
  pub block : Block
  pub requests : Rq
  -- The access list, encoded.
  pub block_access_list : Option Bytes
  pub cached_reads : Rd

-- What the code calls around the loop, of the block's builder `X`: `finish` takes a state root, or
-- none where the builder is to compute it.
pub record Services (X Block Rq R Rd E : Type 0) : Type 0 where
  pub apply_pre_execution : X → Result E X
  -- The cached reads when the builder is dropped.
  pub cached_reads : X → Rd
  -- `set_state_hook(None)`.
  pub clear_state_hook : X → X
  pub finish : X → Option R → Result E (Sealed Block Rq Rd)
  pub rlp_length : Block → ℕ
  pub block_too_large : ℕ → ℕ → E

-- `BuildOutcome`.
pub data BuildOutcome (Payload Rd : Type 0) : Type 0 where
  better : Payload → Rd → BuildOutcome Payload Rd
  aborted : ℕ → Rd → BuildOutcome Payload Rd
  cancelled : BuildOutcome Payload Rd

-- How the function ends: `unfinished` is a loop that has run out of fuel.
pub data Build (Payload Rd E : Type 0) : Type 0 where
  returned : Result E (BuildOutcome Payload Rd) → Build Payload Rd E
  panics unfinished : Build Payload Rd E

unfoldable pub then_some : {A : Type 0} → Bool → A → Option A
then_some true a = some a
then_some false a = none

module _ {X Block Rq R Rd E : Type 0} (v : Services X Block Rq R Rd E) (g : Context R) where
  -- The block is sealed with the parent's state root where the root is skipped, with that of a
  -- state-root job that has succeeded, or with none. `some none` is a job that has failed.
  unfoldable pub seal_by : Bool → Option (Option R) → X → Result E (Sealed Block Rq Rd)
  seal_by true job block = v.finish block (some g.parent_root)
  seal_by false none block = v.finish block none
  seal_by false (some outcome) block = v.finish (v.clear_state_hook block) outcome

module _ {Q X Block Rq R Rd E : Type 0} (v : Services X Block Rq R Rd E) (g : Context R)
    (no_blobs : Q) where
  -- The payload of a sealed block, unless the block is too large.
  unfoldable pub bundle :
      Sealed Block Rq Rd → ℕ → Q → Result E (BuildOutcome (CosmosBuiltPayload Block Q Rq) Rd)
  unfolding then_some new_payload with_sidecars
  bundle sealed total_fees blob_sidecars =
      if g.is_osaka && ltb g.max_rlp_block_size (v.rlp_length sealed.block)
      then err (v.block_too_large (v.rlp_length sealed.block) g.max_rlp_block_size)
      else ok (
          better
            (with_sidecars
              (new_payload no_blobs sealed.block total_fees (then_some g.is_prague sealed.requests)
                sealed.block_access_list)
              blob_sidecars)
            sealed.cached_reads)

  unfoldable pub bundle_result :
      Result E (Sealed Block Rq Rd)
      → ℕ
      → Q
      → Result E (BuildOutcome (CosmosBuiltPayload Block Q Rq) Rd)
  bundle_result (ok sealed) total_fees blob_sidecars = bundle sealed total_fees blob_sidecars
  bundle_result (err e) total_fees blob_sidecars = err e

  -- The code behind the loop, with `is_better_payload` against the best payload so far, and what the
  -- state-root job gives, if there is one.
  unfoldable pub conclude :
      {B : Type 0}
      → (ℕ → Bool)
      → Option (Option R)
      → Fill Q B X
      → Result E (BuildOutcome (CosmosBuiltPayload Block Q Rq) Rd)
  unfolding bundle_result seal_by
  conclude is_better job s =
      if not (is_better s.total_fees)
      then ok (aborted s.total_fees (v.cached_reads s.block))
      else bundle_result (seal_by v g g.skip_state_root job s.block) s.total_fees s.blob_sidecars

  unfoldable pub after_loop :
      {B : Type 0}
      → (ℕ → Bool)
      → Option (Option R)
      → Filled Q B X E
      → Build (CosmosBuiltPayload Block Q Rq) Rd E
  after_loop is_better job (filled s) = returned (conclude is_better job s)
  after_loop is_better job was_cancelled = returned (ok cancelled)
  after_loop is_better job has_panicked = panics
  after_loop is_better job out_of_fuel = unfinished
  after_loop is_better job (was_stopped e) = returned (err e)

  module _ {P S B : Type 0} (o : Source P S Q B X E) (is_better : ℕ → Bool)
      (job : Option (Option R)) where
    unfoldable pub run_loop : ℕ → B → Result E X → Build (CosmosBuiltPayload Block Q Rq) Rd E
    unfolding after_loop limits_of initial
    run_loop fuel best (err e) = returned (err e)
    run_loop fuel best (ok block) =
        after_loop is_better job (fill o (limits_of g) fuel (initial no_blobs best block))

    -- `default_ethereum_payload` from an open block and the iterator over the best transactions.
    unfoldable pub from_open : ℕ → B → X → Build (CosmosBuiltPayload Block Q Rq) Rd E
    unfolding run_loop
    from_open fuel best block = run_loop fuel best (v.apply_pre_execution block)
