-- ===== src/Tests/Payload.antt =====
-- The properties of the builder's loop at a pool of four transactions: one that fits, one with two
-- blobs, one whose gas limit is more than the block has left, and one with too many blobs.
use reth_cosmos.Prelude.{
  map, ℕ, suc, ◌<◌, ◌≤◌, ◌≡◌, refl, true, false, Option, none, some, List, [], ◌∷◌, ok, arith,
  length, inl,
}
use reth_cosmos.Payload.Builder.{
  executed, Source, Limits, Fill, filled, max_blobs, exceeds, mark, account, settle, execute_stage,
  choose_sidecar, with_sidecar, fetch_sidecar, blob_stage, estimate, size_stage, gas_stage, round,
  after_round, take_next, fill,
}
use reth_cosmos.Payload.Builder.Exact.{fill-exact}
use reth_cosmos.Payload.Builder.Gas.{IsMetered, GasFits, fill-gas}
use reth_cosmos.Payload.Builder.Size.{SizeFits, fill-size}
use reth_cosmos.Payload.Builder.Totals.{Entry, IsAccount, total, fee_of, pushed}
use reth_cosmos.Payload.Builder.Selection.{Choice, Selects, taken_onto, fill-Selects}
use reth_cosmos.Payload.Builder.Termination.{IsFinite}

-- A pool transaction: the gas that it uses, which is its limit, and its number of blobs.
pub record PoolTx : Type 0 where
  gas : ℕ
  blobs : Option ℕ

-- The best transactions that are left.
abbrev pop : List PoolTx → Option (PoolTx × List PoolTx)
pop [] = none
pop (p ∷ ps) = some (p, ps)

abbrev cap : ℕ
cap = 16777216

-- Every blob transaction has a sidecar, which is numbered 7 and of the new kind; the block is the
-- number of the transactions executed.
abbrev pub pool : Source PoolTx ℕ (List ℕ) (List PoolTx) ℕ ℕ
pool = record {
  gas_limit = λ p. p.gas;
  rlp_length = λ p. 110;
  blob_count = λ p. p.blobs;
  tx_hash = λ p. [];
  effective_tip = λ p base_fee. some 2;
  next = pop;
  mark_invalid = λ p r b. b;
  skip_blobs = λ b. b;
  get_blob = λ h. ok (some 7);
  is_eip7594 = λ s. true;
  is_eip4844 = λ s. false;
  push_sidecar = λ q s. s ∷ q;
  is_cancelled = λ n. false;
  execute = λ p x. (suc x, executed p.gas 0 0);
}

abbrev limits : Limits
limits = record {
  is_amsterdam = false;
  is_osaka = true;
  block_gas_limit = 100000;
  tx_gas_limit_cap = cap;
  base_fee = 7;
  max_blob_count = 6;
  withdrawals_rlp_length = 1;
  max_rlp_block_size = 8388608;
}

abbrev pub four : List PoolTx
four =
    record { gas = 21000; blobs = none }
    ∷ record { gas = 30000; blobs = some 2 }
    ∷ record { gas = 60000; blobs = none }
    ∷ record { gas = 21000; blobs = some 5 }
    ∷ []

abbrev initial : Fill (List ℕ) (List PoolTx) ℕ
initial = record {
  best = four;
  block = 0;
  cumulative_tx_gas_used = 0;
  block_regular_gas_used = 0;
  block_state_gas_used = 0;
  block_blob_count = 0;
  block_transactions_rlp_length = 0;
  total_fees = 0;
  blob_sidecars = [];
  polls = 0;
}

-- The first two are in the block. The cancellation is asked for three times, since the third
-- transaction is passed over before it.
abbrev final : Fill (List ℕ) (List PoolTx) ℕ
final = record {
  best = [];
  block = 2;
  cumulative_tx_gas_used = 51000;
  block_regular_gas_used = 0;
  block_state_gas_used = 0;
  block_blob_count = 2;
  block_transactions_rlp_length = 220;
  total_fees = 102000;
  blob_sidecars = 7 ∷ [];
  polls = 3;
}

fill_test : fill pool limits 5 initial ≡ filled final
unfolding exceeds mark account settle execute_stage choose_sidecar with_sidecar fetch_sidecar
    blob_stage estimate size_stage gas_stage round after_round take_next fill
fill_test = refl

-- A builder's setting of blobs is raised to 1, also where the protocol allows none.
max_blobs_test : max_blobs (some 0) 0 ≡ 1
unfolding max_blobs
max_blobs_test = refl

pub pop_shorter :
    (b : List PoolTx) (p : PoolTx) (rest : List PoolTx)
    → pop b ≡ some (p, rest)
    → length rest < length b
pop_shorter [] p rest h = absurd (ground arith)
pop_shorter (q ∷ qs) p rest h = ground arith

abbrev pub pool_IsFinite : IsFinite pool
pool_IsFinite = record {
  remaining = length;
  next_takes = pop_shorter;
  mark_keeps = λ p r b. omega arith;
  skip_keeps = λ b. omega arith;
}

pool-IsMetered : IsMetered pool limits
pool-IsMetered = record { gas_le = λ p x x' gas state_gas regular h. ground arith }

initial-IsAccount : IsAccount pool limits [] [] initial
unfolding total pushed
initial-IsAccount = record {
  entries = tt;
  cumulative = refl;
  regular = refl;
  state_gas = refl;
  blobs = refl;
  rlp = refl;
  fees = refl;
  sidecars = refl;
}

fill-gas_example : GasFits limits limits.is_amsterdam final
fill-gas_example =
    fill-gas pool limits pool-IsMetered (omega arith) 5 initial final (omega arith) fill_test

fill-size_example : SizeFits limits final
fill-size_example =
    fill-size pool limits refl (omega arith) (omega arith) (λ p. omega arith) 5 initial final
      (inl refl) fill_test

fill-Selects_example :
    (cs : List (Choice PoolTx)) × (xs : List (Entry PoolTx ℕ)) × Selects pool limits initial final
      cs
    × IsAccount pool limits [] xs final
    × (map (λ (x : Entry PoolTx ℕ). x.tx) xs ≡ taken_onto cs [])
fill-Selects_example = fill-Selects pool limits [] 5 initial final initial-IsAccount fill_test

fill-exact_example :
    (xs : List (Entry PoolTx ℕ)) × IsAccount pool limits [] xs final
    × (final.total_fees ≡ total fee_of xs)
    × (final.cumulative_tx_gas_used ≡ total (λ (x : Entry PoolTx ℕ). x.gas) xs)
    × (total (λ (x : Entry PoolTx ℕ). x.gas) xs ≤ limits.block_gas_limit)
fill-exact_example =
    fill-exact pool limits [] pool-IsMetered (omega arith) refl (λ p tip h. ground arith) 5 initial
      final initial-IsAccount fill_test
