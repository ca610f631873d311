-- ===== src/Tests/Build.antt =====
-- The properties of a whole build at the pool of four transactions.
use reth_cosmos.Prelude.{
  Bool, Result, Option, err, ◌⊎◌, ℕ, ◌≡◌, ◌≢◌, refl, true, false, none, some, List, [], ◌∷◌, Bytes,
  ok, arith, ltb,
}
use reth_cosmos.Payload.Builder.{
  exceeds, mark, account, settle, execute_stage, choose_sidecar, with_sidecar, fetch_sidecar,
  blob_stage, estimate, size_stage, gas_stage, round, after_round, take_next, fill, max_blobs,
}
use reth_cosmos.Payload.Built.{CosmosBuiltPayload, new_payload, with_sidecars}
use reth_cosmos.Payload.Build.{
  BuildOutcome, aborted, cancelled, Context, limits_of, initial, Services, better, returned,
  unfinished, or_zero, seal_by, then_some, bundle, bundle_result, conclude, after_loop, run_loop,
  from_open,
}
use reth_cosmos.Payload.Build.Empty.{IsEmpty, build_empty_payload-IsEmpty}
use reth_cosmos.Payload.Build.Opening.{
  BuilderConfig, BuildArguments, Parent, Attributes, Forks, Openers, open_builder, next_attributes,
  or_other, with_cache, with_hook, context_of, best_of, map_some,
}
use reth_cosmos.Payload.Build.Setup.{
  build_empty_payload, empty_arguments, try_build, build_on, default_ethereum_payload, IsBuiltOn,
  try_build-IsBuilt, try_build_total,
}
use reth_cosmos.Tests.Payload.{PoolTx, pool, pool_IsFinite, four}

abbrev context : Context ℕ
context = record {
  is_amsterdam = false;
  is_osaka = true;
  is_prague = true;
  block_gas_limit = 100000;
  tx_gas_limit_cap = 16777216;
  base_fee = 7;
  protocol_blobs = some 6;
  max_blobs_per_block = none;
  withdrawals_length = some 1;
  max_rlp_block_size = 8388608;
  skip_state_root = false;
  parent_root = 0;
}

-- The block that is sealed is the number of its transactions, which is also the cached reads.
abbrev pub services : Services ℕ ℕ Bytes ℕ ℕ ℕ
services = record {
  apply_pre_execution = λ x. ok x;
  cached_reads = λ x. x;
  clear_state_hook = λ x. x;
  finish = λ x root.
      ok (record { block = x; requests = []; block_access_list = some (9 ∷ []); cached_reads = x });
  rlp_length = λ block. 500;
  block_too_large = λ size limit. 1;
}

abbrev payload : CosmosBuiltPayload ℕ (List ℕ) Bytes
payload = record {
  block = 2;
  fees = 102000;
  sidecars = 7 ∷ [];
  requests = some [];
  block_access_list = some (9 ∷ []);
}

-- Any fees are an improvement.
abbrev pub is_better : ℕ → Bool
is_better fees = ltb 0 fees

built :
    from_open services context [] pool is_better none 5 four 0 ≡ returned (ok (better payload 2))
unfolding from_open run_loop after_loop conclude bundle_result bundle seal_by then_some new_payload
    with_sidecars limits_of or_zero initial max_blobs exceeds mark account settle execute_stage
    choose_sidecar with_sidecar fetch_sidecar blob_stage estimate size_stage gas_stage round
    after_round take_next fill
built = refl

-- The same build from the node's side: a block on the parent with hash 1, which keeps its gas limit.
abbrev pub config : BuilderConfig
config = record {
  gas_limit_with_target = λ limit target. limit;
  extra_data = [];
  max_blobs_per_block = none;
  skip_state_root = false;
  await_payload_on_missing = false;
}

abbrev pub parent : Parent ℕ
parent = record { hash = 1 ∷ []; gas_limit = 100000; root = 0 }

abbrev pub attributes : Attributes ℕ
attributes = record {
  timestamp = 12;
  suggested_fee_recipient = 3 ∷ [];
  prev_randao = 4 ∷ [];
  target_gas_limit = none;
  parent_beacon_block_root = some (5 ∷ []);
  withdrawals = some 1;
  slot_number = none;
}

abbrev arguments : BuildArguments ℕ ℕ ℕ ℕ (CosmosBuiltPayload ℕ (List ℕ) Bytes)
arguments = record {
  cached_reads = 0;
  execution_cache = some 0;
  state_root_handle = none;
  parent_header = parent;
  attributes = attributes;
  is_cancelled = pool.is_cancelled;
  best_payload = none;
}

abbrev pub forks : Forks
forks = record {
  is_amsterdam = λ t. false;
  is_osaka = λ t. true;
  is_prague = λ t. true;
  max_blob_count = λ t. some 6;
}

abbrev pub openers : Openers ℕ ℕ ℕ ℕ ℕ ℕ ℕ ℕ ℕ
openers = record {
  state_by_block_hash = λ h. ok 0;
  with_execution_cache = λ cache s. s;
  database = λ reads s bal. s;
  builder_for_next_block = λ db p a. ok db;
  other = λ d. d;
  block_gas_limit = λ x. 100000;
  tx_gas_limit_cap = λ x. 16777216;
  base_fee = λ x. 7;
  blob_gasprice = λ x. some 1;
  set_state_hook = λ x. x;
  withdrawals_length = λ n. n;
  max_rlp_block_size = 8388608;
}

abbrev is_better_payload : Option (CosmosBuiltPayload ℕ (List ℕ) Bytes) → ℕ → Bool
is_better_payload best fees = is_better fees

abbrev pub best_txs : ℕ → Option ℕ → List PoolTx
best_txs base_fee blob_fee = four

tried :
    try_build config forks openers services [] is_better_payload pool best_txs 5 arguments
    ≡ returned (ok (better payload 2))
unfolding try_build default_ethereum_payload build_on open_builder next_attributes or_other
    with_cache with_hook context_of best_of map_some
tried = built

try_build-IsBuilt_example :
    IsBuiltOn config forks openers services [] is_better_payload pool best_txs 5 arguments payload 2
try_build-IsBuilt_example =
    try_build-IsBuilt config forks openers services [] is_better_payload pool best_txs 5 arguments
      tried

try_build_total_example :
    try_build config forks openers services [] is_better_payload pool best_txs 5 arguments
    ≢ unfinished
unfolding best_of
try_build_total_example =
    try_build_total config forks openers services [] is_better_payload pool best_txs 5 arguments
      pool_IsFinite (λ x. omega arith)

-- `into_payload` of an outcome.
unfoldable into_payload :
    BuildOutcome (CosmosBuiltPayload ℕ (List ℕ) Bytes) ℕ
    → Option (CosmosBuiltPayload ℕ (List ℕ) Bytes)
into_payload (better p reads) = some p
into_payload (aborted fees reads) = none
into_payload cancelled = none

only_better :
    (outcome : BuildOutcome (CosmosBuiltPayload ℕ (List ℕ) Bytes) ℕ)
    (p : CosmosBuiltPayload ℕ (List ℕ) Bytes)
    → into_payload outcome ≡ some p
    → (reads : ℕ) × (outcome ≡ better p reads)
unfolding into_payload
only_better (better q reads) p h = (reads, cc)
only_better (aborted fees reads) p h = cc
only_better cancelled p h = cc

abbrev nothing : Option (Result ℕ (CosmosBuiltPayload ℕ (List ℕ) Bytes))
nothing =
    build_empty_payload config forks openers services [] is_better_payload pool four into_payload 3
      0 (λ n. false) parent attributes

build_empty_payload-IsEmpty_example :
    ((e : ℕ) × (nothing ≡ some (err e)))
    ⊎ ((p : CosmosBuiltPayload ℕ (List ℕ) Bytes) × (nothing ≡ some (ok p))
        × ((x : ℕ) × (open_builder config
                (empty_arguments {C = ℕ} {Payload = CosmosBuiltPayload ℕ (List ℕ) Bytes} 0
                  (λ n. false)
                  parent
                  attributes)
                forks
                openers
              ≡ ok x)
            × IsEmpty services
                (context_of config
                  (empty_arguments {C = ℕ} {Payload = CosmosBuiltPayload ℕ (List ℕ) Bytes} 0
                    (λ n. false)
                    parent
                    attributes)
                  forks
                  openers
                  x)
                []
                x
                p))
build_empty_payload-IsEmpty_example =
    build_empty_payload-IsEmpty config forks openers services [] is_better_payload pool four
      into_payload 3 only_better 0 (λ n. false) parent attributes
