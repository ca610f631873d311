-- ===== src/Tests/Served.antt =====
-- A payload that is built from the pool of four transactions, one with a sidecar of EIP-7594, as the
-- versions of the Engine API serve it.
use reth_cosmos.Prelude.{
  ℕ, ◌≡◌, refl, Bool, true, false, Option, none, some, List, [], ◌∷◌, ◌++◌, Bytes, ok, arith,
}
use reth_cosmos.Payload.Builder.{
  Source, exceeds, mark, account, settle, execute_stage, choose_sidecar, with_sidecar,
  fetch_sidecar, blob_stage, estimate, size_stage, gas_stage, round, after_round, take_next, fill,
  max_blobs,
}
use reth_cosmos.Payload.Built.{
  BlobSidecars, empty, eip4844, eip7594, CosmosBuiltPayload, Forms, new_payload, with_sidecars,
}
use reth_cosmos.Payload.Build.{
  limits_of, initial, better, returned, or_zero, seal_by, then_some, bundle, bundle_result,
  conclude, after_loop, run_loop, from_open,
}
use reth_cosmos.Payload.Build.Opening.{
  BuildArguments, open_builder, next_attributes, or_other, with_cache, with_hook, context_of,
  best_of, map_some,
}
use reth_cosmos.Payload.Build.Setup.{try_build, build_on, default_ethereum_payload, IsBuiltOn}
use reth_cosmos.Payload.Build.Sidecars.{PushesSidecars, sidecars_of}
use reth_cosmos.Payload.Build.Data.{IsDataOf, try_build-IsDataOf}
use reth_cosmos.Payload.Build.Served.{IsServed, try_build-IsServed}
use reth_cosmos.Tests.Payload.{PoolTx, pool}
use reth_cosmos.Tests.Build.{
  services, config, forks, openers, parent, attributes, is_better, best_txs,
}

-- `BlobTransactionSidecarVariant`.
data Variant : Type 0 where
  variant_4844 variant_7594 : ℕ → Variant

abbrev is_new : Variant → Bool
is_new (variant_4844 n) = false
is_new (variant_7594 n) = true

abbrev is_old : Variant → Bool
is_old (variant_4844 n) = true
is_old (variant_7594 n) = false

abbrev push : BlobSidecars ℕ ℕ → Variant → BlobSidecars ℕ ℕ
push empty (variant_4844 n) = eip4844 (n ∷ [])
push empty (variant_7594 n) = eip7594 (n ∷ [])
push (eip4844 ns) (variant_4844 n) = eip4844 (ns ++ n ∷ [])
push (eip4844 ns) (variant_7594 n) = eip4844 ns
push (eip7594 ns) (variant_4844 n) = eip7594 ns
push (eip7594 ns) (variant_7594 n) = eip7594 (ns ++ n ∷ [])

abbrev blob_pool : Source PoolTx Variant (BlobSidecars ℕ ℕ) (List PoolTx) ℕ ℕ
blob_pool = record {
  gas_limit = pool.gas_limit;
  rlp_length = pool.rlp_length;
  blob_count = pool.blob_count;
  tx_hash = pool.tx_hash;
  effective_tip = pool.effective_tip;
  next = pool.next;
  mark_invalid = λ p r b. b;
  skip_blobs = pool.skip_blobs;
  get_blob = λ h. ok (some (variant_7594 7));
  is_eip7594 = is_new;
  is_eip4844 = is_old;
  push_sidecar = push;
  is_cancelled = pool.is_cancelled;
  execute = pool.execute;
}

is_old-known : (s : Variant) → is_old s ≡ true → (n : ℕ) × (s ≡ variant_4844 n)
is_old-known (variant_4844 n) h = (n, refl)
is_old-known (variant_7594 n) h = absurd (ground arith)

is_new-known : (s : Variant) → is_new s ≡ true → (n : ℕ) × (s ≡ variant_7594 n)
is_new-known (variant_4844 n) h = absurd (ground arith)
is_new-known (variant_7594 n) h = (n, refl)

pushes : PushesSidecars blob_pool variant_4844 variant_7594
pushes = record {
  known_4844 = is_old-known;
  known_7594 = is_new-known;
  first_4844 = λ n. refl;
  first_7594 = λ n. refl;
  more_4844 = λ ns n. refl;
  more_7594 = λ ns n. refl;
}

abbrev arguments : BuildArguments ℕ ℕ ℕ ℕ (CosmosBuiltPayload ℕ (BlobSidecars ℕ ℕ) Bytes)
arguments = record {
  cached_reads = 0;
  execution_cache = none;
  state_root_handle = none;
  parent_header = parent;
  attributes = attributes;
  is_cancelled = pool.is_cancelled;
  best_payload = none;
}

abbrev is_better_payload : Option (CosmosBuiltPayload ℕ (BlobSidecars ℕ ℕ) Bytes) → ℕ → Bool
is_better_payload best fees = is_better fees

abbrev payload : CosmosBuiltPayload ℕ (BlobSidecars ℕ ℕ) Bytes
payload = record {
  block = 2;
  fees = 102000;
  sidecars = eip7594 (7 ∷ []);
  requests = some [];
  block_access_list = some (9 ∷ []);
}

tried :
    try_build config forks openers services empty is_better_payload blob_pool best_txs 5 arguments
    ≡ returned (ok (better payload 2))
unfolding try_build default_ethereum_payload build_on open_builder next_attributes or_other
    with_cache with_hook context_of best_of map_some from_open run_loop after_loop conclude
    bundle_result bundle seal_by then_some new_payload with_sidecars limits_of or_zero initial
    max_blobs exceeds mark account settle execute_stage choose_sidecar with_sidecar fetch_sidecar
    blob_stage estimate size_stage gas_stage round after_round take_next fill
tried = refl

-- A block is its number, which stands for its payload, and a bundle is the list of its sidecars.
abbrev forms : Forms ℕ ℕ ℕ Bytes ℕ ℕ (List ℕ) (List ℕ) ℕ ℕ
forms = record {
  hash = λ b. [];
  payload_v3 = λ h b. b;
  payload_v4 = λ h b bal. b;
  empty_v1 = [];
  bundle_v1 = λ ns. ns;
  empty_v2 = [];
  bundle_v2 = λ ns. ns;
  no_requests = [];
  with_extras = λ h b bal. (b, 0);
  parent_beacon_block_root = λ b. some (5 ∷ []);
  versioned_hashes = λ b. [];
  sidecar_v4 = λ root hashes requests. 1;
}

try_build-IsServed_example :
    (on : IsBuiltOn config forks openers services empty is_better_payload blob_pool best_txs 5
      arguments payload 2)
    × IsServed forms variant_4844 variant_7594 true (sidecars_of on.built.entries) payload
try_build-IsServed_example =
    try_build-IsServed config forks openers services is_better_payload blob_pool best_txs 5
      arguments forms pushes tried

try_build-IsDataOf_example :
    (on : IsBuiltOn config forks openers services empty is_better_payload blob_pool best_txs 5
      arguments payload 2)
    × IsDataOf forms true on.built.sealed.requests payload
try_build-IsDataOf_example =
    try_build-IsDataOf config forks openers services empty is_better_payload blob_pool best_txs 5
      arguments forms tried
