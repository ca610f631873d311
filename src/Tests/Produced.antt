-- ===== src/Tests/Produced.antt =====
-- The block of a build from the pool of four transactions, before the node's own consensus. Every
-- pool transaction stands for the authorized transaction.
use reth_cosmos.Prelude.{
  ℕ, zero, suc, ◌≡◌, refl, sym, ap, ◌∙◌, Bool, Option, none, some, List, [], ◌∷◌, ◌++◌, Bytes, ok,
  arith, map, replicate, ok-injective,
}
use reth_cosmos.Primitives.Envelope.{CosmosEnvelope, cosmos, encode_2718}
use reth_cosmos.Consensus.{SealedBlock}
use reth_cosmos.Consensus.Replayed.{with_sender, try_build-IsReplayed}
use reth_cosmos.Evm.{tx_iterator_for_payload}
use reth_cosmos.Consensus.Produced.{IsProduced, try_build-IsProduced}
use reth_cosmos.Payload.Builder.{
  exceeds, mark, account, settle, execute_stage, choose_sidecar, with_sidecar, fetch_sidecar,
  blob_stage, estimate, size_stage, gas_stage, round, after_round, take_next, fill, max_blobs,
}
use reth_cosmos.Payload.Built.{CosmosBuiltPayload, new_payload, with_sidecars}
use reth_cosmos.Payload.Build.{
  limits_of, initial, Sealed, Services, better, returned, or_zero, seal_by, then_some, bundle,
  bundle_result, conclude, after_loop, run_loop, from_open,
}
use reth_cosmos.Payload.Build.Opening.{
  BuildArguments, open_builder, next_attributes, or_other, with_cache, with_hook, context_of,
  best_of, map_some,
}
use reth_cosmos.Payload.Build.Setup.{IsBuiltOn, try_build, build_on, default_ethereum_payload}
use reth_cosmos.Payload.Build.Transactions.{KeepsTransactions, chosen}
use reth_cosmos.Tests.Codec.{codec}
use reth_cosmos.Tests.Codec.Laws.{codec_laws}
use reth_cosmos.Tests.Json.{to_vec}
use reth_cosmos.Tests.Toy.{toy}
use reth_cosmos.Tests.Accounts.{toy_operation, toy_signed, toy_signed-IsSigned}
use reth_cosmos.Tests.Primitives.{toy_eth}
use reth_cosmos.Tests.Consensus.{lenient}
use reth_cosmos.Tests.Evm.{toy-recovered}
use reth_cosmos.Tests.Payloads.{
  legacy_eth, legacy_encoded, decode_exact, decode_exact-DecodesExactly, try_recover,
  legacy-recovered,
}
use reth_cosmos.Tests.Payload.{PoolTx, pool}
use reth_cosmos.Tests.Build.{config, forks, openers, parent, attributes, is_better, best_txs}

abbrev Block : Type 0
Block = SealedBlock Bytes ℕ ℕ

abbrev Payload : Type 0
Payload = CosmosBuiltPayload Block (List ℕ) Bytes

-- The block builder is the number of the transactions that it has executed.
abbrev held : ℕ → List (CosmosEnvelope Bytes)
held n = replicate n (cosmos toy_signed)

abbrev block_with : ℕ → Block
block_with n = record { header = 1; transactions = held n; rest = 0 }

abbrev services : Services ℕ Block Bytes ℕ ℕ ℕ
services = record {
  apply_pre_execution = λ x. ok x;
  cached_reads = λ x. x;
  clear_state_hook = λ x. x;
  finish = λ x root.
      ok (record {
        block = block_with x;
        requests = [];
        block_access_list = none;
        cached_reads = x;
      });
  rlp_length = λ block. 500;
  block_too_large = λ size limit. 1;
}

held-suc : (n : ℕ) → held (suc n) ≡ held n ++ cosmos toy_signed ∷ []
held-suc zero = refl
held-suc (suc n) = ap (λ txs. cosmos toy_signed ∷ txs) (held-suc n)

keeps : KeepsTransactions pool services (λ p. cosmos toy_signed) held (λ b. b.transactions)
keeps = record {
  appends = λ p x x' gas state_gas regular h. ap held (sym (ap (λ r. r.0) h)) ∙ held-suc x;
  leaves_invalid = λ p x x' low h. absurd (ground arith);
  leaves_large = λ p x x' limit available h. absurd (ground arith);
  begins = λ x x' h. ap held (sym (ok-injective h));
  unhooks = λ x. refl;
  seals = λ x root sealed h.
      sym (ap (λ (s : Sealed Block Bytes ℕ). s.block.transactions) (ok-injective h));
}

abbrev arguments : BuildArguments ℕ ℕ ℕ ℕ Payload
arguments = record {
  cached_reads = 0;
  execution_cache = none;
  state_root_handle = none;
  parent_header = parent;
  attributes = attributes;
  is_cancelled = pool.is_cancelled;
  best_payload = none;
}

abbrev is_better_payload : Option Payload → ℕ → Bool
is_better_payload best fees = is_better fees

abbrev payload : Payload
payload = record {
  block = block_with 2;
  fees = 102000;
  sidecars = 7 ∷ [];
  requests = some [];
  block_access_list = none;
}

produced :
    try_build config forks openers services [] is_better_payload pool best_txs 5 arguments
    ≡ returned (ok (better payload 2))
unfolding try_build default_ethereum_payload build_on open_builder next_attributes or_other
    with_cache with_hook context_of best_of map_some from_open run_loop after_loop conclude
    bundle_result bundle seal_by then_some new_payload with_sidecars limits_of or_zero initial
    max_blobs exceeds mark account settle execute_stage choose_sidecar with_sidecar fetch_sidecar
    blob_stage estimate size_stage gas_stage round after_round take_next fill
produced = refl

fresh :
    (x : ℕ)
    → open_builder config arguments forks openers ≡ ok x
    → held (with_hook openers.set_state_hook arguments.state_root_handle x) ≡ []
unfolding open_builder next_attributes or_other with_cache with_hook
fresh x h = ap held (sym (ok-injective h))

try_build-IsProduced_example :
    IsProduced codec toy to_vec toy_eth
      (λ (p : PoolTx). cosmos toy_signed)
      (λ p. toy_operation.sender)
      (λ p. toy-recovered)
      config
      forks
      openers
      services
      []
      is_better_payload
      pool
      best_txs
      5
      arguments
      held
      keeps
      fresh
      lenient
      payload
      2
try_build-IsProduced_example =
    try_build-IsProduced codec toy to_vec toy_eth (λ (p : PoolTx). cosmos toy_signed)
      (λ p. toy_operation.sender) (λ p. toy-recovered) config forks openers services []
      is_better_payload pool best_txs 5 arguments held keeps fresh lenient refl produced

-- The payload of the block, which is its transactions.
abbrev raw_transactions : List Bytes
raw_transactions = map (encode_2718 legacy_eth) payload.block.transactions

try_build-IsReplayed_example :
    let (raws, closure) =
      tx_iterator_for_payload
        (λ (raws : List Bytes). raws)
        decode_exact
        try_recover
        raw_transactions in
    (b : IsBuiltOn config forks openers services [] is_better_payload pool best_txs 5 arguments
      payload 2)
    × (map closure raws
        ≡ map
            (with_sender codec toy legacy_eth codec_laws legacy_encoded decode_exact
              decode_exact-DecodesExactly to_vec try_recover
              (λ tx. refl)
              (λ (p : PoolTx). cosmos toy_signed)
              (λ p. toy_operation.sender)
              (λ p. legacy-recovered)
              (λ p. toy_signed-IsSigned))
            (chosen b.built.choices))
try_build-IsReplayed_example =
    try_build-IsReplayed codec toy legacy_eth codec_laws legacy_encoded decode_exact
      decode_exact-DecodesExactly to_vec try_recover (λ tx. refl)
      (λ (p : PoolTx). cosmos toy_signed) (λ p. toy_operation.sender) (λ p. legacy-recovered)
      (λ p. toy_signed-IsSigned) config forks openers services [] is_better_payload pool best_txs 5
      arguments held keeps fresh (λ (raws : List Bytes). raws) raw_transactions produced refl
