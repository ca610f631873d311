-- ===== src/Payload/Build/Setup.antt =====
-- src/payload/builder.rs: the whole of `default_ethereum_payload`, and the builder's methods that call
-- it.
use reth_cosmos.Prelude.{
  ℕ, ◌<◌, ◌≡◌, ◌≢◌, refl, sym, subst, Bool, Option, none, some, Result, ok, err, or_err,
  if◌then◌else◌, arith,
}
use reth_cosmos.Payload.Builder.{Source}
use reth_cosmos.Payload.Builder.Termination.{IsFinite}
use reth_cosmos.Payload.Built.{CosmosBuiltPayload}
use reth_cosmos.Payload.Build.{
  Services, BuildOutcome, better, Build, returned, panics, unfinished, from_open,
}
use reth_cosmos.Payload.Build.Outcome.{IsBuilt, from_open-IsBuilt, from_open_total}
use reth_cosmos.Payload.Build.Requested.{IsRequested, open_builder-IsRequested}
use reth_cosmos.Payload.Build.Sealing.{
  HasRequests, then_some-HasRequests, IsSealedBy, seal_by-IsSealedBy,
}
use reth_cosmos.Payload.Build.Opening.{
  BuilderConfig, BuildArguments, Parent, Attributes, Forks, Openers, with_hook, open_builder,
  context_of, best_of,
}

-- `MissingPayloadBehaviour`.
pub data MissingPayloadBehaviour : Type 0 where
  await_in_progress race_empty_payload : MissingPayloadBehaviour

-- `CosmosPayloadBuilder::on_missing_payload`.
unfoldable pub on_missing_payload : BuilderConfig → MissingPayloadBehaviour
on_missing_payload config =
    if config.await_payload_on_missing then await_in_progress else race_empty_payload

-- The arguments of an empty payload, with the default values of the cached reads and of the
-- cancellation.
abbrev pub empty_arguments :
    {W R C Rd Payload : Type 0}
    → Rd
    → (ℕ → Bool)
    → Parent R
    → Attributes W
    → BuildArguments W R C Rd Payload
empty_arguments no_reads not_cancelled parent_header attributes = record {
  cached_reads = no_reads;
  execution_cache = none;
  state_root_handle = none;
  parent_header = parent_header;
  attributes = attributes;
  is_cancelled = not_cancelled;
  best_payload = none;
}

-- The payload that `into_payload` finds in an outcome, if any; `none` is a panic, or a loop out of
-- fuel.
unfoldable pub into_result :
    {Payload Rd E : Type 0}
    → (BuildOutcome Payload Rd → Option Payload)
    → E
    → Build Payload Rd E
    → Option (Result E Payload)
into_result into_payload missing_payload (returned (ok outcome)) =
    some (or_err (into_payload outcome) missing_payload)
into_result into_payload missing_payload (returned (err e)) = some (err e)
into_result into_payload missing_payload panics = none
into_result into_payload missing_payload unfinished = none

module _ {P S Q B X E : Type 0} (o : Source P S Q B X E) where
  abbrev pub with_cancel : (ℕ → Bool) → Source P S Q B X E
  with_cancel is_cancelled = record o { is_cancelled = is_cancelled }

  -- `std::iter::empty()` in place of the pool's transactions.
  abbrev pub without_transactions : Source P S Q B X E
  without_transactions = record o { next = λ b. none }

  pub with_cancel-IsFinite : IsFinite o → (cancel : ℕ → Bool) → IsFinite (with_cancel cancel)
  with_cancel-IsFinite f cancel = record {
    remaining = f.remaining;
    next_takes = f.next_takes;
    mark_keeps = f.mark_keeps;
    skip_keeps = f.skip_keeps;
  }

-- `is_better_payload` compares fees with those of the best payload so far.
module _ {W R C Rd St Db X D E P S Q B Block Rq : Type 0} (config : BuilderConfig) (f : Forks)
    (w : Openers W R C Rd St Db X D E) (v : Services X Block Rq R Rd E) (no_blobs : Q)
    (is_better_payload : Option (CosmosBuiltPayload Block Q Rq) → ℕ → Bool) (o : Source P S Q B X E)
    (best_txs : ℕ → Option ℕ → B) (fuel : ℕ) where
  module _ (args : BuildArguments W R C Rd (CosmosBuiltPayload Block Q Rq)) where
    unfoldable pub build_on : Result E X → Build (CosmosBuiltPayload Block Q Rq) Rd E
    build_on (err e) = returned (err e)
    build_on (ok x) =
        from_open v (context_of config args f w x) no_blobs (with_cancel o args.is_cancelled)
          (is_better_payload args.best_payload) args.state_root_handle fuel
          (best_of config args f w best_txs x) (with_hook w.set_state_hook args.state_root_handle x)

    unfoldable pub default_ethereum_payload : Build (CosmosBuiltPayload Block Q Rq) Rd E
    unfolding build_on
    default_ethereum_payload = build_on (open_builder config args f w)

    -- What stands behind a payload that is built: a block that was opened as it was requested, the
    -- build on it, and its sealing.
    pub record IsBuiltOn (p : CosmosBuiltPayload Block Q Rq) (reads : Rd) : Type 0 where
      pub opened : X
      pub opens : open_builder config args f w ≡ ok opened
      pub built :
          IsBuilt v
            (context_of config args f w opened)
            no_blobs
            (with_cancel o args.is_cancelled)
            (is_better_payload args.best_payload)
            args.state_root_handle
            (best_of config args f w best_txs opened)
            (with_hook w.set_state_hook args.state_root_handle opened)
            p
            reads
      pub requested : IsRequested config args f w best_txs opened
      pub requests :
          HasRequests (f.is_prague args.attributes.timestamp) built.sealed.requests p.requests
      pub sealed_by :
          IsSealedBy v config.skip_state_root args.parent_header.root built.state.block built.sealed
            args.state_root_handle

    build_on-IsBuilt :
        (r : Result E X) {p : CosmosBuiltPayload Block Q Rq} {reads : Rd}
        → open_builder config args f w ≡ r
        → build_on r ≡ returned (ok (better p reads))
        → IsBuiltOn p reads
    unfolding build_on context_of
    build_on-IsBuilt (err e) opens h = absurd (ground (arith, h))
    build_on-IsBuilt (ok x) opens h =
        let built =
          from_open-IsBuilt v (context_of config args f w x) no_blobs
            (with_cancel o args.is_cancelled) (is_better_payload args.best_payload)
            args.state_root_handle fuel (best_of config args f w best_txs x)
            (with_hook w.set_state_hook args.state_root_handle x) h in
        record {
          opened = x;
          opens = opens;
          built = built;
          requested = open_builder-IsRequested config args f w best_txs x opens;
          requests =
              subst (HasRequests (f.is_prague args.attributes.timestamp) built.sealed.requests)
                (sym built.bundled.requests)
                (then_some-HasRequests (f.is_prague args.attributes.timestamp)
                  built.sealed.requests);
          sealed_by =
              seal_by-IsSealedBy v (context_of config args f w x) config.skip_state_root
                args.state_root_handle built.state.block built.finished;
        }

    build_on_total :
        (finite : IsFinite o) (r : Result E X)
        → ((x : X) → finite.remaining (best_of config args f w best_txs x) < fuel)
        → build_on r ≢ unfinished
    unfolding build_on with_cancel-IsFinite
    build_on_total finite (err e) small = λ h. ground arith
    build_on_total finite (ok x) small =
        from_open_total v (context_of config args f w x) no_blobs (with_cancel o args.is_cancelled)
          (is_better_payload args.best_payload) args.state_root_handle
          (with_cancel-IsFinite o finite args.is_cancelled) fuel
          (best_of config args f w best_txs x) (with_hook w.set_state_hook args.state_root_handle x)
          (small x)

    -- `CosmosPayloadBuilder::try_build`, where `best_txs` is that of the pool.
    unfoldable pub try_build : Build (CosmosBuiltPayload Block Q Rq) Rd E
    unfolding default_ethereum_payload
    try_build = default_ethereum_payload

    -- A payload that is returned was built on a block that was opened for the requested attributes,
    -- on the parent's state behind the execution cache, if there is one, and the cached reads. The
    -- limits are the block's gas limit and fees and those of the forks at the requested timestamp,
    -- and the pool is asked for its transactions at the block's fees. The payload is the sealed block
    -- of a state that is selected from these: each is passed over only if something blocks it and is
    -- taken otherwise. The block is sealed with the parent's state root, that of the state-root job
    -- or a computed one, as the settings ask. Its fees are, as a 256-bit word, the sum of the tips of
    -- the transactions that are taken times the gas that each used, its sidecars are theirs, its
    -- requests are those of the execution from Prague on, it is better than the best payload so far,
    -- and from Osaka on it is not larger than a block may be. The cached reads that come with it are
    -- those that the sealing leaves.
    pub try_build-IsBuilt :
        {p : CosmosBuiltPayload Block Q Rq} {reads : Rd}
        → try_build ≡ returned (ok (better p reads))
        → IsBuiltOn p reads
    unfolding try_build
    try_build-IsBuilt h = build_on-IsBuilt (open_builder config args f w) refl h

    -- If the pool's iterators hold finitely many transactions, a round of fuel for each and one more
    -- are enough for the build to end.
    pub try_build_total :
        (finite : IsFinite o)
        → ((x : X) → finite.remaining (best_of config args f w best_txs x) < fuel)
        → try_build ≢ unfinished
    unfolding try_build
    try_build_total finite small = build_on_total finite (open_builder config args f w) small

-- `CosmosPayloadBuilder::build_empty_payload`; one round of fuel is enough for no transactions.
unfoldable pub build_empty_payload :
    {W R C Rd St Db X D E P S Q B Block Rq : Type 0}
    → BuilderConfig
    → Forks
    → Openers W R C Rd St Db X D E
    → Services X Block Rq R Rd E
    → Q
    → (Option (CosmosBuiltPayload Block Q Rq) → ℕ → Bool)
    → Source P S Q B X E
    → B
    → (BuildOutcome (CosmosBuiltPayload Block Q Rq) Rd → Option (CosmosBuiltPayload Block Q Rq))
    → E
    → Rd
    → (ℕ → Bool)
    → Parent R
    → Attributes W
    → Option (Result E (CosmosBuiltPayload Block Q Rq))
unfolding default_ethereum_payload into_result
build_empty_payload config f w v no_blobs is_better_payload o iterator into_payload missing_payload
      no_reads not_cancelled parent_header attributes =
    into_result into_payload missing_payload (
      default_ethereum_payload config f w v no_blobs is_better_payload (without_transactions o)
        (λ base_fee blob_fee. iterator) 1
        (empty_arguments no_reads not_cancelled parent_header attributes))
