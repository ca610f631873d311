-- ===== src/Payload/Build/Transactions.antt =====
-- src/payload/builder.rs: the transactions of the block that is sealed.
use mathlib.Core.List.{append-nil, append_assoc}
use reth_cosmos.Prelude.{
  ℕ, ◌≡◌, refl, ap, ◌∙◌, Bool, true, false, Option, none, some, List, [], ◌∷◌, ◌++◌, map, ok,
}
use reth_cosmos.Payload.Builder.{
  executed, invalid_tx, gas_unavailable, Source, Limits, Fill, account,
}
use reth_cosmos.Payload.Builder.Rounds.{
  IsIncluded, IsBlocked, over_gas, too_large, over_blobs, bad_sidecar, nonce_low, invalid,
  out_of_gas,
}
use reth_cosmos.Payload.Builder.Selection.{Choice, taken, passed, Selects, ends, passes, takes}
use reth_cosmos.Payload.Built.{CosmosBuiltPayload}
use reth_cosmos.Payload.Build.{Context, limits_of, initial, Sealed, Services, seal_by}
use reth_cosmos.Payload.Build.Outcome.{IsBuilt}
use reth_cosmos.Payload.Build.Opening.{
  BuilderConfig, BuildArguments, Forks, Openers, with_hook, open_builder, context_of, best_of,
}
use reth_cosmos.Payload.Build.Setup.{with_cancel, IsBuiltOn}

module _ {P : Type 0} where
  -- The transactions that are taken, in their order.
  unfoldable pub chosen : List (Choice P) → List P
  chosen [] = []
  chosen (passed p ∷ cs) = chosen cs
  chosen (taken p ∷ cs) = p ∷ chosen cs

-- The upstream block builder: `held` are the transactions that it has executed, and `listed` those
-- of a block. A transaction is appended if its execution succeeds and left out otherwise; nothing
-- else adds or removes any, and the sealed block has those that are held.
pub record KeepsTransactions {P S Q B X Block Rq R Rd E A : Type 0} (o : Source P S Q B X E)
    (v : Services X Block Rq R Rd E) (tx_of : P → A) (held : X → List A) (listed : Block → List A)
    : Type 0 where
  pub appends :
      (p : P) (x x' : X) (gas state_gas regular : ℕ)
      → o.execute p x ≡ (x', executed gas state_gas regular)
      → held x' ≡ held x ++ tx_of p ∷ []
  pub leaves_invalid :
      (p : P) (x x' : X) (low : Bool) → o.execute p x ≡ (x', invalid_tx low) → held x' ≡ held x
  pub leaves_large :
      (p : P) (x x' : X) (limit available : ℕ)
      → o.execute p x ≡ (x', gas_unavailable limit available)
      → held x' ≡ held x
  pub begins : (x x' : X) → v.apply_pre_execution x ≡ ok x' → held x' ≡ held x
  pub unhooks : (x : X) → held (v.clear_state_hook x) ≡ held x
  pub seals :
      (x : X) (root : Option R) (sealed : Sealed Block Rq Rd)
      → v.finish x root ≡ ok sealed
      → listed sealed.block ≡ held x

-- The cancellation touches no transaction.
pub with_cancel-KeepsTransactions :
    {P S Q B X Block Rq R Rd E A : Type 0} {o : Source P S Q B X E} {v : Services X Block Rq R Rd E}
    {tx_of : P → A} {held : X → List A} {listed : Block → List A}
    → KeepsTransactions o v tx_of held listed
    → (cancel : ℕ → Bool) → KeepsTransactions (with_cancel o cancel) v tx_of held listed
with_cancel-KeepsTransactions k cancel = record {
  appends = k.appends;
  leaves_invalid = k.leaves_invalid;
  leaves_large = k.leaves_large;
  begins = k.begins;
  unhooks = k.unhooks;
  seals = k.seals;
}

module _ {P S Q B X Block Rq R Rd E A : Type 0} {o : Source P S Q B X E}
    {v : Services X Block Rq R Rd E} {tx_of : P → A} {held : X → List A} {listed : Block → List A}
    (k : KeepsTransactions o v tx_of held listed) where
  blocked-held :
      (g : Limits) {s : Fill Q B X} {p : P} {rest b : B} {x : X}
      → IsBlocked o g s p rest b x
      → held x ≡ held s.block
  blocked-held g (over_gas limit available e) = refl
  blocked-held g (too_large e) = refl
  blocked-held g (over_blobs n e h) = refl
  blocked-held g (bad_sidecar n found r e got bad) = refl
  blocked-held g {s} {p} (nonce_low x e) = k.leaves_invalid p s.block x _ e
  blocked-held g {s} {p} (invalid x e) = k.leaves_invalid p s.block x _ e
  blocked-held g {s} {p} (out_of_gas x limit available e) =
      k.leaves_large p s.block x limit available e

  account-block :
      (g : Limits) (t : Fill Q B X) (p : P) (tip : ℕ) (blobs : Option (ℕ × S))
      (gas state_gas regular : ℕ)
      → (account o g t p tip blobs gas state_gas regular).block ≡ t.block
  unfolding account
  account-block g t p tip none gas state_gas regular = refl
  account-block g t p tip (some (n, sidecar)) gas state_gas regular = refl

  included-held :
      (g : Limits) (s t : Fill Q B X) (p : P)
      → IsIncluded o g s p t
      → held t.block ≡ held s.block ++ tx_of p ∷ []
  included-held g s t p i =
      ap held (
        ap (λ (y : Fill Q B X). y.block) i.result
        ∙ account-block g i.t p i.tip i.blobs i.gas i.state_gas i.regular
        ∙ i.kept)
      ∙ k.appends p s.block i.after i.gas i.state_gas i.regular i.ran

  -- A selection appends the transactions that are taken.
  Selects-held :
      (g : Limits) {s u : Fill Q B X} {cs : List (Choice P)}
      → Selects o g s u cs
      → held u.block ≡ held s.block ++ map tx_of (chosen cs)
  unfolding chosen
  Selects-held g (ends s e) = rw (append-nil (held s.block)) refl
  Selects-held g {cs = passed _ ∷ cs} (passes s t u p rest _ drawn same blocked run) =
      Selects-held g run ∙ ap (λ txs. txs ++ map tx_of (chosen cs)) (blocked-held g blocked)
  Selects-held g {cs = taken _ ∷ cs} (takes s t u p rest _ drawn i left run) =
      Selects-held g run
      ∙ ap (λ txs. txs ++ map tx_of (chosen cs)) (included-held g s t p i)
      ∙ append_assoc (held s.block) (tx_of p ∷ []) (map tx_of (chosen cs))

  seal_by-listed :
      (g : Context R) (skip : Bool) (job : Option (Option R)) (x : X) (sealed : Sealed Block Rq Rd)
      → seal_by v g skip job x ≡ ok sealed
      → listed sealed.block ≡ held x
  unfolding seal_by
  seal_by-listed g true job x sealed h = k.seals x _ sealed h
  seal_by-listed g false none x sealed h = k.seals x none sealed h
  seal_by-listed g false (some outcome) x sealed h =
      k.seals (v.clear_state_hook x) outcome sealed h ∙ k.unhooks x

  -- The transactions of a built payload are those of the opened block and those that were taken from
  -- the pool, in the order in which the pool gave them.
  pub built-listed :
      (g : Context R) (no_blobs : Q) (is_better : ℕ → Bool) (job : Option (Option R)) (best : B)
      (x : X) {p : CosmosBuiltPayload Block Q Rq} {reads : Rd}
      → (b : IsBuilt v g no_blobs o is_better job best x p reads)
      → listed p.block ≡ held x ++ map tx_of (chosen b.choices)
  unfolding initial
  built-listed g no_blobs is_better job best x b =
      ap listed b.bundled.block
      ∙ seal_by-listed g g.skip_state_root job b.state.block b.sealed b.finished
      ∙ Selects-held (limits_of g) b.selects
      ∙ ap (λ txs. txs ++ map tx_of (chosen b.choices)) (k.begins x b.opened b.begun)

module _ {W R C Rd St Db X D E P S Q B Block Rq A : Type 0} (config : BuilderConfig) (f : Forks)
    (w : Openers W R C Rd St Db X D E) (v : Services X Block Rq R Rd E) (no_blobs : Q)
    (is_better_payload : Option (CosmosBuiltPayload Block Q Rq) → ℕ → Bool) (o : Source P S Q B X E)
    (best_txs : ℕ → Option ℕ → B) (fuel : ℕ)
    (args : BuildArguments W R C Rd (CosmosBuiltPayload Block Q Rq)) {tx_of : P → A}
    {held : X → List A} {listed : Block → List A} (k : KeepsTransactions o v tx_of held listed)
    (fresh : (x : X)
      → open_builder config args f w ≡ ok x
      → held (with_hook w.set_state_hook args.state_root_handle x) ≡ []) where
  -- If a block is opened without transactions, those of the built block are those that were taken
  -- from the pool, in the order in which the pool gave them.
  pub built-transactions :
      {p : CosmosBuiltPayload Block Q Rq} {reads : Rd}
      → (b : IsBuiltOn config f w v no_blobs is_better_payload o best_txs fuel args p reads)
      → listed p.block ≡ map tx_of (chosen b.built.choices)
  built-transactions b =
      built-listed (with_cancel-KeepsTransactions k args.is_cancelled)
        (context_of config args f w b.opened) no_blobs (is_better_payload args.best_payload)
        args.state_root_handle (best_of config args f w best_txs b.opened)
        (with_hook w.set_state_hook args.state_root_handle b.opened) b.built
      ∙ ap (λ txs. txs ++ map tx_of (chosen b.built.choices)) (fresh b.opened b.opens)
