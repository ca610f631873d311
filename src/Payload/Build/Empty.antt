-- ===== src/Payload/Build/Empty.antt =====
-- src/payload/builder.rs: the payload of `build_empty_payload`.
use reth_cosmos.Prelude.{
  ℕ, ◌≡◌, ◌⊎◌, refl, ap, ◌∙◌, Bool, Option, none, some, Result, ok, err, or_err, inl, inr,
  Result-cases,
}
use reth_cosmos.Payload.Builder.{Source, fill, take_next}
use reth_cosmos.Payload.Built.{CosmosBuiltPayload}
use reth_cosmos.Payload.Build.{
  Context, Sealed, initial, Services, BuildOutcome, better, Build, returned, seal_by, conclude,
  after_loop, run_loop, from_open,
}
use reth_cosmos.Payload.Build.Concluded.{IsBundled, conclude-IsConcluded}
use reth_cosmos.Payload.Build.Opening.{
  BuilderConfig, BuildArguments, Parent, Attributes, Forks, Openers, with_hook, open_builder,
  context_of, best_of,
}
use reth_cosmos.Payload.Build.Setup.{
  empty_arguments, with_cancel, without_transactions, build_empty_payload,
}

module _ {X Block Rq R Rd E Q : Type 0} (v : Services X Block Rq R Rd E) (g : Context R)
    (no_blobs : Q) where
  -- The payload of an open block without transactions: the block is sealed behind the changes
  -- before execution, without a state-root job, without fees and without blobs.
  pub record IsEmpty (opened : X) (p : CosmosBuiltPayload Block Q Rq) : Type 0 where
    pub changed : X
    pub begun : v.apply_pre_execution opened ≡ ok changed
    pub sealed : Sealed Block Rq Rd
    pub finished : seal_by v g g.skip_state_root none changed ≡ ok sealed
    pub reads : Rd
    pub bundled : IsBundled v g sealed 0 no_blobs p reads

module _ {X Block Rq R Rd E P S Q B : Type 0} (v : Services X Block Rq R Rd E) (g : Context R)
    (no_blobs : Q) (is_better : ℕ → Bool) (o : Source P S Q B X E) (iterator : B) where
  conclude-IsEmpty :
      (opened x : X) {p : CosmosBuiltPayload Block Q Rq} {reads : Rd}
      → v.apply_pre_execution opened ≡ ok x
      → conclude v g no_blobs is_better none (initial no_blobs iterator x) ≡ ok (better p reads)
      → IsEmpty v g no_blobs opened p
  unfolding initial
  conclude-IsEmpty opened x {p} {reads} begun h =
      let i = conclude-IsConcluded v g no_blobs is_better none (initial no_blobs iterator x) h in
      record {
        changed = x;
        begun = begun;
        sealed = i.sealed;
        finished = i.finished;
        reads = reads;
        bundled = i.bundled;
      }

  abbrev on_open : X → Build (CosmosBuiltPayload Block Q Rq) Rd E
  on_open opened = from_open v g no_blobs (without_transactions o) is_better none 1 iterator opened

  -- Without transactions the function returns, and a payload is an empty one.
  on_open-cases :
      (opened : X)
      → ((e : E) × (on_open opened ≡ returned (err e)))
        ⊎ ((outcome : BuildOutcome (CosmosBuiltPayload Block Q Rq) Rd) × (on_open opened
              ≡ returned (ok outcome))
            × ((p : CosmosBuiltPayload Block Q Rq) (reads : Rd)
                → outcome ≡ better p reads
                → IsEmpty v g no_blobs opened p))
  unfolding from_open run_loop after_loop fill take_next
  on_open-cases opened = elim (Result-cases (v.apply_pre_execution opened)) [
    | inr (e, failed) ↦ inl (e, rw failed refl)
    | inl (x, began) ↦
        elim (Result-cases (conclude v g no_blobs is_better none (initial no_blobs iterator x))) [
          | inr (e, failed) ↦ inl (e, rw (began, failed) refl)
          | inl (outcome, concluded) ↦ inr (
            outcome,
            rw (began, concluded) refl,
            λ p reads is_p. conclude-IsEmpty opened x began (concluded ∙ ap ok is_p),
          )
        ]
  ]

module _ {W R C Rd St Db X D E P S Q B Block Rq : Type 0} (config : BuilderConfig) (f : Forks)
    (w : Openers W R C Rd St Db X D E) (v : Services X Block Rq R Rd E) (no_blobs : Q)
    (is_better_payload : Option (CosmosBuiltPayload Block Q Rq) → ℕ → Bool) (o : Source P S Q B X E)
    (iterator : B)
    (into_payload : BuildOutcome (CosmosBuiltPayload Block Q Rq) Rd
      → Option (CosmosBuiltPayload Block Q Rq))
    (missing_payload : E)
    (only_better : (outcome : BuildOutcome (CosmosBuiltPayload Block Q Rq) Rd)
        (p : CosmosBuiltPayload Block Q Rq)
      → into_payload outcome ≡ some p
      → (reads : Rd) × (outcome ≡ better p reads))
    (no_reads : Rd) (not_cancelled : ℕ → Bool) (parent : Parent R) (a : Attributes W) where
  abbrev arguments : BuildArguments W R C Rd (CosmosBuiltPayload Block Q Rq)
  arguments = empty_arguments no_reads not_cancelled parent a

  abbrev empty_payload : Option (Result E (CosmosBuiltPayload Block Q Rq))
  empty_payload =
      build_empty_payload config f w v no_blobs is_better_payload o iterator into_payload
        missing_payload no_reads not_cancelled parent a

  -- What is returned for an outcome.
  found-IsEmpty :
      (x : X) (outcome : BuildOutcome (CosmosBuiltPayload Block Q Rq) Rd)
      (found : Option (CosmosBuiltPayload Block Q Rq))
      → into_payload outcome ≡ found
      → ((p : CosmosBuiltPayload Block Q Rq) (reads : Rd)
          → outcome ≡ better p reads
          → IsEmpty v (context_of config arguments f w x) no_blobs x p)
      → ((e : E) × (or_err found missing_payload ≡ err e))
        ⊎ ((p : CosmosBuiltPayload Block Q Rq) × (or_err found missing_payload ≡ ok p)
            × IsEmpty v (context_of config arguments f w x) no_blobs x p)
  found-IsEmpty x outcome none h is_empty = inl (missing_payload, refl)
  found-IsEmpty x outcome (some p) h is_empty =
      let (reads, e) = only_better outcome p h in inr (p, refl, is_empty p reads e)

  -- An empty payload is built without a panic: the result is an error, or the payload of the block
  -- that is opened for the attributes on the parent, without transactions, fees and blobs, given
  -- that `into_payload` finds a payload only in a better outcome.
  pub build_empty_payload-IsEmpty :
      ((e : E) × (empty_payload ≡ some (err e)))
      ⊎ ((p : CosmosBuiltPayload Block Q Rq) × (empty_payload ≡ some (ok p))
          × ((x : X) × (open_builder config arguments f w ≡ ok x)
              × IsEmpty v (context_of config arguments f w x) no_blobs x p))
  unfolding build_empty_payload with_hook best_of
  build_empty_payload-IsEmpty = elim (Result-cases (open_builder config arguments f w)) [
    | inr (e, failed) ↦ inl (e, rw failed refl)
    | inl (x, opens) ↦
        elim (on_open-cases v (context_of config arguments f w x) no_blobs (is_better_payload none)
          (with_cancel o not_cancelled) iterator x) [
            | inr (outcome, returns, is_empty) ↦
                elim (found-IsEmpty x outcome (into_payload outcome) refl is_empty) [
                  | inl (e, missed) ↦ inl (e, rw (opens, returns, missed) refl)
                  | inr (p, found, empty) ↦
                      inr (p, rw (opens, returns, found) refl, (x, opens, empty))
                ]
            | inl (e, failed) ↦ inl (e, rw (opens, failed) refl)
          ]
  ]
