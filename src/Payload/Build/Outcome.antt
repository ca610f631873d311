-- ===== src/Payload/Build/Outcome.antt =====
-- src/payload/builder.rs: what a payload that `default_ethereum_payload` returns holds.
use reth_cosmos.Prelude.{
  map, ℕ, ◌%◌, ◌^◌, ◌<◌, ◌≡◌, ◌≢◌, refl, subst, Bool, true, Option, List, [], Result, ok, arith,
  inl, inr, Result-cases,
}
use reth_cosmos.Payload.Builder.{
  Source, Fill, Filled, filled, was_cancelled, has_panicked, out_of_fuel, was_stopped, fill,
}
use reth_cosmos.Payload.Builder.Totals.{Entry, IsAccount, total, fee_of, pushed}
use reth_cosmos.Payload.Builder.Selection.{Choice, Selects, taken_onto, fill-Selects}
use reth_cosmos.Payload.Builder.Termination.{IsFinite, fill-total}
use reth_cosmos.Payload.Built.{CosmosBuiltPayload}
use reth_cosmos.Payload.Build.{
  Context, limits_of, initial, Sealed, Services, BuildOutcome, better, Build, returned, unfinished,
  seal_by, conclude, after_loop, run_loop, from_open,
}
use reth_cosmos.Payload.Build.Concluded.{IsBundled, conclude-IsConcluded}

returned-injective :
    {A Rd E : Type 0} {r r' : Result E (BuildOutcome A Rd)}
    → ◌≡◌ {A = Build A Rd E} (returned r) (returned r')
    → r ≡ r'
returned-injective h = cc

module _ {P S Q B X Block Rq R Rd E : Type 0} (v : Services X Block Rq R Rd E) (g : Context R)
    (no_blobs : Q) (o : Source P S Q B X E) (is_better : ℕ → Bool) (job : Option (Option R)) where
  -- The payload is that of the sealed block of a filled state: the state is selected from the
  -- pool's transactions after the changes before execution, the fees and sidecars are those of the
  -- transactions that are taken, the payload is better than the best so far, and it is not too
  -- large. The cached reads are those that the sealing leaves.
  pub record IsBuilt (best : B) (block : X) (p : CosmosBuiltPayload Block Q Rq) (reads : Rd)
      : Type 0 where
    pub opened : X
    pub begun : v.apply_pre_execution block ≡ ok opened
    pub state : Fill Q B X
    pub choices : List (Choice P)
    pub selects : Selects o (limits_of g) (initial no_blobs best opened) state choices
    pub entries : List (Entry P S)
    pub taken : map (λ (x : Entry P S). x.tx) entries ≡ taken_onto choices []
    pub account : IsAccount o (limits_of g) no_blobs entries state
    pub improves : is_better p.fees ≡ true
    pub sealed : Sealed Block Rq Rd
    pub finished : seal_by v g g.skip_state_root job state.block ≡ ok sealed
    pub bundled :
        IsBundled v g sealed
          (total fee_of entries % 2 ^ 256)
          (pushed o.push_sidecar no_blobs entries)
          p
          reads

  account_zero : (b : B) (x : X) → IsAccount o (limits_of g) no_blobs [] (initial no_blobs b x)
  unfolding initial total pushed
  account_zero b x = record {
    entries = tt;
    cumulative = refl;
    regular = refl;
    state_gas = refl;
    blobs = refl;
    rlp = refl;
    fees = refl;
    sidecars = refl;
  }

  filled-IsBuilt :
      (fuel : ℕ) (b : B) (block x : X) (s : Fill Q B X) {p : CosmosBuiltPayload Block Q Rq}
      {reads : Rd}
      → v.apply_pre_execution block ≡ ok x
      → fill o (limits_of g) fuel (initial no_blobs b x) ≡ filled s
      → conclude v g no_blobs is_better job s ≡ ok (better p reads)
      → IsBuilt b block p reads
  filled-IsBuilt fuel b block x s {p} {reads} begun run h =
      let i = conclude-IsConcluded v g no_blobs is_better job s h in
      let (cs, xs, selects, a, taken) =
        fill-Selects o (limits_of g) no_blobs fuel (initial no_blobs b x) s (account_zero b x)
          run in
      record {
        opened = x;
        begun = begun;
        choices = cs;
        selects = selects;
        taken = taken;
        state = s;
        entries = xs;
        account = a;
        improves = rw i.bundled.fees_of i.improves;
        sealed = i.sealed;
        finished = i.finished;
        bundled =
            subst (λ f. IsBundled v g i.sealed f (pushed o.push_sidecar no_blobs xs) p reads) a.fees
              (subst (λ q. IsBundled v g i.sealed s.total_fees q p reads) a.sidecars i.bundled);
      }

  after_loop-IsBuilt :
      (fuel : ℕ) (b : B) (block x : X) (r : Filled Q B X E) {p : CosmosBuiltPayload Block Q Rq}
      {reads : Rd}
      → v.apply_pre_execution block ≡ ok x
      → fill o (limits_of g) fuel (initial no_blobs b x) ≡ r
      → after_loop v g no_blobs is_better job r ≡ returned (ok (better p reads))
      → IsBuilt b block p reads
  unfolding after_loop
  after_loop-IsBuilt fuel b block x (filled s) begun h k =
      filled-IsBuilt fuel b block x s begun h (returned-injective k)
  after_loop-IsBuilt fuel b block x was_cancelled begun h k = absurd (ground (arith, k))
  after_loop-IsBuilt fuel b block x has_panicked begun h k = absurd (ground (arith, k))
  after_loop-IsBuilt fuel b block x out_of_fuel begun h k = absurd (ground (arith, k))
  after_loop-IsBuilt fuel b block x (was_stopped e) begun h k = absurd (ground (arith, k))

  -- A payload that is returned is the sealed block of a state that is selected from the pool's
  -- transactions after the changes before execution: each that the pool gives is passed over only
  -- if something blocks it and is taken otherwise. The payload's fees are, as a 256-bit word, the
  -- sum of the tips of the transactions that are taken times the gas that each used, its sidecars
  -- are theirs, it is better than the best payload so far, and from Osaka on it is not larger than
  -- a block may be.
  pub from_open-IsBuilt :
      (fuel : ℕ) (b : B) (block : X) {p : CosmosBuiltPayload Block Q Rq} {reads : Rd}
      → from_open v g no_blobs o is_better job fuel b block ≡ returned (ok (better p reads))
      → IsBuilt b block p reads
  unfolding from_open run_loop
  from_open-IsBuilt fuel b block h = elim (Result-cases (v.apply_pre_execution block)) [
    | inl (x, e) ↦ after_loop-IsBuilt fuel b block x _ e refl (rw e at h)
    | inr (x, e) ↦ absurd (ground (arith, rw e at h))
  ]

  after_loop-unfinished :
      (r : Filled Q B X E) → after_loop v g no_blobs is_better job r ≡ unfinished → r ≡ out_of_fuel
  unfolding after_loop
  after_loop-unfinished (filled s) h = absurd (ground (arith, h))
  after_loop-unfinished was_cancelled h = absurd (ground (arith, h))
  after_loop-unfinished has_panicked h = absurd (ground (arith, h))
  after_loop-unfinished out_of_fuel h = refl
  after_loop-unfinished (was_stopped e) h = absurd (ground (arith, h))

  -- If the iterator holds finitely many transactions, a round of fuel for each and one more are
  -- enough for the function to end.
  pub from_open_total :
      (f : IsFinite o) (fuel : ℕ) (b : B) (block : X)
      → f.remaining b < fuel
      → from_open v g no_blobs o is_better job fuel b block ≢ unfinished
  unfolding from_open run_loop initial
  from_open_total f fuel b block small h = elim (Result-cases (v.apply_pre_execution block)) [
    | inl (x, e) ↦
        fill-total o (limits_of g) f fuel (initial no_blobs b x) small
          (after_loop-unfinished _ (rw e at h))
    | inr (x, e) ↦ absurd (ground (arith, rw e at h))
  ]
