-- ===== src/Payload/Build/Served.antt =====
-- src/payload/builder.rs and src/payload/built.rs: the versions of the Engine API in which a payload
-- that was built is served, with the sidecars of its transactions.
use reth_cosmos.Prelude.{
  ℕ, ◌≡◌, refl, ◌∙◌, inl, inr, Bool, true, false, Bool-cases, Option, some, List, [], ◌∷◌, map,
  Bytes, ok,
}
use reth_cosmos.Payload.Builder.{Source}
use reth_cosmos.Payload.Builder.Totals.{is_of_fork}
use reth_cosmos.Payload.Built.{
  BlobSidecars, empty, CosmosBuiltPayload, EnvelopeV4, EnvelopeV5, Forms, blobs_v1, blobs_v2,
  try_into_v3, try_into_v4, try_into_v5, try_into_v6, or_none,
}
use reth_cosmos.Payload.Build.{Context, limits_of, Services, better, returned}
use reth_cosmos.Payload.Build.Outcome.{IsBuilt}
use reth_cosmos.Payload.Build.Opening.{
  BuilderConfig, BuildArguments, Forks, Openers, with_hook, context_of, best_of,
}
use reth_cosmos.Payload.Build.Setup.{with_cancel, IsBuiltOn, try_build, try_build-IsBuilt}
use reth_cosmos.Payload.Build.Sidecars.{
  PushesSidecars, sidecars_of, all_4844, all_7594, push-all_4844, push-all_7594, pushed-Collects,
  with_cancel-PushesSidecars,
}

module _ {Block A₁ A₂ R P₃ P₄ V₁ V₂ D C : Type 0} (f : Forms Block A₁ A₂ R P₃ P₄ V₁ V₂ D C) where
  -- The bundles of blobs of sidecars of one kind.
  abbrev pub bundle_4844 : List A₁ → V₁
  bundle_4844 [] = f.empty_v1
  bundle_4844 (a ∷ xs) = f.bundle_v1 (a ∷ xs)

  abbrev pub bundle_7594 : List A₂ → V₂
  bundle_7594 [] = f.empty_v2
  bundle_7594 (a ∷ xs) = f.bundle_v2 (a ∷ xs)

  blobs_v1-all_4844 : (xs : List A₁) → blobs_v1 f (all_4844 xs) ≡ ok (bundle_4844 xs)
  unfolding blobs_v1
  blobs_v1-all_4844 [] = refl
  blobs_v1-all_4844 (a ∷ xs) = refl

  blobs_v2-all_7594 : (xs : List A₂) → blobs_v2 f (all_7594 xs) ≡ ok (bundle_7594 xs)
  unfolding blobs_v2
  blobs_v2-all_7594 [] = refl
  blobs_v2-all_7594 (a ∷ xs) = refl

  -- The fields of versions 5 and 6 for an execution payload.
  abbrev envelope :
      {P : Type 0}
      → P
      → CosmosBuiltPayload Block (BlobSidecars A₁ A₂) R
      → List A₂
      → EnvelopeV5 P V₂ R
  envelope form p xs = record {
    execution_payload = form;
    block_value = p.fees;
    should_override_builder = false;
    blobs_bundle = bundle_7594 xs;
    execution_requests = or_none f.no_requests p.requests;
  }

  -- In which versions a payload is served whose transactions have the sidecars `ys`.
  module _ {S : Type 0} (of_4844 : A₁ → S) (of_7594 : A₂ → S) (is_osaka : Bool) (ys : List S)
      (p : CosmosBuiltPayload Block (BlobSidecars A₁ A₂) R) where
    pub data IsServed : Type 0 where
      before_osaka :
          is_osaka ≡ false
          → (xs : List A₁) → map of_4844 xs ≡ ys
          → (v₄ : EnvelopeV4 P₃ V₁ R) → try_into_v4 f p ≡ ok v₄
          → v₄.envelope_inner.blobs_bundle ≡ bundle_4844 xs
          → v₄.envelope_inner.block_value ≡ p.fees
          → IsServed
      from_osaka :
          is_osaka ≡ true
          → (xs : List A₂) → map of_7594 xs ≡ ys
          → (v₅ : EnvelopeV5 P₃ V₂ R) → try_into_v5 f p ≡ ok v₅
          → v₅.blobs_bundle ≡ bundle_7594 xs
          → v₅.block_value ≡ p.fees
          → ((bal : Bytes)
              → p.block_access_list ≡ some bal
              → (v₆ : EnvelopeV5 P₄ V₂ R) × (try_into_v6 f p ≡ ok v₆)
                × (v₆.blobs_bundle ≡ bundle_7594 xs)
                × (v₆.block_value ≡ p.fees))
          → IsServed

    serve_4844 :
        is_osaka ≡ false
        → (xs : List A₁) → map of_4844 xs ≡ ys
        → p.sidecars ≡ all_4844 xs
        → IsServed
    unfolding try_into_v3 try_into_v4
    serve_4844 e xs is_ys h =
        let v₄ : EnvelopeV4 P₃ V₁ R = record {
          execution_requests = or_none f.no_requests p.requests;
          envelope_inner = record {
            execution_payload = f.payload_v3 (f.hash p.block) p.block;
            block_value = p.fees;
            should_override_builder = false;
            blobs_bundle = bundle_4844 xs;
          };
        } in
        before_osaka e xs is_ys v₄ (rw (h, blobs_v1-all_4844 xs) refl) refl refl

    serve_7594 :
        is_osaka ≡ true → (xs : List A₂) → map of_7594 xs ≡ ys → p.sidecars ≡ all_7594 xs → IsServed
    unfolding try_into_v5 try_into_v6
    serve_7594 e xs is_ys h =
        from_osaka e xs is_ys (envelope (f.payload_v3 (f.hash p.block) p.block) p xs)
          (rw (h, blobs_v2-all_7594 xs) refl) refl refl
          (λ bal listed. (
            envelope (f.payload_v4 (f.hash p.block) p.block bal) p xs,
            rw (listed, h, blobs_v2-all_7594 xs) refl,
            refl,
            refl,
          ))

module _ {Block A₁ A₂ Rq P₃ P₄ V₁ V₂ D C : Type 0} (f : Forms Block A₁ A₂ Rq P₃ P₄ V₁ V₂ D C)
    {P S B X R Rd E : Type 0} (v : Services X Block Rq R Rd E) {of_4844 : A₁ → S}
    {of_7594 : A₂ → S} where
  -- A built payload is served as its fork asks.
  built-IsServed :
      (o : Source P S (BlobSidecars A₁ A₂) B X E)
      → PushesSidecars o of_4844 of_7594
      → (g : Context R) (is_better : ℕ → Bool) (job : Option (Option R)) (best : B) (x : X)
        {p : CosmosBuiltPayload Block (BlobSidecars A₁ A₂) Rq} {reads : Rd}
      → (b : IsBuilt v g empty o is_better job best x p reads)
      → IsServed f of_4844 of_7594 g.is_osaka (sidecars_of b.entries) p
  unfolding limits_of is_of_fork
  built-IsServed o u g is_better job best x {p} b = elim (Bool-cases g.is_osaka) [
    | inl osaka ↦
        let (xs, is_ys, collected) =
          pushed-Collects o (limits_of g) empty of_7594 all_7594 refl (push-all_7594 u)
            (λ s right. u.known_7594 s (rw osaka at right)) b.entries b.account.entries in
        serve_7594 f of_4844 of_7594 g.is_osaka _ p osaka xs is_ys (b.bundled.sidecars ∙ collected)
    | inr before ↦
        let (xs, is_ys, collected) =
          pushed-Collects o (limits_of g) empty of_4844 all_4844 refl (push-all_4844 u)
            (λ s right. u.known_4844 s (rw before at right)) b.entries b.account.entries in
        serve_4844 f of_4844 of_7594 g.is_osaka _ p before xs is_ys (b.bundled.sidecars ∙ collected)
  ]

module _ {W R C Rd St Db X D E P S B Block A₁ A₂ Rq P₃ P₄ V₁ V₂ G H : Type 0}
    (config : BuilderConfig) (forks : Forks) (w : Openers W R C Rd St Db X D E)
    (v : Services X Block Rq R Rd E)
    (is_better_payload : Option (CosmosBuiltPayload Block (BlobSidecars A₁ A₂) Rq) → ℕ → Bool)
    (o : Source P S (BlobSidecars A₁ A₂) B X E) (best_txs : ℕ → Option ℕ → B) (fuel : ℕ)
    (args : BuildArguments W R C Rd (CosmosBuiltPayload Block (BlobSidecars A₁ A₂) Rq))
    (f : Forms Block A₁ A₂ Rq P₃ P₄ V₁ V₂ G H) {of_4844 : A₁ → S} {of_7594 : A₂ → S}
    (u : PushesSidecars o of_4844 of_7594) where
  -- If upstream's collection of sidecars appends each to those of its kind, and a sidecar is of the
  -- kind that its test says, a payload that is returned is always served: before Osaka in version 4,
  -- which holds version 3, and from Osaka on in version 5, and in version 6 too if it has a block
  -- access list. The blobs that are served are the pool's sidecars of the transactions that were
  -- taken, in the order of the block, and the value is the payload's fees.
  pub try_build-IsServed :
      {p : CosmosBuiltPayload Block (BlobSidecars A₁ A₂) Rq} {reads : Rd}
      → try_build config forks w v empty is_better_payload o best_txs fuel args
        ≡ returned (ok (better p reads))
      → (on : IsBuiltOn config forks w v empty is_better_payload o best_txs fuel args p reads)
        × IsServed f of_4844 of_7594
            (forks.is_osaka args.attributes.timestamp)
            (sidecars_of on.built.entries)
            p
  unfolding context_of
  try_build-IsServed h =
      let on = try_build-IsBuilt config forks w v empty is_better_payload o best_txs fuel args h in
      (
        on,
        built-IsServed f v (with_cancel o args.is_cancelled)
            (with_cancel-PushesSidecars u args.is_cancelled)
            (context_of config args forks w on.opened) (is_better_payload args.best_payload)
            args.state_root_handle (best_of config args forks w best_txs on.opened)
            (with_hook w.set_state_hook args.state_root_handle on.opened) on.built,
      )
