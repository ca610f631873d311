-- ===== src/Payload/Build/Data.antt =====
-- src/payload/builder.rs, src/payload/built.rs and src/payload/engine.rs: the execution data of a
-- payload that was built.
use reth_cosmos.Prelude.{
  ℕ, ◌≡◌, refl, Bool, true, false, inl, inr, Option, none, some, Bytes, ok, Option-cases,
}
use reth_cosmos.Payload.Builder.{Source}
use reth_cosmos.Payload.Built.{
  BlobSidecars, CosmosBuiltPayload, Forms, into_execution_data, data_sidecar,
}
use reth_cosmos.Payload.Engine.{block_to_payload}
use reth_cosmos.Payload.Build.{then_some, Services, better, returned}
use reth_cosmos.Payload.Build.Opening.{BuilderConfig, BuildArguments, Forks, Openers, context_of}
use reth_cosmos.Payload.Build.Setup.{IsBuiltOn, try_build, try_build-IsBuilt}

module _ {Block A₁ A₂ R P₃ P₄ V₁ V₂ D C : Type 0} (f : Forms Block A₁ A₂ R P₃ P₄ V₁ V₂ D C) where
  -- The execution data that the Engine API gives of the block alone.
  abbrev pub of_block : CosmosBuiltPayload Block (BlobSidecars A₁ A₂) R → D × C
  of_block p = block_to_payload f.hash (λ b. b) f.with_extras p.block p.block_access_list

  -- The execution data of a payload, whose block was sealed with the requests `r`.
  pub data IsDataOf (is_prague : Bool) (r : R) (p : CosmosBuiltPayload Block (BlobSidecars A₁ A₂) R)
      : Type 0 where
    of_its_block : is_prague ≡ false → into_execution_data f p ≡ of_block p → IsDataOf is_prague r p
    without_root :
        is_prague ≡ true
        → f.parent_beacon_block_root p.block ≡ none
        → into_execution_data f p ≡ of_block p
        → IsDataOf is_prague r p
    with_requests :
        (root : Bytes)
        → is_prague ≡ true
        → f.parent_beacon_block_root p.block ≡ some root
        → into_execution_data f p
          ≡ ((of_block p).0, f.sidecar_v4 root (f.versioned_hashes p.block) r)
        → IsDataOf is_prague r p

  into_execution_data-IsDataOf :
      (is_prague : Bool) (r : R) (p : CosmosBuiltPayload Block (BlobSidecars A₁ A₂) R)
      → p.requests ≡ then_some is_prague r
      → IsDataOf is_prague r p
  unfolding into_execution_data data_sidecar block_to_payload then_some
  into_execution_data-IsDataOf false r p h = of_its_block refl (rw h refl)
  into_execution_data-IsDataOf true r p h =
      elim (Option-cases (f.parent_beacon_block_root p.block)) [
        | inl e ↦ without_root refl e (rw (h, e) refl)
        | inr (root, e) ↦ with_requests root refl e (rw (h, e) refl)
      ]

module _ {W R C Rd St Db X D E P S B Block A₁ A₂ Rq P₃ P₄ V₁ V₂ G H : Type 0}
    (config : BuilderConfig) (forks : Forks) (w : Openers W R C Rd St Db X D E)
    (v : Services X Block Rq R Rd E) (no_blobs : BlobSidecars A₁ A₂)
    (is_better_payload : Option (CosmosBuiltPayload Block (BlobSidecars A₁ A₂) Rq) → ℕ → Bool)
    (o : Source P S (BlobSidecars A₁ A₂) B X E) (best_txs : ℕ → Option ℕ → B) (fuel : ℕ)
    (args : BuildArguments W R C Rd (CosmosBuiltPayload Block (BlobSidecars A₁ A₂) Rq))
    (f : Forms Block A₁ A₂ Rq P₃ P₄ V₁ V₂ G H) where
  -- The execution data of a payload that is returned is the one that `block_to_payload` makes of its
  -- block and its access list, unless Prague is active at the requested timestamp and the block names
  -- the parent's beacon root: then it has the same payload, and a sidecar with this root, the block's
  -- versioned hashes and the requests of the execution.
  pub try_build-IsDataOf :
      {p : CosmosBuiltPayload Block (BlobSidecars A₁ A₂) Rq} {reads : Rd}
      → try_build config forks w v no_blobs is_better_payload o best_txs fuel args
        ≡ returned (ok (better p reads))
      → (on : IsBuiltOn config forks w v no_blobs is_better_payload o best_txs fuel args p reads)
        × IsDataOf f (forks.is_prague args.attributes.timestamp) on.built.sealed.requests p
  unfolding context_of
  try_build-IsDataOf {p} h =
      let on =
        try_build-IsBuilt config forks w v no_blobs is_better_payload o best_txs fuel args h in
      (
        on,
        into_execution_data-IsDataOf f (forks.is_prague args.attributes.timestamp)
            on.built.sealed.requests p on.built.bundled.requests,
      )
