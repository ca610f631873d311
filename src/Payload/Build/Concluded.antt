-- ===== src/Payload/Build/Concluded.antt =====
-- src/payload/builder.rs: what stands behind a payload that the code after the loop returns.
use reth_cosmos.Prelude.{
  ℕ, ◌≡◌, true, false, Bool, ◌&&◌, Option, ok, ltb, arith, inl, inr, Bool-cases, Result-cases,
}
use reth_cosmos.Payload.Builder.{Fill}
use reth_cosmos.Payload.Built.{CosmosBuiltPayload, new_payload, with_sidecars}
use reth_cosmos.Payload.Build.{
  Context, Sealed, Services, better, seal_by, bundle, bundle_result, conclude, then_some,
}

module _ {Q X Block Rq R Rd E : Type 0} (v : Services X Block Rq R Rd E) (g : Context R) where
  -- A payload with the cached reads is made of a sealed block, its fees and its sidecars, and the
  -- block is not too large.
  pub record IsBundled (sealed : Sealed Block Rq Rd) (fees : ℕ) (blobs : Q)
      (p : CosmosBuiltPayload Block Q Rq) (reads : Rd) : Type 0 where
    pub block : p.block ≡ sealed.block
    pub fees_of : p.fees ≡ fees
    pub sidecars : p.sidecars ≡ blobs
    pub requests : p.requests ≡ then_some g.is_prague sealed.requests
    pub access_list : p.block_access_list ≡ sealed.block_access_list
    pub cached : reads ≡ sealed.cached_reads
    pub fits : (g.is_osaka && ltb g.max_rlp_block_size (v.rlp_length p.block)) ≡ false

module _ {Q X Block Rq R Rd E : Type 0} (v : Services X Block Rq R Rd E) (g : Context R)
    (no_blobs : Q) where
  better-IsBundled :
      (sealed : Sealed Block Rq Rd) (fees : ℕ) (blobs : Q) {p : CosmosBuiltPayload Block Q Rq}
      {reads : Rd}
      → (g.is_osaka && ltb g.max_rlp_block_size (v.rlp_length sealed.block)) ≡ false
      → bundle v g no_blobs sealed fees blobs ≡ ok (better p reads)
      → IsBundled v g sealed fees blobs p reads
  unfolding bundle new_payload with_sidecars
  better-IsBundled sealed fees blobs {p} {reads} fits h =
      let k = rw (bundle, fits) at h in
      let same : p.block ≡ sealed.block = ground arith in
      record {
        block = same;
        fees_of = ground arith;
        sidecars = ground arith;
        requests = ground arith;
        access_list = ground arith;
        cached = ground arith;
        fits = rw same fits;
      }

  bundle-IsBundled :
      (sealed : Sealed Block Rq Rd) (fees : ℕ) (blobs : Q) {p : CosmosBuiltPayload Block Q Rq}
      {reads : Rd}
      → bundle v g no_blobs sealed fees blobs ≡ ok (better p reads)
      → IsBundled v g sealed fees blobs p reads
  unfolding bundle
  bundle-IsBundled sealed fees blobs h =
      elim (Bool-cases (g.is_osaka && ltb g.max_rlp_block_size (v.rlp_length sealed.block))) [
        | inl e ↦ absurd (ground (arith, rw (bundle, e) at h))
        | inr e ↦ better-IsBundled sealed fees blobs e h
      ]

module _ {Q B X Block Rq R Rd E : Type 0} (v : Services X Block Rq R Rd E) (g : Context R)
    (no_blobs : Q) (is_better : ℕ → Bool) (job : Option (Option R)) where
  -- What stands behind a payload that the code after the loop returns.
  pub record IsConcluded (s : Fill Q B X) (p : CosmosBuiltPayload Block Q Rq) (reads : Rd)
      : Type 0 where
    pub improves : is_better s.total_fees ≡ true
    pub sealed : Sealed Block Rq Rd
    pub finished : seal_by v g g.skip_state_root job s.block ≡ ok sealed
    pub bundled : IsBundled v g sealed s.total_fees s.blob_sidecars p reads

  pub conclude-IsConcluded :
      (s : Fill Q B X) {p : CosmosBuiltPayload Block Q Rq} {reads : Rd}
      → conclude v g no_blobs is_better job s ≡ ok (better p reads)
      → IsConcluded s p reads
  unfolding conclude bundle_result
  conclude-IsConcluded s h = elim (Bool-cases (is_better s.total_fees)) [
    | inr worse ↦ absurd (ground (arith, rw (conclude, worse) at h))
    | inl improves ↦ elim (Result-cases (seal_by v g g.skip_state_root job s.block)) [
      | inr (e, fin) ↦ absurd (ground (arith, rw (conclude, improves, fin) at h))
      | inl (sealed, fin) ↦ record {
        improves = improves;
        sealed = sealed;
        finished = fin;
        bundled =
            bundle-IsBundled v g no_blobs sealed s.total_fees s.blob_sidecars
              (rw (conclude, improves, fin) at h);
      }
    ]
  ]
