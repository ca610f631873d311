-- ===== src/Payload/Builder/Bounds.antt =====
-- src/payload/builder.rs: a filled block keeps within the limits.
use reth_cosmos.Prelude.{
  ℕ, zero, suc, ◌≤◌, ◌≡◌, refl, subst, ◌⊎◌, inl, inr, Option, none, some, arith,
}
use reth_cosmos.Payload.Builder.{
  Source, Limits, Fill, Round, continue, cancelled, panicked, stopped, Filled, filled, account,
  round, after_round, take_next, fill,
}
use reth_cosmos.Payload.Builder.Rounds.{IsSame, BlobsFit, within, IsIncluded}
use reth_cosmos.Payload.Builder.Rounds.Cases.{round-IsSame_or_IsIncluded}

module _ {P S Q B X E : Type 0} (o : Source P S Q B X E) (g : Limits) where
  account_blobs :
      (s t : Fill Q B X) (p : P) (tip gas state_gas regular : ℕ) (blobs : Option (ℕ × S))
      → IsSame o g s t
      → BlobsFit o g s p blobs
      → s.block_blob_count ≤ g.max_blob_count
      → (account o g t p tip blobs gas state_gas regular).block_blob_count ≤ g.max_blob_count
  unfolding account
  account_blobs s t p tip gas state_gas regular none same fit small = rw same.blobs small
  account_blobs s t p tip gas state_gas regular (some (n, sidecar)) same
        (within _ _ found e fits got chosen) small =
      rw same.blobs fits

  keep_blobs :
      (s s' : Fill Q B X) (p : P)
      → IsSame o g s s' ⊎ IsIncluded o g s p s'
      → s.block_blob_count ≤ g.max_blob_count
      → s'.block_blob_count ≤ g.max_blob_count
  keep_blobs s s' p (inl same) small = rw same.blobs small
  keep_blobs s s' p (inr i) small =
      rw i.result
        (account_blobs s i.t p i.tip i.gas i.state_gas i.regular i.blobs i.same i.blobs_fit small)

  pub filled-injective : {s t : Fill Q B X} → ◌≡◌ {A = Filled Q B X E} (filled s) (filled t) → s ≡ t
  filled-injective h = cc

  -- What every round keeps, the loop keeps.
  module _ {ℓ} (I : Fill Q B X → Type ℓ)
      (keep : (s s' : Fill Q B X) (p : P)
        → IsSame o g s s' ⊎ IsIncluded o g s p s'
        → I s
        → I s') where
    after_round-inv :
        (loop : Fill Q B X → Filled Q B X E) (s s' : Fill Q B X) (p : P) (r : Round Q B X E)
        → ((t : Fill Q B X) → r ≡ continue t → I t)
        → ((t : Fill Q B X) → loop t ≡ filled s' → I t → I s')
        → after_round o g loop r ≡ filled s'
        → I s'
    unfolding after_round
    after_round-inv loop s s' p (continue t) kept rest h = rest t h (kept t refl)
    after_round-inv loop s s' p cancelled kept rest h = absurd (ground arith)
    after_round-inv loop s s' p panicked kept rest h = absurd (ground arith)
    after_round-inv loop s s' p (stopped x) kept rest h = absurd (ground arith)

    take_next-inv :
        (loop : Fill Q B X → Filled Q B X E) (s s' : Fill Q B X) (found : Option (P × B))
        → I s
        → ((t : Fill Q B X) → loop t ≡ filled s' → I t → I s')
        → take_next o g loop s found ≡ filled s'
        → I s'
    unfolding take_next
    take_next-inv loop s s' none i rest h = subst I (filled-injective h) i
    take_next-inv loop s s' (some (p, left)) i rest h =
        after_round-inv loop s s' p (round o g s p left)
          (λ t e. keep s t p (round-IsSame_or_IsIncluded o g s t p left e) i) rest h

    pub fill_inv : (fuel : ℕ) (s s' : Fill Q B X) → fill o g fuel s ≡ filled s' → I s → I s'
    unfolding fill
    fill_inv zero s s' h i = absurd (ground arith)
    fill_inv (suc fuel) s s' h i =
        take_next-inv (fill o g fuel) s s' (o.next s.best) i (λ t k j. fill_inv fuel t s' k j) h

  -- A block that is filled from one whose blobs are within the limit has no more blobs than the
  -- limit.
  pub fill-blobs :
      (fuel : ℕ) (s s' : Fill Q B X)
      → s.block_blob_count ≤ g.max_blob_count
      → fill o g fuel s ≡ filled s'
      → s'.block_blob_count ≤ g.max_blob_count
  fill-blobs fuel s s' small h =
      fill_inv (λ t. t.block_blob_count ≤ g.max_blob_count) keep_blobs fuel s s' h small
