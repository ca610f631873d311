-- ===== src/Payload/Builder/Rounds/Cases.antt =====
-- src/payload/builder.rs: each round of the loop does one of these.
use reth_cosmos.Prelude.{
  ℕ, ◌+◌, ◌≤◌, ◌≡◌, refl, ◌⊎◌, inl, inr, false, ◌&&◌, Option, none, some, Result, ok, err,
  Bool-cases, arith, ltb, ltb→ge, ltb→lt,
}
use reth_cosmos.Payload.Builder.{
  Reason, Source, Limits, add64, Fill, continue, cancelled, exceeds, choose_sidecar, with_sidecar,
  fetch_sidecar, blob_stage, estimate, size_stage, gas_stage, round,
}
use reth_cosmos.Payload.Builder.Rounds.Executed.{Outcome, mark-Outcome, execute_stage-Outcome}
use reth_cosmos.Payload.Builder.Rounds.{
  IsSame, without, within, IsIncluded, over_gas, too_large, over_blobs, bad_sidecar,
}

module _ {P S Q B X E : Type 0} (o : Source P S Q B X E) (g : Limits) where
  module _ (s : Fill Q B X) (p : P) (gas_fits : exceeds o g s p ≡ none)
      (size_fits : (g.is_osaka && ltb g.max_rlp_block_size (estimate o g s p)) ≡ false)
      (rest : B) where
    -- The stages behind the checks on gas and size, at the state with another iterator and count.
    module _ (polls : ℕ) where
      at : Fill Q B X
      at = record s { best = rest; polls = polls }

      at-IsSame : IsSame o g s at
      unfolding at
      at-IsSame = ground arith

      at-block : at.block ≡ s.block
      unfolding at
      at-block = refl

      at-best : at.best ≡ rest
      unfolding at
      at-best = refl

      sidecar-Outcome :
          (s' : Fill Q B X) (n : ℕ) (found : Option S) (r : Result Reason S)
          → o.blob_count p ≡ some n
          → add64 s.block_blob_count n ≤ g.max_blob_count
          → o.get_blob (o.tx_hash p) ≡ ok found
          → choose_sidecar o g found ≡ r
          → with_sidecar o g at p n r ≡ continue s'
          → Outcome o g s p rest s'
      unfolding with_sidecar
      sidecar-Outcome s' n found (ok sidecar) e fits got chosen h =
          execute_stage-Outcome o g s p gas_fits size_fits rest at s' (some (n, sidecar)) at-IsSame
            at-block at-best (within n sidecar found e fits got chosen) h
      sidecar-Outcome s' n found (err r) e fits got chosen h =
          mark-Outcome o g s at p rest r s.block at-IsSame at-best at-block
            (bad_sidecar n found r e got chosen) h

      fetch-Outcome :
          (s' : Fill Q B X) (n : ℕ) (r : Result E (Option S))
          → o.blob_count p ≡ some n
          → add64 s.block_blob_count n ≤ g.max_blob_count
          → o.get_blob (o.tx_hash p) ≡ r
          → fetch_sidecar o g at p n r ≡ continue s'
          → Outcome o g s p rest s'
      unfolding fetch_sidecar
      fetch-Outcome s' n (ok found) e fits got h =
          sidecar-Outcome s' n found (choose_sidecar o g found) e fits got refl h
      fetch-Outcome s' n (err x) e fits got h = absurd (ground arith)

      blob_stage-Outcome :
          (s' : Fill Q B X) (count : Option ℕ)
          → o.blob_count p ≡ count
          → blob_stage o g at p count ≡ continue s'
          → Outcome o g s p rest s'
      unfolding blob_stage at
      blob_stage-Outcome s' none e h =
          execute_stage-Outcome o g s p gas_fits size_fits rest at s' none at-IsSame at-block
            at-best (without e) h
      blob_stage-Outcome s' (some n) e h =
          elim (Bool-cases (ltb g.max_blob_count (add64 s.block_blob_count n))) [
            | inl over ↦
                mark-Outcome o g s at p rest _ s.block at-IsSame at-best at-block
                  (over_blobs n e (ltb→lt _ _ over)) (rw over at h)
            | inr fits ↦
                fetch-Outcome s' n (o.get_blob (o.tx_hash p)) e (ltb→ge _ _ fits) refl
                  (rw fits at h)
          ]

  size_stage-Outcome :
      (s s' : Fill Q B X) (p : P) (rest : B) (polls : ℕ)
      → exceeds o g s p ≡ none
      → size_stage o g (record s { best = rest; polls = polls }) p ≡ continue s'
      → Outcome o g s p rest s'
  unfolding size_stage estimate at
  size_stage-Outcome s s' p rest polls e h =
      elim (Bool-cases (g.is_osaka && ltb g.max_rlp_block_size (estimate o g s p))) [
        | inl over ↦
            mark-Outcome o g s (record s { best = rest; polls = polls }) p rest _ s.block
              (ground arith) refl refl (too_large over) (rw over at h)
        | inr fits ↦
            blob_stage-Outcome s p e fits rest polls s' (o.blob_count p) refl (rw fits at h)
      ]

  gas_stage-Outcome :
      (s s' : Fill Q B X) (p : P) (rest : B) (over : Option (ℕ × ℕ))
      → exceeds o g s p ≡ over
      → gas_stage o g (record s { best = rest }) p over ≡ continue s'
      → Outcome o g s p rest s'
  unfolding gas_stage
  gas_stage-Outcome s s' p rest (some (limit, available)) e h =
      mark-Outcome o g s (record s { best = rest }) p rest _ s.block (ground arith) refl refl
        (over_gas limit available e) h
  gas_stage-Outcome s s' p rest none e h = elim (Bool-cases (o.is_cancelled s.polls)) [
    | inl asked ↦ let impossible : cancelled ≡ continue s' = rw asked at h in absurd (ground arith)
    | inr on ↦ size_stage-Outcome s s' p rest (s.polls + 1) e (rw on at h)
  ]

  -- A round that goes on has passed its transaction over for one of the reasons, with the accounts
  -- unchanged, or has included it after every check.
  pub round-cases :
      (s s' : Fill Q B X) (p : P) (rest : B)
      → round o g s p rest ≡ continue s'
      → Outcome o g s p rest s'
  unfolding round
  round-cases s s' p rest h = gas_stage-Outcome s s' p rest (exceeds o g s p) refl h

  pub round-IsSame_or_IsIncluded :
      (s s' : Fill Q B X) (p : P) (rest : B)
      → round o g s p rest ≡ continue s'
      → IsSame o g s s' ⊎ IsIncluded o g s p s'
  round-IsSame_or_IsIncluded s s' p rest h = elim (round-cases s s' p rest h) [
    | inl (same, blocked) ↦ inl same
    | inr (included, left) ↦ inr included
  ]
