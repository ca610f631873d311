-- ===== src/Payload/Builder/Size.antt =====
-- src/payload/builder.rs: from Osaka on, the estimated size of a filled block is within the limit.
use reth_cosmos.Prelude.{
  ℕ, ◌+◌, ◌^◌, ◌≤◌, ◌<◌, ◌≡◌, ◌⊎◌, inl, inr, true, false, ◌&&◌, Option, none, some, arith, ltb,
}
use reth_cosmos.Payload.Builder.{Source, Limits, Fill, filled, estimate, account, fill}
use reth_cosmos.Payload.Builder.Rounds.{IsSame, IsIncluded}
use reth_cosmos.Payload.Builder.Bounds.{fill_inv}

-- Either nothing is in the block, or its transactions, withdrawals and header fit.
abbrev pub SizeFits : {Q B X : Type 0} → Limits → Fill Q B X → Type 0
SizeFits g s =
    (s.block_transactions_rlp_length ≡ 0)
    ⊎ (s.block_transactions_rlp_length + g.withdrawals_rlp_length + 1024 ≤ g.max_rlp_block_size)

module _ {P S Q B X E : Type 0} (o : Source P S Q B X E) (g : Limits) (osaka : g.is_osaka ≡ true)
    (limit_small : g.max_rlp_block_size < 2 ^ 62)
    (withdrawals_small : g.withdrawals_rlp_length < 2 ^ 62)
    (tx_small : (p : P) → o.rlp_length p < 2 ^ 62) where
  account_size :
      (s t : Fill Q B X) (p : P) (tip gas state_gas regular : ℕ) (blobs : Option (ℕ × S))
      → IsSame o g s t
      → (g.is_osaka && ltb g.max_rlp_block_size (estimate o g s p)) ≡ false
      → SizeFits g s
      → SizeFits g (account o g t p tip blobs gas state_gas regular)
  unfolding account estimate
  account_size s t p tip gas state_gas regular none same room h =
      inr (ground (arith, tx_small p, rw osaka at room))
  account_size s t p tip gas state_gas regular (some b) same room h =
      inr (ground (arith, tx_small p, rw osaka at room))

  keep_size :
      (s s' : Fill Q B X) (p : P)
      → IsSame o g s s' ⊎ IsIncluded o g s p s'
      → SizeFits g s
      → SizeFits g s'
  keep_size s s' p (inl same) h = rw same.rlp h
  keep_size s s' p (inr i) h =
      rw i.result
        (account_size s i.t p i.tip i.gas i.state_gas i.regular i.blobs i.same i.size_fits h)

  -- From Osaka on, a block that is filled from one without transactions or within the maximal size
  -- is such a one: either it has no bytes of transactions, or these with the withdrawals and 1024
  -- bytes for the header are within the maximal size, given that this size, the withdrawals and
  -- every single transaction are smaller than 2 ^ 62 bytes.
  pub fill-size :
      (fuel : ℕ) (s s' : Fill Q B X) → SizeFits g s → fill o g fuel s ≡ filled s' → SizeFits g s'
  fill-size fuel s s' h e = fill_inv o g (SizeFits g) keep_size fuel s s' e h
