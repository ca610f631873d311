-- ===== src/Payload/Builder/Gas.antt =====
-- src/payload/builder.rs: the gas of a filled block is within the block's limit.
use reth_cosmos.Prelude.{
  ℕ, ◌^◌, ◌≤◌, ◌<◌, ◌≡◌, refl, ◌⊎◌, inl, inr, Bool, true, false, Option, none, some, arith, min,
}
use reth_cosmos.Payload.Builder.{executed, Source, Limits, Fill, filled, exceeds, account, fill}
use reth_cosmos.Payload.Builder.Rounds.{IsSame, IsIncluded}
use reth_cosmos.Payload.Builder.Bounds.{fill_inv}

-- What the EVM promises: a transaction uses at most its gas limit, of regular gas also at most the
-- cap.
pub record IsMetered {P S Q B X E : Type 0} (o : Source P S Q B X E) (g : Limits) : Type 0 where
  pub gas_le :
      (p : P) (x x' : X) (gas state_gas regular : ℕ)
      → o.execute p x ≡ (x', executed gas state_gas regular)
      → (gas ≤ o.gas_limit p)
        × (state_gas ≤ o.gas_limit p)
        × (regular ≤ min (o.gas_limit p) g.tx_gas_limit_cap)

-- The gas counters that the fork limits: regular and state gas from Amsterdam on, before it the
-- transactions' gas.
abbrev pub GasFits : {Q B X : Type 0} → Limits → Bool → Fill Q B X → Type 0
GasFits g true s =
    (s.block_regular_gas_used ≤ g.block_gas_limit) × (s.block_state_gas_used ≤ g.block_gas_limit)
GasFits g false s = s.cumulative_tx_gas_used ≤ g.block_gas_limit

module _ {P S Q B X E : Type 0} (o : Source P S Q B X E) (g : Limits) (m : IsMetered o g)
    (small : g.block_gas_limit < 2 ^ 64) where
  account_gas :
      (fork : Bool) (s t : Fill Q B X) (p : P) (tip gas state_gas regular : ℕ)
      (blobs : Option (ℕ × S)) (x x' : X)
      → g.is_amsterdam ≡ fork
      → IsSame o g s t
      → exceeds o g s p ≡ none
      → o.execute p x ≡ (x', executed gas state_gas regular)
      → GasFits g fork s
      → GasFits g fork (account o g t p tip blobs gas state_gas regular)
  unfolding exceeds account
  account_gas true s t p tip gas state_gas regular none x x' e same room ran h =
      ground (arith, m.gas_le p x x' gas state_gas regular ran, rw e at room)
  account_gas true s t p tip gas state_gas regular (some b) x x' e same room ran h =
      ground (arith, m.gas_le p x x' gas state_gas regular ran, rw e at room)
  account_gas false s t p tip gas state_gas regular none x x' e same room ran h =
      ground (arith, m.gas_le p x x' gas state_gas regular ran, rw e at room)
  account_gas false s t p tip gas state_gas regular (some b) x x' e same room ran h =
      ground (arith, m.gas_le p x x' gas state_gas regular ran, rw e at room)

  IsSame-GasFits :
      (fork : Bool) (s s' : Fill Q B X) → IsSame o g s s' → GasFits g fork s → GasFits g fork s'
  IsSame-GasFits true s s' same h = omega (arith, same.regular, same.state_gas)
  IsSame-GasFits false s s' same h = omega (arith, same.cumulative)

  keep_gas :
      (s s' : Fill Q B X) (p : P)
      → IsSame o g s s' ⊎ IsIncluded o g s p s'
      → GasFits g g.is_amsterdam s
      → GasFits g g.is_amsterdam s'
  keep_gas s s' p (inl same) h = IsSame-GasFits g.is_amsterdam s s' same h
  keep_gas s s' p (inr i) h = rw i.result (
      account_gas g.is_amsterdam s i.t p i.tip i.gas i.state_gas i.regular i.blobs s.block i.after
        refl i.same i.gas_fits i.ran h)

  -- If no execution uses more gas than the transaction's limits and the block's limit is a 64-bit
  -- number, a block that is filled from one within the gas limit is within it, on either side of
  -- the Amsterdam fork.
  pub fill-gas :
      (fuel : ℕ) (s s' : Fill Q B X)
      → GasFits g g.is_amsterdam s
      → fill o g fuel s ≡ filled s'
      → GasFits g g.is_amsterdam s'
  fill-gas fuel s s' h e = fill_inv o g (GasFits g g.is_amsterdam) keep_gas fuel s s' e h
