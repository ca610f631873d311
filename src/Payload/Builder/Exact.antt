-- ===== src/Payload/Builder/Exact.antt =====
-- src/payload/builder.rs: the fees and the gas of a block do not wrap around.
use reth_cosmos.Prelude.{
  ℕ, ◌-◌, ◌*◌, ◌^◌, ◌≤◌, ◌<◌, ◌≡◌, ap, ◌⊎◌, inl, inr, false, some, none, List, [], ◌∷◌, arith, All,
}
use native.Mathlib.Nat.{mul-le-mul_right}
use reth_cosmos.Payload.Builder.{Source, Limits, Fill, filled, exceeds, fill}
use reth_cosmos.Payload.Builder.Rounds.{IsSame, IsIncluded}
use reth_cosmos.Payload.Builder.Bounds.{fill_inv}
use reth_cosmos.Payload.Builder.Gas.{IsMetered}
use reth_cosmos.Payload.Builder.Totals.{
  Entry, IsEntry, IsAccount, total, fee_of, same-IsAccount, included-IsAccount,
}

module _ {P S Q B X E : Type 0} (o : Source P S Q B X E) (g : Limits) (empty : Q)
    (m : IsMetered o g) (small : g.block_gas_limit < 2 ^ 64) (before : g.is_amsterdam ≡ false)
    (tip_small : (p : P) (tip : ℕ) → o.effective_tip p g.base_fee ≡ some tip → tip < 2 ^ 128) where
  abbrev gas_of : List (Entry P S) → ℕ
  gas_of xs = total (λ (x : Entry P S). x.gas) xs

  -- The gas of the transactions is within the block's limit as a number, not only as a word.
  abbrev Fits : Fill Q B X → Type 0
  Fits s = (xs : List (Entry P S)) × IsAccount o g empty xs s × (gas_of xs ≤ g.block_gas_limit)

  room_left :
      (s : Fill Q B X) (p : P)
      → exceeds o g s p ≡ none
      → o.gas_limit p ≤ g.block_gas_limit - s.cumulative_tx_gas_used
  unfolding exceeds
  room_left s p h = ground (arith, rw before at h)

  entry-gas : (x : Entry P S) → IsEntry o g empty x → x.gas ≤ o.gas_limit x.tx
  entry-gas x e = (m.gas_le x.tx e.before e.after x.gas x.state_gas x.regular e.ran).0

  keep_Fits :
      (s s' : Fill Q B X) (p : P) → IsSame o g s s' ⊎ IsIncluded o g s p s' → Fits s → Fits s'
  unfolding total
  keep_Fits s s' p (inl same) (xs, a, h) = (xs, same-IsAccount o g empty s s' xs same a, h)
  keep_Fits s s' p (inr i) (xs, a, h) =
      let (x, is_p, b) = included-IsAccount o g empty s s' p xs i a in
      (
        x ∷ xs,
        b,
        omega (
          arith,
          a.cumulative,
          room_left s p i.gas_fits,
          entry-gas x b.entries.0,
          ap o.gas_limit is_p,
        ),
      )

  fee-le : (tip gas : ℕ) → tip < 2 ^ 128 → tip * gas ≤ 2 ^ 128 * gas
  fee-le tip gas h = mul-le-mul_right gas (omega arith)

  fees-le :
      (xs : List (Entry P S)) → All (IsEntry o g empty) xs → total fee_of xs ≤ 2 ^ 128 * gas_of xs
  unfolding total fee_of
  fees-le [] h = omega arith
  fees-le (x ∷ xs) h =
      omega (arith, fee-le x.tip x.gas (tip_small x.tx x.tip h.0.priced), fees-le xs h.1)

  -- Before Amsterdam, if no execution uses more gas than the transaction's limit, the block's limit
  -- is a 64-bit number and every tip a 128-bit number, a block that is filled from nothing has the
  -- fees and the gas of its transactions as exact sums, which never wrap around, and the gas is
  -- within the block's limit.
  pub fill-exact :
      (fuel : ℕ) (s s' : Fill Q B X)
      → IsAccount o g empty [] s
      → fill o g fuel s ≡ filled s'
      → (xs : List (Entry P S)) × IsAccount o g empty xs s'
        × (s'.total_fees ≡ total fee_of xs)
        × (s'.cumulative_tx_gas_used ≡ gas_of xs)
        × (gas_of xs ≤ g.block_gas_limit)
  unfolding total
  fill-exact fuel s s' nothing h =
      let (xs, a, fits) = fill_inv o g Fits keep_Fits fuel s s' h ([], nothing, omega arith) in
      (xs, a, omega (arith, a.fees, fees-le xs a.entries), omega (arith, a.cumulative), fits)
