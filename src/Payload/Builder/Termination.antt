-- ===== src/Payload/Builder/Termination.antt =====
-- src/payload/builder.rs: the loop ends when the pool's iterator does.
use native.Mathlib.Nat.{le_refl}
use reth_cosmos.Prelude.{
  inl, inr, ℕ, zero, suc, ◌≤◌, ◌<◌, ◌≡◌, ◌≢◌, refl, Option, none, some, arith,
}
use reth_cosmos.Payload.Builder.Rounds.{
  IsBlocked, over_gas, too_large, over_blobs, bad_sidecar, nonce_low, invalid, out_of_gas,
}
use reth_cosmos.Payload.Builder.Rounds.Cases.{round-cases}
use reth_cosmos.Payload.Builder.Rounds.Executed.{Outcome}
use reth_cosmos.Payload.Builder.{
  account, Reason, Source, Limits, Fill, Round, continue, cancelled, panicked, stopped, Filled,
  out_of_fuel, round, after_round, take_next, fill,
}

-- The iterator holds finitely many transactions: `next` takes one away, and marking or skipping
-- adds none.
pub record IsFinite {P S Q B X E : Type 0} (o : Source P S Q B X E) : Type 0 where
  pub remaining : B → ℕ
  pub next_takes :
      (b : B) (p : P) (rest : B) → o.next b ≡ some (p, rest) → remaining rest < remaining b
  pub mark_keeps : (p : P) (r : Reason) (b : B) → remaining (o.mark_invalid p r b) ≤ remaining b
  pub skip_keeps : (b : B) → remaining (o.skip_blobs b) ≤ remaining b

module _ {P S Q B X E : Type 0} (o : Source P S Q B X E) (g : Limits) (f : IsFinite o) where
  IsBlocked-remaining :
      {s : Fill Q B X} {p : P} {rest b : B} {x : X}
      → IsBlocked o g s p rest b x
      → f.remaining b ≤ f.remaining rest
  IsBlocked-remaining {p = p} {rest = rest} (over_gas limit available e) = f.mark_keeps p _ rest
  IsBlocked-remaining {p = p} {rest = rest} (too_large e) = f.mark_keeps p _ rest
  IsBlocked-remaining {p = p} {rest = rest} (over_blobs n e h) = f.mark_keeps p _ rest
  IsBlocked-remaining {p = p} {rest = rest} (bad_sidecar n found r e k h) = f.mark_keeps p r rest
  IsBlocked-remaining {rest = rest} (nonce_low x e) = le_refl (f.remaining rest)
  IsBlocked-remaining {p = p} {rest = rest} (invalid x e) = f.mark_keeps p _ rest
  IsBlocked-remaining {p = p} {rest = rest} (out_of_gas x limit available e) = f.mark_keeps p _ rest

  account-remaining :
      (t : Fill Q B X) (p : P) (tip : ℕ) (blobs : Option (ℕ × S)) (gas state_gas regular : ℕ)
      → f.remaining (account o g t p tip blobs gas state_gas regular).best ≤ f.remaining t.best
  unfolding account
  account-remaining t p tip none gas state_gas regular = le_refl (f.remaining t.best)
  account-remaining t p tip (some (n, sidecar)) gas state_gas regular =
      ground (arith, f.skip_keeps t.best)

  Outcome-remaining :
      (s s' : Fill Q B X) (p : P) (rest : B)
      → Outcome o g s p rest s'
      → f.remaining s'.best ≤ f.remaining rest
  Outcome-remaining s s' p rest (inl (same, blocked)) = IsBlocked-remaining blocked
  Outcome-remaining s s' p rest (inr (i, left)) =
      let kept = account-remaining i.t p i.tip i.blobs i.gas i.state_gas i.regular in
      rw (i.result, ← left) kept

  after_round-total :
      (loop : Fill Q B X → Filled Q B X E) (n : ℕ) (r : Round Q B X E)
      → ((t : Fill Q B X) → r ≡ continue t → f.remaining t.best ≤ n)
      → ((t : Fill Q B X) → f.remaining t.best ≤ n → loop t ≢ out_of_fuel)
      → after_round o g loop r ≢ out_of_fuel
  unfolding after_round
  after_round-total loop n (continue t) h rest = rest t (h t refl)
  after_round-total loop n cancelled h rest = λ e. ground arith
  after_round-total loop n panicked h rest = λ e. ground arith
  after_round-total loop n (stopped x) h rest = λ e. ground arith

  take_next-total :
      (loop : Fill Q B X → Filled Q B X E) (s : Fill Q B X) (n : ℕ) (found : Option (P × B))
      → o.next s.best ≡ found
      → f.remaining s.best < suc n
      → ((t : Fill Q B X) → f.remaining t.best < n → loop t ≢ out_of_fuel)
      → take_next o g loop s found ≢ out_of_fuel
  unfolding take_next
  take_next-total loop s n none e h rest = λ x. ground arith
  take_next-total loop s n (some (p, left)) e h rest =
      let fewer = f.next_takes s.best p left e in
      after_round-total loop (f.remaining left) (round o g s p left)
        (λ t k. Outcome-remaining s t p left (round-cases o g s t p left k))
        (λ t small. rest t (omega arith))

  -- If the pool's iterator holds finitely many transactions, one round of fuel for each and one
  -- more are enough: the loop then ends with a filled block, a cancellation, an error or the panic
  -- of the fee.
  pub fill-total :
      (fuel : ℕ) (s : Fill Q B X) → f.remaining s.best < fuel → fill o g fuel s ≢ out_of_fuel
  unfolding fill
  fill-total zero s h = absurd (omega arith)
  fill-total (suc fuel) s h =
      take_next-total (fill o g fuel) s fuel (o.next s.best) refl h
        (λ t small. fill-total fuel t small)
