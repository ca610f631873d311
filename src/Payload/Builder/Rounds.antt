-- ===== src/Payload/Builder/Rounds.antt =====
-- src/payload/builder.rs: what one round of the loop may do to the accounts of the block.
pub mod Executed
pub mod Cases
use reth_cosmos.Prelude.{
  ℕ, Bool, ◌+◌, ◌≤◌, ◌≡◌, refl, sym, subst, ◌⊎◌, inl, inr, true, false, ◌&&◌, Option, none, some,
  Result, ok, err, Bool-cases, arith, ltb, ◌<◌,
}
use reth_cosmos.Payload.Builder.{
  Reason, exceeds_gas_limit, oversized_data, too_many_blobs, tx_type_not_supported, Execution,
  executed, invalid_tx, gas_unavailable, failed, Source, Limits, add64, Fill, Round, continue,
  cancelled, exceeds, mark, account, settle, execute_stage, choose_sidecar, with_sidecar,
  fetch_sidecar, blob_stage, estimate, size_stage, gas_stage, round,
}

module _ {P S Q B X E : Type 0} (o : Source P S Q B X E) (g : Limits) where
  -- A round that includes no transaction leaves the accounts as they were.
  pub record IsSame (s s' : Fill Q B X) : Type 0 where
    pub cumulative : s'.cumulative_tx_gas_used ≡ s.cumulative_tx_gas_used
    pub regular : s'.block_regular_gas_used ≡ s.block_regular_gas_used
    pub state_gas : s'.block_state_gas_used ≡ s.block_state_gas_used
    pub blobs : s'.block_blob_count ≡ s.block_blob_count
    pub rlp : s'.block_transactions_rlp_length ≡ s.block_transactions_rlp_length
    pub fees : s'.total_fees ≡ s.total_fees
    pub sidecars : s'.blob_sidecars ≡ s.blob_sidecars

  -- What the checks have found of the blobs of a transaction that is executed.
  pub data BlobsFit (s : Fill Q B X) (p : P) : Option (ℕ × S) → Type 0 where
    without : o.blob_count p ≡ none → BlobsFit s p none
    within :
        (n : ℕ) (sidecar : S) (found : Option S)
        → o.blob_count p ≡ some n
        → add64 s.block_blob_count n ≤ g.max_blob_count
        → o.get_blob (o.tx_hash p) ≡ ok found
        → choose_sidecar o g found ≡ ok sidecar
        → BlobsFit s p (some (n, sidecar))

  -- A round that includes the transaction `p`: it passed every check, its execution on the block of
  -- `s` succeeded, which leaves the block of `t`, and it is added to the accounts of `t`, which are
  -- those of `s`.
  pub record IsIncluded (s : Fill Q B X) (p : P) (s' : Fill Q B X) : Type 0 where
    pub t : Fill Q B X
    pub same : IsSame s t
    pub tip : ℕ
    pub blobs : Option (ℕ × S)
    pub gas : ℕ
    pub state_gas : ℕ
    pub regular : ℕ
    pub after : X
    pub gas_fits : exceeds o g s p ≡ none
    pub size_fits : (g.is_osaka && ltb g.max_rlp_block_size (estimate o g s p)) ≡ false
    pub blobs_fit : BlobsFit s p blobs
    pub priced : o.effective_tip p g.base_fee ≡ some tip
    pub ran : o.execute p s.block ≡ (after, executed gas state_gas regular)
    pub kept : t.block ≡ after
    pub result : s' ≡ account o g t p tip blobs gas state_gas regular

  -- Why a transaction is passed over: the checks before its execution, or the execution itself. The
  -- indices are the pool's iterator and the block that are left, of the iterator `rest` behind the
  -- transaction. Only a transaction whose nonce is too low is not reported to the pool as invalid.
  pub data IsBlocked (s : Fill Q B X) (p : P) (rest : B) : B → X → Type 0 where
    over_gas :
        (limit available : ℕ)
        → exceeds o g s p ≡ some (limit, available)
        → IsBlocked s p rest (o.mark_invalid p (exceeds_gas_limit limit available) rest) s.block
    too_large :
        (g.is_osaka && ltb g.max_rlp_block_size (estimate o g s p)) ≡ true
        → IsBlocked s p rest
            (o.mark_invalid p (oversized_data (estimate o g s p) g.max_rlp_block_size) rest)
            s.block
    over_blobs :
        (n : ℕ)
        → o.blob_count p ≡ some n
        → g.max_blob_count < add64 s.block_blob_count n
        → IsBlocked s p rest
            (o.mark_invalid p (too_many_blobs (add64 s.block_blob_count n) g.max_blob_count) rest)
            s.block
    bad_sidecar :
        (n : ℕ) (found : Option S) (r : Reason)
        → o.blob_count p ≡ some n
        → o.get_blob (o.tx_hash p) ≡ ok found
        → choose_sidecar o g found ≡ err r
        → IsBlocked s p rest (o.mark_invalid p r rest) s.block
    nonce_low : (x : X) → o.execute p s.block ≡ (x, invalid_tx true) → IsBlocked s p rest rest x
    invalid :
        (x : X)
        → o.execute p s.block ≡ (x, invalid_tx false)
        → IsBlocked s p rest (o.mark_invalid p tx_type_not_supported rest) x
    out_of_gas :
        (x : X) (limit available : ℕ)
        → o.execute p s.block ≡ (x, gas_unavailable limit available)
        → IsBlocked s p rest (o.mark_invalid p (exceeds_gas_limit limit available) rest) x
