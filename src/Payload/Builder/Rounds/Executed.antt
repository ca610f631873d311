-- ===== src/Payload/Builder/Rounds/Executed.antt =====
-- src/payload/builder.rs: what a round does once a transaction is executed or marked as invalid.
use reth_cosmos.Prelude.{
  ℕ, ◌≡◌, refl, ap, sym, subst, ◌⊎◌, inl, inr, true, false, ◌&&◌, Option, none, some, arith, ltb,
}
use reth_cosmos.Payload.Builder.{
  Reason, Execution, executed, invalid_tx, gas_unavailable, failed, Source, Limits, Fill, Round,
  continue, exceeds, mark, settle, execute_stage, estimate,
}
use reth_cosmos.Payload.Builder.Rounds.{
  IsSame, BlobsFit, IsIncluded, IsBlocked, nonce_low, invalid, out_of_gas,
}

module _ {P S Q B X E : Type 0} (o : Source P S Q B X E) (g : Limits) where
  -- A round on the transaction `p`, with the iterator `rest` behind it.
  abbrev pub Outcome : Fill Q B X → P → B → Fill Q B X → Type 0
  Outcome s p rest s' =
      (IsSame o g s s' × IsBlocked o g s p rest s'.best s'.block)
      ⊎ ((i : IsIncluded o g s p s') × (i.t.best ≡ rest))

  IsSame-refl : (s : Fill Q B X) → IsSame o g s s
  IsSame-refl s = ground arith

  continue-injective :
      {s t : Fill Q B X} → ◌≡◌ {A = Round Q B X E} (continue s) (continue t) → s ≡ t
  continue-injective h = cc

  -- Marking a transaction leaves the accounts.
  pub mark-Outcome :
      (s t : Fill Q B X) (p : P) (rest : B) (r : Reason) (x : X) {s' : Fill Q B X}
      → IsSame o g s t
      → t.best ≡ rest
      → t.block ≡ x
      → IsBlocked o g s p rest (o.mark_invalid p r rest) x
      → mark o g t p r ≡ continue s'
      → Outcome s p rest s'
  unfolding mark
  mark-Outcome s t p rest r x {s'} same left kept blocked h =
      subst (Outcome s p rest) (continue-injective h) (
        inl (
          record {
            cumulative = same.cumulative;
            regular = same.regular;
            state_gas = same.state_gas;
            blobs = same.blobs;
            rlp = same.rlp;
            fees = same.fees;
            sidecars = same.sidecars;
          },
          rw (left, kept) blocked,
        ))

  -- A transaction whose nonce is too low leaves the iterator.
  nonce_low-Outcome :
      (s t : Fill Q B X) (p : P) (rest : B) (x : X) {s' : Fill Q B X}
      → IsSame o g s t
      → t.best ≡ rest
      → t.block ≡ x
      → o.execute p s.block ≡ (x, invalid_tx true)
      → ◌≡◌ {A = Round Q B X E} (continue t) (continue s')
      → Outcome s p rest s'
  nonce_low-Outcome s t p rest x {s'} same left kept ran h =
      subst (Outcome s p rest) (continue-injective h)
        (inl (same, rw (left, kept) (nonce_low x ran)))

  module _ (s : Fill Q B X) (p : P) (gas_fits : exceeds o g s p ≡ none)
      (size_fits : (g.is_osaka && ltb g.max_rlp_block_size (estimate o g s p)) ≡ false)
      (rest : B) where
    settle-Outcome :
        (t s' : Fill Q B X) (blobs : Option (ℕ × S)) (tip : Option ℕ) (x : X) (r : Execution E)
        → IsSame o g s t
        → BlobsFit o g s p blobs
        → o.effective_tip p g.base_fee ≡ tip
        → o.execute p s.block ≡ (x, r)
        → t.block ≡ x
        → t.best ≡ rest
        → settle o g t p blobs tip r ≡ continue s'
        → Outcome s p rest s'
    unfolding settle
    settle-Outcome t s' blobs (some tip) x (executed gas state_gas regular) same fit priced ran kept
          left h =
        inr (
          (record {
            t = t;
            same = same;
            tip = tip;
            blobs = blobs;
            gas = gas;
            state_gas = state_gas;
            regular = regular;
            after = x;
            gas_fits = gas_fits;
            size_fits = size_fits;
            blobs_fit = fit;
            priced = priced;
            ran = ran;
            kept = kept;
            result = sym (continue-injective h);
          }),
          left,
        )
    settle-Outcome t s' blobs none x (executed gas state_gas regular) same fit priced ran kept left
          h =
        absurd (ground arith)
    settle-Outcome t s' blobs none x (invalid_tx true) same fit priced ran kept left h =
        nonce_low-Outcome s t p rest x same left kept ran h
    settle-Outcome t s' blobs (some tip) x (invalid_tx true) same fit priced ran kept left h =
        nonce_low-Outcome s t p rest x same left kept ran h
    settle-Outcome t s' blobs none x (invalid_tx false) same fit priced ran kept left h =
        mark-Outcome s t p rest _ x same left kept (invalid x ran) h
    settle-Outcome t s' blobs (some tip) x (invalid_tx false) same fit priced ran kept left h =
        mark-Outcome s t p rest _ x same left kept (invalid x ran) h
    settle-Outcome t s' blobs none x (gas_unavailable a b) same fit priced ran kept left h =
        mark-Outcome s t p rest _ x same left kept (out_of_gas x a b ran) h
    settle-Outcome t s' blobs (some tip) x (gas_unavailable a b) same fit priced ran kept left h =
        mark-Outcome s t p rest _ x same left kept (out_of_gas x a b ran) h
    settle-Outcome t s' blobs none x (failed e) same fit priced ran kept left h =
        absurd (ground arith)
    settle-Outcome t s' blobs (some tip) x (failed e) same fit priced ran kept left h =
        absurd (ground arith)

    pub execute_stage-Outcome :
        (t s' : Fill Q B X) (blobs : Option (ℕ × S))
        → IsSame o g s t
        → t.block ≡ s.block
        → t.best ≡ rest
        → BlobsFit o g s p blobs
        → execute_stage o g t p blobs ≡ continue s'
        → Outcome s p rest s'
    unfolding execute_stage
    execute_stage-Outcome t s' blobs same starts left fit h =
        let ran = o.execute p t.block in
        settle-Outcome (record t { block = ran.0 }) s' blobs (o.effective_tip p g.base_fee) ran.0
          ran.1
          (record {
            cumulative = same.cumulative;
            regular = same.regular;
            state_gas = same.state_gas;
            blobs = same.blobs;
            rlp = same.rlp;
            fees = same.fees;
            sidecars = same.sidecars;
          })
          fit refl (ap (o.execute p) (sym starts)) refl left h
