-- ===== src/Payload/Builder/Totals.antt =====
-- src/payload/builder.rs: what the accounts of a filled block add up to.
use reth_cosmos.Prelude.{
  refl, Bool, true, ok, if◌then◌else◌, ℕ, ◌+◌, ◌*◌, ◌%◌, ◌^◌, ◌≡◌, ap, ◌∙◌, ◌⊎◌, inl, inr, Option,
  none, some, List, [], ◌∷◌, arith, All,
}
use reth_cosmos.Payload.Builder.{
  executed, Source, Limits, Fill, filled, account, choose_sidecar, fill,
}
use reth_cosmos.Payload.Builder.Rounds.{IsSame, BlobsFit, without, within, IsIncluded}
use reth_cosmos.Payload.Builder.Bounds.{fill_inv}

-- A transaction in the block: the pool's transaction, its tip, its blobs with their sidecar, and the
-- gas, state gas and regular gas that its execution used.
pub record Entry (P S : Type 0) : Type 0 where
  pub tx : P
  pub tip : ℕ
  pub blobs : Option (ℕ × S)
  pub gas : ℕ
  pub state_gas : ℕ
  pub regular : ℕ

module _ {S : Type 0} where
  unfoldable pub blob_number : Option (ℕ × S) → ℕ
  blob_number none = 0
  blob_number (some (n, sidecar)) = n

  unfoldable pub push_blob : {Q : Type 0} → (Q → S → Q) → Q → Option (ℕ × S) → Q
  push_blob push q none = q
  push_blob push q (some (n, sidecar)) = push q sidecar

module _ {P S : Type 0} where
  -- The sum of a number over the transactions, the latest first.
  unfoldable pub total : (Entry P S → ℕ) → List (Entry P S) → ℕ
  total h [] = 0
  total h (x ∷ xs) = total h xs + h x

  unfoldable pub fee_of : Entry P S → ℕ
  fee_of x = x.tip * x.gas

  -- The sidecars of the transactions, pushed in the order of the block.
  unfoldable pub pushed : {Q : Type 0} → (Q → S → Q) → Q → List (Entry P S) → Q
  pushed push q [] = q
  pushed push q (x ∷ xs) = push_blob push (pushed push q xs) x.blobs

module _ {P S Q B X E : Type 0} (o : Source P S Q B X E) (g : Limits) where
  -- A sidecar is of the kind that the fork asks for.
  unfoldable pub is_of_fork : S → Bool
  is_of_fork sidecar = if g.is_osaka then o.is_eip7594 sidecar else o.is_eip4844 sidecar

  -- The blobs of a transaction are those that it declares, with the sidecar that the pool holds.
  pub data HasBlobs (p : P) : Option (ℕ × S) → Type 0 where
    no_blobs : o.blob_count p ≡ none → HasBlobs p none
    from_pool :
        (n : ℕ) (sidecar : S)
        → o.blob_count p ≡ some n
        → o.get_blob (o.tx_hash p) ≡ ok (some sidecar)
        → is_of_fork sidecar ≡ true
        → HasBlobs p (some (n, sidecar))

  choose_sidecar-eq-ok :
      (found : Option S) {sidecar : S}
      → choose_sidecar o g found ≡ ok sidecar
      → (found ≡ some sidecar) × (is_of_fork sidecar ≡ true)
  unfolding choose_sidecar is_of_fork
  choose_sidecar-eq-ok none h = absurd (ground arith)
  choose_sidecar-eq-ok (some s) h = (ground arith, ground arith)

  fitting-HasBlobs :
      (s : Fill Q B X) (p : P) (blobs : Option (ℕ × S)) → BlobsFit o g s p blobs → HasBlobs p blobs
  fitting-HasBlobs s p none (without e) = no_blobs e
  fitting-HasBlobs s p (some (n, sidecar)) (within _ _ found e fits got chosen) =
      let (same, right) = choose_sidecar-eq-ok found chosen in
      from_pool n sidecar e (got ∙ ap ok same) right

module _ {P S Q B X E : Type 0} (o : Source P S Q B X E) (g : Limits) (empty : Q) where
  -- A transaction of the block was executed, has the tip of its fees at the base fee, and has the
  -- blobs that it declares, with a sidecar of the kind that the fork asks for.
  pub record IsEntry (x : Entry P S) : Type 0 where
    pub before : X
    pub after : X
    pub ran : o.execute x.tx before ≡ (after, executed x.gas x.state_gas x.regular)
    pub priced : o.effective_tip x.tx g.base_fee ≡ some x.tip
    pub has_blobs : HasBlobs o g x.tx x.blobs

  -- The accounts are the sums over the transactions, as the machine's words.
  pub record IsAccount (xs : List (Entry P S)) (s : Fill Q B X) : Type 0 where
    pub entries : All IsEntry xs
    pub cumulative : s.cumulative_tx_gas_used ≡ total (λ x. x.gas) xs % 2 ^ 64
    pub regular : s.block_regular_gas_used ≡ total (λ x. x.regular) xs % 2 ^ 64
    pub state_gas : s.block_state_gas_used ≡ total (λ x. x.state_gas) xs % 2 ^ 64
    pub blobs : s.block_blob_count ≡ total (λ x. blob_number x.blobs) xs % 2 ^ 64
    pub rlp : s.block_transactions_rlp_length ≡ total (λ x. o.rlp_length x.tx) xs % 2 ^ 64
    pub fees : s.total_fees ≡ total fee_of xs % 2 ^ 256
    pub sidecars : s.blob_sidecars ≡ pushed o.push_sidecar empty xs

  Accounts : Fill Q B X → Type 0
  Accounts s = (xs : List (Entry P S)) × IsAccount xs s

  account_adds :
      (s t : Fill Q B X) (xs : List (Entry P S)) (p : P) (tip gas state_gas regular : ℕ)
      (blobs : Option (ℕ × S))
      → IsSame o g s t
      → IsEntry (record {
        tx = p;
        tip = tip;
        blobs = blobs;
        gas = gas;
        state_gas = state_gas;
        regular = regular;
      })
      → IsAccount xs s
      → IsAccount
          (record {
            tx = p;
            tip = tip;
            blobs = blobs;
            gas = gas;
            state_gas = state_gas;
            regular = regular;
          }
            ∷ xs)
          (account o g t p tip blobs gas state_gas regular)
  unfolding account total blob_number push_blob fee_of pushed
  account_adds s t xs p tip gas state_gas regular none same e a = record {
    entries = (e, a.entries);
    cumulative = omega (arith, same.cumulative, a.cumulative);
    regular = omega (arith, same.regular, a.regular);
    state_gas = omega (arith, same.state_gas, a.state_gas);
    blobs = omega (arith, same.blobs, a.blobs);
    rlp = omega (arith, same.rlp, a.rlp);
    fees = omega (arith, same.fees, a.fees);
    sidecars = same.sidecars ∙ a.sidecars;
  }
  account_adds s t xs p tip gas state_gas regular (some (n, sidecar)) same e a = record {
    entries = (e, a.entries);
    cumulative = omega (arith, same.cumulative, a.cumulative);
    regular = omega (arith, same.regular, a.regular);
    state_gas = omega (arith, same.state_gas, a.state_gas);
    blobs = omega (arith, same.blobs, a.blobs);
    rlp = omega (arith, same.rlp, a.rlp);
    fees = omega (arith, same.fees, a.fees);
    sidecars = ap (λ (q : Q). o.push_sidecar q sidecar) (same.sidecars ∙ a.sidecars);
  }

  pub same-IsAccount :
      (s s' : Fill Q B X) (xs : List (Entry P S))
      → IsSame o g s s'
      → IsAccount xs s
      → IsAccount xs s'
  same-IsAccount s s' xs same a = record {
    entries = a.entries;
    cumulative = same.cumulative ∙ a.cumulative;
    regular = same.regular ∙ a.regular;
    state_gas = same.state_gas ∙ a.state_gas;
    blobs = same.blobs ∙ a.blobs;
    rlp = same.rlp ∙ a.rlp;
    fees = same.fees ∙ a.fees;
    sidecars = same.sidecars ∙ a.sidecars;
  }

  -- A round that includes a transaction adds an entry for it.
  pub included-IsAccount :
      (s s' : Fill Q B X) (p : P) (xs : List (Entry P S))
      → IsIncluded o g s p s'
      → IsAccount xs s
      → (x : Entry P S) × (x.tx ≡ p) × IsAccount (x ∷ xs) s'
  included-IsAccount s s' p xs i a =
      let x : Entry P S = record {
        tx = p;
        tip = i.tip;
        blobs = i.blobs;
        gas = i.gas;
        state_gas = i.state_gas;
        regular = i.regular;
      } in
      let e : IsEntry x = record {
        before = s.block;
        after = i.after;
        ran = i.ran;
        priced = i.priced;
        has_blobs = fitting-HasBlobs o g s p i.blobs i.blobs_fit;
      } in
      (
        x,
        refl,
        rw i.result (account_adds s i.t xs p i.tip i.gas i.state_gas i.regular i.blobs i.same e a),
      )

  keep_account :
      (s s' : Fill Q B X) (p : P)
      → IsSame o g s s' ⊎ IsIncluded o g s p s'
      → Accounts s
      → Accounts s'
  unfolding Accounts
  keep_account s s' p (inl same) (xs, a) = (xs, same-IsAccount s s' xs same a)
  keep_account s s' p (inr i) (xs, a) =
      let (x, _, b) = included-IsAccount s s' p xs i a in (x ∷ xs, b)

  -- A block that is filled from nothing holds executed transactions, and its fees, gas, blobs and
  -- size are the sums over these, as the machine's words: the fee of each is its tip times the gas
  -- that it used, its blobs are those that it declares, and the sidecars are those of the blob
  -- transactions, in order.
  pub fill-totals :
      (fuel : ℕ) (s s' : Fill Q B X)
      → IsAccount [] s
      → fill o g fuel s ≡ filled s'
      → (xs : List (Entry P S)) × IsAccount xs s'
  unfolding Accounts
  fill-totals fuel s s' zero h = fill_inv o g Accounts keep_account fuel s s' h ([], zero)
