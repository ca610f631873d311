-- ===== src/Rpc/Requests.antt =====
-- src/rpc.rs: no request builds a Cosmos transaction.
use reth_cosmos.Prelude.{
  ℕ, ◌≡◌, ◌≢◌, ◌↔◌, ◌∙◌, refl, true, ap, sym, Result-cases, ok-injective, if◌then◌else◌, false,
  Option, none, some, Result, ok, err, arith, Bool-cases, inl, inr,
}
use reth_cosmos.Auth.{tx_type_const}
use reth_cosmos.Primitives.Envelope.{CosmosEnvelope, ethereum}
use reth_cosmos.Rpc.{
  RequestError, invalid_request, is_some_type, build_ethereum, try_build_and_sign, try_into_sim_tx,
}

-- The two functions that build a transaction of a request.
pub data Purpose : Type 0 where
  signing simulating : Purpose

module _ {R T E : Type 0} (transaction_type : R → Option ℕ) (build : R → Result E T) where
  -- The function of a purpose.
  unfoldable pub build_for : Purpose → R → Result (RequestError E) (CosmosEnvelope T)
  build_for signing r = try_build_and_sign transaction_type build r
  build_for simulating r = try_into_sim_tx transaction_type build r

  build_ethereum-eq-ok :
      (r : R) (tx : CosmosEnvelope T)
      → build_ethereum transaction_type build r ≡ ok tx
      → (t : T) × (build r ≡ ok t) × (tx ≡ ethereum t)
  unfolding build_ethereum
  build_ethereum-eq-ok r tx h = elim (Result-cases (build r)) [
    | inl (t, e) ↦ (t, e, sym (ok-injective (rw (build_ethereum, e) at h)))
    | inr (x, e) ↦ absurd (ground (arith, rw (build_ethereum, e) at h))
  ]

  is_some_type-refuses :
      (o : Option ℕ) → is_some_type tx_type_const o ≡ false → o ≢ some tx_type_const
  unfolding is_some_type
  is_some_type-refuses none h same = ground arith
  is_some_type-refuses (some n) h same = ground arith

  is_some_type-finds : (o : Option ℕ) → is_some_type tx_type_const o ≡ true → o ≡ some tx_type_const
  unfolding is_some_type
  is_some_type-finds none h = absurd (ground arith)
  is_some_type-finds (some n) h = ground arith

  guarded :
      (r : R) (tx : CosmosEnvelope T)
      → (if is_some_type tx_type_const (transaction_type r)
          then err invalid_request
          else build_ethereum transaction_type build r)
        ≡ ok tx
      → (transaction_type r ≢ some tx_type_const) × ((t : T) × (build r ≡ ok t) × (tx ≡ ethereum t))
  guarded r tx h = elim (Bool-cases (is_some_type tx_type_const (transaction_type r))) [
    | inl e ↦ absurd (ground (arith, rw e at h))
    | inr e ↦
        let (t, built, same) = build_ethereum-eq-ok r tx (rw e at h) in
        (is_some_type-refuses (transaction_type r) e, (t, built, same))
  ]

  build_ethereum-ok :
      (r : R) (t : T) → build r ≡ ok t → build_ethereum transaction_type build r ≡ ok (ethereum t)
  unfolding build_ethereum
  build_ethereum-ok r t built = rw (build_ethereum, built) refl

  unguarded :
      (r : R) (tx : CosmosEnvelope T)
      → (transaction_type r ≢ some tx_type_const) × ((t : T) × (build r ≡ ok t) × (tx ≡ ethereum t))
      → (if is_some_type tx_type_const (transaction_type r)
          then err invalid_request
          else build_ethereum transaction_type build r)
        ≡ ok tx
  unguarded r tx (other, (t, built, same)) =
      elim (Bool-cases (is_some_type tx_type_const (transaction_type r))) [
        | inl e ↦ absurd (other (is_some_type-finds (transaction_type r) e))
        | inr e ↦ rw e (build_ethereum-ok r t built ∙ ap ok (sym same))
      ]

  -- Signing and simulation make exactly the Ethereum transactions that upstream builds, of exactly
  -- the requests that do not ask for the Cosmos type: no request makes a Cosmos transaction.
  pub build_for_iff :
      (purpose : Purpose) (r : R) (tx : CosmosEnvelope T)
      → (build_for purpose r ≡ ok tx) ↔ (
          (transaction_type r ≢ some tx_type_const)
          × ((t : T) × (build r ≡ ok t) × (tx ≡ ethereum t)))
  unfolding build_for try_build_and_sign try_into_sim_tx
  build_for_iff signing r tx = (λ h. guarded r tx h, λ h. unguarded r tx h)
  build_for_iff simulating r tx = (λ h. guarded r tx h, λ h. unguarded r tx h)
