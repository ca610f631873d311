-- ===== src/Pool/Sidecars.antt =====
-- src/pool.rs: what becomes of the sidecar of a blob transaction.
use reth_cosmos.Prelude.{
  ℕ, ◌≡◌, ◌≢◌, refl, ap, ◌∙◌, true, none, some, Bytes, err, arith, Bool-cases, inl, inr,
}
use reth_cosmos.Prelude.Panics.{>>=-eq-some}
use reth_cosmos.Primitives.Signed.{CosmosSigned}
use reth_cosmos.Primitives.Envelope.{CosmosEnvelope, ethereum, cosmos}
use reth_cosmos.Primitives.Envelope
use reth_cosmos.Pool.{
  present, Recovered, PoolTransaction, EthPool, not_blob_transaction, from_pooled, pool_ty,
  take_blob, try_into_pooled, try_from_eip4844, validate_blob, as_ethereum, validate_transaction,
  from_parts,
}

-- What the pool relies on of upstream: a new pool transaction holds the given one, and a
-- transaction that takes a sidecar is a blob transaction, and has it back in its pooled form.
pub record EthPoolLaws {T P S V AccessList Authorization : Type 0}
    (o : EthPool T P S V AccessList Authorization) : Type 0 where
  pub keeps : (tx : Recovered (CosmosEnvelope T)) (len : ℕ) → (o.new tx len).transaction ≡ tx
  pub measures : (tx : Recovered (CosmosEnvelope T)) (len : ℕ) → (o.new tx len).encoded_length ≡ len
  pub split :
      (t : T) (s : S) (p : P) (a : Bytes)
      → o.into_pooled t s ≡ some p
      → o.from_pooled (record { transaction = p; signer = a })
        ≡ (record { transaction = t; signer = a }, present s)
  pub has_blobs :
      (t : T) (s : S) (p : P) → o.into_pooled t s ≡ some p → o.is_eip4844 (o.eth.ty t) ≡ true

module _ {T P S V AccessList Authorization : Type 0}
    (o : EthPool T P S V AccessList Authorization) where
  -- A sidecar can be taken once: a second `take_blob` never gives a sidecar, and the transaction
  -- is left as before by the first.
  pub take_blob_once :
      (p : PoolTransaction T S) (s : S)
      → ((take_blob o (take_blob o p).1).0 ≢ present s)
        × ((take_blob o p).1.transaction ≡ p.transaction)
  unfolding take_blob pool_ty
  take_blob_once p s = elim (Bool-cases (o.is_eip4844 (pool_ty o p))) [
    | inl e ↦ rw (e, e) ((λ h. absurd (ground arith)), refl)
    | inr e ↦ rw (e, e) ((λ h. absurd (ground arith)), refl)
  ]

  -- A Cosmos transaction is never one with blobs: it is not turned into a pooled form with a
  -- sidecar, not taken from such a form, and no sidecar is valid for it.
  pub cosmos_without_blobs :
      (t : CosmosSigned) (p : PoolTransaction T S) (s : S)
      → p.transaction.transaction ≡ cosmos t
      → (try_into_pooled o p.transaction s ≡ none)
        × (try_from_eip4844 o p.transaction s ≡ none)
        × (validate_blob o p s ≡ err (not_blob_transaction (Envelope.ty o.eth (cosmos t))))
  unfolding try_into_pooled try_from_eip4844 as_ethereum validate_blob validate_transaction pool_ty
  cosmos_without_blobs t p s h = rw h (refl, refl, refl)

  as_ethereum-eq-some : (x : CosmosEnvelope T) {t : T} → as_ethereum o x ≡ some t → ethereum t ≡ x
  unfolding as_ethereum
  as_ethereum-eq-some (ethereum u) h = cc
  as_ethereum-eq-some (cosmos u) h = cc

module _ {T P S V AccessList Authorization : Type 0} (o : EthPool T P S V AccessList Authorization)
    (laws : EthPoolLaws o) where
  -- A blob transaction that comes back with its sidecar, as after a reorganisation, is a pool
  -- transaction of the same transaction and signer, from which the sidecar can be taken, given that
  -- upstream's pooled form holds what it is made of.
  pub try_from_eip4844-take_blob :
      (tx : Recovered (CosmosEnvelope T)) (s : S) {p : PoolTransaction T S}
      → try_from_eip4844 o tx s ≡ some p
      → (p.transaction ≡ tx) × ((take_blob o p).0 ≡ present s)
  unfolding try_from_eip4844 from_pooled from_parts take_blob pool_ty Envelope.ty
  try_from_eip4844-take_blob tx s {p} h =
      let (t, is_eth, h₁) = >>=-eq-some (as_ethereum o tx.transaction) _ h in
      let (pooled, e, h₂) = >>=-eq-some (o.into_pooled t s) _ h₁ in
      let q : from_pooled o (record { transaction = ethereum pooled; signer = tx.signer }) ≡ p =
        cc in
      let parts = laws.split t s pooled tx.signer e in
      let held : p.transaction ≡ record { transaction = ethereum t; signer = tx.signer } =
        rw (← q) (rw (from_parts, parts) (laws.keeps _ _)) in
      let taken : p.blob_sidecar ≡ present s = rw (← q) (rw (from_parts, parts) refl) in
      let whole : ◌≡◌ {A = Recovered (CosmosEnvelope T)}
          (record { transaction = ethereum t; signer = tx.signer }) tx =
        ap (λ (x : CosmosEnvelope T). record { transaction = x; signer = tx.signer })
          (as_ethereum-eq-some o tx.transaction is_eth) in
      let blobs : o.is_eip4844 (Envelope.ty o.eth p.transaction.transaction) ≡ true =
        rw held (laws.has_blobs t s pooled e) in
      (held ∙ whole, rw blobs taken)
