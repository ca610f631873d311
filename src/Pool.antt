-- ===== src/Pool.antt =====
-- src/pool.rs: pool transactions and the sidecars of their blobs. `EthPool` holds what the code
-- calls of upstream: `T` is an Ethereum transaction, `P` its pooled form, which has the sidecar with
-- it, and `S` a sidecar.
pub mod Sidecars
pub mod Shown
use reth_cosmos.Prelude.{
  ℕ, Bool, true, false, Option, none, some, Bytes, Result, ok, err, if◌then◌else◌,
}
use reth_cosmos.Prelude.Panics.{◌>>=◌}
use reth_cosmos.Primitives.Envelope.{EthTx, CosmosEnvelope, ethereum, cosmos, ty, encode_2718_len}

-- `EthBlobTransactionSidecar`.
pub data Sidecar (S : Type 0) : Type 0 where
  no_sidecar missing : Sidecar S
  present : S → Sidecar S

-- `Recovered<A>`.
pub record Recovered (A : Type 0) : Type 0 where
  pub transaction : A
  pub signer : Bytes

-- `EthPooledTransaction<CosmosTransaction>`, which `CosmosPoolTransaction` wraps.
pub record PoolTransaction (T S : Type 0) : Type 0 where
  pub transaction : Recovered (CosmosEnvelope T)
  pub cost : ℕ
  pub encoded_length : ℕ
  pub blob_sidecar : Sidecar S

pub record EthPool (T P S V AccessList Authorization : Type 0) : Type 0 where
  pub eth : EthTx T AccessList Authorization
  pub pooled : EthTx P AccessList Authorization
  -- `EthPooledTransaction::new`, of the transaction and its encoded length.
  pub new : Recovered (CosmosEnvelope T) → ℕ → PoolTransaction T S
  -- The transaction and the sidecar of `EthPooledTransaction::from_pooled`.
  pub from_pooled : Recovered P → Recovered T × Sidecar S
  -- `is_eip4844` of a transaction's type.
  pub is_eip4844 : ℕ → Bool
  -- `try_into_pooled_eip4844(..).ok()`.
  pub into_pooled : T → S → Option P
  -- `as_eip4844()` with `validate_blob`; `none` if the transaction has no blobs.
  pub validate : T → Option (S → Result V (Unit {0}))

-- `BlobTransactionValidationError`, with the upstream errors `V`.
pub data BlobError (V : Type 0) : Type 0 where
  not_blob_transaction : ℕ → BlobError V
  invalid_blob : V → BlobError V

module _ {T P S V AccessList Authorization : Type 0}
    (o : EthPool T P S V AccessList Authorization) where
  -- `from_pooled` behind `tx.into_parts()`, with the length.
  unfoldable pub from_parts : ℕ → CosmosEnvelope P → Bytes → PoolTransaction T S
  from_parts len (ethereum tx) signer =
      let (eth, sidecar) = o.from_pooled (record { transaction = tx; signer = signer }) in
      record (o.new (record { transaction = ethereum eth.transaction; signer = eth.signer }) len) {
        blob_sidecar = sidecar;
      }
  from_parts len (cosmos tx) signer =
      o.new (record { transaction = cosmos tx; signer = signer }) len

  -- `CosmosPoolTransaction::from_pooled`.
  unfoldable pub from_pooled : Recovered (CosmosEnvelope P) → PoolTransaction T S
  unfolding from_parts
  from_pooled tx = from_parts (encode_2718_len o.pooled tx.transaction) tx.transaction tx.signer

  -- `Typed2718::ty`, which the wrapped transaction takes from its envelope.
  unfoldable pub pool_ty : PoolTransaction T S → ℕ
  pool_ty p = ty o.eth p.transaction.transaction

  -- `take_blob`: what is taken, and the transaction after it.
  unfoldable pub take_blob : PoolTransaction T S → Sidecar S × PoolTransaction T S
  take_blob p =
      if o.is_eip4844 (pool_ty p)
      then (p.blob_sidecar, record p { blob_sidecar = missing })
      else (no_sidecar, p)

  -- The Ethereum transaction of an envelope: `let CosmosEnvelope::Ethereum(tx) = tx else ..`.
  unfoldable pub as_ethereum : CosmosEnvelope T → Option T
  as_ethereum (ethereum tx) = some tx
  as_ethereum (cosmos tx) = none

  -- `try_into_pooled_eip4844`.
  unfoldable pub try_into_pooled :
      Recovered (CosmosEnvelope T) → S → Option (Recovered (CosmosEnvelope P))
  unfolding as_ethereum
  try_into_pooled tx sidecar = do
    t ← as_ethereum tx.transaction
    pooled ← o.into_pooled t sidecar
    some (record { transaction = ethereum pooled; signer = tx.signer })

  -- `try_from_eip4844`.
  unfoldable pub try_from_eip4844 : Recovered (CosmosEnvelope T) → S → Option (PoolTransaction T S)
  unfolding as_ethereum from_pooled
  try_from_eip4844 tx sidecar = do
    t ← as_ethereum tx.transaction
    pooled ← o.into_pooled t sidecar
    some (from_pooled (record { transaction = ethereum pooled; signer = tx.signer }))

  unfoldable pub run_validation :
      ℕ → Option (S → Result V (Unit {0})) → S → Result (BlobError V) (Unit {0})
  run_validation kind none sidecar = err (not_blob_transaction kind)
  run_validation kind (some check) sidecar = elim (check sidecar) [
    | ok u ↦ ok u
    | err e ↦ err (invalid_blob e)
  ]

  unfoldable pub validate_transaction : ℕ → CosmosEnvelope T → S → Result (BlobError V) (Unit {0})
  unfolding run_validation
  validate_transaction kind (ethereum tx) sidecar = run_validation kind (o.validate tx) sidecar
  validate_transaction kind (cosmos tx) sidecar = err (not_blob_transaction kind)

  -- `validate_blob`; the settings of the check are part of `validate`.
  unfoldable pub validate_blob : PoolTransaction T S → S → Result (BlobError V) (Unit {0})
  unfolding validate_transaction
  validate_blob p sidecar = validate_transaction (pool_ty p) p.transaction.transaction sidecar
