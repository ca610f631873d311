-- ===== src/Primitives/Storage/Database.antt =====
-- src/primitives/storage.rs: the whole database value of a transaction, by the upstream
-- `CompactEnvelope`: `Compact`, `Compress` and `Decompress`.
use reth_cosmos.Prelude.{ℕ, Bool, Option, some, Bytes, length}
use reth_cosmos.Prelude.Panics.{◌>>=◌}
use reth_cosmos.Primitives.TxType.{CosmosTxType}
use reth_cosmos.Primitives.Envelope.{EthTx, CosmosEnvelope, tx_type}

-- `Envelope::tx_type`; `none` is the panic of `expect`.
unfoldable pub storage_tx_type :
    {T AccessList Authorization : Type 0}
    → EthTx T AccessList Authorization
    → (ℕ → Bool)
    → CosmosEnvelope T
    → Option CosmosTxType
storage_tx_type e eth_type t = tx_type e eth_type t

-- `CompactEnvelope`: the bytes that are written with the number that is returned, and the value with
-- the bytes behind it; `none` is a panic.
pub record CompactEnvelope (A : Type 0) : Type 0 where
  pub to_compact : A → Bytes × ℕ
  pub from_compact : Bytes → ℕ → Option (A × Bytes)

module _ {T : Type 0} (u : CompactEnvelope (CosmosEnvelope T)) where
  -- `Compact`.
  unfoldable pub compact : CosmosEnvelope T → Bytes × ℕ
  compact t = u.to_compact t

  unfoldable pub uncompact : Bytes → ℕ → Option (CosmosEnvelope T × Bytes)
  uncompact buf len = u.from_compact buf len

  -- `Compress::compress_to_buf`.
  unfoldable pub compress : CosmosEnvelope T → Bytes
  unfolding compact
  compress t = (compact t).0

  -- `Decompress::decompress`, which returns no error.
  unfoldable pub decompress : Bytes → Option (CosmosEnvelope T)
  unfolding uncompact
  decompress value = do (t, rest) ← uncompact value (length value); some t
