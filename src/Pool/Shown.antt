-- ===== src/Pool/Shown.antt =====
-- src/pool.rs: what a pool transaction shows, and the form in which a transaction leaves the pool.
use reth_cosmos.Prelude.{ℕ, ◌≡◌, ap, ◌∙◌, Bytes}
use reth_cosmos.Primitives.Envelope.{CosmosEnvelope, ethereum, cosmos, encode_2718_len}
use reth_cosmos.Primitives.Envelope.Pooled.{from_pooled_tx}
use reth_cosmos.Primitives.View.{TxView}
use reth_cosmos.Pool.{Recovered, PoolTransaction, EthPool, from_pooled, from_parts}
use reth_cosmos.Pool.Sidecars.{EthPoolLaws}

module _ {T S : Type 0} where
  -- `consensus_ref` and `into_consensus`.
  unfoldable pub into_consensus : PoolTransaction T S → Recovered (CosmosEnvelope T)
  into_consensus p = p.transaction

  -- `hash`, by the hash of an envelope.
  unfoldable pub pool_hash : (CosmosEnvelope T → Bytes) → PoolTransaction T S → Bytes
  pool_hash tx_hash p = tx_hash p.transaction.transaction

  -- `sender` and `sender_ref`.
  unfoldable pub pool_sender : PoolTransaction T S → Bytes
  pool_sender p = p.transaction.signer

  unfoldable pub pool_cost : PoolTransaction T S → ℕ
  pool_cost p = p.cost

  unfoldable pub pool_encoded_length : PoolTransaction T S → ℕ
  pool_encoded_length p = p.encoded_length

  -- `impl Transaction`, by the methods of the wrapped transaction.
  unfoldable pub pool_view :
      {AccessList Authorization : Type 0}
      → (PoolTransaction T S → TxView AccessList Authorization)
      → PoolTransaction T S
      → TxView AccessList Authorization
  pool_view inner p = record {
    chain_id = (inner p).chain_id;
    nonce = (inner p).nonce;
    gas_limit = (inner p).gas_limit;
    gas_price = (inner p).gas_price;
    max_fee_per_gas = (inner p).max_fee_per_gas;
    max_priority_fee_per_gas = (inner p).max_priority_fee_per_gas;
    max_fee_per_blob_gas = (inner p).max_fee_per_blob_gas;
    priority_fee_or_price = (inner p).priority_fee_or_price;
    effective_gas_price = λ base_fee. (inner p).effective_gas_price base_fee;
    is_dynamic_fee = (inner p).is_dynamic_fee;
    kind = (inner p).kind;
    is_create = (inner p).is_create;
    value = (inner p).value;
    input = (inner p).input;
    access_list = (inner p).access_list;
    blob_versioned_hashes = (inner p).blob_versioned_hashes;
    authorization_list = (inner p).authorization_list;
  }

module _ {T P S V AccessList Authorization : Type 0} (o : EthPool T P S V AccessList Authorization)
    (into : P → T)
    (splits : (p : P) (a : Bytes)
      → (o.from_pooled (record { transaction = p; signer = a })).0
        ≡ record { transaction = into p; signer = a }) where
  from_parts-into_consensus :
      (laws : EthPoolLaws o) (len : ℕ) (tx : CosmosEnvelope P) (a : Bytes)
      → (into_consensus (from_parts o len tx a)
          ≡ record { transaction = from_pooled_tx into tx; signer = a })
        × (pool_encoded_length (from_parts o len tx a) ≡ len)
  unfolding into_consensus pool_encoded_length from_parts from_pooled_tx
  from_parts-into_consensus laws len (ethereum p) a = (
    laws.keeps _ len
        ∙ ap
            (λ (r : Recovered T). record {
              transaction = ethereum r.transaction;
              signer = r.signer;
            })
            (splits p a),
    laws.measures _ len,
  )
  from_parts-into_consensus laws len (cosmos t) a = (laws.keeps _ len, laws.measures _ len)

  -- A pooled transaction that enters the pool leaves it as the chain's form of the same
  -- transaction, with the same signer, and the pool accounts it with the length of its pooled
  -- encoding, given that upstream's pool keeps what it is given and splits an Ethereum transaction
  -- from its blobs by the same conversion.
  pub from_pooled-into_consensus :
      (laws : EthPoolLaws o) (tx : Recovered (CosmosEnvelope P))
      → (into_consensus (from_pooled o tx)
          ≡ record { transaction = from_pooled_tx into tx.transaction; signer = tx.signer })
        × (pool_encoded_length (from_pooled o tx) ≡ encode_2718_len o.pooled tx.transaction)
  unfolding from_pooled
  from_pooled-into_consensus laws tx =
      from_parts-into_consensus laws (encode_2718_len o.pooled tx.transaction) tx.transaction
        tx.signer
