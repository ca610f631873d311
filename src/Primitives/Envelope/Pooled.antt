-- ===== src/Primitives/Envelope/Pooled.antt =====
-- src/primitives/envelope.rs: the pooled form of a transaction, which has its blobs with it, and the
-- network form. `P` is the pooled form of an Ethereum transaction `T`, and `M` the message of an
-- error.
use reth_cosmos.Prelude.{ℕ, ◌≡◌, refl, ap, ◌⊎◌, inl, inr, Bytes, Result, ok, err, ◌>>=◌}
use reth_cosmos.Primitives.Envelope.{CosmosEnvelope, ethereum, cosmos, DecodeError}

-- `alloy_consensus::error::ValueError`, an error that gives the value back.
pub record ValueError (A M : Type 0) : Type 0 where
  pub value : A
  pub message : M

-- `ValueError::map`.
unfoldable pub map_value : {A B M : Type 0} → (A → B) → ValueError A M → ValueError B M
map_value h e = record { value = h e.value; message = e.message }

-- `impl Default`.
unfoldable pub default_envelope : {T : Type 0} → T → CosmosEnvelope T
default_envelope default = ethereum default

module _ {T P : Type 0} (into : P → T) where
  -- `From<PooledTransaction> for Transaction`.
  unfoldable pub from_pooled_tx : CosmosEnvelope P → CosmosEnvelope T
  from_pooled_tx (ethereum t) = ethereum (into t)
  from_pooled_tx (cosmos t) = cosmos t

module _ {T P M : Type 0} (try_into_pooled : T → Result (ValueError T M) P) where
  -- `t.try_into_pooled().map(Self::Ethereum).map_err(|e| e.map(CosmosEnvelope::Ethereum))`.
  unfoldable pub wrap_pooled :
      Result (ValueError T M) P → Result (ValueError (CosmosEnvelope T) M) (CosmosEnvelope P)
  unfolding map_value
  wrap_pooled (ok t) = ok (ethereum t)
  wrap_pooled (err e) = err (map_value ethereum e)

  -- `TryFrom<Transaction> for PooledTransaction`.
  unfoldable pub try_pooled_tx :
      CosmosEnvelope T → Result (ValueError (CosmosEnvelope T) M) (CosmosEnvelope P)
  unfolding wrap_pooled
  try_pooled_tx (ethereum t) = wrap_pooled (try_into_pooled t)
  try_pooled_tx (cosmos t) = ok (cosmos t)

-- What the code relies on of the upstream conversions: a transaction that has a pooled form is that
-- form without its blobs, and an error gives the transaction back.
pub record PooledLaws {T P M : Type 0} (into : P → T)
    (try_into_pooled : T → Result (ValueError T M) P) : Type 0 where
  pub converts : (t : T) (p : P) → try_into_pooled t ≡ ok p → into p ≡ t
  pub returns : (t : T) (e : ValueError T M) → try_into_pooled t ≡ err e → e.value ≡ t

module _ {T P M : Type 0} (into : P → T) (try_into_pooled : T → Result (ValueError T M) P)
    (laws : PooledLaws into try_into_pooled) where
  -- A transaction in its pooled form, from which it comes back, or given back with the error.
  abbrev IsPooledOrReturned : CosmosEnvelope T → Type 0
  IsPooledOrReturned tx =
      ((p : CosmosEnvelope P) × (try_pooled_tx try_into_pooled tx ≡ ok p)
        × (from_pooled_tx into p ≡ tx))
      ⊎ ((e : ValueError (CosmosEnvelope T) M) × (try_pooled_tx try_into_pooled tx ≡ err e)
          × (e.value ≡ tx))

  wrap_pooled-IsPooledOrReturned :
      (t : T) (r : Result (ValueError T M) P)
      → try_into_pooled t ≡ r
      → IsPooledOrReturned (ethereum t)
  unfolding try_pooled_tx wrap_pooled from_pooled_tx map_value
  wrap_pooled-IsPooledOrReturned t (ok p) h =
      inl (ethereum p, rw h refl, ap ethereum (laws.converts t p h))
  wrap_pooled-IsPooledOrReturned t (err e) h =
      inr (map_value ethereum e, rw h refl, ap ethereum (laws.returns t e h))

  -- No transaction is lost between the pool's form and the chain's: given that the upstream
  -- conversions lose none, a transaction that converts to its pooled form comes back from it, and
  -- the error of one that does not holds the transaction.
  try_pooled_tx-from_pooled_tx : (tx : CosmosEnvelope T) → IsPooledOrReturned tx
  unfolding try_pooled_tx from_pooled_tx
  try_pooled_tx-from_pooled_tx (ethereum t) =
      wrap_pooled-IsPooledOrReturned t (try_into_pooled t) refl
  try_pooled_tx-from_pooled_tx (cosmos t) = inl (cosmos t, refl, refl)

-- `Encodable` and `Decodable`, by the default methods of the EIP-2718 traits.
unfoldable pub encode_network : {T : Type 0} → (CosmosEnvelope T → Bytes) → CosmosEnvelope T → Bytes
encode_network network_encode t = network_encode t

unfoldable pub length_network : {T : Type 0} → (CosmosEnvelope T → ℕ) → CosmosEnvelope T → ℕ
length_network network_len t = network_len t

unfoldable pub decode_network :
    {T : Type 0}
    → (Bytes → Result DecodeError (CosmosEnvelope T × Bytes))
    → Bytes
    → Result DecodeError (CosmosEnvelope T × Bytes)
decode_network network_decode buf = do (t, rest) ← network_decode buf; ok (t, rest)
