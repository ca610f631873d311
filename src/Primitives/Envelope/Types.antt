-- ===== src/Primitives/Envelope/Types.antt =====
-- src/primitives/envelope.rs and tx_type.rs: the type of an envelope.
use reth_cosmos.Prelude.{ℕ, ◌≡◌, refl, Bool, true, some, ok, ◌==◌, Bool-cases, inl, inr, arith}
use reth_cosmos.Auth.{tx_type_const}
use reth_cosmos.Primitives.TxType.{try_from}
use reth_cosmos.Primitives.Envelope.{EthTx, CosmosEnvelope, ethereum, cosmos, ty, is_type, tx_type}

module _ {T AccessList Authorization : Type 0} (e : EthTx T AccessList Authorization)
    (eth_type : ℕ → Bool) where
  known : (n : ℕ) → eth_type n ≡ true → try_from eth_type n ≡ ok (record { ty = n })
  unfolding try_from
  known n h = elim (Bool-cases (n == tx_type_const)) [
    | inl same ↦ rw same refl
    | inr other ↦ rw (other, h) refl
  ]

  pub tx_type-eq-some :
      ((t : T) → eth_type (e.ty t) ≡ true)
      → (t : CosmosEnvelope T) → tx_type e eth_type t ≡ some (record { ty = ty e t })
  unfolding tx_type ty try_from
  tx_type-eq-some types (ethereum t) = rw (tx_type, known (e.ty t) (types t)) refl
  tx_type-eq-some types (cosmos t) = refl

  -- The type of an envelope is found without the panic of `expect`, and is one of those that the
  -- envelope decodes, given that the bytes of Ethereum transactions are known types.
  tx_type-IsKnown :
      ((t : T) → eth_type (e.ty t) ≡ true)
      → ((t : T) → e.is_type (e.ty t) ≡ true)
      → (t : CosmosEnvelope T)
      → (tx_type e eth_type t ≡ some (record { ty = ty e t })) × (is_type e (ty e t) ≡ true)
  unfolding ty is_type
  tx_type-IsKnown types decoded (ethereum t) =
      (tx_type-eq-some types (ethereum t), ground (arith, decoded t))
  tx_type-IsKnown types decoded (cosmos t) = (tx_type-eq-some types (cosmos t), refl)
