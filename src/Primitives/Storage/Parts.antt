-- ===== src/Primitives/Storage/Parts.antt =====
-- src/primitives/storage.rs and src/primitives/tx_type.rs: the type and the body of a transaction,
-- which the upstream `CompactEnvelope` lays out beside its signature.
use mathlib.Core.List.{append-nil}
use reth_cosmos.Prelude.{
  ℕ, ◌≡◌, refl, Bool, true, false, ◌==◌, Bool-cases, inl, inr, some, [], ◌++◌, Bytes, IsBytes,
  arith,
}
use reth_cosmos.Extern.Rlp.{Rlp, RlpLaws}
use reth_cosmos.Extern.Crypto.{Crypto}
use reth_cosmos.Auth.{IsOperation, tx_type_const}
use reth_cosmos.Primitives.TxType.{CosmosTxType, is_type, from_compact, to_compact}
use reth_cosmos.Primitives.TxType.RoundTrip.{is_type_iff, from_compact-to_compact}
use reth_cosmos.Primitives.Signed.Cached.{IsSigned}
use reth_cosmos.Primitives.Envelope.{EthTx, CosmosEnvelope, ethereum, cosmos, ty}
use reth_cosmos.Primitives.Envelope.Types.{tx_type-eq-some}
use reth_cosmos.Primitives.Storage.{EthCompact, signature, to_tx_compact, from_tx_compact}
use reth_cosmos.Primitives.Storage.Database.{storage_tx_type}
use reth_cosmos.Primitives.Storage.RoundTrip.{from_tx_compact-to_tx_compact}

module _ {T AccessList Authorization : Type 0} (x : EthTx T AccessList Authorization)
    (eth_type : ℕ → Bool) (e : EthCompact T) where
  -- What the code relies on of the upstream codec of Ethereum transactions: it reads, with the type
  -- and the signature, a transaction that it has written, whatever it leaves behind it. Their types
  -- are known, and the Cosmos type is none of them.
  pub record EthCompactLaws : Type 0 where
    pub known : (t : T) → eth_type (x.ty t) ≡ true
    pub other : eth_type tx_type_const ≡ false
    pub reads :
        (t : T)
        → (rest : Bytes) × (e.from_tx_compact (e.to_tx_compact t) (x.ty t) (e.signature t)
            ≡ some (t, rest))

  module _ (c : Rlp) {Key Sig : Type 0} (k : Crypto Key Sig) where
    -- The caches of a Cosmos transaction agree, and its parts are in range.
    abbrev pub IsStorable : CosmosEnvelope T → Type 0
    IsStorable (ethereum t) = Unit {0}
    IsStorable (cosmos t) = IsSigned c k t × IsOperation t.operation × IsBytes t.public_key

    -- The type of a transaction is found, and read back from its identifier and the bytes that are
    -- written for it, and the transaction is read back from its body by this type.
    pub record IsRead (t : CosmosEnvelope T) : Type 0 where
      pub kind : CosmosTxType
      pub found : storage_tx_type x eth_type t ≡ some kind
      pub kind_read :
          (body : Bytes)
          → from_compact eth_type ((to_compact kind).1 ++ body) (to_compact kind).0
            ≡ some (kind, body)
      pub rest : Bytes
      pub body_read :
          from_tx_compact e c k (to_tx_compact e c t) kind (signature e t) ≡ some (t, rest)

    module _ (laws : RlpLaws c) (s : EthCompactLaws) where
      from_tx_compact-body :
          (t : CosmosEnvelope T)
          → IsStorable t
          → (rest : Bytes) × (from_tx_compact e c k
                (to_tx_compact e c t)
                (record { ty = ty x t })
                (signature e t)
              ≡ some (t, rest))
      unfolding from_tx_compact to_tx_compact signature ty
      from_tx_compact-body (ethereum t) h = elim (Bool-cases (x.ty t == tx_type_const)) [
        | inl same ↦ absurd (ground (arith, s.known t, s.other))
        | inr other ↦ let (rest, r) = s.reads t in (rest, rw (other, r))
      ]
      from_tx_compact-body (cosmos t) (signed, op, key) = (
        [],
        rw (append-nil (to_tx_compact e c (cosmos t))) at
            (from_tx_compact-to_tx_compact e c laws k t signed op key []),
      )

      kind-is_type : (t : CosmosEnvelope T) → is_type eth_type (ty x t) ≡ true
      unfolding ty
      kind-is_type (ethereum t) = (is_type_iff eth_type (x.ty t)).1 (inr (s.known t))
      kind-is_type (cosmos t) = (is_type_iff eth_type tx_type_const).1 (inl refl)

      -- Under the laws of RLP, if upstream's codec of Ethereum transactions reads what it has
      -- written, and if their types are known and the Cosmos type is none of them: the type of every
      -- transaction is found without a panic, and its database form is read back and leaves the
      -- body. The body is read back by this type as the transaction, without a panic, if the caches
      -- of a Cosmos transaction agree and its parts are in range.
      pub stored-IsRead : (t : CosmosEnvelope T) → IsStorable t → IsRead t
      unfolding storage_tx_type
      stored-IsRead t h =
          let (rest, r) = from_tx_compact-body t h in
          record {
            kind = record { ty = ty x t };
            found = tx_type-eq-some x eth_type s.known t;
            kind_read = λ body.
                from_compact-to_compact eth_type (record { ty = ty x t }) body (kind-is_type t);
            rest = rest;
            body_read = r;
          }
