-- ===== src/Primitives/TxType/RoundTrip.antt =====
-- src/primitives/tx_type.rs: what is stored or sent of a type can be read back.
use reth_cosmos.Prelude.{ℕ, ◌<◌, ◌≡◌, ◌↔◌, ◌⊎◌, Bool, true, some, ◌++◌, arith, Bytes}
use reth_cosmos.Extern.Rlp.{Rlp, RlpLaws}
use reth_cosmos.Auth.{tx_type_const}
use reth_cosmos.Primitives.TxType.{
  CosmosTxType, is_type, decode_type, from_compact, encode_type, to_compact,
}

module _ (eth_type : ℕ → Bool) where
  -- The types that exist: the Cosmos type and those of Ethereum.
  pub is_type_iff :
      (ty : ℕ) → (is_type eth_type ty ≡ true) ↔ ((ty ≡ tx_type_const) ⊎ (eth_type ty ≡ true))
  unfolding is_type
  is_type_iff ty = (λ h. ground arith, λ h. ground arith)

  -- The database's form of a supported type is read back, and the bytes behind it are left.
  pub from_compact-to_compact :
      (t : CosmosTxType) (rest : Bytes)
      → is_type eth_type t.ty ≡ true
      → from_compact eth_type ((to_compact t).1 ++ rest) (to_compact t).0 ≡ some (t, rest)
  unfolding from_compact to_compact is_type
  from_compact-to_compact t rest h = ground arith

  -- Under the laws of RLP, the wire form of a supported type of one byte is read back, and the
  -- bytes behind it are left.
  pub decode_type-encode_type :
      (c : Rlp)
      → RlpLaws c
      → (t : CosmosTxType) (rest : Bytes) → t.ty < 256
      → is_type eth_type t.ty ≡ true
      → decode_type eth_type c (encode_type c t ++ rest) ≡ some (t, rest)
  unfolding decode_type encode_type is_type
  decode_type-encode_type c laws t rest small h =
      rw (decode_type, laws.uint_round 1 t.ty rest small (omega arith)) (ground arith)
