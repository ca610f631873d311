-- ===== src/Primitives/TxType.antt =====
-- src/primitives/tx_type.rs: `CosmosTxType`, a byte that is an Ethereum type or 0x7e. `eth_type` is
-- `alloy_consensus::TxType::try_from(value).is_ok()`.
pub mod RoundTrip
pub mod Conversions
use reth_cosmos.Prelude.{
  ℕ, Bool, true, false, ◌||◌, Option, none, some, [], ◌∷◌, Bytes, Result, ok, err, ltb, ◌==◌,
  if◌then◌else◌,
}
use reth_cosmos.Extern.Rlp.{Rlp}
use reth_cosmos.Auth.{tx_type_const}

pub record CosmosTxType : Type 0 where
  pub ty : ℕ

-- `CosmosTxType::COSMOS`.
abbrev pub cosmos_type : CosmosTxType
cosmos_type = record { ty = tx_type_const }

-- `Eip2718Error::UnexpectedType`.
pub data TypeError : Type 0 where
  unexpected_type : ℕ → TypeError

module _ (eth_type : ℕ → Bool) where
  -- `TryFrom<u8>`, which `TryFrom<U8>` calls.
  unfoldable pub try_from : ℕ → Result TypeError CosmosTxType
  try_from value =
      if value == tx_type_const || eth_type value
      then ok (record { ty = value })
      else err (unexpected_type value)

  -- `IsTyped2718::is_type` of the type.
  unfoldable pub is_type : ℕ → Bool
  unfolding try_from
  is_type ty = elim (try_from ty) [ ok t ↦ true | err e ↦ false ]

  -- `Decodable::decode`: the errors of `u8::decode` and of `try_from` are not told apart.
  unfoldable pub decode_type : Rlp → Bytes → Option (CosmosTxType × Bytes)
  decode_type c buf = elim (c.decode_uint 1 buf) [
    | none ↦ none
    | some (value, rest) ↦ elim (try_from value) [ ok t ↦ some (t, rest) | err e ↦ none ]
  ]

  -- `Compact::from_compact` with the identifier of `to_compact`. `none` is a panic: `buf[0]` of an
  -- empty buffer, an identifier beyond a byte, or a corrupt type.
  type_or_panic : ℕ → Bytes → Option (CosmosTxType × Bytes)
  type_or_panic ty rest = elim (try_from ty) [ ok t ↦ some (t, rest) | err e ↦ none ]

  from_first : Bytes → Option (CosmosTxType × Bytes)
  unfolding type_or_panic
  from_first [] = none
  from_first (b ∷ rest) = type_or_panic b rest

  unfoldable pub from_compact : Bytes → ℕ → Option (CosmosTxType × Bytes)
  unfolding type_or_panic from_first
  from_compact buf identifier =
      if identifier == 3
      then from_first buf
      else if ltb identifier 256
      then type_or_panic identifier buf
      else none

-- `Encodable::encode`.
unfoldable pub encode_type : Rlp → CosmosTxType → Bytes
encode_type c t = c.encode_uint t.ty

-- `Compact::to_compact`: the identifier, and the bytes that are written to the buffer.
unfoldable pub to_compact : CosmosTxType → ℕ × Bytes
to_compact t = if ltb t.ty 3 then (t.ty, []) else (3, t.ty ∷ [])
