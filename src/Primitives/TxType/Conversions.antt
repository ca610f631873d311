-- ===== src/Primitives/TxType/Conversions.antt =====
-- src/primitives/tx_type.rs: the other conversions of the type byte. `U8` is a number below 256.
use reth_cosmos.Prelude.{ℕ, Bool, Result, length}
use reth_cosmos.Extern.Rlp.{Rlp}
use reth_cosmos.Primitives.TxType.{CosmosTxType, TypeError, try_from}

-- `TryFrom<U8>`.
unfoldable pub try_from_u8 : (ℕ → Bool) → ℕ → Result TypeError CosmosTxType
try_from_u8 eth_type v = try_from eth_type v

-- `From<CosmosTxType> for U8`.
unfoldable pub into_u8 : CosmosTxType → ℕ
into_u8 t = t.ty

-- `From<alloy_consensus::TxType>`, of the type's byte.
unfoldable pub from_eth_type : ℕ → CosmosTxType
from_eth_type v = record { ty = v }

-- `Typed2718::ty`.
unfoldable pub type_byte : CosmosTxType → ℕ
type_byte t = t.ty

-- `InMemorySize::size`.
unfoldable pub type_size : CosmosTxType → ℕ
type_size t = 1

-- `Encodable::length`.
unfoldable pub type_length : Rlp → CosmosTxType → ℕ
type_length c t = length (c.encode_uint t.ty)
