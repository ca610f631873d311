-- ===== src/Extern/Rlp.antt =====
-- `alloy_rlp` (`Encodable`, `Decodable`, `Header`) and the byte order of `alloy_primitives::U256`.
-- `Encodable::length` and `Header::length` are the length of the encoding, and are written so.
-- A decoder takes the unread bytes and returns the value with the bytes behind it; `none` is an
-- `alloy_rlp::Error`, whose kind the repository never reads.
pub mod Ranges
use reth_cosmos.Prelude.{
  ℕ, ◌+◌, ◌^◌, ◌≤◌, ◌<◌, ◌≡◌, Bool, true, Option, some, ◌++◌, Bytes, IsBytes, length, take,
}

-- `alloy_rlp::Header`.
pub record Header : Type 0 where
  pub list : Bool
  pub payload_length : ℕ

-- `alloy_primitives::Signature`.
pub record Signature : Type 0 where
  pub r : ℕ
  pub s : ℕ
  pub v : Bool

pub record Rlp : Type 0 where
  -- `[u8]`, `Bytes`, and `B256` or `Address`, which encode as the string of their bytes.
  pub encode_bytes : Bytes → Bytes
  -- `u8`, `u64`, `u128` and `U256`.
  pub encode_uint : ℕ → Bytes
  pub encode_header : Header → Bytes
  pub decode_bytes : Bytes → Option (Bytes × Bytes)
  -- `FixedBytes<N>`: the first argument is `N`.
  pub decode_fixed : ℕ → Bytes → Option (Bytes × Bytes)
  -- The first argument is the type's width in bytes.
  pub decode_uint : ℕ → Bytes → Option (ℕ × Bytes)
  pub decode_header : Bytes → Option (Header × Bytes)
  -- `U256::from_be_slice`.
  pub from_be_slice : Bytes → ℕ
  -- `Signature::as_bytes`: `r`, `s` and the parity, 65 bytes.
  pub as_bytes : Signature → Bytes

-- Encoding and decoding are inverse, a decoder leaves what stands behind the value, and a value's
-- encoding is at most nine bytes longer than its payload.
pub record RlpLaws (c : Rlp) : Type 0 where
  pub bytes_round :
      (b rest : Bytes)
      → IsBytes b
      → length b < 2 ^ 64
      → c.decode_bytes (c.encode_bytes b ++ rest) ≡ some (b, rest)
  pub fixed_round :
      (n : ℕ) (b rest : Bytes)
      → IsBytes b
      → length b ≡ n
      → n < 2 ^ 64
      → c.decode_fixed n (c.encode_bytes b ++ rest) ≡ some (b, rest)
  pub uint_round :
      (w n : ℕ) (rest : Bytes)
      → n < 256 ^ w
      → w ≤ 32
      → c.decode_uint w (c.encode_uint n ++ rest) ≡ some (n, rest)
  pub list_round :
      (n : ℕ) (rest : Bytes)
      → n < 2 ^ 64
      → n ≤ length rest
      → c.decode_header (c.encode_header (record { list = true; payload_length = n }) ++ rest)
        ≡ some (record { list = true; payload_length = n }, rest)
  pub bytes_bytes : (b : Bytes) → IsBytes b → length b < 2 ^ 64 → IsBytes (c.encode_bytes b)
  pub uint_bytes : (w n : ℕ) → n < 256 ^ w → w ≤ 32 → IsBytes (c.encode_uint n)
  pub header_bytes :
      (n : ℕ) → n < 2 ^ 64 → IsBytes (c.encode_header (record { list = true; payload_length = n }))
  pub bytes_size :
      (b : Bytes) → IsBytes b → length b < 2 ^ 64 → length (c.encode_bytes b) ≤ length b + 9
  pub uint_size : (w n : ℕ) → n < 256 ^ w → w ≤ 32 → length (c.encode_uint n) ≤ w + 1
  pub header_size :
      (n : ℕ)
      → n < 2 ^ 64
      → length (c.encode_header (record { list = true; payload_length = n })) ≤ 9
  pub signature_round :
      (r s : Bytes) (v : Bool)
      → IsBytes r
      → IsBytes s
      → length r ≡ 32
      → length s ≡ 32
      → take 64 (c.as_bytes (record { r = c.from_be_slice r; s = c.from_be_slice s; v = v }))
        ≡ r ++ s
