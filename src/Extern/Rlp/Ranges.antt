-- ===== src/Extern/Rlp/Ranges.antt =====
-- The ranges of what `alloy_rlp` decodes: a value is in the range of its type, and what stands behind
-- it is part of the input.
use reth_cosmos.Prelude.{ℕ, ◌^◌, ◌<◌, ◌≡◌, some, Bytes, IsBytes, length}
use reth_cosmos.Extern.Rlp.{Header, Rlp}

pub record RlpRanges (c : Rlp) : Type 0 where
  pub bytes_range :
      (buf b rest : Bytes)
      → IsBytes buf
      → c.decode_bytes buf ≡ some (b, rest)
      → IsBytes b × IsBytes rest
  pub fixed_range :
      (n : ℕ) (buf b rest : Bytes)
      → IsBytes buf
      → c.decode_fixed n buf ≡ some (b, rest)
      → IsBytes b × (length b ≡ n) × IsBytes rest
  pub uint_range :
      (w : ℕ) (buf : Bytes) (n : ℕ) (rest : Bytes)
      → IsBytes buf
      → c.decode_uint w buf ≡ some (n, rest)
      → (n < 256 ^ w) × IsBytes rest
  pub header_range :
      (buf : Bytes) (h : Header) (rest : Bytes)
      → IsBytes buf
      → c.decode_header buf ≡ some (h, rest)
      → IsBytes rest
