-- ===== src/Extern/Crypto.antt =====
-- `k256`, `sha2`, `ripemd`, `alloy_primitives::keccak256`, `base64` and `bech32`. `Key` is
-- `k256::ecdsa::VerifyingKey` and `Sig` is `k256::ecdsa::Signature`.
use reth_cosmos.Prelude.{◌≡◌, Bool, Option, Bytes}

pub record Crypto (Key Sig : Type 0) : Type 0 where
  -- `VerifyingKey::from_sec1_bytes`: `none` if the bytes are no point of the curve.
  pub from_sec1_bytes : Bytes → Option Key
  -- `Signature::from_slice`: `none` unless 64 bytes with nonzero scalars in range.
  pub sig_from_slice : Bytes → Option Sig
  -- `Signature::normalize_s`: `some` of the low form if `s` is high, and `none` otherwise.
  pub normalize_s : Sig → Option Sig
  -- `VerifyingKey::verify` of a message, which it hashes itself.
  pub verifies : Key → Bytes → Sig → Bool
  pub sha256 : Bytes → Bytes
  pub ripemd160 : Bytes → Bytes
  pub keccak256 : Bytes → Bytes
  -- `STANDARD.encode`.
  pub base64 : Bytes → Bytes
  -- `bech32::encode` of the human-readable part and `to_base32` of the bytes, original variant.
  pub bech32 : Bytes → Bytes → Bytes

-- Base64 can be decoded.
pub record Base64Laws {Key Sig : Type 0} (c : Crypto Key Sig) : Type 0 where
  pub base64_injective : (a b : Bytes) → c.base64 a ≡ c.base64 b → a ≡ b
