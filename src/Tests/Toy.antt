-- ===== src/Tests/Toy.antt =====
-- Cryptography in the role of `k256`, `sha2`, `ripemd`, `base64` and `bech32`, that can be computed:
-- a key verifies the one signature that repeats the length of the message.
use reth_cosmos.Prelude.{
  arith, refl, IsBytes, ℕ, ◌%◌, ◌≡◌, Option, none, some, [], ◌∷◌, ◌++◌, Bytes, length, take, drop,
  replicate, leb, ◌==◌, bytes_eq, if◌then◌else◌,
}
use reth_cosmos.Extern.Crypto.{Crypto, Base64Laws}

unfoldable pub toy_signature : Bytes → Bytes
toy_signature message = replicate 64 (length message % 128)

first_of_s : Bytes → ℕ
first_of_s [] = 0
first_of_s (b ∷ bs) = b

unfoldable pub toy_normalize_s : Bytes → Option Bytes
unfolding first_of_s
toy_normalize_s sig = if leb 128 (first_of_s (drop 32 sig)) then some sig else none

abbrev pub toy : Crypto Bytes Bytes
toy = record {
  from_sec1_bytes = λ key. some key;
  sig_from_slice = λ sig. if length sig == 64 then some sig else none;
  normalize_s = toy_normalize_s;
  verifies = λ key message sig. bytes_eq sig (toy_signature message);
  sha256 = λ b. b;
  ripemd160 = λ b. take 20 b;
  keccak256 = λ b. take 32 b;
  base64 = λ b. b;
  bech32 = λ hrp b. hrp ++ b;
}

pub toy_laws : Base64Laws toy
toy_laws = record { base64_injective = λ a b h. h }

pub toy_signature-low : (message : Bytes) → toy_normalize_s (toy_signature message) ≡ none
unfolding toy_normalize_s toy_signature
toy_signature-low message = ground arith

pub toy_signature-IsBytes : (message : Bytes) → IsBytes (toy_signature message)
unfolding toy_signature
toy_signature-IsBytes message = omega arith

pub length-toy_signature : (message : Bytes) → length (toy_signature message) ≡ 64
unfolding toy_signature
length-toy_signature message = refl
