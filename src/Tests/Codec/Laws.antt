-- ===== src/Tests/Codec/Laws.antt =====
-- The laws of `Extern.Rlp` hold of the codec.
use reth_cosmos.Prelude.{
  ℕ, suc, ◌+◌, ◌-◌, ◌^◌, ◌≤◌, ◌<◌, ◌≡◌, refl, ◌∙◌, ap, Bool, true, false, some, [], ◌∷◌, ◌++◌,
  arith, Bytes, IsBytes, All-append, length, length-append, take, take-append, drop-append,
  append_assoc, Bool-cases, inl, inr, leb, le→leb,
}
use native.Mathlib.Nat.{pow-le-pow_right}
use reth_cosmos.Extern.Rlp.{RlpLaws}
use reth_cosmos.Tests.Codec.Digits.{
  rev, rev-rev, length-rev, rev-IsBytes, le_digits, le_pad, from_le, from_le-le_digits,
  le_digits-IsBytes, length-le_digits, length-le_digits_fuel, le_pad-from_le,
}
use reth_cosmos.Tests.Codec.{
  to_be, from_be, header_base, encode_header, with_payload, decode_header, encode_bytes,
  string_body, decode_bytes, fixed_body, uint_body, encode_uint, decode_uint, decode_fixed,
  as_bytes, codec,
}

from_be-to_be : (f n : ℕ) → n < 256 ^ f → from_be (to_be f n) ≡ n
unfolding from_be to_be
from_be-to_be f n h = rw (rev-rev (le_digits f n)) (from_le-le_digits f n h)

to_be-IsBytes : (f n : ℕ) → IsBytes (to_be f n)
unfolding to_be
to_be-IsBytes f n = rev-IsBytes (le_digits f n) (le_digits-IsBytes f n)

length-to_be : (f w n : ℕ) → n < 256 ^ w → length (to_be f n) ≤ w
unfolding to_be
length-to_be f w n h = omega (arith, length-rev (le_digits f n), length-le_digits f w n h)

length-to_be_fuel : (n : ℕ) → length (to_be 32 n) ≤ 32
unfolding to_be
length-to_be_fuel n = omega (arith, length-rev (le_digits 32 n), length-le_digits_fuel 32 n)

length-to_be_pos : (n : ℕ) → 0 < n → 1 ≤ length (to_be 8 n)
unfolding to_be le_digits
length-to_be_pos n h = ground (arith, length-rev (le_digits 8 n))

with_payload_lem :
    (b : Bool) (n : ℕ) (rest : Bytes)
    → n ≤ length rest
    → with_payload b n rest ≡ some (record { list = b; payload_length = n }, rest)
unfolding with_payload
with_payload_lem b n rest h = ground arith

decode_short :
    (b : Bool) (n : ℕ) (rest : Bytes)
    → n ≤ 55
    → decode_header ((header_base b + n) ∷ rest) ≡ with_payload b n rest
unfolding decode_header header_base with_payload
decode_short true n rest h = ground arith
decode_short false n rest h = ground arith

decode_long :
    (b : Bool) (l rest : Bytes)
    → 1 ≤ length l
    → length l ≤ 8
    → decode_header ((header_base b + 55 + length l) ∷ (l ++ rest))
      ≡ with_payload b (from_be l) rest
unfolding decode_header header_base
decode_long true l rest h k =
    let e : 0xc0 + 55 + length l - 0xf7 ≡ length l = omega arith in
    rw (e, take-append (length l) l rest refl, drop-append (length l) l rest refl) (ground arith)
decode_long false l rest h k =
    let e : 0x80 + 55 + length l - 0xb7 ≡ length l = omega arith in
    rw (e, take-append (length l) l rest refl, drop-append (length l) l rest refl) (ground arith)

header_round :
    (b : Bool) (n : ℕ) (rest : Bytes)
    → n < 2 ^ 64
    → n ≤ length rest
    → decode_header (encode_header (record { list = b; payload_length = n }) ++ rest)
      ≡ some (record { list = b; payload_length = n }, rest)
unfolding encode_header
header_round b n rest h k = elim (Bool-cases (leb n 55)) [
  | inl e ↦ rw e (decode_short b n rest (ground arith) ∙ with_payload_lem b n rest k)
  | inr e ↦ rw e (
      decode_long b (to_be 8 n) rest (length-to_be_pos n (ground arith))
        (length-to_be 8 8 n (omega arith))
      ∙ rw (from_be-to_be 8 n (omega arith)) (with_payload_lem b n rest k))
]

header_IsBytes :
    (b : Bool) (n : ℕ)
    → n < 2 ^ 64
    → IsBytes (encode_header (record { list = b; payload_length = n }))
unfolding encode_header header_base
header_IsBytes true n h = ground (arith, to_be-IsBytes 8 n, length-to_be 8 8 n)
header_IsBytes false n h = ground (arith, to_be-IsBytes 8 n, length-to_be 8 8 n)

length-header :
    (b : Bool) (n : ℕ)
    → n < 2 ^ 64
    → length (encode_header (record { list = b; payload_length = n })) ≤ 9
unfolding encode_header
length-header b n h = ground (arith, length-to_be 8 8 n)

string_body_lem :
    (n : ℕ) (b rest : Bytes)
    → length b ≡ n
    → string_body (some (record { list = false; payload_length = n }, b ++ rest)) ≡ some (b, rest)
unfolding string_body
string_body_lem n b rest h = rw (take-append n b rest h, drop-append n b rest h)

bytes_round_nil : (rest : Bytes) → decode_bytes (encode_bytes [] ++ rest) ≡ some ([], rest)
unfolding decode_bytes encode_bytes decode_header with_payload string_body
bytes_round_nil rest = ground arith

bytes_round_one :
    (x : ℕ) (rest : Bytes) → decode_bytes (encode_bytes (x ∷ []) ++ rest) ≡ some (x ∷ [], rest)
unfolding decode_bytes encode_bytes decode_header with_payload string_body
bytes_round_one x rest = ground arith

bytes_round_many :
    (x y : ℕ) (zs rest : Bytes)
    → length (x ∷ y ∷ zs) < 2 ^ 64
    → decode_bytes (encode_bytes (x ∷ y ∷ zs) ++ rest) ≡ some (x ∷ y ∷ zs, rest)
unfolding decode_bytes encode_bytes
bytes_round_many x y zs rest k =
    let n : ℕ = length (x ∷ y ∷ zs) in
    rw
      (append_assoc (encode_header (record { list = false; payload_length = n })) (x ∷ y ∷ zs) rest)
      (rw (header_round false n (x ∷ y ∷ zs ++ rest) k (omega (arith, length-append zs rest)))
        (string_body_lem n (x ∷ y ∷ zs) rest refl))

bytes_round :
    (b rest : Bytes) → length b < 2 ^ 64 → decode_bytes (encode_bytes b ++ rest) ≡ some (b, rest)
bytes_round [] rest k = bytes_round_nil rest
bytes_round (x ∷ []) rest k = bytes_round_one x rest
bytes_round (x ∷ y ∷ zs) rest k = bytes_round_many x y zs rest k

bytes_IsBytes : (b : Bytes) → IsBytes b → length b < 2 ^ 64 → IsBytes (encode_bytes b)
unfolding encode_bytes
bytes_IsBytes [] h k = (omega arith, tt)
bytes_IsBytes (x ∷ []) h k = ground arith
bytes_IsBytes (x ∷ y ∷ zs) h k =
    All-append (λ z. z < 256) (encode_header _) (x ∷ y ∷ zs) (header_IsBytes false _ k) h

length-bytes : (b : Bytes) → length b < 2 ^ 64 → length (encode_bytes b) ≤ length b + 9
unfolding encode_bytes
length-bytes [] k = omega arith
length-bytes (x ∷ []) k = ground arith
length-bytes (x ∷ y ∷ zs) k = omega (
  arith,
  length-append (encode_header (record { list = false; payload_length = suc (suc (length zs)) }))
      (x ∷ y ∷ zs),
  length-header false (suc (suc (length zs))) k,
)

-- A string of at most 32 bytes has a header of one byte.
length-bytes_short : (b : Bytes) → length b ≤ 32 → length (encode_bytes b) ≤ length b + 1
unfolding encode_bytes encode_header
length-bytes_short [] k = omega arith
length-bytes_short (x ∷ []) k = ground arith
length-bytes_short (x ∷ y ∷ zs) k = ground arith

fixed_round :
    (n : ℕ) (b rest : Bytes)
    → length b ≡ n
    → n < 2 ^ 64
    → decode_fixed n (encode_bytes b ++ rest) ≡ some (b, rest)
unfolding decode_fixed fixed_body
fixed_round n b rest h k = rw (bytes_round b rest (omega arith)) (ground arith)

width_pow : (w : ℕ) → w ≤ 32 → (n : ℕ) → n < 256 ^ w → n < 256 ^ 32
width_pow w h n k = omega (arith, pow-le-pow_right {n = 256} (omega arith) h)

uint_round :
    (w n : ℕ) (rest : Bytes)
    → n < 256 ^ w
    → w ≤ 32
    → decode_uint w (encode_uint n ++ rest) ≡ some (n, rest)
unfolding decode_uint encode_uint uint_body
uint_round w n rest h k =
    let small = length-to_be 32 w n h in
    rw (
      bytes_round (to_be 32 n) rest (omega arith),
      from_be-to_be 32 n (width_pow w k n h),
      le→leb _ _ small,
    )

uint_IsBytes : (n : ℕ) → IsBytes (encode_uint n)
unfolding encode_uint
uint_IsBytes n =
    bytes_IsBytes (to_be 32 n) (to_be-IsBytes 32 n) (omega (arith, length-to_be_fuel n))

length-uint : (w n : ℕ) → n < 256 ^ w → w ≤ 32 → length (encode_uint n) ≤ w + 1
unfolding encode_uint
length-uint w n h k =
    omega (arith, length-bytes_short (to_be 32 n) (length-to_be_fuel n), length-to_be 32 w n h)

pad_round : (b : Bytes) → IsBytes b → length b ≡ 32 → rev (le_pad 32 (from_le (rev b))) ≡ b
pad_round b h k =
    let e : length (rev b) ≡ 32 = length-rev b ∙ k in
    let p = le_pad-from_le (rev b) (rev-IsBytes b h) in ap rev (rw e at p) ∙ rev-rev b

signature_round :
    (r s : Bytes) (v : Bool)
    → IsBytes r
    → IsBytes s
    → length r ≡ 32
    → length s ≡ 32
    → take 64 (as_bytes (record { r = from_be r; s = from_be s; v = v })) ≡ r ++ s
unfolding as_bytes from_be
signature_round r s v h k m n =
    rw (pad_round r h m, pad_round s k n, ← append_assoc r s _)
      (take-append 64 (r ++ s) _ (omega (arith, length-append r s)))

-- The codec obeys every law.
pub codec_laws : RlpLaws codec
codec_laws = record {
  bytes_round = λ b rest h k. bytes_round b rest k;
  fixed_round = λ n b rest h k m. fixed_round n b rest k m;
  uint_round = uint_round;
  list_round = λ n rest h k. header_round true n rest h k;
  bytes_bytes = bytes_IsBytes;
  uint_bytes = λ w n h k. uint_IsBytes n;
  header_bytes = λ n h. header_IsBytes true n h;
  bytes_size = λ b h k. length-bytes b k;
  uint_size = length-uint;
  header_size = λ n h. length-header true n h;
  signature_round = signature_round;
}
