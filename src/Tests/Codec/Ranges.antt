-- ===== src/Tests/Codec/Ranges.antt =====
-- What the codec decodes is in the ranges of its types.
use reth_cosmos.Prelude.{
  ℕ, ◌-◌, ◌^◌, ◌≤◌, ◌<◌, ◌≡◌, subst, Bool, true, false, Option, none, some, [], ◌∷◌, Bytes, IsBytes,
  All-take, All-drop, arith, length, drop, leb, leb→le, ltb, Bool-cases, inl, inr, if◌then◌else◌,
}
use native.Mathlib.Nat.{pow-suc, pow-le-pow_right}
use reth_cosmos.Extern.Rlp.{Header}
use reth_cosmos.Extern.Rlp.Ranges.{RlpRanges}
use reth_cosmos.Tests.Codec.Digits.{rev, rev-IsBytes, length-rev, from_le}
use reth_cosmos.Tests.Codec.{
  codec, from_be, with_payload, decode_header, string_body, decode_bytes, fixed_body, decode_fixed,
  uint_body, decode_uint,
}

-- What stands behind a value.
abbrev Behind : {A : Type 0} → Option (A × Bytes) → Type 0
Behind none = Unit {0}
Behind (some (a, rest)) = IsBytes rest

Behind-some :
    {A : Type 0} (found : Option (A × Bytes)) {a : A} {rest : Bytes}
    → Behind found
    → found ≡ some (a, rest)
    → IsBytes rest
Behind-some found h e = subst Behind e h

if-Behind :
    {A : Type 0} (b : Bool) (x y : Option (A × Bytes))
    → Behind x
    → Behind y
    → Behind (if b then x else y)
if-Behind true x y h k = h
if-Behind false x y h k = k

with_payload-Behind :
    (is_list : Bool) (n : ℕ) (rest : Bytes) → IsBytes rest → Behind (with_payload is_list n rest)
unfolding with_payload
with_payload-Behind is_list n rest h = if-Behind (leb n (length rest)) _ none h tt

decode_header-Behind : (buf : Bytes) → IsBytes buf → Behind (decode_header buf)
unfolding decode_header
decode_header-Behind [] h = tt
decode_header-Behind (b ∷ rest) h =
    let dropped = λ (n : ℕ). All-drop (λ x. x < 256) n rest h.1 in
    if-Behind (ltb b 0x80) _ _ h (
      if-Behind (ltb b 0xb8) _ _ (with_payload-Behind false (b - 0x80) rest h.1) (
        if-Behind (ltb b 0xc0) _ _
          (with_payload-Behind false _ (drop (b - 0xb7) rest) (dropped (b - 0xb7)))
          (if-Behind (ltb b 0xf8) _ _ (with_payload-Behind true (b - 0xc0) rest h.1)
            (with_payload-Behind true _ (drop (b - 0xf7) rest) (dropped (b - 0xf7))))))

header_range :
    (buf : Bytes) (h : Header) (rest : Bytes)
    → IsBytes buf
    → decode_header buf ≡ some (h, rest)
    → IsBytes rest
header_range buf h rest b e = Behind-some (decode_header buf) (decode_header-Behind buf b) e

-- A string and what stands behind it.
abbrev Strings : Option (Bytes × Bytes) → Type 0
Strings none = Unit {0}
Strings (some (b, rest)) = IsBytes b × IsBytes rest

string_body-Strings : (found : Option (Header × Bytes)) → Behind found → Strings (string_body found)
unfolding string_body
string_body-Strings none h = tt
string_body-Strings (some (h, rest)) b = elim (Bool-cases h.list) [
  | inl e ↦ rw e tt
  | inr e ↦ rw e (
    (All-take (λ x. x < 256) h.payload_length rest b),
    All-drop (λ x. x < 256) h.payload_length rest b,
  )
]

decode_bytes-Strings : (buf : Bytes) → IsBytes buf → Strings (decode_bytes buf)
unfolding decode_bytes
decode_bytes-Strings buf b = string_body-Strings (decode_header buf) (decode_header-Behind buf b)

bytes_range :
    (buf b rest : Bytes)
    → IsBytes buf
    → decode_bytes buf ≡ some (b, rest)
    → IsBytes b × IsBytes rest
bytes_range buf b rest h e = subst Strings e (decode_bytes-Strings buf h)

fixed_body-range :
    (n : ℕ) (found : Option (Bytes × Bytes)) (b rest : Bytes)
    → Strings found
    → fixed_body n found ≡ some (b, rest)
    → IsBytes b × (length b ≡ n) × IsBytes rest
unfolding fixed_body
fixed_body-range n none b rest h e = absurd (ground arith)
fixed_body-range n (some (x, r)) b rest h e = ground (arith, h)

fixed_range :
    (n : ℕ) (buf b rest : Bytes)
    → IsBytes buf
    → decode_fixed n buf ≡ some (b, rest)
    → IsBytes b × (length b ≡ n) × IsBytes rest
unfolding decode_fixed
fixed_range n buf b rest h e =
    fixed_body-range n (decode_bytes buf) b rest (decode_bytes-Strings buf h) e

from_le-lt : (xs : Bytes) → IsBytes xs → from_le xs < 256 ^ length xs
unfolding from_le
from_le-lt [] h = omega arith
from_le-lt (x ∷ xs) h = omega (arith, pow-suc 256 (length xs), from_le-lt xs h.1, h.0)

pub from_be-lt : (w : ℕ) (b : Bytes) → IsBytes b → length b ≤ w → from_be b < 256 ^ w
unfolding from_be
from_be-lt w b h n = omega (
  arith,
  from_le-lt (rev b) (rev-IsBytes b h),
  length-rev b,
  pow-le-pow_right {n = 256} (omega arith) {i = length (rev b)} {j = w}
      (omega (arith, length-rev b)),
)

-- A number below a power of 256, and what stands behind it.
abbrev Ranged : ℕ → Option (ℕ × Bytes) → Type 0
Ranged w none = Unit {0}
Ranged w (some (n, rest)) = (n < 256 ^ w) × IsBytes rest

uint_body-range :
    (w : ℕ) (found : Option (Bytes × Bytes)) (n : ℕ) (rest : Bytes)
    → Strings found
    → uint_body w found ≡ some (n, rest)
    → (n < 256 ^ w) × IsBytes rest
unfolding uint_body
uint_body-range w none n rest h e = absurd (ground arith)
uint_body-range w (some (b, r)) n rest h e = elim (Bool-cases (leb (length b) w)) [
  | inl small ↦
      let same = rw small at e in
      subst (λ (p : Option (ℕ × Bytes)). Ranged w p) same
        (from_be-lt w b h.0 (leb→le _ _ small), h.1)
  | inr large ↦ absurd (ground (arith, e))
]

uint_range :
    (w : ℕ) (buf : Bytes) (n : ℕ) (rest : Bytes)
    → IsBytes buf
    → decode_uint w buf ≡ some (n, rest)
    → (n < 256 ^ w) × IsBytes rest
unfolding decode_uint
uint_range w buf n rest h e =
    uint_body-range w (decode_bytes buf) n rest (decode_bytes-Strings buf h) e

pub codec_ranges : RlpRanges codec
codec_ranges = record {
  bytes_range = bytes_range;
  fixed_range = fixed_range;
  uint_range = uint_range;
  header_range = header_range;
}
