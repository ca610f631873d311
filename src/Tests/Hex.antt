-- ===== src/Tests/Hex.antt =====
-- A parser of hexadecimal text, and the requests that the endpoint accepts by it.
use reth_cosmos.Prelude.{
  ℕ, ◌+◌, ◌-◌, ◌*◌, ◌/◌, ◌%◌, ◌<◌, ◌≡◌, refl, ◌&&◌, Option, none, some, [], ◌∷◌, ◌++◌, Bytes,
  IsBytes, ok, ltb, ◌==◌, arith, if◌then◌else◌, Bool-cases, inl, inr, subst,
}
use reth_cosmos.Extern.Json.{codes}
use reth_cosmos.Auth.Wire.{encode_wire}
use reth_cosmos.Auth.Wire.Exact.{IsWire}
use reth_cosmos.Node.Endpoint.{admit}
use reth_cosmos.Node.Endpoint.Text.{digit, hex, HexLaws, admit-text}
use reth_cosmos.Tests.Codec.{codec}
use reth_cosmos.Tests.Codec.Laws.{codec_laws}
use reth_cosmos.Tests.Codec.Ranges.{codec_ranges}
use reth_cosmos.Tests.Fixture.{
  fixture_operation, fixture_operation-IsOperation, fixture_key, fixture_key-IsBytes,
  fixture_signature, fixture_signature-IsBytes,
}

unfoldable digit_value : ℕ → ℕ
digit_value c = if ltb c 58 then c - 48 else c - 87

unfoldable put : ℕ → Option Bytes → Option Bytes
put b none = none
put b (some bs) = if ltb b 256 then some (b ∷ bs) else none

unfoldable pairs : Bytes → Option Bytes
unfolding put digit_value
pairs [] = some []
pairs (h ∷ []) = none
pairs (h ∷ l ∷ rest) = put (16 * digit_value h + digit_value l) (pairs rest)

unfoldable parse_hex : Bytes → Option Bytes
parse_hex [] = none
parse_hex (z ∷ []) = none
parse_hex (z ∷ x ∷ rest) = if z == 48 && x == 120 then pairs rest else none

some-injective : {a b : Bytes} → ◌≡◌ {A = Option Bytes} (some a) (some b) → a ≡ b
some-injective h = cc

put-IsBytes :
    (b : ℕ) (o : Option Bytes) {bytes : Bytes}
    → ((bs : Bytes) → o ≡ some bs → IsBytes bs)
    → put b o ≡ some bytes
    → IsBytes bytes
unfolding put
put-IsBytes b none ih h = absurd (ground arith)
put-IsBytes b (some bs) {bytes} ih h = elim (Bool-cases (ltb b 256)) [
  | inl small ↦ subst IsBytes (some-injective (rw small at h)) (ground (arith, small), ih bs refl)
  | inr large ↦ absurd (ground (arith, rw large at h))
]

put_small : (b : ℕ) (bs : Bytes) → b < 256 → put b (some bs) ≡ some (b ∷ bs)
unfolding put
put_small b bs h = ground arith

pairs-IsBytes : (text : Bytes) {bytes : Bytes} → pairs text ≡ some bytes → IsBytes bytes
unfolding pairs
pairs-IsBytes [] h = subst IsBytes (some-injective h) tt
pairs-IsBytes (x ∷ []) h = absurd (ground arith)
pairs-IsBytes (x ∷ y ∷ rest) h =
    put-IsBytes (16 * digit_value x + digit_value y) (pairs rest) (λ bs e. pairs-IsBytes rest e) h

parse_hex-IsBytes : (text bytes : Bytes) → parse_hex text ≡ some bytes → IsBytes bytes
unfolding parse_hex
parse_hex-IsBytes [] bytes h = absurd (ground arith)
parse_hex-IsBytes (z ∷ []) bytes h = absurd (ground arith)
parse_hex-IsBytes (z ∷ x ∷ rest) bytes h = elim (Bool-cases (z == 48 && x == 120)) [
  | inl e ↦ pairs-IsBytes rest (rw e at h)
  | inr e ↦ absurd (ground (arith, rw e at h))
]

digit_value-digit : (n : ℕ) → n < 16 → digit_value (digit n) ≡ n
unfolding digit digit_value
digit_value-digit n h = ground arith

byte_value :
    (b : ℕ) → b < 256 → 16 * digit_value (digit (b / 16)) + digit_value (digit (b % 16)) ≡ b
byte_value b h =
    omega
      (arith, digit_value-digit (b / 16) (omega arith), digit_value-digit (b % 16) (omega arith))

pairs-hex : (b : Bytes) → IsBytes b → pairs (hex b) ≡ some b
unfolding pairs hex
pairs-hex [] h = refl
pairs-hex (b ∷ bs) h = rw (pairs-hex bs h.1, byte_value b h.0) (put_small b bs h.0)

parse_hex_laws : HexLaws parse_hex
unfolding parse_hex
parse_hex_laws = record { parses_bytes = parse_hex-IsBytes; reads = λ b h. pairs-hex b h }

-- The parts of the fixture.
fixture_IsWire : IsWire fixture_operation fixture_key fixture_signature
fixture_IsWire = record {
  range = fixture_operation-IsOperation;
  within = omega arith;
  key_bytes = fixture_key-IsBytes;
  key_length = refl;
  sig_bytes = fixture_signature-IsBytes;
  sig_length = refl;
}

admit-text_example :
    admit codec parse_hex 3071
      (some (codes "0x" ++ hex (encode_wire codec fixture_operation fixture_key fixture_signature)))
    ≡ ok (encode_wire codec fixture_operation fixture_key fixture_signature)
admit-text_example =
    admit-text codec codec_laws codec_ranges fixture_operation fixture_key fixture_signature
      fixture_IsWire parse_hex parse_hex_laws 3071 (omega arith)
