-- ===== src/Tests/Codec.antt =====
-- A codec for RLP, in the role of `alloy_rlp`: it shows that the laws of `Extern.Rlp` can hold.
pub mod Digits
pub mod Laws
pub mod Ranges
use reth_cosmos.Prelude.{
  ℕ, suc, ◌+◌, ◌-◌, Bool, true, false, ◌&&◌, Option, none, some, [], ◌∷◌, ◌++◌, Bytes, length, take,
  drop, leb, ltb, if◌then◌else◌,
}
use reth_cosmos.Extern.Rlp.{Header, Signature, Rlp}
use reth_cosmos.Tests.Codec.Digits.{rev, le_digits, le_pad, from_le}

unfoldable pub to_be : ℕ → ℕ → Bytes
to_be fuel n = rev (le_digits fuel n)

unfoldable pub from_be : Bytes → ℕ
from_be b = from_le (rev b)

unfoldable pub header_base : Bool → ℕ
header_base true = 0xc0
header_base false = 0x80

unfoldable pub encode_header : Header → Bytes
encode_header h =
    if leb h.payload_length 55
    then (header_base h.list + h.payload_length) ∷ []
    else (header_base h.list + 55 + length (to_be 8 h.payload_length)) ∷ to_be 8 h.payload_length

-- The payload has to be there.
unfoldable pub with_payload : Bool → ℕ → Bytes → Option (Header × Bytes)
with_payload is_list n rest =
    if leb n (length rest) then some (record { list = is_list; payload_length = n }, rest) else none

unfoldable pub decode_header : Bytes → Option (Header × Bytes)
decode_header [] = none
decode_header (b ∷ rest) =
    if ltb b 0x80
    then some (record { list = false; payload_length = 1 }, b ∷ rest)
    else if ltb b 0xb8
    then with_payload false (b - 0x80) rest
    else if ltb b 0xc0
    then with_payload false (from_be (take (b - 0xb7) rest)) (drop (b - 0xb7) rest)
    else if ltb b 0xf8
    then with_payload true (b - 0xc0) rest
    else with_payload true (from_be (take (b - 0xf7) rest)) (drop (b - 0xf7) rest)

unfoldable pub encode_bytes : Bytes → Bytes
encode_bytes [] = 0x80 ∷ []
encode_bytes (x ∷ []) = if ltb x 0x80 then x ∷ [] else 0x81 ∷ x ∷ []
encode_bytes (x ∷ y ∷ zs) =
    encode_header (record { list = false; payload_length = suc (suc (length zs)) }) ++ x ∷ y ∷ zs

unfoldable pub string_body : Option (Header × Bytes) → Option (Bytes × Bytes)
string_body none = none
string_body (some (h, rest)) =
    if h.list then none else some (take h.payload_length rest, drop h.payload_length rest)

unfoldable pub decode_bytes : Bytes → Option (Bytes × Bytes)
decode_bytes raw = string_body (decode_header raw)

unfoldable pub fixed_body : ℕ → Option (Bytes × Bytes) → Option (Bytes × Bytes)
fixed_body n none = none
fixed_body n (some (b, rest)) =
    if leb n (length b) && leb (length b) n then some (b, rest) else none

unfoldable pub uint_body : ℕ → Option (Bytes × Bytes) → Option (ℕ × Bytes)
uint_body w none = none
uint_body w (some (b, rest)) = if leb (length b) w then some (from_be b, rest) else none

unfoldable pub decode_fixed : ℕ → Bytes → Option (Bytes × Bytes)
decode_fixed n raw = fixed_body n (decode_bytes raw)

unfoldable pub encode_uint : ℕ → Bytes
encode_uint n = encode_bytes (to_be 32 n)

unfoldable pub decode_uint : ℕ → Bytes → Option (ℕ × Bytes)
decode_uint w raw = uint_body w (decode_bytes raw)

unfoldable pub as_bytes : Signature → Bytes
as_bytes g = rev (le_pad 32 g.r) ++ (rev (le_pad 32 g.s) ++ (if g.v then 28 else 27) ∷ [])

abbrev pub codec : Rlp
codec = record {
  encode_bytes = encode_bytes;
  encode_uint = encode_uint;
  encode_header = encode_header;
  decode_bytes = decode_bytes;
  decode_fixed = decode_fixed;
  decode_uint = decode_uint;
  decode_header = decode_header;
  from_be_slice = from_be;
  as_bytes = as_bytes;
}
