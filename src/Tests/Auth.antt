-- ===== src/Tests/Auth.antt =====
-- crates/cosmos-auth/tests/authorization.rs and the properties of `Auth` at the fixture.
use reth_cosmos.Prelude.{◌↔◌, ◌≡◌, ◌≢◌, ap, refl, ok, arith, bytes_eq}
use reth_cosmos.Auth.{Operation, validate_limits, genesis_hash_const}
use reth_cosmos.Auth.Payload.{
  payload, decode_payload, list, list_body, payload_fields, decode_operation,
}
use reth_cosmos.Auth.Wire.{encode_wire, wire_fields, decode_wire}
use reth_cosmos.Auth.Wire.RoundTrip.{decode_wire-encode_wire}
use reth_cosmos.Auth.Wire.Exact.{IsWire, decode_wire_iff}
use reth_cosmos.Auth.Sign.{sign_bytes, verify}
use reth_cosmos.Auth.Sign.Document.{sign_bytes-binds}
use reth_cosmos.Auth.Sign.Verify.{IsAuthorized, verify_complete, verify_sound}
use reth_cosmos.Tests.Codec.{
  codec, encode_bytes, encode_header, encode_uint, decode_bytes, decode_header, decode_uint,
  decode_fixed, to_be, from_be, header_base, with_payload, string_body, fixed_body, uint_body,
}
use reth_cosmos.Tests.Codec.Digits.{rev, le_digits, from_le}
use reth_cosmos.Tests.Codec.Ranges.{codec_ranges}
use reth_cosmos.Tests.Codec.Laws.{codec_laws}
use reth_cosmos.Tests.Json.{to_vec, to_vec_laws}
use reth_cosmos.Tests.Toy.{toy, toy_laws}
use reth_cosmos.Tests.Accounts.{toy_operation, toy_sig, toy_authorized}
use reth_cosmos.Tests.Fixture.{
  fixture_operation, fixture_operation-IsOperation, local_operation, local_operation-IsOperation,
  local_operation-IsWithin, fixture_key, fixture_key-IsBytes, fixture_signature,
  fixture_signature-IsBytes, fixture_payload, fixture_raw,
}

payload_fixture : payload codec fixture_operation ≡ fixture_payload
unfolding payload list payload_fields encode_bytes encode_header encode_uint to_be header_base rev
    le_digits
payload_fixture = refl

raw_fixture : encode_wire codec fixture_operation fixture_key fixture_signature ≡ fixture_raw
unfolding encode_wire wire_fields payload list payload_fields encode_bytes encode_header encode_uint
    to_be header_base rev le_digits
raw_fixture = refl

payload_accepted : decode_payload codec fixture_payload ≡ ok fixture_operation
unfolding decode_payload list_body decode_operation payload list payload_fields validate_limits
    bytes_eq encode_bytes encode_header encode_uint decode_bytes decode_header decode_uint
    decode_fixed to_be from_be header_base with_payload string_body fixed_body uint_body rev
    le_digits from_le
payload_accepted = refl

pub raw_accepted :
    decode_wire codec fixture_raw ≡ ok (fixture_operation, fixture_key, fixture_signature)
raw_accepted = rw (← raw_fixture) (
    decode_wire-encode_wire codec codec_laws fixture_operation fixture_key fixture_signature
      fixture_operation-IsOperation (omega arith) fixture_key-IsBytes refl fixture_signature-IsBytes
      refl)

decode_wire_iff_example :
    (decode_wire codec fixture_raw ≡ ok (fixture_operation, fixture_key, fixture_signature)) ↔ (
      IsWire fixture_operation fixture_key fixture_signature
      × (encode_wire codec fixture_operation fixture_key fixture_signature ≡ fixture_raw))
decode_wire_iff_example =
    decode_wire_iff codec codec_ranges codec_laws fixture_raw fixture_operation fixture_key
      fixture_signature (omega arith)

-- The same operation with the next nonce.
abbrev next_operation : Operation
next_operation = record local_operation { nonce = 1 }

sign_bytes-binds_example :
    sign_bytes codec toy to_vec local_operation ≢ sign_bytes codec toy to_vec next_operation
sign_bytes-binds_example =
    sign_bytes-binds codec codec_laws toy toy_laws to_vec to_vec_laws local_operation next_operation
      local_operation-IsOperation local_operation-IsWithin (omega arith) (omega arith)
      (λ e. absurd (omega (arith, ap (λ (o : Operation). o.nonce) e)))

verify_complete_example :
    verify codec toy to_vec toy_operation fixture_key toy_sig genesis_hash_const
    ≡ ok toy_operation.sender
verify_complete_example =
    verify_complete codec toy to_vec toy_operation fixture_key toy_sig genesis_hash_const
      (toy_authorized toy_sig refl)

verify_sound_example :
    (toy_operation.sender ≡ toy_operation.sender)
    × IsAuthorized codec toy to_vec toy_operation fixture_key toy_sig genesis_hash_const
verify_sound_example =
    verify_sound codec toy to_vec toy_operation fixture_key toy_sig genesis_hash_const
      verify_complete_example
