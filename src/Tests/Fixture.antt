-- ===== src/Tests/Fixture.antt =====
-- fixtures/adr036-v1.json: the operation, key and signature made independently by CosmJS, and what
-- the Rust tests compare them with.
use reth_cosmos.Prelude.{[], ◌∷◌, Bytes, IsBytes, arith}
use reth_cosmos.Auth.{Operation, IsOperation, genesis_hash_const}
use reth_cosmos.Auth.Limits.{IsWithin}

abbrev pub fixture_sender : Bytes
fixture_sender =
    0x75 ∷ 0x1e ∷ 0x76 ∷ 0xe8 ∷ 0x19 ∷ 0x91 ∷ 0x96 ∷ 0xd4 ∷ 0x54 ∷ 0x94 ∷ 0x1c ∷ 0x45 ∷ 0xd1 ∷ 0xb3
    ∷ 0xa3 ∷ 0x23 ∷ 0xf1 ∷ 0x43 ∷ 0x3b ∷ 0xd6 ∷ []

abbrev pub fixture_to : Bytes
fixture_to =
    0x00 ∷ 0x00 ∷ 0x00 ∷ 0x00 ∷ 0x00 ∷ 0x00 ∷ 0x00 ∷ 0x00 ∷ 0x00 ∷ 0x00 ∷ 0x00 ∷ 0x00 ∷ 0x00 ∷ 0x00
    ∷ 0x00 ∷ 0x00 ∷ 0x00 ∷ 0x00 ∷ 0x20 ∷ 0x00 ∷ []

abbrev pub fixture_operation : Operation
fixture_operation = record {
  chain_id = 366036;
  genesis_hash =
      0x11 ∷ 0x11 ∷ 0x11 ∷ 0x11 ∷ 0x11 ∷ 0x11 ∷ 0x11 ∷ 0x11 ∷ 0x11 ∷ 0x11 ∷ 0x11 ∷ 0x11 ∷ 0x11
      ∷ 0x11 ∷ 0x11 ∷ 0x11 ∷ 0x11 ∷ 0x11 ∷ 0x11 ∷ 0x11 ∷ 0x11 ∷ 0x11 ∷ 0x11 ∷ 0x11 ∷ 0x11 ∷ 0x11
      ∷ 0x11 ∷ 0x11 ∷ 0x11 ∷ 0x11 ∷ 0x11 ∷ 0x11 ∷ [];
  sender = fixture_sender;
  nonce = 0;
  to = fixture_to;
  value = 123456789;
  input = [];
  gas_limit = 21000;
  max_fee_per_gas = 2000000000;
  max_priority_fee_per_gas = 100000000;
}

-- The same operation on the experiment's own chain.
abbrev pub local_operation : Operation
local_operation = record fixture_operation { genesis_hash = genesis_hash_const }

abbrev pub fixture_key : Bytes
fixture_key =
    0x02 ∷ 0x79 ∷ 0xbe ∷ 0x66 ∷ 0x7e ∷ 0xf9 ∷ 0xdc ∷ 0xbb ∷ 0xac ∷ 0x55 ∷ 0xa0 ∷ 0x62 ∷ 0x95 ∷ 0xce
    ∷ 0x87 ∷ 0x0b ∷ 0x07 ∷ 0x02 ∷ 0x9b ∷ 0xfc ∷ 0xdb ∷ 0x2d ∷ 0xce ∷ 0x28 ∷ 0xd9 ∷ 0x59 ∷ 0xf2
    ∷ 0x81 ∷ 0x5b ∷ 0x16 ∷ 0xf8 ∷ 0x17 ∷ 0x98 ∷ []

abbrev pub fixture_signature : Bytes
fixture_signature =
    0xb6 ∷ 0xde ∷ 0x0a ∷ 0x57 ∷ 0x12 ∷ 0xa7 ∷ 0xe2 ∷ 0x91 ∷ 0xca ∷ 0x8a ∷ 0x45 ∷ 0x06 ∷ 0x56 ∷ 0xff
    ∷ 0x7d ∷ 0x2e ∷ 0x00 ∷ 0xfd ∷ 0x9c ∷ 0x1e ∷ 0x2d ∷ 0x45 ∷ 0x74 ∷ 0x83 ∷ 0x9f ∷ 0x4c ∷ 0x4f
    ∷ 0x97 ∷ 0x33 ∷ 0x9a ∷ 0xf9 ∷ 0x76 ∷ 0x1e ∷ 0x99 ∷ 0xcc ∷ 0xe0 ∷ 0xe1 ∷ 0xd4 ∷ 0x3d ∷ 0xac
    ∷ 0x26 ∷ 0x2b ∷ 0x20 ∷ 0x43 ∷ 0xf6 ∷ 0x3c ∷ 0x88 ∷ 0xaf ∷ 0x35 ∷ 0x9e ∷ 0x7c ∷ 0xb8 ∷ 0x79
    ∷ 0x46 ∷ 0x46 ∷ 0x1d ∷ 0x0f ∷ 0x09 ∷ 0xc7 ∷ 0xbe ∷ 0xc8 ∷ 0x7b ∷ 0x9e ∷ 0x23 ∷ []

abbrev pub fixture_payload : Bytes
fixture_payload =
    0xf8 ∷ 0x77 ∷ 0x92 ∷ 0x72 ∷ 0x65 ∷ 0x74 ∷ 0x68 ∷ 0x2d ∷ 0x63 ∷ 0x6f ∷ 0x73 ∷ 0x6d ∷ 0x6f ∷ 0x73
    ∷ 0x2d ∷ 0x61 ∷ 0x64 ∷ 0x72 ∷ 0x30 ∷ 0x33 ∷ 0x36 ∷ 0x01 ∷ 0x83 ∷ 0x05 ∷ 0x95 ∷ 0xd4 ∷ 0xa0
    ∷ 0x11 ∷ 0x11 ∷ 0x11 ∷ 0x11 ∷ 0x11 ∷ 0x11 ∷ 0x11 ∷ 0x11 ∷ 0x11 ∷ 0x11 ∷ 0x11 ∷ 0x11 ∷ 0x11
    ∷ 0x11 ∷ 0x11 ∷ 0x11 ∷ 0x11 ∷ 0x11 ∷ 0x11 ∷ 0x11 ∷ 0x11 ∷ 0x11 ∷ 0x11 ∷ 0x11 ∷ 0x11 ∷ 0x11
    ∷ 0x11 ∷ 0x11 ∷ 0x11 ∷ 0x11 ∷ 0x11 ∷ 0x11 ∷ 0x94 ∷ 0x75 ∷ 0x1e ∷ 0x76 ∷ 0xe8 ∷ 0x19 ∷ 0x91
    ∷ 0x96 ∷ 0xd4 ∷ 0x54 ∷ 0x94 ∷ 0x1c ∷ 0x45 ∷ 0xd1 ∷ 0xb3 ∷ 0xa3 ∷ 0x23 ∷ 0xf1 ∷ 0x43 ∷ 0x3b
    ∷ 0xd6 ∷ 0x80 ∷ 0x94 ∷ 0x00 ∷ 0x00 ∷ 0x00 ∷ 0x00 ∷ 0x00 ∷ 0x00 ∷ 0x00 ∷ 0x00 ∷ 0x00 ∷ 0x00
    ∷ 0x00 ∷ 0x00 ∷ 0x00 ∷ 0x00 ∷ 0x00 ∷ 0x00 ∷ 0x00 ∷ 0x00 ∷ 0x20 ∷ 0x00 ∷ 0x84 ∷ 0x07 ∷ 0x5b
    ∷ 0xcd ∷ 0x15 ∷ 0x80 ∷ 0x82 ∷ 0x52 ∷ 0x08 ∷ 0x84 ∷ 0x77 ∷ 0x35 ∷ 0x94 ∷ 0x00 ∷ 0x84 ∷ 0x05
    ∷ 0xf5 ∷ 0xe1 ∷ 0x00 ∷ []

abbrev pub fixture_raw : Bytes
fixture_raw =
    0x7e ∷ 0xf8 ∷ 0xdf ∷ 0xb8 ∷ 0x79 ∷ 0xf8 ∷ 0x77 ∷ 0x92 ∷ 0x72 ∷ 0x65 ∷ 0x74 ∷ 0x68 ∷ 0x2d ∷ 0x63
    ∷ 0x6f ∷ 0x73 ∷ 0x6d ∷ 0x6f ∷ 0x73 ∷ 0x2d ∷ 0x61 ∷ 0x64 ∷ 0x72 ∷ 0x30 ∷ 0x33 ∷ 0x36 ∷ 0x01
    ∷ 0x83 ∷ 0x05 ∷ 0x95 ∷ 0xd4 ∷ 0xa0 ∷ 0x11 ∷ 0x11 ∷ 0x11 ∷ 0x11 ∷ 0x11 ∷ 0x11 ∷ 0x11 ∷ 0x11
    ∷ 0x11 ∷ 0x11 ∷ 0x11 ∷ 0x11 ∷ 0x11 ∷ 0x11 ∷ 0x11 ∷ 0x11 ∷ 0x11 ∷ 0x11 ∷ 0x11 ∷ 0x11 ∷ 0x11
    ∷ 0x11 ∷ 0x11 ∷ 0x11 ∷ 0x11 ∷ 0x11 ∷ 0x11 ∷ 0x11 ∷ 0x11 ∷ 0x11 ∷ 0x11 ∷ 0x11 ∷ 0x94 ∷ 0x75
    ∷ 0x1e ∷ 0x76 ∷ 0xe8 ∷ 0x19 ∷ 0x91 ∷ 0x96 ∷ 0xd4 ∷ 0x54 ∷ 0x94 ∷ 0x1c ∷ 0x45 ∷ 0xd1 ∷ 0xb3
    ∷ 0xa3 ∷ 0x23 ∷ 0xf1 ∷ 0x43 ∷ 0x3b ∷ 0xd6 ∷ 0x80 ∷ 0x94 ∷ 0x00 ∷ 0x00 ∷ 0x00 ∷ 0x00 ∷ 0x00
    ∷ 0x00 ∷ 0x00 ∷ 0x00 ∷ 0x00 ∷ 0x00 ∷ 0x00 ∷ 0x00 ∷ 0x00 ∷ 0x00 ∷ 0x00 ∷ 0x00 ∷ 0x00 ∷ 0x00
    ∷ 0x20 ∷ 0x00 ∷ 0x84 ∷ 0x07 ∷ 0x5b ∷ 0xcd ∷ 0x15 ∷ 0x80 ∷ 0x82 ∷ 0x52 ∷ 0x08 ∷ 0x84 ∷ 0x77
    ∷ 0x35 ∷ 0x94 ∷ 0x00 ∷ 0x84 ∷ 0x05 ∷ 0xf5 ∷ 0xe1 ∷ 0x00 ∷ 0xa1 ∷ 0x02 ∷ 0x79 ∷ 0xbe ∷ 0x66
    ∷ 0x7e ∷ 0xf9 ∷ 0xdc ∷ 0xbb ∷ 0xac ∷ 0x55 ∷ 0xa0 ∷ 0x62 ∷ 0x95 ∷ 0xce ∷ 0x87 ∷ 0x0b ∷ 0x07
    ∷ 0x02 ∷ 0x9b ∷ 0xfc ∷ 0xdb ∷ 0x2d ∷ 0xce ∷ 0x28 ∷ 0xd9 ∷ 0x59 ∷ 0xf2 ∷ 0x81 ∷ 0x5b ∷ 0x16
    ∷ 0xf8 ∷ 0x17 ∷ 0x98 ∷ 0xb8 ∷ 0x40 ∷ 0xb6 ∷ 0xde ∷ 0x0a ∷ 0x57 ∷ 0x12 ∷ 0xa7 ∷ 0xe2 ∷ 0x91
    ∷ 0xca ∷ 0x8a ∷ 0x45 ∷ 0x06 ∷ 0x56 ∷ 0xff ∷ 0x7d ∷ 0x2e ∷ 0x00 ∷ 0xfd ∷ 0x9c ∷ 0x1e ∷ 0x2d
    ∷ 0x45 ∷ 0x74 ∷ 0x83 ∷ 0x9f ∷ 0x4c ∷ 0x4f ∷ 0x97 ∷ 0x33 ∷ 0x9a ∷ 0xf9 ∷ 0x76 ∷ 0x1e ∷ 0x99
    ∷ 0xcc ∷ 0xe0 ∷ 0xe1 ∷ 0xd4 ∷ 0x3d ∷ 0xac ∷ 0x26 ∷ 0x2b ∷ 0x20 ∷ 0x43 ∷ 0xf6 ∷ 0x3c ∷ 0x88
    ∷ 0xaf ∷ 0x35 ∷ 0x9e ∷ 0x7c ∷ 0xb8 ∷ 0x79 ∷ 0x46 ∷ 0x46 ∷ 0x1d ∷ 0x0f ∷ 0x09 ∷ 0xc7 ∷ 0xbe
    ∷ 0xc8 ∷ 0x7b ∷ 0x9e ∷ 0x23 ∷ []

pub fixture_operation-IsOperation : IsOperation fixture_operation
fixture_operation-IsOperation = omega arith

pub local_operation-IsOperation : IsOperation local_operation
local_operation-IsOperation = omega arith

pub local_operation-IsWithin : IsWithin local_operation
local_operation-IsWithin = omega arith

pub fixture_key-IsBytes : IsBytes fixture_key
fixture_key-IsBytes = omega arith

pub fixture_signature-IsBytes : IsBytes fixture_signature
fixture_signature-IsBytes = omega arith
