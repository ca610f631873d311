-- ===== src/Auth.antt =====
-- crates/cosmos-auth/src/lib.rs: the operation that a Cosmos account authorizes, its limits, and the
-- constants of the protocol. The payload, the signature and the wire format are in the modules below.
pub mod Limits
pub mod Payload
pub mod Sign
pub mod Wire
use reth_cosmos.Prelude.{
  ℕ, ◌+◌, ◌*◌, ◌^◌, ◌-◌, [], ◌∷◌, ◌||◌, Bytes, Result, ok, err, length, ltb, ◌==◌, if◌then◌else◌,
  ◌<◌, ◌≡◌, IsBytes,
}
use reth_cosmos.Extern.Json.{codes}

abbrev pub chain_id_const : ℕ
chain_id_const = 366036

abbrev pub genesis_hash_const : Bytes
genesis_hash_const =
    0x09 ∷ 0x17 ∷ 0x1e ∷ 0x11 ∷ 0x7a ∷ 0xf6 ∷ 0x61 ∷ 0x18 ∷ 0x5d ∷ 0x9a ∷ 0x4a ∷ 0x4f ∷ 0xf7 ∷ 0xcf
    ∷ 0x83 ∷ 0xd2 ∷ 0x9b ∷ 0x4b ∷ 0x99 ∷ 0x89 ∷ 0x3b ∷ 0xc9 ∷ 0x5b ∷ 0x20 ∷ 0x4c ∷ 0x0e ∷ 0x6e
    ∷ 0x0a ∷ 0x6d ∷ 0x6a ∷ 0x52 ∷ 0x72 ∷ []

abbrev pub tx_type_const : ℕ
tx_type_const = 0x7e

abbrev pub max_calldata : ℕ
max_calldata = 32 * 1024

abbrev pub max_raw_tx : ℕ
max_raw_tx = max_calldata + 512

abbrev pub max_gas : ℕ
max_gas = 30_000_000

abbrev pub protocol_const : Bytes
protocol_const = codes "reth-cosmos-adr036"

abbrev pub u64_max : ℕ
u64_max = 2 ^ 64 - 1

pub record Operation : Type 0 where
  pub chain_id : ℕ
  pub genesis_hash : Bytes
  pub sender : Bytes
  pub nonce : ℕ
  pub to : Bytes
  pub value : ℕ
  pub input : Bytes
  pub gas_limit : ℕ
  pub max_fee_per_gas : ℕ
  pub max_priority_fee_per_gas : ℕ

pub data AuthError : Type 0 where
  encoding limit domain public_key sender_mismatch signature : AuthError

-- What the Rust types of the fields allow: `u64`, `u128`, `U256`, `B256`, `Address`, `Bytes`.
pub record IsOperation (op : Operation) : Type 0 where
  pub chain_id_range : op.chain_id < 256 ^ 8
  pub genesis_hash_bytes : IsBytes op.genesis_hash
  pub genesis_hash_length : length op.genesis_hash ≡ 32
  pub sender_bytes : IsBytes op.sender
  pub sender_length : length op.sender ≡ 20
  pub nonce_range : op.nonce < 256 ^ 8
  pub to_bytes : IsBytes op.to
  pub to_length : length op.to ≡ 20
  pub value_range : op.value < 256 ^ 32
  pub input_bytes : IsBytes op.input
  pub gas_limit_range : op.gas_limit < 256 ^ 8
  pub max_fee_range : op.max_fee_per_gas < 256 ^ 16
  pub priority_fee_range : op.max_priority_fee_per_gas < 256 ^ 16

-- `Operation::validate_limits`.
unfoldable pub validate_limits : Operation → Result AuthError (Unit {0})
validate_limits op =
    if ltb max_calldata (length op.input)
      || ltb max_gas op.gas_limit
      || ltb op.gas_limit 21_000
      || op.nonce == u64_max
      || ltb op.max_fee_per_gas op.max_priority_fee_per_gas
    then err limit
    else ok tt
