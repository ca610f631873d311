-- ===== src/Tests/Payloads.antt =====
-- A payload of an Ethereum transaction and the authorized Cosmos transaction.
use reth_cosmos.Prelude.{
  ℕ, ◌≡◌, refl, Option, none, some, [], ◌∷◌, map, Bytes, Result, ok, err, arith, leb, if◌then◌else◌,
}
use reth_cosmos.Primitives.Signed.{RecoveryError}
use reth_cosmos.Primitives.Envelope.{
  EthTx, CosmosEnvelope, ethereum, cosmos, DecodeError, typed_decode, fallback_decode, encode_2718,
  recover_signer,
}
use reth_cosmos.Primitives.Envelope.Recovery.{verify_signed_iff}
use reth_cosmos.Evm.{tx_iterator_for_payload}
use reth_cosmos.Evm.Contexts.{
  BlockParts, PayloadParts, IsPayloadOf, context_for_block, context_for_payload,
}
use reth_cosmos.Evm.Payloads.{IsEthEncoded, legacy, DecodesExactly, with_recovered, payload-IsBlock}
use reth_cosmos.Tests.Codec.{codec}
use reth_cosmos.Tests.Codec.Laws.{codec_laws}
use reth_cosmos.Tests.Json.{to_vec}
use reth_cosmos.Tests.Toy.{toy}
use reth_cosmos.Tests.Accounts.{
  toy_operation, toy_signed, toy_signed-IsSigned, toy_signed-IsAuthorizedTx,
}
use reth_cosmos.Tests.Primitives.{toy_eth}

abbrev behind : Bytes → Option (Bytes × Bytes)
behind [] = none
behind (b ∷ bs) = some (bs, [])

-- Legacy transactions, whose first byte is 200.
abbrev pub legacy_eth : EthTx Bytes Bytes Bytes
legacy_eth = record toy_eth { encode_2718 = λ b. 200 ∷ b; fallback_decode = behind }

pub legacy_encoded : (t : Bytes) → IsEthEncoded legacy_eth t
legacy_encoded t = legacy 200 t (omega arith) refl refl

abbrev whole : Result DecodeError (CosmosEnvelope Bytes × Bytes) → Option (CosmosEnvelope Bytes)
whole (ok (t, [])) = some t
whole (ok (t, (b ∷ bs))) = none
whole (err e) = none

-- `decode_2718_exact`.
abbrev pub decode_exact : Bytes → Option (CosmosEnvelope Bytes)
decode_exact [] = none
decode_exact (ty ∷ body) =
    if leb ty 127
    then whole (typed_decode legacy_eth codec toy ty body)
    else whole (fallback_decode legacy_eth (ty ∷ body))

pub decode_exact-DecodesExactly : DecodesExactly codec toy legacy_eth decode_exact
decode_exact-DecodesExactly = record {
  by_type = λ ty body tx small h. rw h (ground arith);
  by_fallback = λ first body tx large h. rw h (ground arith);
}

abbrev pub try_recover : CosmosEnvelope Bytes → Result RecoveryError Bytes
try_recover tx = recover_signer legacy_eth codec toy to_vec tx

pub legacy-recovered : try_recover (cosmos toy_signed) ≡ ok toy_operation.sender
unfolding recover_signer
legacy-recovered =
    (verify_signed_iff codec toy to_vec toy_signed toy_operation.sender).1
      (refl, toy_signed-IsAuthorizedTx)

abbrev block_parts : BlockParts (CosmosEnvelope Bytes) ℕ ℕ
block_parts = record {
  transactions = ethereum (5 ∷ []) ∷ cosmos toy_signed ∷ [];
  parent_hash = 1 ∷ [];
  parent_beacon_block_root = some (2 ∷ []);
  ommers = [];
  withdrawals = some (3 ∷ []);
  extra_data = 4 ∷ [];
  slot_number = none;
}

abbrev payload_parts : PayloadParts ℕ
payload_parts = record {
  transactions = map (encode_2718 legacy_eth) block_parts.transactions;
  parent_hash = 1 ∷ [];
  parent_beacon_block_root = some (2 ∷ []);
  withdrawals = some (3 ∷ []);
  extra_data = 4 ∷ [];
  slot_number_v4 = none;
}

abbrev is_payload : IsPayloadOf (encode_2718 legacy_eth) block_parts payload_parts
is_payload = record {
  transactions = refl;
  parent_hash = refl;
  root = refl;
  withdrawals = refl;
  extra_data = refl;
  slot_number = refl;
}

payload-IsBlock_example :
    let (raws, closure) =
      tx_iterator_for_payload
        (λ (d : PayloadParts ℕ). d.transactions)
        decode_exact
        try_recover
        payload_parts in
    (map closure raws
      ≡ map
          (with_recovered codec toy legacy_eth codec_laws legacy_encoded decode_exact
            decode_exact-DecodesExactly to_vec try_recover
            (λ tx. refl))
          block_parts.transactions)
    × (context_for_payload {O = ℕ} payload_parts ≡ context_for_block block_parts)
payload-IsBlock_example =
    payload-IsBlock codec toy legacy_eth codec_laws legacy_encoded decode_exact
      decode_exact-DecodesExactly to_vec try_recover (λ tx. refl)
      (λ (d : PayloadParts ℕ). d.transactions) payload_parts block_parts payload_parts refl
      is_payload refl (tt, (toy_signed-IsSigned, tt))
