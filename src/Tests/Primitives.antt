-- ===== src/Tests/Primitives.antt =====
-- tests/integration.rs: the properties of `Primitives` at the toy account's transaction.
use reth_cosmos.Prelude.{
  ◌≤◌, ◌≡◌, ◌↔◌, refl, true, false, none, some, [], ◌∷◌, ◌++◌, ok, err, Bytes, length, ◌==◌,
}
use reth_cosmos.Auth.{tx_type_const, max_raw_tx}
use reth_cosmos.Auth.Limits.{IsWithin}
use reth_cosmos.Auth.Wire.{encode_wire}
use reth_cosmos.Primitives.TxType.{cosmos_type}
use reth_cosmos.Primitives.View.{TxView, create}
use reth_cosmos.Primitives.Signed.{signature_bytes, recovery_error}
use reth_cosmos.Primitives.Signed.Cached.{IsSigned, new-IsSigned}
use reth_cosmos.Primitives.Signed.Rpc.{serialize, deserialize, deserialize_iff}
use reth_cosmos.Primitives.Envelope.{EthTx, cosmos, typed_decode}
use reth_cosmos.Primitives.Envelope.Recovery.{
  unchecked_with_buf, recover_by, recover_by_iff, IsAuthorizedTx,
}
use reth_cosmos.Primitives.Envelope.Decoding.{typed_decode-raw, typed_decode-eq-ok}
use reth_cosmos.Primitives.Storage.{EthCompact, to_tx_compact, from_tx_compact}
use reth_cosmos.Primitives.Storage.RoundTrip.{from_tx_compact-to_tx_compact}
use reth_cosmos.Tests.Codec.{codec}
use reth_cosmos.Tests.Codec.Laws.{codec_laws}
use reth_cosmos.Tests.Json.{to_vec}
use reth_cosmos.Tests.Toy.{toy}
use reth_cosmos.Tests.Fixture.{fixture_key, fixture_key-IsBytes}
use reth_cosmos.Tests.Accounts.{
  toy_operation, toy_operation-IsOperation, toy_sig, toy_sig-IsBytes, toy_signed, toy-new,
  toy_signed-IsSigned, toy_signed-IsAuthorizedTx,
}

-- An Ethereum transaction type whose values are bytes, none of which can be recovered.
abbrev pub toy_view : Bytes → TxView Bytes Bytes
toy_view b = record {
  chain_id = none;
  nonce = length b;
  gas_limit = 21_000;
  gas_price = some 1;
  max_fee_per_gas = 1;
  max_priority_fee_per_gas = none;
  max_fee_per_blob_gas = none;
  priority_fee_or_price = 1;
  effective_gas_price = λ f. 1;
  is_dynamic_fee = false;
  kind = create;
  is_create = true;
  value = 0;
  input = b;
  access_list = none;
  blob_versioned_hashes = none;
  authorization_list = none;
}

abbrev pub toy_eth : EthTx Bytes Bytes Bytes
toy_eth = record {
  view = toy_view;
  ty = λ b. 0;
  is_type = λ k. k == 0;
  size = λ b. length b;
  tx_hash = λ b. b;
  recover_signer = λ b. err recovery_error;
  recover_signer_unchecked = λ b. err recovery_error;
  recover_with_buf = λ b buf. (err recovery_error, buf);
  recover_unchecked_with_buf = λ b buf. (err recovery_error, buf);
  encode_2718_len = λ b. length b;
  encode_2718 = λ b. b;
  typed_decode = λ k b. some (b, []);
  fallback_decode = λ b. some (b, []);
}

abbrev toy_compact : EthCompact Bytes
toy_compact = record {
  to_tx_compact = λ b. b;
  from_tx_compact = λ b k g. some (b, []);
  signature = λ b. record { r = 0; s = 0; v = false };
}

new-IsSigned_example :
    IsSigned codec toy toy_signed
    × (toy_signed.operation ≡ toy_operation)
    × (toy_signed.public_key ≡ fixture_key)
    × (signature_bytes codec toy_signed ≡ toy_sig)
    × (toy_signed.raw ≡ encode_wire codec toy_operation fixture_key toy_sig)
new-IsSigned_example =
    new-IsSigned codec codec_laws toy toy_operation fixture_key toy_sig toy_operation-IsOperation
      fixture_key-IsBytes toy_sig-IsBytes toy-new

deserialize_iff_example :
    (deserialize codec toy (record (serialize codec toy_signed) { cosmos_signature = toy_sig })
      ≡ ok toy_signed)
    ↔ (IsSigned codec toy toy_signed
        × (record (serialize codec toy_signed) { cosmos_signature = toy_sig }
            ≡ serialize codec toy_signed))
unfolding serialize
deserialize_iff_example =
    deserialize_iff codec codec_laws toy
      (record (serialize codec toy_signed) { cosmos_signature = toy_sig }) toy_signed
      toy_operation-IsOperation fixture_key-IsBytes toy_sig-IsBytes

recover_by_iff_example :
    (recover_by codec toy to_vec toy_eth (unchecked_with_buf []) (cosmos toy_signed)
      ≡ ok toy_operation.sender)
    ↔ ((toy_operation.sender ≡ toy_signed.operation.sender)
        × IsAuthorizedTx codec toy to_vec toy_signed)
recover_by_iff_example =
    recover_by_iff codec toy to_vec toy_eth (unchecked_with_buf []) toy_signed toy_operation.sender

toy_recovered :
    recover_by codec toy to_vec toy_eth (unchecked_with_buf []) (cosmos toy_signed)
    ≡ ok toy_operation.sender
toy_recovered = recover_by_iff_example.1 (refl, toy_signed-IsAuthorizedTx)

typed_decode-raw_example :
    (body : Bytes) × (toy_signed.raw ≡ tx_type_const ∷ body)
    × (typed_decode toy_eth codec toy tx_type_const (body ++ 9 ∷ [])
        ≡ ok (cosmos toy_signed, 9 ∷ []))
typed_decode-raw_example =
    typed_decode-raw toy_eth codec toy codec_laws toy_signed (9 ∷ []) toy_signed-IsSigned

typed_decode-eq-ok_example :
    (tx_type_const ≡ tx_type_const)
    × (toy_signed.raw ++ 9 ∷ [] ≡ tx_type_const ∷ (typed_decode-raw_example.0 ++ 9 ∷ []))
    × (length toy_signed.raw ≤ max_raw_tx)
    × IsWithin toy_signed.operation
typed_decode-eq-ok_example =
    typed_decode-eq-ok toy_eth codec toy tx_type_const (typed_decode-raw_example.0 ++ 9 ∷ [])
      toy_signed (9 ∷ []) typed_decode-raw_example.2

from_tx_compact-to_tx_compact_example :
    from_tx_compact toy_compact codec toy
      (to_tx_compact toy_compact codec (cosmos toy_signed) ++ 7 ∷ [])
      cosmos_type
      toy_signed.signature
    ≡ some (cosmos toy_signed, 7 ∷ [])
from_tx_compact-to_tx_compact_example =
    from_tx_compact-to_tx_compact toy_compact codec codec_laws toy toy_signed toy_signed-IsSigned
      toy_operation-IsOperation fixture_key-IsBytes (7 ∷ [])
