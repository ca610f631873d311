-- ===== src/Tests/Accounts.antt =====
-- A transaction that is authorized under the toy cryptography, and one that is not.
use reth_cosmos.Prelude.{inl, drop, ◌≡◌, refl, ok, arith, take, bytes_eq_refl, Bytes, IsBytes}
use reth_cosmos.Auth.{Operation, IsOperation, genesis_hash_const}
use reth_cosmos.Auth.Limits.{IsWithin}
use reth_cosmos.Auth.Sign.{sign_bytes, has_compressed_prefix}
use reth_cosmos.Auth.Sign.Verify.{IsAuthorized}
use reth_cosmos.Primitives.Signed.{CosmosSigned, new, signature_bytes}
use reth_cosmos.Primitives.Signed.Cached.{IsSigned, built, new-builds, new-IsSigned}
use reth_cosmos.Primitives.Envelope.Recovery.{IsAuthorizedTx}
use reth_cosmos.Tests.Codec.{codec}
use reth_cosmos.Tests.Codec.Laws.{codec_laws}
use reth_cosmos.Tests.Json.{to_vec}
use reth_cosmos.Tests.Toy.{
  toy, toy_signature, toy_signature-low, toy_signature-IsBytes, length-toy_signature,
}
use reth_cosmos.Tests.Fixture.{local_operation, fixture_key, fixture_key-IsBytes}

-- An account whose address is derived by the toy hash.
abbrev pub toy_operation : Operation
toy_operation = record local_operation { sender = take 20 fixture_key }

pub toy_operation-IsOperation : IsOperation toy_operation
toy_operation-IsOperation = omega arith

pub toy_operation-IsWithin : IsWithin toy_operation
toy_operation-IsWithin = omega arith

abbrev pub toy_sig : Bytes
toy_sig = toy_signature (sign_bytes codec toy to_vec toy_operation)

pub toy_sig-IsBytes : IsBytes toy_sig
toy_sig-IsBytes = toy_signature-IsBytes (sign_bytes codec toy to_vec toy_operation)

pub toy_authorized :
    (sig : Bytes)
    → sig ≡ toy_sig
    → IsAuthorized codec toy to_vec toy_operation fixture_key sig genesis_hash_const
unfolding has_compressed_prefix toy_signature
toy_authorized sig e = rw e (record {
  within = toy_operation-IsWithin;
  chain = refl;
  genesis_same = refl;
  key_length = refl;
  key_prefix = record {
    parity = 2;
    rest = drop 1 fixture_key;
    starts = refl;
    even_or_odd = inl refl;
  };
  sender_derived = refl;
  point = fixture_key;
  point_parsed = refl;
  parsed = toy_sig;
  sig_parsed = refl;
  low_s = toy_signature-low (sign_bytes codec toy to_vec toy_operation);
  signed = bytes_eq_refl toy_sig;
})

abbrev pub toy_signed : CosmosSigned
toy_signed = built codec toy toy_operation fixture_key toy_sig

pub toy-new : new codec toy toy_operation fixture_key toy_sig ≡ ok toy_signed
toy-new =
    new-builds codec codec_laws toy toy_operation fixture_key toy_sig toy_operation-IsOperation
      toy_operation-IsWithin fixture_key-IsBytes refl toy_sig-IsBytes
      (length-toy_signature (sign_bytes codec toy to_vec toy_operation))

pub toy_signed-IsSigned : IsSigned codec toy toy_signed
toy_signed-IsSigned =
    (new-IsSigned codec codec_laws toy toy_operation fixture_key toy_sig toy_operation-IsOperation
      fixture_key-IsBytes toy_sig-IsBytes toy-new).0

toy_signed-sig : signature_bytes codec toy_signed ≡ toy_sig
toy_signed-sig =
    (new-IsSigned codec codec_laws toy toy_operation fixture_key toy_sig toy_operation-IsOperation
      fixture_key-IsBytes toy_sig-IsBytes toy-new).3

pub toy_signed-IsAuthorizedTx : IsAuthorizedTx codec toy to_vec toy_signed
toy_signed-IsAuthorizedTx = toy_authorized (signature_bytes codec toy_signed) toy_signed-sig
