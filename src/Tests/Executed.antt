-- ===== src/Tests/Executed.antt =====
-- The authorized transaction from the endpoint to its execution.
use mathlib.Core.List.{append-nil}
use reth_cosmos.Prelude.{
  ap, ◌∙◌, ℕ, ◌≡◌, refl, Option, none, some, [], ◌∷◌, Bytes, Result, ok, err, bytes_eq,
  if◌then◌else◌,
}
use reth_cosmos.Auth.{tx_type_const}
use reth_cosmos.Primitives.Signed.{CosmosSigned}
use reth_cosmos.Primitives.Envelope.{CosmosEnvelope, cosmos, DecodeError, typed_decode}
use reth_cosmos.Primitives.Envelope.Decoding.{typed_decode-raw}
use reth_cosmos.Evm.{convert}
use reth_cosmos.Node.Endpoint.{admit, starts_with}
use reth_cosmos.Node.Endpoint.Executed.{IsExecuted, admit-IsExecuted}
use reth_cosmos.Tests.Codec.{codec}
use reth_cosmos.Tests.Codec.Laws.{codec_laws}
use reth_cosmos.Tests.Json.{to_vec}
use reth_cosmos.Tests.Toy.{toy}
use reth_cosmos.Tests.Accounts.{toy_operation, toy_signed, toy_signed-IsSigned}
use reth_cosmos.Tests.Primitives.{toy_eth}
use reth_cosmos.Tests.Node.{text}
use reth_cosmos.Tests.Evm.{ethereum_env, try_recover, toy-recovered}

abbrev parse_toy : Bytes → Option Bytes
parse_toy raw = if bytes_eq raw text then some toy_signed.raw else none

toy_admitted : admit codec parse_toy 0 (some text) ≡ ok toy_signed.raw
unfolding admit starts_with bytes_eq
toy_admitted = rw toy_signed-IsSigned.decodes refl

-- `decode_2718_exact`: the typed decoding of everything behind the type.
abbrev whole : Result DecodeError (CosmosEnvelope Bytes × Bytes) → Option (CosmosEnvelope Bytes)
whole (ok (t, [])) = some t
whole (ok (t, (b ∷ bs))) = none
whole (err e) = none

abbrev decode_exact : Bytes → Option (CosmosEnvelope Bytes)
decode_exact [] = none
decode_exact (ty ∷ body) = whole (typed_decode toy_eth codec toy ty body)

decode_exact-typed :
    (ty : ℕ) (body : Bytes) (tx : CosmosEnvelope Bytes)
    → typed_decode toy_eth codec toy ty body ≡ ok (tx, [])
    → decode_exact (ty ∷ body) ≡ some tx
decode_exact-typed ty body tx h = rw h refl

toy_decoded : decode_exact toy_signed.raw ≡ some (cosmos toy_signed)
toy_decoded =
    let (body, same, decodes) =
      typed_decode-raw toy_eth codec toy codec_laws toy_signed [] toy_signed-IsSigned in
    ap decode_exact same
    ∙ decode_exact-typed tx_type_const body (cosmos toy_signed) (rw (append-nil body) at decodes)

toy_converted :
    convert decode_exact try_recover toy_signed.raw ≡ some (cosmos toy_signed, toy_operation.sender)
unfolding convert
toy_converted = rw (toy_decoded, toy-recovered) refl

admit-IsExecuted_example :
    (t : CosmosSigned) × (◌≡◌ {A = CosmosEnvelope Bytes} (cosmos toy_signed) (cosmos t))
    × IsExecuted codec toy to_vec toy_eth ethereum_env tt
        (λ m p b. m)
        decode_exact
        try_recover
        decode_exact-typed
        (λ tx. refl)
        toy_signed.raw
        toy_operation.sender
        t
admit-IsExecuted_example =
    admit-IsExecuted codec toy to_vec toy_eth ethereum_env tt (λ m p b. m) decode_exact try_recover
      decode_exact-typed (λ tx. refl) codec_laws parse_toy 0 (some text) toy_signed.raw
      (cosmos toy_signed) toy_operation.sender toy_admitted toy_converted
