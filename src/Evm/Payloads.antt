-- ===== src/Evm/Payloads.antt =====
-- src/evm.rs and src/primitives/envelope.rs: a payload is executed as the block that it holds.
use mathlib.Core.List.{append-nil}
use reth_cosmos.Prelude.{
  ℕ, ◌≡◌, ◌≢◌, ◌<◌, ◌≤◌, refl, ap, ◌∙◌, Option, none, some, List, [], ◌∷◌, map, Bytes, Result, ok,
  err, All, arith, ◌==◌, Bool-cases, inl, inr,
}
use reth_cosmos.Prelude.Panics.{◌>>=◌, expect}
use reth_cosmos.Extern.Rlp.{Rlp, RlpLaws}
use reth_cosmos.Extern.Crypto.{Crypto}
use reth_cosmos.Extern.Json.{Json}
use reth_cosmos.Auth.{tx_type_const}
use reth_cosmos.Primitives.Signed.{CosmosSigned, RecoveryError}
use reth_cosmos.Primitives.Signed.Cached.{IsSigned}
use reth_cosmos.Primitives.Envelope.{
  EthTx, CosmosEnvelope, ethereum, cosmos, typed_decode, fallback_decode, encode_2718,
  recover_signer,
}
use reth_cosmos.Primitives.Envelope.Decoding.{typed_decode-raw}
use reth_cosmos.Evm.{convert, tx_iterator_for_payload}
use reth_cosmos.Evm.Contexts.{
  BlockParts, PayloadParts, IsPayloadOf, context_for_block, context_for_payload,
  context_for_payload-context_for_block,
}

-- Upstream Ethereum transactions are encoded behind a type byte that is not the Cosmos type, or as
-- legacy transactions, whose first byte is no type, and either form is decoded to the end.
pub data IsEthEncoded {T AccessList Authorization : Type 0} (e : EthTx T AccessList Authorization)
    (t : T) : Type 0 where
  typed :
      (ty : ℕ) (body : Bytes)
      → ty ≤ 127
      → ty ≢ tx_type_const
      → e.encode_2718 t ≡ ty ∷ body
      → e.typed_decode ty body ≡ some (t, [])
      → IsEthEncoded e t
  legacy :
      (first : ℕ) (body : Bytes)
      → 127 < first
      → e.encode_2718 t ≡ first ∷ body
      → e.fallback_decode (first ∷ body) ≡ some (t, [])
      → IsEthEncoded e t

module _ {T : Type 0} where
  -- A transaction with the sender that is recovered of it; `none` is an error.
  unfoldable pub with_signer :
      CosmosEnvelope T → Result RecoveryError Bytes → Option (CosmosEnvelope T × Bytes)
  with_signer tx (ok sender) = some (tx, sender)
  with_signer tx (err x) = none

  with_signer_lem :
      (tx : CosmosEnvelope T) (r : Result RecoveryError Bytes)
      → (do signer ← expect r; some (tx, signer)) ≡ with_signer tx r
  unfolding with_signer
  with_signer_lem tx (ok sender) = refl
  with_signer_lem tx (err x) = refl

module _ (c : Rlp) {Key Sig : Type 0} (k : Crypto Key Sig) {T AccessList Authorization : Type 0}
    (e : EthTx T AccessList Authorization) where
  -- The default method `decode_2718_exact` of `Decodable2718`: a first byte of at most 127 is the
  -- type of what is behind it, other bytes are decoded by the fallback, and nothing is left unread.
  pub record DecodesExactly (decode_2718_exact : Bytes → Option (CosmosEnvelope T)) : Type 0 where
    pub by_type :
        (ty : ℕ) (body : Bytes) (tx : CosmosEnvelope T)
        → ty ≤ 127
        → typed_decode e c k ty body ≡ ok (tx, [])
        → decode_2718_exact (ty ∷ body) ≡ some tx
    pub by_fallback :
        (first : ℕ) (body : Bytes) (tx : CosmosEnvelope T)
        → 127 < first
        → fallback_decode e (first ∷ body) ≡ ok (tx, [])
        → decode_2718_exact (first ∷ body) ≡ some tx

  -- The caches of the Cosmos transactions agree.
  abbrev pub IsSignedEnvelope : CosmosEnvelope T → Type 0
  IsSignedEnvelope (ethereum t) = Unit {0}
  IsSignedEnvelope (cosmos t) = IsSigned c k t

  module _ (laws : RlpLaws c) (eth_encoded : (t : T) → IsEthEncoded e t)
      (decode_2718_exact : Bytes → Option (CosmosEnvelope T))
      (exact : DecodesExactly decode_2718_exact) where
    typed_decode-ethereum :
        (t : T) (ty : ℕ) (body : Bytes)
        → ty ≢ tx_type_const
        → e.typed_decode ty body ≡ some (t, [])
        → typed_decode e c k ty body ≡ ok (ethereum t, [])
    unfolding typed_decode
    typed_decode-ethereum t ty body other h = elim (Bool-cases (ty == tx_type_const)) [
      | inl same ↦ absurd (other (ground (arith, same)))
      | inr differs ↦ rw (differs, h) refl
    ]

    ethereum-decodes :
        (t : T) → IsEthEncoded e t → decode_2718_exact (e.encode_2718 t) ≡ some (ethereum t)
    unfolding fallback_decode
    ethereum-decodes t (typed ty body small other same h) =
        rw same (exact.by_type ty body (ethereum t) small (typed_decode-ethereum t ty body other h))
    ethereum-decodes t (legacy first body large same h) =
        rw same (exact.by_fallback first body (ethereum t) large (rw h refl))

    cosmos-decodes : (t : CosmosSigned) → IsSigned c k t → decode_2718_exact t.raw ≡ some (cosmos t)
    cosmos-decodes t s =
        let (body, same, h) = typed_decode-raw e c k laws t [] s in
        ap decode_2718_exact same
        ∙ exact.by_type tx_type_const body (cosmos t) (omega arith) (rw (append-nil body) at h)

    -- The encoding of a transaction is decoded to the transaction.
    encode_2718-decodes :
        (tx : CosmosEnvelope T)
        → IsSignedEnvelope tx
        → decode_2718_exact (encode_2718 e tx) ≡ some tx
    unfolding encode_2718
    encode_2718-decodes (ethereum t) s = ethereum-decodes t (eth_encoded t)
    encode_2718-decodes (cosmos t) s = cosmos-decodes t s

    module _ (to_vec : Json → Bytes) (try_recover : CosmosEnvelope T → Result RecoveryError Bytes)
        (recovers : (tx : CosmosEnvelope T) → try_recover tx ≡ recover_signer e c k to_vec tx) where
      abbrev pub with_recovered : CosmosEnvelope T → Option (CosmosEnvelope T × Bytes)
      with_recovered tx = with_signer tx (recover_signer e c k to_vec tx)

      convert-encode_2718 :
          (tx : CosmosEnvelope T)
          → IsSignedEnvelope tx
          → convert decode_2718_exact try_recover (encode_2718 e tx) ≡ with_recovered tx
      unfolding convert
      convert-encode_2718 tx s =
          rw (encode_2718-decodes tx s, recovers tx)
            (with_signer_lem tx (recover_signer e c k to_vec tx))

      -- What the payload of some transactions converts to.
      pub map-convert :
          (txs : List (CosmosEnvelope T))
          → All IsSignedEnvelope txs
          → map (convert decode_2718_exact try_recover) (map (encode_2718 e) txs)
            ≡ map with_recovered txs
      map-convert [] h = refl
      map-convert (tx ∷ txs) h = rw (convert-encode_2718 tx h.0, map-convert txs h.1) refl

      -- Under the laws of RLP and of the decoding of upstream's Ethereum transactions: a payload that
      -- holds a block without ommers is executed as the block. The context is the same, and what the
      -- iterator over the payload converts are the block's transactions in their order, each with
      -- the sender that is recovered of it, or an error where none is, if the caches of the block's
      -- Cosmos transactions agree.
      pub payload-IsBlock :
          {D O W : Type 0} (transactions : D → List Bytes) (d : D)
          (block : BlockParts (CosmosEnvelope T) O W) (payload : PayloadParts W)
          → transactions d ≡ payload.transactions
          → IsPayloadOf (encode_2718 e) block payload
          → block.ommers ≡ []
          → All IsSignedEnvelope block.transactions
          → let (raws, closure) =
              tx_iterator_for_payload transactions decode_2718_exact try_recover d in
            (map closure raws ≡ map with_recovered block.transactions)
            × (context_for_payload payload ≡ context_for_block block)
      unfolding tx_iterator_for_payload
      payload-IsBlock transactions d block payload read p alone signed = (
        rw (read, p.transactions) (map-convert block.transactions signed),
        context_for_payload-context_for_block (encode_2718 e) block payload p alone,
      )
