-- ===== src/Consensus/Replayed.antt =====
-- src/payload/builder.rs and src/evm.rs: what a node executes of a block that another node has built,
-- once it has the block as a payload.
use reth_cosmos.Prelude.{
  ℕ, ◌≡◌, refl, ◌∙◌, Bool, Option, some, List, [], ◌∷◌, map, Bytes, Result, ok, All,
}
use reth_cosmos.Extern.Rlp.{Rlp, RlpLaws}
use reth_cosmos.Extern.Crypto.{Crypto}
use reth_cosmos.Extern.Json.{Json}
use reth_cosmos.Primitives.Signed.{RecoveryError}
use reth_cosmos.Primitives.Envelope.{EthTx, CosmosEnvelope, encode_2718, recover_signer}
use reth_cosmos.Consensus.{SealedBlock}
use reth_cosmos.Payload.Builder.{Source}
use reth_cosmos.Payload.Built.{CosmosBuiltPayload}
use reth_cosmos.Payload.Build.{Services, better, returned}
use reth_cosmos.Payload.Build.Opening.{
  BuilderConfig, BuildArguments, Forks, Openers, with_hook, open_builder,
}
use reth_cosmos.Payload.Build.Setup.{IsBuiltOn, try_build, try_build-IsBuilt}
use reth_cosmos.Payload.Build.Transactions.{KeepsTransactions, chosen, built-transactions}
use reth_cosmos.Evm.{tx_iterator_for_payload}
use reth_cosmos.Evm.Payloads.{
  IsEthEncoded, DecodesExactly, IsSignedEnvelope, with_signer, map-convert,
}

module _ (c : Rlp) {Key Sig : Type 0} (k : Crypto Key Sig) {T AccessList Authorization : Type 0}
    (e : EthTx T AccessList Authorization) (laws : RlpLaws c)
    (eth_encoded : (t : T) → IsEthEncoded e t)
    (decode_2718_exact : Bytes → Option (CosmosEnvelope T))
    (exact : DecodesExactly c k e decode_2718_exact) (to_vec : Json → Bytes)
    (try_recover : CosmosEnvelope T → Result RecoveryError Bytes)
    (recovers : (tx : CosmosEnvelope T) → try_recover tx ≡ recover_signer e c k to_vec tx) where
  -- A pool transaction with its sender.
  module _ {P : Type 0} (tx_of : P → CosmosEnvelope T) (sender : P → Bytes)
      (recovered : (p : P) → recover_signer e c k to_vec (tx_of p) ≡ ok (sender p))
      (signed : (p : P) → IsSignedEnvelope c k e (tx_of p)) where
    abbrev pub with_sender : P → Option (CosmosEnvelope T × Bytes)
    with_sender p = some (tx_of p, sender p)

    pool-signed : (ps : List P) → All (IsSignedEnvelope c k e) (map tx_of ps)
    pool-signed [] = tt
    pool-signed (p ∷ ps) = (signed p, pool-signed ps)

    pool-recovered :
        (ps : List P)
        → map (λ tx. with_signer tx (recover_signer e c k to_vec tx)) (map tx_of ps)
          ≡ map with_sender ps
    unfolding with_signer
    pool-recovered [] = refl
    pool-recovered (p ∷ ps) = rw (recovered p, pool-recovered ps) refl

    module _ {W R C Rd St Db X D E S Q B Header Rest Rq : Type 0} (config : BuilderConfig)
        (f : Forks) (w : Openers W R C Rd St Db X D E)
        (v : Services X (SealedBlock T Header Rest) Rq R Rd E) (no_blobs : Q)
        (is_better_payload : Option (CosmosBuiltPayload (SealedBlock T Header Rest) Q Rq)
          → ℕ
          → Bool)
        (o : Source P S Q B X E) (best_txs : ℕ → Option ℕ → B) (fuel : ℕ)
        (args : BuildArguments W R C Rd (CosmosBuiltPayload (SealedBlock T Header Rest) Q Rq))
        (held : X → List (CosmosEnvelope T))
        (keeps : KeepsTransactions o v tx_of held (λ b. b.transactions))
        (fresh : (x : X)
          → open_builder config args f w ≡ ok x
          → held (with_hook w.set_state_hook args.state_root_handle x) ≡ []) where
      -- Under the laws of RLP, of upstream's block builder and of the decoding of upstream's Ethereum
      -- transactions, if the pool's transactions have their senders recovered and the caches of its
      -- Cosmos transactions agree: whoever executes a payload of the encoded transactions of a block
      -- that this node has built executes exactly the transactions that the node took from its pool,
      -- in the order in which the pool gave them, each for the sender that the pool knows.
      pub try_build-IsReplayed :
          {F : Type 0} (transactions : F → List Bytes) (d : F)
          {p : CosmosBuiltPayload (SealedBlock T Header Rest) Q Rq} {reads : Rd}
          → try_build config f w v no_blobs is_better_payload o best_txs fuel args
            ≡ returned (ok (better p reads))
          → transactions d ≡ map (encode_2718 e) p.block.transactions
          → let (raws, closure) =
              tx_iterator_for_payload transactions decode_2718_exact try_recover d in
            (b : IsBuiltOn config f w v no_blobs is_better_payload o best_txs fuel args p reads)
            × (map closure raws ≡ map with_sender (chosen b.built.choices))
      unfolding tx_iterator_for_payload
      try_build-IsReplayed transactions d {p} h read =
          let b =
            try_build-IsBuilt config f w v no_blobs is_better_payload o best_txs fuel args h in
          let same =
            built-transactions config f w v no_blobs is_better_payload o best_txs fuel args keeps
              fresh b in
          (
            b,
            rw (read, same)
                (map-convert c k e laws eth_encoded decode_2718_exact exact to_vec try_recover
                    recovers (map tx_of (chosen b.built.choices))
                    (pool-signed (chosen b.built.choices))
                  ∙ pool-recovered (chosen b.built.choices)),
          )
