-- ===== src/Consensus/Produced.antt =====
-- src/payload/builder.rs and src/consensus.rs: what the node's own consensus says of the blocks that
-- the node builds.
use reth_cosmos.Prelude.{ℕ, ◌≡◌, ◌↔◌, sym, subst, Bool, Option, List, [], ◌∷◌, map, Bytes, All, ok}
use reth_cosmos.Extern.Rlp.{Rlp}
use reth_cosmos.Extern.Crypto.{Crypto}
use reth_cosmos.Extern.Json.{Json}
use reth_cosmos.Auth.{genesis_hash_const}
use reth_cosmos.Primitives.Envelope.{EthTx, CosmosEnvelope, ethereum, cosmos, recover_signer}
use reth_cosmos.Primitives.Envelope.Recovery.{checked, recover_by, recover_by_iff}
use reth_cosmos.Consensus.{SealedBlock, EthBeacon, validate_block_pre_execution_with_tx_root}
use reth_cosmos.Consensus.Authorization.{IsAuthorizedEnvelope, pre_execution_iff}
use reth_cosmos.Payload.Builder.{Source}
use reth_cosmos.Payload.Built.{CosmosBuiltPayload}
use reth_cosmos.Payload.Build.{better, returned, Services}
use reth_cosmos.Payload.Build.Opening.{
  BuilderConfig, BuildArguments, Forks, Openers, with_hook, open_builder,
}
use reth_cosmos.Payload.Build.Setup.{IsBuiltOn, try_build, try_build-IsBuilt}
use reth_cosmos.Payload.Build.Transactions.{KeepsTransactions, chosen, built-transactions}

module _ (c : Rlp) {Key Sig : Type 0} (k : Crypto Key Sig) (to_vec : Json → Bytes)
    {T AccessList Authorization : Type 0} (e : EthTx T AccessList Authorization) where
  recovered-IsAuthorized :
      (tx : CosmosEnvelope T) (a : Bytes)
      → recover_signer e c k to_vec tx ≡ ok a
      → IsAuthorizedEnvelope c k to_vec tx
  recovered-IsAuthorized (ethereum t) a h = tt
  recovered-IsAuthorized (cosmos t) a h =
      ((recover_by_iff c k to_vec e checked t a).0 (unfold recover_by in h)).1

  module _ {P : Type 0} (tx_of : P → CosmosEnvelope T) (sender : P → Bytes)
      (recovered : (p : P) → recover_signer e c k to_vec (tx_of p) ≡ ok (sender p)) where
    pool-IsAuthorized : (ps : List P) → All (IsAuthorizedEnvelope c k to_vec) (map tx_of ps)
    pool-IsAuthorized [] = tt
    pool-IsAuthorized (p ∷ ps) =
        (recovered-IsAuthorized (tx_of p) (sender p) (recovered p), pool-IsAuthorized ps)

    module _ {W R C Rd St Db X D E S Q B Header Rest Rq Outcome F : Type 0} (config : BuilderConfig)
        (f : Forks) (w : Openers W R C Rd St Db X D E)
        (v : Services X (SealedBlock T Header Rest) Rq R Rd E) (no_blobs : Q)
        (is_better_payload : Option (CosmosBuiltPayload (SealedBlock T Header Rest) Q Rq)
          → ℕ
          → Bool)
        (o : Source P S Q B X E) (best_txs : ℕ → Option ℕ → B) (fuel : ℕ)
        (args : BuildArguments W R C Rd (CosmosBuiltPayload (SealedBlock T Header Rest) Q Rq))
        (held : X → List (CosmosEnvelope T))
        (keeps : KeepsTransactions o v tx_of held (λ b. b.transactions))
        (fresh : (x : X)
          → open_builder config args f w ≡ ok x
          → held (with_hook w.set_state_hook args.state_root_handle x) ≡ [])
        (inner : EthBeacon T Header Rest Outcome F) where
      -- What the consensus says of a payload's block.
      pub record IsProduced (p : CosmosBuiltPayload (SealedBlock T Header Rest) Q Rq) (reads : Rd)
          : Type 0 where
        pub on : IsBuiltOn config f w v no_blobs is_better_payload o best_txs fuel args p reads
        pub transactions : p.block.transactions ≡ map tx_of (chosen on.built.choices)
        pub authorized : All (IsAuthorizedEnvelope c k to_vec) p.block.transactions
        pub accepted :
            (root : Option Bytes)
            → (validate_block_pre_execution_with_tx_root c k to_vec inner p.block root ≡ ok tt)
              ↔ (inner.validate_pre_execution p.block root ≡ ok tt)

      -- If the pool's transactions have their senders recovered, if upstream's block builder holds
      -- the transactions that it has executed, from none at its opening to the sealed block, and if
      -- the chain has the experiment's genesis: the block of a payload that is returned has the
      -- transactions that were taken from the pool, in the order in which the pool gave them, every
      -- Cosmos transaction in it is authorized, and it passes the node's own validation before
      -- execution exactly when the Ethereum rules hold of it.
      pub try_build-IsProduced :
          inner.genesis_hash ≡ genesis_hash_const
          → {p : CosmosBuiltPayload (SealedBlock T Header Rest) Q Rq} {reads : Rd}
          → try_build config f w v no_blobs is_better_payload o best_txs fuel args
            ≡ returned (ok (better p reads))
          → IsProduced p reads
      try_build-IsProduced genesis {p} h =
          let on =
            try_build-IsBuilt config f w v no_blobs is_better_payload o best_txs fuel args h in
          let same =
            built-transactions config f w v no_blobs is_better_payload o best_txs fuel args keeps
              fresh on in
          let authorized =
            subst (All (IsAuthorizedEnvelope c k to_vec)) (sym same)
              (pool-IsAuthorized (chosen on.built.choices)) in
          record {
            on = on;
            transactions = same;
            authorized = authorized;
            accepted = λ root.
                let passes = pre_execution_iff c k to_vec inner p.block root in
                (
                  (λ ok_block. (passes.0 ok_block).2),
                  λ rules. passes.1 (genesis, authorized, rules),
                );
          }
