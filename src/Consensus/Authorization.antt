-- ===== src/Consensus/Authorization.antt =====
-- src/consensus.rs: which blocks pass the validation before execution.
use reth_cosmos.Prelude.{
  ◌≡◌, ◌↔◌, refl, true, Option, List, [], ◌∷◌, Bytes, ok, err, map_err, map_err-eq-ok, >>=-eq-ok,
  guard-eq-ok, bytes_eq, bytes_eq→eq, bytes_eq_refl, All, Bool-cases, Result-cases, inl, inr, ◌⊎◌,
}
use reth_cosmos.Extern.Rlp.{Rlp}
use reth_cosmos.Extern.Crypto.{Crypto}
use reth_cosmos.Extern.Json.{Json}
use reth_cosmos.Auth.{genesis_hash_const}
use reth_cosmos.Primitives.Signed.{verify_signed}
use reth_cosmos.Primitives.Envelope.{CosmosEnvelope, ethereum, cosmos}
use reth_cosmos.Primitives.Envelope.Recovery.{IsAuthorizedTx, verify_signed_iff}
use reth_cosmos.Consensus.{
  ConsensusError, transaction_signer_recovery, SealedBlock, Check, EthBeacon, verify_each,
  verify_authorizations, validate_block_pre_execution_with_tx_root,
}

module _ (c : Rlp) {Key Sig : Type 0} (k : Crypto Key Sig) (to_vec : Json → Bytes)
    {T : Type 0} where
  -- An Ethereum transaction needs no Cosmos authorization.
  abbrev pub IsAuthorizedEnvelope : CosmosEnvelope T → Type 0
  IsAuthorizedEnvelope (ethereum t) = Unit {0}
  IsAuthorizedEnvelope (cosmos t) = IsAuthorizedTx c k to_vec t

  verify_each_sound :
      {E : Type 0} (txs : List (CosmosEnvelope T))
      → ◌≡◌ {A = Check E} (verify_each c k to_vec txs) (ok tt)
      → All IsAuthorizedEnvelope txs
  unfolding verify_each
  verify_each_sound [] h = tt
  verify_each_sound (ethereum t ∷ txs) h = (tt, verify_each_sound txs h)
  verify_each_sound {E} (cosmos t ∷ txs) h =
      let (a, e, rest) =
        >>=-eq-ok {E = ConsensusError E}
          (map_err (verify_signed c k to_vec t) transaction_signer_recovery)
          (λ _. verify_each c k to_vec txs) h in
      let authorized =
        (verify_signed_iff c k to_vec t a).0
          (map_err-eq-ok (verify_signed c k to_vec t) transaction_signer_recovery e) in
      (authorized.1, verify_each_sound {E = E} txs rest)

  verify_each_complete :
      {E : Type 0} (txs : List (CosmosEnvelope T))
      → All IsAuthorizedEnvelope txs
      → ◌≡◌ {A = Check E} (verify_each c k to_vec txs) (ok tt)
  unfolding verify_each
  verify_each_complete [] h = refl
  verify_each_complete (ethereum t ∷ txs) h = verify_each_complete txs h.1
  verify_each_complete (cosmos t ∷ txs) h =
      rw ((verify_signed_iff c k to_vec t t.operation.sender).1 (refl, h.0))
        (verify_each_complete txs h.1)

  verify_each-cases :
      {E : Type 0} (txs : List (CosmosEnvelope T))
      → ◌≡◌ {A = Check E} (verify_each c k to_vec txs) (ok tt)
        ⊎ ◌≡◌ {A = Check E} (verify_each c k to_vec txs) (err transaction_signer_recovery)
  unfolding verify_each
  verify_each-cases [] = inl refl
  verify_each-cases (ethereum t ∷ txs) = verify_each-cases txs
  verify_each-cases (cosmos t ∷ txs) = elim (Result-cases (verify_signed c k to_vec t)) [
    | inl (a, e) ↦ rw e (verify_each-cases txs)
    | inr (x, e) ↦ rw e (inr refl)
  ]

  module _ {Header Rest Outcome E : Type 0} (inner : EthBeacon T Header Rest Outcome E)
      (block : SealedBlock T Header Rest) (root : Option Bytes) where
    -- A block passes exactly when the chain has the experiment's genesis, every Cosmos transaction
    -- in it is authorized, and the Ethereum rules hold of it with the given transaction root, if
    -- there is one.
    pub pre_execution_iff :
        (validate_block_pre_execution_with_tx_root c k to_vec inner block root ≡ ok tt) ↔ (
          (inner.genesis_hash ≡ genesis_hash_const)
          × All IsAuthorizedEnvelope block.transactions
          × (inner.validate_pre_execution block root ≡ ok tt))
    unfolding validate_block_pre_execution_with_tx_root verify_authorizations
    pre_execution_iff = (
      λ h.
          let (_, checked, rules) = >>=-eq-ok (verify_authorizations c k to_vec inner block) _ h in
          let (g, each) =
            guard-eq-ok (bytes_eq inner.genesis_hash genesis_hash_const) transaction_signer_recovery
              _ checked in
          (bytes_eq→eq _ _ g, verify_each_sound {E = E} block.transactions each, rules),
      λ p.
          let same : bytes_eq inner.genesis_hash genesis_hash_const ≡ true =
            rw p.0 (bytes_eq_refl genesis_hash_const) in
          rw (same, verify_each_complete {E = E} block.transactions p.1) p.2,
    )

    -- A block with a Cosmos transaction that is not authorized is refused by the error of signer
    -- recovery, whatever the Ethereum rules say of it.
    pub pre_execution_refuses :
        ¬ All IsAuthorizedEnvelope block.transactions
        → validate_block_pre_execution_with_tx_root c k to_vec inner block root
          ≡ err transaction_signer_recovery
    unfolding validate_block_pre_execution_with_tx_root verify_authorizations
    pre_execution_refuses bad = elim (verify_each-cases {E = E} block.transactions) [
      | inl e ↦ absurd (bad (verify_each_sound {E = E} block.transactions e))
      | inr e ↦ elim (Bool-cases (bytes_eq inner.genesis_hash genesis_hash_const)) [
        | inl g ↦ rw (g, e)
        | inr g ↦ rw g
      ]
    ]
