-- ===== src/Evm/Execution.antt =====
-- src/evm.rs: a Cosmos transaction is executed as its authorized operation.
use reth_cosmos.Prelude.{
  ℕ, ◌≡◌, ◌≢◌, ◌↔◌, refl, sym, ◌∙◌, true, Option, none, some, Bytes, Result, ok, arith, bytes_eq,
  bytes_eq→eq, bytes_eq_refl, Bool-cases, inl, inr,
}
use reth_cosmos.Prelude.Panics.{expect, >>=-eq-some, expect-eq-some}
use reth_cosmos.Extern.Rlp.{Rlp}
use reth_cosmos.Extern.Crypto.{Crypto}
use reth_cosmos.Extern.Json.{Json}
use reth_cosmos.Primitives.Signed.{CosmosSigned, RecoveryError}
use reth_cosmos.Primitives.View.{TxView, cosmos_view}
use reth_cosmos.Primitives.Envelope.{EthTx, CosmosEnvelope, cosmos, recover_signer}
use reth_cosmos.Primitives.Envelope.Recovery.{IsAuthorizedTx, checked, recover_by, recover_by_iff}
use reth_cosmos.Evm.{TxEnv, cosmos_env, from_recovered_tx, from_encoded_tx, convert}

-- The environment executes what the transaction shows through the trait `Transaction`, as a
-- transaction with dynamic fees.
pub record IsEnvironment {Others A U : Type 0} (env : TxEnv Others) (v : TxView A U) : Type 0 where
  pub dynamic : env.tx_type ≡ 2
  pub gas_limit : env.gas_limit ≡ v.gas_limit
  pub gas_price : env.gas_price ≡ v.max_fee_per_gas
  pub priority : env.gas_priority_fee ≡ v.max_priority_fee_per_gas
  pub kind : env.kind ≡ v.kind
  pub value : env.value ≡ v.value
  pub input : env.content ≡ v.input
  pub nonce : env.nonce ≡ v.nonce
  pub chain : env.chain_id ≡ v.chain_id

module _ {T Others : Type 0} (upstream : T → Bytes → TxEnv Others) (defaults : Others) where
  recovered_panics_iff :
      (t : CosmosSigned) (caller : Bytes)
      → (from_recovered_tx upstream defaults (cosmos t) caller ≡ none)
        ↔ (caller ≢ t.operation.sender)
  unfolding from_recovered_tx
  recovered_panics_iff t caller = (
    (λ h same.
        let found : bytes_eq caller t.operation.sender ≡ true =
          rw same (bytes_eq_refl t.operation.sender) in
        absurd (ground arith)),
    (λ differ. elim (Bool-cases (bytes_eq caller t.operation.sender)) [
      | inl same ↦ absurd (differ (bytes_eq→eq caller t.operation.sender same))
      | inr other ↦ rw other refl
    ]),
  )

  -- The environment of a Cosmos transaction panics exactly when the caller is not the operation's
  -- sender, whether or not the encoded form is passed along.
  pub environment_panics_iff :
      (upstream_encoded : T → Bytes → Bytes → TxEnv Others) (t : CosmosSigned)
      (caller encoded : Bytes)
      → ((from_recovered_tx upstream defaults (cosmos t) caller ≡ none)
          ↔ (caller ≢ t.operation.sender))
        × ((from_encoded_tx upstream defaults upstream_encoded (cosmos t) caller encoded ≡ none)
            ↔ (caller ≢ t.operation.sender))
  unfolding from_encoded_tx
  environment_panics_iff upstream_encoded t caller encoded =
      (recovered_panics_iff t caller, recovered_panics_iff t caller)

-- The environment of a Cosmos transaction has the values that the transaction shows.
pub cosmos_env-IsEnvironment :
    {T Others A U : Type 0} (upstream : T → Bytes → TxEnv Others) (defaults : Others)
    (calc : ℕ → ℕ → Option ℕ → ℕ) (t : CosmosSigned) (caller : Bytes)
    → IsEnvironment
        (cosmos_env upstream defaults t caller)
        (cosmos_view {AccessList = A} {Authorization = U} calc t)
unfolding cosmos_view
cosmos_env-IsEnvironment upstream defaults calc t caller = record {
  dynamic = refl;
  gas_limit = refl;
  gas_price = refl;
  priority = refl;
  kind = refl;
  value = refl;
  input = refl;
  nonce = refl;
  chain = refl;
}

module _ (c : Rlp) {Key Sig : Type 0} (k : Crypto Key Sig) (to_vec : Json → Bytes)
    {T AccessList Authorization Others : Type 0} (e : EthTx T AccessList Authorization)
    (upstream : T → Bytes → TxEnv Others) (defaults : Others) (calc : ℕ → ℕ → Option ℕ → ℕ)
    (decode_2718_exact : Bytes → Option (CosmosEnvelope T))
    (try_recover : CosmosEnvelope T → Result RecoveryError Bytes)
    (recovers : (tx : CosmosEnvelope T) → try_recover tx ≡ recover_signer e c k to_vec tx) where
  -- A Cosmos transaction of a payload that is converted for execution is authorized, and its
  -- environment is built without a panic: the caller is the operation's sender, and the values are
  -- those that the transaction shows, given that `try_recover` is the signer recovery.
  pub convert-IsEnvironment :
      (raw : Bytes) (t : CosmosSigned) (signer : Bytes)
      → convert decode_2718_exact try_recover raw ≡ some (cosmos t, signer)
      → IsAuthorizedTx c k to_vec t
        × (env : TxEnv Others) × (from_recovered_tx upstream defaults (cosmos t) signer ≡ some env)
        × (env.caller ≡ t.operation.sender)
        × IsEnvironment env
            (cosmos_view {AccessList = AccessList} {Authorization = Authorization} calc t)
  unfolding convert from_recovered_tx recover_by
  convert-IsEnvironment raw t signer h =
      let (tx, _, h₁) = >>=-eq-some (decode_2718_exact raw) _ h in
      let (found, recovered, h₂) = >>=-eq-some (expect (try_recover tx)) _ h₁ in
      let same : tx ≡ cosmos t = cc in
      let by : found ≡ signer = cc in
      let r : recover_signer e c k to_vec (cosmos t) ≡ ok signer =
        rw (← same, ← by) (sym (recovers tx) ∙ expect-eq-some (try_recover tx) recovered) in
      let (owner, authorized) = (recover_by_iff c k to_vec e checked t signer).0 r in
      let built : from_recovered_tx upstream defaults (cosmos t) signer
          ≡ some (cosmos_env upstream defaults t signer) =
        rw (owner, bytes_eq_refl t.operation.sender) refl in
      (
        authorized,
        cosmos_env upstream defaults t signer,
        built,
        owner,
        cosmos_env-IsEnvironment upstream defaults calc t signer,
      )
