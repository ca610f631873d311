-- ===== src/Node/Endpoint/Executed.antt =====
-- From src/main.rs to src/evm.rs: how a transaction that the endpoint has sent is executed, once a
-- payload holds its bytes.
use reth_cosmos.Prelude.{ℕ, ◌≡◌, Option, some, [], ◌∷◌, Bytes, Result, ok}
use reth_cosmos.Prelude.Panics.{expect, >>=-eq-some}
use reth_cosmos.Extern.Rlp.{Rlp, RlpLaws}
use reth_cosmos.Extern.Crypto.{Crypto}
use reth_cosmos.Extern.Json.{Json}
use reth_cosmos.Primitives.Signed.{CosmosSigned, RecoveryError}
use reth_cosmos.Primitives.Envelope.{EthTx, CosmosEnvelope, cosmos, typed_decode, recover_signer}
use reth_cosmos.Primitives.Envelope.Recovery.{IsAuthorizedTx}
use reth_cosmos.Primitives.View.{cosmos_view}
use reth_cosmos.Evm.{TxEnv, from_recovered_tx, convert}
use reth_cosmos.Evm.Execution.{IsEnvironment, convert-IsEnvironment}
use reth_cosmos.Node.Endpoint.{admit}
use reth_cosmos.Node.Endpoint.Sent.{IsTransaction, admit-IsTransaction}

module _ (c : Rlp) {Key Sig : Type 0} (k : Crypto Key Sig) (to_vec : Json → Bytes)
    {T AccessList Authorization Others : Type 0} (e : EthTx T AccessList Authorization)
    (upstream : T → Bytes → TxEnv Others) (defaults : Others) (calc : ℕ → ℕ → Option ℕ → ℕ)
    (decode_2718_exact : Bytes → Option (CosmosEnvelope T))
    (try_recover : CosmosEnvelope T → Result RecoveryError Bytes)
    (exact : (ty : ℕ) (body : Bytes) (tx : CosmosEnvelope T)
      → typed_decode e c k ty body ≡ ok (tx, [])
      → decode_2718_exact (ty ∷ body) ≡ some tx)
    (recovers : (tx : CosmosEnvelope T) → try_recover tx ≡ recover_signer e c k to_vec tx) where
  -- The transaction of some bytes, executed for a signer.
  pub record IsExecuted (bytes signer : Bytes) (t : CosmosSigned) : Type 0 where
    pub transaction : IsTransaction c k e bytes t
    pub authorized : IsAuthorizedTx c k to_vec t
    pub env : TxEnv Others
    pub built : from_recovered_tx upstream defaults (cosmos t) signer ≡ some env
    pub caller : env.caller ≡ t.operation.sender
    pub shown :
        IsEnvironment env
          (cosmos_view {AccessList = AccessList} {Authorization = Authorization} calc t)

  convert-decoded :
      (raw : Bytes) (t : CosmosSigned) {tx : CosmosEnvelope T} {signer : Bytes}
      → decode_2718_exact raw ≡ some (cosmos t)
      → convert decode_2718_exact try_recover raw ≡ some (tx, signer)
      → tx ≡ cosmos t
  unfolding convert
  convert-decoded raw t found h =
      let (d, e₁, h₁) = >>=-eq-some (decode_2718_exact raw) _ h in
      let (s, _, done) = >>=-eq-some (expect (try_recover d)) _ h₁ in cc

  -- Under the laws of RLP, if `decode_2718_exact` accepts what the typed decoding reads to the end,
  -- and `try_recover` is the signer recovery: bytes that the endpoint has sent are executed from a
  -- payload only as the Cosmos transaction that they encode, which its account has authorized. The
  -- caller is the operation's sender, and the values are those that the transaction shows.
  pub admit-IsExecuted :
      (laws : RlpLaws c) (parse : Bytes → Option Bytes) (pool_total : ℕ) (params : Option Bytes)
      (bytes : Bytes) (tx : CosmosEnvelope T) (signer : Bytes)
      → admit c parse pool_total params ≡ ok bytes
      → convert decode_2718_exact try_recover bytes ≡ some (tx, signer)
      → (t : CosmosSigned) × (tx ≡ cosmos t) × IsExecuted bytes signer t
  admit-IsExecuted laws parse pool_total params bytes tx signer sent converted =
      let (t, i) = admit-IsTransaction c k e laws parse pool_total params sent in
      let found : decode_2718_exact bytes ≡ some (cosmos t) =
        rw i.typed (exact _ i.body (cosmos t) i.decodes) in
      let same : tx ≡ cosmos t = convert-decoded bytes t found converted in
      let (authorized, env, built, caller, shown) =
        convert-IsEnvironment c k to_vec e upstream defaults calc decode_2718_exact try_recover
          recovers bytes t signer (rw same at converted) in
      (
        t,
        same,
        record {
          transaction = i;
          authorized = authorized;
          env = env;
          built = built;
          caller = caller;
          shown = shown;
        },
      )
