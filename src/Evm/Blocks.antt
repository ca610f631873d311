-- ===== src/Evm/Blocks.antt =====
-- src/consensus.rs and src/evm.rs: the transactions of a block that passes the validation before
-- execution can be executed.
use reth_cosmos.Prelude.{ℕ, ◌≡◌, refl, Option, some, List, [], ◌∷◌, Bytes, ok, All, bytes_eq_refl}
use reth_cosmos.Extern.Rlp.{Rlp}
use reth_cosmos.Extern.Crypto.{Crypto}
use reth_cosmos.Extern.Json.{Json}
use reth_cosmos.Primitives.Signed.{CosmosSigned}
use reth_cosmos.Primitives.Envelope.{EthTx, CosmosEnvelope, ethereum, cosmos, recover_signer}
use reth_cosmos.Primitives.Envelope.Recovery.{IsAuthorizedTx, checked, recover_by, recover_by_iff}
use reth_cosmos.Primitives.View.{cosmos_view}
use reth_cosmos.Consensus.{SealedBlock, EthBeacon, validate_block_pre_execution_with_tx_root}
use reth_cosmos.Consensus.Authorization.{IsAuthorizedEnvelope, pre_execution_iff}
use reth_cosmos.Evm.{TxEnv, cosmos_env, from_recovered_tx}
use reth_cosmos.Evm.Execution.{IsEnvironment, cosmos_env-IsEnvironment}

module _ (c : Rlp) {Key Sig : Type 0} (k : Crypto Key Sig) (to_vec : Json → Bytes)
    {T AccessList Authorization Others : Type 0} (e : EthTx T AccessList Authorization)
    (upstream : T → Bytes → TxEnv Others) (defaults : Others) (calc : ℕ → ℕ → Option ℕ → ℕ) where
  -- The sender of a Cosmos transaction is recovered, and its environment is built for it.
  pub record IsExecutable (t : CosmosSigned) : Type 0 where
    pub env : TxEnv Others
    pub recovered : recover_signer e c k to_vec (cosmos t) ≡ ok t.operation.sender
    pub built : from_recovered_tx upstream defaults (cosmos t) t.operation.sender ≡ some env
    pub caller : env.caller ≡ t.operation.sender
    pub shown :
        IsEnvironment env
          (cosmos_view {AccessList = AccessList} {Authorization = Authorization} calc t)

  abbrev pub IsExecutableEnvelope : CosmosEnvelope T → Type 0
  IsExecutableEnvelope (ethereum t) = Unit {0}
  IsExecutableEnvelope (cosmos t) = IsExecutable t

  authorized-IsExecutable : (t : CosmosSigned) → IsAuthorizedTx c k to_vec t → IsExecutable t
  unfolding from_recovered_tx recover_by
  authorized-IsExecutable t h = record {
    env = cosmos_env upstream defaults t t.operation.sender;
    recovered = (recover_by_iff c k to_vec e checked t t.operation.sender).1 (refl, h);
    built = rw (bytes_eq_refl t.operation.sender) refl;
    caller = refl;
    shown = cosmos_env-IsEnvironment upstream defaults calc t t.operation.sender;
  }

  All-IsExecutable :
      (txs : List (CosmosEnvelope T))
      → All (IsAuthorizedEnvelope c k to_vec) txs
      → All IsExecutableEnvelope txs
  All-IsExecutable [] h = tt
  All-IsExecutable (ethereum t ∷ txs) h = (tt, All-IsExecutable txs h.1)
  All-IsExecutable (cosmos t ∷ txs) h = (authorized-IsExecutable t h.0, All-IsExecutable txs h.1)

  -- If a block passes the validation before execution, the sender of every Cosmos transaction in it
  -- is recovered, and the transaction's environment is built for that sender without a panic, with
  -- the values that the transaction shows.
  pub pre_execution-IsExecutable :
      {Header Rest Outcome E : Type 0} (inner : EthBeacon T Header Rest Outcome E)
      (block : SealedBlock T Header Rest) (root : Option Bytes)
      → validate_block_pre_execution_with_tx_root c k to_vec inner block root ≡ ok tt
      → All IsExecutableEnvelope block.transactions
  pre_execution-IsExecutable inner block root h =
      All-IsExecutable block.transactions ((pre_execution_iff c k to_vec inner block root).0 h).1
