-- ===== src/Tests/Evm.antt =====
-- The properties of `Evm` at the authorized transaction.
use reth_cosmos.Prelude.{All, ◌≡◌, refl, none, Bytes, Result, ok}
use reth_cosmos.Primitives.Signed.{RecoveryError}
use reth_cosmos.Primitives.View.{create}
use reth_cosmos.Primitives.Envelope.{CosmosEnvelope, cosmos, recover_signer}
use reth_cosmos.Primitives.Envelope.Recovery.{verify_signed_iff}
use reth_cosmos.Evm.{TxEnv}
use reth_cosmos.Evm.Blocks.{IsExecutableEnvelope, pre_execution-IsExecutable}
use reth_cosmos.Tests.Codec.{codec}
use reth_cosmos.Tests.Json.{to_vec}
use reth_cosmos.Tests.Toy.{toy}
use reth_cosmos.Tests.Accounts.{toy_operation, toy_signed, toy_signed-IsAuthorizedTx}
use reth_cosmos.Tests.Consensus.{lenient, block_of, toy_block_passes}
use reth_cosmos.Tests.Primitives.{toy_eth}

-- An environment of an Ethereum transaction.
abbrev pub ethereum_env : Bytes → Bytes → TxEnv (Unit {0})
ethereum_env t caller = record {
  tx_type = 0;
  caller = caller;
  gas_limit = 21000;
  gas_price = 1;
  kind = create;
  value = 0;
  content = t;
  nonce = 0;
  chain_id = none;
  gas_priority_fee = none;
  others = tt;
}

abbrev pub try_recover : CosmosEnvelope Bytes → Result RecoveryError Bytes
try_recover tx = recover_signer toy_eth codec toy to_vec tx

pub toy-recovered : try_recover (cosmos toy_signed) ≡ ok toy_operation.sender
unfolding recover_signer
toy-recovered =
    (verify_signed_iff codec toy to_vec toy_signed toy_operation.sender).1
      (refl, toy_signed-IsAuthorizedTx)

pre_execution-IsExecutable_example :
    All
      (IsExecutableEnvelope codec toy to_vec toy_eth ethereum_env tt (λ m p b. m))
      (block_of toy_signed).transactions
pre_execution-IsExecutable_example =
    pre_execution-IsExecutable codec toy to_vec toy_eth ethereum_env tt (λ m p b. m) lenient
      (block_of toy_signed) none toy_block_passes
