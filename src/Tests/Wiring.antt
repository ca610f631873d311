-- ===== src/Tests/Wiring.antt =====
-- The properties of `Node.Wiring` at a command line without blobs, whose validator is its settings.
use reth_cosmos.Prelude.{
  ℕ, ◌≡◌, refl, true, false, ◌||◌, none, some, [], Bytes, Result, ok, err, ◌>>=◌, ◌==◌, >>=-eq-ok,
  ok-injective,
}
use reth_cosmos.Payload.Builder.Setup.{CosmosPayloadBuilder, new_builder}
use reth_cosmos.Consensus.{EthBeacon, new_consensus}
use reth_cosmos.Evm.Contexts.{CosmosEvmConfig, new_evm_config}
use reth_cosmos.Tests.Consensus.{lenient}
use reth_cosmos.Node.Wiring.{
  BuilderContext, BuildError, upstream, build_evm, build_consensus, PoolUpstream, validator_builder,
  blobs_disabled, build_pool, build_payload_builder,
}
use reth_cosmos.Node.Wiring.Settings.{Settings, SetterLaws}
use reth_cosmos.Node.Wiring.Components.{
  Components, ComponentsUpstream, components_builder, Slots, ComponentLaws, node_builder, IsNode,
  build_components-IsNode,
}

abbrev EvmConfig : Type 0
EvmConfig = CosmosEvmConfig ℕ ℕ ℕ

abbrev upstream_pool :
    PoolUpstream ℕ ℕ ℕ EvmConfig (Settings ℕ ℕ) ℕ ℕ (Settings ℕ ℕ) (Settings ℕ ℕ) ℕ
upstream_pool = record {
  create_blob_store_with_cache = λ ctx n. ok 5;
  kzg_settings = λ ctx. ok 6;
  eth_builder = λ provider evm. record {
    custom_tx_type = λ n. false;
    eip4844 = true;
    kzg = none;
    max_tx_input_bytes = 1;
    local_transactions = 0;
    tx_fee_cap = 0;
    max_tx_gas_limit = none;
    minimum_priority_fee = none;
    additional_tasks = 0;
  };
  with_custom_tx_type = λ t w. record w { custom_tx_type = λ n. n == t || w.custom_tx_type n };
  set_eip4844 = λ b w. record w { eip4844 = b };
  with_kzg_settings = λ k w. record w { kzg = some k };
  with_max_tx_input_bytes = λ n w. record w { max_tx_input_bytes = n };
  with_local_transactions_config = λ l w. record w { local_transactions = l };
  set_tx_fee_cap = λ n w. record w { tx_fee_cap = n };
  with_max_tx_gas_limit = λ n w. record w { max_tx_gas_limit = n };
  with_minimum_priority_fee = λ n w. record w { minimum_priority_fee = n };
  with_additional_tasks = λ n w. record w { additional_tasks = n };
  build_with_tasks = λ b w. w;
  build_and_spawn = λ ctx v b. ok v;
}

abbrev upstream_laws : SetterLaws upstream_pool
upstream_laws = record {
  settings = λ w. w;
  custom_law = λ t w. refl;
  eip4844_law = λ b w. refl;
  kzg_law = λ k w. refl;
  input_law = λ n w. refl;
  local_law = λ l w. refl;
  fee_law = λ n w. refl;
  gas_law = λ n w. refl;
  priority_law = λ n w. refl;
  tasks_law = λ n w. refl;
}

abbrev command_line : BuilderContext ℕ ℕ ℕ
command_line = record {
  chain_spec = 7;
  provider = 8;
  jit_enabled = false;
  disable_blobs_support = false;
  blobpool_max_count = 0;
  max_tx_input_bytes = 131072;
  max_tx_gas_limit = some 30000000;
  minimum_priority_fee = none;
  additional_validation_tasks = 1;
  rpc_tx_fee_cap = 1000;
  blob_cache_size = none;
  local_transactions_config = 0;
  extra_data = [];
}

abbrev pool_settings : Settings ℕ ℕ
pool_settings = record {
  custom_tx_type = λ n. n == 126 || false;
  eip4844 = false;
  kzg = some 6;
  max_tx_input_bytes = 131072;
  local_transactions = 0;
  tx_fee_cap = 1000;
  max_tx_gas_limit = some 30000000;
  minimum_priority_fee = none;
  additional_tasks = 1;
}

abbrev NodeSlots : Type 0
NodeSlots =
    Slots ℕ ℕ ℕ EvmConfig (Settings ℕ ℕ) (CosmosPayloadBuilder ℕ (Settings ℕ ℕ) EvmConfig Bytes)
      (EthBeacon Bytes ℕ ℕ ℕ ℕ) ℕ

-- A builder of components that is its slots, and nothing is set by default.
abbrev unset : NodeSlots
unset = record {
  pool = λ ctx evm. err (upstream 0);
  executor = λ ctx. err (upstream 1);
  payload = λ ctx pool evm. err (upstream 2);
  consensus = λ ctx. err (upstream 3);
}

abbrev NodeComponents : Type 0
NodeComponents =
    Components EvmConfig (Settings ℕ ℕ) (CosmosPayloadBuilder ℕ (Settings ℕ ℕ) EvmConfig Bytes)
      (EthBeacon Bytes ℕ ℕ ℕ ℕ)

unfoldable assemble : NodeSlots → BuilderContext ℕ ℕ ℕ → Result (BuildError ℕ) NodeComponents
assemble s ctx = do
  evm ← s.executor ctx
  pool ← s.pool ctx evm
  payload_builder ← s.payload ctx pool evm
  consensus ← s.consensus ctx
  ok (record {
    evm_config = evm;
    pool = pool;
    payload_builder = payload_builder;
    consensus = consensus;
  })

abbrev upstream_components :
    ComponentsUpstream ℕ ℕ ℕ EvmConfig
      (Settings ℕ ℕ)
      (CosmosPayloadBuilder ℕ (Settings ℕ ℕ) EvmConfig Bytes)
      (EthBeacon Bytes ℕ ℕ ℕ ℕ)
      ℕ
      ℕ
      NodeSlots
upstream_components = record {
  default = unset;
  node_types = λ s. s;
  pool = λ b s. record s { pool = b };
  executor = λ b s. record s { executor = b };
  payload = λ b s. record s { payload = b };
  network = λ n s. s;
  consensus = λ b s. record s { consensus = b };
  build_components = assemble;
}

assemble-eq-ok :
    (s : NodeSlots) (ctx : BuilderContext ℕ ℕ ℕ) (built : NodeComponents)
    → assemble s ctx ≡ ok built
    → (s.executor ctx ≡ ok built.evm_config)
      × (s.pool ctx built.evm_config ≡ ok built.pool)
      × (s.payload ctx built.pool built.evm_config ≡ ok built.payload_builder)
      × (s.consensus ctx ≡ ok built.consensus)
unfolding assemble
assemble-eq-ok s ctx built h =
    let (evm, e₀, h₁) = >>=-eq-ok (s.executor ctx) _ h in
    let (pool, e₁, h₂) = >>=-eq-ok (s.pool ctx evm) _ h₁ in
    let (payload_builder, e₂, h₃) = >>=-eq-ok (s.payload ctx pool evm) _ h₂ in
    let (consensus, e₃, h₄) = >>=-eq-ok (s.consensus ctx) _ h₃ in
    rw (← ok-injective h₄) (e₀, e₁, e₂, e₃)

abbrev component_laws : ComponentLaws upstream_components
component_laws = record {
  slots = λ s. s;
  pool_law = λ b s. refl;
  executor_law = λ b s. refl;
  payload_law = λ b s. refl;
  network_law = λ n s. refl;
  consensus_law = λ b s. refl;
  build_law = assemble-eq-ok;
}

-- The parts of the configuration are the chain.
abbrev evm_of : ℕ → EvmConfig
evm_of chain = record { ethereum = chain; factory = chain; assembler = chain }

abbrev components : NodeComponents
components = record {
  evm_config = evm_of 7;
  pool = pool_settings;
  payload_builder = record {
    client = 8;
    pool = pool_settings;
    evm_config = evm_of 7;
    builder_config = [];
  };
  consensus = lenient;
}

node_built :
    assemble
      (node_builder upstream_pool upstream_laws upstream_components component_laws 0
        (λ n. n)
        (λ n. n)
        (λ n. n)
        (λ n. lenient)
        (λ extra. extra)
        (λ n. n)
        (λ n. refl))
      command_line
    ≡ ok components
unfolding components_builder build_evm build_consensus build_payload_builder new_builder build_pool
    validator_builder blobs_disabled assemble new_evm_config new_consensus
node_built = refl

build_components-IsNode_example :
    IsNode upstream_pool upstream_laws upstream_components component_laws 0
      (λ n. n)
      (λ n. n)
      (λ n. n)
      (λ n. lenient)
      (λ extra. extra)
      (λ n. n)
      (λ n. refl)
      command_line
      components
build_components-IsNode_example =
    build_components-IsNode upstream_pool upstream_laws upstream_components component_laws 0
      (λ n. n) (λ n. n) (λ n. n) (λ n. lenient) (λ extra. extra) (λ n. n) (λ n. refl) command_line
      components node_built
