-- ===== src/Node/Wiring/Components.antt =====
-- src/node.rs: `CosmosNode`, the choice of the builders, and the components that upstream builds with
-- them. A builder is given by the method that its trait has.
use reth_cosmos.Prelude.{◌≡◌, sym, ap, ◌∙◌, false, Bytes, Result, ok, ok-injective}
use reth_cosmos.Consensus.{EthBeacon, new_consensus}
use reth_cosmos.Evm.Contexts.{
  CosmosEvmConfig, new_evm_config, chain_spec, block_executor_factory, block_assembler,
}
use reth_cosmos.Node.Wiring.{
  BuilderContext, BuildError, build_evm, build_consensus, PoolUpstream, build_pool,
  build_payload_builder,
}
use reth_cosmos.Node.Wiring.Settings.{SetterLaws, IsPool, build_pool-IsPool, build_evm_iff}
use reth_cosmos.Payload.Builder.Setup.{CosmosPayloadBuilder}

-- The built components: the EVM configuration `M`, the pool `P`, the payload builder `Y`, the
-- consensus `O`.
pub record Components (M P Y O : Type 0) : Type 0 where
  pub evm_config : M
  pub pool : P
  pub payload_builder : Y
  pub consensus : O

-- `ComponentsBuilder`, as upstream's type `Z` with its setters, and the network's builder `N`.
pub record ComponentsUpstream (L C R M P Y O N E Z : Type 0) : Type 0 where
  pub default : Z
  pub node_types : Z → Z
  pub pool : (BuilderContext L C R → M → Result (BuildError E) P) → Z → Z
  pub executor : (BuilderContext L C R → Result (BuildError E) M) → Z → Z
  -- Of `BasicPayloadServiceBuilder::default()`, which has the payload builder's builder.
  pub payload : (BuilderContext L C R → P → M → Result (BuildError E) Y) → Z → Z
  pub network : N → Z → Z
  pub consensus : (BuilderContext L C R → Result (BuildError E) O) → Z → Z
  pub build_components : Z → BuilderContext L C R → Result (BuildError E) (Components M P Y O)

module _ {L C R M P Y O N E Z : Type 0} (z : ComponentsUpstream L C R M P Y O N E Z)
    (network : N) where
  -- `CosmosNode::components_builder`, of the methods of the builders that it chooses.
  unfoldable pub components_builder :
      (BuilderContext L C R → Result (BuildError E) M)
      → (BuilderContext L C R → Result (BuildError E) O)
      → (BuilderContext L C R → M → Result (BuildError E) P)
      → (BuilderContext L C R → P → M → Result (BuildError E) Y)
      → Z
  components_builder evm consensus pool payload_builder =
      let chosen = z.executor evm (z.pool pool (z.node_types z.default)) in
      z.consensus consensus (z.network network (z.payload payload_builder chosen))

-- `CosmosNode::add_ons`: the default of the add-ons with the chosen builders of the API and of the
-- engine validator.
unfoldable pub add_ons : {F G A : Type 0} → (F → G → A) → F → G → A
add_ons default_add_ons build_eth_api build_engine_validator =
    default_add_ons build_eth_api build_engine_validator

-- What is set in a builder of components.
pub record Slots (L C R M P Y O E : Type 0) : Type 0 where
  pub pool : BuilderContext L C R → M → Result (BuildError E) P
  pub executor : BuilderContext L C R → Result (BuildError E) M
  pub payload : BuilderContext L C R → P → M → Result (BuildError E) Y
  pub consensus : BuilderContext L C R → Result (BuildError E) O

-- Each setter sets its own slot and leaves the others, and the components are built by the slots: the
-- executor first, the pool with it, and the payload builder with both.
pub record ComponentLaws {L C R M P Y O N E Z : Type 0} (z : ComponentsUpstream L C R M P Y O N E Z)
    : Type 0 where
  pub slots : Z → Slots L C R M P Y O E
  pub pool_law :
      (b : BuilderContext L C R → M → Result (BuildError E) P) (s : Z)
      → slots (z.pool b s) ≡ record (slots s) { pool = b }
  pub executor_law :
      (b : BuilderContext L C R → Result (BuildError E) M) (s : Z)
      → slots (z.executor b s) ≡ record (slots s) { executor = b }
  pub payload_law :
      (b : BuilderContext L C R → P → M → Result (BuildError E) Y) (s : Z)
      → slots (z.payload b s) ≡ record (slots s) { payload = b }
  pub network_law : (n : N) (s : Z) → slots (z.network n s) ≡ slots s
  pub consensus_law :
      (b : BuilderContext L C R → Result (BuildError E) O) (s : Z)
      → slots (z.consensus b s) ≡ record (slots s) { consensus = b }
  pub build_law :
      (s : Z) (ctx : BuilderContext L C R) (built : Components M P Y O)
      → z.build_components s ctx ≡ ok built
      → ((slots s).executor ctx ≡ ok built.evm_config)
        × ((slots s).pool ctx built.evm_config ≡ ok built.pool)
        × ((slots s).payload ctx built.pool built.evm_config ≡ ok built.payload_builder)
        × ((slots s).consensus ctx ≡ ok built.consensus)

module _ {L C R A F G W B K V P T Header Rest Outcome J N E Z Y : Type 0}
    (u : PoolUpstream L C R (CosmosEvmConfig A F G) W B K V P E) (setters : SetterLaws u)
    (z : ComponentsUpstream L C R
      (CosmosEvmConfig A F G)
      P
      (CosmosPayloadBuilder R P (CosmosEvmConfig A F G) Y)
      (EthBeacon T Header Rest Outcome J)
      N
      E
      Z)
    (laws : ComponentLaws z) (network : N) (new_ethereum : C → A) (new_factory : C → F)
    (new_assembler : C → G) (new_beacon : C → EthBeacon T Header Rest Outcome J)
    (with_extra_data : Bytes → Y) (chain_of : A → C)
    (keeps_chain : (chain : C) → chain_of (new_ethereum chain) ≡ chain) where
  -- The builder of the node's components.
  abbrev pub node_builder : Z
  node_builder =
      components_builder z network (build_evm new_ethereum new_factory new_assembler)
        (build_consensus new_beacon) (build_pool u) (build_payload_builder with_extra_data)

  abbrev NodeComponents : Type 0
  NodeComponents =
      Components (CosmosEvmConfig A F G) P (CosmosPayloadBuilder R P (CosmosEvmConfig A F G) Y)
        (EthBeacon T Header Rest Outcome J)

  -- The components of a node: all are of the chain of the context, the JIT is off, the pool is one
  -- that the command line configures, and the payload builder has the node's own provider, pool and
  -- EVM.
  pub record IsNode (ctx : BuilderContext L C R) (built : NodeComponents) : Type 0 where
    pub jit : ctx.jit_enabled ≡ false
    pub chain : chain_spec chain_of built.evm_config ≡ ctx.chain_spec
    pub factory : block_executor_factory built.evm_config ≡ new_factory ctx.chain_spec
    pub assembler : block_assembler built.evm_config ≡ new_assembler ctx.chain_spec
    pub consensus : built.consensus ≡ new_consensus new_beacon ctx.chain_spec
    pub pool : IsPool u setters ctx built.pool
    pub client : built.payload_builder.client ≡ ctx.provider
    pub same_pool : built.payload_builder.pool ≡ built.pool
    pub same_evm : built.payload_builder.evm_config ≡ built.evm_config
    pub extra : built.payload_builder.builder_config ≡ with_extra_data ctx.extra_data

  slots-node_builder : laws.slots node_builder ≡ record {
    pool = build_pool u;
    executor = build_evm new_ethereum new_factory new_assembler;
    payload = build_payload_builder with_extra_data;
    consensus = build_consensus new_beacon;
  }
  unfolding components_builder
  slots-node_builder = rw (
    laws.consensus_law _ _,
    laws.network_law _ _,
    laws.payload_law _ _,
    laws.executor_law _ _,
    laws.pool_law _ _,
  )

  -- If each setter of the upstream builders sets its own value, and upstream builds the components
  -- by the builders that are chosen, each with those before it: a node that is built has the JIT
  -- off, its EVM with its executors and its consensus are of the chain that it runs, its payload
  -- builder draws from its own pool, on its own EVM and provider, with the command line's extra
  -- data, and its pool validates with the limits of the command line, knows the type of Cosmos
  -- transactions, and takes no blobs exactly if the command line disables them or leaves no room for
  -- any.
  pub build_components-IsNode :
      (ctx : BuilderContext L C R) (built : NodeComponents)
      → z.build_components node_builder ctx ≡ ok built
      → IsNode ctx built
  unfolding build_consensus build_payload_builder new_evm_config chain_spec block_executor_factory
      block_assembler
  build_components-IsNode ctx built h =
      let (executor, pool, payload, consensus) =
        rw slots-node_builder at (laws.build_law node_builder ctx built h) in
      let (off, made) =
        (build_evm_iff new_ethereum new_factory new_assembler ctx built.evm_config).0 executor in
      let same = sym (ok-injective payload) in
      record {
        jit = off;
        chain = ap (λ m. chain_of m.ethereum) (sym made) ∙ keeps_chain ctx.chain_spec;
        factory = ap (λ m. m.factory) (sym made);
        assembler = ap (λ m. m.assembler) (sym made);
        consensus = sym (ok-injective consensus);
        pool = build_pool-IsPool u setters ctx built.evm_config pool;
        client = ap (λ y. y.client) same;
        same_pool = ap (λ y. y.pool) same;
        same_evm = ap (λ y. y.evm_config) same;
        extra = ap (λ y. y.builder_config) same;
      }
