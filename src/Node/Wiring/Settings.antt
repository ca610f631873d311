-- ===== src/Node/Wiring/Settings.antt =====
-- src/node.rs: how the pool validates, and which configurations are refused.
use reth_cosmos.Prelude.{
  ℕ, ◌≡◌, ◌↔◌, refl, sym, subst, ap, Bool, true, false, not, ◌||◌, Option, Result, ok, ◌==◌,
  Bool-cases, inl, inr, >>=-eq-ok, ok-injective, ◌⊎◌, arith,
}
use reth_cosmos.Auth.{tx_type_const}
use reth_cosmos.Evm.Contexts.{CosmosEvmConfig, new_evm_config}
use reth_cosmos.Node.Wiring.{
  BuilderContext, BuildError, build_evm, PoolUpstream, blobs_disabled, validator_builder,
  build_pool,
}

-- What is set in the builder of a validator.
pub record Settings (L K : Type 0) : Type 0 where
  pub custom_tx_type : ℕ → Bool
  pub eip4844 : Bool
  pub kzg : Option K
  pub max_tx_input_bytes : ℕ
  pub local_transactions : L
  pub tx_fee_cap : ℕ
  pub max_tx_gas_limit : Option ℕ
  pub minimum_priority_fee : Option ℕ
  pub additional_tasks : ℕ

-- Each setter of the builder sets its own value and leaves the others.
pub record SetterLaws {L C R M W B K V P E : Type 0} (u : PoolUpstream L C R M W B K V P E)
    : Type 0 where
  pub settings : W → Settings L K
  pub custom_law :
      (t : ℕ) (w : W)
      → settings (u.with_custom_tx_type t w)
        ≡ record (settings w) { custom_tx_type = λ n. n == t || (settings w).custom_tx_type n }
  pub eip4844_law :
      (b : Bool) (w : W) → settings (u.set_eip4844 b w) ≡ record (settings w) { eip4844 = b }
  pub kzg_law :
      (k : K) (w : W)
      → settings (u.with_kzg_settings k w) ≡ record (settings w) { kzg = Option.some k }
  pub input_law :
      (n : ℕ) (w : W)
      → settings (u.with_max_tx_input_bytes n w) ≡ record (settings w) { max_tx_input_bytes = n }
  pub local_law :
      (l : L) (w : W)
      → settings (u.with_local_transactions_config l w)
        ≡ record (settings w) { local_transactions = l }
  pub fee_law :
      (n : ℕ) (w : W) → settings (u.set_tx_fee_cap n w) ≡ record (settings w) { tx_fee_cap = n }
  pub gas_law :
      (n : Option ℕ) (w : W)
      → settings (u.with_max_tx_gas_limit n w) ≡ record (settings w) { max_tx_gas_limit = n }
  pub priority_law :
      (n : Option ℕ) (w : W)
      → settings (u.with_minimum_priority_fee n w)
        ≡ record (settings w) { minimum_priority_fee = n }
  pub tasks_law :
      (n : ℕ) (w : W)
      → settings (u.with_additional_tasks n w) ≡ record (settings w) { additional_tasks = n }

module _ {L C R M W B K V P E : Type 0} (u : PoolUpstream L C R M W B K V P E)
    (laws : SetterLaws u) where
  -- The settings of the pool's validator: Cosmos transactions are known, blobs are as the command
  -- line says, and the limits are the command line's.
  pub record IsConfigured (ctx : BuilderContext L C R) (s : Settings L K) : Type 0 where
    pub cosmos : s.custom_tx_type tx_type_const ≡ true
    pub blobs :
        (s.eip4844 ≡ false) ↔ ((ctx.disable_blobs_support ≡ true) ⊎ (ctx.blobpool_max_count ≡ 0))
    pub input : s.max_tx_input_bytes ≡ ctx.max_tx_input_bytes
    pub local : s.local_transactions ≡ ctx.local_transactions_config
    pub fee_cap : s.tx_fee_cap ≡ ctx.rpc_tx_fee_cap
    pub gas_limit : s.max_tx_gas_limit ≡ ctx.max_tx_gas_limit
    pub priority : s.minimum_priority_fee ≡ ctx.minimum_priority_fee
    pub tasks : s.additional_tasks ≡ ctx.additional_validation_tasks

  -- The settings of the builder behind its setters.
  settings-validator_builder :
      (ctx : BuilderContext L C R) (evm : M) (kzg : K)
      → laws.settings (validator_builder u ctx evm kzg) ≡ record {
        custom_tx_type = λ n.
            n == tx_type_const || (laws.settings (u.eth_builder ctx.provider evm)).custom_tx_type n;
        eip4844 = not (blobs_disabled ctx);
        kzg = Option.some kzg;
        max_tx_input_bytes = ctx.max_tx_input_bytes;
        local_transactions = ctx.local_transactions_config;
        tx_fee_cap = ctx.rpc_tx_fee_cap;
        max_tx_gas_limit = ctx.max_tx_gas_limit;
        minimum_priority_fee = ctx.minimum_priority_fee;
        additional_tasks = ctx.additional_validation_tasks;
      }
  unfolding validator_builder
  settings-validator_builder ctx evm kzg = rw (
    laws.tasks_law _ _,
    laws.priority_law _ _,
    laws.gas_law _ _,
    laws.fee_law _ _,
    laws.local_law _ _,
    laws.input_law _ _,
    laws.kzg_law _ _,
    laws.eip4844_law _ _,
    laws.custom_law _ _,
  )

  blobs_disabled_iff :
      (ctx : BuilderContext L C R)
      → (not (blobs_disabled ctx) ≡ false)
        ↔ ((ctx.disable_blobs_support ≡ true) ⊎ (ctx.blobpool_max_count ≡ 0))
  unfolding blobs_disabled
  blobs_disabled_iff ctx = elim (Bool-cases ctx.disable_blobs_support) [
    | inl e ↦ rw e ((λ h. inl refl), (λ h. refl))
    | inr e ↦ rw e (ground arith)
  ]

  builder-IsConfigured :
      (ctx : BuilderContext L C R) (evm : M) (kzg : K)
      → IsConfigured ctx (laws.settings (validator_builder u ctx evm kzg))
  builder-IsConfigured ctx evm kzg =
      subst (IsConfigured ctx) (sym (settings-validator_builder ctx evm kzg)) (record {
        cosmos = refl;
        blobs = blobs_disabled_iff ctx;
        input = refl;
        local = refl;
        fee_cap = refl;
        gas_limit = refl;
        priority = refl;
        tasks = refl;
      })

  -- A pool that is built.
  pub record IsPool (ctx : BuilderContext L C R) (pool : P) : Type 0 where
    pub blobs : B
    pub validator : W
    pub store : u.create_blob_store_with_cache ctx ctx.blob_cache_size ≡ ok blobs
    pub configured : IsConfigured ctx (laws.settings validator)
    pub spawned : u.build_and_spawn ctx (u.build_with_tasks blobs validator) blobs ≡ ok pool

  -- If each setter of the upstream builder sets its own value, a pool that is built validates with
  -- the limits of the command line, knows the type of Cosmos transactions, and takes no blobs
  -- exactly if the command line disables them or leaves no room for any. The blob store that it
  -- validates with is the one that it keeps.
  pub build_pool-IsPool :
      (ctx : BuilderContext L C R) (evm : M) {pool : P}
      → build_pool u ctx evm ≡ ok pool
      → IsPool ctx pool
  unfolding build_pool
  build_pool-IsPool ctx evm h =
      let (blobs, store, h₁) =
        >>=-eq-ok (u.create_blob_store_with_cache ctx ctx.blob_cache_size) _ h in
      let (kzg, _, h₂) = >>=-eq-ok (u.kzg_settings ctx) _ h₁ in
      record {
        blobs = blobs;
        validator = validator_builder u ctx evm kzg;
        store = store;
        configured = builder-IsConfigured ctx evm kzg;
        spawned = h₂;
      }

-- The executor is built exactly if the command line leaves the JIT off.
pub build_evm_iff :
    {L C R A F G E : Type 0} (new_ethereum : C → A) (new_factory : C → F) (new_assembler : C → G)
    (ctx : BuilderContext L C R) (v : CosmosEvmConfig A F G)
    → (◌≡◌ {A = Result (BuildError E) (CosmosEvmConfig A F G)}
        (build_evm new_ethereum new_factory new_assembler ctx)
        (ok v))
      ↔ ((ctx.jit_enabled ≡ false)
          × (new_evm_config new_ethereum new_factory new_assembler ctx.chain_spec ≡ v))
unfolding build_evm
build_evm_iff new_ethereum new_factory new_assembler ctx v = elim (Bool-cases ctx.jit_enabled) [
  | inl e ↦ rw e ((λ h. absurd (ground arith)), (λ p. absurd (ground arith)))
  | inr e ↦ rw e ((λ h. (refl, ok-injective h)), (λ p. ap ok p.1))
]
