-- ===== src/Payload/Builder/Setup.antt =====
-- src/payload/builder.rs: the value `CosmosPayloadBuilder`.

pub record CosmosPayloadBuilder (Client Pool EvmConfig BuilderConfig : Type 0) : Type 0 where
  pub client : Client
  pub pool : Pool
  pub evm_config : EvmConfig
  pub builder_config : BuilderConfig

-- `CosmosPayloadBuilder::new`.
unfoldable pub new_builder :
    {Client Pool EvmConfig BuilderConfig : Type 0}
    → Client
    → Pool
    → EvmConfig
    → BuilderConfig
    → CosmosPayloadBuilder Client Pool EvmConfig BuilderConfig
new_builder client pool evm_config builder_config = record {
  client = client;
  pool = pool;
  evm_config = evm_config;
  builder_config = builder_config;
}
