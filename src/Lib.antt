-- ===== src/Lib.antt =====
-- A verification library for the Cosmos authorization experiment on Reth: a node whose blocks may
-- hold transactions of type 0x7e, which are authorized by an ADR-036 signature of a Cosmos account
-- instead of an Ethereum signature.
--
-- The parts, and how they interact. `crates/cosmos-auth` has the protocol: an operation, its RLP
-- payload, the document that the account signs, the verification, and the wire format.
-- `src/primitives` makes transactions of it: a signed transaction caches its wire bytes and hash,
-- and an envelope is either an Ethereum transaction, which is left to upstream code, or a signed
-- one. `src/consensus.rs` verifies the authorizations of a block before the Ethereum rules,
-- `src/payload/builder.rs` fills blocks from the pool, `src/payload/engine.rs` checks the messages
-- of the Engine API, `src/evm.rs` makes transactions ready for execution, `src/pool.rs` and
-- `src/rpc.rs` adapt the pool and the RPC types, `src/node.rs` builds these components from the
-- command line, and `src/main.rs` takes transactions over RPC.
--
-- Auth.antt: the constants, `Operation`, `AuthError` and `validate_limits` of
--   crates/cosmos-auth/src/lib.rs; Auth/Payload.antt: `list`, `list_body`, `payload`,
--   `decode_payload`; Auth/Sign.antt: `sign_bytes`, `sign_hash`, `derive_sender`, `verify`;
--   Auth/Wire.antt: `encode_wire`, `decode_wire`, `transaction_hash`.
-- Primitives/TxType.antt and TxType/Conversions.antt: src/primitives/tx_type.rs. Primitives/
--   Signed.antt, Signed/Getters.antt, Signed/Rpc.antt and View.antt: src/primitives/cosmos.rs.
--   Primitives/Envelope.antt and Envelope/Pooled.antt: src/primitives/envelope.rs.
--   Primitives/Storage.antt, Storage/Database.antt and Storage/Parts.antt:
--   src/primitives/storage.rs.
-- Consensus.antt: src/consensus.rs.
-- Node/Start.antt, Node/Endpoint.antt and Endpoint/Errors.antt: the closures of src/main.rs, the
--   method as a state of permits and waiting requests with a step for each arrival and end;
--   Endpoint/Spec.antt: the same as a bag of requests in flight, the specification that the
--   endpoint refines; Endpoint/PoolLimit.antt: the endpoint with the size of the pool.
--   Endpoint/Accepted.antt and Text.antt: the requests that pass its checks.
--   Node/Wiring.antt: the builders of src/node.rs, with the choice of them in
--   Wiring/Components.antt.
-- Payload/Builder.antt: the loop of `default_ethereum_payload` in src/payload/builder.rs, as
--   rounds on its variables; Builder/Selection.antt: the relation between states that the loop
--   implements; Builder/Totals.antt and Exact.antt: the sums over the block's transactions that the
--   accounts hold. Payload/Build.antt: the state before the loop and the end of the function;
--   Build/Opening.antt: the caches and the opening of the block; Build/Setup.antt: the whole
--   function with `try_build`, `build_empty_payload` and `on_missing_payload`;
--   Build/Requested.antt and Sealing.antt: what is asked of the opening and of the sealing;
--   Build/Transactions.antt, Sidecars.antt and Concluded.antt: what the outcome keeps of the loop;
--   Build/Served.antt and Data.antt: the outcome in the versions of the Engine API and as
--   execution data.
--   Payload/Built.antt, Built/Conversions.antt and Built/Getters.antt: src/payload/built.rs.
--   Payload/Engine.antt: src/payload/engine.rs.
-- Evm.antt: the conversions of src/evm.rs; Evm/Contexts.antt: its configuration and contexts.
--   Pool.antt and Pool/Shown.antt: src/pool.rs. Rpc.antt: src/rpc.rs, with Rpc/Requests.antt on
--   `try_build_and_sign` and `try_into_sim_tx`.
-- Where parts meet: Node/Endpoint/Sent.antt and Executed.antt follow a transaction from the
--   endpoint through the envelope to its execution, Evm/Blocks.antt a block from its validation to
--   the execution of its transactions, and Evm/Payloads.antt a payload of the Engine API to the
--   same execution as the block. Consensus/Produced.antt and Replayed.antt take a block from the
--   builder to the validation and to the execution of another node.
-- The files below these state what is proved. Prelude has the lemmas that they share, Extern the
-- interfaces of code that is not in the repository, and Tests a real RLP codec, a toy cryptography
-- and the fixture fixtures/adr036-v1.json.
--
-- Bytes are numbers, and a slice is a list of them; `IsBytes` and `IsOperation` say that numbers
-- are in the range of their Rust types. A `Result` with the error type's constructors stands for
-- the Rust `Result`; where the code panics (`expect`, `assert!`, an index out of range), the model
-- has an `Option` or an outcome of its own. A buffer that a decoder advances is passed on as the
-- rest. The counters of the builder wrap around at 64 bits, and the fees at 256, as in a release
-- build; in a debug build, such as the one that scripts/start.sh runs, they panic instead.
--
-- Fuel: the loop of the builder takes a round of fuel for each transaction that it draws. If the
-- pool's iterator holds finitely many, one round more than these is enough.
--
-- Parameters: RLP (alloy_rlp) with round trips and sizes of its encodings and the ranges of what it
-- decodes, the curve, hashes, base64 and bech32 (k256, sha2, ripemd, base64, bech32), of which only
-- the injectivity of base64 is used, the JSON writer, upstream Ethereum transactions with their
-- codecs and block rules, the pool, the fork schedule, the builder of node components, the
-- collection of blob sidecars, which appends a sidecar to those of its kind, and the block builder
-- with its executor, of which the theorems that need it assume that a transaction uses no more than
-- its gas limit, and that the sealed block has the executed transactions in their order.
--
-- Not modelled: src/lib.rs and src/primitives/mod.rs (type aliases and module lists), the JSON
-- forms that serde derives, the log messages of the builder, the start of the node, and the client.
pub mod Prelude
pub mod Extern
pub mod Auth
pub mod Primitives
pub mod Consensus
pub mod Payload
pub mod Evm
pub mod Rpc
pub mod Pool
pub mod Node
pub mod Tests
