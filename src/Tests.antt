-- ===== src/Tests.antt =====
-- Each property at a concrete input, with concrete functions for the code that the repository does
-- not contain, and tests of the definitions on the repository's fixtures.
pub mod Codec
pub mod Json
pub mod Toy
pub mod Fixture
pub mod Accounts
pub mod Auth
pub mod Primitives
pub mod Consensus
pub mod Node
pub mod Wiring
pub mod Engine
pub mod Payload
pub mod Evm
pub mod Executed
pub mod Rpc
pub mod Pool
pub mod Build
pub mod Forms
pub mod Payloads
pub mod Produced
pub mod Served
pub mod Stored
pub mod Hex
