-- ===== src/Node.antt =====
-- src/main.rs and src/node.rs: the node's start, its components, and the method
-- `cosmos_sendRawTransaction`.
pub mod Endpoint
pub mod Start
pub mod Wiring
