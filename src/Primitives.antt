-- ===== src/Primitives.antt =====
-- src/primitives/: the chain's transaction types.
pub mod TxType
pub mod Signed
pub mod View
pub mod Envelope
pub mod Storage
