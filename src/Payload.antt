-- ===== src/Payload.antt =====
-- src/payload/: building a block's payload.
pub mod Builder
pub mod Build
pub mod Built
pub mod Engine
