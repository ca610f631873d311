-- ===== src/Extern.antt =====
-- The code that the repository calls and does not contain, as records of operations, and what the
-- code relies on of each, as records of laws that state its documented behaviour. Definitions take
-- the operations alone; a theorem that needs a law takes the record of laws as a hypothesis.
pub mod Rlp
pub mod Crypto
pub mod Json
