-- ===== src/Rpc/Receipts.antt =====
-- src/rpc.rs: the logs of a receipt and their places.
use reth_cosmos.Prelude.{ℕ, zero, suc, Option, none, some, List, [], ◌∷◌}

-- The element at a position.
unfoldable pub get_elem? : {A : Type 0} → List A → ℕ → Option A
get_elem? [] i = none
get_elem? (x ∷ xs) zero = some x
get_elem? (x ∷ xs) (suc i) = get_elem? xs i
