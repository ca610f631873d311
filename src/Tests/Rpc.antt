-- ===== src/Tests/Rpc.antt =====
-- The properties of `Rpc` at a receipt with two logs and at a request without a type.
use reth_cosmos.Prelude.{◌↔◌, ℕ, ◌≡◌, ◌≢◌, refl, true, Option, none, some, [], ◌∷◌, Result, ok}
use reth_cosmos.Auth.{tx_type_const}
use reth_cosmos.Primitives.TxType.{cosmos_type}
use reth_cosmos.Primitives.Envelope.{ethereum}
use reth_cosmos.Evm.{Receipt}
use reth_cosmos.Rpc.{Meta, try_build_and_sign, build_ethereum, is_some_type}
use reth_cosmos.Rpc.Requests.{signing, build_for, build_for_iff}

abbrev meta : Meta
meta = record { tx_hash = 1 ∷ []; index = 4; block_hash = 2 ∷ []; block_number = 9; timestamp = 30 }

abbrev receipt : Receipt ℕ
receipt = record {
  tx_type = cosmos_type;
  success = true;
  cumulative_gas_used = 21000;
  logs = 70 ∷ 71 ∷ [];
}

-- A bloom filter that is always empty.
abbrev bloom : Receipt ℕ → ℕ
bloom r = 0

-- Requests are numbers, without a type, which upstream builds into themselves.
abbrev type_of : ℕ → Option ℕ
type_of r = none

abbrev build : ℕ → Result (Unit {0}) ℕ
build r = ok r

signed_request : build_for type_of build signing 3 ≡ ok (ethereum 3)
unfolding build_for try_build_and_sign build_ethereum is_some_type
signed_request = refl

build_for_iff_example :
    (build_for type_of build signing 3 ≡ ok (ethereum 3))
    ↔ ((type_of 3 ≢ some tx_type_const) × ((t : ℕ) × (build 3 ≡ ok t) × (ethereum 3 ≡ ethereum t)))
build_for_iff_example = build_for_iff type_of build signing 3 (ethereum 3)
