-- ===== src/Node/Endpoint.antt =====
-- src/main.rs: `cosmos_sendRawTransaction`, and the permits that bound the requests in flight.
pub mod Admission
pub mod Accepted
pub mod Text
pub mod Capacity
pub mod Release
pub mod PoolLimit
pub mod Errors
pub mod Sent
pub mod Executed
pub mod Spec
use reth_cosmos.Prelude.{
  ℕ, ◌-◌, ◌+◌, ◌*◌, Bool, true, false, not, ◌&&◌, Option, none, some, List, [], ◌∷◌, Bytes, Result,
  ok, err, ◌>>=◌, ◌>>◌, guard, or_err, map_err, length, leb, ltb, ◌==◌, bytes_eq, if◌then◌else◌,
}
use reth_cosmos.Extern.Rlp.{Rlp}
use reth_cosmos.Extern.Json.{codes}
use reth_cosmos.Auth.{AuthError, max_raw_tx, genesis_hash_const}
use reth_cosmos.Auth.Wire.{decode_wire}

-- What the closure of `run_with_components` demands of the configured chain.
unfoldable pub accepts_genesis : Bytes → Bool
accepts_genesis genesis_hash = bytes_eq genesis_hash genesis_hash_const

-- The errors, by what their text says. `send_error` is one of `send_raw_transaction`, and
-- `bad_params` one of `params.one()`.
pub data RpcError : Type 0 where
  capacity_reached bad_params invalid_type_or_size pool_full invalid_hex send_error : RpcError
  unauthorized : AuthError → RpcError

abbrev auth_err : {A : Type 0} → Result AuthError A → Result RpcError A
auth_err (ok a) = ok a
auth_err (err e) = err (unauthorized e)

-- `raw.starts_with(prefix)`.
unfoldable pub starts_with : Bytes → Bytes → Bool
starts_with [] text = true
starts_with (p ∷ ps) [] = false
starts_with (p ∷ ps) (t ∷ ts) = p == t && starts_with ps ts

-- `Semaphore::new(8)`.
abbrev pub capacity : ℕ
capacity = 8

abbrev pub pool_limit : ℕ
pool_limit = 3072

-- The checks of a request before it is sent, from its parameter, the bytes of a string (`none` if
-- there is no such parameter), and the size of the pool. `parse` is `raw.parse::<Bytes>()`.
unfoldable pub admit : Rlp → (Bytes → Option Bytes) → ℕ → Option Bytes → Result RpcError Bytes
admit c parse pool_total params = do
  raw ← or_err params bad_params
  guard (leb (length raw) (2 + 2 * max_raw_tx) && starts_with (codes "0x7e") raw)
      invalid_type_or_size
  guard (ltb pool_total pool_limit) pool_full
  bytes ← or_err (parse raw) invalid_hex
  decoded ← auth_err (decode_wire c bytes)
  ok bytes

-- A whole request that has a permit; `send` is `eth.send_raw_transaction`.
unfoldable pub respond :
    Rlp → (Bytes → Option Bytes) → (Bytes → Option Bytes) → ℕ → Option Bytes → Result RpcError Bytes
respond c parse send pool_total params = do
  bytes ← admit c parse pool_total params
  or_err (send bytes) send_error

-- The semaphore, and the requests that hold a permit while they await `send_raw_transaction`.
pub record Endpoint : Type 0 where
  pub available : ℕ
  pub waiting : List Bytes

abbrev pub start : Endpoint
start = record { available = capacity; waiting = [] }

-- Removes the request at a position, if there is one.
unfoldable pub remove_at : ℕ → List Bytes → List Bytes
remove_at n [] = []
remove_at ℕ.zero (x ∷ xs) = xs
remove_at (ℕ.suc n) (x ∷ xs) = x ∷ remove_at n xs

-- The permit after the checks: an admitted request keeps it, any other gives it back.
unfoldable pub hold : Endpoint → Result RpcError Bytes → Endpoint × Result RpcError (Unit {0})
hold s (ok bytes) = (record { available = s.available - 1; waiting = bytes ∷ s.waiting }, ok tt)
hold s (err e) = (s, err e)

-- A request up to its first suspension: without a permit it is refused at once.
unfoldable pub receive :
    Rlp
    → (Bytes → Option Bytes)
    → ℕ
    → Option Bytes
    → Endpoint
    → Endpoint × Result RpcError (Unit {0})
receive c parse pool_total params s =
    if s.available == 0 then (s, err capacity_reached) else hold s (admit c parse pool_total params)

-- The end of a waiting request, which drops its permit, whether it was sent or failed.
unfoldable pub finish : ℕ → Endpoint → Endpoint
finish n s =
    if ltb n (length s.waiting)
    then record { available = s.available + 1; waiting = remove_at n s.waiting }
    else s
