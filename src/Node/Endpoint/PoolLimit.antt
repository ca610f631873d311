-- ===== src/Node/Endpoint/PoolLimit.antt =====
-- src/main.rs: the size of the pool is read before a request waits to be sent, so requests that
-- read it together may pass the limit together.
use reth_cosmos.Prelude.{ℕ, ◌+◌, ◌≤◌, ◌<◌, Option, Bytes, arith, length, Result-cases, inl, inr}
use reth_cosmos.Extern.Rlp.{Rlp}
use reth_cosmos.Node.Endpoint.{pool_limit, admit, Endpoint, start, hold, receive, finish}
use reth_cosmos.Node.Endpoint.Admission.{admit-IsAdmitted}
use reth_cosmos.Node.Endpoint.Capacity.{
  length-remove_at, IsBalanced, start-IsBalanced, finish-IsBalanced, receive-IsBalanced,
}
use reth_cosmos.Node.Endpoint.Release.{finish-frees}

-- The endpoint with the size of the pool that its requests read.
pub record Shared : Type 0 where
  pub endpoint : Endpoint
  pub pool_total : ℕ

module _ (c : Rlp) (parse : Bytes → Option Bytes) where
  -- A request arrives and reads the size of the pool, a request is sent and enters the pool, a
  -- request fails, or the pool drops transactions.
  pub data Turn : Shared → Shared → Type 0 where
    arrives :
        (params : Option Bytes) (s : Shared)
        → Turn s (record s { endpoint = (receive c parse s.pool_total params s.endpoint).0 })
    enters :
        (n : ℕ) (s : Shared)
        → n < length s.endpoint.waiting
        → Turn s (record { endpoint = finish n s.endpoint; pool_total = s.pool_total + 1 })
    fails : (n : ℕ) (s : Shared) → Turn s (record s { endpoint = finish n s.endpoint })
    drops : (m : ℕ) (s : Shared) → m ≤ s.pool_total → Turn s (record s { pool_total = m })

  pub data Turns : Shared → Shared → Type 0 where
    here : {s : Shared} → Turns s s
    next : {s t u : Shared} → Turns s t → Turn t u → Turns s u

  -- The transactions of the pool and the requests that may join them.
  pub record IsWithin (s : Shared) : Type 0 where
    pub permits : IsBalanced s.endpoint
    pub within : s.pool_total + length s.endpoint.waiting ≤ pool_limit + 7

  receive-within :
      (params : Option Bytes) (n : ℕ) (s : Endpoint)
      → IsBalanced s
      → n + length s.waiting ≤ pool_limit + 7
      → n + length (receive c parse n params s).0.waiting ≤ pool_limit + 7
  unfolding receive hold
  receive-within params n s b h = elim (Result-cases (admit c parse n params)) [
    | inl (bytes, e) ↦ rw e (ground (arith, (admit-IsAdmitted c parse n params e).room))
    | inr (x, e) ↦ rw e (ground arith)
  ]

  finish-shorter : (n : ℕ) (s : Endpoint) → length (finish n s).waiting ≤ length s.waiting
  unfolding finish
  finish-shorter n s = ground (arith, length-remove_at n s.waiting)

  Turn-IsWithin : {s t : Shared} → Turn s t → IsWithin s → IsWithin t
  Turn-IsWithin (arrives params s) w = record {
    permits = receive-IsBalanced c parse s.pool_total params s.endpoint w.permits;
    within = receive-within params s.pool_total s.endpoint w.permits w.within;
  }
  Turn-IsWithin (enters n s h) w = record {
    permits = finish-IsBalanced n s.endpoint w.permits;
    within = omega (arith, w.within, (finish-frees n s.endpoint h).1);
  }
  Turn-IsWithin (fails n s) w = record {
    permits = finish-IsBalanced n s.endpoint w.permits;
    within = omega (arith, w.within, finish-shorter n s.endpoint);
  }
  Turn-IsWithin (drops m s h) w = record { permits = w.permits; within = omega (arith, w.within) }

  Turns-IsWithin : {s t : Shared} → Turns s t → IsWithin s → IsWithin t
  Turns-IsWithin here w = w
  Turns-IsWithin (next r st) w = Turn-IsWithin st (Turns-IsWithin r w)

  -- Let the pool begin with at most 3,072 transactions, and let transactions enter it only by the
  -- requests of this endpoint. However arrivals, sends, failures and removals interleave, the pool
  -- never holds more than 3,079 transactions, those that wait to be sent included: the limit of
  -- 3,072, which each request checks before it waits, is passed by at most seven.
  pub pool_bounded :
      (n : ℕ) (s : Shared)
      → n ≤ pool_limit
      → Turns (record { endpoint = start; pool_total = n }) s
      → s.pool_total + length s.endpoint.waiting ≤ 3079
  pool_bounded n s h r =
      (Turns-IsWithin r (record { permits = start-IsBalanced; within = omega arith })).within
