-- ===== src/Node/Endpoint/Capacity.antt =====
-- src/main.rs: at most eight requests are in flight, in every interleaving.
use reth_cosmos.Prelude.{
  ℕ, zero, suc, ◌+◌, ◌≤◌, ◌<◌, ◌≡◌, ◌≢◌, ◌↔◌, refl, Option, List, [], ◌∷◌, Bytes, Result, ok, err,
  arith, length, ◌==◌, Result-cases, Bool-cases, inl, inr,
}
use reth_cosmos.Extern.Rlp.{Rlp}
use reth_cosmos.Node.Endpoint.{
  RpcError, capacity_reached, capacity, admit, Endpoint, start, remove_at, hold, receive, finish,
}

-- Every permit is free or held by a waiting request.
pub record IsBalanced (s : Endpoint) : Type 0 where
  pub balanced : s.available + length s.waiting ≡ capacity

pub start-IsBalanced : IsBalanced start
start-IsBalanced = omega arith

pub length-remove_at :
    (n : ℕ) (xs : List Bytes) → n < length xs → length (remove_at n xs) + 1 ≡ length xs
unfolding remove_at
length-remove_at n [] h = elim h [ ]
length-remove_at zero (x ∷ xs) h = omega arith
length-remove_at (suc n) (x ∷ xs) h = omega (arith, length-remove_at n xs (omega arith))

pub finish-IsBalanced : (n : ℕ) (s : Endpoint) → IsBalanced s → IsBalanced (finish n s)
unfolding finish
finish-IsBalanced n s b = ground (arith, length-remove_at n s.waiting)

module _ (c : Rlp) (parse : Bytes → Option Bytes) where
  -- What happens at the endpoint: a request arrives, with any parameter and any size of the pool, or
  -- the waiting request at a position ends.
  pub data Step : Endpoint → Endpoint → Type 0 where
    arrives :
        (pool_total : ℕ) (params : Option Bytes) (s : Endpoint)
        → Step s (receive c parse pool_total params s).0
    ends : (n : ℕ) (s : Endpoint) → Step s (finish n s)

  pub data Reach : Endpoint → Endpoint → Type 0 where
    here : {s : Endpoint} → Reach s s
    next : {s t u : Endpoint} → Reach s t → Step t u → Reach s u

  pub receive-IsBalanced :
      (pool_total : ℕ) (params : Option Bytes) (s : Endpoint)
      → IsBalanced s
      → IsBalanced (receive c parse pool_total params s).0
  unfolding receive hold
  receive-IsBalanced pool_total params s b = elim (Result-cases (admit c parse pool_total params)) [
    | inl (bytes, e) ↦ rw e (ground arith)
    | inr (x, e) ↦ rw e (ground arith)
  ]

  Step-IsBalanced : {s t : Endpoint} → Step s t → IsBalanced s → IsBalanced t
  Step-IsBalanced (arrives pool_total params s) b = receive-IsBalanced pool_total params s b
  Step-IsBalanced (ends n s) b = finish-IsBalanced n s b

  pub Reach-IsBalanced : {s t : Endpoint} → IsBalanced s → Reach s t → IsBalanced t
  Reach-IsBalanced b here = b
  Reach-IsBalanced b (next r st) = Step-IsBalanced st (Reach-IsBalanced b r)

  admit-ne-capacity :
      (pool_total : ℕ) (params : Option Bytes)
      → admit c parse pool_total params ≢ err capacity_reached
  unfolding admit
  admit-ne-capacity pool_total params h = ground arith

  hold-ne-capacity :
      (s : Endpoint) (r : Result RpcError Bytes)
      → r ≢ err capacity_reached
      → hold s r ≢ (s, err capacity_reached)
  unfolding hold
  hold-ne-capacity s (ok bytes) n h = ground arith
  hold-ne-capacity s (err e) n h = ground (arith, n)

  -- After any sequence of arrivals and ends from the start, at most eight requests are waiting.
  pub waiting_bounded : (s : Endpoint) → Reach start s → length s.waiting ≤ capacity
  waiting_bounded s r = omega (arith, (Reach-IsBalanced start-IsBalanced r).balanced)

  -- After any sequence of arrivals and ends from the start, a request is refused for lack of
  -- capacity, with the endpoint left as it was, exactly when eight are waiting.
  pub refused_iff_full :
      (s : Endpoint) (pool_total : ℕ) (params : Option Bytes)
      → Reach start s
      → (receive c parse pool_total params s ≡ (s, err capacity_reached))
        ↔ (length s.waiting ≡ capacity)
  unfolding receive
  refused_iff_full s pool_total params r =
      let b = (Reach-IsBalanced start-IsBalanced r).balanced in
      elim (Bool-cases (s.available == 0)) [
        | inl e ↦ rw e ((λ _. ground arith), (λ _. refl))
        | inr e ↦ rw e (
          (λ h. absurd (hold-ne-capacity s _ (admit-ne-capacity pool_total params) h)),
          (λ full. absurd (ground arith)),
        )
      ]
