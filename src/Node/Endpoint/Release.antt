-- ===== src/Node/Endpoint/Release.antt =====
-- src/main.rs: permits come back, however the requests that are waiting end.
use reth_cosmos.Prelude.{
  ℕ, zero, suc, ◌+◌, ◌<◌, ◌≡◌, refl, subst, Option, List, [], ◌∷◌, Bytes, arith, length,
}
use reth_cosmos.Extern.Rlp.{Rlp}
use reth_cosmos.Node.Endpoint.{capacity, Endpoint, start, finish}
use reth_cosmos.Node.Endpoint.Capacity.{
  IsBalanced, start-IsBalanced, Reach, Reach-IsBalanced, length-remove_at, finish-IsBalanced,
}

-- A number of waiting requests end, one after the other, at any positions.
pub data Drains : ℕ → Endpoint → Endpoint → Type 0 where
  rest : (s : Endpoint) → Drains 0 s s
  ended :
      (n i : ℕ) (s t : Endpoint)
      → i < length s.waiting
      → Drains n (finish i s) t
      → Drains (suc n) s t

pub finish-frees :
    (i : ℕ) (s : Endpoint)
    → i < length s.waiting
    → ((finish i s).available ≡ s.available + 1)
      × (length (finish i s).waiting + 1 ≡ length s.waiting)
unfolding finish
finish-frees i s h = ground (arith, length-remove_at i s.waiting h)

Drains-frees :
    {n : ℕ} {s t : Endpoint}
    → Drains n s t
    → (t.available ≡ s.available + n) × (length t.waiting + n ≡ length s.waiting)
Drains-frees (rest s) = (omega arith, omega arith)
Drains-frees (ended n i s t h d) =
    let f = finish-frees i s h in
    let r = Drains-frees d in (omega (arith, f.0, r.0), omega (arith, f.1, r.1))

Drains-IsBalanced : {n : ℕ} {s t : Endpoint} → Drains n s t → IsBalanced s → IsBalanced t
Drains-IsBalanced (rest s) b = b
Drains-IsBalanced (ended n i s t h d) b = Drains-IsBalanced d (finish-IsBalanced i s b)

Endpoint-ext :
    (a : ℕ) (xs : List Bytes)
    → a ≡ capacity
    → length xs ≡ 0
    → ◌≡◌ {A = Endpoint} (record { available = a; waiting = xs }) start
Endpoint-ext a [] h k = rw h refl
Endpoint-ext a (x ∷ xs) h k = absurd (omega arith)

drain : (n : ℕ) (s : Endpoint) → IsBalanced s → length s.waiting ≡ n → Drains n s start
drain zero s b h =
    subst (Drains 0 s) (Endpoint-ext s.available s.waiting (omega (arith, b.balanced)) h) (rest s)
drain (suc n) s b h = ended n 0 s start (omega arith) (
    drain n (finish 0 s) (finish-IsBalanced 0 s b)
      (omega (arith, (finish-frees 0 s (omega arith)).1)))

-- After any sequence of arrivals and ends from the start, let any number of the requests that wait
-- end, in any order, sent or failed. As many more permits are free, and if the others end too, the
-- endpoint is again as it was at the start.
pub permits_return :
    (c : Rlp) (parse : Bytes → Option Bytes) (n : ℕ) (s t : Endpoint)
    → Reach c parse start s
    → Drains n s t
    → (t.available ≡ s.available + n) × Drains (length t.waiting) t start
permits_return c parse n s t r d = (
  (Drains-frees d).0,
  drain (length t.waiting) t (Drains-IsBalanced d (Reach-IsBalanced c parse start-IsBalanced r))
      refl,
)
