-- ===== src/Node/Endpoint/Spec.antt =====
-- src/main.rs: what the endpoint promises its clients, without the order in which the requests are
-- kept: a bag of requests in flight, of which there are at most eight.
use mathlib.Core.List.{Permᴰ}
use mathlib.Core.List.Permᴰ
use mathlib.Core.Quot
use mathlib.Core.Quot.{Quot}
use native.Mathlib.Nat.{ℕ_set}
use reth_cosmos.Prelude.{
  ℕ, zero, suc, ◌≤◌, ◌<◌, ◌≡◌, refl, sym, subst, Option, List, [], ◌∷◌, Bytes, Result, ok, err,
  arith, length, ltb, ltb→lt, ltb→ge, ◌==◌, Bool-cases, inl, inr,
}
use reth_cosmos.Extern.Rlp.{Rlp}
use reth_cosmos.Node.Endpoint.Capacity.{
  IsBalanced, start-IsBalanced, Step, Reach, Reach-IsBalanced, length-remove_at,
}
use reth_cosmos.Node.Endpoint.{
  RpcError, capacity_reached, capacity, admit, Endpoint, start, remove_at, hold, receive, finish,
}

abbrev pub Bag : Type 0
Bag = Quot (Permᴰ {A = Bytes})

length-Permᴰ : {xs ys : List Bytes} → Permᴰ xs ys → length xs ≡ length ys
length-Permᴰ Permᴰ.nil = refl
length-Permᴰ (Permᴰ.cons e p) = omega (arith, length-Permᴰ p)
length-Permᴰ (Permᴰ.swap d e) = refl
length-Permᴰ (Permᴰ.trans p q) = omega (arith, length-Permᴰ p, length-Permᴰ q)

pub size : Bag → ℕ
size = Quot.lift ℕ_set length (λ xs ys p. length-Permᴰ p)

pub put : Bytes → Bag → Bag
put x = Quot.lift Quot.Quot-set (λ xs. Quot.mk (x ∷ xs)) (λ xs ys p. Quot.sound (Permᴰ.cons refl p))

pub empty : Bag
empty = Quot.mk []

-- The requests that wait at an endpoint, in any order.
pub view : Endpoint → Bag
view s = Quot.mk s.waiting

size-view : (s : Endpoint) → size (view s) ≡ length s.waiting
unfolding size view
size-view s = refl

Permᴰ-remove_at :
    (n : ℕ) (xs : List Bytes) → n < length xs → (x : Bytes) × Permᴰ xs (x ∷ remove_at n xs)
unfolding remove_at
Permᴰ-remove_at n [] h = absurd (omega arith)
Permᴰ-remove_at zero (x ∷ xs) h = (x, Permᴰ.refl (x ∷ xs))
Permᴰ-remove_at (suc n) (x ∷ xs) h =
    let (y, p) = Permᴰ-remove_at n xs (omega arith) in
    (y, Permᴰ.trans (Permᴰ.cons refl p) (Permᴰ.swap refl refl))

module _ (c : Rlp) (parse : Bytes → Option Bytes) where
  -- What the arrival of a request may do to the requests in flight, with the answer that it gets:
  -- none if it is in flight itself.
  pub data Answers (pool_total : ℕ) (params : Option Bytes)
      : Bag → Result RpcError (Unit {0}) → Bag → Type 0 where
    full : (b : Bag) → size b ≡ capacity → Answers pool_total params b (err capacity_reached) b
    rejected :
        (b : Bag) (e : RpcError)
        → size b < capacity
        → admit c parse pool_total params ≡ err e
        → Answers pool_total params b (err e) b
    admitted :
        (b : Bag) (bytes : Bytes)
        → size b < capacity
        → admit c parse pool_total params ≡ ok bytes
        → Answers pool_total params b (ok tt) (put bytes b)

  -- What the end of the request at a position does.
  pub data Ends (n : ℕ) : Bag → Bag → Type 0 where
    absent : (b : Bag) → size b ≤ n → Ends n b b
    leaves : (b : Bag) (bytes : Bytes) → n ≤ size b → Ends n (put bytes b) b

  -- The histories of the requests in flight.
  pub data Runs : Bag → Bag → Type 0 where
    stays : (b : Bag) → Runs b b
    answers :
        (pool_total : ℕ) (params : Option Bytes) (a : Result RpcError (Unit {0})) (b b' b'' : Bag)
        → Runs b b'
        → Answers pool_total params b' a b''
        → Runs b b''
    ends : (n : ℕ) (b b' b'' : Bag) → Runs b b' → Ends n b' b'' → Runs b b''

  hold-Answers :
      (pool_total : ℕ) (params : Option Bytes) (s : Endpoint) (r : Result RpcError Bytes)
      → admit c parse pool_total params ≡ r
      → length s.waiting < capacity
      → Answers pool_total params (view s) (hold s r).1 (view (hold s r).0)
  unfolding hold view put size
  hold-Answers pool_total params s (ok bytes) e h = admitted (view s) bytes h e
  hold-Answers pool_total params s (err x) e h = rejected (view s) x h e

  receive-Answers :
      (pool_total : ℕ) (params : Option Bytes) (s : Endpoint)
      → IsBalanced s
      → Answers pool_total params
          (view s)
          (receive c parse pool_total params s).1
          (view (receive c parse pool_total params s).0)
  unfolding receive
  receive-Answers pool_total params s b = elim (Bool-cases (s.available == 0)) [
    | inl e ↦ rw e (full (view s) (ground (arith, size-view s, b.balanced)))
    | inr e ↦ rw e (hold-Answers pool_total params s _ refl (ground arith))
  ]

  removed-Ends :
      (n : ℕ) (xs : List Bytes) → n < length xs → Ends n (Quot.mk xs) (Quot.mk (remove_at n xs))
  unfolding put size
  removed-Ends n xs h =
      let (x, p) = Permᴰ-remove_at n xs h in
      subst (λ b. Ends n b (Quot.mk (remove_at n xs))) (sym (Quot.sound p))
        (leaves (Quot.mk (remove_at n xs)) x (omega (arith, length-remove_at n xs h)))

  finish-Ends : (n : ℕ) (s : Endpoint) → Ends n (view s) (view (finish n s))
  unfolding finish view size
  finish-Ends n s = elim (Bool-cases (ltb n (length s.waiting))) [
    | inl e ↦ rw e (removed-Ends n s.waiting (ltb→lt _ _ e))
    | inr e ↦ rw e (absent (view s) (ltb→ge _ _ e))
  ]

  Step-Runs :
      {s t : Endpoint} (b : Bag)
      → IsBalanced s
      → Step c parse s t
      → Runs b (view s)
      → Runs b (view t)
  Step-Runs b h (Step.arrives pool_total params s) r =
      answers pool_total params _ b (view s) _ r (receive-Answers pool_total params s h)
  Step-Runs b h (Step.ends n s) r = ends n b (view s) _ r (finish-Ends n s)

  Reach-Runs : {s t : Endpoint} → IsBalanced s → Reach c parse s t → Runs (view s) (view t)
  Reach-Runs {s} h Reach.here = stays (view s)
  Reach-Runs {s} h (Reach.next r st) =
      Step-Runs (view s) (Reach-IsBalanced c parse h r) st (Reach-Runs h r)

  -- An endpoint does what is promised: its past is a history of the requests in flight that begins
  -- with none, any request gets an answer that is allowed, and any end gives one permit back.
  pub record Refines (s : Endpoint) : Type 0 where
    pub past : Runs empty (view s)
    pub answered :
        (pool_total : ℕ) (params : Option Bytes)
        → Answers pool_total params
            (view s)
            (receive c parse pool_total params s).1
            (view (receive c parse pool_total params s).0)
    pub ended : (n : ℕ) → Ends n (view s) (view (finish n s))

  -- After any sequence of arrivals and ends from the start, the endpoint refines its specification,
  -- in which the requests in flight have no order: its past is a history that begins with none, a
  -- request that arrives is refused for lack of capacity if eight are in flight and otherwise gets
  -- the answer of the checks, which alone decide whether it joins them, and the end of a request
  -- removes one.
  pub Reach-Refines : (s : Endpoint) → Reach c parse start s → Refines s
  unfolding empty view
  Reach-Refines s r = record {
    past = Reach-Runs start-IsBalanced r;
    answered = λ pool_total params.
        receive-Answers pool_total params s (Reach-IsBalanced c parse start-IsBalanced r);
    ended = λ n. finish-Ends n s;
  }
