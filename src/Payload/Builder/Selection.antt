-- ===== src/Payload/Builder/Selection.antt =====
-- src/payload/builder.rs: the selection of transactions that the loop implements. Transactions come
-- in the pool's order, each is taken if nothing blocks it, and the selection ends when the pool has
-- none left.
use reth_cosmos.Prelude.{
  ℕ, zero, suc, ◌≡◌, refl, ap, ◌∙◌, inl, inr, subst, Option, none, some, List, [], ◌∷◌, map, arith,
}
use reth_cosmos.Payload.Builder.{
  Source, Limits, Fill, Round, continue, cancelled, panicked, stopped, Filled, filled, round,
  after_round, take_next, fill,
}
use reth_cosmos.Payload.Builder.Rounds.{IsSame, IsIncluded, IsBlocked}
use reth_cosmos.Payload.Builder.Rounds.Cases.{round-cases}
use reth_cosmos.Payload.Builder.Bounds.{filled-injective}
use reth_cosmos.Payload.Builder.Totals.{Entry, IsAccount, included-IsAccount, same-IsAccount}

-- What becomes of a transaction.
pub data Choice (P : Type 0) : Type 0 where
  taken passed : P → Choice P

module _ {P : Type 0} where
  -- The transactions that are taken, the latest first, before those that were taken already.
  unfoldable pub taken_onto : List (Choice P) → List P → List P
  taken_onto [] txs = txs
  taken_onto (passed p ∷ cs) txs = taken_onto cs txs
  taken_onto (taken p ∷ cs) txs = taken_onto cs (p ∷ txs)

module _ {P S Q B X E : Type 0} (o : Source P S Q B X E) (g : Limits) where
  -- The choices from one state to another, in the order in which the pool gives the transactions.
  -- Each transaction is drawn from the iterator, and executed on the block, that the round before
  -- it left.
  pub data Selects : Fill Q B X → Fill Q B X → List (Choice P) → Type 0 where
    ends : (s : Fill Q B X) → o.next s.best ≡ none → Selects s s []
    passes :
        (s t u : Fill Q B X) (p : P) (rest : B) (cs : List (Choice P))
        → o.next s.best ≡ some (p, rest)
        → IsSame o g s t
        → IsBlocked o g s p rest t.best t.block
        → Selects t u cs
        → Selects s u (passed p ∷ cs)
    takes :
        (s t u : Fill Q B X) (p : P) (rest : B) (cs : List (Choice P))
        → o.next s.best ≡ some (p, rest)
        → (i : IsIncluded o g s p t) → i.t.best ≡ rest
        → Selects t u cs
        → Selects s u (taken p ∷ cs)

  Selection : Fill Q B X → Fill Q B X → Type 0
  Selection s u = (cs : List (Choice P)) × Selects s u cs

  after_round-Selection :
      (loop : Fill Q B X → Filled Q B X E) (s u : Fill Q B X) (p : P) (rest : B) (r : Round Q B X E)
      → o.next s.best ≡ some (p, rest)
      → round o g s p rest ≡ r
      → ((t : Fill Q B X) → loop t ≡ filled u → Selection t u)
      → after_round o g loop r ≡ filled u
      → Selection s u
  unfolding after_round Selection
  after_round-Selection loop s u p rest (continue t) drawn e ih h =
      let (cs, run) = ih t h in
      elim (round-cases o g s t p rest e) [
        | inl (same, blocked) ↦ (passed p ∷ cs, passes s t u p rest cs drawn same blocked run)
        | inr (included, left) ↦ (taken p ∷ cs, takes s t u p rest cs drawn included left run)
      ]
  after_round-Selection loop s u p rest cancelled drawn e ih h = absurd (ground arith)
  after_round-Selection loop s u p rest panicked drawn e ih h = absurd (ground arith)
  after_round-Selection loop s u p rest (stopped x) drawn e ih h = absurd (ground arith)

  take_next-Selection :
      (loop : Fill Q B X → Filled Q B X E) (s u : Fill Q B X) (found : Option (P × B))
      → o.next s.best ≡ found
      → ((t : Fill Q B X) → loop t ≡ filled u → Selection t u)
      → take_next o g loop s found ≡ filled u
      → Selection s u
  unfolding take_next Selection
  take_next-Selection loop s u none drawn ih h =
      subst (Selection s) (filled-injective o g h) ([], ends s drawn)
  take_next-Selection loop s u (some (p, rest)) drawn ih h =
      after_round-Selection loop s u p rest (round o g s p rest) drawn refl ih h

  fill-Selection : (fuel : ℕ) (s u : Fill Q B X) → fill o g fuel s ≡ filled u → Selection s u
  unfolding fill
  fill-Selection zero s u h = absurd (ground arith)
  fill-Selection (suc fuel) s u h =
      take_next-Selection (fill o g fuel) s u (o.next s.best) refl
        (λ t k. fill-Selection fuel t u k) h

  Selects-IsAccount :
      (empty : Q) {s u : Fill Q B X} {cs : List (Choice P)} (xs : List (Entry P S))
      → Selects s u cs
      → IsAccount o g empty xs s
      → (ys : List (Entry P S)) × IsAccount o g empty ys u
        × (map (λ (x : Entry P S). x.tx) ys ≡ taken_onto cs (map (λ (x : Entry P S). x.tx) xs))
  unfolding taken_onto
  Selects-IsAccount empty xs (ends s e) a = (xs, a, refl)
  Selects-IsAccount empty xs (passes s t u p rest cs drawn same blocked run) a =
      Selects-IsAccount empty xs run (same-IsAccount o g empty s t xs same a)
  Selects-IsAccount empty xs (takes s t u p rest cs drawn i left run) a =
      let (x, is_p, b) = included-IsAccount o g empty s t p xs i a in
      let (ys, c, same) = Selects-IsAccount empty (x ∷ xs) run b in
      (ys, c, same ∙ ap (λ (q : P). taken_onto cs (q ∷ map (λ (x : Entry P S). x.tx) xs)) is_p)

  -- The loop implements the selection: from nothing, the pool's transactions are drawn one by one
  -- until it has none left. Each is passed over only if a check or its execution on the block so far
  -- blocks it, and is then reported to the pool as invalid with the reason unless only its nonce is
  -- too low; otherwise it is taken after every check. The block's accounts are those of the
  -- transactions that are taken, in their order.
  pub fill-Selects :
      (empty : Q) (fuel : ℕ) (s u : Fill Q B X)
      → IsAccount o g empty [] s
      → fill o g fuel s ≡ filled u
      → (cs : List (Choice P)) × (xs : List (Entry P S)) × Selects s u cs
        × IsAccount o g empty xs u
        × (map (λ (x : Entry P S). x.tx) xs ≡ taken_onto cs [])
  unfolding Selection
  fill-Selects empty fuel s u nothing h =
      let (cs, run) = fill-Selection fuel s u h in
      let (xs, a, same) = Selects-IsAccount empty [] run nothing in (cs, xs, run, a, same)
