-- ===== src/Tests/Json.antt =====
-- A serialiser of documents, in the role of `serde_json::to_vec`: it shows that the law of
-- `Extern.Json` can hold.
use reth_cosmos.Prelude.{◌≡◌, refl, [], ◌∷◌, ◌++◌, arith, Bytes, length}
use reth_cosmos.Extern.Json.{Json, str, arr, obj, Items, nil, cons, Fields, end, field, JsonLaws}

unfoldable mutual
  pub write : Json → Bytes → Bytes
  write (str s) r = 0 ∷ length s ∷ (s ++ r)
  write (arr xs) r = 1 ∷ write_items xs r
  write (obj fs) r = 2 ∷ write_fields fs r

  pub write_items : Items → Bytes → Bytes
  write_items nil r = 0 ∷ r
  write_items (cons x xs) r = 1 ∷ write x (write_items xs r)

  pub write_fields : Fields → Bytes → Bytes
  write_fields end r = 0 ∷ r
  write_fields (field k v fs) r = 1 ∷ length k ∷ (k ++ write v (write_fields fs r))

append_cancel : (a b r s : Bytes) → length a ≡ length b → a ++ r ≡ b ++ s → (a ≡ b) × (r ≡ s)
append_cancel [] [] r s h e = (refl, e)
append_cancel [] (y ∷ ys) r s h e = absurd (omega arith)
append_cancel (x ∷ xs) [] r s h e = absurd (omega arith)
append_cancel (x ∷ xs) (y ∷ ys) r s h e = ground (arith, append_cancel xs ys r s)

mutual
  unfolding write

  write-cancel : (v w : Json) (r s : Bytes) → write v r ≡ write w s → (v ≡ w) × (r ≡ s)
  write-cancel (str a) (str b) r s h = ground (arith, append_cancel a b r s)
  write-cancel (arr xs) (arr ys) r s h = ground (arith, items-cancel xs ys r s)
  write-cancel (obj fs) (obj gs) r s h = ground (arith, fields-cancel fs gs r s)
  write-cancel _ _ r s h = ground arith

  items-cancel : (v w : Items) (r s : Bytes) → write_items v r ≡ write_items w s → (v ≡ w) × (r ≡ s)
  items-cancel nil nil r s h = ground arith
  items-cancel (cons x xs) (cons y ys) r s h =
      ground (arith, write-cancel x y (write_items xs r) (write_items ys s), items-cancel xs ys r s)
  items-cancel _ _ r s h = ground arith

  fields-cancel :
      (v w : Fields) (r s : Bytes) → write_fields v r ≡ write_fields w s → (v ≡ w) × (r ≡ s)
  fields-cancel end end r s h = ground arith
  fields-cancel (field k x xs) (field j y ys) r s h = ground (
    arith,
    append_cancel k j (write x (write_fields xs r)) (write y (write_fields ys s)),
    write-cancel x y (write_fields xs r) (write_fields ys s),
    fields-cancel xs ys r s,
  )
  fields-cancel _ _ r s h = ground arith

abbrev pub to_vec : Json → Bytes
to_vec v = write v []

pub to_vec_laws : JsonLaws to_vec
to_vec_laws = record { to_vec_injective = λ v w _ _ h. (write-cancel v w [] [] h).0 }
