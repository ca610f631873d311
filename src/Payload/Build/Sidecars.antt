-- ===== src/Payload/Build/Sidecars.antt =====
-- src/payload/builder.rs: the sidecars that a block's transactions leave in its collection.
use mathlib.Core.List.{append-nil, map-append}
use reth_cosmos.Prelude.{
  ℕ, ◌≡◌, refl, ap, ◌∙◌, sym, Bool, true, Option, none, some, List, [], ◌∷◌, ◌++◌, map, All,
}
use reth_cosmos.Payload.Builder.{Source, Limits}
use reth_cosmos.Payload.Builder.Totals.{
  Entry, IsEntry, HasBlobs, from_pool, is_of_fork, pushed, push_blob,
}
use reth_cosmos.Payload.Build.Setup.{with_cancel}
use reth_cosmos.Payload.Built.{BlobSidecars, empty, eip4844, eip7594}

-- `BlobSidecars::push_sidecar_variant`, with the sidecars `A` and `B` of the two kinds as
-- transactions have them: it appends a sidecar to none, or to those of its own kind.
pub record PushesSidecars {P S X E B A₁ A₂ : Type 0} (o : Source P S (BlobSidecars A₁ A₂) B X E)
    (of_4844 : A₁ → S) (of_7594 : A₂ → S) : Type 0 where
  pub known_4844 : (s : S) → o.is_eip4844 s ≡ true → (a : A₁) × (s ≡ of_4844 a)
  pub known_7594 : (s : S) → o.is_eip7594 s ≡ true → (a : A₂) × (s ≡ of_7594 a)
  pub first_4844 : (a : A₁) → o.push_sidecar empty (of_4844 a) ≡ eip4844 (a ∷ [])
  pub first_7594 : (a : A₂) → o.push_sidecar empty (of_7594 a) ≡ eip7594 (a ∷ [])
  pub more_4844 :
      (xs : List A₁) (a : A₁) → o.push_sidecar (eip4844 xs) (of_4844 a) ≡ eip4844 (xs ++ a ∷ [])
  pub more_7594 :
      (xs : List A₂) (a : A₂) → o.push_sidecar (eip7594 xs) (of_7594 a) ≡ eip7594 (xs ++ a ∷ [])

-- The cancellation touches no sidecar.
pub with_cancel-PushesSidecars :
    {P S X E B A₁ A₂ : Type 0} {o : Source P S (BlobSidecars A₁ A₂) B X E} {of_4844 : A₁ → S}
    {of_7594 : A₂ → S}
    → PushesSidecars o of_4844 of_7594
    → (cancel : ℕ → Bool) → PushesSidecars (with_cancel o cancel) of_4844 of_7594
with_cancel-PushesSidecars u cancel = record {
  known_4844 = u.known_4844;
  known_7594 = u.known_7594;
  first_4844 = u.first_4844;
  first_7594 = u.first_7594;
  more_4844 = u.more_4844;
  more_7594 = u.more_7594;
}

-- The sidecars of the transactions, which come the latest first, in the order of the block.
abbrev pub sidecar_of : {S : Type 0} → Option (ℕ × S) → List S
sidecar_of none = []
sidecar_of (some (n, sidecar)) = sidecar ∷ []

abbrev pub sidecars_of : {P S : Type 0} → List (Entry P S) → List S
sidecars_of [] = []
sidecars_of (x ∷ xs) = sidecars_of xs ++ sidecar_of x.blobs

-- Sidecars of one kind, as they are collected.
abbrev pub all_4844 : {A₁ A₂ : Type 0} → List A₁ → BlobSidecars A₁ A₂
all_4844 [] = empty
all_4844 (a ∷ xs) = eip4844 (a ∷ xs)

abbrev pub all_7594 : {A₁ A₂ : Type 0} → List A₂ → BlobSidecars A₁ A₂
all_7594 [] = empty
all_7594 (a ∷ xs) = eip7594 (a ∷ xs)

module _ {P S X E B A₁ A₂ : Type 0} {o : Source P S (BlobSidecars A₁ A₂) B X E} {of_4844 : A₁ → S}
    {of_7594 : A₂ → S} (u : PushesSidecars o of_4844 of_7594) where
  pub push-all_4844 :
      (xs : List A₁) (a : A₁) → o.push_sidecar (all_4844 xs) (of_4844 a) ≡ all_4844 (xs ++ a ∷ [])
  push-all_4844 [] a = u.first_4844 a
  push-all_4844 (x ∷ xs) a = u.more_4844 (x ∷ xs) a

  pub push-all_7594 :
      (xs : List A₂) (a : A₂) → o.push_sidecar (all_7594 xs) (of_7594 a) ≡ all_7594 (xs ++ a ∷ [])
  push-all_7594 [] a = u.first_7594 a
  push-all_7594 (x ∷ xs) a = u.more_7594 (x ∷ xs) a

module _ {P S Q B X E A : Type 0} (o : Source P S Q B X E) (g : Limits) (none_yet : Q) (of : A → S)
    (all : List A → Q) (starts : none_yet ≡ all [])
    (pushes : (xs : List A) (a : A) → o.push_sidecar (all xs) (of a) ≡ all (xs ++ a ∷ []))
    (known : (s : S) → is_of_fork o g s ≡ true → (a : A) × (s ≡ of a)) where
  -- What is collected of some transactions, with their sidecars `ys`.
  abbrev pub Collects : Q → List S → Type 0
  Collects q ys = (xs : List A) × (map of xs ≡ ys) × (q ≡ all xs)

  push_blob-Collects :
      (p : P) (blobs : Option (ℕ × S)) (q : Q) (ys : List S)
      → HasBlobs o g p blobs
      → Collects q ys
      → Collects (push_blob o.push_sidecar q blobs) (ys ++ sidecar_of blobs)
  unfolding push_blob
  push_blob-Collects p none q ys h (xs, is_ys, is_q) = (xs, is_ys ∙ sym (append-nil ys), is_q)
  push_blob-Collects p (some (n, s)) q ys (from_pool _ _ e got right) (xs, is_ys, is_q) =
      let (a, is_a) = known s right in
      (
        xs ++ a ∷ [],
        map-append of xs (a ∷ [])
            ∙ ap (λ zs. zs ++ of a ∷ []) is_ys
            ∙ ap (λ z. ys ++ z ∷ []) (sym is_a),
        ap (o.push_sidecar q) is_a ∙ ap (λ z. o.push_sidecar z (of a)) is_q ∙ pushes xs a,
      )

  pub pushed-Collects :
      (xs : List (Entry P S))
      → All (IsEntry o g none_yet) xs
      → Collects (pushed o.push_sidecar none_yet xs) (sidecars_of xs)
  unfolding pushed
  pushed-Collects [] h = ([], refl, starts)
  pushed-Collects (x ∷ xs) h =
      push_blob-Collects x.tx x.blobs _ _ h.0.has_blobs (pushed-Collects xs h.1)
