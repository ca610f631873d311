-- ===== src/Primitives/Signed/Rpc.antt =====
-- src/primitives/cosmos.rs: the RPC representation, `Serialize` and `Deserialize`.
use reth_cosmos.Prelude.{
  ◌≡◌, ◌↔◌, ◌∙◌, ap, IsBytes, ◌&&◌, Bytes, Result, ok, err, ◌>>=◌, ◌>>◌, guard, ◌==◌, bytes_eq,
  bytes_eq_refl, bytes_eq→eq, ==_iff, >>=-eq-ok, guard-eq-ok, ok-injective, &&_split, sym,
}
use reth_cosmos.Extern.Rlp.{Rlp, RlpLaws}
use reth_cosmos.Extern.Crypto.{Crypto}
use reth_cosmos.Auth.{Operation, IsOperation, AuthError}
use reth_cosmos.Primitives.TxType.{CosmosTxType, cosmos_type}
use reth_cosmos.Primitives.Signed.{CosmosSigned, signature_bytes, new}
use reth_cosmos.Primitives.Signed.Cached.{IsSigned, IsSigned-rebuilt, new-IsSigned}

-- The struct `Rpc`, whose own JSON form `serde` derives.
pub record Rpc : Type 0 where
  pub tx_type : CosmosTxType
  pub operation : Operation
  pub public_key : Bytes
  pub cosmos_signature : Bytes
  pub hash : Bytes

-- `D::Error::custom`: of an error of `new`, or of the text "Cosmos type or hash mismatch".
pub data RpcError : Type 0 where
  invalid : AuthError → RpcError
  mismatch : RpcError

abbrev custom : {A : Type 0} → Result AuthError A → Result RpcError A
custom (ok a) = ok a
custom (err e) = err (invalid e)

-- `Serialize::serialize`, up to the derived form.
unfoldable pub serialize : Rlp → CosmosSigned → Rpc
serialize c t = record {
  tx_type = cosmos_type;
  operation = t.operation;
  public_key = t.public_key;
  cosmos_signature = signature_bytes c t;
  hash = t.hash;
}

module _ (c : Rlp) {Key Sig : Type 0} (k : Crypto Key Sig) where
  -- `Deserialize::deserialize`, from the derived form.
  unfoldable pub deserialize : Rpc → Result RpcError CosmosSigned
  deserialize rpc = do
    tx ← custom (new c k rpc.operation rpc.public_key rpc.cosmos_signature)
    guard (rpc.tx_type.ty == cosmos_type.ty && bytes_eq tx.hash rpc.hash) mismatch
    ok tx

  pub deserialize-serialize :
      (t : CosmosSigned) → IsSigned c k t → deserialize (serialize c t) ≡ ok t
  unfolding deserialize serialize
  deserialize-serialize t s = rw (IsSigned-rebuilt c k t s, bytes_eq_refl t.hash)

  custom-eq-ok : {A : Type 0} (r : Result AuthError A) {a : A} → custom r ≡ ok a → r ≡ ok a
  custom-eq-ok (ok x) h = cc
  custom-eq-ok (err e) h = cc

  deserialize-eq-ok :
      (rpc : Rpc) {t : CosmosSigned}
      → deserialize rpc ≡ ok t
      → (new c k rpc.operation rpc.public_key rpc.cosmos_signature ≡ ok t)
        × (rpc.tx_type ≡ cosmos_type)
        × (rpc.hash ≡ t.hash)
  unfolding deserialize
  deserialize-eq-ok rpc {t} h =
      let (tx, e, h₁) =
        >>=-eq-ok (custom (new c k rpc.operation rpc.public_key rpc.cosmos_signature)) _ h in
      let (g, done) =
        guard-eq-ok (rpc.tx_type.ty == cosmos_type.ty && bytes_eq tx.hash rpc.hash) mismatch (ok tx)
          h₁ in
      let same : tx ≡ t = ok-injective done in
      let type_same : rpc.tx_type.ty ≡ cosmos_type.ty = (==_iff _ _).0 (&&_split g).0 in
      let hash_same : tx.hash ≡ rpc.hash =
        bytes_eq→eq _ _ (&&_split {a = rpc.tx_type.ty == cosmos_type.ty} g).1 in
      (
        rw (← same) (custom-eq-ok _ e),
        (λ i. record { ty = type_same i }),
        rw (← same) (sym hash_same),
      )

module _ (c : Rlp) (laws : RlpLaws c) {Key Sig : Type 0} (k : Crypto Key Sig) where
  -- Under the laws of RLP, a representation whose parts are in the ranges of their types is read as a
  -- transaction exactly when the caches of the transaction agree and the representation is the one
  -- that a node serves for it: no other type, hash, signature or key is taken for it.
  pub deserialize_iff :
      (rpc : Rpc) (t : CosmosSigned)
      → IsOperation rpc.operation
      → IsBytes rpc.public_key
      → IsBytes rpc.cosmos_signature
      → (deserialize c k rpc ≡ ok t) ↔ (IsSigned c k t × (rpc ≡ serialize c t))
  unfolding serialize
  deserialize_iff rpc t op key sig = (
    λ h.
        let (built, type_same, hash_same) = deserialize-eq-ok c k rpc h in
        let (signed, op_same, key_same, sig_same, _) =
          new-IsSigned c laws k rpc.operation rpc.public_key rpc.cosmos_signature op key sig
            built in
        (
          signed,
          λ i. record {
            tx_type = type_same i;
            operation = sym op_same i;
            public_key = sym key_same i;
            cosmos_signature = sym sig_same i;
            hash = hash_same i;
          },
        ),
    λ p. ap (deserialize c k) p.1 ∙ deserialize-serialize c k t p.0,
  )
