-- ===== src/Primitives/Signed/Cached.antt =====
-- src/primitives/cosmos.rs: what a transaction caches agrees with what it holds.
use reth_cosmos.Prelude.{
  ◌≡◌, refl, sym, ◌∙◌, false, Bytes, IsBytes, All-take, All-drop, ok, arith, length, take, drop,
  length-take, length-drop, take-append-drop, ◌==◌, ==_iff, >>=-eq-ok, guard-eq-ok, ok-injective,
  subst, ◌<◌,
}
use reth_cosmos.Extern.Rlp.{Rlp, RlpLaws}
use reth_cosmos.Extern.Crypto.{Crypto}
use reth_cosmos.Auth.{Operation, IsOperation, public_key, signature, validate_limits}
use reth_cosmos.Auth.Limits.{IsWithin, validate_limits_iff}
use reth_cosmos.Auth.Wire.{encode_wire, decode_wire, transaction_hash}
use reth_cosmos.Auth.Wire.RoundTrip.{decode_wire-encode_wire}
use reth_cosmos.Auth.Wire.Canonical.{decode_wire-IsCanonical}
use reth_cosmos.Primitives.Signed.{CosmosSigned, signature_of, signature_bytes, new}

-- The invariant of the type, which has no way to change a field: the wire bytes are those of the
-- fields and decode to them, the hash is theirs, and the signature's parity is fixed.
pub record IsSigned (c : Rlp) {Key Sig : Type 0} (k : Crypto Key Sig) (t : CosmosSigned)
    : Type 0 where
  pub decodes : decode_wire c t.raw ≡ ok (t.operation, t.public_key, signature_bytes c t)
  pub hashed : t.hash ≡ transaction_hash k t.raw
  pub parity : t.signature ≡ signature_of c (signature_bytes c t)

module _ (c : Rlp) {Key Sig : Type 0} (k : Crypto Key Sig) where
  -- The transaction that `new` builds of what its wire bytes decode to.
  abbrev pub built : Operation → Bytes → Bytes → CosmosSigned
  built op key sig = record {
    operation = op;
    public_key = key;
    signature = signature_of c sig;
    hash = transaction_hash k (encode_wire c op key sig);
    raw = encode_wire c op key sig;
  }

  -- `new` of parts that were decoded succeeds too, with no assumption on their ranges.
  pub new-decoded :
      (raw : Bytes) (op : Operation) (key sig : Bytes)
      → decode_wire c raw ≡ ok (op, key, sig)
      → new c k op key sig ≡ ok (built op key sig)
  unfolding new
  new-decoded raw op key sig h =
      let v = decode_wire-IsCanonical c raw h in
      let again : decode_wire c (encode_wire c op key sig) ≡ ok (op, key, sig) = rw v.same h in
      rw ((validate_limits_iff op).1 v.within, v.key_length, v.sig_length, again)

module _ (c : Rlp) (laws : RlpLaws c) {Key Sig : Type 0} (k : Crypto Key Sig) where
  -- A 64-byte signature survives its representation by two scalars.
  signature_of_bytes :
      (sig : Bytes)
      → IsBytes sig
      → length sig ≡ 64
      → take 64 (c.as_bytes (signature_of c sig)) ≡ sig
  unfolding signature_of
  signature_of_bytes sig b n =
      laws.signature_round (take 32 sig) (drop 32 sig) false (All-take (λ x. x < 256) 32 sig b)
        (All-drop (λ x. x < 256) 32 sig b) (omega (arith, length-take 32 sig))
        (omega (arith, length-drop 32 sig))
      ∙ take-append-drop 32 sig

  built-IsSigned :
      (op : Operation) (key sig : Bytes)
      → IsBytes sig
      → decode_wire c (encode_wire c op key sig) ≡ ok (op, key, sig)
      → IsSigned c k (built c k op key sig)
  unfolding signature_bytes
  built-IsSigned op key sig b e =
      let n = (decode_wire-IsCanonical c _ e).sig_length in
      let same = signature_of_bytes sig b n in
      record { decodes = rw same e; hashed = refl; parity = rw same }

  -- Under the laws of RLP, `new` of an operation in range and within the limits, a key of 33 bytes
  -- and a signature of 64 succeeds, and keeps them with their wire bytes and hash.
  pub new-builds :
      (op : Operation) (key sig : Bytes)
      → IsOperation op
      → IsWithin op
      → IsBytes key
      → length key ≡ 33
      → IsBytes sig
      → length sig ≡ 64
      → new c k op key sig ≡ ok (built c k op key sig)
  unfolding new
  new-builds op key sig v w kb kn sb sn = rw (
    (validate_limits_iff op).1 w,
    kn,
    sn,
    decode_wire-encode_wire c laws op key sig v w kb kn sb sn,
  )

  new-eq-ok :
      (op : Operation) (key sig : Bytes) {t : CosmosSigned}
      → new c k op key sig ≡ ok t
      → IsWithin op × (length key ≡ 33) × (length sig ≡ 64)
  unfolding new
  new-eq-ok op key sig h =
      let (_, limits, h₁) = >>=-eq-ok (validate_limits op) _ h in
      let (n, h₂) = guard-eq-ok (length key == 33) public_key _ h₁ in
      let (m, _) = guard-eq-ok (length sig == 64) signature _ h₂ in
      ((validate_limits_iff op).0 limits, (==_iff _ _).0 n, (==_iff _ _).0 m)

  -- Under the laws of RLP, a transaction that `new` returns for parts in range has its cached wire
  -- bytes, hash and signature in agreement with its operation and key, and its parts are those
  -- that were given.
  pub new-IsSigned :
      (op : Operation) (key sig : Bytes) {t : CosmosSigned}
      → IsOperation op
      → IsBytes key
      → IsBytes sig
      → new c k op key sig ≡ ok t
      → IsSigned c k t
        × (t.operation ≡ op)
        × (t.public_key ≡ key)
        × (signature_bytes c t ≡ sig)
        × (t.raw ≡ encode_wire c op key sig)
  unfolding signature_bytes
  new-IsSigned op key sig {t} v kb sb h =
      let (w, kn, sn) = new-eq-ok op key sig h in
      let same : built c k op key sig ≡ t =
        ok-injective (sym (new-builds op key sig v w kb kn sb sn) ∙ h) in
      let decodes = decode_wire-encode_wire c laws op key sig v w kb kn sb sn in
      subst
        (λ (u : CosmosSigned).
          IsSigned c k u
          × (u.operation ≡ op)
          × (u.public_key ≡ key)
          × (take 64 (c.as_bytes u.signature) ≡ sig)
          × (u.raw ≡ encode_wire c op key sig))
        same (built-IsSigned op key sig sb decodes, refl, refl, signature_of_bytes sig sb sn, refl)

-- A transaction that holds the invariant is what `new` returns for its own parts.
pub IsSigned-rebuilt :
    (c : Rlp) {Key Sig : Type 0} (k : Crypto Key Sig) (t : CosmosSigned)
    → IsSigned c k t
    → new c k t.operation t.public_key (signature_bytes c t) ≡ ok t
unfolding new
IsSigned-rebuilt c k t s =
    let v = decode_wire-IsCanonical c t.raw s.decodes in
    let again : decode_wire c (encode_wire c t.operation t.public_key (signature_bytes c t))
        ≡ ok (t.operation, t.public_key, signature_bytes c t) =
      rw v.same s.decodes in
    rw (
      (validate_limits_iff t.operation).1 v.within,
      v.key_length,
      v.sig_length,
      again,
      v.same,
      ← s.hashed,
      ← s.parity,
    )
