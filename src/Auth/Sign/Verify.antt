-- ===== src/Auth/Sign/Verify.antt =====
-- Operation::verify: which authorizations are accepted, and how the others are refused.
use reth_cosmos.Prelude.{
  ℕ, [], ◌∷◌, ◌↔◌, refl, ◌≡◌, ◌≢◌, ◌⊎◌, sym, ap, ◌∙◌, true, none, some, ◌&&◌, or_err, Bytes, ok,
  err, arith, length, ◌==◌, ==_iff, bytes_eq, bytes_eq→eq, bytes_eq_refl, >>=-eq-ok, guard-eq-ok,
  or_err-eq-ok, &&_split,
}
use reth_cosmos.Extern.Rlp.{Rlp}
use reth_cosmos.Extern.Crypto.{Crypto}
use reth_cosmos.Extern.Json.{Json}
use reth_cosmos.Auth.{
  Operation, domain, public_key, sender_mismatch, signature, chain_id_const, validate_limits,
}
use reth_cosmos.Auth.Limits.{IsWithin, validate_limits_iff}
use reth_cosmos.Auth.Sign.{
  sign_bytes, has_compressed_prefix, derive_sender, check_signature, verify, is_none,
}

-- The first byte of a compressed point: the parity of its other coordinate.
pub record IsCompressed (key : Bytes) : Type 0 where
  pub parity : ℕ
  pub rest : Bytes
  pub starts : key ≡ parity ∷ rest
  pub even_or_odd : (parity ≡ 2) ⊎ (parity ≡ 3)

has_compressed_prefix_iff : (key : Bytes) → (has_compressed_prefix key ≡ true) ↔ IsCompressed key
unfolding has_compressed_prefix
has_compressed_prefix_iff [] = (λ h. absurd (ground arith), λ h. absurd (ground (arith, h.starts)))
has_compressed_prefix_iff (b ∷ bs) = (
  λ h. record { parity = b; rest = bs; starts = refl; even_or_odd = ground arith },
  λ h. ground (arith, h.starts, h.even_or_odd),
)

module _ (c : Rlp) {Key Sig : Type 0} (k : Crypto Key Sig) (to_vec : Json → Bytes) (op : Operation)
    (key sig genesis : Bytes) where
  -- What PROTOCOL.md demands of an authorization.
  pub record IsAuthorized : Type 0 where
    pub within : IsWithin op
    pub chain : op.chain_id ≡ chain_id_const
    pub genesis_same : op.genesis_hash ≡ genesis
    pub key_length : length key ≡ 33
    pub key_prefix : IsCompressed key
    pub sender_derived : op.sender ≡ k.ripemd160 (k.sha256 key)
    pub point : Key
    pub point_parsed : k.from_sec1_bytes key ≡ some point
    pub parsed : Sig
    pub sig_parsed : k.sig_from_slice sig ≡ some parsed
    pub low_s : k.normalize_s parsed ≡ none
    pub signed : k.verifies point (sign_bytes c k to_vec op) parsed ≡ true

  -- An operation within the limits that names the chain and the given genesis, with the compressed
  -- key of its sender's account and a low-s signature of its sign bytes under that key, is
  -- accepted, and the address is the operation's sender.
  pub verify_complete : IsAuthorized → verify c k to_vec op key sig genesis ≡ ok op.sender
  unfolding verify derive_sender check_signature
  verify_complete a =
      let chain : (op.chain_id == chain_id_const) ≡ true = (==_iff _ _).1 a.chain in
      let genesis_same : bytes_eq op.genesis_hash genesis ≡ true =
        rw a.genesis_same (bytes_eq_refl genesis) in
      let derived : bytes_eq op.sender (k.ripemd160 (k.sha256 key)) ≡ true =
        rw a.sender_derived (bytes_eq_refl (k.ripemd160 (k.sha256 key))) in
      rw
        (
          (validate_limits_iff op).1 a.within,
          chain,
          genesis_same,
          a.key_length,
          (has_compressed_prefix_iff key).1 a.key_prefix,
          a.point_parsed,
          derived,
          a.sig_parsed,
          a.low_s,
          a.signed,
        )
        (ap ok (sym a.sender_derived))

  check_signature-eq-ok :
      check_signature c k to_vec op key sig ≡ ok tt
      → (point : Key) × (parsed : Sig) × (k.from_sec1_bytes key ≡ some point)
        × (k.sig_from_slice sig ≡ some parsed)
        × (k.normalize_s parsed ≡ none)
        × (k.verifies point (sign_bytes c k to_vec op) parsed ≡ true)
  unfolding check_signature
  check_signature-eq-ok h =
      let (parsed, p, h₁) = >>=-eq-ok (or_err (k.sig_from_slice sig) signature) _ h in
      let (low, h₂) = guard-eq-ok (is_none (k.normalize_s parsed)) signature _ h₁ in
      let (point, q, h₃) = >>=-eq-ok (or_err (k.from_sec1_bytes key) public_key) _ h₂ in
      (point, parsed, or_err-eq-ok _ _ q, or_err-eq-ok _ _ p, ground arith, ground arith)

  derive_sender-eq-ok :
      {sender : Bytes}
      → derive_sender k key ≡ ok sender
      → (length key ≡ 33)
        × (has_compressed_prefix key ≡ true)
        × (sender ≡ k.ripemd160 (k.sha256 key))
  unfolding derive_sender
  derive_sender-eq-ok h =
      let (shape, h₁) =
        guard-eq-ok (length key == 33 && has_compressed_prefix key) public_key _ h in
      let (point, q, h₂) = >>=-eq-ok (or_err (k.from_sec1_bytes key) public_key) _ h₁ in
      ((==_iff _ _).0 (&&_split shape).0, (&&_split {a = length key == 33} shape).1, ground arith)

  -- What `verify` accepts is within the limits, names the chain and the given genesis, has a
  -- compressed key that is a point and whose account is the operation's sender, and a low-s
  -- signature of the sign bytes under that key; the address is the operation's sender.
  pub verify_sound :
      {a : Bytes} → verify c k to_vec op key sig genesis ≡ ok a → (a ≡ op.sender) × IsAuthorized
  unfolding verify
  verify_sound {a} h =
      let (_, limits, h₁) = >>=-eq-ok (validate_limits op) _ h in
      let (in_domain, h₂) =
        guard-eq-ok (op.chain_id == chain_id_const && bytes_eq op.genesis_hash genesis) domain _
          h₁ in
      let (sender, derived, h₃) = >>=-eq-ok (derive_sender k key) _ h₂ in
      let (owned, h₄) = guard-eq-ok (bytes_eq op.sender sender) sender_mismatch _ h₃ in
      let (_, signed, done) =
        >>=-eq-ok (check_signature c k to_vec op key sig) (λ _. ok sender) h₄ in
      let (key_length, key_prefix, hashed) = derive_sender-eq-ok derived in
      let (point, parsed, q, p, low, good) = check_signature-eq-ok signed in
      let owner : op.sender ≡ sender = bytes_eq→eq _ _ owned in
      let result : sender ≡ a = ground arith in
      (
        sym result ∙ sym owner,
        record {
          within = (validate_limits_iff op).0 limits;
          chain = (==_iff _ _).0 (&&_split in_domain).0;
          genesis_same = bytes_eq→eq _ _ (&&_split {a = op.chain_id == chain_id_const} in_domain).1;
          key_length = key_length;
          key_prefix = (has_compressed_prefix_iff key).0 key_prefix;
          sender_derived = owner ∙ hashed;
          point = point;
          point_parsed = q;
          parsed = parsed;
          sig_parsed = p;
          low_s = low;
          signed = good;
        },
      )

  -- An operation within the limits that names another chain or another genesis is refused by
  -- `Domain`, whatever the key and the signature are.
  pub verify-domain :
      IsWithin op
      → (op.chain_id ≢ chain_id_const) ⊎ (op.genesis_hash ≢ genesis)
      → verify c k to_vec op key sig genesis ≡ err domain
  unfolding verify
  verify-domain w h =
      rw ((validate_limits_iff op).1 w) (ground (arith, h, bytes_eq→eq op.genesis_hash genesis))

  -- An operation within the limits that names the chain and the given genesis, but whose sender is
  -- not the account of the key, is refused by `Sender`.
  pub verify-sender :
      IsWithin op
      → op.chain_id ≡ chain_id_const
      → op.genesis_hash ≡ genesis
      → {owner : Bytes} → derive_sender k key ≡ ok owner
      → op.sender ≢ owner
      → verify c k to_vec op key sig genesis ≡ err sender_mismatch
  unfolding verify
  verify-sender w chain same {owner} derived differ =
      let equal : bytes_eq op.genesis_hash genesis ≡ true = rw same (bytes_eq_refl genesis) in
      rw ((validate_limits_iff op).1 w, (==_iff op.chain_id chain_id_const).1 chain, equal, derived)
        (ground (arith, bytes_eq→eq op.sender owner))
