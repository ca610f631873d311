-- ===== src/Auth/Sign.antt =====
-- crates/cosmos-auth/src/lib.rs: the ADR-036 sign document and the verification of a signature.
pub mod Document
pub mod Verify
use reth_cosmos.Prelude.{
  ℕ, Bool, true, false, not, ◌&&◌, ◌||◌, Option, none, some, [], ◌∷◌, Bytes, Result, ok, err, ◌>>=◌,
  ◌>>◌, guard, or_err, length, ◌==◌, bytes_eq,
}
use reth_cosmos.Extern.Rlp.{Rlp}
use reth_cosmos.Extern.Crypto.{Crypto}
use reth_cosmos.Extern.Json.{Json, str, arr, obj, nil, cons, end, field, codes}
use reth_cosmos.Auth.{
  Operation, AuthError, domain, public_key, sender_mismatch, signature, chain_id_const,
  validate_limits,
}
use reth_cosmos.Auth.Payload.{payload}

-- The document that `json!` builds in `Operation::sign_bytes`.
unfoldable pub sign_doc : Bytes → Bytes → Json
sign_doc content signer = obj (
    field (codes "account_number") (str (codes "0")) (
      field (codes "chain_id") (str []) (
        field (codes "fee")
          (obj (field (codes "amount") (arr nil) (field (codes "gas") (str (codes "0")) end)))
          (field (codes "memo") (str []) (
            field (codes "msgs")
              (arr (
                cons
                  (obj (
                    field (codes "type") (str (codes "sign/MsgSignData")) (
                      field (codes "value")
                        (obj (
                          field (codes "data") (str content)
                            (field (codes "signer") (str signer) end)))
                        end)))
                  nil))
              (field (codes "sequence") (str (codes "0")) end))))))

-- `key[0]` is 2 or 3. The code reads it only of a key of 33 bytes.
unfoldable pub has_compressed_prefix : Bytes → Bool
has_compressed_prefix [] = false
has_compressed_prefix (b ∷ bs) = b == 2 || b == 3

abbrev pub is_none {ℓ} : {A : Type ℓ} → Option A → Bool
is_none none = true
is_none (some a) = false

module _ (c : Rlp) {Key Sig : Type 0} (k : Crypto Key Sig) (to_vec : Json → Bytes) where
  -- `cosmos_address`.
  unfoldable pub cosmos_address : Bytes → Bytes
  cosmos_address sender = k.bech32 (codes "cosmos") sender

  -- `Operation::sign_bytes`.
  unfoldable pub sign_bytes : Operation → Bytes
  unfolding cosmos_address
  sign_bytes op = to_vec (sign_doc (k.base64 (payload c op)) (cosmos_address op.sender))

  -- `Operation::sign_hash`.
  unfoldable pub sign_hash : Operation → Bytes
  sign_hash op = k.sha256 (sign_bytes op)

-- `derive_sender`.
unfoldable pub derive_sender : {Key Sig : Type 0} → Crypto Key Sig → Bytes → Result AuthError Bytes
derive_sender k key = do
  guard (length key == 33 && has_compressed_prefix key) public_key
  point ← or_err (k.from_sec1_bytes key) public_key
  ok (k.ripemd160 (k.sha256 key))

module _ (c : Rlp) {Key Sig : Type 0} (k : Crypto Key Sig) (to_vec : Json → Bytes) where
  -- The part of `Operation::verify` that reads the signature.
  unfoldable pub check_signature : Operation → Bytes → Bytes → Result AuthError (Unit {0})
  check_signature op key sig = do
    parsed ← or_err (k.sig_from_slice sig) signature
    guard (is_none (k.normalize_s parsed)) signature
    point ← or_err (k.from_sec1_bytes key) public_key
    guard (k.verifies point (sign_bytes c k to_vec op) parsed) signature

  -- `Operation::verify`.
  unfoldable pub verify : Operation → Bytes → Bytes → Bytes → Result AuthError Bytes
  verify op key sig genesis = do
    validate_limits op
    guard (op.chain_id == chain_id_const && bytes_eq op.genesis_hash genesis) domain
    sender ← derive_sender k key
    guard (bytes_eq op.sender sender) sender_mismatch
    check_signature op key sig
    ok sender
