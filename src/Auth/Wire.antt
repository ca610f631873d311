-- ===== src/Auth/Wire.antt =====
-- crates/cosmos-auth/src/lib.rs: the signed transaction on the wire.
pub mod RoundTrip
pub mod Canonical
pub mod Exact
use reth_cosmos.Prelude.{
  ℕ, Bool, true, false, ◌&&◌, Option, none, some, [], ◌∷◌, ◌++◌, Bytes, Result, ok, err, ◌>>=◌,
  ◌>>◌, guard, or_err, length, is_empty, leb, ◌==◌, bytes_eq,
}
use reth_cosmos.Extern.Rlp.{Rlp}
use reth_cosmos.Extern.Crypto.{Crypto}
use reth_cosmos.Auth.{
  Operation, AuthError, encoding, limit, public_key, signature, max_raw_tx, tx_type_const,
}
use reth_cosmos.Auth.Payload.{list, list_body, payload, decode_payload}

-- `raw.first()` is the transaction type.
unfoldable pub has_tx_type : Bytes → Bool
has_tx_type [] = false
has_tx_type (b ∷ bs) = b == tx_type_const

-- `&raw[1..]`, which the code takes of a nonempty slice.
unfoldable pub behind_first : Bytes → Bytes
behind_first [] = []
behind_first (b ∷ bs) = bs

module _ (c : Rlp) where
  -- The buffer `fields` of `encode_wire`.
  unfoldable pub wire_fields : Operation → Bytes → Bytes → Bytes
  wire_fields op key sig =
      c.encode_bytes (payload c op) ++ (c.encode_bytes key ++ c.encode_bytes sig)

  -- `encode_wire`.
  unfoldable pub encode_wire : Operation → Bytes → Bytes → Bytes
  encode_wire op key sig = tx_type_const ∷ list c (wire_fields op key sig)

  -- `decode_wire`: the operation, the key and the signature.
  unfoldable pub decode_wire : Bytes → Result AuthError (Operation × Bytes × Bytes)
  decode_wire raw = do
    guard (leb (length raw) max_raw_tx) limit
    guard (has_tx_type raw) encoding
    buf ← list_body c (behind_first raw)
    (payload_bytes, b₁) ← or_err (c.decode_bytes buf) encoding
    (key, b₂) ← or_err (c.decode_bytes b₁) encoding
    (sig, rest) ← or_err (c.decode_bytes b₂) encoding
    op ← decode_payload c payload_bytes
    guard (length key == 33) public_key
    guard (length sig == 64) signature
    guard (is_empty rest && bytes_eq (encode_wire op key sig) raw) encoding
    ok (op, key, sig)

-- `transaction_hash`.
unfoldable pub transaction_hash : {Key Sig : Type 0} → Crypto Key Sig → Bytes → Bytes
transaction_hash k raw = k.keccak256 raw
