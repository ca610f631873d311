-- ===== src/Auth/Payload.antt =====
-- crates/cosmos-auth/src/lib.rs: the RLP list that the signature covers, and its decoder.
pub mod Size
pub mod RoundTrip
pub mod Canonical
pub mod Ranges
use reth_cosmos.Prelude.{
  ℕ, Bool, true, ◌&&◌, Option, ◌++◌, Bytes, Result, ok, err, ◌>>=◌, ◌>>◌, guard, or_err, length,
  is_empty, leb, ltb, ◌==◌, bytes_eq, if◌then◌else◌,
}
use reth_cosmos.Extern.Rlp.{Header, Rlp}
use reth_cosmos.Auth.{
  Operation, AuthError, encoding, limit, protocol_const, max_raw_tx, validate_limits,
}

module _ (c : Rlp) where
  -- `list`: a list header before the fields.
  unfoldable pub list : Bytes → Bytes
  list fields = c.encode_header (record { list = true; payload_length = length fields }) ++ fields

  -- `list_body`: the whole input is one list.
  unfoldable pub list_body : Bytes → Result AuthError Bytes
  list_body raw = do
    (header, rest) ← or_err (c.decode_header raw) encoding
    guard (header.list && length rest == header.payload_length) encoding
    ok rest

  -- The buffer `fields` of `Operation::payload`.
  unfoldable pub payload_fields : Operation → Bytes
  payload_fields op =
      c.encode_bytes protocol_const
      ++ (c.encode_uint 1
          ++ (c.encode_uint op.chain_id
              ++ (c.encode_bytes op.genesis_hash
                  ++ (c.encode_bytes op.sender
                      ++ (c.encode_uint op.nonce
                          ++ (c.encode_bytes op.to
                              ++ (c.encode_uint op.value
                                  ++ (c.encode_bytes op.input
                                      ++ (c.encode_uint op.gas_limit
                                          ++ (c.encode_uint op.max_fee_per_gas
                                              ++ c.encode_uint op.max_priority_fee_per_gas))))))))))

  -- `Operation::payload`.
  unfoldable pub payload : Operation → Bytes
  unfolding list payload_fields
  payload op = list (payload_fields op)

  -- The ten fields of `Self { .. }` in `decode_payload`, in the order in which they are read.
  unfoldable pub decode_operation : Bytes → Result AuthError (Operation × Bytes)
  decode_operation buf = do
    (chain_id, b₁) ← or_err (c.decode_uint 8 buf) encoding
    (genesis_hash, b₂) ← or_err (c.decode_fixed 32 b₁) encoding
    (sender, b₃) ← or_err (c.decode_fixed 20 b₂) encoding
    (nonce, b₄) ← or_err (c.decode_uint 8 b₃) encoding
    (to, b₅) ← or_err (c.decode_fixed 20 b₄) encoding
    (value, b₆) ← or_err (c.decode_uint 32 b₅) encoding
    (input, b₇) ← or_err (c.decode_bytes b₆) encoding
    (gas_limit, b₈) ← or_err (c.decode_uint 8 b₇) encoding
    (max_fee, b₉) ← or_err (c.decode_uint 16 b₈) encoding
    (priority_fee, b₁₀) ← or_err (c.decode_uint 16 b₉) encoding
    ok (
      record {
        chain_id = chain_id;
        genesis_hash = genesis_hash;
        sender = sender;
        nonce = nonce;
        to = to;
        value = value;
        input = input;
        gas_limit = gas_limit;
        max_fee_per_gas = max_fee;
        max_priority_fee_per_gas = priority_fee;
      },
      b₁₀,
    )

  -- `Operation::decode_payload`.
  unfoldable pub decode_payload : Bytes → Result AuthError Operation
  decode_payload raw = do
    guard (leb (length raw) max_raw_tx) limit
    buf ← list_body raw
    (protocol, buf₁) ← or_err (c.decode_bytes buf) encoding
    (version, buf₂) ← or_err (c.decode_uint 1 buf₁) encoding
    guard (bytes_eq protocol protocol_const && version == 1) encoding
    (op, rest) ← decode_operation buf₂
    guard (is_empty rest && bytes_eq (payload op) raw) encoding
    validate_limits op
    ok op
