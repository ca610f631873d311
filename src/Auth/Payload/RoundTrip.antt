-- ===== src/Auth/Payload/RoundTrip.antt =====
-- Operation::payload and Operation::decode_payload: decoding inverts encoding.
use mathlib.Core.List.{append-nil}
use reth_cosmos.Prelude.{
  ℕ, ◌^◌, ◌≤◌, ◌<◌, ◌≡◌, some, [], ◌++◌, arith, Bytes, ok, length, le→leb, ==_refl, bytes_eq_refl,
}
use reth_cosmos.Extern.Rlp.{Rlp, RlpLaws}
use reth_cosmos.Auth.{Operation, IsOperation, protocol_const, max_raw_tx}
use reth_cosmos.Auth.Limits.{IsWithin, validate_limits_iff}
use reth_cosmos.Auth.Payload.Size.{length-payload_fields, length-payload}
use reth_cosmos.Auth.Payload.{
  list, list_body, payload_fields, payload, decode_operation, decode_payload,
}

module _ (c : Rlp) (laws : RlpLaws c) where
  uint_last : (w n : ℕ) → n < 256 ^ w → w ≤ 32 → c.decode_uint w (c.encode_uint n) ≡ some (n, [])
  uint_last w n h k = let e = laws.uint_round w n [] h k in rw (append-nil (c.encode_uint n)) at e

  -- A list's body is what was put in it.
  pub list_body-list :
      (fields : Bytes) → length fields < 2 ^ 64 → list_body c (list c fields) ≡ ok fields
  unfolding list_body list
  list_body-list fields h =
      rw (laws.list_round (length fields) fields h (omega arith)) (rw (==_refl (length fields)))

  pub decode_operation-fields :
      (op : Operation)
      → IsOperation op
      → length op.input < 2 ^ 64
      → decode_operation c (
          c.encode_uint op.chain_id
          ++ (c.encode_bytes op.genesis_hash
              ++ (c.encode_bytes op.sender
                  ++ (c.encode_uint op.nonce
                      ++ (c.encode_bytes op.to
                          ++ (c.encode_uint op.value
                              ++ (c.encode_bytes op.input
                                  ++ (c.encode_uint op.gas_limit
                                      ++ (c.encode_uint op.max_fee_per_gas
                                          ++ c.encode_uint op.max_priority_fee_per_gas)))))))))
        ≡ ok (op, [])
  unfolding decode_operation
  decode_operation-fields op v h = rw (
    laws.uint_round 8 op.chain_id _ v.chain_id_range (omega arith),
    laws.fixed_round 32 op.genesis_hash _ v.genesis_hash_bytes v.genesis_hash_length (omega arith),
    laws.fixed_round 20 op.sender _ v.sender_bytes v.sender_length (omega arith),
    laws.uint_round 8 op.nonce _ v.nonce_range (omega arith),
    laws.fixed_round 20 op.to _ v.to_bytes v.to_length (omega arith),
    laws.uint_round 32 op.value _ v.value_range (omega arith),
    laws.bytes_round op.input _ v.input_bytes h,
    laws.uint_round 8 op.gas_limit _ v.gas_limit_range (omega arith),
    laws.uint_round 16 op.max_fee_per_gas _ v.max_fee_range (omega arith),
    uint_last 16 op.max_priority_fee_per_gas v.priority_fee_range (omega arith),
  )

  list_body-payload :
      (op : Operation)
      → IsOperation op
      → length op.input < 2 ^ 63
      → list_body c (payload c op) ≡ ok (payload_fields c op)
  unfolding payload
  list_body-payload op v h =
      list_body-list (payload_fields c op) (omega (arith, length-payload_fields c laws op v h))

  -- Under the laws of RLP, decoding the payload of an operation in range and within the limits
  -- gives the operation back.
  pub decode_payload-payload :
      (op : Operation) → IsOperation op → IsWithin op → decode_payload c (payload c op) ≡ ok op
  unfolding decode_payload payload_fields
  decode_payload-payload op v w =
      let small : length (payload c op) ≤ max_raw_tx =
        omega (arith, length-payload c laws op v (omega arith)) in
      rw (
        le→leb _ _ small,
        list_body-payload op v (omega arith),
        laws.bytes_round protocol_const _ (omega arith) (omega arith),
        laws.uint_round 1 1 _ (omega arith) (omega arith),
        bytes_eq_refl protocol_const,
        decode_operation-fields op v (omega arith),
        bytes_eq_refl (payload c op),
        (validate_limits_iff op).1 w,
      )
