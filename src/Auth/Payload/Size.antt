-- ===== src/Auth/Payload/Size.antt =====
-- Operation::payload: the payload consists of bytes, and how long it can be.
use reth_cosmos.Prelude.{
  ◌+◌, ◌^◌, ◌≤◌, ◌<◌, arith, Bytes, IsBytes, All-append, length, length-append,
}
use reth_cosmos.Extern.Rlp.{Rlp, RlpLaws}
use reth_cosmos.Auth.{Operation, IsOperation, protocol_const}
use reth_cosmos.Auth.Payload.{list, payload_fields, payload}

module _ (c : Rlp) (laws : RlpLaws c) where
  pub list-IsBytes :
      (fields : Bytes) → IsBytes fields → length fields < 2 ^ 64 → IsBytes (list c fields)
  unfolding list
  list-IsBytes fields b h =
      All-append (λ x. x < 256) (c.encode_header _) fields (laws.header_bytes (length fields) h) b

  pub length-list :
      (fields : Bytes) → length fields < 2 ^ 64 → length (list c fields) ≤ length fields + 9
  unfolding list
  length-list fields h = omega (
    arith,
    length-append (c.encode_header (record { list = _; payload_length = length fields })) fields,
    laws.header_size (length fields) h,
  )

  module _ (op : Operation) (v : IsOperation op) (h : length op.input < 2 ^ 63) where
    pub payload_fields-IsBytes : IsBytes (payload_fields c op)
    unfolding payload_fields
    payload_fields-IsBytes =
        let join = All-append (λ x. x < 256) in
        join _ _ (laws.bytes_bytes protocol_const (omega arith) (omega arith)) (
          join _ _ (laws.uint_bytes 1 1 (omega arith) (omega arith)) (
            join _ _ (laws.uint_bytes 8 op.chain_id v.chain_id_range (omega arith)) (
              join _ _
                (laws.bytes_bytes op.genesis_hash v.genesis_hash_bytes
                  (omega (arith, v.genesis_hash_length)))
                (join _ _
                  (laws.bytes_bytes op.sender v.sender_bytes (omega (arith, v.sender_length)))
                  (join _ _ (laws.uint_bytes 8 op.nonce v.nonce_range (omega arith)) (
                    join _ _ (laws.bytes_bytes op.to v.to_bytes (omega (arith, v.to_length))) (
                      join _ _ (laws.uint_bytes 32 op.value v.value_range (omega arith)) (
                        join _ _ (laws.bytes_bytes op.input v.input_bytes (omega arith)) (
                          join _ _ (laws.uint_bytes 8 op.gas_limit v.gas_limit_range (omega arith))
                            (join _ _
                              (laws.uint_bytes 16 op.max_fee_per_gas v.max_fee_range (omega arith))
                              (laws.uint_bytes 16 op.max_priority_fee_per_gas v.priority_fee_range
                                (omega arith))))))))))))

    pub length-payload_fields : length (payload_fields c op) ≤ length op.input + 231
    unfolding payload_fields
    length-payload_fields = omega (
      arith,
      length-append {0},
      laws.bytes_size protocol_const (omega arith) (omega arith),
      laws.uint_size 1 1 (omega arith) (omega arith),
      laws.uint_size 8 op.chain_id v.chain_id_range (omega arith),
      laws.bytes_size op.genesis_hash v.genesis_hash_bytes (omega (arith, v.genesis_hash_length)),
      laws.bytes_size op.sender v.sender_bytes (omega (arith, v.sender_length)),
      laws.uint_size 8 op.nonce v.nonce_range (omega arith),
      laws.bytes_size op.to v.to_bytes (omega (arith, v.to_length)),
      laws.uint_size 32 op.value v.value_range (omega arith),
      laws.bytes_size op.input v.input_bytes (omega arith),
      laws.uint_size 8 op.gas_limit v.gas_limit_range (omega arith),
      laws.uint_size 16 op.max_fee_per_gas v.max_fee_range (omega arith),
      laws.uint_size 16 op.max_priority_fee_per_gas v.priority_fee_range (omega arith),
      v.genesis_hash_length,
      v.sender_length,
      v.to_length,
    )

    pub payload-IsBytes : IsBytes (payload c op)
    unfolding payload
    payload-IsBytes =
        list-IsBytes (payload_fields c op) payload_fields-IsBytes
          (omega (arith, length-payload_fields))

    -- 240 bytes of overhead at most.
    pub length-payload : length (payload c op) ≤ length op.input + 240
    unfolding payload
    length-payload = omega (
      arith,
      length-payload_fields,
      length-list (payload_fields c op) (omega (arith, length-payload_fields)),
    )
