-- ===== src/Auth/Payload/Ranges.antt =====
-- Operation::decode_payload: the fields that it decodes are in the ranges of their types.
use reth_cosmos.Prelude.{
  ℕ, ◌^◌, ◌<◌, ◌≡◌, ◌&&◌, subst, Option, some, Bytes, IsBytes, Result, ok, ◌>>=◌, ◌>>◌, guard,
  or_err, or_err-eq-ok, length, is_empty, ◌==◌, bytes_eq, >>=-eq-ok, guard-eq-ok, ok-injective,
}
use reth_cosmos.Extern.Rlp.{Rlp}
use reth_cosmos.Extern.Rlp.Ranges.{RlpRanges}
use reth_cosmos.Auth.{Operation, IsOperation, AuthError, encoding, validate_limits}
use reth_cosmos.Auth.Payload.{list_body, payload, decode_operation, decode_payload}

-- What holds if it holds of any value that the code reads from a buffer.
pub read-eq-ok :
    {A B C : Type 0} (found : Option (A × Bytes)) (next : A × Bytes → Result AuthError B)
    {result : B}
    → (or_err found encoding >>= next) ≡ ok result
    → ((a : A) (rest : Bytes) → found ≡ some (a, rest) → next (a, rest) ≡ ok result → C)
    → C
read-eq-ok found next h use_it =
    let (p, e, done) = >>=-eq-ok (or_err found encoding) next h in
    use_it p.0 p.1 (or_err-eq-ok found encoding e) done

module _ (c : Rlp) (ranges : RlpRanges c) where
  pub list_body-IsBytes :
      (raw : Bytes) {buf : Bytes} → IsBytes raw → list_body c raw ≡ ok buf → IsBytes buf
  unfolding list_body
  list_body-IsBytes raw b h = read-eq-ok (c.decode_header raw) _ h (λ header rest e h₁.
      let (_, h₂) =
        guard-eq-ok (header.list && length rest == header.payload_length) encoding _ h₁ in
      subst IsBytes (ok-injective h₂) (ranges.header_range raw header rest b e))

  module _ {B C : Type 0} (buf : Bytes) (b : IsBytes buf) {result : B} where
    pub read_uint :
        (w : ℕ) (next : ℕ × Bytes → Result AuthError B)
        → (or_err (c.decode_uint w buf) encoding >>= next) ≡ ok result
        → ((n : ℕ) (rest : Bytes) → n < 256 ^ w → IsBytes rest → next (n, rest) ≡ ok result → C)
        → C
    read_uint w next h use_it =
        read-eq-ok (c.decode_uint w buf) next h
          (λ n rest e k. let r = ranges.uint_range w buf n rest b e in use_it n rest r.0 r.1 k)

    pub read_bytes :
        (next : Bytes × Bytes → Result AuthError B)
        → (or_err (c.decode_bytes buf) encoding >>= next) ≡ ok result
        → ((x rest : Bytes) → IsBytes x → IsBytes rest → next (x, rest) ≡ ok result → C)
        → C
    read_bytes next h use_it =
        read-eq-ok (c.decode_bytes buf) next h
          (λ x rest e k. let r = ranges.bytes_range buf x rest b e in use_it x rest r.0 r.1 k)

    pub read_fixed :
        (n : ℕ) (next : Bytes × Bytes → Result AuthError B)
        → (or_err (c.decode_fixed n buf) encoding >>= next) ≡ ok result
        → ((x rest : Bytes)
            → IsBytes x
            → length x ≡ n
            → IsBytes rest
            → next (x, rest) ≡ ok result
            → C)
        → C
    read_fixed n next h use_it =
        read-eq-ok (c.decode_fixed n buf) next h
          (λ x rest e k. let r = ranges.fixed_range n buf x rest b e in use_it x rest r.0 r.1 r.2 k)

  decode_operation-IsOperation :
      (buf : Bytes) {r : Operation × Bytes}
      → IsBytes buf
      → decode_operation c buf ≡ ok r
      → IsOperation r.0
  unfolding decode_operation
  decode_operation-IsOperation buf {r} b h = read_uint buf b 8 _ h (λ chain_id b₁ i₁ c₁ h₁.
      read_fixed b₁ c₁ 32 _ h₁ (λ genesis_hash b₂ i₂ n₂ c₂ h₂.
        read_fixed b₂ c₂ 20 _ h₂ (λ sender b₃ i₃ n₃ c₃ h₃.
          read_uint b₃ c₃ 8 _ h₃ (λ nonce b₄ i₄ c₄ h₄.
            read_fixed b₄ c₄ 20 _ h₄ (λ to b₅ i₅ n₅ c₅ h₅.
              read_uint b₅ c₅ 32 _ h₅ (λ value b₆ i₆ c₆ h₆.
                read_bytes b₆ c₆ _ h₆ (λ input b₇ i₇ c₇ h₇.
                  read_uint b₇ c₇ 8 _ h₇ (λ gas_limit b₈ i₈ c₈ h₈.
                    read_uint b₈ c₈ 16 _ h₈ (λ max_fee b₉ i₉ c₉ h₉.
                      read_uint b₉ c₉ 16 _ h₉ (λ priority_fee b₁₀ i₁₀ c₁₀ done.
                        subst (λ (p : Operation × Bytes). IsOperation p.0) (ok-injective done)
                          (record {
                            chain_id_range = i₁;
                            genesis_hash_bytes = i₂;
                            genesis_hash_length = n₂;
                            sender_bytes = i₃;
                            sender_length = n₃;
                            nonce_range = i₄;
                            to_bytes = i₅;
                            to_length = n₅;
                            value_range = i₆;
                            input_bytes = i₇;
                            gas_limit_range = i₈;
                            max_fee_range = i₉;
                            priority_fee_range = i₁₀;
                          })))))))))))

  behind_fields-IsOperation :
      (raw buf : Bytes) {op : Operation}
      → IsBytes buf
      → (decode_operation c buf >>= λ (p : Operation × Bytes).
          guard (is_empty p.1 && bytes_eq (payload c p.0) raw) encoding
          >> (validate_limits p.0 >> ok p.0))
        ≡ ok op
      → IsOperation op
  behind_fields-IsOperation raw buf b h =
      let (q, e, h₁) = >>=-eq-ok (decode_operation c buf) _ h in
      let (_, h₂) =
        guard-eq-ok (is_empty q.1 && bytes_eq (payload c q.0) raw) encoding
          (validate_limits q.0 >> ok q.0) h₁ in
      let (_, _, done) = >>=-eq-ok (validate_limits q.0) (λ _. ok q.0) h₂ in
      subst IsOperation (ok-injective done) (decode_operation-IsOperation buf b e)

  pub decode_payload-IsOperation :
      (raw : Bytes) {op : Operation} → IsBytes raw → decode_payload c raw ≡ ok op → IsOperation op
  unfolding decode_payload
  decode_payload-IsOperation raw {op} b h =
      let (_, h₁) = guard-eq-ok _ _ _ h in
      let (buf, e, h₂) = >>=-eq-ok (list_body c raw) _ h₁ in
      read_bytes buf (list_body-IsBytes raw b e) _ h₂ (λ protocol b₁ i₁ c₁ h₃.
        read_uint b₁ c₁ 1 _ h₃
          (λ version b₂ i₂ c₂ h₄. behind_fields-IsOperation raw b₂ c₂ (guard-eq-ok _ _ _ h₄).1))
