-- ===== src/Auth/Payload/Canonical.antt =====
-- Operation::decode_payload: what a successful decoding says of its input.
use reth_cosmos.Prelude.{
  ◌≤◌, ◌≡◌, ◌&&◌, Bytes, ok, ◌>>◌, guard, or_err, length, is_empty, leb→le, bytes_eq, bytes_eq→eq,
  &&_split, >>=-eq-ok, guard-eq-ok, ok-injective,
}
use reth_cosmos.Extern.Rlp.{Rlp}
use reth_cosmos.Auth.{Operation, encoding, max_raw_tx, validate_limits}
use reth_cosmos.Auth.Limits.{IsWithin, validate_limits_iff}
use reth_cosmos.Auth.Payload.{list_body, payload, decode_operation, decode_payload}

module _ (c : Rlp) where
  -- The check behind the fields of `decode_payload`.
  finish_lem :
      (raw : Bytes) (p : Operation × Bytes) {op' : Operation}
      → (guard (is_empty p.1 && bytes_eq (payload c p.0) raw) encoding
          >> (validate_limits p.0 >> ok p.0))
        ≡ ok op'
      → (payload c op' ≡ raw) × (validate_limits op' ≡ ok tt)
  finish_lem raw (op, rest) {op'} h =
      let (g, k) =
        guard-eq-ok (is_empty rest && bytes_eq (payload c op) raw) encoding
          (validate_limits op >> ok op) h in
      let (u, e, f) = >>=-eq-ok (validate_limits op) (λ _. ok op) k in
      let same : payload c op ≡ raw = bytes_eq→eq _ _ (&&_split g).1 in
      let i : op ≡ op' = ok-injective f in (rw (← i) same, rw (← i) e)

  -- A payload that decodes is the payload of the result, which is within the limits, and is not
  -- longer than a transaction may be.
  pub decode_payload-canonical :
      (raw : Bytes) {op : Operation}
      → decode_payload c raw ≡ ok op
      → (payload c op ≡ raw) × IsWithin op × (length raw ≤ max_raw_tx)
  unfolding decode_payload
  decode_payload-canonical raw {op} h =
      let (small, h₁) = guard-eq-ok _ _ _ h in
      let (buf, _, h₂) = >>=-eq-ok (list_body c raw) _ h₁ in
      let (p, _, h₃) = >>=-eq-ok (or_err (c.decode_bytes buf) encoding) _ h₂ in
      let (n, _, h₄) = >>=-eq-ok (or_err (c.decode_uint 1 p.1) encoding) _ h₃ in
      let (_, h₅) = guard-eq-ok _ _ _ h₄ in
      let (q, _, h₆) = >>=-eq-ok (decode_operation c n.1) _ h₅ in
      let (same, within) = finish_lem raw q h₆ in
      (same, (validate_limits_iff op).0 within, leb→le _ _ small)
