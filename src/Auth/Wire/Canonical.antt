-- ===== src/Auth/Wire/Canonical.antt =====
-- decode_wire: what a successful decoding says of its input.
use reth_cosmos.Prelude.{
  ◌≤◌, ◌≡◌, ◌≢◌, sym, ◌∙◌, subst, ◌&&◌, Bytes, ok, ◌>>◌, guard, or_err, length, is_empty, leb→le,
  ◌==◌, ==_iff, bytes_eq, bytes_eq→eq, &&_split, >>=-eq-ok, guard-eq-ok,
}
use reth_cosmos.Extern.Rlp.{Rlp}
use reth_cosmos.Auth.{Operation, encoding, public_key, signature, max_raw_tx}
use reth_cosmos.Auth.Limits.{IsWithin}
use reth_cosmos.Auth.Payload.{list_body, decode_payload}
use reth_cosmos.Auth.Payload.Canonical.{decode_payload-canonical}
use reth_cosmos.Auth.Wire.{encode_wire, decode_wire, behind_first}

-- What `decode_wire` guarantees of an input that it accepts.
pub record IsCanonical (c : Rlp) (raw : Bytes) (op : Operation) (key sig : Bytes) : Type 0 where
  pub same : encode_wire c op key sig ≡ raw
  pub within : IsWithin op
  pub key_length : length key ≡ 33
  pub sig_length : length sig ≡ 64
  pub size : length raw ≤ max_raw_tx

module _ (c : Rlp) where
  -- The checks behind the parts of `decode_wire`.
  finish_lem :
      (raw key sig rest : Bytes) (o : Operation) {t : Operation × Bytes × Bytes}
      → (guard (length key == 33) public_key
          >> (guard (length sig == 64) signature
              >> (guard (is_empty rest && bytes_eq (encode_wire c o key sig) raw) encoding
                  >> ok (o, key, sig))))
        ≡ ok t
      → IsWithin o
      → length raw ≤ max_raw_tx
      → IsCanonical c raw t.0 t.1 t.2
  finish_lem raw key sig rest o {t} h within size =
      let (h₁, r₁) = guard-eq-ok (length key == 33) public_key _ h in
      let (h₂, r₂) = guard-eq-ok (length sig == 64) signature _ r₁ in
      let (h₃, r₃) =
        guard-eq-ok (is_empty rest && bytes_eq (encode_wire c o key sig) raw) encoding
          (ok (o, key, sig)) r₂ in
      let same : encode_wire c o key sig ≡ raw =
        bytes_eq→eq _ _ (&&_split {a = is_empty rest} h₃).1 in
      let i : ◌≡◌ {A = Operation × Bytes × Bytes} (o, key, sig) t = cc in
      subst (λ (u : Operation × Bytes × Bytes). IsCanonical c raw u.0 u.1 u.2) i
        (record {
          same = same;
          within = within;
          key_length = (==_iff _ _).0 h₁;
          sig_length = (==_iff _ _).0 h₂;
          size = size;
        })

  -- An accepted input is the encoding of the decoded parts, of an operation within the limits, a
  -- key of 33 bytes and a signature of 64, and is not longer than a transaction may be.
  pub decode_wire-IsCanonical :
      (raw : Bytes) {op : Operation} {key sig : Bytes}
      → decode_wire c raw ≡ ok (op, key, sig)
      → IsCanonical c raw op key sig
  unfolding decode_wire
  decode_wire-IsCanonical raw h =
      let (small, h₁) = guard-eq-ok _ _ _ h in
      let (_, h₂) = guard-eq-ok _ _ _ h₁ in
      let (buf, _, h₃) = >>=-eq-ok (list_body c (behind_first raw)) _ h₂ in
      let (p, _, h₄) = >>=-eq-ok (or_err (c.decode_bytes buf) encoding) _ h₃ in
      let (q, _, h₅) = >>=-eq-ok (or_err (c.decode_bytes p.1) encoding) _ h₄ in
      let (r, _, h₆) = >>=-eq-ok (or_err (c.decode_bytes q.1) encoding) _ h₅ in
      let (o, e, h₇) = >>=-eq-ok (decode_payload c p.0) _ h₆ in
      finish_lem raw q.0 r.0 r.1 o h₇ (decode_payload-canonical c p.0 e).1 (leb→le _ _ small)

  -- The wire format has one encoding only: of two different inputs, at most one decodes to a given
  -- operation, key and signature.
  pub decode_wire_unique :
      (raw other : Bytes) (op : Operation) (key sig : Bytes)
      → decode_wire c raw ≡ ok (op, key, sig)
      → raw ≢ other
      → decode_wire c other ≢ ok (op, key, sig)
  decode_wire_unique raw other op key sig h differ k =
      differ (sym (decode_wire-IsCanonical raw h).same ∙ (decode_wire-IsCanonical other k).same)
