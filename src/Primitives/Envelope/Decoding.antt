-- ===== src/Primitives/Envelope/Decoding.antt =====
-- src/primitives/envelope.rs: decoding of a typed transaction.
use reth_cosmos.Prelude.{
  ℕ, suc, ◌+◌, ◌-◌, ◌≤◌, ◌≡◌, sym, ◌∙◌, ap, true, ◌&&◌, some, ◌∷◌, ◌++◌, Bytes, Result, ok, or_err,
  map_err, map_err-eq-ok, guard-eq-ok, >>=-eq-ok, ok-injective, arith, length, length-append, take,
  drop, take-append, drop-append, take-append-drop, leb, le→leb, ◌==◌, ==_iff, append_assoc,
  Bool-cases, inl, inr,
}
use reth_cosmos.Extern.Rlp.{Rlp, RlpLaws, Header}
use reth_cosmos.Extern.Crypto.{Crypto}
use reth_cosmos.Auth.{Operation, tx_type_const, max_raw_tx}
use reth_cosmos.Auth.Limits.{IsWithin}
use reth_cosmos.Auth.Payload.{list}
use reth_cosmos.Auth.Wire.{encode_wire, decode_wire, wire_fields}
use reth_cosmos.Auth.Wire.Canonical.{decode_wire-IsCanonical}
use reth_cosmos.Primitives.Signed.{CosmosSigned, signature_bytes, new}
use reth_cosmos.Primitives.Signed.Cached.{IsSigned, IsSigned-rebuilt, built, new-decoded}
use reth_cosmos.Primitives.Envelope.{
  EthTx, CosmosEnvelope, ethereum, cosmos, DecodeError, upstream, header_error, invalid_size,
  invalid_encoding, decode_cosmos, typed_decode,
}

module _ {T AccessList Authorization : Type 0} (e : EthTx T AccessList Authorization) (c : Rlp)
    {Key Sig : Type 0} (k : Crypto Key Sig) where
  module _ (laws : RlpLaws c) where
    -- The Cosmos branch on the list of wire bytes that decode, whatever stands behind it.
    decode_cosmos-list :
        (op : Operation) (raw key sig fields rest : Bytes)
        → decode_wire c raw ≡ ok (op, key, sig)
        → raw ≡ tx_type_const ∷ list c fields
        → length raw ≤ max_raw_tx
        → decode_cosmos e c k (list c fields ++ rest) ≡ ok (built c k op key sig, rest)
    unfolding decode_cosmos list
    decode_cosmos-list op raw key sig fields rest decodes same small =
        let h : Header = record { list = true; payload_length = length fields } in
        let size : length raw ≡ suc (length (c.encode_header h) + length fields) =
          ap length same ∙ omega (arith, length-append (c.encode_header h) fields) in
        let len = length (c.encode_header h) + length fields in
        let whole : length ((c.encode_header h ++ fields) ++ rest) ≡ len + length rest = omega (
          arith,
          length-append (c.encode_header h ++ fields) rest,
          length-append (c.encode_header h) fields,
        ) in
        let body : length (c.encode_header h ++ fields) ≡ len =
          length-append (c.encode_header h) fields in
        let decoded : decode_wire c (tx_type_const ∷ (c.encode_header h ++ fields))
            ≡ ok (op, key, sig) =
          rw (← same) decodes in
        let header : c.decode_header ((c.encode_header h ++ fields) ++ rest)
            ≡ some (h, fields ++ rest) =
          rw (append_assoc (c.encode_header h) fields rest) (
            laws.list_round (length fields) (fields ++ rest) (omega arith)
              (omega (arith, length-append fields rest))) in
        rw (
          header,
          le→leb len (max_raw_tx - 1) (omega arith),
          le→leb len (length ((c.encode_header h ++ fields) ++ rest)) (omega arith),
          take-append len (c.encode_header h ++ fields) rest body,
          drop-append len (c.encode_header h ++ fields) rest body,
          decoded,
          new-decoded c k raw op key sig decodes,
        )

    -- Under the laws of RLP, wire bytes that decode start with the Cosmos type, and the envelope
    -- decodes them to the transaction of their parts, with anything behind them left unread.
    pub typed_decode-decode_wire :
        (raw rest : Bytes) (op : Operation) (key sig : Bytes)
        → decode_wire c raw ≡ ok (op, key, sig)
        → (body : Bytes) × (raw ≡ tx_type_const ∷ body)
          × (typed_decode e c k tx_type_const (body ++ rest)
              ≡ ok (cosmos (built c k op key sig), rest))
    unfolding typed_decode encode_wire
    typed_decode-decode_wire raw rest op key sig h =
        let v = decode_wire-IsCanonical c raw h in
        let fields = wire_fields c op key sig in
        let same : raw ≡ tx_type_const ∷ list c fields = sym v.same in
        (list c fields, same, rw (decode_cosmos-list op raw key sig fields rest h same v.size))

    -- Under the laws of RLP, the wire bytes of a transaction whose caches agree start with the
    -- Cosmos type, and decode to the transaction with anything behind them left unread.
    pub typed_decode-raw :
        (t : CosmosSigned) (rest : Bytes)
        → IsSigned c k t
        → (body : Bytes) × (t.raw ≡ tx_type_const ∷ body)
          × (typed_decode e c k tx_type_const (body ++ rest) ≡ ok (cosmos t, rest))
    typed_decode-raw t rest s =
        let sig = signature_bytes c t in
        let (body, same, decodes) =
          typed_decode-decode_wire t.raw rest t.operation t.public_key sig s.decodes in
        let whole : built c k t.operation t.public_key sig ≡ t = ok-injective (
          sym (new-decoded c k t.raw t.operation t.public_key sig s.decodes)
          ∙ IsSigned-rebuilt c k t s) in
        (body, same, rw (← whole) decodes)

  -- What a successful decoding of the Cosmos branch has read.
  decode_cosmos-eq-ok :
      (buf : Bytes) (t : CosmosSigned) (rest : Bytes)
      → decode_cosmos e c k buf ≡ ok (t, rest)
      → (t.raw ++ rest ≡ tx_type_const ∷ buf) × (length t.raw ≤ max_raw_tx) × IsWithin t.operation
  unfolding decode_cosmos
  decode_cosmos-eq-ok buf t rest h =
      let (p, _, h₁) = >>=-eq-ok (or_err (c.decode_header buf) header_error) _ h in
      let len = length (c.encode_header p.0) + p.0.payload_length in
      let (_, h₂) =
        guard-eq-ok (p.0.list && leb len (max_raw_tx - 1) && leb len (length buf)) invalid_size _
          h₁ in
      let raw = tx_type_const ∷ take len buf in
      let (q, d, h₃) = >>=-eq-ok (map_err (decode_wire c raw) invalid_encoding) _ h₂ in
      let decodes = map_err-eq-ok (decode_wire c raw) invalid_encoding d in
      let v = decode_wire-IsCanonical c raw decodes in
      let (signed, n, h₄) = >>=-eq-ok (map_err (new c k q.0 q.1 q.2) invalid_encoding) _ h₃ in
      let same : built c k q.0 q.1 q.2 ≡ signed =
        ok-injective
          (sym (new-decoded c k raw q.0 q.1 q.2 decodes) ∙ map_err-eq-ok _ invalid_encoding n) in
      let pair : ◌≡◌ {A = CosmosSigned × Bytes} (signed, drop len buf) (t, rest) =
        ok-injective h₄ in
      let kept : built c k q.0 q.1 q.2 ≡ t = same ∙ ap (λ (x : CosmosSigned × Bytes). x.0) pair in
      let raw_same : t.raw ≡ raw = rw (← kept) v.same in
      let rest_same : drop len buf ≡ rest = ap (λ (x : CosmosSigned × Bytes). x.1) pair in
      (
        rw (raw_same, ← rest_same, take-append-drop len buf),
        rw raw_same v.size,
        rw (← kept) v.within,
      )

  cosmos-injective :
      (p : CosmosSigned × Bytes) (t : CosmosSigned) (rest : Bytes)
      → ◌≡◌ {A = Result DecodeError (CosmosEnvelope T × Bytes)}
          (ok (cosmos p.0, p.1))
          (ok (cosmos t, rest))
      → p ≡ (t, rest)
  cosmos-injective (u, r) t rest h = ground arith

  ethereum-ne :
      (p : T × Bytes) (t : CosmosSigned) (rest : Bytes)
      → ¬ (
          ◌≡◌ {A = Result DecodeError (CosmosEnvelope T × Bytes)}
            (ok (ethereum p.0, p.1))
            (ok (cosmos t, rest)))
  ethereum-ne p t rest h = ground arith

  -- Only the Cosmos type decodes to a Cosmos transaction, whose wire bytes are exactly those that
  -- were read, not longer than a transaction may be, and whose operation is within the limits.
  pub typed_decode-eq-ok :
      (ty : ℕ) (buf : Bytes) (t : CosmosSigned) (rest : Bytes)
      → typed_decode e c k ty buf ≡ ok (cosmos t, rest)
      → (ty ≡ tx_type_const)
        × (t.raw ++ rest ≡ ty ∷ buf)
        × (length t.raw ≤ max_raw_tx)
        × IsWithin t.operation
  unfolding typed_decode
  typed_decode-eq-ok ty buf t rest h = elim (Bool-cases (ty == tx_type_const)) [
    | inl same ↦
        let (p, d, done) = >>=-eq-ok (decode_cosmos e c k buf) _ (rw same at h) in
        let found = decode_cosmos-eq-ok buf t rest (d ∙ ap ok (cosmos-injective p t rest done)) in
        let is_cosmos : ty ≡ tx_type_const = (==_iff _ _).0 same in
        (is_cosmos, rw is_cosmos found.0, found.1, found.2)
    | inr other ↦
        let (p, _, done) = >>=-eq-ok (or_err (e.typed_decode ty buf) upstream) _ (rw other at h) in
        absurd (ethereum-ne p t rest done)
  ]
