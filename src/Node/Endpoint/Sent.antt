-- ===== src/Node/Endpoint/Sent.antt =====
-- src/main.rs and src/primitives/envelope.rs: what becomes of the bytes that the endpoint sends.
use mathlib.Core.List.{append-nil}
use reth_cosmos.Prelude.{ℕ, ◌≡◌, Option, [], ◌∷◌, Bytes, ok}
use reth_cosmos.Extern.Rlp.{Rlp, RlpLaws}
use reth_cosmos.Extern.Crypto.{Crypto}
use reth_cosmos.Auth.{tx_type_const}
use reth_cosmos.Auth.Limits.{IsWithin}
use reth_cosmos.Auth.Wire.{transaction_hash}
use reth_cosmos.Primitives.Signed.{CosmosSigned}
use reth_cosmos.Primitives.Signed.Cached.{built}
use reth_cosmos.Primitives.Envelope.{EthTx, cosmos, typed_decode, encode_2718, tx_hash}
use reth_cosmos.Primitives.Envelope.Decoding.{typed_decode-decode_wire}
use reth_cosmos.Node.Endpoint.{admit}
use reth_cosmos.Node.Endpoint.Admission.{admit-IsAdmitted}

module _ (c : Rlp) {Key Sig : Type 0} (k : Crypto Key Sig) {T AccessList Authorization : Type 0}
    (e : EthTx T AccessList Authorization) where
  -- The transaction that a text of bytes is.
  pub record IsTransaction (bytes : Bytes) (t : CosmosSigned) : Type 0 where
    pub body : Bytes
    pub typed : bytes ≡ tx_type_const ∷ body
    pub decodes : typed_decode e c k tx_type_const body ≡ ok (cosmos t, [])
    pub encodes : encode_2718 e (cosmos t) ≡ bytes
    pub hashed : tx_hash e (cosmos t) ≡ transaction_hash k bytes
    pub within : IsWithin t.operation

  -- Under the laws of RLP, the bytes that the endpoint sends are a transaction's: the envelope
  -- decodes them to a Cosmos transaction within the limits and leaves nothing unread, it encodes the
  -- transaction to the same bytes, and the transaction's hash is theirs.
  pub admit-IsTransaction :
      (laws : RlpLaws c) (parse : Bytes → Option Bytes) (pool_total : ℕ) (params : Option Bytes)
      {bytes : Bytes}
      → admit c parse pool_total params ≡ ok bytes
      → (t : CosmosSigned) × IsTransaction bytes t
  unfolding encode_2718 tx_hash
  admit-IsTransaction laws parse pool_total params {bytes} h =
      let a = admit-IsAdmitted c parse pool_total params h in
      let (body, typed, found) =
        typed_decode-decode_wire e c k laws bytes [] a.operation a.key a.sig a.decodes in
      (
        built c k a.operation a.key a.sig,
        record {
          body = body;
          typed = typed;
          decodes = rw (append-nil body) at found;
          encodes = a.canonical.same;
          hashed = rw a.canonical.same;
          within = a.canonical.within;
        },
      )
