-- ===== src/Node/Endpoint/Accepted.antt =====
-- src/main.rs: exactly which requests pass the checks of the endpoint.
use reth_cosmos.Prelude.{
  ℕ, ◌+◌, ◌*◌, ◌≤◌, ◌<◌, ◌≡◌, ◌↔◌, refl, sym, ap, ◌∙◌, true, Option, some, [], ◌∷◌, ◌++◌, Bytes,
  IsBytes, ok, length, le→leb, lt→ltb, ◌==◌, ==_iff, &&_split, arith, subst,
}
use reth_cosmos.Extern.Rlp.{Rlp, RlpLaws}
use reth_cosmos.Extern.Rlp.Ranges.{RlpRanges}
use reth_cosmos.Extern.Json.{codes}
use reth_cosmos.Auth.{Operation, max_raw_tx}
use reth_cosmos.Auth.Wire.{encode_wire}
use reth_cosmos.Auth.Wire.Exact.{IsWire, decode_wire_iff}
use reth_cosmos.Node.Endpoint.{starts_with, pool_limit, admit}
use reth_cosmos.Node.Endpoint.Admission.{admit-IsAdmitted}

starts_with-eq-true :
    (p text : Bytes) → starts_with p text ≡ true → (rest : Bytes) × (text ≡ p ++ rest)
unfolding starts_with
starts_with-eq-true [] text h = (text, refl)
starts_with-eq-true (a ∷ p) [] h = absurd (ground arith)
starts_with-eq-true (a ∷ p) (b ∷ text) h =
    let (same, more) = &&_split {a = a == b} h in
    let (rest, e) = starts_with-eq-true p text more in
    (rest, ap (λ x. x ∷ text) (sym ((==_iff a b).0 same)) ∙ ap (λ ys. a ∷ ys) e)

pub starts_with-append : (p rest : Bytes) → starts_with p (p ++ rest) ≡ true
unfolding starts_with
starts_with-append [] rest = refl
starts_with-append (a ∷ p) rest = rw ((==_iff a a).1 refl) (starts_with-append p rest)

module _ (c : Rlp) (parse : Bytes → Option Bytes) where
  -- A request that the endpoint is to send: the text of a transaction, which begins with the digits
  -- of the Cosmos type, is not too long, and finds room in the pool.
  pub record IsAdmissible (pool_total : ℕ) (params : Option Bytes) (bytes : Bytes) : Type 0 where
    pub digits : Bytes
    pub given : params ≡ some (codes "0x7e" ++ digits)
    pub parsed : parse (codes "0x7e" ++ digits) ≡ some bytes
    pub short : length (codes "0x7e" ++ digits) ≤ 2 + 2 * max_raw_tx
    pub room : pool_total < pool_limit
    pub operation : Operation
    pub key : Bytes
    pub sig : Bytes
    pub wire : IsWire operation key sig
    pub encoded : encode_wire c operation key sig ≡ bytes

  module _ (laws : RlpLaws c) (ranges : RlpRanges c)
      (parses_bytes : (text bytes : Bytes) → parse text ≡ some bytes → IsBytes bytes) where
    admissible :
        (pool_total : ℕ) (params : Option Bytes) {bytes : Bytes}
        → admit c parse pool_total params ≡ ok bytes
        → IsAdmissible pool_total params bytes
    admissible pool_total params {bytes} h =
        let a = admit-IsAdmitted c parse pool_total params h in
        let (digits, e) = starts_with-eq-true (codes "0x7e") a.raw a.typed in
        let (wire, encoded) =
          (decode_wire_iff c ranges laws bytes a.operation a.key a.sig
              (parses_bytes a.raw bytes a.parsed)).0
            a.decodes in
        record {
          digits = digits;
          given = a.given ∙ ap some e;
          parsed = ap parse (sym e) ∙ a.parsed;
          short = subst (λ (t : Bytes). length t ≤ 2 + 2 * max_raw_tx) e a.short;
          room = a.room;
          operation = a.operation;
          key = a.key;
          sig = a.sig;
          wire = wire;
          encoded = encoded;
        }

    admitted :
        (pool_total : ℕ) (params : Option Bytes) {bytes : Bytes}
        → IsAdmissible pool_total params bytes
        → admit c parse pool_total params ≡ ok bytes
    unfolding admit
    admitted pool_total params {bytes} a =
        let text : Bytes = codes "0x7e" ++ a.digits in
        let decodes =
          (decode_wire_iff c ranges laws bytes a.operation a.key a.sig
              (parses_bytes text bytes a.parsed)).1
            (a.wire, a.encoded) in
        rw
          (
            a.given,
            le→leb (length text) (2 + 2 * max_raw_tx) a.short,
            starts_with-append (codes "0x7e") a.digits,
            lt→ltb pool_total pool_limit a.room,
            a.parsed,
            decodes,
          )
          refl

    pub admit_iff :
        (pool_total : ℕ) (params : Option Bytes) (bytes : Bytes)
        → (admit c parse pool_total params ≡ ok bytes) ↔ IsAdmissible pool_total params bytes
    admit_iff pool_total params bytes =
        (λ h. admissible pool_total params h, λ a. admitted pool_total params a)
