-- ===== src/Node/Endpoint/Admission.antt =====
-- src/main.rs: which requests are sent to the pool.
use reth_cosmos.Prelude.{
  ℕ, ◌+◌, ◌*◌, ◌≤◌, ◌<◌, ◌≡◌, true, ◌&&◌, Option, some, Bytes, Result, ok, err, or_err,
  or_err-eq-ok, >>=-eq-ok, guard-eq-ok, ok-injective, length, leb, leb→le, subst, ltb, ltb→lt,
  &&_split,
}
use reth_cosmos.Extern.Rlp.{Rlp}
use reth_cosmos.Extern.Json.{codes}
use reth_cosmos.Auth.{Operation, AuthError, max_raw_tx}
use reth_cosmos.Auth.Wire.{decode_wire}
use reth_cosmos.Auth.Wire.Canonical.{IsCanonical, decode_wire-IsCanonical}
use reth_cosmos.Node.Endpoint.{
  bad_params, invalid_type_or_size, pool_full, invalid_hex, auth_err, starts_with, pool_limit,
  admit,
}

module _ (c : Rlp) (parse : Bytes → Option Bytes) where
  auth_err-eq-ok : {A : Type 0} (r : Result AuthError A) {a : A} → auth_err r ≡ ok a → r ≡ ok a
  auth_err-eq-ok (ok x) h = cc
  auth_err-eq-ok (err e) h = cc

  -- What is known of a request that is sent.
  pub record IsAdmitted (pool_total : ℕ) (params : Option Bytes) (bytes : Bytes) : Type 0 where
    pub raw : Bytes
    pub operation : Operation
    pub key : Bytes
    pub sig : Bytes
    pub given : params ≡ some raw
    pub parsed : parse raw ≡ some bytes
    pub typed : starts_with (codes "0x7e") raw ≡ true
    pub short : length raw ≤ 2 + 2 * max_raw_tx
    pub room : pool_total < pool_limit
    pub decodes : decode_wire c bytes ≡ ok (operation, key, sig)
    pub canonical : IsCanonical c bytes operation key sig

  -- Only bytes that are the canonical encoding of an operation within the limits are sent, which
  -- were parsed from the given text, with room in the pool and the text not longer than the
  -- protocol allows.
  pub admit-IsAdmitted :
      (pool_total : ℕ) (params : Option Bytes) {bytes : Bytes}
      → admit c parse pool_total params ≡ ok bytes
      → IsAdmitted pool_total params bytes
  unfolding admit
  admit-IsAdmitted pool_total params {bytes} h =
      let (raw, p, h₁) = >>=-eq-ok (or_err params bad_params) _ h in
      let (g, h₂) =
        guard-eq-ok (leb (length raw) (2 + 2 * max_raw_tx) && starts_with (codes "0x7e") raw)
          invalid_type_or_size _ h₁ in
      let (room, h₃) = guard-eq-ok (ltb pool_total pool_limit) pool_full _ h₂ in
      let (b, q, h₄) = >>=-eq-ok (or_err (parse raw) invalid_hex) _ h₃ in
      let (d, r, done) = >>=-eq-ok (auth_err (decode_wire c b)) (λ _. ok b) h₄ in
      subst (IsAdmitted pool_total params) (ok-injective done) (record {
        raw = raw;
        operation = d.0;
        key = d.1;
        sig = d.2;
        given = or_err-eq-ok params _ p;
        parsed = or_err-eq-ok (parse raw) _ q;
        typed = (&&_split {a = leb (length raw) (2 + 2 * max_raw_tx)} g).1;
        short = leb→le _ _ (&&_split g).0;
        room = ltb→lt _ _ room;
        decodes = auth_err-eq-ok (decode_wire c b) r;
        canonical = decode_wire-IsCanonical c b (auth_err-eq-ok (decode_wire c b) r);
      })
