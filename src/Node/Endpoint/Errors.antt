-- ===== src/Node/Endpoint/Errors.antt =====
-- src/main.rs and crates/cosmos-auth/src/lib.rs: the errors that a client of the endpoint sees.
use reth_cosmos.Prelude.{
  ℕ, ◌≡◌, refl, sym, subst, ◌∙◌, Option, none, some, List, [], ◌∷◌, Bytes, bytes_eq, if◌then◌else◌,
}
use reth_cosmos.Extern.Json.{codes}
use reth_cosmos.Auth.{AuthError, encoding, limit, domain, public_key, sender_mismatch, signature}
use reth_cosmos.Node.Endpoint.{
  RpcError, capacity_reached, bad_params, invalid_type_or_size, pool_full, invalid_hex, send_error,
  unauthorized,
}

-- `AuthError`'s `Display`.
abbrev pub display : AuthError → Bytes
display encoding = codes "invalid or noncanonical transaction encoding"
display limit = codes "transaction exceeds protocol limits"
display domain = codes "wrong chain or genesis"
display public_key = codes "invalid compressed secp256k1 public key"
display sender_mismatch = codes "sender does not match public key"
display signature = codes "invalid or noncanonical Cosmos signature"

-- A code below zero: `negsuc n` is `- n - 1`.
pub data ℤ : Type 0 where
  pos negsuc : ℕ → ℤ

-- `ErrorObjectOwned`, without data.
pub record ErrorObject : Type 0 where
  pub code : ℤ
  pub message : Bytes

-- `rpc_error`, with the code -32000.
abbrev pub rpc_error : Bytes → ErrorObject
rpc_error message = record { code = negsuc 31999; message = message }

-- The object of an error. The parameters' own error and the text of a failed
-- `send_raw_transaction` are upstream's.
abbrev pub error_object : ErrorObject → Bytes → RpcError → ErrorObject
error_object params_error send_text capacity_reached =
    rpc_error (codes "authorization capacity reached")
error_object params_error send_text bad_params = params_error
error_object params_error send_text invalid_type_or_size =
    rpc_error (codes "invalid Cosmos transaction type or size")
error_object params_error send_text pool_full = rpc_error (codes "transaction pool is full")
error_object params_error send_text invalid_hex = rpc_error (codes "invalid transaction hex")
error_object params_error send_text send_error = rpc_error send_text
error_object params_error send_text (unauthorized e) = rpc_error (display e)

-- The errors that the endpoint raises itself.
abbrev pub own_errors : List RpcError
own_errors =
    capacity_reached
    ∷ invalid_type_or_size
    ∷ pool_full
    ∷ invalid_hex
    ∷ unauthorized encoding
    ∷ unauthorized limit
    ∷ unauthorized domain
    ∷ unauthorized public_key
    ∷ unauthorized sender_mismatch
    ∷ unauthorized signature
    ∷ []

abbrev pub IsOwn : RpcError → Type 0
IsOwn bad_params = ⊥
IsOwn send_error = ⊥
IsOwn e = Unit {0}

same_error : {e e' : RpcError} → ◌≡◌ {A = Option RpcError} (some e) (some e') → e ≡ e'
same_error h = cc

module _ (params_error : ErrorObject) (send_text : Bytes) where
  -- The first error of a list with the text.
  unfoldable find : Bytes → List RpcError → Option RpcError
  find text [] = none
  find text (e ∷ es) =
      if bytes_eq text (error_object params_error send_text e).message then some e else find text es

  find-own :
      (e : RpcError)
      → IsOwn e
      → find (error_object params_error send_text e).message own_errors ≡ some e
  unfolding find bytes_eq
  find-own capacity_reached h = refl
  find-own bad_params h = absurd h
  find-own invalid_type_or_size h = refl
  find-own pool_full h = refl
  find-own invalid_hex h = refl
  find-own send_error h = absurd h
  find-own (unauthorized encoding) h = refl
  find-own (unauthorized limit) h = refl
  find-own (unauthorized domain) h = refl
  find-own (unauthorized public_key) h = refl
  find-own (unauthorized sender_mismatch) h = refl
  find-own (unauthorized signature) h = refl

  -- A client can tell the refusals of the endpoint apart: two errors that the endpoint raises itself
  -- have the same object only if they are the same error.
  pub error_object-injective :
      (e e' : RpcError)
      → IsOwn e
      → IsOwn e'
      → error_object params_error send_text e ≡ error_object params_error send_text e'
      → e ≡ e'
  error_object-injective e e' own own' same =
      let found : find (error_object params_error send_text e').message own_errors ≡ some e =
        subst (λ (o : ErrorObject). find o.message own_errors ≡ some e) same (find-own e own) in
      same_error (sym found ∙ find-own e' own')
