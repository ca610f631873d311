-- ===== src/Tests/Engine.antt =====
-- The properties of `Payload.Engine` at a message with two requests.
use reth_cosmos.Prelude.{ℕ, ◌≡◌, refl, ltb, if◌then◌else◌, Option, none, some, ok, err}
use reth_cosmos.Payload.Engine.{
  PayloadOrAttributes, execution_payload, payload_attributes, EngineUpstream, check_if_any,
  validate_version_specific_fields,
}

abbrev requests_of : PayloadOrAttributes ℕ ℕ → Option ℕ
requests_of (execution_payload n) = some n
requests_of (payload_attributes n) = none

-- At most three requests are valid, and any fields.
abbrev engine : EngineUpstream ℕ ℕ ℕ ℕ ℕ ℕ ℕ ℕ ℕ
engine = record {
  ensure_well_formed_payload = λ chain d. ok d;
  into_new_payload_error = λ x. x;
  execution_requests = requests_of;
  validate_execution_requests = λ n. if ltb 3 n then err n else ok tt;
  validate_fields = λ chain version message. ok tt;
}

two_requests_pass :
    validate_version_specific_fields engine (record { inner = 1 }) 4 (execution_payload 2) ≡ ok tt
unfolding validate_version_specific_fields check_if_any
two_requests_pass = refl

too_many_requests :
    validate_version_specific_fields engine (record { inner = 1 }) 4 (execution_payload 4) ≡ err 4
unfolding validate_version_specific_fields check_if_any
too_many_requests = refl
