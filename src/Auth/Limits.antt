-- ===== src/Auth/Limits.antt =====
-- Operation::validate_limits: which operations are within the limits of the protocol.
use reth_cosmos.Prelude.{◌≤◌, ◌≡◌, ◌≢◌, ◌↔◌, ok, err, arith, length}
use reth_cosmos.Auth.{Operation, max_calldata, max_gas, u64_max, validate_limits, limit}

-- The limits, as the README and PROTOCOL.md state them.
pub record IsWithin (op : Operation) : Type 0 where
  pub input_fits : length op.input ≤ max_calldata
  pub gas_below : op.gas_limit ≤ max_gas
  pub gas_above : 21_000 ≤ op.gas_limit
  pub nonce_ne : op.nonce ≢ u64_max
  pub fees_ordered : op.max_priority_fee_per_gas ≤ op.max_fee_per_gas

-- The check accepts an operation exactly when it is within the limits.
pub validate_limits_iff : (op : Operation) → (validate_limits op ≡ ok tt) ↔ IsWithin op
unfolding validate_limits
validate_limits_iff op = (λ h. ground arith, λ w. ground arith)

-- An operation beyond the limits is refused by `Limit`, and by no other error.
pub validate_limits_err : (op : Operation) → ¬ IsWithin op → validate_limits op ≡ err limit
unfolding validate_limits
validate_limits_err op h = ground (arith, λ (w : IsWithin op). h w)
