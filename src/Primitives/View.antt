-- ===== src/Primitives/View.antt =====
-- src/primitives/cosmos.rs and envelope.rs: the trait `alloy_consensus::Transaction`, as a record of
-- its methods. `AccessList` and `Authorization` are the types of EIP-2930 and EIP-7702.
use reth_cosmos.Prelude.{ℕ, Bool, true, false, Option, none, some, Bytes, List}
use reth_cosmos.Primitives.Signed.{CosmosSigned}

-- `TxKind`.
pub data TxKind : Type 0 where
  create : TxKind
  call : Bytes → TxKind

pub record TxView (AccessList Authorization : Type 0) : Type 0 where
  pub chain_id : Option ℕ
  pub nonce : ℕ
  pub gas_limit : ℕ
  pub gas_price : Option ℕ
  pub max_fee_per_gas : ℕ
  pub max_priority_fee_per_gas : Option ℕ
  pub max_fee_per_blob_gas : Option ℕ
  pub priority_fee_or_price : ℕ
  pub effective_gas_price : Option ℕ → ℕ
  pub is_dynamic_fee : Bool
  pub kind : TxKind
  pub is_create : Bool
  pub value : ℕ
  pub input : Bytes
  pub access_list : Option AccessList
  pub blob_versioned_hashes : Option (List Bytes)
  pub authorization_list : Option (List Authorization)

-- `impl Transaction for CosmosSigned`. The first argument is
-- `alloy_eips::eip1559::calc_effective_gas_price`.
unfoldable pub cosmos_view :
    {AccessList Authorization : Type 0}
    → (ℕ → ℕ → Option ℕ → ℕ)
    → CosmosSigned
    → TxView AccessList Authorization
cosmos_view calc t = record {
  chain_id = some t.operation.chain_id;
  nonce = t.operation.nonce;
  gas_limit = t.operation.gas_limit;
  gas_price = none;
  max_fee_per_gas = t.operation.max_fee_per_gas;
  max_priority_fee_per_gas = some t.operation.max_priority_fee_per_gas;
  max_fee_per_blob_gas = none;
  priority_fee_or_price = t.operation.max_priority_fee_per_gas;
  effective_gas_price =
      λ base_fee. calc t.operation.max_fee_per_gas t.operation.max_priority_fee_per_gas base_fee;
  is_dynamic_fee = true;
  kind = call t.operation.to;
  is_create = false;
  value = t.operation.value;
  input = t.operation.input;
  access_list = none;
  blob_versioned_hashes = none;
  authorization_list = none;
}
