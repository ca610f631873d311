-- ===== src/Primitives/Signed/Getters.antt =====
-- src/primitives/cosmos.rs: the getters of `CosmosSigned`.
use reth_cosmos.Prelude.{Bytes}
use reth_cosmos.Extern.Rlp.{Signature}
use reth_cosmos.Auth.{Operation}
use reth_cosmos.Primitives.Signed.{CosmosSigned}

unfoldable pub operation : CosmosSigned → Operation
operation t = t.operation

unfoldable pub public_key : CosmosSigned → Bytes
public_key t = t.public_key

unfoldable pub signature : CosmosSigned → Signature
signature t = t.signature

unfoldable pub hash : CosmosSigned → Bytes
hash t = t.hash

unfoldable pub raw : CosmosSigned → Bytes
raw t = t.raw
