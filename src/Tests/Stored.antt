-- ===== src/Tests/Stored.antt =====
-- What the database holds of a transaction, at the authorized transaction.
use reth_cosmos.Prelude.{ℕ, refl, Bool, false, ◌==◌, some, [], Bytes}
use reth_cosmos.Primitives.Envelope.{cosmos}
use reth_cosmos.Primitives.Storage.{EthCompact}
use reth_cosmos.Primitives.Storage.Parts.{EthCompactLaws, IsRead, stored-IsRead}
use reth_cosmos.Tests.Codec.{codec}
use reth_cosmos.Tests.Codec.Laws.{codec_laws}
use reth_cosmos.Tests.Toy.{toy}
use reth_cosmos.Tests.Fixture.{fixture_key-IsBytes}
use reth_cosmos.Tests.Accounts.{toy_operation-IsOperation, toy_signed, toy_signed-IsSigned}
use reth_cosmos.Tests.Primitives.{toy_eth}

-- The only Ethereum type is 0.
abbrev legacy : ℕ → Bool
legacy n = n == 0

-- An Ethereum transaction is its bytes, which take all that stands in the buffer.
abbrev compact_eth : EthCompact Bytes
compact_eth = record {
  to_tx_compact = λ b. b;
  from_tx_compact = λ b k g. some (b, []);
  signature = λ b. record { r = 0; s = 0; v = false };
}

compact_eth_laws : EthCompactLaws toy_eth legacy compact_eth
compact_eth_laws = record { known = λ t. refl; other = refl; reads = λ t. ([], refl) }

stored-IsRead_example : IsRead toy_eth legacy compact_eth codec toy (cosmos toy_signed)
stored-IsRead_example =
    stored-IsRead toy_eth legacy compact_eth codec toy codec_laws compact_eth_laws
      (cosmos toy_signed) (toy_signed-IsSigned, toy_operation-IsOperation, fixture_key-IsBytes)
