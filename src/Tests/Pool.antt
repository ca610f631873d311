-- ===== src/Tests/Pool.antt =====
-- The properties of `Pool` with Ethereum transactions and sidecars that are numbers: transactions
-- from 100 on have blobs.
use reth_cosmos.Prelude.{
  ◌∷◌, ℕ, ◌≡◌, refl, ◌||◌, ◌==◌, true, none, some, [], Bytes, err, arith, leb, if◌then◌else◌,
}
use reth_cosmos.Primitives.Envelope.{EthTx, CosmosEnvelope, ethereum, encode_2718_len}
use reth_cosmos.Primitives.Signed.{recovery_error}
use reth_cosmos.Tests.Primitives.{toy_eth}
use reth_cosmos.Pool.{
  Recovered, no_sidecar, present, PoolTransaction, EthPool, from_pooled, from_parts, take_blob,
  try_from_eip4844, as_ethereum,
}
use reth_cosmos.Primitives.Envelope.Pooled.{from_pooled_tx}
use reth_cosmos.Pool.Shown.{into_consensus, pool_encoded_length, from_pooled-into_consensus}
use reth_cosmos.Pool.Sidecars.{EthPoolLaws, try_from_eip4844-take_blob}

-- The type of blob transactions is 3, and that of all others 0.
abbrev kind : ℕ → ℕ
kind t = if leb 100 t then 3 else 0

abbrev eth_numbers : EthTx ℕ Bytes Bytes
eth_numbers = record {
  view = λ t. toy_eth.view [];
  ty = kind;
  is_type = λ k. k == 0 || k == 3;
  size = λ t. t;
  tx_hash = λ t. t ∷ [];
  recover_signer = λ t. err recovery_error;
  recover_signer_unchecked = λ t. err recovery_error;
  recover_with_buf = λ t buf. (err recovery_error, buf);
  recover_unchecked_with_buf = λ t buf. (err recovery_error, buf);
  encode_2718_len = λ t. 7;
  encode_2718 = λ t. t ∷ [];
  typed_decode = λ k b. none;
  fallback_decode = λ b. none;
}

-- The pooled form has a sidecar, and is longer by it.
abbrev pooled_numbers : EthTx (ℕ × ℕ) Bytes Bytes
pooled_numbers = record {
  view = λ p. toy_eth.view [];
  ty = λ p. kind p.0;
  is_type = λ k. k == 0 || k == 3;
  size = λ p. p.0;
  tx_hash = λ p. p.0 ∷ [];
  recover_signer = λ p. err recovery_error;
  recover_signer_unchecked = λ p. err recovery_error;
  recover_with_buf = λ p buf. (err recovery_error, buf);
  recover_unchecked_with_buf = λ p buf. (err recovery_error, buf);
  encode_2718_len = λ p. 9;
  encode_2718 = λ p. p.0 ∷ [];
  typed_decode = λ k b. none;
  fallback_decode = λ b. none;
}

abbrev pool : EthPool ℕ (ℕ × ℕ) ℕ ℕ Bytes Bytes
pool = record {
  eth = eth_numbers;
  pooled = pooled_numbers;
  new = λ tx len. record {
    transaction = tx;
    cost = 0;
    encoded_length = len;
    blob_sidecar = no_sidecar;
  };
  from_pooled =
      λ r. (record { transaction = r.transaction.0; signer = r.signer }, present r.transaction.1);
  is_eip4844 = λ k. k == 3;
  into_pooled = λ t s. if leb 100 t then some (t, s) else none;
  validate = λ t. none;
}

into_has_blobs :
    (t s : ℕ) (p : ℕ × ℕ) → pool.into_pooled t s ≡ some p → pool.is_eip4844 (pool.eth.ty t) ≡ true
into_has_blobs t s p h = ground arith

into_split :
    (t s : ℕ) (p : ℕ × ℕ) (a : Bytes)
    → pool.into_pooled t s ≡ some p
    → pool.from_pooled (record { transaction = p; signer = a })
      ≡ (record { transaction = t; signer = a }, present s)
into_split t s p a h = ground arith

abbrev pool_laws : EthPoolLaws pool
pool_laws = record {
  keeps = λ tx len. refl;
  measures = λ tx len. refl;
  split = into_split;
  has_blobs = into_has_blobs;
}

abbrev blob_tx : PoolTransaction ℕ ℕ
blob_tx = record {
  transaction = record { transaction = ethereum 100; signer = [] };
  cost = 0;
  encoded_length = 9;
  blob_sidecar = present 5;
}

blob_readmitted : try_from_eip4844 pool blob_tx.transaction 5 ≡ some blob_tx
unfolding try_from_eip4844 from_pooled from_parts as_ethereum encode_2718_len
blob_readmitted = refl

try_from_eip4844-take_blob_example :
    (blob_tx.transaction ≡ blob_tx.transaction) × ((take_blob pool blob_tx).0 ≡ present 5)
try_from_eip4844-take_blob_example =
    try_from_eip4844-take_blob pool pool_laws blob_tx.transaction 5 blob_readmitted

abbrev without_blobs : ℕ × ℕ → ℕ
without_blobs p = p.0

abbrev pooled_tx : Recovered (CosmosEnvelope (ℕ × ℕ))
pooled_tx = record { transaction = ethereum (100, 5); signer = 1 ∷ [] }

from_pooled-into_consensus_example :
    (into_consensus (from_pooled pool pooled_tx)
      ≡ record { transaction = from_pooled_tx without_blobs (ethereum (100, 5)); signer = 1 ∷ [] })
    × (pool_encoded_length (from_pooled pool pooled_tx)
        ≡ encode_2718_len pool.pooled (ethereum (100, 5)))
from_pooled-into_consensus_example =
    from_pooled-into_consensus pool without_blobs (λ p a. refl) pool_laws pooled_tx
