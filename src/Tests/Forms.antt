-- ===== src/Tests/Forms.antt =====
-- The forms of a payload without blobs for the versions of the Engine API.
use reth_cosmos.Prelude.{ℕ, ◌≡◌, refl, false, none, some, List, [], ◌∷◌, Bytes, ok}
use reth_cosmos.Payload.Built.{
  BlobSidecars, empty, CosmosBuiltPayload, EnvelopeV4, EnvelopeV5, Forms, blobs_v1, blobs_v2,
  try_into_v3, try_into_v4, try_into_v5, try_into_v6, or_none,
}

-- The Engine API's forms, as the parts that they are made of.
abbrev forms : Forms ℕ ℕ ℕ Bytes ℕ (ℕ × Bytes) (List ℕ) (List ℕ) ℕ ℕ
forms = record {
  hash = λ b. b ∷ [];
  payload_v3 = λ h b. b;
  payload_v4 = λ h b bal. (b, bal);
  empty_v1 = [];
  bundle_v1 = λ s. s;
  empty_v2 = [];
  bundle_v2 = λ s. s;
  no_requests = [];
  with_extras = λ h b bal. (b, 0);
  parent_beacon_block_root = λ b. none;
  versioned_hashes = λ b. [];
  sidecar_v4 = λ root hashes r. 1;
}

abbrev no_blobs : CosmosBuiltPayload ℕ (BlobSidecars ℕ ℕ) Bytes
no_blobs = record {
  block = 2;
  fees = 102000;
  sidecars = empty;
  requests = some (1 ∷ []);
  block_access_list = some (9 ∷ []);
}

abbrev version_4 : EnvelopeV4 ℕ (List ℕ) Bytes
version_4 = record {
  execution_requests = 1 ∷ [];
  envelope_inner = record {
    execution_payload = 2;
    block_value = 102000;
    should_override_builder = false;
    blobs_bundle = [];
  };
}

abbrev version_5 : EnvelopeV5 ℕ (List ℕ) Bytes
version_5 = record {
  execution_payload = 2;
  block_value = 102000;
  should_override_builder = false;
  blobs_bundle = [];
  execution_requests = 1 ∷ [];
}

abbrev version_6 : EnvelopeV5 (ℕ × Bytes) (List ℕ) Bytes
version_6 = record {
  execution_payload = (2, 9 ∷ []);
  block_value = 102000;
  should_override_builder = false;
  blobs_bundle = [];
  execution_requests = 1 ∷ [];
}

in_version_4 : try_into_v4 forms no_blobs ≡ ok version_4
unfolding try_into_v4 try_into_v3 blobs_v1 or_none
in_version_4 = refl

in_version_5 : try_into_v5 forms no_blobs ≡ ok version_5
unfolding try_into_v5 blobs_v2 or_none
in_version_5 = refl

in_version_6 : try_into_v6 forms no_blobs ≡ ok version_6
unfolding try_into_v6 blobs_v2 or_none
in_version_6 = refl
