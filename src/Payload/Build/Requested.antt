-- ===== src/Payload/Build/Requested.antt =====
-- src/payload/builder.rs: the block that is opened is the one that was requested, stated without the
-- definitions of the builder.
use reth_cosmos.Prelude.{
  ℕ, ◌%◌, ◌^◌, ◌≡◌, refl, Option, none, some, Result, ok, err, min, max, subst, >>=-eq-ok, arith,
}
use reth_cosmos.Payload.Builder.{Limits, max_blobs}
use reth_cosmos.Payload.Build.{Context, limits_of, or_zero}
use reth_cosmos.Payload.Build.Opening.{
  BuilderConfig, BuildArguments, Forks, Openers, map_some, or_other, with_cache, with_hook,
  next_attributes, open_builder, context_of, best_of,
}

-- A value that is changed if the option is there.
pub data IsChanged {A B : Type 0} (change : A → B → B) (before : B) : Option A → B → Type 0 where
  without : IsChanged change before none before
  by : (a : A) → IsChanged change before (some a) (change a before)

-- An option whose value is converted.
pub data IsConverted {A B : Type 0} (convert : A → B) : Option A → Option B → Type 0 where
  nothing : IsConverted convert none none
  value : (a : A) → IsConverted convert (some a) (some (convert a))

-- The limit on blobs, from the builder's setting and the fork's: at least one blob if it is set.
pub data IsBlobLimit : Option ℕ → Option ℕ → ℕ → Type 0 where
  no_limits : IsBlobLimit none none 0
  of_fork : (n : ℕ) → IsBlobLimit none (some n) n
  at_least_one : (m : ℕ) → IsBlobLimit (some m) none 1
  of_both : (m n : ℕ) → IsBlobLimit (some m) (some n) (max (min m n) 1)

cached-IsChanged :
    {C St : Type 0} (add : C → St → St) (cache : Option C) (state : St)
    → IsChanged add state cache (with_cache add cache state)
unfolding with_cache
cached-IsChanged add none state = without
cached-IsChanged add (some c) state = by c

hooked-IsChanged :
    {J X : Type 0} (set : X → X) (job : Option J) (x : X)
    → IsChanged (λ (j : J). set) x job (with_hook set job x)
unfolding with_hook
hooked-IsChanged set none x = without
hooked-IsChanged set (some j) x = by j

map_some-IsConverted : {A B : Type 0} (h : A → B) (o : Option A) → IsConverted h o (map_some h o)
unfolding map_some
map_some-IsConverted h none = nothing
map_some-IsConverted h (some a) = value a

length-IsChanged :
    {W : Type 0} (size : W → ℕ) (ws : Option W)
    → IsChanged (λ w (n : ℕ). size w) 0 ws (or_zero (map_some size ws))
unfolding or_zero map_some
length-IsChanged size none = without
length-IsChanged size (some ws) = by ws

max_blobs-IsBlobLimit :
    (user protocol : Option ℕ) → IsBlobLimit user protocol (max_blobs user (or_zero protocol))
unfolding max_blobs or_zero
max_blobs-IsBlobLimit none none = no_limits
max_blobs-IsBlobLimit none (some n) = of_fork n
max_blobs-IsBlobLimit (some m) none =
    subst (IsBlobLimit (some m) none) (omega arith) (at_least_one m)
max_blobs-IsBlobLimit (some m) (some n) = of_both m n

or_other-eq-ok :
    {A D E : Type 0} (other : D → E) (r : Result D A) {a : A} → or_other other r ≡ ok a → r ≡ ok a
unfolding or_other
or_other-eq-ok other (ok x) h = cc
or_other-eq-ok other (err d) h = cc

module _ {W R C Rd Payload St Db X D E : Type 0} (config : BuilderConfig)
    (args : BuildArguments W R C Rd Payload) (f : Forks) (w : Openers W R C Rd St Db X D E) where
  -- The block is opened on the parent's state, behind the execution cache if there is one and the
  -- cached reads, with the access list from Amsterdam on, for the requested attributes.
  pub record IsOpened (x : X) : Type 0 where
    pub parent_state : St
    pub found : w.state_by_block_hash args.parent_header.hash ≡ ok parent_state
    pub state : St
    pub cached : IsChanged w.with_execution_cache parent_state args.execution_cache state
    pub opens :
        w.builder_for_next_block
          (w.database args.cached_reads state (f.is_amsterdam args.attributes.timestamp))
          args.parent_header
          (record {
            timestamp = args.attributes.timestamp;
            suggested_fee_recipient = args.attributes.suggested_fee_recipient;
            prev_randao = args.attributes.prev_randao;
            gas_limit =
                config.gas_limit_with_target args.parent_header.gas_limit
                  args.attributes.target_gas_limit;
            parent_beacon_block_root = args.attributes.parent_beacon_block_root;
            withdrawals = args.attributes.withdrawals;
            extra_data = config.extra_data;
            slot_number = args.attributes.slot_number;
          })
        ≡ ok x

  -- The loop's limits are those of the block, of the forks at the requested timestamp, and of the
  -- builder's settings.
  pub record IsLimited (l : Limits) (x : X) : Type 0 where
    pub amsterdam : l.is_amsterdam ≡ f.is_amsterdam args.attributes.timestamp
    pub osaka : l.is_osaka ≡ f.is_osaka args.attributes.timestamp
    pub block_gas : l.block_gas_limit ≡ w.block_gas_limit x
    pub tx_gas : l.tx_gas_limit_cap ≡ w.tx_gas_limit_cap x
    pub base : l.base_fee ≡ w.base_fee x
    pub blobs :
        IsBlobLimit config.max_blobs_per_block
          (f.max_blob_count args.attributes.timestamp)
          l.max_blob_count
    pub withdrawals :
        IsChanged
          (λ ws (n : ℕ). w.withdrawals_length ws)
          0
          args.attributes.withdrawals
          l.withdrawals_rlp_length
    pub block_size : l.max_rlp_block_size ≡ w.max_rlp_block_size

  -- What the code behind the loop reads is of the request, too.
  pub record IsSealedAs (g : Context R) : Type 0 where
    pub osaka : g.is_osaka ≡ f.is_osaka args.attributes.timestamp
    pub prague : g.is_prague ≡ f.is_prague args.attributes.timestamp
    pub block_size : g.max_rlp_block_size ≡ w.max_rlp_block_size
    pub skips : g.skip_state_root ≡ config.skip_state_root
    pub parent_root : g.parent_root ≡ args.parent_header.root

  -- The pool's transactions are asked for at the block's fees, the blobs' as a 64-bit word.
  pub record IsOffered {B : Type 0} (best_txs : ℕ → Option ℕ → B) (x : X) (best : B) : Type 0 where
    pub blob_fee : Option ℕ
    pub of_block : IsConverted (λ n. n % 2 ^ 64) (w.blob_gasprice x) blob_fee
    pub offered : best ≡ best_txs (w.base_fee x) blob_fee

  -- What the build starts from is what was requested.
  pub record IsRequested {B : Type 0} (best_txs : ℕ → Option ℕ → B) (x : X) : Type 0 where
    pub opened : IsOpened x
    pub limited : IsLimited (limits_of (context_of config args f w x)) x
    pub sealed_as : IsSealedAs (context_of config args f w x)
    pub offered : IsOffered best_txs x (best_of config args f w best_txs x)
    pub hooked :
        IsChanged
          (λ (job : Option R). w.set_state_hook)
          x
          args.state_root_handle
          (with_hook w.set_state_hook args.state_root_handle x)

  open_builder-IsOpened : (x : X) → open_builder config args f w ≡ ok x → IsOpened x
  unfolding open_builder next_attributes
  open_builder-IsOpened x h =
      let (state, found, h₁) = >>=-eq-ok (w.state_by_block_hash args.parent_header.hash) _ h in
      record {
        parent_state = state;
        found = found;
        state = with_cache w.with_execution_cache args.execution_cache state;
        cached = cached-IsChanged w.with_execution_cache args.execution_cache state;
        opens = or_other-eq-ok w.other _ h₁;
      }

  context-IsLimited : (x : X) → IsLimited (limits_of (context_of config args f w x)) x
  unfolding limits_of context_of
  context-IsLimited x = record {
    amsterdam = refl;
    osaka = refl;
    block_gas = refl;
    tx_gas = refl;
    base = refl;
    blobs =
        max_blobs-IsBlobLimit config.max_blobs_per_block
          (f.max_blob_count args.attributes.timestamp);
    withdrawals = length-IsChanged w.withdrawals_length args.attributes.withdrawals;
    block_size = refl;
  }

  context-IsSealedAs : (x : X) → IsSealedAs (context_of config args f w x)
  unfolding context_of
  context-IsSealedAs x = record {
    osaka = refl;
    prague = refl;
    block_size = refl;
    skips = refl;
    parent_root = refl;
  }

  best-IsOffered :
      {B : Type 0} (best_txs : ℕ → Option ℕ → B) (x : X)
      → IsOffered best_txs x (best_of config args f w best_txs x)
  unfolding best_of
  best-IsOffered best_txs x = record {
    blob_fee = map_some (λ n. n % 2 ^ 64) (w.blob_gasprice x);
    of_block = map_some-IsConverted (λ n. n % 2 ^ 64) (w.blob_gasprice x);
    offered = refl;
  }

  -- A block that is opened is the requested one.
  pub open_builder-IsRequested :
      {B : Type 0} (best_txs : ℕ → Option ℕ → B) (x : X)
      → open_builder config args f w ≡ ok x
      → IsRequested best_txs x
  open_builder-IsRequested best_txs x h = record {
    opened = open_builder-IsOpened x h;
    limited = context-IsLimited x;
    sealed_as = context-IsSealedAs x;
    offered = best-IsOffered best_txs x;
    hooked = hooked-IsChanged w.set_state_hook args.state_root_handle x;
  }
