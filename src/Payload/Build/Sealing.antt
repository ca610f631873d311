-- ===== src/Payload/Build/Sealing.antt =====
-- src/payload/builder.rs: which state root a block is sealed with, and which requests its payload has.
use reth_cosmos.Prelude.{◌≡◌, refl, Bool, true, false, Option, none, some, ok}
use reth_cosmos.Payload.Build.{Context, Sealed, Services, seal_by, then_some}

-- The requests of the execution, from Prague on.
pub data HasRequests {R : Type 0} (is_prague : Bool) (r : R) : Option R → Type 0 where
  before_prague : is_prague ≡ false → HasRequests is_prague r none
  from_prague : is_prague ≡ true → HasRequests is_prague r (some r)

pub then_some-HasRequests :
    {R : Type 0} (is_prague : Bool) (r : R) → HasRequests is_prague r (then_some is_prague r)
unfolding then_some
then_some-HasRequests true r = from_prague refl
then_some-HasRequests false r = before_prague refl

module _ {X Block Rq R Rd E : Type 0} (v : Services X Block Rq R Rd E) where
  -- A block is sealed with the parent's state root if the root is skipped, and otherwise with the
  -- root of the job, without its hook, or with one that is computed if there is no job or it failed.
  pub data IsSealedBy (skip : Bool) (parent_root : R) (block : X) (sealed : Sealed Block Rq Rd)
      : Option (Option R) → Type 0 where
    skipped :
        (job : Option (Option R))
        → skip ≡ true
        → v.finish block (some parent_root) ≡ ok sealed
        → IsSealedBy skip parent_root block sealed job
    computed :
        skip ≡ false
        → v.finish block none ≡ ok sealed
        → IsSealedBy skip parent_root block sealed none
    by_job :
        (outcome : Option R)
        → skip ≡ false
        → v.finish (v.clear_state_hook block) outcome ≡ ok sealed
        → IsSealedBy skip parent_root block sealed (some outcome)

  pub seal_by-IsSealedBy :
      (g : Context R) (skip : Bool) (job : Option (Option R)) (block : X)
      {sealed : Sealed Block Rq Rd}
      → seal_by v g skip job block ≡ ok sealed
      → IsSealedBy skip g.parent_root block sealed job
  unfolding seal_by
  seal_by-IsSealedBy g true job block h = skipped job refl h
  seal_by-IsSealedBy g false none block h = computed refl h
  seal_by-IsSealedBy g false (some outcome) block h = by_job outcome refl h
