-- ===== src/Prelude/Panics.antt =====
-- Code that may panic: `none` is a panic, or for a few functions any error.
use mathlib.Core.Path.{◌≡◌, refl}
use mathlib.Core.Bool.{Bool, true, false}
use mathlib.Core.Option.{Option, none, some}
use reth_cosmos.Prelude.Results.{Result, ok, err}

infixl 5 ◌>>=◌ ◌>>◌
abbrev pub ◌>>=◌ : {A B : Type 0} → Option A → (A → Option B) → Option B
none >>= f = none
some a >>= f = f a

abbrev pub ◌>>◌ : {B : Type 0} → Option (Unit {0}) → Option B → Option B
m >> k = m >>= λ _. k

-- `assert!(b)`.
abbrev pub assert : Bool → Option (Unit {0})
assert true = some tt
assert false = none

-- `.expect(..)` of a result.
abbrev pub expect : {E A : Type 0} → Result E A → Option A
expect (ok a) = some a
expect (err e) = none

pub >>=-eq-some :
    {A B : Type 0} (before : Option A) (after : A → Option B) {b : B}
    → (before >>= after) ≡ some b
    → (a : A) × (before ≡ some a) × (after a ≡ some b)
>>=-eq-some none after h = cc
>>=-eq-some (some a) after h = (a, refl, h)

pub expect-eq-some : {E A : Type 0} (r : Result E A) {a : A} → expect r ≡ some a → r ≡ ok a
expect-eq-some (ok x) h = cc
expect-eq-some (err e) h = cc
