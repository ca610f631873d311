-- ===== src/Tests/Codec/Digits.antt =====
-- The digits of a number to the base 256, least first, and reversal.
use reth_cosmos.Prelude.{
  ℕ, zero, suc, ◌+◌, ◌*◌, ◌/◌, ◌%◌, ◌^◌, ◌≤◌, ◌<◌, ◌≡◌, refl, ◌∙◌, ap, [], ◌∷◌, ◌++◌, arith, Bytes,
  IsBytes, All-append, length, length-append, ◌==◌, if◌then◌else◌,
}
use native.Mathlib.Nat.{pow-suc}

unfoldable pub rev : Bytes → Bytes
rev [] = []
rev (x ∷ xs) = rev xs ++ x ∷ []

rev-snoc : (xs : Bytes) (x : ℕ) → rev (xs ++ x ∷ []) ≡ x ∷ rev xs
unfolding rev
rev-snoc [] x = refl
rev-snoc (y ∷ ys) x = rw (rev-snoc ys x)

pub rev-rev : (xs : Bytes) → rev (rev xs) ≡ xs
unfolding rev
rev-rev [] = refl
rev-rev (x ∷ xs) = rev-snoc (rev xs) x ∙ ap (λ (l : Bytes). x ∷ l) (rev-rev xs)

pub length-rev : (xs : Bytes) → length (rev xs) ≡ length xs
unfolding rev
length-rev [] = refl
length-rev (x ∷ xs) = omega (arith, length-append (rev xs) (x ∷ []), length-rev xs)

pub rev-IsBytes : (xs : Bytes) → IsBytes xs → IsBytes (rev xs)
unfolding rev
rev-IsBytes [] h = tt
rev-IsBytes (x ∷ xs) h = All-append (λ b. b < 256) (rev xs) (x ∷ []) (rev-IsBytes xs h.1) (h.0, tt)

unfoldable pub le_digits : ℕ → ℕ → Bytes
le_digits zero n = []
le_digits (suc f) n = let rest = le_digits f (n / 256) in if n == 0 then [] else n % 256 ∷ rest

unfoldable pub le_pad : ℕ → ℕ → Bytes
le_pad zero n = []
le_pad (suc f) n = n % 256 ∷ le_pad f (n / 256)

unfoldable pub from_le : Bytes → ℕ
from_le [] = 0
from_le (x ∷ xs) = x + 256 * from_le xs

pub from_le-le_digits : (f n : ℕ) → n < 256 ^ f → from_le (le_digits f n) ≡ n
unfolding from_le le_digits
from_le-le_digits zero n h = omega arith
from_le-le_digits (suc f) n h = ground (arith, pow-suc 256 f, from_le-le_digits f (n / 256))

pub le_digits-IsBytes : (f n : ℕ) → IsBytes (le_digits f n)
unfolding le_digits
le_digits-IsBytes zero n = tt
le_digits-IsBytes (suc f) n = ground (arith, le_digits-IsBytes f (n / 256))

pub length-le_digits : (f w n : ℕ) → n < 256 ^ w → length (le_digits f n) ≤ w
unfolding le_digits
length-le_digits zero w n h = omega arith
length-le_digits (suc f) zero n h = ground arith
length-le_digits (suc f) (suc w) n h = ground (arith, pow-suc 256 w, length-le_digits f w (n / 256))

pub length-le_digits_fuel : (f n : ℕ) → length (le_digits f n) ≤ f
unfolding le_digits
length-le_digits_fuel zero n = omega arith
length-le_digits_fuel (suc f) n = ground (arith, length-le_digits_fuel f (n / 256))

pub le_pad-from_le : (b : Bytes) → IsBytes b → le_pad (length b) (from_le b) ≡ b
unfolding le_pad from_le
le_pad-from_le [] h = refl
le_pad-from_le (x ∷ xs) h =
    let q : (x + 256 * from_le xs) / 256 ≡ from_le xs = omega (arith, h.0) in
    let r : (x + 256 * from_le xs) % 256 ≡ x = omega (arith, h.0) in
    rw (q, r, le_pad-from_le xs h.1)

pub length-le_pad : (f n : ℕ) → length (le_pad f n) ≡ f
unfolding le_pad
length-le_pad zero n = refl
length-le_pad (suc f) n = ap suc (length-le_pad f (n / 256))
