-- ===== src/Base/Bits.antt =====
-- Masks of low bits as remainders, and facts over a small range by evaluation.
use Prim.Native.Nat.{
  ℕ, zero, suc, ◌+◌, ◌*◌, ◌/◌, ◌%◌, ◌≤◌, ◌<◌, min, bit_and, digits, bit_and-bitwise,
}
use mathlib.Core.Path.{◌≡◌, refl}
use mathlib.Core.Bool.{Bool, true, false}
use native.Mathlib.Omega.{arith}
use capemon.Base.Tests.{◌==◌, ==_iff, if◌then◌else◌}

module _ (p : ℕ → Bool) where
  -- Every number below the bound passes the test.
  unfoldable pub passes_below : ℕ → Bool
  passes_below zero = true
  passes_below (suc n) = if p n then passes_below n else false

  pub passes_below_sound : (n x : ℕ) → passes_below n ≡ true → x < n → p x ≡ true
  unfolding passes_below
  passes_below_sound zero x table h = absurd (omega arith)
  passes_below_sound (suc n) x table h = ground (arith, passes_below_sound n x)

-- Two functions that agree in a table agree below its bound.
pub agree_below :
    (f g : ℕ → ℕ) (n : ℕ) → passes_below (λ x. f x == g x) n ≡ true → (x : ℕ) → x < n → f x ≡ g x
agree_below f g n table x h = (==_iff _ _).0 (passes_below_sound (λ y. f y == g y) n x table h)

-- The number whose `k` binary digits are all ones.
abbrev ones : ℕ → ℕ
ones zero = 0
ones (suc k) = suc (ones k * 2)

-- The number of the `k` lowest binary digits.
abbrev low : ℕ → ℕ → ℕ
low zero a = 0
low (suc k) a = low k (a / 2) * 2 + a % 2

low-zero : (k : ℕ) → low k 0 ≡ 0
low-zero zero = refl
low-zero (suc k) = omega (arith, low-zero k)

-- The recursion over the digits of the number, against a mask of ones.
digits-ones : (k n a : ℕ) → a ≤ n → digits (λ y. zero) min n a (ones k) ≡ low k a
digits-ones k zero zero h = omega (arith, low-zero k)
digits-ones k zero (suc a) h = absurd (omega arith)
digits-ones k (suc n) zero h = omega (arith, low-zero k)
digits-ones zero (suc n) (suc a) h = omega (arith, digits-ones 0 n (suc a / 2) (omega arith))
digits-ones (suc k) (suc n) (suc a) h =
    let halved : suc (ones k * 2) / 2 ≡ ones k = omega arith in
    rw halved (omega (arith, digits-ones k n (suc a / 2) (omega arith)))

bit_and-ones : (k a : ℕ) → bit_and a (ones k) ≡ low k a
bit_and-ones k a = rw (bit_and-bitwise a (ones k)) (digits-ones k a a (omega arith))

-- The masks `0xF`, `0x1F`, `0x3F` and `0x7F`.
pub bit_and_15 : (a : ℕ) → bit_and a 15 ≡ a % 16
bit_and_15 a = omega (arith, bit_and-ones 4 a)

pub bit_and_31 : (a : ℕ) → bit_and a 31 ≡ a % 32
bit_and_31 a = omega (arith, bit_and-ones 5 a)

pub bit_and_63 : (a : ℕ) → bit_and a 63 ≡ a % 64
bit_and_63 a = omega (arith, bit_and-ones 6 a)

pub bit_and_127 : (a : ℕ) → bit_and a 127 ≡ a % 128
bit_and_127 a = omega (arith, bit_and-ones 7 a)
