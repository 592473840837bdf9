-- ===== src/NumText/ReadBack.antt =====
-- The digits that `num_to_string` writes stand for the number, and nothing is written past the end.
use native.Mathlib.Nat.{div-add-mod, mod-lt}
use capemon.Base.{
  ℕ, zero, suc, ◌+◌, ◌-◌, ◌*◌, ◌/◌, ◌%◌, ◌^◌, ◌≤◌, ◌<◌, ◌≡◌, ap, inl, inr, List, [], ◌∷◌, some, ltb,
  arith, Bool-cases, ◌≢◌, length, take, All, length-take,
}
use capemon.NumText.{num_to_string}
use capemon.NumText.Decimal.{
  all_digits, decimal, read_decimal, ten_pow, num_to_string-decimal, take-all, length-all_digits,
}

abbrev pub IsDigit : ℕ → Type 0
IsDigit c = (b'0' ≤ c) × (c ≤ b'9')

quotient_digit : (num p : ℕ) → 1 ≤ p → num < 10 * p → num / p < 10
quotient_digit num p h lt = grind arith

all_digits-IsDigit : (k num : ℕ) → num < 10 ^ suc k → All IsDigit (all_digits k num)
unfolding all_digits
all_digits-IsDigit zero num h = omega arith
all_digits-IsDigit (suc k) num h =
    let small =
      quotient_digit num (10 ^ suc k) (ten_pow (suc k)).1 (omega (arith, ten_pow (suc k))) in
    (
      (omega arith, omega (arith, small)),
      all_digits-IsDigit k (num % 10 ^ suc k) (mod-lt num (ten_pow (suc k)).1),
    )

digit_back : (q : ℕ) → b'0' + q - b'0' ≡ q
digit_back q = omega arith

read_decimal-all_digits :
    (k num acc : ℕ)
    → num < 10 ^ suc k
    → read_decimal acc (all_digits k num) ≡ acc * 10 ^ suc k + num
unfolding read_decimal all_digits
read_decimal-all_digits zero num acc h = omega arith
read_decimal-all_digits (suc k) num acc h = omega (
  arith,
  read_decimal-all_digits k (num % 10 ^ suc k) (acc * 10 + (b'0' + num / 10 ^ suc k - b'0'))
      (mod-lt num (ten_pow (suc k)).1),
  div-add-mod num (10 ^ suc k),
  ap (λ (t : ℕ). acc * t) (ten_pow (suc k)).0,
  ap (λ (t : ℕ). (acc * 10 + t) * 10 ^ suc k) (digit_back (num / 10 ^ suc k)),
)

-- Some digit, and a 0 in front only if it stands alone.
abbrev pub StartsWell : List ℕ → Type 0
StartsWell [] = ⊥
StartsWell (c ∷ []) = Unit
StartsWell (c ∷ (d ∷ cs)) = c ≢ b'0'

-- The one way to write `num` in decimal, with `n` digits at most.
pub record IsDecimal (n num : ℕ) (cs : List ℕ) : Type 0 where
  pub digits : All IsDigit cs
  pub value : read_decimal 0 cs ≡ num
  pub short : length cs ≤ n
  pub starts : StartsWell cs

first_digit_pos : (num p : ℕ) → 1 ≤ p → p ≤ num → b'0' + num / p ≢ b'0'
first_digit_pos num p h le = grind arith

starts_at_digit : (k num : ℕ) → 10 ^ suc k ≤ num → StartsWell (all_digits (suc k) num)
unfolding all_digits
starts_at_digit zero num h = first_digit_pos num 10 (omega arith) (omega (arith, ten_pow 0))
starts_at_digit (suc k) num h = first_digit_pos num (10 ^ suc (suc k)) (ten_pow _).1 h

decimal-IsDecimal : (k num : ℕ) → num < 10 ^ suc k → IsDecimal (suc k) num (decimal k num)
unfolding decimal
decimal-IsDecimal zero num h = record {
  digits = all_digits-IsDigit zero num h;
  value = omega (arith, read_decimal-all_digits zero num 0 h);
  short = omega (arith, length-all_digits zero num);
  starts = unfold all_digits in tt;
}
decimal-IsDecimal (suc k) num h = elim (Bool-cases (ltb num (10 ^ suc k))) [
  | inl small ↦
      let rest : IsDecimal (suc k) num (decimal k num) = decimal-IsDecimal k num (ground arith) in
      rw small (record {
        digits = rest.digits;
        value = rest.value;
        short = omega (arith, rest.short);
        starts = rest.starts;
      })
  | inr large ↦ rw large (record {
    digits = all_digits-IsDigit (suc k) num h;
    value = omega (arith, read_decimal-all_digits (suc k) num 0 h);
    short = omega (arith, length-all_digits (suc k) num);
    starts = starts_at_digit k num (ground arith);
  })
]

-- Given eleven bytes, `num_to_string` writes every `unsigned int` as its decimal form: the digits
-- stand for the number, none is 0 in front of others, and with the terminator they fit.
pub num_to_string-IsDecimal :
    (buflen num : ℕ)
    → 11 ≤ buflen
    → num < 2 ^ 32
    → (cs : List ℕ) × (num_to_string buflen num ≡ some cs) × IsDecimal 10 num cs
num_to_string-IsDecimal buflen num room small =
    let good : IsDecimal 10 num (decimal 9 num) = decimal-IsDecimal 9 num (omega arith) in
    (
      decimal 9 num,
      ground (
        arith,
        num_to_string-decimal buflen num,
        take-all (buflen - 1) (decimal 9 num),
        good.short,
      ),
      good,
    )

-- In a buffer of two bytes or more `num_to_string` leaves room for the terminator, whatever the
-- number.
pub num_to_string_bounds :
    (buflen num : ℕ)
    → 2 ≤ buflen
    → (cs : List ℕ) × (num_to_string buflen num ≡ some cs) × (length cs + 1 ≤ buflen)
num_to_string_bounds buflen num room = (
  take (buflen - 1) (decimal 9 num),
  num_to_string-decimal buflen num room,
  omega (arith, length-take (buflen - 1) (decimal 9 num)),
)
