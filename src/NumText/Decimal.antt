-- ===== src/NumText/Decimal.antt =====
-- `num_to_string` against the decimal digits of a number.
use native.Mathlib.Nat.{pow-suc, one-le-pow}
use mathlib.Core.List.{append_assoc}
use capemon.Base.{
  ℕ, zero, suc, ◌+◌, ◌-◌, ◌*◌, ◌/◌, ◌%◌, ◌^◌, ◌≤◌, ◌<◌, ◌≡◌, refl, ◌≢◌, List, [], ◌∷◌, ◌++◌, some,
  ◌==◌, ltb, if◌then◌else◌, arith, length, take, length-append,
}
use capemon.NumText.{digit_loop, num_to_string}

-- The digits at 10 ^ k, 10 ^ (k - 1), …, 1.
unfoldable pub all_digits : ℕ → ℕ → List ℕ
all_digits zero num = (b'0' + num) ∷ []
all_digits (suc k) num = (b'0' + num / 10 ^ suc k) ∷ all_digits k (num % 10 ^ suc k)

-- The same from the first digit that is not 0.
unfoldable pub decimal : ℕ → ℕ → List ℕ
decimal zero num = all_digits zero num
decimal (suc k) num = if ltb num (10 ^ suc k) then decimal k num else all_digits (suc k) num

-- The number that decimal digits stand for, after `acc`.
unfoldable pub read_decimal : ℕ → List ℕ → ℕ
read_decimal acc [] = acc
read_decimal acc (c ∷ cs) = read_decimal (acc * 10 + (c - b'0')) cs

pub ten_pow : (k : ℕ) → (10 ^ suc k ≡ 10 * 10 ^ k) × (1 ≤ 10 ^ k)
ten_pow k = (omega (arith, pow-suc 10 k), one-le-pow k 10 (omega arith))

pub length-all_digits : (k num : ℕ) → length (all_digits k num) ≡ suc k
unfolding all_digits
length-all_digits zero num = refl
length-all_digits (suc k) num = omega (arith, length-all_digits k (num % 10 ^ suc k))

pub take-all {ℓ} : {A : Type ℓ} (n : ℕ) (xs : List A) → length xs ≤ n → take n xs ≡ xs
take-all zero [] h = refl
take-all zero (x ∷ xs) h = absurd (omega arith)
take-all (suc n) [] h = refl
take-all (suc n) (x ∷ xs) h = ground (arith, take-all n xs)

take-append {ℓ} : {A : Type ℓ} (xs ys : List A) → take (length xs) (xs ++ ys) ≡ xs
take-append [] ys = refl
take-append (x ∷ xs) ys = ground (arith, take-append xs ys)

pow_div_ten : (k : ℕ) → 10 ^ suc k / 10 ≡ 10 ^ k
pow_div_ten k = omega (arith, ten_pow k)

-- What is cut off by the end of the buffer.
take-snoc {ℓ} :
    {A : Type ℓ} (n : ℕ) (xs : List A) (y : A) (ys : List A)
    → length xs + 1 ≡ n
    → take n (xs ++ y ∷ ys) ≡ xs ++ y ∷ []
take-snoc zero xs y ys h = absurd (omega arith)
take-snoc (suc zero) [] y ys h = refl
take-snoc (suc (suc n)) [] y ys h = absurd (omega arith)
take-snoc (suc n) (x ∷ xs) y ys h = ground (arith, take-snoc n xs y ys)

-- From the second digit on.
digit_loop_rest :
    (k fuel buflen num c : ℕ) (out : List ℕ)
    → k + 2 ≤ fuel
    → length (c ∷ out) + 1 < buflen
    → digit_loop fuel buflen num (10 ^ k) (c ∷ out)
      ≡ some (take (buflen - 1) ((c ∷ out) ++ all_digits k num))
unfolding digit_loop all_digits
digit_loop_rest k zero buflen num c out p q = absurd (omega arith)
digit_loop_rest k (suc zero) buflen num c out p q = absurd (omega arith)
digit_loop_rest zero (suc (suc fuel)) buflen num c out p q = ground (
  arith,
  length-append (c ∷ out) ((b'0' + num) ∷ []),
  take-all (buflen - 1) ((c ∷ out) ++ (b'0' + num) ∷ []),
)
digit_loop_rest (suc k) (suc (suc fuel)) buflen num c out p q =
    let d = b'0' + num / 10 ^ suc k in
    ground (
      arith,
      ten_pow k,
      pow_div_ten k,
      length-append (c ∷ out) (d ∷ []),
      take-snoc (buflen - 1) (c ∷ out) d (all_digits k (num % 10 ^ suc k)),
      append_assoc out (d ∷ []) (all_digits k (num % 10 ^ suc k)),
      digit_loop_rest k (suc fuel) buflen (num % 10 ^ suc k) c (out ++ d ∷ []),
    )

num_below : (num d : ℕ) → num < d → (num / d ≡ 0) × (num % d ≡ num)
num_below num d h = grind arith

num_above : (num d : ℕ) → 1 ≤ d → d ≤ num → num / d ≢ 0
num_above num d p h = grind arith

-- One round on an empty buffer: no digit yet, or the first one.
digit_loop_skip :
    (fuel buflen num dec : ℕ)
    → 2 ≤ buflen
    → num < dec
    → 2 ≤ dec
    → digit_loop (suc fuel) buflen num dec [] ≡ digit_loop fuel buflen num (dec / 10) []
unfolding digit_loop
digit_loop_skip fuel buflen num dec p q r = ground (arith, num_below num dec)

digit_loop_first :
    (fuel buflen num dec : ℕ)
    → 1 ≤ dec
    → dec ≤ num
    → digit_loop (suc fuel) buflen num dec [] ≡ (
        if 1 == buflen - 1
        then some ((b'0' + num / dec) ∷ [])
        else digit_loop fuel buflen (num % dec) (dec / 10) ((b'0' + num / dec) ∷ []))
unfolding digit_loop
digit_loop_first fuel buflen num dec p q = ground (arith, num_above num dec)

first_digit :
    (k fuel buflen num : ℕ)
    → k + 2 ≤ fuel
    → 2 ≤ buflen
    → 10 ^ suc k ≤ num
    → digit_loop (suc fuel) buflen num (10 ^ suc k) []
      ≡ some (take (buflen - 1) (all_digits (suc k) num))
unfolding all_digits
first_digit k fuel buflen num p q r =
    let d = b'0' + num / 10 ^ suc k in
    ground (
      arith,
      ten_pow k,
      pow_div_ten k,
      digit_loop_first fuel buflen num (10 ^ suc k),
      take-snoc (buflen - 1) [] d (all_digits k (num % 10 ^ suc k)),
      digit_loop_rest k fuel buflen (num % 10 ^ suc k) d [],
    )

-- Zeros in front are left out.
digit_loop_lead :
    (k fuel buflen num : ℕ)
    → k + 2 ≤ fuel
    → 2 ≤ buflen
    → digit_loop fuel buflen num (10 ^ k) [] ≡ some (take (buflen - 1) (decimal k num))
unfolding decimal
digit_loop_lead k zero buflen num p q = absurd (omega arith)
digit_loop_lead k (suc zero) buflen num p q = absurd (omega arith)
digit_loop_lead zero (suc (suc fuel)) buflen num p q =
    unfold digit_loop all_digits in ground (arith, take-all (buflen - 1) ((b'0' + num) ∷ []))
digit_loop_lead (suc k) (suc (suc fuel)) buflen num p q = ground (
  arith,
  ten_pow k,
  pow_div_ten k,
  digit_loop_skip (suc fuel) buflen num (10 ^ suc k),
  first_digit k (suc fuel) buflen num,
  digit_loop_lead k (suc fuel) buflen num,
)

-- With room for a digit and the terminator, `num_to_string` writes the decimal digits of the number
-- without zeros in front, as many as fit before the terminator.
pub num_to_string-decimal :
    (buflen num : ℕ)
    → 2 ≤ buflen
    → num_to_string buflen num ≡ some (take (buflen - 1) (decimal 9 num))
unfolding num_to_string
num_to_string-decimal buflen num h = ground (arith, digit_loop_lead 9 11 buflen num)
