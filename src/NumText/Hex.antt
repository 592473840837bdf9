-- ===== src/NumText/Hex.antt =====
-- `num_to_hex` writes a fixed number of digits that stand for the number.
use native.Mathlib.Nat.{pow-suc, one-le-pow}
use capemon.Base.{
  ℕ, zero, suc, ◌+◌, ◌-◌, ◌*◌, ◌/◌, ◌%◌, ◌^◌, ◌≤◌, ◌<◌, ◌≡◌, ap, ◌∙◌, List, [], ◌∷◌, ltb,
  if◌then◌else◌, arith, length, bit_and, bit_and_15,
}
use capemon.NumText.{hexchar, hex_loop, num_to_hex}

-- What a reader makes of a hexadecimal digit, capital letters as in `hexchars`.
unfoldable pub hex_value : ℕ → ℕ
hex_value c = if ltb c b'A' then c - b'0' else c - b'A' + 10

unfoldable pub read_hex : ℕ → List ℕ → ℕ
read_hex acc [] = acc
read_hex acc (c ∷ cs) = read_hex (acc * 16 + hex_value c) cs

hex_value-hexchar : (n : ℕ) → n < 16 → hex_value (hexchar n) ≡ n
unfolding hex_value hexchar
hex_value-hexchar n h = ground arith

mod_by_digit : (n p : ℕ) → 1 ≤ p → n % (p * 16) ≡ n / 16 % p * 16 + n % 16
mod_by_digit n p h = grind arith

read_hex-hex_loop :
    (width num acc : ℕ) (out : List ℕ)
    → read_hex acc (hex_loop width num out) ≡ read_hex (acc * 16 ^ width + num % 16 ^ width) out
unfolding hex_loop read_hex
read_hex-hex_loop zero num acc out = ap (λ (t : ℕ). read_hex t out) (omega arith)
read_hex-hex_loop (suc width) num acc out =
    read_hex-hex_loop width (num / 16) acc (hexchar (bit_and num 15) ∷ out)
    ∙ ap (λ (t : ℕ). read_hex t out) one_more
  where
    shift :
        (acc * 16 ^ width + num / 16 % 16 ^ width) * 16 + num % 16
        ≡ acc * 16 ^ suc width + num % 16 ^ suc width
    shift = omega (
      arith,
      ap (λ (t : ℕ). acc * t) (pow-suc 16 width),
      ap (λ (t : ℕ). num % t) (pow-suc 16 width),
      mod_by_digit num (16 ^ width) (one-le-pow width 16 (omega arith)),
    )

    digit : hex_value (hexchar (bit_and num 15)) ≡ num % 16
    digit = rw (bit_and_15 num) (hex_value-hexchar (num % 16) (omega arith))

    one_more :
        (acc * 16 ^ width + num / 16 % 16 ^ width) * 16 + hex_value (hexchar (bit_and num 15))
        ≡ acc * 16 ^ suc width + num % 16 ^ suc width
    one_more = rw digit shift

length-hex_loop :
    (width num : ℕ) (out : List ℕ) → length (hex_loop width num out) ≡ width + length out
unfolding hex_loop
length-hex_loop zero num out = omega arith
length-hex_loop (suc width) num out =
    omega (arith, length-hex_loop width (num / 16) (hexchar (bit_and num 15) ∷ out))

pub length-num_to_hex : (width num : ℕ) → length (num_to_hex width num) ≡ width
unfolding num_to_hex
length-num_to_hex width num = omega (arith, length-hex_loop width num [])

-- `num_to_hex` writes exactly `width` digits, and they stand for the number modulo 16 ^ `width`.
pub num_to_hex_lem :
    (width num : ℕ)
    → (length (num_to_hex width num) ≡ width)
      × (read_hex 0 (num_to_hex width num) ≡ num % 16 ^ width)
unfolding num_to_hex
num_to_hex_lem width num =
    (length-num_to_hex width num, read_hex-hex_loop width num 0 [] ∙ unfold read_hex in omega arith)
