-- ===== src/Utf8/Bytes.antt =====
-- The bit masks of `utf8_do_encode` as arithmetic.
use capemon.Base.{
  ℕ, ◌+◌, ◌/◌, ◌%◌, ◌<◌, bit_or, ◌≡◌, refl, List, [], ◌∷◌, ltb, if◌then◌else◌, arith, agree_below,
  passes_below, bit_and_15, bit_and_31, bit_and_63, bit_and_127,
}
use capemon.Utf8.{utf8_do_encode}

or_c0 : (y : ℕ) → y < 32 → bit_or 0xc0 y ≡ 192 + y
unfolding passes_below
or_c0 = agree_below _ _ 32 refl

or_80 : (y : ℕ) → y < 64 → bit_or 0x80 y ≡ 128 + y
unfolding passes_below
or_80 = agree_below _ _ 64 refl

or_e0 : (y : ℕ) → y < 16 → bit_or 0xe0 y ≡ 224 + y
unfolding passes_below
or_e0 = agree_below _ _ 16 refl

unfoldable pub encoded : ℕ → List ℕ
encoded c =
    if ltb c 128
    then c ∷ []
    else if ltb c 2048
    then (192 + c / 64) ∷ (128 + c % 64) ∷ []
    else (224 + c / 4096) ∷ (128 + c / 64 % 64) ∷ (128 + c % 64) ∷ []

pub utf8_do_encode-encoded : (c : ℕ) → c < 65536 → utf8_do_encode c ≡ encoded c
unfolding utf8_do_encode encoded
utf8_do_encode-encoded c h = ground (
  arith,
  bit_and_127 c,
  bit_and_31 (c / 64),
  bit_and_63 c,
  bit_and_63 (c / 64),
  bit_and_15 (c / 4096),
  or_c0 (c / 64 % 32),
  or_80 (c % 64),
  or_80 (c / 64 % 64),
  or_e0 (c / 4096 % 16),
)
