-- ===== src/Utf8.antt =====
-- utf8.c: the encoder behind the log and the pipe. An `unsigned short` is a number below 2 ^ 16, a
-- buffer the list of the bytes written to it.
pub mod Bytes
pub mod Decode
pub mod Strings
use capemon.Base.{
  ℕ, ◌+◌, ◌/◌, ◌^◌, bit_and, bit_or, List, [], ◌∷◌, ◌++◌, ltb, if◌then◌else◌, length, map,
}

-- The bytes written to `out`; the result of the C function is their number.
unfoldable pub utf8_do_encode : ℕ → List ℕ
utf8_do_encode c =
    if ltb c 0x80
    then bit_and c 0x7F ∷ []
    else if ltb c 0x800
    then bit_or 0xc0 (bit_and (c / 2 ^ 6) 0x1F) ∷ bit_or 0x80 (bit_and c 0x3f) ∷ []
    else bit_or 0xe0 (bit_and (c / 2 ^ 12) 0x0F)
      ∷ bit_or 0x80 (bit_and (c / 2 ^ 6) 0x3F)
      ∷ bit_or 0x80 (bit_and c 0x3f)
      ∷ []

unfoldable pub utf8_length : ℕ → ℕ
utf8_length x = length (utf8_do_encode x)

-- A `char` is signed: passed as an `unsigned short`, a byte from 0x80 on gets 0xff on top.
unfoldable pub char_to_ushort : ℕ → ℕ
char_to_ushort b = if ltb b 0x80 then b else 0xff00 + b

unfoldable pub utf8_strlen_unicode : List ℕ → ℕ
utf8_strlen_unicode [] = 0
utf8_strlen_unicode (x ∷ s) = utf8_length x + utf8_strlen_unicode s

unfoldable pub utf8_strlen_ascii : List ℕ → ℕ
utf8_strlen_ascii [] = 0
utf8_strlen_ascii (x ∷ s) = utf8_length (char_to_ushort x) + utf8_strlen_ascii s
