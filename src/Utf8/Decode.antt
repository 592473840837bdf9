-- ===== src/Utf8/Decode.antt =====
-- A decoder of UTF-8 in one, two and three bytes, written from RFC 3629 and not from utf8.c: it
-- demands the shortest form and refuses the surrogates, 0xD800 to 0xDFFF, as that document does.
-- Forms of four bytes, which utf8.c never writes, are refused too.

use capemon.Base.{
  ℕ, zero, suc, ◌+◌, ◌-◌, ◌*◌, ◌<◌, ◌≡◌, refl, Bool, ◌&&◌, List, [], ◌∷◌, ◌++◌, Option, none, some,
  ◌||◌, not, false, ◌≤◌, Bool-cases, inl, inr, ltb, leb, if◌then◌else◌, arith, length,
  length-append, All,
}
use capemon.Utf8.{utf8_do_encode, utf8_length, utf8_strlen_unicode}
use capemon.Utf8.Bytes.{encoded, utf8_do_encode-encoded}

abbrev is_tail : ℕ → Bool
is_tail b = leb 128 b && ltb b 192

two : ℕ → List ℕ → Option (ℕ × List ℕ)
two a [] = none
two a (b ∷ rest) =
    let c = (a - 192) * 64 + (b - 128) in if is_tail b && leb 128 c then some (c, rest) else none

abbrev pub is_surrogate : ℕ → Bool
is_surrogate c = leb 0xD800 c && ltb c 0xE000

three : ℕ → List ℕ → Option (ℕ × List ℕ)
three a [] = none
three a (b ∷ []) = none
three a (b ∷ (d ∷ rest)) =
    let c = (a - 224) * 4096 + (b - 128) * 64 + (d - 128) in
    if is_tail b && (is_tail d && (leb 2048 c && not (is_surrogate c)))
    then some (c, rest)
    else none

unfoldable pub decode_one : List ℕ → Option (ℕ × List ℕ)
unfolding two three
decode_one [] = none
decode_one (a ∷ rest) =
    if ltb a 128
    then some (a, rest)
    else if leb 192 a && ltb a 224
    then two a rest
    else if leb 224 a && ltb a 240
    then three a rest
    else none

-- The fuel bounds the number of code units.
unfoldable pub decode : ℕ → List ℕ → Option (List ℕ)
decode fuel [] = some []
decode zero (a ∷ rest) = none
decode (suc fuel) (a ∷ rest) = elim (decode_one (a ∷ rest)) [
  | none ↦ none
  | some (c, rest') ↦ elim (decode fuel rest') [ none ↦ none | some cs ↦ some (c ∷ cs) ]
]

unfoldable pub encode_all : List ℕ → List ℕ
encode_all [] = []
encode_all (c ∷ cs) = utf8_do_encode c ++ encode_all cs

-- What the encoder writes for a code unit, whatever follows: a surrogate is refused, any other
-- unit is
-- read back.
pub decode_one-utf8_do_encode :
    (c : ℕ) (rest : List ℕ)
    → c < 65536
    → decode_one (utf8_do_encode c ++ rest) ≡ (if is_surrogate c then none else some (c, rest))
unfolding decode_one encoded
decode_one-utf8_do_encode c rest h = ground (arith, utf8_do_encode-encoded c)

decode-suc :
    (fuel : ℕ) (bytes : List ℕ) {c : ℕ} {rest cs : List ℕ}
    → decode_one bytes ≡ some (c, rest)
    → decode fuel rest ≡ some cs
    → decode (suc fuel) bytes ≡ some (c ∷ cs)
unfolding decode decode_one
decode-suc fuel [] e f = cc
decode-suc fuel (a ∷ bytes) e f = ground arith

decode-later :
    (fuel : ℕ) (bytes : List ℕ) {c : ℕ} {rest : List ℕ}
    → decode_one bytes ≡ some (c, rest)
    → decode fuel rest ≡ none
    → decode (suc fuel) bytes ≡ none
unfolding decode decode_one
decode-later fuel [] e f = cc
decode-later fuel (a ∷ bytes) e f = ground arith

decode-refused :
    (fuel : ℕ) (bytes : List ℕ)
    → 0 < length bytes
    → decode_one bytes ≡ none
    → decode (suc fuel) bytes ≡ none
unfolding decode
decode-refused fuel [] some_byte e = absurd (omega arith)
decode-refused fuel (a ∷ bytes) some_byte e = ground arith

-- The encoder writes at least one byte.
encoded_some : (c : ℕ) (rest : List ℕ) → 0 < length (utf8_do_encode c ++ rest)
unfolding utf8_do_encode
encoded_some c rest = ground arith

abbrev pub AreUnits : List ℕ → Type 0
AreUnits = All (λ c. c < 65536)

unfoldable pub has_surrogate : List ℕ → Bool
has_surrogate [] = false
has_surrogate (c ∷ cs) = is_surrogate c || has_surrogate cs

-- A reader after RFC 3629 of what the encoder writes for a string of 16-bit units, in at least as
-- many rounds as there are units: it has the string back where no unit is a surrogate, and refuses
-- the bytes where one is, since the encoder writes each surrogate by itself, those of a pair too.
pub decode-encode_all :
    (cs : List ℕ) (fuel : ℕ)
    → AreUnits cs
    → length cs ≤ fuel
    → decode fuel (encode_all cs) ≡ (if has_surrogate cs then none else some cs)
unfolding encode_all has_surrogate
decode-encode_all [] fuel h enough = unfold decode in refl
decode-encode_all (c ∷ cs) zero h enough = absurd (omega arith)
decode-encode_all (c ∷ cs) (suc fuel) h enough =
    let one = decode_one-utf8_do_encode c (encode_all cs) h.0 in
    let rest = decode-encode_all cs fuel h.1 (omega arith) in
    let bytes = utf8_do_encode c ++ encode_all cs in
    elim (Bool-cases (is_surrogate c)) [
      | inl bad ↦
          let refused : decode_one bytes ≡ none = ground (arith, one) in
          rw bad (decode-refused fuel bytes (encoded_some c (encode_all cs)) refused)
      | inr fine ↦
          let read : decode_one bytes ≡ some (c, encode_all cs) = ground (arith, one) in
          elim (Bool-cases (has_surrogate cs)) [
            | inl later ↦ rw (fine, later) (decode-later fuel bytes read (ground (arith, rest)))
            | inr none_later ↦
                rw (fine, none_later) (decode-suc fuel bytes read (ground (arith, rest)))
          ]
    ]

-- `utf8_strlen_unicode` is the number of bytes that the encoder writes.
pub utf8_strlen_unicode-length : (cs : List ℕ) → utf8_strlen_unicode cs ≡ length (encode_all cs)
unfolding utf8_strlen_unicode encode_all utf8_length
utf8_strlen_unicode-length [] = refl
utf8_strlen_unicode-length (c ∷ cs) =
    omega (arith, utf8_strlen_unicode-length cs, length-append (utf8_do_encode c) (encode_all cs))
