-- ===== src/KeyText.antt =====
-- misc.c: names of registry keys, with their NUL characters written as `\x00`. `none` is a write outside
-- the buffer.
pub mod Laws
use capemon.Base.{
  ℕ, suc, ◌+◌, ◌*◌, ◌/◌, ◌%◌, ◌^◌, Option, none, some, List, [], ◌∷◌, ◌==◌, if◌then◌else◌, length,
  store,
}

-- What one character becomes.
unfoldable pub encoded_unit : ℕ → List ℕ
encoded_unit c = if c == 0 then b'\\' ∷ b'x' ∷ b'0' ∷ b'0' ∷ [] else c ∷ []

unfoldable pub count_nulls : List ℕ → ℕ
count_nulls [] = 0
count_nulls (c ∷ cs) = let rest = count_nulls cs in if c == 0 then suc rest else rest

-- `buf` is the `len / 2` characters that are read, and the result a number of bytes.
unfoldable pub get_encoded_unicode_string_len : List ℕ → ℕ → ℕ
get_encoded_unicode_string_len buf len = (len + count_nulls buf * 4 * 2) % 2 ^ 32

-- The loop at `out[x]`.
unfoldable pub copy_loop : List ℕ → ℕ → List ℕ → Option (List ℕ)
copy_loop out x [] = some out
copy_loop out x (c ∷ cs) = elim (store out x (encoded_unit c)) [
  | none ↦ none
  | some out' ↦ copy_loop out' (x + length (encoded_unit c)) cs
]

unfoldable pub copy_encoded_unicode_string : List ℕ → List ℕ → ℕ → Option (List ℕ)
copy_encoded_unicode_string out cs newlen = elim (copy_loop out 0 cs) [
  | none ↦ none
  | some out' ↦ store out' (newlen / 2) (0 ∷ [])
]
