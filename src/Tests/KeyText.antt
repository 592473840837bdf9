-- ===== src/Tests/KeyText.antt =====
-- A name with a NUL in it.
use capemon.Base.{ℕ, ◌≡◌, refl, some, List, [], ◌∷◌, arith}
use capemon.KeyText.{
  encoded_unit, count_nulls, get_encoded_unicode_string_len, copy_encoded_unicode_string,
}
use capemon.KeyText.Laws.{encode_name, copy_encoded_unicode_string_lem}

abbrev a_nul_b : List ℕ
a_nul_b = b'a' ∷ 0 ∷ b'b' ∷ []

-- The buffer holds 9 in all of its eight characters; one of them stays in front of the terminator.
copy_encoded_unicode_string_lem_example :
    copy_encoded_unicode_string
      (9 ∷ 9 ∷ 9 ∷ 9 ∷ 9 ∷ 9 ∷ 9 ∷ 9 ∷ [])
      a_nul_b
      (get_encoded_unicode_string_len a_nul_b 6)
    ≡ some (b'a' ∷ b'\\' ∷ b'x' ∷ b'0' ∷ b'0' ∷ b'b' ∷ 9 ∷ 0 ∷ [])
unfolding encode_name encoded_unit
copy_encoded_unicode_string_lem_example =
    copy_encoded_unicode_string_lem a_nul_b (9 ∷ 9 ∷ 9 ∷ 9 ∷ 9 ∷ 9 ∷ []) (9 ∷ []) [] 9 6
      (omega arith) (omega arith) refl (unfold count_nulls in refl)
