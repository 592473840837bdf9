-- ===== src/Tests/Replace.antt =====
-- `replace_string_in_buf` on small inputs.
use capemon.Base.{ℕ, ◌≡◌, refl, none, some, List, [], ◌∷◌, ◌++◌, ◌==◌, arith, store}
use capemon.Replace.{same_units, replace_at, replace_loop, replace_string_in_buf}
use capemon.Replace.Laws.{is_prefix, substitute, replace_string_in_buf_lem}

abbrev qemu : List ℕ
qemu = b'Q' ∷ b'E' ∷ b'M' ∷ b'U' ∷ []

abbrev dell : List ℕ
dell = b'D' ∷ b'E' ∷ b'L' ∷ b'L' ∷ []

-- `aQEMUb`, in a buffer that ends there, and a terminator behind it.
abbrev a_disk : List ℕ
a_disk = b'a' ∷ b'Q' ∷ b'E' ∷ b'M' ∷ b'U' ∷ b'b' ∷ []

replace_string_in_buf_lem_example :
    replace_string_in_buf (λ a b. a == b) qemu dell (a_disk ++ 0 ∷ []) 6
    ≡ some (b'a' ∷ b'D' ∷ b'E' ∷ b'L' ∷ b'L' ∷ b'b' ∷ 0 ∷ [])
unfolding substitute is_prefix
replace_string_in_buf_lem_example =
    replace_string_in_buf_lem (λ a b. a == b) qemu dell a_disk (0 ∷ []) refl (omega arith)
      (omega arith)

-- Texts of different lengths change nothing: VBOX does not become DELL_.
vbox_stays :
    replace_string_in_buf
      (λ a b. a == b)
      (b'V' ∷ b'B' ∷ b'O' ∷ b'X' ∷ [])
      (dell ++ b'_' ∷ [])
      (b'V' ∷ b'B' ∷ b'O' ∷ b'X' ∷ 0 ∷ [])
      5
    ≡ some (b'V' ∷ b'B' ∷ b'O' ∷ b'X' ∷ 0 ∷ [])
unfolding replace_string_in_buf
vbox_stays = refl

-- An empty text is found everywhere, and the loop stays where it is.
empty_text_loops : replace_string_in_buf (λ a b. a == b) [] [] (b'a' ∷ []) 1 ≡ none
unfolding replace_string_in_buf replace_loop replace_at same_units store
empty_text_loops = refl
