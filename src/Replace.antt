-- ===== src/Replace.antt =====
-- misc.c: `replace_string_in_buf` and its three variants, which put one text in the place of another
-- in the answers of the system. The variants differ in the units and in when two units are the same.
pub mod Laws
use capemon.Base.{
  ℕ, zero, suc, ◌+◌, ◌-◌, ◌%◌, ◌^◌, Bool, true, false, Option, none, some, List, [], ◌∷◌, ◌==◌,
  ◌||◌, not, leb, ltb, if◌then◌else◌, length, drop, store,
}

-- `memcmp` and `_strnicmp` against all of `findstr`; `none` is a read outside the memory.
unfoldable pub same_units : (ℕ → ℕ → Bool) → List ℕ → List ℕ → Option Bool
same_units same [] mem = some true
same_units same (f ∷ find) [] = none
same_units same (f ∷ find) (c ∷ mem) = elim (same c f) [
  | true ↦ same_units same find mem
  | false ↦ some false
]

module _ (same : ℕ → ℕ → Bool) (findstr repstr : List ℕ) where
  -- The body of the loop at `i`: the next `i`, an `unsigned long`, and the buffer.
  unfoldable pub replace_at : List ℕ → ℕ → Option (ℕ × List ℕ)
  replace_at buf i = elim (same_units same findstr (drop i buf)) [
    | none ↦ none
    | some false ↦ some ((i + 1) % 2 ^ 32, buf)
    | some true ↦ elim (store buf i repstr) [
      | none ↦ none
      | some buf' ↦ some ((i + length repstr) % 2 ^ 32, buf')
    ]
  ]

  -- `none` is also the end of the fuel.
  unfoldable pub replace_loop : ℕ → ℕ → List ℕ → ℕ → Option (List ℕ)
  replace_loop zero len buf i = none
  replace_loop (suc fuel) len buf i = elim (leb i (len - length findstr)) [
    | false ↦ some buf
    | true ↦ elim (replace_at buf i) [
      | none ↦ none
      | some (i', buf') ↦ replace_loop fuel len buf' i'
    ]
  ]

  -- `buf` is the memory from `buf` on, of which the first `len` units are the buffer.
  unfoldable pub replace_string_in_buf : List ℕ → ℕ → Option (List ℕ)
  replace_string_in_buf buf len =
      if not (length findstr == length repstr) || ltb len (length findstr)
      then some buf
      else replace_loop (len + 2) len buf 0
