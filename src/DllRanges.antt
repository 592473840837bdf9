-- ===== src/DllRanges.antt =====
-- misc.c: the address ranges of the loaded libraries, which the monitor does not log calls from.
-- The array `dll_ranges` is the list of its first `loaded_dlls` entries.
pub mod Laws
use capemon.Base.{
  ℕ, zero, suc, ◌-◌, Bool, true, false, ◌&&◌, ◌||◌, List, [], ◌∷◌, ◌++◌, Option, none, some, ltb,
  leb, if◌then◌else◌, length, get_elem?, set, take,
}

pub record DllRange : Type 0 where
  pub start : ℕ
  pub end : ℕ

abbrev pub max_dlls : ℕ
max_dlls = 500

-- addr >= start && addr < end
abbrev pub inside : DllRange → ℕ → Bool
inside r addr = leb r.start addr && ltb addr r.end

unfoldable pub is_in_dll_range : List DllRange → ℕ → Bool
is_in_dll_range [] addr = false
is_in_dll_range (r ∷ rs) addr = inside r addr || is_in_dll_range rs addr

unfoldable pub add_dll_range : List DllRange → ℕ → ℕ → List DllRange
unfolding is_in_dll_range
add_dll_range rs start end =
    if leb max_dlls (length rs)
    then rs
    else if is_in_dll_range rs start
    then rs
    else rs ++ record { start = start; end = end } ∷ []

-- The index of the first range that holds the address.
unfoldable pub find_range : List DllRange → ℕ → Option ℕ
find_range [] addr = none
find_range (r ∷ rs) addr =
    if inside r addr
    then some 0
    else elim (find_range rs addr) [ none ↦ none | some i ↦ some (suc i) ]

-- `dll_ranges[i] = dll_ranges[loaded_dlls - 1]`, and the count goes down.
unfoldable pub swap_out : List DllRange → ℕ → List DllRange
swap_out rs i = elim (get_elem? rs (length rs - 1)) [
  | none ↦ rs
  | some last ↦ take (length rs - 1) (set rs i last)
]

unfoldable pub remove_dll_range : List DllRange → ℕ → List DllRange × Bool
unfolding find_range swap_out
remove_dll_range rs addr = elim (find_range rs addr) [
  | none ↦ (rs, false)
  | some i ↦ (swap_out rs i, true)
]
