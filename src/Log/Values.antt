-- ===== src/Log/Values.antt =====
-- log.c: the values of a call as elements of the message. What the bson library makes of an element is
-- not looked at, and appending one is taken to succeed.
use capemon.Base.{
  ℕ, zero, suc, ◌+◌, ◌-◌, ◌%◌, ◌^◌, Bool, true, false, Option, none, some, List, [], ◌∷◌, ◌==◌, leb,
  if◌then◌else◌, drop,
}
use Prim.Native.Nat.{min}
use capemon.NumText.{num_to_string}
use capemon.Utf8.Strings.{Extent, terminated, exactly, exactly_units, utf8_string, utf8_wstring}
use capemon.Log.{◌>>=◌}

-- A string: its bytes, or the empty string for a NULL.
pub data Text : Type 0 where
  binary : List ℕ → Text
  empty_string : Text

-- `int32` and `int64` hold patterns, `array` the keys and strings of an array.
pub data Element : Type 0 where
  int32 : ℕ → Element
  int64 : ℕ → Element
  text : Text → Element
  array : List (List ℕ × Text) → Element

-- `BUFFER_LOG_MAX`, `LARGE_BUFFER_LOG_MAX` and `BUFFER_REGVAL_MAX`
abbrev pub buffer_regval_max : ℕ
buffer_regval_max = 512

-- The `length` argument, an `int`: -1 asks for the terminator.
unfoldable pub extent_of : ℕ → Extent
extent_of length = if length == 2 ^ 32 - 1 then terminated else exactly length

-- `bson_append_binary` with the first `n` bytes of the memory at `mem`; `none` is a read outside of it.
unfoldable pub append_binary : ℕ → List ℕ → Option Text
append_binary n mem = exactly_units n mem >>= λ bytes. some (binary bytes)

-- `num_to_string(g_istr, 4, i)`
unfoldable pub istr : ℕ → List ℕ
istr i = elim (num_to_string 4 i) [ none ↦ [] | some digits ↦ digits ]

-- `argc` rounds from `i` on.
unfoldable pub argv_loop :
    (Option (List ℕ) → Extent → Option Text)
    → ℕ
    → ℕ
    → List (Option (List ℕ))
    → Option (List (List ℕ × Text))
argv_loop log zero i argv = some []
argv_loop log (suc argc) i [] = none
argv_loop log (suc argc) i (arg ∷ argv) = do
  s ← log arg terminated
  rest ← argv_loop log argc (i + 1) argv
  some ((istr i, s) ∷ rest)

-- A pointer to memory, or NULL. `none` is an access outside the memory.
module _ (junk : ℕ) where
  -- The text of the block behind its length.
  unfoldable pub log_string : Option (List ℕ) → Extent → Option Text
  log_string none extent = some empty_string
  log_string (some mem) extent =
      utf8_string junk mem extent >>= λ utf8s. some (binary (drop 4 utf8s))

  unfoldable pub log_wstring : Option (List ℕ) → Extent → Option Text
  log_wstring none extent = some empty_string
  log_wstring (some mem) extent =
      utf8_wstring junk mem extent >>= λ utf8s. some (binary (drop 4 utf8s))

  -- A negative `argc` makes no round.
  unfoldable pub log_argv : ℕ → List (Option (List ℕ)) → Option Element
  log_argv argc argv =
      argv_loop log_string (if leb (2 ^ 31) argc then 0 else argc) 0 argv >>= λ elements.
      some (array elements)

  unfoldable pub log_wargv : ℕ → List (Option (List ℕ)) → Option Element
  log_wargv argc argv =
      argv_loop log_wstring (if leb (2 ^ 31) argc then 0 else argc) 0 argv >>= λ elements.
      some (array elements)

-- The settings `buffer-max` and `large-buffer-max`.
pub record LogSizes : Type 0 where
  pub buffer_log_max : ℕ
  pub large_buffer_log_max : ℕ

unfoldable pub log_buffer : LogSizes → Option (List ℕ) → ℕ → Option Text
log_buffer z none length = some (binary [])
log_buffer z (some buf) length =
    append_binary (min (length % 2 ^ 32) (z.buffer_log_max % 2 ^ 32)) buf

unfoldable pub log_large_buffer : LogSizes → Option (List ℕ) → ℕ → Option Text
log_large_buffer z none length = some (binary [])
log_large_buffer z (some buf) length =
    append_binary (min (length % 2 ^ 32) (z.large_buffer_log_max % 2 ^ 32)) buf

-- `sizeof(ULONG_PTR) == 8`
unfoldable pub log_ptr : Bool → ℕ → Element
log_ptr true value = int64 value
log_ptr false value = int32 (value % 2 ^ 32)
