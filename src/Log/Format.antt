-- ===== src/Log/Format.antt =====
-- log.c: the two passes of `loq` over its format and its arguments, one for the description of the call
-- and one for the values. `none` is an argument of another type than the format says, or an access
-- outside the memory that was given.
use capemon.Base.{ℕ, ◌/◌, Bool, ◌||◌, Option, none, some, List, [], ◌∷◌, ◌++◌, ◌==◌, if◌then◌else◌}
use capemon.Utf8.Strings.{terminated, exactly, until_nul}
use capemon.Log.{◌>>=◌}
use capemon.Log.Values.{
  Text, Element, int32, int64, text, extent_of, log_string, log_wstring, log_argv, log_wargv,
  LogSizes, log_buffer, log_large_buffer, log_ptr,
}
use capemon.Log.Variants.{Variant, log_variant}
use capemon.Log.Registry.{log_registry}

-- What `va_arg` can find. `int` is an `int` or an `unsigned long`, `word` a `size_t`, a pointer or a
-- handle that is not followed. A UNICODE_STRING is its length in bytes and its buffer. A pointer to a number is its value, or `none` for a NULL or a fault.
pub data LogArg : Type 0 where
  int : ℕ → LogArg
  word : ℕ → LogArg
  large : ℕ → LogArg
  int_ptr : Option ℕ → LogArg
  word_ptr : Option ℕ → LogArg
  large_ptr : Option ℕ → LogArg
  char_ptr : Option (List ℕ) → LogArg
  wchar_ptr : Option (List ℕ) → LogArg
  unicode_string : Option (ℕ × Option (List ℕ)) → LogArg
  object_attributes : Option (List ℕ) → LogArg
  variant : Variant → LogArg
  argv : List (Option (List ℕ)) → LogArg
  wargv : List (Option (List ℕ)) → LogArg

-- The path and key functions, whether the 64 KB for a path are there, the width of a pointer, and what
-- fresh memory holds, and the limits on buffers.
pub record LogServices : Type 0 where
  pub ensure_absolute_ascii_path : List ℕ → List ℕ
  pub ensure_absolute_unicode_path : List ℕ → List ℕ
  pub path_from_object_attributes : List ℕ → List ℕ
  pub get_full_key_path : ℕ → Option (List ℕ) → List ℕ
  pub get_key_path : Option (List ℕ) → List ℕ
  pub get_full_keyvalue_path : ℕ → Option (List ℕ) → List ℕ
  pub get_full_keyvalue_path_us : ℕ → Option (ℕ × Option (List ℕ)) → List ℕ
  pub allocated : Bool
  pub is_64_bit : Bool
  pub junk : ℕ
  pub sizes : LogSizes

-- A value and the arguments behind it.
abbrev pub Popped : Type 0
Popped = Option (Element × List LogArg)

unfoldable pub popped : Option Text → List LogArg → Popped
popped t args = t >>= λ s. some (text s, args)

-- The keys of one argument that is not a path of the system.
unfoldable pub number_value : ℕ → Bool → List LogArg → Popped
number_value key is_64_bit (int n ∷ args) =
    if key == b'i' || key == b'h' then some (int32 n, args) else none
number_value key is_64_bit (word n ∷ args) =
    if key == b'l' || key == b'p' then some (log_ptr is_64_bit n, args) else none
number_value key is_64_bit (large n ∷ args) = if key == b'x' then some (int64 n, args) else none
number_value key is_64_bit (int_ptr p ∷ args) =
    if key == b'I' || key == b'H'
    then some (int32 (elim p [ none ↦ 0 | some n ↦ n ]), args)
    else none
number_value key is_64_bit (word_ptr p ∷ args) =
    if key == b'L' || key == b'P'
    then some (log_ptr is_64_bit (elim p [ none ↦ 0 | some n ↦ n ]), args)
    else none
number_value key is_64_bit (large_ptr p ∷ args) =
    if key == b'X' then some (int64 (elim p [ none ↦ 0 | some n ↦ n ]), args) else none
number_value key is_64_bit _ = none

-- `if (s == NULL) s = "";`
unfoldable pub or_empty : Option (List ℕ) → List ℕ
or_empty none = 0 ∷ []
or_empty (some mem) = mem

-- `if (s == NULL) { s = ""; len = 0; }`
unfoldable pub length_or_zero : Option (List ℕ) → ℕ → ℕ
length_or_zero none len = 0
length_or_zero (some mem) len = len

module _ (e : LogServices) where
  -- `log_wstring` of a text that ends with a terminator.
  unfoldable pub wide_result : List ℕ → List LogArg → Popped
  wide_result path args = popped (log_wstring e.junk (some (path ++ 0 ∷ [])) terminated) args

  unfoldable pub text_value : ℕ → List LogArg → Popped
  text_value key (char_ptr s ∷ args) =
      if key == b's'
      then popped (log_string e.junk (some (or_empty s)) terminated) args
      else until_nul (or_empty s) >>= (λ path.
        popped (log_string e.junk (some (e.ensure_absolute_ascii_path path ++ 0 ∷ [])) terminated)
          args)
  text_value key _ = none

  unfoldable pub wide_text_value : ℕ → List LogArg → Popped
  wide_text_value key (wchar_ptr s ∷ args) =
      if key == b'u'
      then popped (log_wstring e.junk (some (or_empty s)) terminated) args
      else until_nul (or_empty s) >>= (λ path.
        wide_result (if e.allocated then e.ensure_absolute_unicode_path path else []) args)
  wide_text_value key _ = none

  unfoldable pub counted_value : List LogArg → Popped
  counted_value (int len ∷ (char_ptr s ∷ args)) =
      popped (log_string e.junk (some (or_empty s)) (extent_of (length_or_zero s len))) args
  counted_value _ = none

  unfoldable pub counted_wide_value : List LogArg → Popped
  counted_wide_value (int len ∷ (wchar_ptr s ∷ args)) =
      popped (log_wstring e.junk (some (or_empty s)) (extent_of (length_or_zero s len))) args
  counted_wide_value _ = none

  unfoldable pub sized_value : (Option (List ℕ) → ℕ → Option Text) → List LogArg → Popped
  sized_value log (word len ∷ (char_ptr s ∷ args)) = popped (log s len) args
  sized_value log _ = none

  -- `len == NULL ? 0 : *len`
  unfoldable pub sized_ptr_value : (Option (List ℕ) → ℕ → Option Text) → List LogArg → Popped
  sized_ptr_value log (int_ptr len ∷ (char_ptr s ∷ args)) =
      popped (log s (elim len [ none ↦ 0 | some n ↦ n ])) args
  sized_ptr_value log _ = none

  unfoldable pub key_value : ℕ → List LogArg → Popped
  key_value key (word reg ∷ (char_ptr s ∷ args)) =
      wide_result
        (if key == b'e' then e.get_full_key_path reg s else e.get_full_keyvalue_path reg s) args
  key_value key _ = none

  unfoldable pub wide_key_value : ℕ → List LogArg → Popped
  wide_key_value key (word reg ∷ (wchar_ptr s ∷ args)) =
      wide_result
        (if key == b'E' then e.get_full_key_path reg s else e.get_full_keyvalue_path reg s) args
  wide_key_value key _ = none

  unfoldable pub counted_key_value : List LogArg → Popped
  counted_key_value (word reg ∷ (unicode_string s ∷ args)) =
      wide_result (e.get_full_keyvalue_path_us reg s) args
  counted_key_value _ = none

  -- `K`, and `O`, where a NULL is an empty string.
  unfoldable pub object_value : ℕ → List LogArg → Popped
  object_value key (object_attributes obj ∷ args) =
      if key == b'K' then wide_result (e.get_key_path obj) args else elim obj [
        | none ↦ popped (log_string e.junk (some []) (exactly 0)) args
        | some name ↦
            wide_result
              (if e.allocated
                then e.ensure_absolute_unicode_path (e.path_from_object_attributes name)
                else [])
              args
      ]
  object_value key _ = none

  unfoldable pub unicode_value : List LogArg → Popped
  unicode_value (unicode_string none ∷ args) = popped (log_string e.junk (some []) (exactly 0)) args
  unicode_value (unicode_string (some (bytes, mem)) ∷ args) =
      popped (log_wstring e.junk mem (exactly (bytes / 2))) args
  unicode_value _ = none

  unfoldable pub argv_value : List LogArg → Popped
  argv_value (int argc ∷ (argv v ∷ args)) = log_argv e.junk argc v >>= λ x. some (x, args)
  argv_value _ = none

  unfoldable pub wargv_value : List LogArg → Popped
  wargv_value (int argc ∷ (wargv v ∷ args)) = log_wargv e.junk argc v >>= λ x. some (x, args)
  wargv_value _ = none

  unfoldable pub registry_value : ℕ → List LogArg → Popped
  registry_value key (int type ∷ (int size ∷ (char_ptr regdata ∷ args))) =
      log_registry e.junk (key == b'r') type size regdata >>= λ x. some (x, args)
  registry_value key _ = none

  unfoldable pub variant_value : List LogArg → Popped
  variant_value (variant v ∷ args) = log_variant e.junk v >>= λ x. some (x, args)
  variant_value _ = none

  -- The tests on `key`; each of the keys logs one value.
  unfoldable pub known_value : ℕ → List LogArg → Popped
  known_value key args =
      if key == b's' || key == b'f'
      then text_value key args
      else if key == b'S'
      then counted_value args
      else if key == b'u' || key == b'F'
      then wide_text_value key args
      else if key == b'U'
      then counted_wide_value args
      else if key == b'b'
      then sized_value (log_buffer e.sizes) args
      else if key == b'B'
      then sized_ptr_value (log_buffer e.sizes) args
      else if key == b'c'
      then sized_value (log_large_buffer e.sizes) args
      else if key == b'C'
      then sized_ptr_value (log_large_buffer e.sizes) args
      else if key == b'n'
      then variant_value args
      else if key == b'e' || key == b'v'
      then key_value key args
      else if key == b'E' || key == b'V'
      then wide_key_value key args
      else if key == b'k'
      then counted_key_value args
      else if key == b'K' || key == b'O'
      then object_value key args
      else if key == b'o'
      then unicode_value args
      else if key == b'a'
      then argv_value args
      else if key == b'A'
      then wargv_value args
      else if key == b'r' || key == b'R'
      then registry_value key args
      else number_value key e.is_64_bit args
