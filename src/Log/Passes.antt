-- ===== src/Log/Passes.antt =====
-- Both passes of `loq` take the same arguments, and name and number the same values.
use capemon.Base.{ℕ, ◌≡◌, Bool, true, Option, some, List, arith}
use capemon.Log.Values.{Text, Element, log_buffer, log_large_buffer}
use capemon.Log.Format.{
  LogArg, LogServices, popped, text_value, counted_value, wide_text_value, counted_wide_value,
  sized_value, sized_ptr_value, variant_value, key_value, wide_key_value, counted_key_value,
  object_value, unicode_value, argv_value, wargv_value, registry_value, number_value, known_value,
  wide_result,
}
use capemon.Log.Walk.{skip_args, ignored_count, is_format_key, takes_one, takes_two, takes_three}

module _ (e : LogServices) (args rest : List LogArg) (v : Element) where
  text_value-skip :
      (key : ℕ) → text_value e key args ≡ some (v, rest) → skip_args 1 args ≡ some rest
  unfolding text_value popped skip_args wide_result
  text_value-skip key h = ground arith

  counted_value-skip : counted_value e args ≡ some (v, rest) → skip_args 2 args ≡ some rest
  unfolding counted_value popped skip_args wide_result
  counted_value-skip h = ground arith

  wide_text_value-skip :
      (key : ℕ) → wide_text_value e key args ≡ some (v, rest) → skip_args 1 args ≡ some rest
  unfolding wide_text_value popped skip_args wide_result
  wide_text_value-skip key h = ground arith

  counted_wide_value-skip :
      counted_wide_value e args ≡ some (v, rest) → skip_args 2 args ≡ some rest
  unfolding counted_wide_value popped skip_args wide_result
  counted_wide_value-skip h = ground arith

  sized_value-skip :
      (log : Option (List ℕ) → ℕ → Option Text)
      → sized_value e log args ≡ some (v, rest)
      → skip_args 2 args ≡ some rest
  unfolding sized_value popped skip_args wide_result
  sized_value-skip log h = ground arith

  sized_ptr_value-skip :
      (log : Option (List ℕ) → ℕ → Option Text)
      → sized_ptr_value e log args ≡ some (v, rest)
      → skip_args 2 args ≡ some rest
  unfolding sized_ptr_value popped skip_args wide_result
  sized_ptr_value-skip log h = ground arith

  key_value-skip : (key : ℕ) → key_value e key args ≡ some (v, rest) → skip_args 2 args ≡ some rest
  unfolding key_value popped skip_args wide_result
  key_value-skip key h = ground arith

  wide_key_value-skip :
      (key : ℕ) → wide_key_value e key args ≡ some (v, rest) → skip_args 2 args ≡ some rest
  unfolding wide_key_value popped skip_args wide_result
  wide_key_value-skip key h = ground arith

  counted_key_value-skip : counted_key_value e args ≡ some (v, rest) → skip_args 2 args ≡ some rest
  unfolding counted_key_value popped skip_args wide_result
  counted_key_value-skip h = ground arith

  object_value-skip :
      (key : ℕ) → object_value e key args ≡ some (v, rest) → skip_args 1 args ≡ some rest
  unfolding object_value popped skip_args wide_result
  object_value-skip key h = ground arith

  unicode_value-skip : unicode_value e args ≡ some (v, rest) → skip_args 1 args ≡ some rest
  unfolding unicode_value popped skip_args wide_result
  unicode_value-skip h = ground arith

  argv_value-skip : argv_value e args ≡ some (v, rest) → skip_args 2 args ≡ some rest
  unfolding argv_value popped skip_args wide_result
  argv_value-skip h = ground arith

  wargv_value-skip : wargv_value e args ≡ some (v, rest) → skip_args 2 args ≡ some rest
  unfolding wargv_value popped skip_args wide_result
  wargv_value-skip h = ground arith

  registry_value-skip :
      (key : ℕ) → registry_value e key args ≡ some (v, rest) → skip_args 3 args ≡ some rest
  unfolding registry_value popped skip_args wide_result
  registry_value-skip key h = ground arith

  variant_value-skip : variant_value e args ≡ some (v, rest) → skip_args 1 args ≡ some rest
  unfolding variant_value popped skip_args wide_result
  variant_value-skip h = ground arith

  number_value-skip :
      (key : ℕ) (is_64_bit : Bool)
      → number_value key is_64_bit args ≡ some (v, rest)
      → skip_args 1 args ≡ some rest
  unfolding number_value popped skip_args wide_result
  number_value-skip key is_64_bit h = ground arith

  -- The chain of tests, with the functions shut.
  pub known_value-skip :
      (key : ℕ)
      → known_value e key args ≡ some (v, rest)
      → is_format_key key ≡ true
      → skip_args (ignored_count key) args ≡ some rest
  unfolding known_value ignored_count is_format_key takes_one takes_two takes_three
  known_value-skip key h known = ground (
    arith,
    text_value-skip key,
    counted_value-skip,
    wide_text_value-skip key,
    counted_wide_value-skip,
    sized_value-skip (log_buffer e.sizes),
    sized_value-skip (log_large_buffer e.sizes),
    sized_ptr_value-skip (log_buffer e.sizes),
    sized_ptr_value-skip (log_large_buffer e.sizes),
    variant_value-skip,
    key_value-skip key,
    wide_key_value-skip key,
    counted_key_value-skip,
    object_value-skip key,
    unicode_value-skip,
    argv_value-skip,
    wargv_value-skip,
    registry_value-skip key,
    number_value-skip key e.is_64_bit,
  )
