-- ===== src/Tests/LogPasses.antt =====
-- A registry value, and a call with the format `i2sx`: four named arguments, two of them strings, in a 64-bit process.
use capemon.Base.{length, arith, ℕ, ◌≡◌, refl, true, some, none, List, [], ◌∷◌, map}
use capemon.Utf8.{utf8_do_encode, utf8_length, utf8_strlen_ascii, char_to_ushort}
use capemon.Utf8.Strings.{until_nul, read_units, int_bytes, fill, utf8_string, exactly_units}
use capemon.Base.{store}
use capemon.NumText.{num_to_string}
use capemon.Log.Values.{int32, int64, text, binary, istr, log_string}
use capemon.Log.Format.{
  LogArg, int, large, char_ptr, LogServices, known_value, text_value, number_value, popped,
  or_empty,
}
use capemon.Log.Walk.{
  Info, Values, info_pass, value_pass, walk, rounds, info_round, value_round, is_count,
  is_format_key, takes_one, takes_two, takes_three, ignored_count, skip_args, pop_name, omit_name,
  typestr,
}
use capemon.Log.Registry.{
  log_registry, multi_sz, pointed, first_units, count_strings, escaped, escape_loop,
}
use capemon.Log.Escapes.{stored, marks}
use capemon.Log.MultiSz.{log_registry-marks}
use capemon.Log.Notes.{named}
use capemon.Log.Environ.{log_new_thread}
use capemon.Log.Reports.{Report, syscall, note_of, note_of-fits}
use capemon.Log.Agreeing.{info_pass-value_pass, numbered}

abbrev services : LogServices
services = record {
  ensure_absolute_ascii_path = λ path. path;
  ensure_absolute_unicode_path = λ path. path;
  path_from_object_attributes = λ name. name;
  get_full_key_path = λ reg name. [];
  get_key_path = λ name. [];
  get_full_keyvalue_path = λ reg name. [];
  get_full_keyvalue_path_us = λ reg name. [];
  allocated = true;
  is_64_bit = true;
  junk = 0;
  sizes = record { buffer_log_max = 256; large_buffer_log_max = 2048 };
}

abbrev fmt : List ℕ
fmt = b'i' ∷ b'2' ∷ b's' ∷ b'x' ∷ []

abbrev name : ℕ → LogArg
name c = char_ptr (some (c ∷ 0 ∷ []))

abbrev args : List LogArg
args =
    name b'a'
    ∷ int 7
    ∷ name b'b'
    ∷ char_ptr (some (b'h' ∷ b'i' ∷ 0 ∷ []))
    ∷ name b'c'
    ∷ char_ptr none
    ∷ name b'd'
    ∷ large 9
    ∷ []

abbrev info_result : Info
info_result = record {
  argnum = 6;
  info_args = [];
  names =
      (b'2' ∷ [], b'a' ∷ [], none)
      ∷ (b'3' ∷ [], b'b' ∷ [], none)
      ∷ (b'4' ∷ [], b'c' ∷ [], none)
      ∷ (b'5' ∷ [], b'd' ∷ [], some b'p')
      ∷ [];
  unknown = [];
}

abbrev value_result : Values
value_result = record {
  argnum = 6;
  value_args = [];
  values =
      (b'2' ∷ [], int32 7)
      ∷ (b'3' ∷ [], text (binary (b'h' ∷ b'i' ∷ [])))
      ∷ (b'4' ∷ [], text (binary []))
      ∷ (b'5' ∷ [], int64 9)
      ∷ [];
}

info_pass_result : info_pass services fmt args ≡ some info_result
unfolding info_pass walk rounds info_round is_count is_format_key takes_one takes_two takes_three
    ignored_count skip_args pop_name typestr istr num_to_string until_nul
info_pass_result = refl

value_pass_result : value_pass services fmt args ≡ some value_result
unfolding value_pass walk rounds value_round is_count is_format_key takes_one takes_two takes_three
    omit_name istr num_to_string until_nul known_value text_value number_value popped or_empty
    log_string utf8_string read_units utf8_strlen_ascii utf8_length utf8_do_encode char_to_ushort
    int_bytes store fill
value_pass_result = refl

info_pass-value_pass_example :
    ([] ≡ value_result.value_args)
    × (map (λ n. n.0) info_result.names ≡ numbered 2 4)
    × (map (λ x. x.0) value_result.values ≡ numbered 2 4)
info_pass-value_pass_example =
    info_pass-value_pass services fmt args info_result value_result info_pass_result
      value_pass_result refl

-- Three strings of one letter have no room for their marks, one of five letters has.
too_short : log_registry 0 true 7 7 (some (b'a' ∷ 0 ∷ b'b' ∷ 0 ∷ b'c' ∷ 0 ∷ 0 ∷ [])) ≡ none
unfolding log_registry multi_sz pointed first_units exactly_units count_strings escaped escape_loop
    store
too_short = refl

log_registry-marks_example :
    log_registry 0 true 7 7 (some (b'h' ∷ b'e' ∷ b'l' ∷ b'l' ∷ b'o' ∷ 0 ∷ 0 ∷ []))
    ≡ some (text (binary (b'\\' ∷ b'x' ∷ b'0' ∷ b'0' ∷ [])))
unfolding stored marks
log_registry-marks_example =
    log_registry-marks 0 ((b'h' ∷ b'e' ∷ b'l' ∷ b'l' ∷ b'o' ∷ []) ∷ [])
      (record { some_letter = omega arith; letters = omega arith }, tt) (omega arith) (omega arith)

abbrev a_syscall : Report
a_syscall = syscall 3 (some (b'n' ∷ [])) (some (b'f' ∷ b'g' ∷ [])) 0x1000

-- The identifier of `log_new_thread` is an `int` where the format says a word.
new_thread_result :
    (value_pass services (log_new_thread 7).0 (log_new_thread 7).1 ≡ none)
    × (log_new_thread 7 ≡ (b'l' ∷ [], named "ProcessIdentifier" ∷ int 7 ∷ []))
unfolding log_new_thread value_pass walk value_round is_count is_format_key takes_one takes_two
    takes_three omit_name known_value number_value
new_thread_result = (refl, refl)

note_of-fits_example :
    (i : Info) × (v : Values) × (info_pass services (note_of a_syscall).0 (note_of a_syscall).1
      ≡ some i)
    × (value_pass services (note_of a_syscall).0 (note_of a_syscall).1 ≡ some v)
    × (i.unknown ≡ [])
    × (i.info_args ≡ [])
    × (v.value_args ≡ [])
    × (length v.values ≡ length (note_of a_syscall).0)
note_of-fits_example = note_of-fits a_syscall services
