-- ===== src/Tests/Pipe.antt =====
-- pipe.c on small inputs.
use capemon.Base.{
  ℕ, ◌≤◌, ◌≡◌, refl, true, false, none, some, List, [], ◌∷◌, ◌++◌, arith, length, drop,
}
use capemon.Utf8.{char_to_ushort}
use capemon.Utf8.Strings.{until_nul}
use capemon.Utf8.Decode.{encode_all}
use capemon.NumText.{num_to_hex}
use capemon.NumText.ReadBack.{IsDecimal}
use capemon.Pipe.{
  Arg, int, wchar_ptr, char_ptr, Services, running, pipe_sprintf, pipe_loop, pipe_step, perform,
  pipe_units, pipe_utf8x, at_terminator, piece, directive, percent_x, percent_z, emit_read,
  next_pending, nothing, message, broken, pipe,
}
use capemon.Pipe.Passes.{format_units, behind}
use capemon.Pipe.Messages.{file_new_format, file_new_text, pipe_sprintf_lem, pipe-file_new}

abbrev services : Services
services = record {
  is_valid_address_range = λ mem len. true;
  ensure_absolute_unicode_path = λ p. p;
  path_from_object_attributes = λ p. p;
  allocated = true;
  pointer_digits = 16;
}

-- "%x-%z" of 255 and "é" in Latin-1.
abbrev hex_and_text : List ℕ
hex_and_text = b'%' ∷ b'x' ∷ b'-' ∷ b'%' ∷ b'z' ∷ []

abbrev hex_and_text_args : List Arg
hex_and_text_args = int 255 ∷ char_ptr (some (0xe9 ∷ 0 ∷ [])) ∷ []

abbrev hex_and_text_units : List ℕ
hex_and_text_units = b'0' ∷ b'0' ∷ b'0' ∷ b'0' ∷ b'0' ∷ b'0' ∷ b'F' ∷ b'F' ∷ b'-' ∷ 0xe9 ∷ []

hex_and_text_formats :
    format_units services false hex_and_text hex_and_text_args ≡ some (hex_and_text_units, [])
unfolding format_units behind piece directive percent_x percent_z emit_read until_nul num_to_hex
    next_pending char_to_ushort
hex_and_text_formats = refl

pipe_sprintf_lem_example :
    let n = length (encode_all hex_and_text_units) in
    (pipe_sprintf services none hex_and_text hex_and_text_args ≡ running false none n [])
    × ((buf : List ℕ)
        → n ≤ length buf
        → pipe_sprintf services (some (buf, 0)) hex_and_text hex_and_text_args
          ≡ running false (some (encode_all hex_and_text_units ++ drop n buf, n)) n [])
pipe_sprintf_lem_example =
    pipe_sprintf_lem services hex_and_text hex_and_text_args [] hex_and_text_units
      hex_and_text_formats

-- `C:a`, its terminator, and what lies behind.
abbrev path_memory : List ℕ
path_memory = b'C' ∷ b':' ∷ b'a' ∷ 0 ∷ 0x99 ∷ []

pipe-file_new_example :
    (digits : List ℕ) × IsDecimal 10 1234 digits
    × (pipe services file_new_format (int 1234 ∷ int 3 ∷ wchar_ptr (some path_memory) ∷ [])
        ≡ message (encode_all (file_new_text digits (b'C' ∷ b':' ∷ b'a' ∷ []))))
pipe-file_new_example =
    pipe-file_new services 1234 3 path_memory (omega arith) (omega arith) (omega arith) refl

-- A NULL pointer ends the formatting, and a `%` at the end walks past the terminator.
null_pointer : pipe services (b'%' ∷ b'z' ∷ []) (char_ptr none ∷ []) ≡ nothing
unfolding pipe pipe_sprintf pipe_loop pipe_step perform at_terminator piece directive percent_z
    pipe_units next_pending
null_pointer = refl

open_percent : pipe services (b'a' ∷ b'%' ∷ []) [] ≡ broken
unfolding pipe pipe_sprintf pipe_loop pipe_step perform at_terminator piece directive pipe_units
    pipe_utf8x next_pending
open_percent = refl
