-- ===== src/Pipe/Messages.antt =====
-- What `pipe` sends, and the report of a file in full.
use mathlib.Core.List.{append-nil}
use capemon.Base.{
  length-replicate, ℕ, ◌+◌, ◌^◌, ◌≤◌, ◌<◌, ◌≡◌, refl, ap, ◌∙◌, true, false, none, some, List, [],
  ◌∷◌, ◌++◌, ◌==◌, leb, if◌then◌else◌, arith, length, drop, take, replicate, inl, inr, Bool-cases,
}
use capemon.Utf8.{utf8_do_encode, char_to_ushort}
use capemon.Utf8.Decode.{encode_all}
use capemon.NumText.{num_to_string}
use capemon.Utf8.Strings.{exactly_units-length}
use capemon.NumText.ReadBack.{IsDecimal, num_to_string-IsDecimal}
use capemon.Pipe.{
  Arg, int, wchar_ptr, Services, piece, directive, percent_d, percent_wide_s, emit_read,
  counted_units, next_pending, running, pipe_sprintf, nothing, message, sent_of, pipe,
}
use capemon.Pipe.Passes.{at, wrote, format_units, behind, pipe_loop-format_units}

take_written : (bytes more : List ℕ) → take (length bytes) (bytes ++ more) ≡ bytes
take_written [] more = refl
take_written (b ∷ bytes) more = ap (◌∷◌ b) (take_written bytes more)

module _ (e : Services) (fmt : List ℕ) (args rest : List Arg) (text : List ℕ)
    (formats : format_units e false fmt args ≡ some (text, rest)) where
  measuring : pipe_sprintf e none fmt args ≡ running false none (length (encode_all text)) rest
  unfolding pipe_sprintf
  measuring =
      pipe_loop-format_units e fmt false none 0 args rest text formats tt
      ∙ ap (λ (n : ℕ). running false none n rest) (omega arith)

  writing :
      (buf : List ℕ)
      → length (encode_all text) ≤ length buf
      → let bytes = encode_all text in
        pipe_sprintf e (some (buf, 0)) fmt args
        ≡ running false (some (bytes ++ drop (length bytes) buf, length bytes)) (length bytes) rest
  unfolding pipe_sprintf
  writing buf room =
      pipe_loop-format_units e fmt false (some ([], buf)) 0 args rest text formats room
      ∙ ap (λ (n : ℕ). running false (at (wrote (some ([], buf)) (encode_all text))) n rest)
          (omega arith)

  -- If a format with its arguments has the text `text`, the pass without a buffer returns the length
  -- of what `utf8_do_encode` writes for that text, and the pass into any buffer with that much room
  -- returns the same, writes that form at its start, and leaves the rest of the buffer as it was.
  pub pipe_sprintf_lem :
      let n = length (encode_all text) in
      (pipe_sprintf e none fmt args ≡ running false none n rest)
      × ((buf : List ℕ)
          → n ≤ length buf
          → pipe_sprintf e (some (buf, 0)) fmt args
            ≡ running false (some (encode_all text ++ drop n buf, n)) n rest)
  pipe_sprintf_lem = (measuring, writing)

  -- Under the same condition `pipe` sends what `utf8_do_encode` writes for the text, or nothing if it is empty.
  pub pipe_lem :
      pipe e fmt args
      ≡ (if length (encode_all text) == 0 then nothing else message (encode_all text))
  unfolding pipe sent_of
  pipe_lem =
      let n = length (encode_all text) in
      let blank : List ℕ = replicate (n + 1) 0 in
      let second = writing blank (omega (arith, length-replicate {A = ℕ} (n + 1) 0)) in
      elim (Bool-cases (n == 0)) [
        | inl empty ↦ rw (pipe, measuring, empty) refl
        | inr some_text ↦
            rw
              (
                pipe,
                measuring,
                some_text,
                second,
                sent_of,
                take_written (encode_all text) (drop n blank),
              )
              refl
      ]

-- The format of the report of a file, "FILE_NEW:%d,%S".
abbrev pub file_new_format : List ℕ
file_new_format =
    b'F' ∷ b'I' ∷ b'L' ∷ b'E' ∷ b'_' ∷ b'N' ∷ b'E' ∷ b'W' ∷ b':' ∷ b'%' ∷ b'd' ∷ b',' ∷ b'%' ∷ b'S'
    ∷ []

abbrev file_new_tail : List ℕ → List ℕ → List ℕ
file_new_tail digits path =
    b'I' ∷ b'L' ∷ b'E' ∷ b'_' ∷ b'N' ∷ b'E' ∷ b'W' ∷ b':' ∷ (digits ++ b',' ∷ path)

-- The text of the report.
abbrev pub file_new_text : List ℕ → List ℕ → List ℕ
file_new_text digits path = b'F' ∷ file_new_tail digits path

module _ (e : Services) (pid len : ℕ) (mem digits : List ℕ) where
  file_new-format_units :
      num_to_string 32 pid ≡ some digits
      → len < 2 ^ 31
      → len ≤ length mem
      → e.is_valid_address_range mem len ≡ true
      → format_units e false file_new_format (int pid ∷ int len ∷ wchar_ptr (some mem) ∷ [])
        ≡ some (file_new_text digits (take len mem), [])
  unfolding format_units behind piece directive percent_d percent_wide_s emit_read counted_units
      next_pending char_to_ushort
  file_new-format_units printed small inside valid =
      let positive : leb (2 ^ 31) len ≡ false = ground arith in
      rw (printed, valid, positive, exactly_units-length len mem inside, append-nil (take len mem))
        refl

some_bytes : (cs : List ℕ) → (length (encode_all (b'F' ∷ cs)) == 0) ≡ false
unfolding encode_all utf8_do_encode
some_bytes cs = ground arith

-- The report of a file whose path of `len` characters can be read sends "FILE_NEW:", the decimal
-- form of the process id, a comma, and the path, each unit as `utf8_do_encode` writes it.
pub pipe-file_new :
    (e : Services) (pid len : ℕ) (mem : List ℕ)
    → pid < 2 ^ 32
    → len < 2 ^ 31
    → len ≤ length mem
    → e.is_valid_address_range mem len ≡ true
    → (digits : List ℕ) × IsDecimal 10 pid digits
      × (pipe e file_new_format (int pid ∷ int len ∷ wchar_ptr (some mem) ∷ [])
          ≡ message (encode_all (file_new_text digits (take len mem))))
pipe-file_new e pid len mem small_pid small inside valid =
    let (digits, printed, good) = num_to_string-IsDecimal 32 pid (omega arith) small_pid in
    (
      digits,
      good,
      pipe_lem e file_new_format _ [] (file_new_text digits (take len mem))
            (file_new-format_units e pid len mem digits printed small inside valid)
          ∙ rw (some_bytes (file_new_tail digits (take len mem))) refl,
    )
