-- ===== src/Pipe.antt =====
-- pipe.c: the formatter of the messages to the analyzer, which runs twice, to measure the message
-- and to write it. A pointer is the memory from its address on, `none` is NULL. The count of bytes, an
-- `int`, is a number without a bound: messages of 2 GB are not considered.
pub mod Passes
pub mod Messages
use capemon.Base.{
  ℕ, zero, suc, ◌+◌, ◌/◌, ◌%◌, ◌^◌, Bool, true, false, not, ◌&&◌, Option, none, some, List, [], ◌∷◌,
  ◌++◌, ◌==◌, leb, if◌then◌else◌, length, replicate, take, store,
}
use capemon.Utf8.{utf8_do_encode, char_to_ushort}
use capemon.Utf8.Strings.{until_nul, exactly_units}
use capemon.NumText.{num_to_string, num_to_hex}

-- What `va_arg` can find. An `int` is its 32-bit pattern.
pub data Arg : Type 0 where
  char_ptr : Option (List ℕ) → Arg
  wchar_ptr : Option (List ℕ) → Arg
  int : ℕ → Arg
  ulong_ptr : ℕ → Arg
  -- `Length` in bytes, and the memory at `Buffer`
  unicode_string : Option (ℕ × List ℕ) → Arg
  -- what the attributes name; `none` if they or their `ObjectName` are NULL
  object_attributes : Option (List ℕ) → Arg

-- What the formatter asks of others: the memory map of the process, the path functions, whether the
-- 64 KB for a path are there, and the digits of a pointer (16 in a 64-bit build).
pub record Services : Type 0 where
  pub is_valid_address_range : List ℕ → ℕ → Bool
  pub ensure_absolute_unicode_path : List ℕ → List ℕ
  pub path_from_object_attributes : List ℕ → List ℕ
  pub allocated : Bool
  pub pointer_digits : ℕ

-- What a character of the format asks for: units to emit, with the arguments that are left, or the
-- return of -1. `undefined` is an argument of another type, or a read outside of the memory.
pub data Piece : Type 0 where
  emit : List ℕ → List Arg → Piece
  failed : Piece
  undefined : Piece

unfoldable pub emit_read : Option (List ℕ) → List Arg → Piece
emit_read none args = undefined
emit_read (some units) args = emit units args

-- `len < 0 ? strlen(s) : len` units of `s`.
unfoldable pub counted_units : ℕ → List ℕ → Option (List ℕ)
counted_units len mem = if leb (2 ^ 31) len then until_nul mem else exactly_units len mem

unfoldable pub percent_z : List Arg → Piece
percent_z (char_ptr none ∷ args) = failed
percent_z (char_ptr (some mem) ∷ args) = emit_read (until_nul mem) args
percent_z _ = undefined

unfoldable pub percent_c : List Arg → Piece
percent_c (int n ∷ args) = emit (n % 2 ^ 8 ∷ []) args
percent_c _ = undefined

unfoldable pub percent_wide_z : List Arg → Piece
percent_wide_z (wchar_ptr none ∷ args) = failed
percent_wide_z (wchar_ptr (some mem) ∷ args) = emit_read (until_nul mem) args
percent_wide_z _ = undefined

unfoldable pub percent_o : List Arg → Piece
percent_o (unicode_string none ∷ args) = failed
percent_o (unicode_string (some (bytes, mem)) ∷ args) =
    emit_read (exactly_units (bytes / 2) mem) args
percent_o _ = undefined

unfoldable pub percent_d : List Arg → Piece
percent_d (int n ∷ args) = emit_read (num_to_string 32 n) args
percent_d _ = undefined

unfoldable pub percent_x : List Arg → Piece
percent_x (int n ∷ args) = emit (num_to_hex 8 n) args
percent_x _ = undefined

module _ (e : Services) where
  unfoldable pub percent_f : List Arg → Piece
  percent_f (wchar_ptr none ∷ args) = failed
  percent_f (wchar_ptr (some mem) ∷ args) = elim (until_nul mem) [
    | none ↦ undefined
    | some path ↦ if e.allocated then emit (e.ensure_absolute_unicode_path path) args else failed
  ]
  percent_f _ = undefined

  unfoldable pub percent_s : List Arg → Piece
  percent_s (int len ∷ (char_ptr none ∷ args)) = failed
  percent_s (int len ∷ (char_ptr (some mem) ∷ args)) =
      if not (e.is_valid_address_range mem len)
      then failed
      else emit_read (counted_units len mem) args
  percent_s _ = undefined

  unfoldable pub percent_wide_s : List Arg → Piece
  percent_wide_s (int len ∷ (wchar_ptr none ∷ args)) = failed
  percent_wide_s (int len ∷ (wchar_ptr (some mem) ∷ args)) =
      if not (e.is_valid_address_range mem len)
      then failed
      else emit_read (counted_units len mem) args
  percent_wide_s _ = undefined

  unfoldable pub percent_wide_o : List Arg → Piece
  percent_wide_o (object_attributes none ∷ args) = failed
  percent_wide_o (object_attributes (some name) ∷ args) =
      if e.allocated
      then emit (e.ensure_absolute_unicode_path (e.path_from_object_attributes name)) args
      else emit [] args
  percent_wide_o _ = undefined

  unfoldable pub percent_p : List Arg → Piece
  percent_p (ulong_ptr n ∷ args) = emit (num_to_hex e.pointer_digits n) args
  percent_p _ = undefined

  -- "-- UNKNOWN FORMAT STRING -- "
  abbrev unknown_format : List ℕ
  unknown_format =
      b'-' ∷ b'-' ∷ 32 ∷ b'U' ∷ b'N' ∷ b'K' ∷ b'N' ∷ b'O' ∷ b'W' ∷ b'N' ∷ 32 ∷ b'F' ∷ b'O' ∷ b'R'
      ∷ b'M' ∷ b'A' ∷ b'T' ∷ 32 ∷ b'S' ∷ b'T' ∷ b'R' ∷ b'I' ∷ b'N' ∷ b'G' ∷ 32 ∷ b'-' ∷ b'-' ∷ 32
      ∷ []

  -- The character behind a `%`, in the order of the tests.
  unfoldable pub directive : ℕ → List Arg → Piece
  directive c args =
      if c == b'%'
      then emit (b'%' ∷ []) args
      else if c == b'z'
      then percent_z args
      else if c == b'c'
      then percent_c args
      else if c == b'Z'
      then percent_wide_z args
      else if c == b'F'
      then percent_f args
      else if c == b's'
      then percent_s args
      else if c == b'S'
      then percent_wide_s args
      else if c == b'o'
      then percent_o args
      else if c == b'O'
      then percent_wide_o args
      else if c == b'd'
      then percent_d args
      else if c == b'x'
      then percent_x args
      else if c == b'p'
      then percent_p args
      else emit unknown_format args

  -- A character of the format, `pending` if the one before began a directive.
  unfoldable pub piece : Bool → ℕ → List Arg → Piece
  piece true c args = directive c args
  piece false c args = if c == b'%' then emit [] args else emit (char_to_ushort c ∷ []) args

unfoldable pub next_pending : Bool → ℕ → Bool
next_pending pending c = not pending && (c == b'%')

-- `out`: NULL, or a buffer and the place of the next byte. `none` is a write outside the buffer.
abbrev pub Out : Type 0
Out = Option (List ℕ × ℕ)

unfoldable pub pipe_utf8x : Out → ℕ → Option (Out × ℕ)
pipe_utf8x none x = some (none, length (utf8_do_encode x))
pipe_utf8x (some (buf, pos)) x =
    let bytes = utf8_do_encode x in
    elim (store buf pos bytes) [
      | none ↦ none
      | some buf' ↦ some (some (buf', pos + length bytes), length bytes)
    ]

-- `ret += _pipe_ascii(...)` and `ret += _pipe_unicode(...)`, on the units that they read.
unfoldable pub pipe_units : Out → ℕ → List ℕ → Option (Out × ℕ)
pipe_units out ret [] = some (out, ret)
pipe_units out ret (x ∷ units) = elim (pipe_utf8x out x) [
  | none ↦ none
  | some (out', n) ↦ pipe_units out' (ret + n) units
]

-- The state of the loop, or how it was left.
pub data Progress : Type 0 where
  running : Bool → Out → ℕ → List Arg → Progress
  minus_one : Out → Progress
  out_of_bounds : Progress

unfoldable pub perform : Bool → Out → ℕ → Piece → Progress
perform pending out ret failed = minus_one out
perform pending out ret undefined = out_of_bounds
perform pending out ret (emit units args) = elim (pipe_units out ret units) [
  | none ↦ out_of_bounds
  | some (out', ret') ↦ running pending out' ret' args
]

-- A `%` at the end lets the loop walk past the terminator.
unfoldable pub at_terminator : Progress → Progress
at_terminator (running true out ret args) = out_of_bounds
at_terminator st = st

module _ (e : Services) where
  unfoldable pub pipe_step : Progress → ℕ → Progress
  pipe_step (running pending out ret args) c =
      perform (next_pending pending c) out ret (piece e pending c args)
  pipe_step (minus_one out) c = minus_one out
  pipe_step out_of_bounds c = out_of_bounds

  unfoldable pub pipe_loop : Progress → List ℕ → Progress
  pipe_loop st [] = st
  pipe_loop st (c ∷ fmt) = pipe_loop (pipe_step st c) fmt

  -- `fmt` is the text before the terminator.
  unfoldable pub pipe_sprintf : Out → List ℕ → List Arg → Progress
  pipe_sprintf out fmt args = at_terminator (pipe_loop (running false out 0 args) fmt)

-- What `pipe` hands to the named pipe or the file.
pub data Sent : Type 0 where
  nothing : Sent
  message : List ℕ → Sent
  broken : Sent

-- The bytes `buf[0]` to `buf[len - 1]` after the second pass, whose result is not looked at.
unfoldable pub sent_of : ℕ → Progress → Sent
sent_of len (running pending (some (buf, pos)) ret args) = message (take len buf)
sent_of len (running pending none ret args) = broken
sent_of len (minus_one (some (buf, pos))) = message (take len buf)
sent_of len (minus_one none) = broken
sent_of len out_of_bounds = broken

unfoldable pub pipe : Services → List ℕ → List Arg → Sent
pipe e fmt args = elim (pipe_sprintf e none fmt args) [
  | minus_one out ↦ nothing
  | out_of_bounds ↦ broken
  | running pending out len rest ↦
      if len == 0
      then nothing
      else sent_of len (pipe_sprintf e (some (replicate (len + 1) 0, 0)) fmt args)
]
