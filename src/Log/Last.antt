-- ===== src/Log/Last.antt =====
-- The last message: when the next one counts as its repeat, the count in its bytes, and its way into
-- the buffer.
use mathlib.Core.List.{append-nil}
use mathlib.Core.Path.{subst}
use capemon.Base.{
  ℕ, ◌+◌, ◌*◌, ◌/◌, ◌%◌, ◌^◌, ◌≤◌, ◌<◌, ◌≡◌, ◌∙◌, refl, ap, inl, inr, true, Option, none, some,
  List, [], ◌∷◌, ◌++◌, length, drop, length-append, arith, bytes_eq_refl, bytes_eq_sound,
  Bool-cases, ◌==◌, if◌then◌else◌,
}
use capemon.Utf8.Strings.{int_bytes}
use capemon.Log.{
  Stream, Settings, LastLog, Log, writes_to_file, send_log, log_raw_direct, write_lastlog,
  log_flush, ◌>>=◌,
}
use capemon.Log.Calls.{
  ApiCall, message_with, compare_offset, increment_at, is_repeat, count_repeat, flush_last,
}
use capemon.Log.Writing.{
  progress, text, Supplied, Logged, logged, Flushed, flushed, send_log_lem, log_raw_direct_lem,
}

drop-append : (xs ys : List ℕ) → drop (length xs) (xs ++ ys) ≡ ys
drop-append [] ys = refl
drop-append (x ∷ xs) ys = drop-append xs ys

drop_behind : (xs zs : List ℕ) (k : ℕ) → drop (length xs + 4) (xs ++ (int_bytes k ++ zs)) ≡ zs
unfolding int_bytes
drop_behind [] zs k = refl
drop_behind (x ∷ xs) zs k = ground (arith, drop_behind xs zs k)

-- The block of a message after `count` repeats.
unfoldable pub block : ApiCall → ℕ → LastLog
unfolding message_with compare_offset
block e count = record { buf = message_with count e; compare_offset = compare_offset e }

pub length-message_with :
    (count : ℕ) (e : ApiCall) → length (message_with count e) ≡ length (message_with 0 e)
unfolding message_with int_bytes
length-message_with count e = omega (
  arith,
  length-append e.head (int_bytes count ++ e.body),
  length-append e.head (int_bytes 0 ++ e.body),
)

-- The count is the low 32 bits of `k`.
increment_at_lem :
    (xs zs : List ℕ) (k : ℕ)
    → increment_at (length xs) (xs ++ (int_bytes k ++ zs)) ≡ some (xs ++ (int_bytes (k + 1) ++ zs))
unfolding increment_at int_bytes
increment_at_lem [] zs k =
    let n =
      (k % 256
        + k / 2 ^ 8 % 256 * 2 ^ 8
        + k / 2 ^ 16 % 256 * 2 ^ 16
        + k / 2 ^ 24 % 256 * 2 ^ 24
        + 1)
      % 2 ^ 32 in
    let e0 : n % 256 ≡ (k + 1) % 256 = omega arith in
    let e1 : n / 2 ^ 8 % 256 ≡ (k + 1) / 2 ^ 8 % 256 = omega arith in
    let e2 : n / 2 ^ 16 % 256 ≡ (k + 1) / 2 ^ 16 % 256 = omega arith in
    let e3 : n / 2 ^ 24 % 256 ≡ (k + 1) / 2 ^ 24 % 256 = omega arith in
    λ i. some (e0 i ∷ e1 i ∷ e2 i ∷ e3 i ∷ zs)
increment_at_lem (x ∷ xs) zs k = rw (increment_at_lem xs zs k) refl

-- The next message is a repeat of the last one exactly when the bodies are equal.
pub is_repeat-block : (m e : ApiCall) (k : ℕ) → m.body ≡ e.body → is_repeat (block m k) e ≡ true
unfolding is_repeat block message_with compare_offset
is_repeat-block m e k h =
    ground (arith, drop_behind m.head m.body k, drop_behind e.head e.body 0, bytes_eq_refl e.body)

pub is_repeat_sound : (m e : ApiCall) (k : ℕ) → is_repeat (block m k) e ≡ true → m.body ≡ e.body
unfolding is_repeat block message_with compare_offset
is_repeat_sound m e k h =
    ground (
      arith,
      drop_behind m.head m.body k,
      drop_behind e.head e.body 0,
      bytes_eq_sound m.body e.body,
    )

pub count_repeat-block :
    (m : ApiCall) (k : ℕ) (s : Log)
    → count_repeat (block m k) s ≡ some (record s { lastlog = some (block m (k + 1)) })
unfolding count_repeat block message_with compare_offset
count_repeat-block m k s = ground (arith, increment_at_lem m.head m.body k)

-- The held message goes into the buffer; the rest of the state is as it was.
pub data Emptied (size todo : ℕ) (all : List ℕ) (s : Log) : Option Log → Type 0 where
  emptied :
      (stream : Stream)
      → Supplied size todo stream
      → text stream ≡ all
      → Emptied size todo all s (some (record s { stream = stream; lastlog = none }))

module _ (c : Settings) (file : writes_to_file c ≡ true) (room : 0 < c.buffer_size)
    (allocated : c.allocated ≡ true) where
  write_lastlog-held :
      (s : Log) (l : LastLog)
      → s.lastlog ≡ some l
      → write_lastlog c s ≡ (
          log_raw_direct c s.stream l.buf >>= λ stream.
          some (record s { stream = stream; lastlog = none }))
  unfolding write_lastlog
  write_lastlog-held s l held = ground (arith)

  pub write_lastlog-Emptied :
      (todo : ℕ) (s : Log) (l : LastLog)
      → s.lastlog ≡ some l
      → length l.buf < 2 ^ 32
      → Supplied c.buffer_size (length l.buf + todo) s.stream
      → Emptied c.buffer_size todo (text s.stream ++ l.buf) s (write_lastlog c s)
  write_lastlog-Emptied todo s l held small h =
      rw (write_lastlog-held s l held)
        (go (log_raw_direct_lem c file room todo s.stream l.buf allocated small h))
    where
      go :
          {r : Option Stream}
          → Logged c.buffer_size todo (text s.stream ++ l.buf) r
          → Emptied c.buffer_size todo
              (text s.stream ++ l.buf)
              s
              (r >>= λ stream. some (record s { stream = stream; lastlog = none }))
      go (logged stream ready same) = emptied stream ready same

  -- The same with the buffer empty.
  pub data Cleared (todo : ℕ) (all : List ℕ) (s : Log) : Option Log → Type 0 where
    cleared :
        (stream : Stream)
        → stream.pending ≡ []
        → todo ≤ progress stream.writes
        → stream.sent ≡ all
        → Cleared todo all s (some (record s { stream = stream; lastlog = none }))

  pub log_flush-Cleared :
      (todo : ℕ) (s : Log) (l : LastLog)
      → s.lastlog ≡ some l
      → length l.buf < 2 ^ 32
      → Supplied c.buffer_size (length l.buf + todo) s.stream
      → Cleared todo (text s.stream ++ l.buf) s (log_flush c true s)
  unfolding log_flush
  log_flush-Cleared todo s l held small h = go (write_lastlog-Emptied todo s l held small h)
    where
      sent_on :
          {r : Option Stream} (all : List ℕ)
          → Flushed todo all r
          → Cleared todo all s (r >>= λ stream. some (record s { stream = stream; lastlog = none }))
      sent_on all (flushed stream empty supply same) = cleared stream empty supply same

      go :
          {r : Option Log}
          → Emptied c.buffer_size todo (text s.stream ++ l.buf) s r
          → Cleared todo (text s.stream ++ l.buf) s (
              r >>= λ s'.
              if c.allocated
              then (send_log c s'.stream >>= λ stream. some (record s' { stream = stream }))
              else some s')
      go (emptied stream ready same) = simp allocated (
          sent_on (text s.stream ++ l.buf) (
            subst (λ all. Flushed todo all (send_log c stream)) same
              (send_log_lem c file todo stream ready.supplied)))

  pub flush_last-Emptied :
      (todo : ℕ) (s : Log) (l : LastLog)
      → s.lastlog ≡ some l
      → length l.buf < 2 ^ 32
      → Supplied c.buffer_size (length l.buf + todo) s.stream
      → Emptied c.buffer_size todo (text s.stream ++ l.buf) s (flush_last c s)
  unfolding flush_last
  flush_last-Emptied todo s l held small h = elim (Bool-cases (c.force_flush == 1)) [
    | inl e ↦ simp e (go (log_flush-Cleared todo s l held small h))
    | inr e ↦ simp e (write_lastlog-Emptied todo s l held small h)
  ]
    where
      go :
          {r : Option Log}
          → Cleared todo (text s.stream ++ l.buf) s r
          → Emptied c.buffer_size todo (text s.stream ++ l.buf) s r
      go (cleared stream empty supply same) =
          emptied stream (record { bounded = ground (arith); supplied = ground (arith) })
            (ap (λ p. stream.sent ++ p) empty ∙ (append-nil stream.sent ∙ same))
