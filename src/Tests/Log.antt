-- ===== src/Tests/Log.antt =====
-- A log with a buffer of four bytes: a message that is too long for it, two repeats and another
-- message, and a file that takes some bytes at a time.
use capemon.Base.{
  ◌^◌, ℕ, ◌≤◌, ◌≡◌, ◌<◌, ◌==◌, ◌||◌, refl, Bool, true, false, none, some, List, [], ◌∷◌, ◌++◌,
  length, All, replicate, bytes_eq, arith,
}
use capemon.Utf8.Strings.{int_bytes}
use capemon.Log.{
  Write, failed, wrote, Stream, Settings, Job, raw, round, writes_to_file, send_log, run_jobs, Log,
  log_flush, ◌>>=◌, write_loop, do_job, log_raw_direct, raw_loop, send_rest, copy_in, copy_length,
  write_lastlog,
}
use capemon.Log.Calls.{
  ApiCall, message_with, is_critical, run_loq, LogEvent, logs, flushes, reports, sends, run_events,
  log_locked, loq, explain, check_special, emit_message, compare_last, hold, is_repeat,
  compare_offset, count_repeat, increment_at, flush_last,
}
use capemon.Log.Writing.{progress}
use capemon.Log.Jobs.{run_jobs_lem, send_log-stuck}
use capemon.Log.Repeats.{Run, written_bytes, bodies_read, NoneJoins, IsPlain, idle}
use capemon.Log.Runs.{run_loq_lem}
use capemon.Log.Explained.{Item, log_bytes, IsReadable, call_of}
use capemon.Log.Keeping.{Fits}
use capemon.Log.Readable.{fresh, run_events-IsReadable}

abbrev to_file : Settings
to_file = record {
  buffer_size = 4;
  allocated = true;
  debug_socket = false;
  debug_log_handle = false;
  log_handle = true;
  suspend_logging = false;
  force_flush = 0;
}

abbrev ones : ℕ → List Write
ones n = replicate n (wrote 1)

-- One byte in the buffer, and a file that fails, takes nothing, and then a byte at a time.
abbrev one_byte : Stream
one_byte = record { pending = 9 ∷ []; sent = []; writes = failed ∷ wrote 0 ∷ ones 8 }

abbrev two_jobs : List Job
two_jobs = raw (1 ∷ 2 ∷ 3 ∷ 4 ∷ 5 ∷ []) ∷ round ∷ raw (6 ∷ []) ∷ []

two_jobs_result :
    run_jobs to_file two_jobs one_byte
    ≡ some (record { pending = 6 ∷ []; sent = 9 ∷ 1 ∷ 2 ∷ 3 ∷ 4 ∷ 5 ∷ []; writes = ones 2 })
unfolding run_jobs do_job log_raw_direct raw_loop send_rest copy_in copy_length send_log
    writes_to_file write_loop
two_jobs_result = refl

run_jobs_lem_example :
    (s' : Stream) × (run_jobs to_file two_jobs one_byte ≡ some s')
    × (length s'.pending ≤ 4)
    × (s'.sent ++ s'.pending ≡ 9 ∷ 1 ∷ 2 ∷ 3 ∷ 4 ∷ 5 ∷ 6 ∷ [])
unfolding writes_to_file progress
run_jobs_lem_example =
    run_jobs_lem to_file refl (omega arith) refl two_jobs one_byte (omega arith) (omega arith)
      (omega arith)

send_log-stuck_example :
    send_log to_file
      (record { pending = 9 ∷ []; sent = []; writes = failed ∷ wrote 0 ∷ failed ∷ [] })
    ≡ none
unfolding writes_to_file progress
send_log-stuck_example =
    send_log-stuck to_file
      (record { pending = 9 ∷ []; sent = []; writes = failed ∷ wrote 0 ∷ failed ∷ [] }) refl refl
      (λ e. cc)

abbrev call : ℕ → List ℕ → ApiCall
call index body = record {
  index = index;
  info = 100 ∷ index ∷ [];
  head = 200 ∷ [];
  body = body;
  entered = true;
  flush_entered = true;
}

abbrev known : List Bool
known = true ∷ true ∷ true ∷ true ∷ []

abbrev more_calls : List ApiCall
more_calls = call 2 (7 ∷ []) ∷ call 3 (7 ∷ []) ∷ call 2 (8 ∷ []) ∷ []

abbrev start : Stream
start = record { pending = 9 ∷ []; sent = []; writes = failed ∷ ones 30 }

-- The first message with two repeats, of which one is a call of another API, and the last one.
more_calls_result :
    (run_loq to_file (call 2 (7 ∷ []) ∷ more_calls) (idle known false 0 start none) >>= λ s.
    log_flush to_file true s >>= λ s'. some s'.stream.sent)
    ≡ some (9 ∷ 200 ∷ 2 ∷ 0 ∷ 0 ∷ 0 ∷ 7 ∷ 200 ∷ 0 ∷ 0 ∷ 0 ∷ 0 ∷ 8 ∷ [])
unfolding run_loq idle log_flush write_lastlog loq log_locked check_special explain emit_message
    compare_last hold is_repeat compare_offset count_repeat increment_at flush_last message_with
    is_critical int_bytes log_raw_direct raw_loop send_rest copy_in copy_length send_log
    writes_to_file write_loop bytes_eq
more_calls_result = refl

call-IsPlain :
    (index x : ℕ)
    → index < 4
    → (index == 0 || (index == 1 || (index == 8))) ≡ false
    → IsPlain to_file known (call index (x ∷ []))
unfolding message_with is_critical int_bytes
call-IsPlain index x h usual = record {
  entered = refl;
  unsuspended = ground arith;
  known = ground arith;
  usual = usual;
  small = omega arith;
}

run_loq_lem_example :
    (s : Log) × (runs : List Run) × ((run_loq to_file
          (call 2 (7 ∷ []) ∷ more_calls)
          (idle known false 0 start none)
        >>= λ s'. log_flush to_file true s')
      ≡ some s)
    × (s.stream.sent ≡ 9 ∷ written_bytes runs)
    × (bodies_read runs ≡ (7 ∷ []) ∷ (7 ∷ []) ∷ (7 ∷ []) ∷ (8 ∷ []) ∷ [])
    × NoneJoins runs
    × All (λ r. r.count < 2 ^ 32) runs
unfolding message_with int_bytes progress writes_to_file
run_loq_lem_example =
    run_loq_lem to_file known false refl refl (omega arith) refl (call 2 (7 ∷ [])) more_calls 0
      start
      (
        call-IsPlain 2 7 (omega arith) refl,
        (
          call-IsPlain 2 7 (omega arith) refl,
          (call-IsPlain 3 7 (omega arith) refl, (call-IsPlain 2 8 (omega arith) refl, tt)),
        ),
      )
      (omega arith) (omega arith) (omega arith)

call-Fits : (index x : ℕ) → index < 4 → Fits (call index (x ∷ []))
unfolding message_with int_bytes
call-Fits index x h = record {
  inside = omega arith;
  small_info = omega arith;
  small_message = omega arith;
}

abbrev IsCall : ApiCall → Type 0
IsCall e = e.head ≡ 200 ∷ []

-- A critical call, a call that is new, its repeat, a report of a special API and a flush.
abbrev events : List LogEvent
events =
    logs (call 0 (5 ∷ []))
    ∷ logs (call 2 (7 ∷ []))
    ∷ logs (call 2 (7 ∷ []))
    ∷ sends
    ∷ reports 4 true true
    ∷ logs (call 3 (8 ∷ []))
    ∷ flushes true
    ∷ []

run_events-IsReadable_example :
    (s : Log) × (items : List Item) × (run_events to_file events (fresh (failed ∷ ones 40))
      ≡ some s)
    × (s.stream.sent ++ s.stream.pending ≡ log_bytes items)
    × IsReadable items
    × All (λ item. IsCall (call_of item)) items
    × (length s.stream.pending ≤ 4)
unfolding message_with int_bytes progress writes_to_file
run_events-IsReadable_example =
    run_events-IsReadable IsCall to_file refl (omega arith) refl events (failed ∷ ones 40)
      (refl, (refl, (refl, (tt, (tt, (refl, (tt, tt)))))))
      (
        call-Fits 0 5 (omega arith),
        (
          call-Fits 2 7 (omega arith),
          (call-Fits 2 7 (omega arith), (tt, (tt, (call-Fits 3 8 (omega arith), (tt, tt))))),
        ),
      )
      (omega arith)
