-- ===== src/Log/Calls.antt =====
-- log.c: `loq` from the point where the bson library has built the message: the repeats of the last
-- message, the descriptions, and the events that other threads add.
use capemon.Base.{
  ℕ, zero, suc, ◌+◌, ◌-◌, ◌*◌, ◌%◌, ◌^◌, Bool, true, false, not, ◌&&◌, ◌||◌, Option, none, some,
  List, [], ◌∷◌, ◌++◌, ◌==◌, leb, if◌then◌else◌, length, drop, get_elem?, set, bytes_eq,
}
use capemon.Utf8.Strings.{int_bytes}
use capemon.Log.{
  log_raw_direct, set_special_api, Log, send_log, write_lastlog, log_flush, Settings, LastLog,
  ◌>>=◌,
}

-- A call of `loq`: `info` is the description of the call, and the message is `head`, the four bytes of
-- the count of repeats, and `body`, all made by the bson library. The first test for the lock is
-- `entered`, the one of the `log_flush` at the exit `flush_entered`.
pub record ApiCall : Type 0 where
  pub index : ℕ
  pub info : List ℕ
  pub head : List ℕ
  pub body : List ℕ
  pub entered : Bool
  pub flush_entered : Bool

unfoldable pub message_with : ℕ → ApiCall → List ℕ
message_with count e = e.head ++ (int_bytes count ++ e.body)

unfoldable pub compare_offset : ApiCall → ℕ
compare_offset e = length e.head + 4

-- `(*repeated_ptr)++`; `none` is an access outside the block.
unfoldable pub increment_at : ℕ → List ℕ → Option (List ℕ)
increment_at zero (a ∷ (b ∷ (c ∷ (d ∷ rest)))) =
    some (int_bytes ((a + b * 2 ^ 8 + c * 2 ^ 16 + d * 2 ^ 24 + 1) % 2 ^ 32) ++ rest)
increment_at zero buf = none
increment_at (suc n) [] = none
increment_at (suc n) (x ∷ buf) = increment_at n buf >>= λ buf'. some (x ∷ buf')

-- The lengths, and then `memcmp`.
unfoldable pub is_repeat : LastLog → ApiCall → Bool
is_repeat l e =
    let old = drop l.compare_offset l.buf in
    let new = drop (compare_offset e) (message_with 0 e) in
    length old == length new && bytes_eq old new

unfoldable pub count_repeat : LastLog → Log → Option Log
count_repeat l s = increment_at (l.compare_offset - 4) l.buf >>= λ buf.
    some (record s { lastlog = some (record { buf = buf; compare_offset = l.compare_offset }) })

-- The lock is held, so the `log_flush` in here enters it again.
unfoldable pub flush_last : Settings → Log → Option Log
flush_last c s = if c.force_flush == 1 then log_flush c true s else write_lastlog c s

unfoldable pub compare_last : Settings → ApiCall → Log → Option Log
compare_last c e s = elim s.lastlog [
  | none ↦ some s
  | some l ↦ if is_repeat l e then count_repeat l s else flush_last c s
]

-- `if (lastlog.buf == NULL)`
unfoldable pub hold : ApiCall → Log → Log
hold e s = elim s.lastlog [
  | some l ↦ s
  | none ↦ record s {
    lastlog = some (record { buf = message_with 0 e; compare_offset = compare_offset e });
  }
]

-- LOG_ID_PROCESS, LOG_ID_THREAD and LOG_ID_ENVIRON
unfoldable pub is_critical : ℕ → Bool
is_critical index = index == 0 || (index == 1 || (index == 8))

unfoldable pub emit_message : Settings → ApiCall → Log → Option Log
emit_message c e s =
    if is_critical e.index
    then (log_raw_direct c s.stream (message_with 0 e) >>= λ stream.
        some (record s { stream = stream }))
    else compare_last c e s >>= λ s'. some (hold e s')

-- `API_OTHER` is 0.
unfoldable pub check_special : Log → Log
check_special s =
    if not s.special_api_triggered then record s { last_api_logged = 0 } else record s {
      special_api_triggered = false;
      lastlog = if s.delete_last_log then none else s.lastlog;
    }

-- `none` also for an index outside `logtbl_explained`.
unfoldable pub explain : Settings → ApiCall → Log → Option Log
explain c e s = get_elem? s.logtbl_explained e.index >>= λ explained.
    if explained
    then some s
    else log_raw_direct c s.stream e.info >>= λ stream.
        some (record s { stream = stream; logtbl_explained = set s.logtbl_explained e.index true })

unfoldable pub log_locked : Settings → ApiCall → Log → Option Log
log_locked c e s =
    if not e.entered then some s else explain c e (check_special s) >>= λ s'. emit_message c e s'

-- Below `LOG_ID_PREDEFINED_MAX` a message is never suspended.
unfoldable pub loq : Settings → ApiCall → Log → Option Log
loq c e s =
    if leb 10 e.index && c.suspend_logging
    then some s
    else log_locked c e s >>= λ s'.
        if c.force_flush == 2 then log_flush c e.flush_entered s' else some s'

unfoldable pub run_loq : Settings → List ApiCall → Log → Option Log
run_loq c [] s = some s
run_loq c (e ∷ entries) s = loq c e s >>= λ s'. run_loq c entries s'

-- What the threads of the process do to the log, each under its locks: a call that logs, a
-- `log_flush`, a `set_special_api` and a round of `_log_thread`.
pub data LogEvent : Type 0 where
  logs : ApiCall → LogEvent
  flushes : Bool → LogEvent
  reports : ℕ → Bool → Bool → LogEvent
  sends : LogEvent

unfoldable pub do_event : Settings → LogEvent → Log → Option Log
do_event c (logs e) s = loq c e s
do_event c (flushes entered) s = log_flush c entered s
do_event c (reports api delete entered) s = some (set_special_api api delete entered s)
do_event c sends s = send_log c s.stream >>= λ stream. some (record s { stream = stream })

unfoldable pub run_events : Settings → List LogEvent → Log → Option Log
run_events c [] s = some s
run_events c (event ∷ events) s = do_event c event s >>= λ s'. run_events c events s'
