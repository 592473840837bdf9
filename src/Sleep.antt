-- ===== src/Sleep.antt =====
-- hook_sleep.c: waits that are shortened, and the time that was skipped. A time or a delay is the bit
-- pattern of its `LARGE_INTEGER`, below 2 ^ 64; milliseconds and `force_sleepskip` are 32-bit patterns.
-- `now` is what the clock of the system says at the call and `random` the number of `randint`.
pub mod Core
pub mod Clocks
pub mod Waiting
pub mod Calls
pub mod Runs
pub mod Messages
use capemon.Base.{
  ℕ, suc, ◌+◌, ◌-◌, ◌*◌, ◌/◌, ◌%◌, ◌^◌, Bool, true, false, not, ◌&&◌, ◌||◌, Option, none, some,
  List, [], ◌∷◌, ◌==◌, ltb, leb, if◌then◌else◌,
}

-- What is reported of a wait, newest first in the state.
pub data SleepLog : Type 0 where
  infinite : SleepLog
  skipped : ℕ → SleepLog
  skipped_limit : SleepLog
  waited : ℕ → SleepLog
  small_limit : SleepLog

pub record Sleep : Type 0 where
  pub sleep_skip_active : Bool
  pub time_skipped : ℕ
  pub time_start : ℕ
  pub num_skipped : ℕ
  pub num_small : ℕ
  pub num_msg_small : ℕ
  pub num_wait_small : ℕ
  pub log : List SleepLog

-- `x > 0` of a signed number of 64 and of 32 bits, and `x < y` of 64 bits.
unfoldable pub is_positive64 : ℕ → Bool
is_positive64 x = ltb 0 x && ltb x (2 ^ 63)

unfoldable pub is_positive32 : ℕ → Bool
is_positive32 x = ltb 0 x && ltb x (2 ^ 31)

unfoldable pub is_less64 : ℕ → ℕ → Bool
is_less64 x y = ltb ((x + 2 ^ 63) % 2 ^ 64) ((y + 2 ^ 63) % 2 ^ 64)

unfoldable pub negate : ℕ → ℕ
negate x = (2 ^ 64 - x) % 2 ^ 64

-- `interval / 10000` of a signed number.
unfoldable pub div10000 : ℕ → ℕ
div10000 x = if ltb x (2 ^ 63) then x / 10000 else negate ((2 ^ 64 - x) / 10000)

-- `0x8000000000000000`
abbrev pub infinite_delay : ℕ
infinite_delay = 2 ^ 63

-- Ten seconds: `10000 * 10000`.
abbrev pub ten_seconds : ℕ
ten_seconds = 100_000_000

unfoldable pub disable_sleep_skip : ℕ → Sleep → Sleep
disable_sleep_skip force s =
    if s.sleep_skip_active && not (is_positive32 force)
    then record s { sleep_skip_active = false }
    else s

-- An absolute time as a relative one, with the skipped time counted as passed.
unfoldable pub relative_delay : Sleep → ℕ → ℕ → ℕ
relative_delay s now delay =
    let left = (now + s.time_skipped + 2 ^ 64 - delay) % 2 ^ 64 in
    if s.sleep_skip_active && is_positive64 delay
    then if is_positive64 left then 0 else left
    else delay

-- `(unsigned long)(interval / 10000)`
unfoldable pub milliseconds : ℕ → ℕ
milliseconds interval = div10000 interval % 2 ^ 32

unfoldable pub skip_time : Sleep → ℕ → Sleep
skip_time s amount = record s { time_skipped = (s.time_skipped + amount) % 2 ^ 64 }

unfoldable pub report : Sleep → SleepLog → Sleep
report s entry = record s { log = entry ∷ s.log }

-- The branches that shorten a wait, with the delay that goes on to the system.
unfoldable pub clamp_or_skip : ℕ → Sleep → ℕ → Option (Sleep × ℕ)
clamp_or_skip force s interval =
    let milli = milliseconds interval in
    if s.sleep_skip_active && (leb 30000 milli && (leb milli 3600000 && not (force == 0)))
    then some (
      report (skip_time s (interval + 2 ^ 64 - ten_seconds)) (skipped milli),
      2 ^ 64 - ten_seconds,
    )
    else if s.sleep_skip_active && is_positive32 force
    then some (report (skip_time s interval) (skipped milli), 0)
    else none

-- The end of `NtWaitForSingleObject` for a wait that is not shortened.
unfoldable pub small_wait : Sleep → ℕ → ℕ → Sleep
small_wait s random milli =
    if s.sleep_skip_active && leb milli 10
    then if ltb s.num_wait_small 20
      then record (report s (waited milli)) { num_wait_small = suc s.num_wait_small }
      else if s.num_wait_small == 20
      then record (report s small_limit) { num_wait_small = suc s.num_wait_small }
      else skip_time s (random * 10000)
    else report s (waited milli)

-- The state afterwards and the timeout handed to the system.
unfoldable pub nt_wait_for_single_object : ℕ → Bool → ℕ → ℕ → Sleep → Option ℕ → Sleep × Option ℕ
nt_wait_for_single_object force main_caller now random s none =
    ((if main_caller then report s infinite else s), none)
nt_wait_for_single_object force main_caller now random s (some timeout) =
    let newint = relative_delay s now timeout in
    let interval = negate newint in
    let s1 = disable_sleep_skip force s in
    if timeout == infinite_delay
    then ((if main_caller then report s infinite else s), some timeout)
    else elim (clamp_or_skip force s interval) [
      | some (s', delay) ↦ (s', some delay)
      | none ↦ (small_wait s1 random (milliseconds interval), some newint)
    ]

-- What `NtDelayExecution` does: return a status, or hand a delay to the system.
pub data Outcome : Type 0 where
  returns : ℕ → Outcome
  calls : ℕ → Outcome

-- `time_start.QuadPart + MAX_SLEEP_SKIP_DIFF * 10000`
unfoldable pub skip_limit : Sleep → ℕ
skip_limit s = (s.time_start + 50_000_000) % 2 ^ 64

unfoldable pub count_skipped : Sleep → ℕ → Sleep
count_skipped s milli =
    if ltb s.num_skipped 20
    then record (report s (skipped milli)) { num_skipped = suc s.num_skipped }
    else if s.num_skipped == 20
    then record (report s skipped_limit) { num_skipped = suc s.num_skipped }
    else s

unfoldable pub small_delay : Sleep → ℕ → ℕ → Sleep
small_delay s random milli =
    if s.sleep_skip_active && leb milli 10
    then if ltb s.num_small 20
      then record (report s (waited milli)) { num_small = suc s.num_small }
      else if s.num_small == 20
      then record (report s small_limit) { num_small = suc s.num_small }
      else skip_time s (random * 10000)
    else report s (waited milli)

-- `delay` is what `DelayInterval` points to.
unfoldable pub nt_delay_execution : ℕ → Bool → Bool → ℕ → ℕ → Sleep → ℕ → Sleep × Outcome
nt_delay_execution force accessible aligned now random s delay =
    let newint = relative_delay s now delay in
    let interval = negate newint in
    let milli = milliseconds interval in
    if not accessible
    then (s, returns 0xC0000005)
    else if not aligned
    then (s, returns 0x80000002)
    else if delay == infinite_delay
    then (report s infinite, calls delay)
    else if s.sleep_skip_active && is_less64 now (skip_limit s)
    then (count_skipped (skip_time s interval) milli, returns 0)
    else elim (clamp_or_skip force s interval) [
      | some (s', delay') ↦ (s', calls delay')
      | none ↦ (small_delay (disable_sleep_skip force s) random milli, calls newint)
    ]

unfoldable pub small_msg_wait : Sleep → ℕ → ℕ → Sleep
small_msg_wait s random milli =
    if s.sleep_skip_active && leb milli 10
    then if ltb s.num_msg_small 20
      then record (report s (waited milli)) { num_msg_small = suc s.num_msg_small }
      else if s.num_msg_small == 20
      then record (report s small_limit) { num_msg_small = suc s.num_msg_small }
      else skip_time s (random * 10000)
    else report s (waited milli)

-- The state afterwards and the milliseconds handed to the system. The product that is added is one
-- of 32 bits.
unfoldable pub msg_wait_for_multiple_objects_ex : ℕ → ℕ → Sleep → ℕ → ℕ → Sleep × ℕ
msg_wait_for_multiple_objects_ex force random s count milli =
    let s1 = disable_sleep_skip force s in
    if (milli == 0xFFFFFFFF) || not (count == 0)
    then (s, milli)
    else if s.sleep_skip_active && (leb 30000 milli && (leb milli 3600000 && not (force == 0)))
    then (report (skip_time s ((milli - 10000) * 10000 % 2 ^ 32)) (skipped milli), 10000)
    else if s.sleep_skip_active && is_positive32 force
    then (report s (skipped milli), 0)
    else (small_msg_wait s1 random milli, milli)

-- The state afterwards and the due time handed to the system.
unfoldable pub nt_set_timer : ℕ → ℕ → Sleep → ℕ → Sleep × ℕ
nt_set_timer force now s due =
    let newint = relative_delay s now due in
    if due == infinite_delay
    then (report s infinite, due)
    else elim (clamp_or_skip force s (negate newint)) [
      | some (s', delay) ↦ (s', delay)
      | none ↦ (s, newint)
    ]

-- The due time handed to the system, and the one left in the structure of the caller, which is put
-- back if it was changed.
unfoldable pub nt_set_timer_ex : ℕ → ℕ → Sleep → ℕ → ℕ → Sleep × ℕ × ℕ
nt_set_timer_ex force now s information_class due =
    let newint = relative_delay s now due in
    if not (information_class == 0)
    then (s, due, due)
    else if due == infinite_delay
    then (report s infinite, due, due)
    else elim (clamp_or_skip force s (negate newint)) [
      | some (s', delay) ↦ (s', delay, due)
      | none ↦ (s, newint, due)
    ]

-- `first_process` is 0 in a child process.
unfoldable pub init_sleep_skip : ℕ → ℕ → Sleep → ℕ → Sleep
init_sleep_skip force now s first_process =
    let s1 : Sleep = record s { time_start = now } in
    if first_process == 0 then disable_sleep_skip force s1 else s1

unfoldable pub init_startup_time : Sleep → ℕ → Sleep
init_startup_time s startup_time = skip_time s (startup_time * 10000)
