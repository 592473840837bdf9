-- ===== src/Sleep/Clocks.antt =====
-- hook_sleep.c: the clocks that the program reads, with the skipped time added.
use capemon.Base.{
  ap, ◌∙◌, ℕ, ◌+◌, ◌*◌, ◌/◌, ◌%◌, ◌^◌, ◌≤◌, ◌<◌, ◌≡◌, Bool, ◌&&◌, ◌==◌, ltb, leb, if◌then◌else◌,
  arith,
}
use capemon.Sleep.{Sleep, milliseconds, div10000}

-- `now` is what the system says.
unfoldable pub get_system_time_as_file_time : Sleep → ℕ → ℕ
get_system_time_as_file_time s now =
    if s.sleep_skip_active then (now + s.time_skipped) % 2 ^ 64 else now

-- `NT_SUCCESS` of a 32-bit pattern.
abbrev pub is_success : ℕ → Bool
is_success status = ltb status (2 ^ 31)

-- The time written and the status returned, which is 0 whatever the system said.
unfoldable pub nt_query_system_time : Sleep → ℕ → ℕ → ℕ × ℕ
nt_query_system_time s status now =
    if is_success status && s.sleep_skip_active
    then ((now + s.time_skipped) % 2 ^ 64, 0)
    else (now, 0)

-- `GetLocalTime` and `GetSystemTime`, through the conversions of the system.
unfoldable pub shift_system_time {ℓ} : {A : Type ℓ} → (A → ℕ) → (ℕ → A) → Sleep → A → A
shift_system_time system_time_to_file_time file_time_to_system_time s t =
    if s.sleep_skip_active
    then file_time_to_system_time ((system_time_to_file_time t + s.time_skipped) % 2 ^ 64)
    else t

-- The counter written and the multiplier kept in `perf_multiplier`; `frequency` is what the system
-- wrote, and is positive.
unfoldable pub nt_query_performance_counter : Sleep → ℕ → ℕ → ℕ → ℕ → ℕ × ℕ
nt_query_performance_counter s perf_multiplier status counter frequency =
    let multiplier = if perf_multiplier == 0 then frequency / 1000 else perf_multiplier in
    if is_success status && s.sleep_skip_active
    then ((counter + div10000 s.time_skipped * multiplier) % 2 ^ 64, multiplier)
    else (counter, perf_multiplier)

-- `tick_count` is the 64-bit count at 0x7ffe0320, `multiplier` the factor at 0x7ffe0004 and
-- `tick_count_low` the count at 0x7ffe0000 of older systems.
unfoldable pub raw_gettickcount : ℕ → ℕ → ℕ → ℕ → ℕ
raw_gettickcount major_version tick_count multiplier tick_count_low =
    if leb 6 major_version
    then tick_count * multiplier % 2 ^ 64 / 2 ^ 24 % 2 ^ 32
    else tick_count_low * multiplier % 2 ^ 64 / 2 ^ 24 % 2 ^ 32

unfoldable pub raw_gettickcount64 : ℕ → ℕ → ℕ
raw_gettickcount64 tick_count multiplier =
    let low = tick_count % 2 ^ 32 in
    let high = tick_count / 2 ^ 32 in
    (low * multiplier % 2 ^ 64 / 2 ^ 24 + high * multiplier % 2 ^ 64 * 2 ^ 8 % 2 ^ 64) % 2 ^ 64

unfoldable pub get_tick_count : Sleep → ℕ → ℕ
get_tick_count s raw =
    if s.sleep_skip_active then (raw + milliseconds s.time_skipped) % 2 ^ 32 else raw

unfoldable pub get_tick_count64 : Sleep → ℕ → ℕ
get_tick_count64 s raw =
    if s.sleep_skip_active then (raw + div10000 s.time_skipped) % 2 ^ 64 else raw

unfoldable pub time_get_time : Sleep → ℕ → ℕ
time_get_time s raw =
    if s.sleep_skip_active then (raw + milliseconds s.time_skipped) % 2 ^ 32 else raw

-- The time of the last input that the program sees, from the third call on in a structure of the
-- right size: now, whatever the system said. `raw` is `raw_gettickcount`.
unfoldable pub get_last_input_info : Sleep → ℕ → ℕ → ℕ → ℕ → ℕ × ℕ
get_last_input_info s lastinput_called raw size time =
    let called = (lastinput_called + 1) % 2 ^ 32 in
    if (ltb 2 called && ltb called (2 ^ 31)) && (size == 8)
    then ((raw + milliseconds s.time_skipped) % 2 ^ 32, called)
    else (time, called)

split_ticks :
    (a b : ℕ)
    → (a + b * 2 ^ 32) % 2 ^ 64 / 2 ^ 24 % 2 ^ 32
      ≡ (a % 2 ^ 64 / 2 ^ 24 + b % 2 ^ 64 * 2 ^ 8 % 2 ^ 64) % 2 ^ 64 % 2 ^ 32
split_ticks a b = omega arith

distribute : (low high m : ℕ) → low * m + high * m * 2 ^ 32 ≡ (low + high * 2 ^ 32) * m
distribute low high m = grind arith

-- On Windows Vista and later the 32-bit count is the low half of the 64-bit one, whatever wraps
-- around in the two products.
raw_gettickcount-raw_gettickcount64 :
    (major_version tick_count multiplier tick_count_low : ℕ)
    → 6 ≤ major_version
    → tick_count < 2 ^ 64
    → multiplier < 2 ^ 32
    → raw_gettickcount major_version tick_count multiplier tick_count_low
      ≡ raw_gettickcount64 tick_count multiplier % 2 ^ 32
unfolding raw_gettickcount raw_gettickcount64
raw_gettickcount-raw_gettickcount64 version tick multiplier low hv ht hm =
    ground (arith, split_ticks (tick % 2 ^ 32 * multiplier) (tick / 2 ^ 32 * multiplier), whole)
  where
    whole : tick % 2 ^ 32 * multiplier + tick / 2 ^ 32 * multiplier * 2 ^ 32 ≡ tick * multiplier
    whole =
        distribute (tick % 2 ^ 32) (tick / 2 ^ 32) multiplier
        ∙ ap (λ (t : ℕ). t * multiplier) (omega arith)
