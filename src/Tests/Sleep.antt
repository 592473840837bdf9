-- ===== src/Tests/Sleep.antt =====
-- Waits of a process that has run for ten seconds, of which two were skipped.
use capemon.Base.{
  ℕ, ◌+◌, ◌-◌, ◌*◌, ◌^◌, ◌≤◌, ◌<◌, ◌≡◌, refl, true, false, List, [], ◌∷◌, arith, map,
}
use capemon.Sleep.{
  Sleep, negate, nt_delay_execution, calls, relative_delay, clamp_or_skip, milliseconds, div10000,
  is_positive32, is_positive64, is_less64, skip_limit, report, small_delay, disable_sleep_skip,
  msg_wait_for_multiple_objects_ex,
}
use capemon.Sleep.Clocks.{raw_gettickcount}
use capemon.Sleep.Waiting.{wait, delay_execution}
use capemon.Sleep.Calls.{counts}
use capemon.Sleep.Runs.{Step, run_sleep_calls, without_random, run_sleep_calls_lem}
use capemon.Sleep.Calls as Calls
use capemon.Sleep.Messages.{msg_wait_lost}

abbrev sleeper : Sleep
sleeper = record {
  sleep_skip_active = true;
  time_skipped = 20_000_000;
  time_start = 1000;
  num_skipped = 1;
  num_small = 0;
  num_msg_small = 0;
  num_wait_small = 0;
  log = [];
}

-- `force_sleepskip` is -1 by default.
abbrev default_force : ℕ
default_force = 0xFFFFFFFF

-- One second, relative.
abbrev one_second : ℕ
one_second = 2 ^ 64 - 10_000_000

abbrev a_minute : ℕ
a_minute = 2 ^ 64 - 600_000_000

-- That wait switches skipping off, so the clock goes back: it read 120,001,000 before.
clock_goes_back :
    (wait delay_execution default_force 100_001_000 777 sleeper one_second).0.sleep_skip_active
    ≡ false
unfolding wait nt_delay_execution relative_delay clamp_or_skip milliseconds div10000 negate
    is_positive64 is_positive32 is_less64 skip_limit small_delay disable_sleep_skip report
clock_goes_back = refl

-- A wait of a minute is cut to ten seconds.
minute_is_cut :
    (nt_delay_execution default_force true true 100_001_000 777 sleeper a_minute).1
    ≡ calls (2 ^ 64 - 100_000_000)
unfolding nt_delay_execution relative_delay clamp_or_skip milliseconds div10000 negate is_positive64
    is_positive32 is_less64 skip_limit
minute_is_cut = refl

ticks : raw_gettickcount 10 0x3_0000_1000 0x0FA0_0000 0 ≡ 0xe000fa00
unfolding raw_gettickcount
ticks = refl

abbrev some_steps : List Step
some_steps =
    record { now = 100_001_000; random = 777; call = Calls.msg_wait 0 3 }
    ∷ record { now = 100_002_000; random = 888; call = Calls.delay_execution true true one_second }
    ∷ []

run_sleep_calls_lem_example :
    (counts (run_sleep_calls default_force sleeper some_steps) ≡ counts sleeper)
    × (run_sleep_calls default_force sleeper some_steps
        ≡ run_sleep_calls default_force sleeper (map without_random some_steps))
run_sleep_calls_lem_example = run_sleep_calls_lem default_force some_steps sleeper

msg_wait_lost_example :
    ((msg_wait_for_multiple_objects_ex default_force 777 sleeper 0 3_600_000).1 ≡ 10000)
    × (3_600_000 ≤ 439496
        → (msg_wait_for_multiple_objects_ex default_force 777 sleeper 0 3_600_000).0.time_skipped
            + 10000 * 10000
          ≡ 20_000_000 + 3_600_000 * 10000)
    × (439496 < 3_600_000
        → (msg_wait_for_multiple_objects_ex default_force 777 sleeper 0 3_600_000).0.time_skipped
            + 10000 * 10000
            + 2 ^ 32
          ≤ 20_000_000 + 3_600_000 * 10000)
msg_wait_lost_example =
    msg_wait_lost default_force 777 sleeper 3_600_000 refl (omega arith) (omega arith) (omega arith)
      (omega arith)
