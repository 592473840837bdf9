-- ===== src/Sleep/Messages.antt =====
-- A wait for messages that is cut to ten seconds.
use capemon.Base.{
  ℕ, ◌+◌, ◌*◌, ◌^◌, ◌≤◌, ◌<◌, ◌≡◌, ◌≢◌, refl, true, false, not, ◌&&◌, ◌||◌, ◌==◌, leb, arith,
}
use capemon.Sleep.{Sleep, skip_time, report, msg_wait_for_multiple_objects_ex}

-- While skipping is active and not forced off, also where it is forced on, and with a time skipped
-- below 2 ^ 63: a wait for messages without handles of 30 seconds to an hour is cut to ten seconds, and
-- the clock gets the rest for up to 439,496 milliseconds; for longer waits it gets at least
-- 4,294,967,296 units of 100 nanoseconds less than was cut off.
pub msg_wait_lost :
    (force random : ℕ) (s : Sleep) (milli : ℕ)
    → s.sleep_skip_active ≡ true
    → force ≢ 0
    → 30000 ≤ milli
    → milli ≤ 3600000
    → s.time_skipped < 2 ^ 63
    → ((msg_wait_for_multiple_objects_ex force random s 0 milli).1 ≡ 10000)
      × (milli ≤ 439496
          → (msg_wait_for_multiple_objects_ex force random s 0 milli).0.time_skipped + 10000 * 10000
            ≡ s.time_skipped + milli * 10000)
      × (439496 < milli
          → (msg_wait_for_multiple_objects_ex force random s 0 milli).0.time_skipped
              + 10000 * 10000
              + 2 ^ 32
            ≤ s.time_skipped + milli * 10000)
unfolding msg_wait_for_multiple_objects_ex report skip_time
msg_wait_lost force random s milli active forced low high fits =
    let clamps : (s.sleep_skip_active
          && (leb 30000 milli && (leb milli 3600000 && not (force == 0))))
        ≡ true =
      ground arith in
    let timed : ((milli == 0xFFFFFFFF) || not (0 == 0)) ≡ false = ground arith in
    rw (msg_wait_for_multiple_objects_ex, timed, clamps)
      (refl, λ short. omega arith, λ long. omega arith)
