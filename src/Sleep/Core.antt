-- ===== src/Sleep/Core.antt =====
-- What the shared parts of the handlers do to the clock.
use capemon.Base.{
  ◌⊎◌, ℕ, ◌+◌, ◌-◌, ◌%◌, ◌^◌, ◌≤◌, ◌<◌, ◌≡◌, refl, true, false, not, ◌&&◌, none, some, ◌==◌, ltb,
  leb, if◌then◌else◌, arith, Bool-cases, inl, inr,
}
use capemon.Sleep.{
  Sleep, skipped, is_positive64, is_positive32, negate, relative_delay, milliseconds, clamp_or_skip,
  skip_time, report, ten_seconds, div10000,
}

-- How long a wait for `delay` lasts for one who reads `clock` when it starts: a delay from 2 ^ 63 on is
-- relative, and a smaller one is the time at which the wait ends.
unfoldable pub time_left : ℕ → ℕ → ℕ
time_left clock delay = if ltb delay (2 ^ 63) then delay - clock else 2 ^ 64 - delay

-- While skipping is active, the converted delay is as long as the program means it by its own clock.
pub negate-relative_delay :
    (s : Sleep) (now delay : ℕ)
    → s.sleep_skip_active ≡ true
    → now + s.time_skipped < 2 ^ 63
    → 0 < delay
    → delay < 2 ^ 64
    → negate (relative_delay s now delay) ≡ time_left (now + s.time_skipped) delay
unfolding relative_delay negate is_positive64 time_left
negate-relative_delay s now delay active small nz fits = ground arith

milliseconds-long : (interval : ℕ) → 30000 ≤ milliseconds interval → ten_seconds ≤ interval
unfolding milliseconds div10000 negate
milliseconds-long interval h = elim (Bool-cases (ltb interval (2 ^ 63))) [
  | inl small ↦ ground arith
  | inr large ↦ ground arith
]

skip_time-clamped :
    (s : Sleep) (interval : ℕ)
    → ten_seconds ≤ interval
    → s.time_skipped + interval < 2 ^ 64
    → (s.time_skipped + (interval + 2 ^ 64 - ten_seconds)) % 2 ^ 64 + ten_seconds
      ≡ s.time_skipped + interval
skip_time-clamped s interval long fits = omega arith

-- A wait that is shortened by the handlers: what goes on to the system and what is skipped make up
-- the wait.
pub record IsShortened (s s' : Sleep) (interval delay : ℕ) : Type 0 where
  pub active : s.sleep_skip_active ≡ true
  pub still : s'.sleep_skip_active ≡ true
  pub whole : s'.time_skipped + negate delay ≡ s.time_skipped + interval

-- Either the wait is shortened, or nothing is done; the latter happens under active skipping only
-- where `force_sleepskip` is not positive.
pub clamp_or_skip-cases :
    (force : ℕ) (s : Sleep) (interval : ℕ)
    → s.time_skipped + interval < 2 ^ 64
    → ((clamp_or_skip force s interval ≡ none)
        × (s.sleep_skip_active ≡ true → is_positive32 force ≡ false))
      ⊎ ((s' : Sleep) × (delay : ℕ) × (clamp_or_skip force s interval ≡ some (s', delay))
          × IsShortened s s' interval delay)
unfolding clamp_or_skip
clamp_or_skip-cases force s interval fits =
    elim (Bool-cases (
      s.sleep_skip_active
      && (leb 30000 (milliseconds interval)
          && (leb (milliseconds interval) 3600000 && not (force == 0))))) [
            | inl clamps ↦ inr (
              report (skip_time s (interval + 2 ^ 64 - ten_seconds))
                  (skipped (milliseconds interval)),
              2 ^ 64 - ten_seconds,
              rw (clamp_or_skip, clamps) refl,
              record {
                active = ground arith;
                still = unfold report skip_time in ground arith;
                whole =
                    unfold report skip_time negate in
                    omega (
                      arith,
                      skip_time-clamped s interval (milliseconds-long interval (ground arith)) fits,
                    );
              },
            )
            | inr longer ↦ elim (Bool-cases (s.sleep_skip_active && is_positive32 force)) [
              | inl skips ↦ inr (
                report (skip_time s interval) (skipped (milliseconds interval)),
                0,
                rw (clamp_or_skip, longer, skips) refl,
                record {
                  active = ground arith;
                  still = unfold report skip_time in ground arith;
                  whole = unfold report skip_time negate in omega arith;
                },
              )
              | inr stays ↦ inl (rw (clamp_or_skip, longer, stays) refl, λ active. ground arith)
            ]
          ]
