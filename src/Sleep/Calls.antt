-- ===== src/Sleep/Calls.antt =====
-- One call of a handler counts no small wait.
use capemon.Base.{
  ℕ, sym, ◌≡◌, refl, Bool, true, false, not, ◌&&◌, ◌||◌, Option, none, some, ◌==◌, leb, arith,
  Bool-cases, Option-cases, inl, inr,
}
use capemon.Sleep.{
  Sleep, SleepLog, waited, is_positive32, negate, relative_delay, clamp_or_skip, skip_time, report,
  disable_sleep_skip, infinite_delay, small_wait, small_delay, small_msg_wait, count_skipped,
  is_less64, skip_limit, nt_wait_for_single_object, nt_delay_execution, nt_set_timer,
  nt_set_timer_ex, msg_wait_for_multiple_objects_ex,
}

-- The handlers with their arguments.
pub data SleepCall : Type 0 where
  wait_for_single_object : Bool → Option ℕ → SleepCall
  delay_execution : Bool → Bool → ℕ → SleepCall
  msg_wait : ℕ → ℕ → SleepCall
  set_timer : ℕ → SleepCall
  set_timer_ex : ℕ → ℕ → SleepCall

unfoldable pub sleep_call : ℕ → ℕ → ℕ → Sleep → SleepCall → Sleep
sleep_call force now random s (wait_for_single_object main_caller timeout) =
    (nt_wait_for_single_object force main_caller now random s timeout).0
sleep_call force now random s (delay_execution accessible aligned delay) =
    (nt_delay_execution force accessible aligned now random s delay).0
sleep_call force now random s (msg_wait count milli) =
    (msg_wait_for_multiple_objects_ex force random s count milli).0
sleep_call force now random s (set_timer due) = (nt_set_timer force now s due).0
sleep_call force now random s (set_timer_ex information_class due) =
    (nt_set_timer_ex force now s information_class due).0

-- The counts of small waits.
pub record Counts : Type 0 where
  pub small : ℕ
  pub msg_small : ℕ
  pub wait_small : ℕ

abbrev pub counts : Sleep → Counts
counts s = record {
  small = s.num_small;
  msg_small = s.num_msg_small;
  wait_small = s.num_wait_small;
}

-- Where a wait is not shortened, skipping is off once `disable_sleep_skip` was called.
clamp_or_skip-none :
    (force : ℕ) (s : Sleep) (interval : ℕ)
    → clamp_or_skip force s interval ≡ none
    → (s.sleep_skip_active && is_positive32 force) ≡ false
unfolding clamp_or_skip
clamp_or_skip-none force s interval h = ground arith

clamp_or_skip-counts :
    (force : ℕ) (s s' : Sleep) (interval delay : ℕ)
    → clamp_or_skip force s interval ≡ some (s', delay)
    → counts s' ≡ counts s
unfolding clamp_or_skip skip_time report
clamp_or_skip-counts force s s' interval delay h = ground arith

-- Skipping is off behind `disable_sleep_skip`, so a small wait is only logged.
module _ (force : ℕ) (s : Sleep) (off : (s.sleep_skip_active && is_positive32 force) ≡ false) where
  disable_sleep_skip-off :
      ((disable_sleep_skip force s).sleep_skip_active ≡ false)
      × (counts (disable_sleep_skip force s) ≡ counts s)
  unfolding disable_sleep_skip
  disable_sleep_skip-off = elim (Bool-cases (s.sleep_skip_active && not (is_positive32 force))) [
    | inl on ↦ rw (disable_sleep_skip, on) (refl, refl)
    | inr not_on ↦ rw (disable_sleep_skip, not_on) (ground arith, refl)
  ]

  small_wait-off :
      (random milli : ℕ)
      → small_wait (disable_sleep_skip force s) random milli
        ≡ report (disable_sleep_skip force s) (waited milli)
  unfolding small_wait
  small_wait-off random milli = rw (small_wait, disable_sleep_skip-off.0) refl

  small_delay-off :
      (random milli : ℕ)
      → small_delay (disable_sleep_skip force s) random milli
        ≡ report (disable_sleep_skip force s) (waited milli)
  unfolding small_delay
  small_delay-off random milli = rw (small_delay, disable_sleep_skip-off.0) refl

  small_msg_wait-off :
      (random milli : ℕ)
      → small_msg_wait (disable_sleep_skip force s) random milli
        ≡ report (disable_sleep_skip force s) (waited milli)
  unfolding small_msg_wait
  small_msg_wait-off random milli = rw (small_msg_wait, disable_sleep_skip-off.0) refl

  counts-off : (entry : SleepLog) → counts (report (disable_sleep_skip force s) entry) ≡ counts s
  unfolding report
  counts-off entry = disable_sleep_skip-off.1

counts-report : (s : Sleep) (entry : SleepLog) → counts (report s entry) ≡ counts s
unfolding report
counts-report s entry = refl

counts-skipped :
    (s : Sleep) (amount milli : ℕ) → counts (count_skipped (skip_time s amount) milli) ≡ counts s
unfolding count_skipped skip_time report
counts-skipped s amount milli = ground arith

-- A call counts no small wait, and does not use its random number.
abbrev pub IsPlain : ℕ → ℕ → ℕ → Sleep → SleepCall → Type 0
IsPlain force now random s c =
    (counts (sleep_call force now random s c) ≡ counts s)
    × (sleep_call force now random s c ≡ sleep_call force now 0 s c)

pub sleep_call-IsPlain :
    (force now random : ℕ) (s : Sleep) (c : SleepCall) → IsPlain force now random s c
unfolding sleep_call nt_wait_for_single_object nt_delay_execution nt_set_timer nt_set_timer_ex
    msg_wait_for_multiple_objects_ex skip_time
sleep_call-IsPlain force now random s (wait_for_single_object main_caller none) =
    (unfold report in ground arith, refl)
sleep_call-IsPlain force now random s (wait_for_single_object main_caller (some timeout)) =
    elim (Bool-cases (timeout == infinite_delay)) [
      | inl forever ↦
          rw (sleep_call, nt_wait_for_single_object, forever) (unfold report in ground arith, refl)
      | inr finite ↦
          elim (Option-cases (clamp_or_skip force s (negate (relative_delay s now timeout)))) [
            | inl stays ↦
                let off = clamp_or_skip-none force s _ stays in
                rw
                  (sleep_call, nt_wait_for_single_object, finite, stays, small_wait-off force s off)
                  (counts-off force s off _, sym (small_wait-off force s off 0 _))
            | inr ((s', delay), shorter) ↦
                rw (sleep_call, nt_wait_for_single_object, finite, shorter)
                  (clamp_or_skip-counts force s s' _ delay shorter, refl)
          ]
    ]
sleep_call-IsPlain force now random s (delay_execution false aligned delay) = (refl, refl)
sleep_call-IsPlain force now random s (delay_execution true false delay) = (refl, refl)
sleep_call-IsPlain force now random s (delay_execution true true delay) =
    elim (Bool-cases (delay == infinite_delay)) [
      | inl forever ↦ rw (sleep_call, nt_delay_execution, forever) (counts-report s _, refl)
      | inr finite ↦ elim (Bool-cases (s.sleep_skip_active && is_less64 now (skip_limit s))) [
        | inl early ↦
            rw (sleep_call, nt_delay_execution, finite, early) (counts-skipped s _ _, refl)
        | inr late ↦
            elim (Option-cases (clamp_or_skip force s (negate (relative_delay s now delay)))) [
              | inl stays ↦
                  let off = clamp_or_skip-none force s _ stays in
                  rw
                    (
                      sleep_call,
                      nt_delay_execution,
                      finite,
                      late,
                      stays,
                      small_delay-off force s off,
                    )
                    (counts-off force s off _, sym (small_delay-off force s off 0 _))
              | inr ((s', delay'), shorter) ↦
                  rw (sleep_call, nt_delay_execution, finite, late, shorter)
                    (clamp_or_skip-counts force s s' _ delay' shorter, refl)
            ]
      ]
    ]
sleep_call-IsPlain force now random s (msg_wait count milli) =
    elim (Bool-cases ((milli == 0xFFFFFFFF) || not (count == 0))) [
      | inl other ↦ rw (sleep_call, msg_wait_for_multiple_objects_ex, other) (refl, refl)
      | inr timed ↦
          elim (Bool-cases
            (s.sleep_skip_active && (leb 30000 milli && (leb milli 3600000 && not (force == 0))))) [
              | inl clamps ↦
                  rw (sleep_call, msg_wait_for_multiple_objects_ex, timed, clamps)
                    (counts-report (skip_time s _) _, refl)
              | inr longer ↦ elim (Bool-cases (s.sleep_skip_active && is_positive32 force)) [
                | inl skips ↦
                    rw (sleep_call, msg_wait_for_multiple_objects_ex, timed, longer, skips)
                      (counts-report s _, refl)
                | inr off ↦
                    rw
                      (
                        sleep_call,
                        msg_wait_for_multiple_objects_ex,
                        timed,
                        longer,
                        off,
                        small_msg_wait-off force s off,
                      )
                      (counts-off force s off _, sym (small_msg_wait-off force s off 0 _))
              ]
            ]
    ]
sleep_call-IsPlain force now random s (set_timer due) = elim (Bool-cases (due == infinite_delay)) [
  | inl forever ↦ rw (sleep_call, nt_set_timer, forever) (counts-report s _, refl)
  | inr finite ↦ elim (Option-cases (clamp_or_skip force s (negate (relative_delay s now due)))) [
    | inl stays ↦ rw (sleep_call, nt_set_timer, finite, stays) (refl, refl)
    | inr ((s', delay), shorter) ↦
        rw (sleep_call, nt_set_timer, finite, shorter)
          (clamp_or_skip-counts force s s' _ delay shorter, refl)
  ]
]
sleep_call-IsPlain force now random s (set_timer_ex information_class due) =
    elim (Bool-cases (information_class == 0)) [
      | inr other ↦ rw (sleep_call, nt_set_timer_ex, other) (refl, refl)
      | inl zero_class ↦ elim (Bool-cases (due == infinite_delay)) [
        | inl forever ↦
            rw (sleep_call, nt_set_timer_ex, zero_class, forever) (counts-report s _, refl)
        | inr finite ↦
            elim (Option-cases (clamp_or_skip force s (negate (relative_delay s now due)))) [
              | inl stays ↦ rw (sleep_call, nt_set_timer_ex, zero_class, finite, stays) (refl, refl)
              | inr ((s', delay), shorter) ↦
                  rw (sleep_call, nt_set_timer_ex, zero_class, finite, shorter)
                    (clamp_or_skip-counts force s s' _ delay shorter, refl)
            ]
      ]
    ]
