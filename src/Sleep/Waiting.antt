-- ===== src/Sleep/Waiting.antt =====
-- A wait, and the clock that the program reads after it.
use capemon.Base.{ℕ, ◌+◌, ◌≡◌, true, false, Option, none, some}
use capemon.Sleep.{
  Sleep, negate, Outcome, returns, calls, nt_wait_for_single_object, nt_delay_execution,
  nt_set_timer, nt_set_timer_ex,
}

-- The handlers that wait for a time.
pub data Waiter : Type 0 where
  delay_execution : Waiter
  wait_for_single_object : Waiter
  set_timer : Waiter
  set_timer_ex : Waiter

-- The time that the system waits.
abbrev pub waited_for : Outcome → ℕ
waited_for (returns status) = 0
waited_for (calls delay) = negate delay

abbrev pub timeout_for : Option ℕ → ℕ
timeout_for none = 0
timeout_for (some timeout) = negate timeout

-- A call of a handler with a delay: the state afterwards, and the time that the system waits.
unfoldable pub wait : Waiter → ℕ → ℕ → ℕ → Sleep → ℕ → Sleep × ℕ
wait delay_execution force now random s delay =
    let r = nt_delay_execution force true true now random s delay in (r.0, waited_for r.1)
wait wait_for_single_object force now random s delay =
    let r = nt_wait_for_single_object force true now random s (some delay) in (r.0, timeout_for r.1)
wait set_timer force now random s delay =
    let r = nt_set_timer force now s delay in (r.0, negate r.1)
wait set_timer_ex force now random s delay =
    let r = nt_set_timer_ex force now s 0 delay in (r.0, negate r.1)

-- What is skipped and what the system waits make up the wait; or skipping has ended, and the system
-- waits for all of it.
pub data Keeps (s : Sleep) (interval : ℕ) : Sleep × ℕ → Type 0 where
  goes_on :
      {r : Sleep × ℕ}
      → r.0.sleep_skip_active ≡ true
      → r.0.time_skipped + r.1 ≡ s.time_skipped + interval
      → Keeps s interval r
  ends : {r : Sleep × ℕ} → r.0.sleep_skip_active ≡ false → r.1 ≡ interval → Keeps s interval r
