-- ===== src/Sleep/Runs.antt =====
-- Sequences of calls of the handlers.
use capemon.Base.{ℕ, ◌≡◌, refl, ap, ◌∙◌, List, [], ◌∷◌, map}
use capemon.Sleep.{Sleep}
use capemon.Sleep.Calls.{SleepCall, sleep_call, counts, sleep_call-IsPlain}

-- The calls with the clock and the random number that each meets.
pub record Step : Type 0 where
  pub now : ℕ
  pub random : ℕ
  pub call : SleepCall

unfoldable pub run_sleep_calls : ℕ → Sleep → List Step → Sleep
run_sleep_calls force s [] = s
run_sleep_calls force s (t ∷ ts) =
    run_sleep_calls force (sleep_call force t.now t.random s t.call) ts

abbrev pub without_random : Step → Step
without_random t = record t { random = 0 }

-- In every sequence of calls of the handlers that wait, no count of small waits ever moves and no
-- random number is ever used, so their fake passing of time under many small waits never happens.
pub run_sleep_calls_lem :
    (force : ℕ) (ts : List Step) (s : Sleep)
    → (counts (run_sleep_calls force s ts) ≡ counts s)
      × (run_sleep_calls force s ts ≡ run_sleep_calls force s (map without_random ts))
unfolding run_sleep_calls
run_sleep_calls_lem force [] s = (refl, refl)
run_sleep_calls_lem force (t ∷ ts) s =
    let (same, plain) = sleep_call-IsPlain force t.now t.random s t.call in
    let (same', rest) = run_sleep_calls_lem force ts (sleep_call force t.now t.random s t.call) in
    (same' ∙ same, rest ∙ ap (λ (x : Sleep). run_sleep_calls force x (map without_random ts)) plain)
