-- ===== src/Debugger/Current/Runs.antt =====
-- Sequences of calls that set and clear breakpoints of the current thread.
use capemon.Base.{ℕ, ◌≤◌, ◌≡◌, ◌≢◌, refl, Bool, Option, none, some, List, [], ◌∷◌, All}
use capemon.Debugger.Registers.{Context}
use capemon.Debugger.Threads.{Debugger, System}
use capemon.Debugger.Current.{
  Result, context_set_next_available_breakpoint, context_clear_breakpoint,
  context_clear_all_breakpoints_ex,
}
use capemon.Debugger.Current.Keeping.{
  IsWatched, context_clear_breakpoint-IsWatched, context_clear_all_breakpoints_ex-IsWatched,
}
use capemon.Debugger.Current.Setting.{context_set_next_available_breakpoint-IsWatched}

-- The arguments of a call, the last one `NoSetThreadContext`.
pub data BreakpointCall : Type 0 where
  set_next : ℕ → ℕ → ℕ → ℕ → ℕ → Bool → BreakpointCall
  clear : ℕ → Bool → BreakpointCall
  clear_all : Bool → BreakpointCall

unfoldable pub breakpoint_call : System → Debugger → Context → BreakpointCall → Option Result
breakpoint_call sys d c (set_next size address type hit_count callback no_set) =
    context_set_next_available_breakpoint sys d c size address type hit_count callback no_set
breakpoint_call sys d c (clear register no_set) =
    some (context_clear_breakpoint sys d c register no_set)
breakpoint_call sys d c (clear_all no_set) = some (context_clear_all_breakpoints_ex sys d c no_set)

unfoldable pub run_breakpoint_calls :
    System → Debugger → Context → List BreakpointCall → Option (Debugger × Context)
run_breakpoint_calls sys d c [] = some (d, c)
run_breakpoint_calls sys d c (b ∷ bs) = elim (breakpoint_call sys d c b) [
  | none ↦ none
  | some r ↦ run_breakpoint_calls sys r.0 r.1 bs
]

-- A size that has a mask, and a type that is not reserved.
abbrev pub IsProper : BreakpointCall → Type 0
IsProper (set_next size address type hit_count callback no_set) =
    (size ≤ 4) × (type ≤ 3) × (type ≢ 2)
IsProper (clear register no_set) = Unit
IsProper (clear_all no_set) = Unit

breakpoint_call-IsWatched :
    (sys : System) (d : Debugger) (c : Context) (b : BreakpointCall)
    → IsProper b
    → IsWatched sys d c
    → (r : Result) × (breakpoint_call sys d c b ≡ some r) × IsWatched sys r.0 r.1
unfolding breakpoint_call
breakpoint_call-IsWatched sys d c (set_next size a t hit_count callback no_set) proper ok =
    context_set_next_available_breakpoint-IsWatched sys no_set d c size a t hit_count callback
      proper.0 proper.1 proper.2 ok
breakpoint_call-IsWatched sys d c (clear register no_set) proper ok =
    (_, refl, context_clear_breakpoint-IsWatched sys no_set d c register ok)
breakpoint_call-IsWatched sys d c (clear_all no_set) proper ok =
    (_, refl, context_clear_all_breakpoints_ex-IsWatched sys no_set d c ok)

-- From a state where the current thread is known and each of its four slots in use is what the
-- debug register of its number watches, every sequence of calls with proper sizes and types runs to
-- its end without a read outside an array, and leaves such a state, whatever `SetThreadContext`
-- answers.
pub run_breakpoint_calls-IsWatched :
    (sys : System) (bs : List BreakpointCall) (d : Debugger) (c : Context)
    → All IsProper bs
    → IsWatched sys d c
    → (d' : Debugger) × (c' : Context) × (run_breakpoint_calls sys d c bs ≡ some (d', c'))
      × IsWatched sys d' c'
unfolding run_breakpoint_calls
run_breakpoint_calls-IsWatched sys [] d c proper ok = (d, c, refl, ok)
run_breakpoint_calls-IsWatched sys (b ∷ bs) d c proper ok =
    let (r, one, kept) = breakpoint_call-IsWatched sys d c b proper.0 ok in
    let (d', c', rest, kept') = run_breakpoint_calls-IsWatched sys bs r.0 r.1 proper.1 kept in
    (d', c', rw (run_breakpoint_calls, one) rest, kept')
