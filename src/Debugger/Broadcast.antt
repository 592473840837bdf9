-- ===== src/Debugger/Broadcast.antt =====
-- CAPE/Debugger.c: breakpoints for all threads of the list. `none` is a read outside an array. A walk
-- that need not end has an `Ending`.
pub mod Endless
use capemon.Base.{
  ℕ, zero, suc, Bool, true, false, not, ◌&&◌, Option, none, some, List, [], ◌∷◌, ◌==◌,
  if◌then◌else◌, map, get_elem?, set,
}
use capemon.Debugger.Registers.{Context}
use capemon.Debugger.Threads.{
  BreakpointInfo, ThreadBreakpoints, Debugger, System, get_thread_breakpoints,
  put_thread_breakpoints, create_thread_breakpoints, get_next_available_breakpoint,
  set_thread_breakpoint, clear_thread_breakpoint, cleared, put_slot,
}
use capemon.Debugger.Current.{Result, current, context_set_thread_breakpoint_ex}

-- The ids of a list, which no call below changes.
abbrev pub thread_ids : List ThreadBreakpoints → List ℕ
thread_ids [] = []
thread_ids (t ∷ ts) = t.thread_id ∷ thread_ids ts

-- A return, a read outside an array, or a loop that is not through after the rounds given to it.
pub data Ending (A : Type 0) : Type 0 where
  returned : A → Ending A
  outside_array : Ending A
  still_running : Ending A

module _ (sys : System) (register size address type hit_count callback : ℕ) where
  -- The loop of `SetBreakpoint`.
  unfoldable pub set_all : Debugger → List ℕ → Option Debugger
  set_all d [] = some d
  set_all d (id ∷ rest) =
      elim (set_thread_breakpoint sys d id register size address type hit_count callback) [
        | none ↦ none
        | some (d1, done) ↦ set_all d1 rest
      ]

  unfoldable pub set_breakpoint : Debugger → Option (Debugger × Bool)
  set_breakpoint d =
      let d1 : Debugger = elim (current sys d) [
        | some t ↦ d
        | none ↦ (create_thread_breakpoints sys d sys.current_thread_id).0
      ] in
      elim d.threads [
        | [] ↦ some (d, false)
        | ◌∷◌ t ts ↦ elim (current sys d1) [
          | none ↦ some (d1, false)
          | some now ↦ elim (set_all d1 (thread_ids d1.threads)) [
            | none ↦ none
            | some d2 ↦ some (d2, true)
          ]
        ]
      ]

  -- The loop of `ContextSetBreakpoint`, which goes on to the next thread only behind the call.
  unfoldable pub set_others : ℕ → Debugger → List ℕ → Ending Debugger
  set_others zero d ts = still_running
  set_others (suc fuel) d [] = returned d
  set_others (suc fuel) d (id ∷ rest) = elim (not (id == 0) && not (id == sys.current_thread_id)) [
    | false ↦ set_others fuel d (id ∷ rest)
    | true ↦ elim (set_thread_breakpoint sys d id register size address type hit_count callback) [
      | none ↦ outside_array
      | some (d1, done) ↦ set_others fuel d1 rest
    ]
  ]

  unfoldable pub context_set_breakpoint : ℕ → Debugger → Context → Bool → Ending Result
  context_set_breakpoint fuel d c no_set = elim (current sys d) [
    | none ↦ returned (d, c, false)
    | some t ↦
        elim (context_set_thread_breakpoint_ex sys d c register size address type hit_count callback
          no_set) [
            | none ↦ outside_array
            | some (d1, c1, done) ↦ elim (set_others fuel d1 (thread_ids d1.threads)) [
              | outside_array ↦ outside_array
              | still_running ↦ still_running
              | returned d2 ↦ returned (d2, c1, true)
            ]
          ]
  ]

unfoldable pub set_next_available_breakpoint :
    System → Debugger → ℕ → ℕ → ℕ → ℕ → ℕ → ℕ → Option (Debugger × Bool)
set_next_available_breakpoint sys d id size address type hit_count callback =
    let d1 : Debugger = elim (get_thread_breakpoints d.threads id) [
      | some t ↦ d
      | none ↦ (create_thread_breakpoints sys d id).0
    ] in
    elim (get_thread_breakpoints d1.threads id) [
      | none ↦ some (d1, false)
      | some t ↦ elim (get_next_available_breakpoint d1.threads id) [
        | none ↦ some (d1, false)
        | some r ↦ set_thread_breakpoint sys d1 id r size address type hit_count callback
      ]
    ]
