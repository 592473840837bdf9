-- ===== src/Debugger/Current.antt =====
-- CAPE/Debugger.c: breakpoints of the current thread, set and cleared in the context `c` of an
-- exception. `no_set` is `NoSetThreadContext`, true on newer systems. A result is the lists, the
-- context and the return value; `none` is a read outside an array.
pub mod Agreement
pub mod Keeping
pub mod Setting
pub mod Runs
use capemon.Base.{
  ℕ, zero, suc, ◌+◌, ◌%◌, ◌/◌, ◌^◌, Bool, true, false, not, ◌&&◌, ◌||◌, Option, none, some, List,
  [], ◌∷◌, ◌==◌, ltb, if◌then◌else◌, get_elem?, map,
}
use capemon.Debugger.Registers.{
  Context, write_debug_register, clear_register, context_clear_debug_registers,
}
use capemon.Debugger.Threads.{
  BreakpointInfo, ThreadBreakpoints, Debugger, System, get_thread_breakpoints,
  put_thread_breakpoints, create_thread_breakpoints, free_register, put_slot, cleared,
}

abbrev pub Result : Type 0
Result = Debugger × Context × Bool

-- `CurrentThreadBreakpoints`
abbrev pub current : System → Debugger → Option ThreadBreakpoints
current sys d = get_thread_breakpoints d.threads sys.current_thread_id

-- The end of the functions: `SetThreadContext` through a handle, unless `no_set`.
unfoldable pub set_thread_context : System → Debugger → Context → Bool → ℕ → Result
set_thread_context sys d c no_set handle =
    if no_set
    then (d, c, true)
    else if (handle == 0) || not (sys.set_thread_context handle)
    then (d, c, false)
    else (record d { contexts = λ h. if h == handle then c else d.contexts h }, c, true)

unfoldable pub context_set_debug_register_ex :
    System → Debugger → Context → ℕ → ℕ → ℕ → ℕ → Bool → Option Result
context_set_debug_register_ex sys d c register size address type no_set =
    elim (write_debug_register c register size address type) [
      | none ↦ none
      | some (c', false) ↦ some (d, c', false)
      | some (c', true) ↦ elim (current sys d) [
        | none ↦ some (d, c', no_set)
        | some t ↦ some (set_thread_context sys d c' no_set t.thread_handle)
      ]
    ]

-- TRUE also where `ContextSetDebugRegisterEx` has failed.
unfoldable pub context_set_thread_breakpoint_ex :
    System → Debugger → Context → ℕ → ℕ → ℕ → ℕ → ℕ → ℕ → Bool → Option Result
context_set_thread_breakpoint_ex sys d c register size address type hit_count callback no_set =
    if ltb 3 register
    then some (d, c, false)
    else elim (context_set_debug_register_ex sys d c register size address type no_set) [
      | none ↦ none
      | some (d1, c1, false) ↦ some (d1, c1, true)
      | some (d1, c1, true) ↦ elim (current sys d1) [
        | none ↦ some (d1, c1, false)
        | some t ↦
            let b : BreakpointInfo = record {
              thread_handle = t.thread_handle;
              register = register;
              size = size;
              address = address;
              type = type;
              hit_count = hit_count;
              callback = callback;
            } in
            let threads' =
              put_thread_breakpoints d1.threads sys.current_thread_id (put_slot t register b) in
            some (record d1 { threads = threads' }, c1, true)
      ]
    ]

-- The thread is entered in the list if it is not there.
unfoldable pub context_get_next_available_breakpoint : System → Debugger → Debugger × Option ℕ
context_get_next_available_breakpoint sys d =
    let d1 : Debugger = elim (current sys d) [
      | some t ↦ d
      | none ↦ (create_thread_breakpoints sys d sys.current_thread_id).0
    ] in
    elim (current sys d1) [ none ↦ (d1, none) | some t ↦ (d1, free_register t.breakpoint_info 0) ]

-- The search for an identical breakpoint.
unfoldable pub is_identical : ℕ → ℕ → ℕ → ℕ → BreakpointInfo → Bool
is_identical size address type hit_count b =
    (b.size == size) && ((b.address == address) && ((b.type == type) && (b.hit_count == hit_count)))

unfoldable pub any_identical : ℕ → ℕ → ℕ → ℕ → List BreakpointInfo → Bool
any_identical size address type hit_count [] = false
any_identical size address type hit_count (b ∷ bs) =
    is_identical size address type hit_count b || any_identical size address type hit_count bs

unfoldable pub context_set_next_available_breakpoint :
    System → Debugger → Context → ℕ → ℕ → ℕ → ℕ → ℕ → Bool → Option Result
context_set_next_available_breakpoint sys d c size address type hit_count callback no_set =
    if address == 0 then some (d, c, false) else elim (current sys d) [
      | none ↦ some (d, c, false)
      | some t ↦
          if any_identical size address type hit_count t.breakpoint_info
          then some (d, c, true)
          else let (d1, found) = context_get_next_available_breakpoint sys d in
            elim found [
              | none ↦ some (d1, c, false)
              | some r ↦
                  context_set_thread_breakpoint_ex sys d1 c r size address type hit_count callback
                    no_set
            ]
    ]

-- `pBreakpointInfo` is the slot at `i` of the current thread; its `Callback` stays.
unfoldable pub context_clear_breakpoint_ex :
    System → Debugger → Context → ThreadBreakpoints → ℕ → BreakpointInfo → Bool → Result
context_clear_breakpoint_ex sys d c t i b no_set =
    let b' : BreakpointInfo = record b { address = 0; size = 0; type = 0; hit_count = 0 } in
    let threads' = put_thread_breakpoints d.threads sys.current_thread_id (put_slot t i b') in
    set_thread_context sys (record d { threads = threads' }) (clear_register c b.register) no_set
      b.thread_handle

-- The first slot that says it is for the register, with its place.
unfoldable pub slot_of : List BreakpointInfo → ℕ → ℕ → Option (ℕ × BreakpointInfo)
slot_of [] register i = none
slot_of (b ∷ bs) register i =
    if b.register == register then some (i, b) else slot_of bs register (suc i)

unfoldable pub context_clear_breakpoint : System → Debugger → Context → ℕ → Bool → Result
context_clear_breakpoint sys d c register no_set = elim (current sys d) [
  | none ↦ (d, c, false)
  | some t ↦ elim (slot_of t.breakpoint_info register 0) [
    | none ↦ (d, c, false)
    | some (i, b) ↦ context_clear_breakpoint_ex sys d c t i b no_set
  ]
]

unfoldable pub context_clear_all_breakpoints_ex : System → Debugger → Context → Bool → Result
context_clear_all_breakpoints_ex sys d c no_set = elim (current sys d) [
  | none ↦ (d, c, false)
  | some t ↦
      let t' : ThreadBreakpoints = record t { breakpoint_info = map cleared t.breakpoint_info } in
      let threads' = put_thread_breakpoints d.threads sys.current_thread_id t' in
      set_thread_context sys (record d { threads = threads' }) (context_clear_debug_registers c)
        no_set t.thread_handle
]
