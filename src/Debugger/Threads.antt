-- ===== src/Debugger/Threads.antt =====
-- CAPE/Debugger.c: the list of threads with their four breakpoints. The contexts of the threads are
-- part of the state, by handle. `none` is a read outside an array.
use capemon.Base.{
  ℕ, suc, Bool, true, false, not, ◌&&◌, ◌||◌, Option, none, some, List, [], ◌∷◌, ◌++◌, ◌==◌, ltb,
  if◌then◌else◌, get_elem?, set,
}
use capemon.Debugger.Registers.{Context, write_debug_register, clear_register}

pub record BreakpointInfo : Type 0 where
  pub thread_handle : ℕ
  pub register : ℕ
  pub size : ℕ
  pub address : ℕ
  pub type : ℕ
  pub hit_count : ℕ
  pub callback : ℕ

pub record ThreadBreakpoints : Type 0 where
  pub thread_id : ℕ
  pub thread_handle : ℕ
  -- `BreakpointInfo[4]`
  pub breakpoint_info : List BreakpointInfo

-- `threads` is `MainThreadBreakpointList`.
pub record Debugger : Type 0 where
  pub threads : List ThreadBreakpoints
  pub contexts : ℕ → Context

-- What the system answers: the current thread, a handle for a thread (0 if there is none), and
-- whether the context of a handle can be read and written.
pub record System : Type 0 where
  pub current_thread_id : ℕ
  pub open_thread : ℕ → ℕ
  pub get_thread_context : ℕ → Bool
  pub set_thread_context : ℕ → Bool

abbrev pub empty_info : BreakpointInfo
empty_info = record {
  thread_handle = 0;
  register = 0;
  size = 0;
  address = 0;
  type = 0;
  hit_count = 0;
  callback = 0;
}

abbrev pub zeroed_thread : ThreadBreakpoints
zeroed_thread = record {
  thread_id = 0;
  thread_handle = 0;
  breakpoint_info = empty_info ∷ empty_info ∷ empty_info ∷ empty_info ∷ [];
}

unfoldable pub get_thread_breakpoints : List ThreadBreakpoints → ℕ → Option ThreadBreakpoints
get_thread_breakpoints [] id = none
get_thread_breakpoints (t ∷ ts) id =
    if t.thread_id == id then some t else get_thread_breakpoints ts id

-- A write through the pointer that `GetThreadBreakpoints` returned.
unfoldable pub put_thread_breakpoints :
    List ThreadBreakpoints → ℕ → ThreadBreakpoints → List ThreadBreakpoints
put_thread_breakpoints [] id v = []
put_thread_breakpoints (t ∷ ts) id v =
    if t.thread_id == id then v ∷ ts else t ∷ put_thread_breakpoints ts id v

-- `calloc` of an entry, and the writes at the end of `CreateThreadBreakpoints`.
unfoldable pub new_thread : ℕ → ℕ → ThreadBreakpoints
new_thread id handle = record {
  thread_id = id;
  thread_handle = handle;
  breakpoint_info =
      record empty_info { register = 0; thread_handle = handle }
      ∷ record empty_info { register = 1; thread_handle = handle }
      ∷ record empty_info { register = 2; thread_handle = handle }
      ∷ record empty_info { register = 3; thread_handle = handle }
      ∷ [];
}

-- Whether the walk finds the thread, which it does not look for among entries without an id.
unfoldable pub is_known : List ThreadBreakpoints → ℕ → Bool
is_known [] id = false
is_known (t ∷ ts) id = (not (t.thread_id == 0) && (t.thread_id == id)) || is_known ts id

-- `false` is the return of NULL. Without a handle the new entry stays in the list as `calloc` left it.
unfoldable pub create_thread_breakpoints : System → Debugger → ℕ → Debugger × Bool
create_thread_breakpoints sys d id =
    let handle = sys.open_thread id in
    if is_known d.threads id
    then (d, false)
    else if handle == 0
    then (record d { threads = d.threads ++ (zeroed_thread ∷ []) }, false)
    else (record d { threads = d.threads ++ (new_thread id handle ∷ []) }, true)

-- The first slot whose address is NULL.
unfoldable pub free_register : List BreakpointInfo → ℕ → Option ℕ
free_register [] i = none
free_register (b ∷ bs) i = if b.address == 0 then some i else free_register bs (suc i)

-- `none` is the return of FALSE.
unfoldable pub get_next_available_breakpoint : List ThreadBreakpoints → ℕ → Option ℕ
get_next_available_breakpoint [] id = none
get_next_available_breakpoint (t ∷ ts) id =
    let rest = get_next_available_breakpoint ts id in
    if not (t.thread_id == 0) && (t.thread_id == id)
    then elim (free_register t.breakpoint_info 0) [ some r ↦ some r | none ↦ rest ]
    else rest

-- `SetDebugRegister`: through the context of the thread behind the handle.
unfoldable pub set_debug_register : System → Debugger → ℕ → ℕ → ℕ → ℕ → ℕ → Option (Debugger × Bool)
set_debug_register sys d handle register size address type =
    if not (sys.get_thread_context handle)
    then some (d, false)
    else elim (write_debug_register (d.contexts handle) register size address type) [
      | none ↦ none
      | some (c, false) ↦ some (d, false)
      | some (c, true) ↦
          if not (sys.set_thread_context handle)
          then some (d, false)
          else some (record d { contexts = λ h. if h == handle then c else d.contexts h }, true)
    ]

-- The checks of `ClearDebugRegister`, which accepts the type 2.
unfoldable pub clear_debug_register : System → Debugger → ℕ → ℕ → ℕ → ℕ → Debugger × Bool
clear_debug_register sys d handle register size type =
    let c = clear_register (d.contexts handle) register in
    if ltb 3 type || (ltb 3 register || ltb 8 size)
    then (d, false)
    else if not (sys.get_thread_context handle) || not (sys.set_thread_context handle)
    then (d, false)
    else (record d { contexts = λ h. if h == handle then c else d.contexts h }, true)

-- A write to the slot of a register.
unfoldable pub put_slot : ThreadBreakpoints → ℕ → BreakpointInfo → ThreadBreakpoints
put_slot t register b = record t { breakpoint_info = set t.breakpoint_info register b }

unfoldable pub set_thread_breakpoint :
    System → Debugger → ℕ → ℕ → ℕ → ℕ → ℕ → ℕ → ℕ → Option (Debugger × Bool)
set_thread_breakpoint sys d id register size address type hit_count callback =
    let d1 : Debugger = elim (get_thread_breakpoints d.threads id) [
      | some t ↦ d
      | none ↦ (create_thread_breakpoints sys d id).0
    ] in
    if ltb 3 register then some (d, false) else elim (get_thread_breakpoints d1.threads id) [
      | none ↦ some (d1, false)
      | some t ↦
          let b : BreakpointInfo = record {
            thread_handle = t.thread_handle;
            register = register;
            size = size;
            address = address;
            type = type;
            hit_count = hit_count;
            callback = callback;
          } in
          let threads' = put_thread_breakpoints d1.threads id (put_slot t register b) in
          if t.thread_handle == 0
          then some (d1, false)
          else set_debug_register sys (record d1 { threads = threads' }) t.thread_handle register
              size address type
    ]

-- A cleared slot; handle and register stay.
unfoldable pub cleared : BreakpointInfo → BreakpointInfo
cleared b = record b { size = 0; address = 0; type = 0; hit_count = 0; callback = 0 }

unfoldable pub clear_thread_breakpoint : System → Debugger → ℕ → ℕ → Debugger × Bool
clear_thread_breakpoint sys d id register =
    if ltb 3 register then (d, false) else elim (get_thread_breakpoints d.threads id) [
      | none ↦ (d, false)
      | some t ↦ elim (get_elem? t.breakpoint_info register) [
        | none ↦ (d, false)
        | some b ↦
            if t.thread_handle == 0
            then (d, false)
            else let (d1, done) =
                clear_debug_register sys d b.thread_handle b.register b.size b.type in
              if not done then (d1, false) else (
                record d1 {
                  threads = put_thread_breakpoints d1.threads id (put_slot t register (cleared b));
                },
                true,
              )
      ]
    ]
