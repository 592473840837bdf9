-- ===== src/Tests/Gate.antt =====
-- The gate of hooking.c.
use capemon.Base.{ℕ, ◌≡◌, ◌≢◌, refl, Bool, true, false, List, [], ◌∷◌, some, arith, All}
use capemon.Lookup.{lookup_get, lookup_add, lookup_put, lookup_del}
use capemon.DllRanges.{is_in_dll_range}
use capemon.HookGate.{Hook, GateConfig, other, zeroed_info, rate_gate}
use capemon.HookGate.Backtrace.{Monitor, called_by_hook, inside_monitor, skip_ours, skip_jump}
use capemon.HookGate.Names.{Names, any, hook_is_excluded, add_hook_exclusion}
use capemon.HookGate.Enter.{
  Gate, Call, is_foreign, prepare_tmp, hook_info, put_info, hook_disable,
  add_force_hook_thread_func, force_hook_thread_func, record_call, admit, may_enter, enter_hook,
}
use capemon.HookGate.Rate.{run_calls}
use capemon.HookGate.Callers.{first, second, pick, seen, is_outside, record_call_callers}
use capemon.HookGate.Absorbing.{enter_hook-hook_disable, enter_hook_recursion}

abbrev a_hook : Hook
a_hook = record {
  id = 3;
  funcname = b'N' ∷ b't' ∷ [];
  library = b'n' ∷ [];
  new_func = other;
  fully_emulate = false;
  allow_hook_recursion = false;
  hook_timer = 0;
  counter = 0;
  rate_counter = 0;
  hook_disabled = false;
}

abbrev capped : GateConfig
capped = record { debugger = false; api_rate_cap = 1; api_cap = 3 }

abbrev empty_gate : Gate
empty_gate = record { infos = []; tmp = zeroed_info; tmp_threadid = 0; forced = [] }

abbrev monitor : Monitor
monitor = record {
  our_dll_base = 0x10000000;
  our_dll_size = 0x100000;
  start_transparent = 0x10080000;
  end_transparent = 0x10081000;
}

-- Called from the program at 0x401000, which was called from 0x402000.
abbrev from_program : Call
from_program = record {
  thread = 9;
  sp = 0x8000;
  frame = 0x8010;
  return_address = 0x401000;
  now = 5;
  frames = some (0x10000500 ∷ 0x7000 ∷ 0x401000 ∷ 0x402000 ∷ []);
  code = λ a. 0x90;
  monitor = monitor;
  dlls = record { start = 0x7000; end = 0x8000 } ∷ [];
  inside_hook = λ a. false;
  same = λ a b. false;
}

-- Called by the code of another hook.
abbrev from_hook : Call
from_hook = record from_program { frames = some (0x7000 ∷ 0x10000900 ∷ 0x401000 ∷ []) }

callers_found :
    let i = record_call from_program a_hook zeroed_info in
    (i.main_caller_retaddr ≡ 0x401000) × (i.parent_caller_retaddr ≡ 0x402000)
unfolding record_call is_in_dll_range inside_monitor
callers_found = (refl, refl)

program_enters : (enter_hook capped from_program empty_gate a_hook).2 ≡ true
unfolding enter_hook prepare_tmp hook_info may_enter force_hook_thread_func called_by_hook admit
    rate_gate put_info record_call lookup_get lookup_add lookup_put is_in_dll_range inside_monitor
program_enters = refl

enter_hook_recursion_example :
    ((enter_hook capped from_hook empty_gate a_hook).1 ≡ a_hook)
    × ((enter_hook capped from_hook empty_gate a_hook).2 ≡ false)
unfolding called_by_hook force_hook_thread_func lookup_get
enter_hook_recursion_example =
    enter_hook_recursion capped from_hook empty_gate a_hook refl refl refl refl refl

enter_hook-hook_disable_example :
    enter_hook capped from_program (hook_disable empty_gate 9) a_hook
    ≡ (hook_disable empty_gate 9, a_hook, false)
enter_hook-hook_disable_example =
    enter_hook-hook_disable capped from_program empty_gate a_hook refl refl refl refl

abbrev spent : Hook
spent = record a_hook { hook_disabled = true }

-- Two calls go on, and the third reaches the cap.
two_of_four : (run_calls capped (1 ∷ 2 ∷ 3 ∷ 4 ∷ []) a_hook).1 ≡ 2
unfolding run_calls rate_gate
two_of_four = refl

frames_nonzero : All (λ a. a ≢ 0) (seen from_program)
unfolding seen skip_ours skip_jump
frames_nonzero = omega arith

record_call_callers_example :
    let foreign = pick (is_foreign from_program) (seen from_program) in
    let outside = pick (is_outside from_program) (seen from_program) in
    let i = record_call from_program a_hook zeroed_info in
    (first foreign ≢ 0
      → (i.main_caller_retaddr ≡ first foreign) × (i.parent_caller_retaddr ≡ second foreign))
    × (first foreign ≡ 0
        → (i.main_caller_retaddr ≡ first outside) × (i.parent_caller_retaddr ≡ second outside))
record_call_callers_example = record_call_callers from_program a_hook zeroed_info frames_nonzero

abbrev no_names : Names
no_names = record { included_apinames = []; excluded_apinames = []; excluded_dllnames = [] }

abbrev always : List ℕ → List ℕ → Bool
always a b = true

excluded_by_name :
    hook_is_excluded always always (add_hook_exclusion no_names (b'N' ∷ [])).0 a_hook ≡ true
unfolding hook_is_excluded add_hook_exclusion any
excluded_by_name = refl

forced_once :
    let g = add_force_hook_thread_func empty_gate 9 (b'N' ∷ []) in
    let (g', forced) = force_hook_thread_func always g 9 (b'N' ∷ []) in
    (forced ≡ true) × ((force_hook_thread_func always g' 9 (b'N' ∷ [])).1 ≡ false)
unfolding add_force_hook_thread_func force_hook_thread_func lookup_get lookup_add lookup_put
    lookup_del
forced_once = (refl, refl)
