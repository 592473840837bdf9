-- ===== src/Tests/Debugger.antt =====
-- Breakpoints on small processes.
use capemon.Base.{
  ℕ, ◌+◌, ◌<◌, ◌≡◌, ◌≢◌, refl, true, false, none, some, List, [], ◌∷◌, arith, Memory, write_byte,
  inr, ◌⊎◌,
}
use capemon.Lookup.{lookup_get, lookup_add, lookup_put}
use capemon.Debugger.Registers.{Context, no_dr7, write_debug_register, clear_register}
use capemon.Debugger.Registers.Laws.{watch, no_watch, length_field, write_debug_register_lem}
use capemon.Debugger.Threads.{Debugger, System, new_thread, get_thread_breakpoints}
use capemon.Debugger.Current.Agreement.{new_thread-Agrees}
use capemon.Debugger.Current.Keeping.{IsWatched}
use capemon.Debugger.Current.Runs.{
  BreakpointCall, set_next, clear, run_breakpoint_calls, run_breakpoint_calls-IsWatched,
}
use capemon.Debugger.Broadcast.{context_set_breakpoint, outside_array, still_running}
use capemon.Debugger.Broadcast.Endless.{context_set_breakpoint_endless}
use capemon.Debugger.Soft.{
  Pages, Code, SoftBp, SoftState, left, right, int3, set_software_breakpoint,
  clear_software_breakpoint, clear_software_breakpoints, clear_software_breakpoints_in_range,
  software_breakpoint_handler, restore_walk,
}
use capemon.Debugger.Soft.Clearing.{IsUsable, set_software_breakpoint-IsCode}
use capemon.Debugger.Soft.Stepping.{restore_software_breakpoint_lem}
use capemon.Debugger.Soft.Calls.{
  SoftCall, plant, remove, soft, syscall, run_soft_calls, run_soft_calls-IsSoftState, no_bps,
  no_bps-IsCode, no_bps-IsSoftState,
}
use capemon.Debugger.Soft.Restoring.{
  clear_software_breakpoints_lem, clear_software_breakpoints_in_range_forgets,
}

abbrev empty_context : Context
empty_context = record { dr0 = 0; dr1 = 0; dr2 = 0; dr3 = 0; dr6 = 0; dr7 = no_dr7 }

write_debug_register_lem_example :
    (c' : Context) × (write_debug_register empty_context 2 4 0x401000 1 ≡ some (c', true))
    × (watch c' 2 ≡ record { address = 0x401000; enabled = 1; rwe = 1; len = length_field 4 1 })
    × ((q : ℕ) → q < 4 → 2 ≢ q → watch c' q ≡ watch empty_context q)
    × (watch empty_context 2 ≡ no_watch → clear_register c' 2 ≡ empty_context)
write_debug_register_lem_example =
    write_debug_register_lem empty_context 2 4 0x401000 1 (omega arith) (omega arith) (omega arith)
      (omega arith)

-- Thread 7 runs, and every handle works.
abbrev process : System
process = record {
  current_thread_id = 7;
  open_thread = λ id. id + 0x100;
  get_thread_context = λ h. true;
  set_thread_context = λ h. true;
}

abbrev two_threads : Debugger
two_threads = record {
  threads = new_thread 5 0x105 ∷ new_thread 7 0x107 ∷ [];
  contexts = λ h. empty_context;
}

two_threads-IsWatched : IsWatched process two_threads empty_context
unfolding get_thread_breakpoints new_thread
two_threads-IsWatched = record {
  thread = new_thread 7 0x107;
  known = refl;
  agrees = new_thread-Agrees 7 0x107 empty_context;
}

abbrev three_calls : List BreakpointCall
three_calls =
    set_next 4 0x401000 1 0 0x9000 true ∷ set_next 0 0x402000 0 0 0x9000 false ∷ clear 0 true ∷ []

run_breakpoint_calls-IsWatched_example :
    (d' : Debugger) × (c' : Context) × (run_breakpoint_calls process two_threads empty_context
        three_calls
      ≡ some (d', c'))
    × IsWatched process d' c'
run_breakpoint_calls-IsWatched_example =
    run_breakpoint_calls-IsWatched process three_calls two_threads empty_context
      ((omega arith, omega arith, omega arith), ((omega arith, omega arith, omega arith), (tt, tt)))
      two_threads-IsWatched

context_set_breakpoint_endless_example :
    (context_set_breakpoint process 0 4 0x401000 1 0 0x9000 1000 two_threads empty_context true
      ≡ still_running)
    ⊎ ((4 < 4)
        × (context_set_breakpoint process 0 4 0x401000 1 0 0x9000 1000 two_threads empty_context
              true
            ≡ outside_array))
context_set_breakpoint_endless_example =
    context_set_breakpoint_endless process 0 4 0x401000 1 0 0x9000 1000 two_threads empty_context
      true (new_thread 7 0x107) (unfold get_thread_breakpoints new_thread in refl)

-- All memory can be read, written and run, and instructions take one byte.
abbrev all_pages : Pages
all_pages = record {
  is_address_executable = λ a. true;
  is_address_accessible = λ a. true;
  in_ntdll = λ a. false;
  virtual_protect = λ a. true;
  lde = λ memory a. 1;
}

all_pages-IsUsable : IsUsable all_pages
all_pages-IsUsable = record { writable = λ a. refl; readable = λ a h. refl }

abbrev nops : Memory
nops = λ a. 0x90

-- The second address is refused for the other list while it is in the first.
abbrev soft_calls : List SoftCall
soft_calls =
    plant soft 0x1000
    ∷ plant syscall 0x1001
    ∷ plant syscall 0x1000
    ∷ remove soft 0x1000
    ∷ plant soft 0x1002
    ∷ []

clear_software_breakpoints_lem_example :
    (clear_software_breakpoints all_pages
        (run_soft_calls all_pages (no_bps nops) soft_calls)).memory
      0x1001
    ≡ 0x90
clear_software_breakpoints_lem_example =
    clear_software_breakpoints_lem all_pages soft_calls nops 0x1001 all_pages-IsUsable

-- A breakpoint at 0x2000, and one at 0x3000 in the list for system calls.
abbrev both_lists : SoftState
both_lists = run_soft_calls all_pages (no_bps nops) (plant soft 0x2000 ∷ plant syscall 0x3000 ∷ [])

refused_elsewhere : (set_software_breakpoint all_pages (right both_lists) 0x2000).1 ≡ false
unfolding set_software_breakpoint lookup_get lookup_add lookup_put run_soft_calls write_byte
refused_elsewhere = refl

clear_software_breakpoints_in_range_forgets_example :
    ((clear_software_breakpoints_in_range all_pages both_lists 0x1000 0x100).memory 0x2000 ≡ int3)
    × (lookup_get
          (clear_software_breakpoints_in_range all_pages both_lists 0x1000 0x100).soft_bps
          0x2000
        ≡ none)
    × (clear_software_breakpoint all_pages
          (left (clear_software_breakpoints_in_range all_pages both_lists 0x1000 0x100))
          0x2000
        ≡ (left (clear_software_breakpoints_in_range all_pages both_lists 0x1000 0x100), false))
    × ((clear_software_breakpoints_in_range all_pages both_lists 0x1000 0x100).memory 0x3000 ≡ 0x90)
clear_software_breakpoints_in_range_forgets_example =
    clear_software_breakpoints_in_range_forgets all_pages nops both_lists 0x1000 0x100 0x2000 0x3000
      8 (record { instruction_byte = 0x90; length = 1 }) all_pages-IsUsable
      (run_soft_calls-IsSoftState all_pages nops (plant soft 0x2000 ∷ plant syscall 0x3000 ∷ [])
        (no_bps nops) all_pages-IsUsable (no_bps-IsSoftState all_pages nops))
      (unfold run_soft_calls set_software_breakpoint lookup_get lookup_add lookup_put write_byte in
        refl)
      (inr (omega arith))
      (unfold run_soft_calls set_software_breakpoint lookup_get lookup_add lookup_put write_byte in
        refl)

-- A breakpoint at 0x2000.
abbrev planted_once : Code
planted_once = (set_software_breakpoint all_pages (left (no_bps nops)) 0x2000).0

-- The byte that was at 0x2000.
abbrev nop : SoftBp
nop = record { instruction_byte = 0x90; length = 1 }

restore_software_breakpoint_lem_example :
    (software_breakpoint_handler all_pages planted_once 0x2000
      ≡ (record planted_once { memory = write_byte planted_once.memory 0x2000 0x90 }, true))
    × ((restore_walk all_pages
          (write_byte planted_once.memory 0x2000 0x90)
          0x2001
          planted_once.bps).1
        ≡ true)
    × ((x : ℕ)
        → (restore_walk all_pages
              (write_byte planted_once.memory 0x2000 0x90)
              0x2001
              planted_once.bps).0
            x
          ≡ planted_once.memory x)
restore_software_breakpoint_lem_example =
    restore_software_breakpoint_lem all_pages planted_once 0x2000 8 0x2001 nop all_pages-IsUsable
      (set_software_breakpoint-IsCode all_pages (left (no_bps nops)) 0x2000 all_pages-IsUsable
        (no_bps-IsCode all_pages nops))
      (unfold set_software_breakpoint lookup_get lookup_add lookup_put in refl) (omega arith)
