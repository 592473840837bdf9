-- ===== src/Debugger/Soft.antt =====
-- CAPE/Debugger.c: software breakpoints, an 0xCC byte in the code with the byte it replaced in a list
-- of lookup.c.
pub mod Original
pub mod Clearing
pub mod Calls
pub mod Restoring
pub mod Sharing
pub mod Stepping
use capemon.Base.{
  ℕ, zero, suc, ◌+◌, ◌-◌, ◌%◌, ◌^◌, Bool, true, false, not, ◌&&◌, ◌||◌, Option, none, some, List,
  [], ◌∷◌, ◌==◌, leb, ltb, if◌then◌else◌, Memory, write_byte,
}
use capemon.Lookup.{Entry, Lookup, lookup_add, lookup_get, lookup_put, lookup_del}

pub record SoftBp : Type 0 where
  pub instruction_byte : ℕ
  pub length : ℕ

-- What the process says of an address, and the length of the instruction there.
pub record Pages : Type 0 where
  pub is_address_executable : ℕ → Bool
  pub is_address_accessible : ℕ → Bool
  pub in_ntdll : ℕ → Bool
  pub virtual_protect : ℕ → Bool
  pub lde : Memory → ℕ → ℕ

-- The memory and one of the two lists.
pub record Code : Type 0 where
  pub memory : Memory
  pub bps : Lookup SoftBp

abbrev pub int3 : ℕ
int3 = 0xCC

module _ (p : Pages) where
  unfoldable pub set_software_breakpoint : Code → ℕ → Code × Bool
  set_software_breakpoint s a =
      let zeroed : SoftBp = record { instruction_byte = 0; length = 0 } in
      let b : SoftBp = record { instruction_byte = s.memory a; length = p.lde s.memory a } in
      let bps' = lookup_put (lookup_add zeroed s.bps a 8) a b in
      if (a == 0) || not (p.is_address_executable a)
      then (s, false)
      else if p.in_ntdll a
      then (s, false)
      else elim (lookup_get s.bps a) [
        | some old ↦ (s, false)
        | none ↦
            if s.memory a == int3
            then (s, false)
            else if not (p.virtual_protect a)
            then (record s { bps = bps' }, false)
            else (record { memory = write_byte s.memory a int3; bps = bps' }, true)
      ]

  unfoldable pub clear_software_breakpoint : Code → ℕ → Code × Bool
  clear_software_breakpoint s a =
      if (a == 0) || not (p.is_address_accessible a)
      then (s, false)
      else if p.in_ntdll a
      then (s, false)
      else elim (lookup_get s.bps a) [
        | none ↦ (s, false)
        | some (b, size) ↦
            if not (s.memory a == int3) || not (p.virtual_protect a) then (s, false) else (
              record {
                memory = write_byte s.memory a b.instruction_byte;
                bps = lookup_del s.bps a;
              },
              true,
            )
      ]

  -- The walk over a list, which takes `next` before the entry can be freed.
  unfoldable pub clear_each : Code → List ℕ → Code
  clear_each s [] = s
  clear_each s (a ∷ rest) = clear_each (clear_software_breakpoint s a).0 rest

abbrev pub entry_ids : Lookup SoftBp → List ℕ
entry_ids [] = []
entry_ids (e ∷ es) = e.id ∷ entry_ids es

-- Both lists, over one memory.
pub record SoftState : Type 0 where
  pub memory : Memory
  pub soft_bps : Lookup SoftBp
  pub syscall_bps : Lookup SoftBp

-- What `SetSoftwareBreakpoint` and `ClearSoftwareBreakpoint` see of the state: the list they get.
abbrev pub left : SoftState → Code
left s = record { memory = s.memory; bps = s.soft_bps }

abbrev pub right : SoftState → Code
right s = record { memory = s.memory; bps = s.syscall_bps }

-- The addresses of a range: `Base + Size` wraps around.
unfoldable pub in_range : ℕ → ℕ → List ℕ → List ℕ
in_range base size [] = []
in_range base size (a ∷ rest) =
    if leb base a && ltb a ((base + size) % 2 ^ 64)
    then a ∷ in_range base size rest
    else in_range base size rest

module _ (p : Pages) where
  unfoldable pub clear_software_breakpoints : SoftState → SoftState
  clear_software_breakpoints s =
      let s1 =
        clear_each p (record { memory = s.memory; bps = s.soft_bps }) (entry_ids s.soft_bps) in
      let s2 =
        clear_each p (record { memory = s1.memory; bps = s.syscall_bps })
          (entry_ids s.syscall_bps) in
      record { memory = s2.memory; soft_bps = []; syscall_bps = [] }

  -- In the second list an address is cleared whether it is in the range or not.
  unfoldable pub clear_software_breakpoints_in_range : SoftState → ℕ → ℕ → SoftState
  clear_software_breakpoints_in_range s base size =
      let s1 =
        clear_each p (record { memory = s.memory; bps = s.soft_bps })
          (in_range base size (entry_ids s.soft_bps)) in
      let s2 =
        clear_each p (record { memory = s1.memory; bps = s.syscall_bps })
          (entry_ids s.syscall_bps) in
      record { memory = s2.memory; soft_bps = []; syscall_bps = [] }

  -- The part of `SoftwareBreakpointHandler` before the callback: the byte is put back for the
  -- instruction to run, and the entry stays.
  unfoldable pub software_breakpoint_handler : Code → ℕ → Code × Bool
  software_breakpoint_handler s a =
      if (a == 0) || not (s.memory a == int3) then (s, false) else elim (lookup_get s.bps a) [
        | none ↦ (s, false)
        | some (b, size) ↦
            if not (p.virtual_protect a)
            then (s, false)
            else (record s { memory = write_byte s.memory a b.instruction_byte }, true)
      ]

  -- The walk of `RestoreSoftwareBreakpoint`: the first entry within 16 bytes before the exception
  -- whose byte is in the code gets its breakpoint again.
  unfoldable pub restore_walk : Memory → ℕ → Lookup SoftBp → Memory × Bool
  restore_walk memory exception_address [] = (memory, true)
  restore_walk memory exception_address (e ∷ es) =
      let near = leb ((exception_address + 2 ^ 64 - e.id) % 2 ^ 64) 0x10 in
      if near && (e.block.instruction_byte == memory e.id)
      then if not (p.virtual_protect e.id)
        then (memory, false)
        else (write_byte memory e.id int3, true)
      else restore_walk memory exception_address es
