-- ===== src/Debugger/Registers.antt =====
-- CAPE/Debugger.h and CAPE/Debugger.c: the debug registers in a thread context. A `Register`, `Size`
-- or `Type` is its bit pattern, so a negative `int` is a large number.
pub mod Laws
use capemon.Base.{
  ℕ, ◌%◌, ◌^◌, Bool, true, false, Option, none, some, List, [], ◌∷◌, ◌==◌, ◌||◌, ltb, if◌then◌else◌,
  get_elem?,
}

-- The bit fields of `DR7`; `others` are the fields that no function names.
pub record Dr7 : Type 0 where
  pub l0 : ℕ
  pub l1 : ℕ
  pub l2 : ℕ
  pub l3 : ℕ
  pub rwe0 : ℕ
  pub len0 : ℕ
  pub rwe1 : ℕ
  pub len1 : ℕ
  pub rwe2 : ℕ
  pub len2 : ℕ
  pub rwe3 : ℕ
  pub len3 : ℕ
  pub others : ℕ

-- The part of `CONTEXT` that the breakpoints use.
pub record Context : Type 0 where
  pub dr0 : ℕ
  pub dr1 : ℕ
  pub dr2 : ℕ
  pub dr3 : ℕ
  pub dr6 : ℕ
  pub dr7 : Dr7

abbrev pub bp_exec : ℕ
bp_exec = 0

-- `LengthMask`: five entries, `none` behind them.
abbrev pub length_mask : ℕ → Option ℕ
length_mask size = get_elem? (0xFFFFFFFF ∷ 0 ∷ 1 ∷ 0xFFFFFFFF ∷ 3 ∷ []) size

-- The refusals at the start of `ContextSetDebugRegisterEx` and `SetDebugRegister`.
unfoldable pub is_invalid : ℕ → ℕ → ℕ → Bool
is_invalid register size type = ltb 3 type || ((type == 2) || (ltb 3 register || ltb 8 size))

-- The writes of an address with a length and a type, each into its bit field.
unfoldable pub put_register : Context → ℕ → ℕ → ℕ → ℕ → Context
put_register c register address length type =
    let d = c.dr7 in
    let len = length % 4 in
    let rwe = type % 4 in
    if register == 0
    then record c { dr0 = address; dr7 = record d { len0 = len; rwe0 = rwe; l0 = 1 } }
    else if register == 1
    then record c { dr1 = address; dr7 = record d { len1 = len; rwe1 = rwe; l1 = 1 } }
    else if register == 2
    then record c { dr2 = address; dr7 = record d { len2 = len; rwe2 = rwe; l2 = 1 } }
    else if register == 3
    then record c { dr3 = address; dr7 = record d { len3 = len; rwe3 = rwe; l3 = 1 } }
    else c

-- From the checks to the last write of a field: `false` is the return of FALSE, and `none` a read
-- outside `LengthMask`.
unfoldable pub write_debug_register : Context → ℕ → ℕ → ℕ → ℕ → Option (Context × Bool)
write_debug_register c register size address type =
    if is_invalid register size type then some (c, false) else elim (length_mask size) [
      | none ↦ none
      | some mask ↦
          let length = if type == bp_exec then 0 else mask in
          some (put_register c register address length type, true)
    ]

unfoldable pub clear_register : Context → ℕ → Context
clear_register c register =
    let d = c.dr7 in
    if register == 0
    then record c { dr0 = 0; dr7 = record d { len0 = 0; rwe0 = 0; l0 = 0 } }
    else if register == 1
    then record c { dr1 = 0; dr7 = record d { len1 = 0; rwe1 = 0; l1 = 0 } }
    else if register == 2
    then record c { dr2 = 0; dr7 = record d { len2 = 0; rwe2 = 0; l2 = 0 } }
    else if register == 3
    then record c { dr3 = 0; dr7 = record d { len3 = 0; rwe3 = 0; l3 = 0 } }
    else c

abbrev pub no_dr7 : Dr7
no_dr7 = record {
  l0 = 0;
  l1 = 0;
  l2 = 0;
  l3 = 0;
  rwe0 = 0;
  len0 = 0;
  rwe1 = 0;
  len1 = 0;
  rwe2 = 0;
  len2 = 0;
  rwe3 = 0;
  len3 = 0;
  others = 0;
}

unfoldable pub context_clear_debug_registers : Context → Context
context_clear_debug_registers c = record c {
  dr0 = 0;
  dr1 = 0;
  dr2 = 0;
  dr3 = 0;
  dr6 = 0;
  dr7 = no_dr7;
}

-- The enable bit of a register, 0 for another number.
unfoldable pub context_check_debug_register : Context → ℕ → ℕ
context_check_debug_register c register =
    let d = c.dr7 in
    if register == 0
    then d.l0
    else if register == 1
    then d.l1
    else if register == 2
    then d.l2
    else if register == 3
    then d.l3
    else 0
