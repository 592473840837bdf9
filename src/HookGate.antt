-- ===== src/HookGate.antt =====
-- hooking.c, with the frame walk of hooking_64.c: whether a hooked call runs its hook or the
-- original function, and what it records about its callers. Names are lists of characters.
pub mod Backtrace
pub mod Names
pub mod Enter
pub mod Rate
pub mod Callers
pub mod Absorbing
use capemon.Base.{
  ℕ, ◌+◌, ◌-◌, ◌/◌, ◌%◌, ◌^◌, Bool, true, false, ◌&&◌, ◌||◌, not, List, ◌==◌, ltb, leb,
  if◌then◌else◌,
}

-- The hooks that `enter_hook` treats in a way of their own, by `new_func`.
pub data NewFunc : Type 0 where
  nt_allocate_virtual_memory rtl_dispatch_exception nt_continue other : NewFunc

-- The fields of `hook_t` that the gate reads; the last four are what it counts.
pub record Hook : Type 0 where
  pub id : ℕ
  pub funcname : List ℕ
  pub library : List ℕ
  pub new_func : NewFunc
  pub fully_emulate : Bool
  pub allow_hook_recursion : Bool
  pub hook_timer : ℕ
  pub counter : ℕ
  pub rate_counter : ℕ
  pub hook_disabled : Bool

-- `hook_info_t`; a hook by its number, 0 for none.
pub record HookInfo : Type 0 where
  pub disable_count : ℕ
  pub last_hook : ℕ
  pub current_hook : ℕ
  pub return_address : ℕ
  pub stack_pointer : ℕ
  pub frame_pointer : ℕ
  pub main_caller_retaddr : ℕ
  pub parent_caller_retaddr : ℕ

abbrev pub zeroed_info : HookInfo
zeroed_info = record {
  disable_count = 0;
  last_hook = 0;
  current_hook = 0;
  return_address = 0;
  stack_pointer = 0;
  frame_pointer = 0;
  main_caller_retaddr = 0;
  parent_caller_retaddr = 0;
}

-- The settings that the gate reads; 0 is off.
pub record GateConfig : Type 0 where
  pub debugger : Bool
  pub api_rate_cap : ℕ
  pub api_cap : ℕ

abbrev pub hook_time_sample : ℕ
hook_time_sample = 100

abbrev pub hook_rate_limit : ℕ
hook_rate_limit = 0x100

-- `&New_RtlDispatchException` and `&New_NtContinue` are never capped.
abbrev pub is_uncapped : NewFunc → Bool
is_uncapped rtl_dispatch_exception = true
is_uncapped nt_continue = true
is_uncapped nt_allocate_virtual_memory = false
is_uncapped other = false

abbrev pub u32 : ℕ → ℕ
u32 n = n % 2 ^ 32

-- The part on the rate, once the call was counted; `now` is `ft.dwLowDateTime`, and the difference
-- is one of two DWORDs.
rate_window : GateConfig → ℕ → Hook → Hook × Bool
rate_window c now h =
    if ltb (u32 (now + 2 ^ 32 - h.hook_timer)) hook_time_sample
    then (let h' = record h { rate_counter = u32 (h.rate_counter + 1) } in
        if ltb (hook_rate_limit / c.api_rate_cap) h'.rate_counter
        then (record h' { rate_counter = 0; hook_disabled = true }, false)
        else (h', true))
    else (record h { rate_counter = 0; hook_timer = now }, true)

-- The block under `g_config.api_rate_cap`: the hook afterwards, and whether the call goes on.
unfoldable pub rate_gate : GateConfig → ℕ → Hook → Hook × Bool
unfolding rate_window
rate_gate c now h =
    if c.api_rate_cap == 0 || is_uncapped h.new_func
    then (h, true)
    else if h.hook_disabled
    then (h, false)
    else let h' = record h { counter = u32 (h.counter + 1) } in
      if not (c.api_cap == 0) && leb c.api_cap h'.counter
      then (record h' { hook_disabled = true }, false)
      else rate_window c now h'
