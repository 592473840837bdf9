-- ===== src/HookGate/Enter.antt =====
-- `enter_hook` and what it calls: the record of the thread, the forced hooks, the callers. What the
-- call sees of the system is one record; the frames are those that `our_stackwalk` returns.
use capemon.Base.{
  ℕ, Bool, true, false, ◌&&◌, ◌||◌, not, List, [], Option, none, some, ◌==◌, ltb, if◌then◌else◌,
}
use capemon.Lookup.{Lookup, lookup_add, lookup_get, lookup_put, lookup_del}
use capemon.DllRanges.{DllRange, is_in_dll_range}
use capemon.HookGate.{
  NewFunc, nt_allocate_virtual_memory, rtl_dispatch_exception, nt_continue, other, Hook, HookInfo,
  zeroed_info, GateConfig, rate_gate,
}
use capemon.HookGate.Backtrace.{Monitor, inside_monitor, operate_on_backtrace, called_by_hook}

-- `g_hook_info`, `tmphookinfo`, `tmphookinfo_threadid` and `g_force_hook_threads`.
pub record Gate : Type 0 where
  pub infos : Lookup HookInfo
  pub tmp : HookInfo
  pub tmp_threadid : ℕ
  pub forced : Lookup (List ℕ)

pub record Call : Type 0 where
  pub thread : ℕ
  pub sp : ℕ
  pub frame : ℕ
  pub return_address : ℕ  -- the word at `sp`
  pub now : ℕ
  pub frames : Option (List ℕ)
  pub code : ℕ → ℕ
  pub monitor : Monitor
  pub dlls : List DllRange
  pub inside_hook : ℕ → Bool
  pub same : List ℕ → List ℕ → Bool

abbrev pub is_allocate : NewFunc → Bool
is_allocate nt_allocate_virtual_memory = true
is_allocate rtl_dispatch_exception = false
is_allocate nt_continue = false
is_allocate other = false

abbrev pub is_dispatch : NewFunc → Bool
is_dispatch rtl_dispatch_exception = true
is_dispatch nt_allocate_virtual_memory = false
is_dispatch nt_continue = false
is_dispatch other = false

-- The size of `hook_info_t` on 64 bits.
abbrev pub info_size : ℕ
info_size = 64

abbrev pub is_missing {ℓ} : {A : Type ℓ} → Option A → Bool
is_missing none = true
is_missing (some a) = false

-- The record of the thread for the time of an allocation, when no entry may be made.
unfoldable pub prepare_tmp : Gate → ℕ → NewFunc → Gate
prepare_tmp g thread f =
    if is_allocate f
    then (if is_missing (lookup_get g.infos thread)
          && (g.tmp_threadid == 0 || not (g.tmp_threadid == thread))
        then record g { tmp = zeroed_info; tmp_threadid = thread }
        else g)
    else if g.tmp_threadid == 0
    then g
    else record g { tmp_threadid = 0 }

abbrev pub uses_tmp : Gate → ℕ → Bool
uses_tmp g thread = not (g.tmp_threadid == 0) && g.tmp_threadid == thread

abbrev pub or_zeroed : Option (HookInfo × ℕ) → HookInfo
or_zeroed none = zeroed_info
or_zeroed (some (i, size)) = i

-- `hook_info`: the thread has a record afterwards, and this is it.
unfoldable pub hook_info : Gate → ℕ → Gate × HookInfo
hook_info g thread =
    if uses_tmp g thread
    then (g, g.tmp)
    else if is_missing (lookup_get g.infos thread)
    then (record g { infos = lookup_add zeroed_info g.infos thread info_size }, zeroed_info)
    else (g, or_zeroed (lookup_get g.infos thread))

-- A write through the pointer that `hook_info` returned.
unfoldable pub put_info : Gate → ℕ → HookInfo → Gate
put_info g thread i =
    if uses_tmp g thread
    then record g { tmp = i }
    else record g { infos = lookup_put g.infos thread i }

unfoldable pub hook_enable : Gate → ℕ → Gate
unfolding hook_info put_info
hook_enable g thread =
    let (g', i) = hook_info g thread in put_info g' thread (record i { disable_count = 0 })

unfoldable pub hook_disable : Gate → ℕ → Gate
unfolding hook_info put_info
hook_disable g thread =
    let (g', i) = hook_info g thread in put_info g' thread (record i { disable_count = 1 })

unfoldable pub add_force_hook_thread_func : Gate → ℕ → List ℕ → Gate
add_force_hook_thread_func g thread function =
    let d =
      if is_missing (lookup_get g.forced thread)
      then lookup_add [] g.forced thread 8
      else g.forced in
    record g { forced = lookup_put d thread function }

abbrev pub names : (List ℕ → List ℕ → Bool) → List ℕ → Option (List ℕ × ℕ) → Bool
names same hookname none = false
names same hookname (some (function, size)) = same hookname function

unfoldable pub force_hook_thread_func : (List ℕ → List ℕ → Bool) → Gate → ℕ → List ℕ → Gate × Bool
force_hook_thread_func same g thread hookname =
    if names same hookname (lookup_get g.forced thread)
    then (record g { forced = lookup_del g.forced thread }, true)
    else (g, false)

-- The caller lies in a library, in a hook or in the monitor.
abbrev pub is_foreign : Call → ℕ → Bool
is_foreign k addr =
    not (is_in_dll_range k.dlls addr)
    && (not (k.inside_hook addr) && not (inside_monitor k.monitor addr))

unfoldable pub set_caller_info : Call → HookInfo → ℕ → HookInfo × Bool
set_caller_info k i addr =
    if is_foreign k addr
    then (if i.main_caller_retaddr == 0
        then (record i { main_caller_retaddr = addr }, false)
        else (record i { parent_caller_retaddr = addr }, true))
    else (i, false)

unfoldable pub set_caller_info_fallback : Call → HookInfo → ℕ → HookInfo × Bool
set_caller_info_fallback k i addr =
    if not (addr == 0) && (not (k.inside_hook addr) && not (inside_monitor k.monitor addr))
    then (if i.main_caller_retaddr == 0
        then (record i { main_caller_retaddr = addr }, false)
        else if i.parent_caller_retaddr == 0
        then (record i { parent_caller_retaddr = addr }, true)
        else (i, false))
    else (i, false)

-- What is stored in the record of the thread when the hook is entered. The walks end by
-- `hook_enable`.
unfoldable pub record_call : Call → Hook → HookInfo → HookInfo
unfolding operate_on_backtrace set_caller_info set_caller_info_fallback
record_call k h i =
    let i1 = record i {
      last_hook = i.current_hook;
      current_hook = h.id;
      stack_pointer = k.sp;
      return_address = k.return_address;
      frame_pointer = k.frame;
      main_caller_retaddr = 0;
      parent_caller_retaddr = 0;
    } in
    let i2 = (operate_on_backtrace (set_caller_info k) k.monitor k.code k.frames i1).0 in
    let i3 = (operate_on_backtrace (set_caller_info_fallback k) k.monitor k.code k.frames i2).0 in
    record (if i2.main_caller_retaddr == 0 then i3 else i2) { disable_count = 0 }

-- The last conditions and the entry itself.
unfoldable pub admit : GateConfig → Call → Gate → Hook → HookInfo → Gate × Hook × Bool
admit c k g h i =
    let (h', on) = rate_gate c k.now h in
    if on then (put_info g k.thread (record_call k h' i), h', true) else (g, h', false)

-- Whether a thread with hooks enabled may enter: by the kind of hook, by force, or from outside.
unfoldable pub may_enter : Call → Gate → Hook → Gate × Bool
may_enter k g h =
    if h.allow_hook_recursion
    then (g, true)
    else let (g', forced) = force_hook_thread_func k.same g k.thread h.funcname in
      if forced then (g', true) else (g', not (called_by_hook k.monitor k.code k.frames))

-- TRUE runs the hook, FALSE the original function.
unfoldable pub enter_hook : GateConfig → Call → Gate → Hook → Gate × Hook × Bool
enter_hook c k g h =
    if h.fully_emulate
    then (g, h, true)
    else let g1 = prepare_tmp g k.thread h.new_func in
      let (g2, i) = hook_info g1 k.thread in
      if c.debugger && (ltb 0 i.disable_count && is_dispatch h.new_func)
      then (g2, h, true)
      else if ltb i.disable_count 1
      then (let (g3, on) = may_enter k g2 h in if on then admit c k g3 h i else (g3, h, false))
      else (g2, h, false)
