-- ===== src/HookGate/Absorbing.antt =====
-- What `enter_hook` does on each of its ways out.
use capemon.Base.{
  ℕ, ◌≡◌, ◌≢◌, refl, Bool, true, false, ◌&&◌, List, [], ◌∷◌, some, ◌==◌, arith, Bool-cases, inl,
  inr, ap, sym, ◌∙◌,
}
use capemon.Lookup.{Lookup, lookup_add, lookup_get, lookup_put}
use capemon.HookGate.{
  Hook, HookInfo, GateConfig, NewFunc, is_uncapped, other, nt_continue, rtl_dispatch_exception,
  nt_allocate_virtual_memory,
}
use capemon.HookGate.Rate.{disabled_stays}
use capemon.HookGate.Backtrace.{called_by_hook}
use capemon.HookGate.Enter.{
  Gate, Call, is_dispatch, is_allocate, prepare_tmp, hook_info, put_info, hook_disable, may_enter,
  admit, force_hook_thread_func, enter_hook, is_missing, names,
}

put_present :
    (d : Lookup HookInfo) (k : ℕ) (v : HookInfo)
    → is_missing (lookup_get d k) ≡ false
    → (size : ℕ) × (lookup_get (lookup_put d k v) k ≡ some (v, size))
unfolding lookup_get lookup_put
put_present [] k v h = absurd (cc)
put_present (p ∷ ps) k v h = elim (Bool-cases (p.id == k)) [
  | inl e ↦ (p.size, rw e (ground arith))
  | inr e ↦ let rest = put_present ps k v (ground arith) in (rest.0, rw e (ground (arith, rest.1)))
]

-- While the spare record is not in use, `hook_info` leaves an entry for the thread in the list.
info_present :
    (g : Gate) (thread : ℕ)
    → g.tmp_threadid ≡ 0
    → ((hook_info g thread).0.tmp_threadid ≡ 0)
      × (is_missing (lookup_get (hook_info g thread).0.infos thread) ≡ false)
unfolding hook_info lookup_get lookup_add
info_present g thread spare = elim (Bool-cases (is_missing (lookup_get g.infos thread))) [
  | inl e ↦ ground arith
  | inr e ↦ ground arith
]

-- Then a write to the record of the thread is what `hook_info` gives back.
info_put :
    (g : Gate) (thread : ℕ) (i : HookInfo)
    → g.tmp_threadid ≡ 0
    → is_missing (lookup_get g.infos thread) ≡ false
    → ((put_info g thread i).tmp_threadid ≡ 0)
      × (hook_info (put_info g thread i) thread ≡ (put_info g thread i, i))
unfolding hook_info put_info
info_put g thread i spare present = ground (arith, (put_present g.infos thread i present).1)

-- The record of a thread after `hook_disable`.
disabled_info :
    (g : Gate) (thread : ℕ)
    → g.tmp_threadid ≡ 0
    → (i : HookInfo) × ((hook_disable g thread).tmp_threadid ≡ 0)
      × (hook_info (hook_disable g thread) thread ≡ (hook_disable g thread, i))
      × (i.disable_count ≡ 1)
disabled_info g thread spare =
    let i = record (hook_info g thread).1 { disable_count = 1 } in
    let ready = info_present g thread spare in
    let put = info_put (hook_info g thread).0 thread i ready.0 ready.1 in
    (i, unfold hook_disable in put.0, unfold hook_disable in put.1, refl)

prepare_spare :
    (g : Gate) (thread : ℕ) (f : NewFunc)
    → g.tmp_threadid ≡ 0
    → is_allocate f ≡ false
    → prepare_tmp g thread f ≡ g
unfolding prepare_tmp
prepare_spare g thread f spare kind = ground arith

-- After `hook_disable`, and while the spare record is not in use, a call of the thread runs the
-- original function and changes neither the state nor the hook. This excepts a hook that is fully
-- emulated, the allocation hook (which may take the spare record) and, under the debugger, the
-- exception dispatcher.
pub enter_hook-hook_disable :
    (c : GateConfig) (k : Call) (g : Gate) (h : Hook)
    → g.tmp_threadid ≡ 0
    → h.fully_emulate ≡ false
    → is_allocate h.new_func ≡ false
    → (c.debugger && is_dispatch h.new_func) ≡ false
    → enter_hook c k (hook_disable g k.thread) h ≡ (hook_disable g k.thread, h, false)
enter_hook-hook_disable c k g h spare own kind quiet =
    let off = disabled_info g k.thread spare in
    enter_disabled c k (hook_disable g k.thread) h off.0 off.1 off.2 off.3 own kind quiet
  where
    enter_disabled :
        (c : GateConfig) (k : Call) (g : Gate) (h : Hook) (i : HookInfo)
        → g.tmp_threadid ≡ 0
        → hook_info g k.thread ≡ (g, i)
        → i.disable_count ≡ 1
        → h.fully_emulate ≡ false
        → is_allocate h.new_func ≡ false
        → (c.debugger && is_dispatch h.new_func) ≡ false
        → enter_hook c k g h ≡ (g, h, false)
    enter_disabled c k g h i spare e one own kind quiet =
        unfold enter_hook in ground (arith, prepare_spare g k.thread h.new_func spare kind)

forced_stays :
    (g : Gate) (thread : ℕ) (f : NewFunc)
    → (hook_info (prepare_tmp g thread f) thread).0.forced ≡ g.forced
unfolding hook_info prepare_tmp
forced_stays g thread f = ground arith

force_result :
    (same : List ℕ → List ℕ → Bool) (g : Gate) (thread : ℕ) (name : List ℕ)
    → (force_hook_thread_func same g thread name).1 ≡ names same name (lookup_get g.forced thread)
unfolding force_hook_thread_func
force_result same g thread name = ground arith

unforced :
    (same : List ℕ → List ℕ → Bool) (g g' : Gate) (thread : ℕ) (name : List ℕ)
    → g'.forced ≡ g.forced
    → (force_hook_thread_func same g thread name).1 ≡ false
    → (force_hook_thread_func same g' thread name).1 ≡ false
unforced same g g' thread name e h =
    force_result same g' thread name
    ∙ ap (λ d. names same name (lookup_get d thread)) e
    ∙ sym (force_result same g thread name)
    ∙ h

not_admitted :
    (k : Call) (g : Gate) (h : Hook)
    → h.allow_hook_recursion ≡ false
    → called_by_hook k.monitor k.code k.frames ≡ true
    → (force_hook_thread_func k.same g k.thread h.funcname).1 ≡ false
    → (may_enter k g h).1 ≡ false
unfolding may_enter
not_admitted k g h once inner free = ground arith

-- A call from inside a hook runs the original function and leaves the hook as it is, unless the hook
-- is fully emulated, allows recursion or is forced for the thread, or the exception dispatcher is
-- hooked under the debugger.
pub enter_hook_recursion :
    (c : GateConfig) (k : Call) (g : Gate) (h : Hook)
    → h.fully_emulate ≡ false
    → h.allow_hook_recursion ≡ false
    → (c.debugger && is_dispatch h.new_func) ≡ false
    → called_by_hook k.monitor k.code k.frames ≡ true
    → (force_hook_thread_func k.same g k.thread h.funcname).1 ≡ false
    → ((enter_hook c k g h).1 ≡ h) × ((enter_hook c k g h).2 ≡ false)
unfolding enter_hook
enter_hook_recursion c k g h own once quiet inner free =
    let g2 = (hook_info (prepare_tmp g k.thread h.new_func) k.thread).0 in
    let free2 =
      unforced k.same g g2 k.thread h.funcname (forced_stays g k.thread h.new_func) free in
    ground (arith, not_admitted k g2 h once inner free2)

refused_by_cap :
    (c : GateConfig) (k : Call) (g : Gate) (h : Hook) (i : HookInfo)
    → c.api_rate_cap ≢ 0
    → is_uncapped h.new_func ≡ false
    → h.hook_disabled ≡ true
    → admit c k g h i ≡ (g, h, false)
unfolding admit
refused_by_cap c k g h i cap kind off = rw (disabled_stays c k.now h cap kind off) refl

capped_not_dispatch : (f : NewFunc) → is_uncapped f ≡ false → is_dispatch f ≡ false
capped_not_dispatch nt_allocate_virtual_memory h = refl
capped_not_dispatch rtl_dispatch_exception h = cc
capped_not_dispatch nt_continue h = refl
capped_not_dispatch other h = refl

-- A hook that a cap has disabled is never run again while the cap is on, whoever calls it, and
-- stays disabled; a fully emulated hook is not subject to the cap.
enter_hook_capped :
    (c : GateConfig) (k : Call) (g : Gate) (h : Hook)
    → h.fully_emulate ≡ false
    → c.api_rate_cap ≢ 0
    → is_uncapped h.new_func ≡ false
    → h.hook_disabled ≡ true
    → ((enter_hook c k g h).1 ≡ h) × ((enter_hook c k g h).2 ≡ false)
unfolding enter_hook
enter_hook_capped c k g h own cap kind off =
    let o = hook_info (prepare_tmp g k.thread h.new_func) k.thread in
    ground (
      arith,
      capped_not_dispatch h.new_func kind,
      refused_by_cap c k (may_enter k o.0 h).0 h o.1 cap kind off,
    )
