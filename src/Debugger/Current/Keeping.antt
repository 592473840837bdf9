-- ===== src/Debugger/Current/Keeping.antt =====
-- The agreement of the current thread with the context, and the calls that clear breakpoints.
use mathlib.Core.Path.{subst}
use capemon.Base.{
  ℕ, ◌<◌, ◌≡◌, refl, ap, sym, ◌∙◌, Bool, some, List, [], ◌∷◌, arith, get_elem?, map, Option-cases,
  inl, inr,
}
use capemon.Debugger.Registers.{Context, clear_register, context_clear_debug_registers}
use capemon.Debugger.Registers.Laws.{watch-clear_register_ne}
use capemon.Debugger.Threads.{
  BreakpointInfo, ThreadBreakpoints, Debugger, System, get_thread_breakpoints,
  put_thread_breakpoints, put_slot, cleared,
}
use capemon.Debugger.Current.{
  Result, current, set_thread_context, context_clear_breakpoint_ex, slot_of,
  context_clear_breakpoint, context_clear_all_breakpoints_ex,
}
use capemon.Debugger.Current.Agreement.{
  Agrees, Agrees-set, Agrees-cleared, slot_of-some, get_elem?-lt,
}

-- What is written through the pointer to a thread is found again.
put_found :
    (ts : List ThreadBreakpoints) (id : ℕ) (t v : ThreadBreakpoints)
    → get_thread_breakpoints ts id ≡ some t
    → v.thread_id ≡ t.thread_id
    → (get_thread_breakpoints (put_thread_breakpoints ts id v) id ≡ some v)
unfolding get_thread_breakpoints put_thread_breakpoints
put_found [] id t v h same = absurd (ground arith)
put_found (x ∷ ts) id t v h same = ground (arith, put_found ts id t v)

-- The current thread is known, and its slots agree with the context.
pub record IsWatched (sys : System) (d : Debugger) (c : Context) : Type 0 where
  pub thread : ThreadBreakpoints
  pub known : current sys d ≡ some thread
  pub agrees : Agrees thread.breakpoint_info c

-- A write to the thread that is found, with other slots.
pub write_back :
    (sys : System) (d : Debugger) (c : Context) (t v : ThreadBreakpoints)
    → current sys d ≡ some t
    → v.thread_id ≡ t.thread_id
    → Agrees v.breakpoint_info c
    → IsWatched sys
        (record d { threads = put_thread_breakpoints d.threads sys.current_thread_id v })
        c
write_back sys d c t v here same ok = record {
  thread = v;
  known = put_found d.threads sys.current_thread_id t v here same;
  agrees = ok;
}

-- `SetThreadContext` changes no list and not the context at hand.
pub set_thread_context-keeps :
    (sys : System) (d : Debugger) (c : Context) (no_set : Bool) (handle : ℕ)
    → let r : Result = set_thread_context sys d c no_set handle in
      (r.0.threads ≡ d.threads) × (r.1 ≡ c)
unfolding set_thread_context
set_thread_context-keeps sys d c no_set handle = ground arith

module _ (sys : System) (no_set : Bool) where
  after_context :
      (d : Debugger) (c : Context) (handle : ℕ)
      → IsWatched sys d c
      → IsWatched sys
          (set_thread_context sys d c no_set handle).0
          (set_thread_context sys d c no_set handle).1
  after_context d c handle ok =
      let keeps = set_thread_context-keeps sys d c no_set handle in
      record {
        thread = ok.thread;
        known =
            ap (λ (ts : List ThreadBreakpoints). get_thread_breakpoints ts sys.current_thread_id)
              keeps.0
            ∙ ok.known;
        agrees = subst (Agrees ok.thread.breakpoint_info) (sym keeps.1) ok.agrees;
      }

  context_clear_breakpoint_ex-IsWatched :
      (d : Debugger) (c : Context) (register i : ℕ) (b : BreakpointInfo) (ok : IsWatched sys d c)
      → slot_of ok.thread.breakpoint_info register 0 ≡ some (i, b)
      → let r : Result = context_clear_breakpoint_ex sys d c ok.thread i b no_set in
        IsWatched sys r.0 r.1
  unfolding context_clear_breakpoint_ex put_slot
  context_clear_breakpoint_ex-IsWatched d c register i b ok found =
      let t : ThreadBreakpoints = ok.thread in
      let (j, place, at, named) = slot_of-some t.breakpoint_info register 0 i b found in
      let here : get_elem? t.breakpoint_info i ≡ some b =
        ap (get_elem? t.breakpoint_info) (omega arith) ∙ at in
      let own = ok.agrees.own i b here in
      let small : i < 4 = omega (arith, get_elem?-lt t.breakpoint_info i b here, ok.agrees.four) in
      let b' : BreakpointInfo = record b { address = 0; size = 0; type = 0; hit_count = 0 } in
      let c' = clear_register c b.register in
      after_context _ c' b.thread_handle (
        write_back sys d c' t (put_slot t i b') ok.known refl (
          Agrees-set t.breakpoint_info c c' i b' ok.agrees small own (λ used. absurd (used refl))
            (λ q hq differ.
              watch-clear_register_ne c b.register q (omega arith) hq (λ e. differ (sym own ∙ e)))))

  pub context_clear_breakpoint-IsWatched :
      (d : Debugger) (c : Context) (register : ℕ)
      → IsWatched sys d c
      → let r : Result = context_clear_breakpoint sys d c register no_set in IsWatched sys r.0 r.1
  unfolding context_clear_breakpoint
  context_clear_breakpoint-IsWatched d c register ok =
      elim (Option-cases (slot_of ok.thread.breakpoint_info register 0)) [
        | inl nowhere ↦ rw (context_clear_breakpoint, ok.known, nowhere) ok
        | inr ((i, b), found) ↦
            rw (context_clear_breakpoint, ok.known, found)
              (context_clear_breakpoint_ex-IsWatched d c register i b ok found)
      ]

  pub context_clear_all_breakpoints_ex-IsWatched :
      (d : Debugger) (c : Context)
      → IsWatched sys d c
      → let r : Result = context_clear_all_breakpoints_ex sys d c no_set in IsWatched sys r.0 r.1
  unfolding context_clear_all_breakpoints_ex
  context_clear_all_breakpoints_ex-IsWatched d c ok =
      let t : ThreadBreakpoints = ok.thread in
      rw (context_clear_all_breakpoints_ex, ok.known)
        (after_context _ _ t.thread_handle (
          write_back sys d (context_clear_debug_registers c) t
            (record t { breakpoint_info = map cleared t.breakpoint_info }) ok.known refl
            (Agrees-cleared t.breakpoint_info c (context_clear_debug_registers c) ok.agrees)))
