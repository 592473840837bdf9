-- ===== src/Debugger/Current/Setting.antt =====
-- Setting breakpoints of the current thread keeps its slots in agreement with the context.
use capemon.Base.{
  ℕ, ◌≤◌, ◌<◌, ◌≡◌, ◌≢◌, refl, ap, ◌∙◌, Bool, true, false, none, some, List, ◌==◌, ltb, arith,
  get_elem?, Bool-cases, Option-cases, inl, inr,
}
use capemon.Debugger.Registers.{Context}
use capemon.Debugger.Registers.Laws.{watch, length_field, write_debug_register_lem}
use capemon.Debugger.Threads.{
  BreakpointInfo, ThreadBreakpoints, Debugger, System, get_thread_breakpoints,
  create_thread_breakpoints, put_thread_breakpoints, free_register, put_slot,
}
use capemon.Debugger.Current.{
  Result, current, set_thread_context, context_set_debug_register_ex,
  context_set_thread_breakpoint_ex, context_get_next_available_breakpoint, any_identical,
  context_set_next_available_breakpoint,
}
use capemon.Debugger.Current.Agreement.{Agrees-set, Agrees-free, free_register-some, get_elem?-lt}
use capemon.Debugger.Current.Keeping.{IsWatched, write_back, set_thread_context-keeps}

-- From the end of `context_set_debug_register_ex`: the register `r`, whose slot was free, watches.
module _ (sys : System) (no_set : Bool) (d d1 : Debugger) (c c1 : Context)
    (r size a t hit_count callback : ℕ) (b : BreakpointInfo) (ok : IsWatched sys d c)
    (at : get_elem? ok.thread.breakpoint_info r ≡ some b) (free : b.address ≡ 0)
    (same : d1.threads ≡ d.threads) where
  small : r < 4
  small = omega (arith, get_elem?-lt ok.thread.breakpoint_info r b at, ok.agrees.four)

  still_known : current sys d1 ≡ some ok.thread
  still_known =
      ap (λ (ts : List ThreadBreakpoints). get_thread_breakpoints ts sys.current_thread_id) same
      ∙ ok.known

  set_slot :
      (done : Bool)
      → context_set_debug_register_ex sys d c r size a t no_set ≡ some (d1, c1, done)
      → watch c1 r ≡ record { address = a; enabled = 1; rwe = t; len = length_field size t }
      → ((q : ℕ) → q < 4 → r ≢ q → watch c1 q ≡ watch c q)
      → (result : Result) × (context_set_thread_breakpoint_ex sys d c r size a t hit_count callback
            no_set
          ≡ some result)
        × (result.2 ≡ true)
        × IsWatched sys result.0 result.1
  unfolding context_set_thread_breakpoint_ex put_slot
  set_slot false ends seen others =
      let range : ltb 3 r ≡ false = ground (arith, small) in
      (
        (d1, c1, true),
        rw (context_set_thread_breakpoint_ex, range, ends) refl,
        refl,
        record {
          thread = ok.thread;
          known = still_known;
          agrees = Agrees-free ok.thread.breakpoint_info c c1 r b ok.agrees at free others;
        },
      )
  set_slot true ends seen others =
      let range : ltb 3 r ≡ false = ground (arith, small) in
      let b' : BreakpointInfo = record {
        thread_handle = ok.thread.thread_handle;
        register = r;
        size = size;
        address = a;
        type = t;
        hit_count = hit_count;
        callback = callback;
      } in
      let v = put_slot ok.thread r b' in
      (
        (
          record d1 { threads = put_thread_breakpoints d1.threads sys.current_thread_id v },
          c1,
          true,
        ),
        rw (context_set_thread_breakpoint_ex, range, ends, still_known) refl,
        refl,
        write_back sys d1 c1 ok.thread v still_known refl (
            Agrees-set ok.thread.breakpoint_info c c1 r b' ok.agrees small refl (λ used. seen)
              others),
      )

module _ (sys : System) (no_set : Bool) where
  -- A breakpoint in a register whose slot is free.
  set_free :
      (d : Debugger) (c : Context) (r size a t hit_count callback : ℕ) (b : BreakpointInfo)
      (ok : IsWatched sys d c)
      → get_elem? ok.thread.breakpoint_info r ≡ some b
      → b.address ≡ 0
      → size ≤ 4
      → t ≤ 3
      → t ≢ 2
      → (result : Result) × (context_set_thread_breakpoint_ex sys d c r size a t hit_count callback
            no_set
          ≡ some result)
        × (result.2 ≡ true)
        × IsWatched sys result.0 result.1
  unfolding context_set_debug_register_ex
  set_free d c r size a t hit_count callback b ok at free hs ht h2 =
      let T : ThreadBreakpoints = ok.thread in
      let hr : r < 4 = omega (arith, get_elem?-lt T.breakpoint_info r b at, ok.agrees.four) in
      let (c', written, seen, others, back) = write_debug_register_lem c r size a t hr hs ht h2 in
      let e : Result = set_thread_context sys d c' no_set T.thread_handle in
      let keeps = set_thread_context-keeps sys d c' no_set T.thread_handle in
      let ends : context_set_debug_register_ex sys d c r size a t no_set ≡ some e =
        rw (context_set_debug_register_ex, written, ok.known) refl in
      set_slot sys no_set d e.0 c e.1 r size a t hit_count callback b ok at free keeps.0 e.2 ends
        (ap (λ (x : Context). watch x r) keeps.1 ∙ seen)
        (λ q hq differ. ap (λ (x : Context). watch x q) keeps.1 ∙ others q hq differ)

  next_available :
      (d : Debugger) (t : ThreadBreakpoints)
      → current sys d ≡ some t
      → context_get_next_available_breakpoint sys d ≡ (d, free_register t.breakpoint_info 0)
  unfolding context_get_next_available_breakpoint
  next_available d t known =
      let there : (elim (current sys d) as (λ x. Debugger) [
        | some t' ↦ d
        | none ↦ (create_thread_breakpoints sys d sys.current_thread_id).0
      ])
          ≡ d =
        rw known refl in
      rw (context_get_next_available_breakpoint, there, known, there) refl

  -- Whatever way `context_set_next_available_breakpoint` takes, it ends, and keeps the agreement.
  pub context_set_next_available_breakpoint-IsWatched :
      (d : Debugger) (c : Context) (size a t hit_count callback : ℕ)
      → size ≤ 4
      → t ≤ 3
      → t ≢ 2
      → IsWatched sys d c
      → (result : Result) × (context_set_next_available_breakpoint sys d c size a t hit_count
            callback no_set
          ≡ some result)
        × IsWatched sys result.0 result.1
  unfolding context_set_next_available_breakpoint
  context_set_next_available_breakpoint-IsWatched d c size a t hit_count callback hs ht h2 ok =
      let T : ThreadBreakpoints = ok.thread in
      elim (Bool-cases (a == 0)) [
        | inl null ↦ ((d, c, false), rw (context_set_next_available_breakpoint, null) refl, ok)
        | inr address ↦ elim (Bool-cases (any_identical size a t hit_count T.breakpoint_info)) [
          | inl twin ↦ (
            (d, c, true),
            rw (context_set_next_available_breakpoint, address, ok.known, twin) refl,
            ok,
          )
          | inr new ↦ elim (Option-cases (free_register T.breakpoint_info 0)) [
            | inl full ↦ (
              (d, c, false),
              rw
                  (
                    context_set_next_available_breakpoint,
                    address,
                    ok.known,
                    new,
                    next_available d T ok.known,
                    full,
                    next_available d T ok.known,
                  )
                  refl,
              ok,
            )
            | inr (k, found) ↦
                let (r, b, place, at, free) = free_register-some T.breakpoint_info 0 k found in
                let e : k ≡ r = omega arith in
                let (result, runs, done, kept) =
                  set_free d c r size a t hit_count callback b ok at free hs ht h2 in
                (
                  result,
                  rw
                      (
                        context_set_next_available_breakpoint,
                        address,
                        ok.known,
                        new,
                        next_available d T ok.known,
                        found,
                        next_available d T ok.known,
                        e,
                      )
                      runs,
                  kept,
                )
          ]
        ]
      ]
