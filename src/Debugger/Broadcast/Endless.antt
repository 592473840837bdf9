-- ===== src/Debugger/Broadcast/Endless.antt =====
-- `ContextSetBreakpoint` for a thread that is in the list.
use mathlib.Core.Path.{subst}
use capemon.Base.{
  ℕ, zero, suc, ◌≡◌, ◌⊎◌, inl, inr, refl, sym, Bool, not, ◌&&◌, none, some, List, [], ◌∷◌, ◌==◌,
  ==_iff, arith, Bool-cases, Option-cases, ltb, leb, ◌<◌,
}
use capemon.Debugger.Registers.{Context, write_debug_register}
use capemon.Debugger.Threads.{
  BreakpointInfo, ThreadBreakpoints, Debugger, System, get_thread_breakpoints,
  create_thread_breakpoints, put_thread_breakpoints, set_thread_breakpoint, set_debug_register,
  put_slot,
}
use capemon.Debugger.Current.{
  Result, current, set_thread_context, context_set_debug_register_ex,
  context_set_thread_breakpoint_ex,
}
use capemon.Debugger.Registers.Laws.{length_mask-raw_mask}
use capemon.Debugger.Broadcast.{
  Ending, outside_array, still_running, thread_ids, set_others, context_set_breakpoint,
}

-- No return: the loop runs, or it has read outside `LengthMask`, with a size above 4.
data IsStuck {A : Type 0} (size : ℕ) (r : Ending A) : Type 0 where
  runs : r ≡ still_running → IsStuck size r
  reads : 4 < size → r ≡ outside_array → IsStuck size r

-- A number stands in a list.
abbrev Has : ℕ → List ℕ → Type 0
Has k [] = ⊥
Has k (x ∷ xs) = (x ≡ k) ⊎ Has k xs

thread_ids-found :
    (ts : List ThreadBreakpoints) (id : ℕ) (t : ThreadBreakpoints)
    → get_thread_breakpoints ts id ≡ some t
    → Has id (thread_ids ts)
unfolding get_thread_breakpoints
thread_ids-found [] id t h = absurd (ground arith)
thread_ids-found (x ∷ ts) id t h = elim (Bool-cases (x.thread_id == id)) [
  | inl this ↦ inl ((==_iff _ _).0 this)
  | inr later ↦ inr (thread_ids-found ts id t (ground arith))
]

found_id :
    (ts : List ThreadBreakpoints) (id : ℕ) (t : ThreadBreakpoints)
    → get_thread_breakpoints ts id ≡ some t
    → t.thread_id ≡ id
unfolding get_thread_breakpoints
found_id [] id t h = absurd (ground arith)
found_id (x ∷ ts) id t h = elim (Bool-cases (x.thread_id == id)) [
  | inl this ↦ ground arith
  | inr later ↦ found_id ts id t (ground arith)
]

thread_ids-put :
    (ts : List ThreadBreakpoints) (id : ℕ) (v : ThreadBreakpoints)
    → v.thread_id ≡ id
    → Has id (thread_ids ts)
    → Has id (thread_ids (put_thread_breakpoints ts id v))
unfolding put_thread_breakpoints
thread_ids-put [] id v same h = h
thread_ids-put (x ∷ ts) id v same h = elim (Bool-cases (x.thread_id == id)) [
  | inl this ↦ rw this (inl same)
  | inr later ↦ elim h [
    | inl here ↦ absurd (ground arith)
    | inr there ↦ rw later (inr (thread_ids-put ts id v same there))
  ]
]

module _ (sys : System) (register size address type hit_count callback : ℕ) where
  same_threads :
      (d : Debugger) (c : Context) (no_set : Bool) (r : Result)
      → context_set_debug_register_ex sys d c register size address type no_set ≡ some r
      → r.0.threads ≡ d.threads
  unfolding context_set_debug_register_ex set_thread_context
  same_threads d c no_set r h = ground arith

  thread_ids-set :
      (d : Debugger) (c : Context) (no_set : Bool) (r : Result)
      → context_set_thread_breakpoint_ex sys d c register size address type hit_count callback
          no_set
        ≡ some r
      → Has sys.current_thread_id (thread_ids d.threads)
      → Has sys.current_thread_id (thread_ids r.0.threads)
  unfolding context_set_thread_breakpoint_ex put_slot
  thread_ids-set d c no_set r h known =
      let whole = λ (e : r.0.threads ≡ d.threads).
        subst (λ (ts : List ThreadBreakpoints). Has sys.current_thread_id (thread_ids ts)) (sym e)
          known in
      elim (Bool-cases (ltb 3 register)) [
        | inl bad ↦ whole (ground arith)
        | inr small ↦
            elim (Option-cases
              (context_set_debug_register_ex sys d c register size address type no_set)) [
                | inl bad ↦ absurd (ground arith)
                | inr ((d1, c1, done), ends) ↦
                    let same : d1.threads ≡ d.threads =
                      same_threads d c no_set (d1, c1, done) ends in
                    elim (Bool-cases done) [
                      | inr refused ↦ whole (ground arith)
                      | inl accepted ↦ elim (Option-cases (current sys d1)) [
                        | inl gone ↦ whole (ground arith)
                        | inr (t, there) ↦
                            let b : BreakpointInfo = record {
                              thread_handle = t.thread_handle;
                              register = register;
                              size = size;
                              address = address;
                              type = type;
                              hit_count = hit_count;
                              callback = callback;
                            } in
                            let v = put_slot t register b in
                            let e : r.0.threads
                                ≡ put_thread_breakpoints d.threads sys.current_thread_id v =
                              ground arith in
                            let named : v.thread_id ≡ sys.current_thread_id =
                              found_id d1.threads sys.current_thread_id t there in
                            subst
                              (λ (ts : List ThreadBreakpoints).
                                Has sys.current_thread_id (thread_ids ts))
                              (sym e) (thread_ids-put d.threads sys.current_thread_id v named known)
                      ]
                    ]
              ]
      ]

  reads_outside :
      (c : Context) → write_debug_register c register size address type ≡ none → 4 < size
  unfolding write_debug_register
  reads_outside c bad = elim (Bool-cases (leb size 4)) [
    | inr big ↦ ground (arith, big)
    | inl small ↦ absurd (ground (arith, length_mask-raw_mask size (ground arith)))
  ]

  context_outside :
      (d : Debugger) (c : Context) (no_set : Bool)
      → context_set_thread_breakpoint_ex sys d c register size address type hit_count callback
          no_set
        ≡ none
      → 4 < size
  unfolding context_set_thread_breakpoint_ex context_set_debug_register_ex
  context_outside d c no_set bad = reads_outside c (ground arith)

  debug_outside :
      (d : Debugger) (handle : ℕ)
      → set_debug_register sys d handle register size address type ≡ none
      → 4 < size
  unfolding set_debug_register
  debug_outside d handle bad = reads_outside (d.contexts handle) (ground arith)

  entered : Debugger → ℕ → Debugger
  entered d id = elim (get_thread_breakpoints d.threads id) [
    | some t ↦ d
    | none ↦ (create_thread_breakpoints sys d id).0
  ]

  thread_outside :
      (d : Debugger) (id : ℕ)
      → set_thread_breakpoint sys d id register size address type hit_count callback ≡ none
      → 4 < size
  unfolding set_thread_breakpoint entered
  thread_outside d id bad = elim (Bool-cases (ltb 3 register)) [
    | inl high ↦ absurd (ground arith)
    | inr low ↦ elim (Option-cases (get_thread_breakpoints (entered d id).threads id)) [
      | inl gone ↦ absurd (ground arith)
      | inr (t, there) ↦ elim (Bool-cases (t.thread_handle == 0)) [
        | inl no_handle ↦ absurd (ground arith)
        | inr opened ↦
            let b : BreakpointInfo = record {
              thread_handle = t.thread_handle;
              register = register;
              size = size;
              address = address;
              type = type;
              hit_count = hit_count;
              callback = callback;
            } in
            let threads' =
              put_thread_breakpoints (entered d id).threads id (put_slot t register b) in
            debug_outside (record (entered d id) { threads = threads' }) t.thread_handle
              (ground arith)
      ]
    ]
  ]

  -- A loop over a list with the current thread does not get through it.
  set_others-IsStuck :
      (fuel : ℕ) (d : Debugger) (ts : List ℕ)
      → Has sys.current_thread_id ts
      → IsStuck size (set_others sys register size address type hit_count callback fuel d ts)
  unfolding set_others
  set_others-IsStuck zero d ts h = runs refl
  set_others-IsStuck (suc fuel) d [] h = absurd h
  set_others-IsStuck (suc fuel) d (id ∷ rest) h =
      elim (Bool-cases (not (id == 0) && not (id == sys.current_thread_id))) [
        | inr stays ↦ rw (set_others, stays) (set_others-IsStuck fuel d (id ∷ rest) h)
        | inl goes ↦ elim h [
          | inl here ↦ absurd (ground arith)
          | inr there ↦
              elim (Option-cases
                (set_thread_breakpoint sys d id register size address type hit_count callback)) [
                  | inl bad ↦ rw (set_others, goes, bad) (reads (thread_outside d id bad) refl)
                  | inr ((d1, done), ok) ↦
                      rw (set_others, goes, ok) (set_others-IsStuck fuel d1 rest there)
                ]
        ]
      ]

  -- Where the current thread is in the list, which is where `ContextSetBreakpoint` does not refuse at
  -- once, no number of rounds is enough for its loop: after any number it is still running, or, with
  -- a size above 4 only, something outside `LengthMask` was read.
  pub context_set_breakpoint_endless :
      (fuel : ℕ) (d : Debugger) (c : Context) (no_set : Bool) (t : ThreadBreakpoints)
      → current sys d ≡ some t
      → (context_set_breakpoint sys register size address type hit_count callback fuel d c no_set
          ≡ still_running)
        ⊎ ((4 < size)
            × (context_set_breakpoint sys register size address type hit_count callback fuel d c
                  no_set
                ≡ outside_array))
  unfolding context_set_breakpoint
  context_set_breakpoint_endless fuel d c no_set t known =
      let has = thread_ids-found d.threads sys.current_thread_id t known in
      elim (Option-cases (
        context_set_thread_breakpoint_ex sys d c register size address type hit_count callback
          no_set)) [
            | inl bad ↦
                inr (context_outside d c no_set bad, rw (context_set_breakpoint, known, bad) refl)
            | inr ((d1, c1, done), ok) ↦
                elim (set_others-IsStuck fuel d1 (thread_ids d1.threads)
                  (thread_ids-set d c no_set (d1, c1, done) ok has)) [
                    | runs stuck ↦ inl (rw (context_set_breakpoint, known, ok, stuck) refl)
                    | reads big stuck ↦
                        inr (big, rw (context_set_breakpoint, known, ok, stuck) refl)
                  ]
          ]
