-- ===== src/HookGate/Callers.antt =====
-- The two callers that `enter_hook` records, as the first frames of the walk that qualify.
use capemon.Base.{
  ℕ, ◌≡◌, ◌≢◌, refl, Bool, false, ◌&&◌, not, List, [], ◌∷◌, Option, none, some, ◌==◌, if◌then◌else◌,
  arith, All,
}
use capemon.HookGate.{Hook, HookInfo}
use capemon.HookGate.Backtrace.{
  Monitor, inside_monitor, skip_ours, skip_jump, call_each, operate_on_backtrace,
}
use capemon.HookGate.Enter.{
  Call, is_foreign, set_caller_info, set_caller_info_fallback, record_call,
}

-- The addresses that pass the test, in order.
unfoldable pub pick : (ℕ → Bool) → List ℕ → List ℕ
pick p [] = []
pick p (a ∷ addrs) = let rest = pick p addrs in if p a then a ∷ rest else rest

-- The first and the second of a list, 0 where there is none.
abbrev pub first : List ℕ → ℕ
first [] = 0
first (a ∷ addrs) = a

abbrev pub second : List ℕ → ℕ
second [] = 0
second (a ∷ addrs) = first addrs

-- The frames that the callbacks see.
frames_seen : Monitor → (ℕ → ℕ) → Option (List ℕ) → List ℕ
frames_seen m code none = []
frames_seen m code (some frames) = skip_jump code (skip_ours m frames)

unfoldable pub seen : Call → List ℕ
unfolding frames_seen
seen k = frames_seen k.monitor k.code k.frames

abbrev pub is_outside : Call → ℕ → Bool
is_outside k a = not (a == 0) && (not (k.inside_hook a) && not (inside_monitor k.monitor a))

-- One caller is known, and the next one is looked for.
foreign_parent :
    (k : Call) (addrs : List ℕ) (ret : Option Bool) (i : HookInfo)
    → i.main_caller_retaddr ≢ 0
    → i.parent_caller_retaddr ≡ 0
    → let i' = (call_each (set_caller_info k) ret i addrs).0 in
      (i'.main_caller_retaddr ≡ i.main_caller_retaddr)
      × (i'.parent_caller_retaddr ≡ first (pick (is_foreign k) addrs))
unfolding call_each set_caller_info pick
foreign_parent k [] ret i m p = (refl, p)
foreign_parent k (a ∷ addrs) ret i m p = ground (arith, foreign_parent k addrs (some false) i)

foreign_callers :
    (k : Call) (addrs : List ℕ) (ret : Option Bool) (i : HookInfo)
    → All (λ a. a ≢ 0) addrs
    → i.main_caller_retaddr ≡ 0
    → i.parent_caller_retaddr ≡ 0
    → let i' = (call_each (set_caller_info k) ret i addrs).0 in
      (i'.main_caller_retaddr ≡ first (pick (is_foreign k) addrs))
      × (i'.parent_caller_retaddr ≡ second (pick (is_foreign k) addrs))
unfolding call_each set_caller_info pick
foreign_callers k [] ret i nz m p = (m, p)
foreign_callers k (a ∷ addrs) ret i nz m p = ground (
  arith,
  nz.0,
  foreign_callers k addrs (some false) i nz.1,
  foreign_parent k addrs (some false) (record i { main_caller_retaddr = a }),
)

outside_parent :
    (k : Call) (addrs : List ℕ) (ret : Option Bool) (i : HookInfo)
    → i.main_caller_retaddr ≢ 0
    → i.parent_caller_retaddr ≡ 0
    → let i' = (call_each (set_caller_info_fallback k) ret i addrs).0 in
      (i'.main_caller_retaddr ≡ i.main_caller_retaddr)
      × (i'.parent_caller_retaddr ≡ first (pick (is_outside k) addrs))
unfolding call_each set_caller_info_fallback pick
outside_parent k [] ret i m p = (refl, p)
outside_parent k (a ∷ addrs) ret i m p = ground (arith, outside_parent k addrs (some false) i)

outside_callers :
    (k : Call) (addrs : List ℕ) (ret : Option Bool) (i : HookInfo)
    → i.main_caller_retaddr ≡ 0
    → i.parent_caller_retaddr ≡ 0
    → let i' = (call_each (set_caller_info_fallback k) ret i addrs).0 in
      (i'.main_caller_retaddr ≡ first (pick (is_outside k) addrs))
      × (i'.parent_caller_retaddr ≡ second (pick (is_outside k) addrs))
unfolding call_each set_caller_info_fallback pick
outside_callers k [] ret i m p = (m, p)
outside_callers k (a ∷ addrs) ret i m p = ground (
  arith,
  outside_callers k addrs (some false) i,
  outside_parent k addrs (some false) (record i { main_caller_retaddr = a }),
)

walk_frames {ℓ} :
    {S : Type ℓ} (func : S → ℕ → S × Bool) (m : Monitor) (code : ℕ → ℕ) (frames : Option (List ℕ))
    (s : S)
    → (operate_on_backtrace func m code frames s).0
      ≡ (call_each func none s (frames_seen m code frames)).0
unfolding operate_on_backtrace frames_seen
walk_frames func m code none s = unfold call_each in refl
walk_frames func m code (some frames) s = refl

walk_seen {ℓ} :
    {S : Type ℓ} (func : S → ℕ → S × Bool) (k : Call) (s : S)
    → (operate_on_backtrace func k.monitor k.code k.frames s).0 ≡ (call_each func none s (seen k)).0
unfolding seen
walk_seen func k s = walk_frames func k.monitor k.code k.frames s

second_of_none :
    (p : ℕ → Bool) (addrs : List ℕ)
    → All (λ a. a ≢ 0) addrs
    → first (pick p addrs) ≡ 0
    → second (pick p addrs) ≡ 0
unfolding pick
second_of_none p [] nz h = refl
second_of_none p (a ∷ addrs) nz h = ground (arith, nz.0, second_of_none p addrs nz.1)

-- When a hook is entered, and no frame of the walk is 0: if some frame lies outside of the libraries,
-- the hooks and the monitor, the main caller is the first such frame and the parent caller the second
-- (0 if there is none). If none does, they are the first and the second frame outside of the hooks
-- and the monitor. The frames are those behind the monitor's own; a failed walk has none.
pub record_call_callers :
    (k : Call) (h : Hook) (i : HookInfo)
    → All (λ a. a ≢ 0) (seen k)
    → let foreign = pick (is_foreign k) (seen k) in
      let outside = pick (is_outside k) (seen k) in
      let i' = record_call k h i in
      (first foreign ≢ 0
        → (i'.main_caller_retaddr ≡ first foreign) × (i'.parent_caller_retaddr ≡ second foreign))
      × (first foreign ≡ 0
          → (i'.main_caller_retaddr ≡ first outside) × (i'.parent_caller_retaddr ≡ second outside))
unfolding record_call
record_call_callers k h i nz =
    let i1 = record i {
      last_hook = i.current_hook;
      current_hook = h.id;
      stack_pointer = k.sp;
      return_address = k.return_address;
      frame_pointer = k.frame;
      main_caller_retaddr = 0;
      parent_caller_retaddr = 0;
    } in
    let i2 = (operate_on_backtrace (set_caller_info k) k.monitor k.code k.frames i1).0 in
    let e2 = walk_seen (set_caller_info k) k i1 in
    let e3 = walk_seen (set_caller_info_fallback k) k i2 in
    let f2 = foreign_callers k (seen k) none i1 nz refl refl in
    let f3 = outside_callers k (seen k) none i2 in
    let none_left = second_of_none (is_foreign k) (seen k) nz in
    (λ some'. ground (arith, e2, f2), λ none'. ground (arith, e2, e3, f2, f3, none_left none'))
