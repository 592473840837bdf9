-- ===== src/Debugger/Soft/Restoring.antt =====
-- The code after all software breakpoints were cleared, and after those of a range were.
use capemon.Base.{
  ℕ, ◌+◌, ◌%◌, ◌^◌, ◌≤◌, ◌<◌, ◌≡◌, ◌⊎◌, refl, ap, sym, ◌∙◌, false, ◌&&◌, none, some, List, [], ◌∷◌,
  ◌==◌, ==_iff, leb, ltb, arith, Memory, Bool-cases, inl, inr,
}
use capemon.Lookup.{Lookup, lookup_get}
use capemon.Debugger.Soft.{
  SoftBp, Pages, Code, int3, clear_software_breakpoint, clear_each, entry_ids, in_range, SoftState,
  left, clear_software_breakpoints, clear_software_breakpoints_in_range,
}
use capemon.Debugger.Soft.Original.{IsCode}
use capemon.Debugger.Soft.Clearing.{IsUsable, clear_software_breakpoint-Clears, clear_unknown}
use capemon.Debugger.Soft.Calls.{
  SoftCall, run_soft_calls, touch_left, touch_right, IsSoftState, run_soft_calls-IsSoftState,
  no_bps, no_bps-IsSoftState, put_left,
}
use capemon.Debugger.Soft.Sharing.{clear_each-Touches, original_free}

abbrev Has : ℕ → List ℕ → Type 0
Has k [] = ⊥
Has k (x ∷ xs) = (x ≡ k) ⊎ Has k xs

-- A walk over some addresses.
record Walks (s s' : Code) (addrs : List ℕ) : Type 0 where
  pub gone : (x : ℕ) → Has x addrs ⊎ (lookup_get s.bps x ≡ none) → lookup_get s'.bps x ≡ none
  pub elsewhere : (x : ℕ) → ¬ Has x addrs → s'.memory x ≡ s.memory x

clear_each-Walks :
    (p : Pages) (addrs : List ℕ) (s : Code)
    → IsUsable p
    → IsCode p s
    → Walks s (clear_each p s addrs) addrs
unfolding clear_each
clear_each-Walks p [] s use_ok ok = record {
  gone = λ x h. elim h [ inl bad ↦ absurd bad | inr free ↦ free ];
  elsewhere = λ x h. refl;
}
clear_each-Walks p (a ∷ addrs) s use_ok ok =
    let one = clear_software_breakpoint-Clears p s a use_ok ok in
    let rest = clear_each-Walks p addrs (clear_software_breakpoint p s a).0 use_ok one.code in
    record {
      gone = λ x h. elim h [
        | inl (inl here) ↦
            rest.gone x
              (inr (ap (lookup_get (clear_software_breakpoint p s a).0.bps) (sym here) ∙ one.gone))
        | inl (inr there) ↦ rest.gone x (inl there)
        | inr free ↦ rest.gone x (inr (one.still x free))
      ];
      elsewhere =
          λ x h. rest.elsewhere x (λ there. h (inr there)) ∙ one.elsewhere x (λ e. h (inl e));
    }

entry_ids-Has : (bps : Lookup SoftBp) (x : ℕ) → Has x (entry_ids bps) ⊎ (lookup_get bps x ≡ none)
unfolding lookup_get
entry_ids-Has [] x = inr refl
entry_ids-Has (e ∷ es) x = elim (Bool-cases (e.id == x)) [
  | inl here ↦ inl (inl ((==_iff _ _).0 here))
  | inr later ↦ elim (entry_ids-Has es x) [
    | inl there ↦ inl (inr there)
    | inr free ↦ inr (rw later free)
  ]
]

-- Walks over addresses of the first list and over the whole second one: what then has no entry in
-- the first list is the program's byte.
both_walks :
    (p : Pages) (program : Memory) (r : SoftState) (addrs : List ℕ) (x : ℕ)
    → IsUsable p
    → IsSoftState p program r
    → lookup_get (clear_each p (left r) addrs).bps x ≡ none
    → (clear_each p
          (record { memory = (clear_each p (left r) addrs).memory; bps = r.syscall_bps })
          (entry_ids r.syscall_bps)).memory
        x
      ≡ program x
both_walks p program r addrs x use_ok h free =
    let s1 = clear_each p (left r) addrs in
    let mid =
      touch_left p program r s1 h (clear_each-Touches p addrs (left r) use_ok h.shared.mine_code) in
    let second : Code = record { memory = s1.memory; bps = r.syscall_bps } in
    let ids = entry_ids r.syscall_bps in
    let end =
      touch_right p program (put_left r s1) (clear_each p second ids) mid
        (clear_each-Touches p ids second use_ok mid.shared.other_code) in
    let walk = clear_each-Walks p ids second use_ok mid.shared.other_code in
    sym (original_free (clear_each p second ids) x (walk.gone x (entry_ids-Has r.syscall_bps x)))
    ∙ end.shared.other_kept x free

-- Where every page can be made writable and code can be read: after any sequence of setting and
-- clearing software breakpoints, each in SoftBPs or in SyscallBPs, `ClearSoftwareBreakpoints` leaves
-- the code byte for byte as it was before the first of them.
pub clear_software_breakpoints_lem :
    (p : Pages) (cs : List SoftCall) (memory : Memory) (x : ℕ)
    → IsUsable p
    → (clear_software_breakpoints p (run_soft_calls p (no_bps memory) cs)).memory x ≡ memory x
unfolding clear_software_breakpoints
clear_software_breakpoints_lem p cs memory x use_ok =
    let r = run_soft_calls p (no_bps memory) cs in
    let h =
      run_soft_calls-IsSoftState p memory cs (no_bps memory) use_ok (no_bps-IsSoftState p memory) in
    let ids = entry_ids r.soft_bps in
    let walk = clear_each-Walks p ids (left r) use_ok h.shared.mine_code in
    both_walks p memory r ids x use_ok h (walk.gone x (entry_ids-Has r.soft_bps x))

not_in_range :
    (base size x : ℕ) (addrs : List ℕ)
    → (x < base) ⊎ ((base + size) % 2 ^ 64 ≤ x)
    → ¬ Has x (in_range base size addrs)
unfolding in_range
not_in_range base size x [] out = λ h. h
not_in_range base size x (a ∷ addrs) out =
    elim (Bool-cases (leb base a && ltb a ((base + size) % 2 ^ 64))) [
      | inl inside ↦ rw inside (λ h. elim h [
        | inl here ↦ ground arith
        | inr there ↦ not_in_range base size x addrs out there
      ])
      | inr outside ↦ rw outside (not_in_range base size x addrs out)
    ]

-- Where every page can be made writable and code can be read, in a state where each address stands at
-- most once in one of the two lists, with its 0xCC byte in the code, and all other bytes are the
-- program's: `ClearSoftwareBreakpointsInRange` forgets the breakpoints of SoftBPs outside its range,
-- where the 0xCC byte stays in the code, the entry is gone, and clearing the address in SoftBPs afterwards
-- does nothing. An address without an entry in SoftBPs, those of SyscallBPs included, has the byte
-- of the program again, in the range or not.
pub clear_software_breakpoints_in_range_forgets :
    (p : Pages) (program : Memory) (r : SoftState) (base size x y n : ℕ) (b : SoftBp)
    → IsUsable p
    → IsSoftState p program r
    → lookup_get r.soft_bps x ≡ some (b, n)
    → (x < base) ⊎ ((base + size) % 2 ^ 64 ≤ x)
    → lookup_get r.soft_bps y ≡ none
    → ((clear_software_breakpoints_in_range p r base size).memory x ≡ int3)
      × (lookup_get (clear_software_breakpoints_in_range p r base size).soft_bps x ≡ none)
      × (clear_software_breakpoint p (left (clear_software_breakpoints_in_range p r base size)) x
          ≡ (left (clear_software_breakpoints_in_range p r base size), false))
      × ((clear_software_breakpoints_in_range p r base size).memory y ≡ program y)
unfolding clear_software_breakpoints_in_range
clear_software_breakpoints_in_range_forgets p program r base size x y n b use_ok h known out free =
    let addrs = in_range base size (entry_ids r.soft_bps) in
    let s1 = clear_each p (left r) addrs in
    let walk = clear_each-Walks p addrs (left r) use_ok h.shared.mine_code in
    let mid =
      touch_left p program r s1 h (clear_each-Touches p addrs (left r) use_ok h.shared.mine_code) in
    let second : Code = record { memory = s1.memory; bps = r.syscall_bps } in
    let touch =
      clear_each-Touches p (entry_ids r.syscall_bps) second use_ok mid.shared.other_code in
    let free_x : lookup_get r.syscall_bps x ≡ none = elim (h.shared.apart x) [
      | inl bad ↦ absurd (ground (arith, sym known ∙ bad))
      | inr gone ↦ gone
    ] in
    let planted = (h.shared.mine_code.entries x n b known).planted in
    let planted1 =
      walk.elsewhere x (not_in_range base size x (entry_ids r.soft_bps) out) ∙ planted in
    (
      (touch.quiet x free_x planted1).1,
      unfold lookup_get in refl,
      clear_unknown p _ x (unfold lookup_get in refl),
      both_walks p program r addrs y use_ok h (walk.gone y (inr free)),
    )
