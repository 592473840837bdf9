-- ===== src/Unhook/Watch.antt =====
-- The detection thread: what it reports, and that it reports a change once.
use capemon.Base.{
  ℕ, zero, suc, ◌+◌, ◌≤◌, ◌<◌, ◌≡◌, ◌⊎◌, refl, Bool, true, false, ◌&&◌, List, [], ◌∷◌, ◌++◌, none,
  some, if◌then◌else◌, length, Bool-cases, inl, inr, read_bytes, bytes_eq, bytes_eq_refl,
  write_bytes_outside, read_bytes-write_bytes, get_elem?,
}
use capemon.Unhook.{
  Region, World, WatchEnv, hook_restoration, hook_modification, hook_removal, restore_region,
  restore_hook, report, detect, intact,
}

-- The `size` bytes of the copies: so the table keeps them when both sources have them.
abbrev pub IsWhole : Region → Type 0
IsWhole r = (length r.our ≡ r.size) × (length r.orig ≡ r.size)

-- `restore_hook` acts on the entry with its index, and on none where there is no such entry.
pub restore_hook_lem :
    (can_protect : ℕ → ℕ → Bool) (rs : List Region) (idx : ℕ) (w : World)
    → restore_hook can_protect rs idx w
      ≡ elim (get_elem? rs idx) [ none ↦ w | some r ↦ restore_region can_protect r w ]
unfolding restore_hook
restore_hook_lem can_protect [] idx w = refl
restore_hook_lem can_protect (r ∷ rs) zero w = refl
restore_hook_lem can_protect (r ∷ rs) (suc idx) w = restore_hook_lem can_protect rs idx w

-- Restoring a region that can be written puts the hook's bytes back, changes no byte outside the
-- region, and says so in the log.
pub restore_region_lem :
    (can_protect : ℕ → ℕ → Bool) (r : Region) (w : World)
    → IsWhole r
    → can_protect r.addr r.size ≡ true
    → let w' = restore_region can_protect r w in
      (intact r w' ≡ true)
      × ((x : ℕ) → (x < r.addr) ⊎ (r.addr + r.size ≤ x) → w'.mem x ≡ w.mem x)
      × (w'.log ≡ w.log ++ hook_restoration r.hook ∷ [])
unfolding restore_region
restore_region_lem can_protect r w whole can = rw can (
  rw (← whole.0) (rw (read_bytes-write_bytes w.mem r.addr r.our) (bytes_eq_refl r.our)),
  λ x out. write_bytes_outside w.mem r.addr r.our x (rw whole.0 out),
  refl,
)

-- What one visit of the thread can do to an entry that it looks at.
pub data Visit (c : WatchEnv) (r : Region) (w : World) : Region × World → Type 0 where
  ignored :
      (c.is_hooked r.hook ≡ false) ⊎ ((r.reported ≡ true) ⊎ (c.valid_range r.addr r.size ≡ false))
      → Visit c r w (r, w)
  untouched : intact r w ≡ true → Visit c r w (r, w)
  restored :
      intact r w ≡ false
      → c.hook_restore ≡ true
      → c.can_protect r.addr r.size ≡ true
      → Visit c r w (r, restore_region c.can_protect r w)
  noted :
      {w' : World}
      → intact r w ≡ false
      → (c.hook_restore ≡ false) ⊎ (c.can_protect r.addr r.size ≡ false)
      → w'.mem ≡ w.mem
      → (c.shutting_down ≡ true → w'.log ≡ w.log)
      → (c.shutting_down ≡ false
          → w'.log
            ≡ w.log
              ++ (if bytes_eq r.orig (read_bytes w.mem r.addr r.size)
                  then hook_removal r.hook
                  else hook_modification r.hook)
                ∷ [])
      → Visit c r w (record r { reported = true }, w')

restore_blocked :
    (can_protect : ℕ → ℕ → Bool) (r : Region) (w : World)
    → can_protect r.addr r.size ≡ false
    → restore_region can_protect r w ≡ w
unfolding restore_region
restore_blocked can_protect r w h = rw h

report-Visit :
    (c : WatchEnv) (r : Region) (w : World)
    → intact r w ≡ false
    → (c.hook_restore ≡ false) ⊎ (c.can_protect r.addr r.size ≡ false)
    → Visit c r w (report c r w)
unfolding report
report-Visit c r w changed cannot = noted changed cannot refl (λ down. rw down) (λ up. rw up)

-- What the thread does about a change.
handle : WatchEnv → Region → World → Region × World
handle c r w =
    let w' = if c.hook_restore then restore_region c.can_protect r w else w in
    if c.hook_restore && intact r w' then (r, w') else report c r w'

detect_changed :
    (c : WatchEnv) (r : Region) (w : World)
    → c.is_hooked r.hook ≡ true
    → r.reported ≡ false
    → c.valid_range r.addr r.size ≡ true
    → intact r w ≡ false
    → detect c r w ≡ handle c r w
unfolding handle detect
detect_changed c r w on new valid changed = simp (on, new, valid, changed)

handle-Visit :
    (c : WatchEnv) (r : Region) (w : World)
    → IsWhole r
    → intact r w ≡ false
    → Visit c r w (handle c r w)
unfolding handle
handle-Visit c r w whole changed = elim (Bool-cases c.hook_restore) [
  | inr off ↦ simp off (report-Visit c r w changed (inl off))
  | inl on ↦ elim (Bool-cases (c.can_protect r.addr r.size)) [
    | inl can ↦
        simp (on, (restore_region_lem c.can_protect r w whole can).0) (restored changed on can)
    | inr cannot ↦
        simp (on, restore_blocked c.can_protect r w cannot, changed)
          (report-Visit c r w changed (inr cannot))
  ]
]

-- Every visit of the thread to a whole entry is one of these: the entry is ignored; its code is as
-- the hook left it; the code was changed, restoring is on and possible, and the hook is restored; or
-- the entry is marked as reported, and the change is logged, as a removal if the original code is
-- back, except while the process is shutting down, where nothing is logged.
pub detect-Visit : (c : WatchEnv) (r : Region) (w : World) → IsWhole r → Visit c r w (detect c r w)
detect-Visit c r w whole = elim (Bool-cases (c.is_hooked r.hook)) [
  | inr off ↦ unfold detect in rw off (ignored (inl off))
  | inl on ↦ elim (Bool-cases r.reported) [
    | inl old ↦ unfold detect in simp (on, old) (ignored (inr (inl old)))
    | inr new ↦ elim (Bool-cases (c.valid_range r.addr r.size)) [
      | inr invalid ↦ unfold detect in simp (on, new, invalid) (ignored (inr (inr invalid)))
      | inl valid ↦ elim (Bool-cases (intact r w)) [
        | inl same ↦ unfold detect in simp (on, new, valid, same) (untouched same)
        | inr changed ↦
            simp (detect_changed c r w on new valid changed) (handle-Visit c r w whole changed)
      ]
    ]
  ]
]

detect_ignored :
    (c : WatchEnv) (r : Region) (w : World)
    → (c.is_hooked r.hook ≡ false) ⊎ ((r.reported ≡ true) ⊎ (c.valid_range r.addr r.size ≡ false))
    → detect c r w ≡ (r, w)
unfolding detect
detect_ignored c r w (inl off) = rw off
detect_ignored c r w (inr (inl old)) = elim (Bool-cases (c.is_hooked r.hook)) [
  | inl on ↦ simp (on, old)
  | inr off ↦ simp off
]
detect_ignored c r w (inr (inr invalid)) = elim (Bool-cases (c.is_hooked r.hook)) [
  | inl on ↦ elim (Bool-cases r.reported) [
    | inl old ↦ simp (on, old)
    | inr new ↦ simp (on, new, invalid)
  ]
  | inr off ↦ simp off
]

detect_untouched :
    (c : WatchEnv) (r : Region) (w : World) → intact r w ≡ true → detect c r w ≡ (r, w)
detect_untouched c r w same = elim (Bool-cases (c.is_hooked r.hook)) [
  | inr off ↦ detect_ignored c r w (inl off)
  | inl on ↦ elim (Bool-cases r.reported) [
    | inl old ↦ detect_ignored c r w (inr (inl old))
    | inr new ↦ elim (Bool-cases (c.valid_range r.addr r.size)) [
      | inr invalid ↦ detect_ignored c r w (inr (inr invalid))
      | inl valid ↦ unfold detect in simp (on, new, valid, same)
    ]
  ]
]

Visit-detect :
    (c : WatchEnv) (r : Region) (w : World) {o : Region × World}
    → IsWhole r
    → Visit c r w o
    → detect c o.0 o.1 ≡ o
Visit-detect c r w whole (ignored why) = detect_ignored c r w why
Visit-detect c r w whole (untouched same) = detect_untouched c r w same
Visit-detect c r w whole (restored changed on can) =
    detect_untouched c r (restore_region c.can_protect r w)
      (restore_region_lem c.can_protect r w whole can).0
Visit-detect c r w whole (noted changed cannot mem down up) =
    detect_ignored c (record r { reported = true }) _ (inr (inl refl))

-- A change is handled once: while the memory stays as the thread left it, a second visit of a whole
-- entry changes neither the entry nor the memory, and logs nothing.
detect_idempotent :
    (c : WatchEnv) (r : Region) (w : World)
    → IsWhole r
    → detect c (detect c r w).0 (detect c r w).1 ≡ detect c r w
detect_idempotent c r w whole = Visit-detect c r w whole (detect-Visit c r w whole)
