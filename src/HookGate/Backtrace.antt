-- ===== src/HookGate/Backtrace.antt =====
-- `operate_on_backtrace`: the frames of the monitor itself are skipped, and a callback sees the
-- others until it returns nonzero.
use capemon.Base.{
  ℕ, suc, ◌+◌, Bool, true, false, ◌&&◌, ◌||◌, List, [], ◌∷◌, Option, none, some, ◌==◌, ltb, leb,
  if◌then◌else◌,
}

-- The image of the monitor, and the hooks in it that count as foreign.
pub record Monitor : Type 0 where
  pub our_dll_base : ℕ
  pub our_dll_size : ℕ
  pub start_transparent : ℕ
  pub end_transparent : ℕ

unfoldable pub addr_in_our_dll_range : Monitor → ℕ → Bool
addr_in_our_dll_range m addr =
    (leb m.our_dll_base addr && ltb addr (m.our_dll_base + m.our_dll_size))
    && (ltb addr m.start_transparent || leb m.end_transparent addr)

unfoldable pub inside_monitor : Monitor → ℕ → Bool
inside_monitor m addr = leb m.our_dll_base addr && ltb addr (m.our_dll_base + m.our_dll_size)

unfoldable pub skip_ours : Monitor → List ℕ → List ℕ
unfolding addr_in_our_dll_range
skip_ours m [] = []
skip_ours m (a ∷ frames) = if addr_in_our_dll_range m a then skip_ours m frames else a ∷ frames

-- A frame that returns to `jmp +8` is skipped too.
unfoldable pub skip_jump : (ℕ → ℕ) → List ℕ → List ℕ
skip_jump mem [] = []
skip_jump mem (a ∷ frames) = if mem a == 0xeb && mem (suc a) == 0x08 then frames else a ∷ frames

module _ {ℓ} {S : Type ℓ} (func : S → ℕ → S × Bool) where
  -- The last result is what `ret` holds; `none` is the -1 of no call.
  unfoldable pub call_each : Option Bool → S → List ℕ → S × Option Bool
  call_each ret s [] = (s, ret)
  call_each ret s (a ∷ frames) =
      let (s', stop) = func s a in
      let rest = call_each (some false) s' frames in if stop then (s', some true) else rest

  -- `none` for the frames is the -1 of `our_stackwalk`: a lock is held, or reading the stack failed.
  unfoldable pub operate_on_backtrace : Monitor → (ℕ → ℕ) → Option (List ℕ) → S → S × Option Bool
  unfolding skip_ours skip_jump call_each
  operate_on_backtrace m mem none s = (s, none)
  operate_on_backtrace m mem (some frames) s = call_each none s (skip_jump mem (skip_ours m frames))

-- `__called_by_hook`: a failed walk counts as a call by a hook.
unfoldable pub called_by_hook : Monitor → (ℕ → ℕ) → Option (List ℕ) → Bool
unfolding operate_on_backtrace addr_in_our_dll_range
called_by_hook m mem frames =
    elim (operate_on_backtrace (λ (s : Unit {0}) a. (s, addr_in_our_dll_range m a)) m mem frames
      tt).1 [ none ↦ true | some ret ↦ ret ]
