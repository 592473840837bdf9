-- ===== src/Debugger/Soft/Calls.antt =====
-- Sequences of setting and clearing software breakpoints, each call given one of the lists SoftBPs
-- and SyscallBPs.
use capemon.Base.{ℕ, refl, List, [], ◌∷◌, arith, Memory, inl}
use capemon.Lookup.{lookup_get}
use capemon.Debugger.Soft.{
  Pages, Code, set_software_breakpoint, clear_software_breakpoint, SoftState, left, right,
}
use capemon.Debugger.Soft.Original.{IsCode}
use capemon.Debugger.Soft.Clearing.{IsUsable}
use capemon.Debugger.Soft.Sharing.{
  Touches, set_software_breakpoint-Touches, clear_software_breakpoint-Touches, original_free,
  IsShared, IsShared-swap, Touches-IsShared,
}

-- Which of the lists a call is given.
pub data SoftList : Type 0 where
  soft : SoftList
  syscall : SoftList

pub data SoftCall : Type 0 where
  plant : SoftList → ℕ → SoftCall
  remove : SoftList → ℕ → SoftCall

abbrev pub put_left : SoftState → Code → SoftState
put_left r s = record r { memory = s.memory; soft_bps = s.bps }

abbrev pub put_right : SoftState → Code → SoftState
put_right r s = record r { memory = s.memory; syscall_bps = s.bps }

unfoldable pub run_soft_calls : Pages → SoftState → List SoftCall → SoftState
run_soft_calls p r [] = r
run_soft_calls p r (plant soft a ∷ cs) =
    run_soft_calls p (put_left r (set_software_breakpoint p (left r) a).0) cs
run_soft_calls p r (plant syscall a ∷ cs) =
    run_soft_calls p (put_right r (set_software_breakpoint p (right r) a).0) cs
run_soft_calls p r (remove soft a ∷ cs) =
    run_soft_calls p (put_left r (clear_software_breakpoint p (left r) a).0) cs
run_soft_calls p r (remove syscall a ∷ cs) =
    run_soft_calls p (put_right r (clear_software_breakpoint p (right r) a).0) cs

-- The state of the breakpoints over the memory that the program had.
pub record IsSoftState (p : Pages) (program : Memory) (r : SoftState) : Type 0 where
  pub shared : IsShared p program r.memory r.soft_bps r.syscall_bps

pub touch_left :
    (p : Pages) (program : Memory) (r : SoftState) (s' : Code)
    → IsSoftState p program r
    → Touches p (left r) s'
    → IsSoftState p program (put_left r s')
touch_left p program r s' h t = record {
  shared = Touches-IsShared p program r.memory r.soft_bps r.syscall_bps s' h.shared t;
}

pub touch_right :
    (p : Pages) (program : Memory) (r : SoftState) (s' : Code)
    → IsSoftState p program r
    → Touches p (right r) s'
    → IsSoftState p program (put_right r s')
touch_right p program r s' h t = record {
  shared =
      IsShared-swap (
        Touches-IsShared p program r.memory r.syscall_bps r.soft_bps s' (IsShared-swap h.shared) t);
}

pub run_soft_calls-IsSoftState :
    (p : Pages) (program : Memory) (cs : List SoftCall) (r : SoftState)
    → IsUsable p
    → IsSoftState p program r
    → IsSoftState p program (run_soft_calls p r cs)
unfolding run_soft_calls
run_soft_calls-IsSoftState p program [] r use_ok h = h
run_soft_calls-IsSoftState p program (plant soft a ∷ cs) r use_ok h =
    run_soft_calls-IsSoftState p program cs _ use_ok (
      touch_left p program r _ h
        (set_software_breakpoint-Touches p (left r) a use_ok h.shared.mine_code))
run_soft_calls-IsSoftState p program (plant syscall a ∷ cs) r use_ok h =
    run_soft_calls-IsSoftState p program cs _ use_ok (
      touch_right p program r _ h
        (set_software_breakpoint-Touches p (right r) a use_ok h.shared.other_code))
run_soft_calls-IsSoftState p program (remove soft a ∷ cs) r use_ok h =
    run_soft_calls-IsSoftState p program cs _ use_ok (
      touch_left p program r _ h
        (clear_software_breakpoint-Touches p (left r) a use_ok h.shared.mine_code))
run_soft_calls-IsSoftState p program (remove syscall a ∷ cs) r use_ok h =
    run_soft_calls-IsSoftState p program cs _ use_ok (
      touch_right p program r _ h
        (clear_software_breakpoint-Touches p (right r) a use_ok h.shared.other_code))

-- A memory, and no breakpoint in it.
abbrev pub no_bps : Memory → SoftState
no_bps memory = record { memory = memory; soft_bps = []; syscall_bps = [] }

pub no_bps-IsCode : (p : Pages) (memory : Memory) → IsCode p (left (no_bps memory))
unfolding lookup_get
no_bps-IsCode p memory = record {
  unique = λ k. omega arith;
  entries = λ x n b h. absurd (ground arith);
  replaced = λ x n b h. absurd (ground arith);
}

pub no_bps-IsSoftState : (p : Pages) (memory : Memory) → IsSoftState p memory (no_bps memory)
unfolding lookup_get
no_bps-IsSoftState p memory = record {
  shared = record {
    mine_code = no_bps-IsCode p memory;
    other_code = no_bps-IsCode p memory;
    apart = λ x. inl refl;
    mine_kept = λ x free. original_free (left (no_bps memory)) x free;
    other_kept = λ x free. original_free (left (no_bps memory)) x free;
  };
}
