-- ===== src/Unhook.antt =====
-- unhook.c: the table of the code regions that hooks have overwritten, and the thread that watches
-- them. The table is the list of its first `g_index` entries, the parallel arrays `g_length`,
-- `g_addr`, `g_unhook_hooks`, `g_orig`, `g_our` and `g_hook_reported` as one record for each entry.
-- A hook is the number of its `hook_t`.
pub mod Table
pub mod Watch
use Prim.Native.Nat.{min}
use capemon.Base.{
  ℕ, zero, suc, ◌+◌, ◌-◌, ◌≤◌, Bool, true, false, ◌&&◌, ◌||◌, not, List, [], ◌∷◌, ◌++◌, Option,
  none, some, ◌==◌, ltb, if◌then◌else◌, length, get_elem?, set, take, Memory, read_bytes,
  write_bytes, bytes_eq,
}

pub record Region : Type 0 where
  pub size : ℕ
  pub addr : ℕ
  pub hook : ℕ
  pub orig : List ℕ
  pub our : List ℕ
  pub reported : Bool

pub record Unhook : Type 0 where
  pub regions : List Region
  pub max_unhook_warned : Bool

abbrev pub unhook_maxcount : ℕ
unhook_maxcount = 2048

abbrev pub unhook_bufsize : ℕ
unhook_bufsize = 32

unfoldable pub address_already_hooked : List Region → ℕ → Bool
address_already_hooked [] addr = false
address_already_hooked (r ∷ rs) addr =
    (addr == r.addr || addr == r.addr + 5) || address_already_hooked rs addr

unfoldable pub get_first_zero_addr_index : List Region → ℕ
get_first_zero_addr_index [] = 0
get_first_zero_addr_index (r ∷ rs) = if r.addr == 0 then 0 else suc (get_first_zero_addr_index rs)

-- The writes to the entry `index`, which is `g_index` (and then counts) or below it.
unfoldable pub put_region : List Region → ℕ → Region → List Region
put_region rs index r = if index == length rs then rs ++ r ∷ [] else set rs index r

unfoldable pub unhook_detect_add_region : Unhook → ℕ → ℕ → List ℕ → List ℕ → ℕ → Unhook
unfolding put_region
unhook_detect_add_region u hook addr orig our size =
    if length u.regions == unhook_maxcount - 1
    then record u { max_unhook_warned = true }
    else if address_already_hooked u.regions addr
    then u
    else let kept = min size unhook_bufsize in
      record u {
        regions = put_region u.regions (get_first_zero_addr_index u.regions) (record {
          size = kept;
          addr = addr;
          hook = hook;
          orig = take kept orig;
          our = take kept our;
          reported = false;
        });
      }

unfoldable pub invalidate_regions_for_hook : List Region → ℕ → List Region
invalidate_regions_for_hook [] hook = []
invalidate_regions_for_hook (r ∷ rs) hook =
    let rest = invalidate_regions_for_hook rs hook in
    if r.hook == hook then record r { reported = true; addr = 0 } ∷ rest else r ∷ rest

pub data Event : Type 0 where
  hook_restoration hook_modification hook_removal : ℕ → Event

-- The memory and the log that the watcher sees and changes.
pub record World : Type 0 where
  pub mem : Memory
  pub log : List Event

-- `VirtualProtect` of a range (whether it succeeds), and the test of two names by `stricmp`.
module _ (can_protect : ℕ → ℕ → Bool) (named : ℕ → Bool) where
  -- `remove_hook`, `named` being whether a hook has the given name. A failing `VirtualProtect`
  -- returns from the function.
  unfoldable pub remove_hook : List Region → Memory → List Region × Memory
  remove_hook [] mem = ([], mem)
  remove_hook (r ∷ rs) mem =
      let mem' = write_bytes mem r.addr r.orig in
      let (rest, mem2) = remove_hook rs mem' in
      let (kept, mem3) = remove_hook rs mem in
      if not (r.addr == 0) && named r.hook
      then (if can_protect r.addr r.size
          then (record r { reported = true; addr = 0 } ∷ rest, mem2)
          else (r ∷ rs, mem))
      else (r ∷ kept, mem3)

module _ (can_protect : ℕ → ℕ → Bool) where
  unfoldable pub restore_region : Region → World → World
  restore_region r w =
      if can_protect r.addr r.size
      then record w {
        mem = write_bytes w.mem r.addr r.our;
        log = w.log ++ hook_restoration r.hook ∷ [];
      }
      else w

  -- `restore_hooks_on_range`: a failing `VirtualProtect` returns from the function.
  unfoldable pub restore_hooks_on_range : List Region → ℕ → ℕ → World → World
  unfolding restore_region
  restore_hooks_on_range [] start end w = w
  restore_hooks_on_range (r ∷ rs) start end w =
      let next = restore_hooks_on_range rs start end w in
      let restored = restore_hooks_on_range rs start end (restore_region r w) in
      if ltb r.addr start || ltb end (r.addr + r.size)
      then next
      else if bytes_eq r.orig (read_bytes w.mem r.addr r.size)
      then (if can_protect r.addr r.size then restored else w)
      else next

  -- `restore_hook`: the loop finds the one entry with the index.
  unfoldable pub restore_hook : List Region → ℕ → World → World
  unfolding restore_region
  restore_hook [] idx w = w
  restore_hook (r ∷ rs) zero w = restore_region r w
  restore_hook (r ∷ rs) (suc idx) w = restore_hook rs idx w

-- What the detection thread asks of hooks and of the system.
pub record WatchEnv : Type 0 where
  pub is_hooked : ℕ → Bool
  pub valid_range : ℕ → ℕ → Bool
  pub can_protect : ℕ → ℕ → Bool
  pub hook_restore : Bool
  pub shutting_down : Bool

abbrev pub intact : Region → World → Bool
intact r w = bytes_eq (read_bytes w.mem r.addr r.size) r.our

-- The report on a region that is not as the hook made it.
unfoldable pub report : WatchEnv → Region → World → Region × World
report c r w =
    let event =
      if bytes_eq r.orig (read_bytes w.mem r.addr r.size)
      then hook_removal r.hook
      else hook_modification r.hook in
    let log' = if c.shutting_down then w.log else w.log ++ event ∷ [] in
    (record r { reported = true }, record w { log = log' })

-- One entry in a round of `_unhook_detect_thread`.
unfoldable pub detect : WatchEnv → Region → World → Region × World
unfolding report restore_region
detect c r w =
    if not (c.is_hooked r.hook) || r.reported
    then (r, w)
    else if not (c.valid_range r.addr r.size)
    then (r, w)
    else if intact r w
    then (r, w)
    else let w' = if c.hook_restore then restore_region c.can_protect r w else w in
      if c.hook_restore && intact r w' then (r, w') else report c r w'

-- A round over all entries.
unfoldable pub detect_round : WatchEnv → List Region → World → List Region × World
unfolding detect
detect_round c [] w = ([], w)
detect_round c (r ∷ rs) w =
    let (r', w') = detect c r w in let (rs', w2) = detect_round c rs w' in (r' ∷ rs', w2)
