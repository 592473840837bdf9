-- ===== src/Tests/Tables.antt =====
-- unhook.c, the library ranges of misc.c and the lists of CAPE/Injection.c.
use capemon.Base.{
  ℕ, ◌+◌, ◌≤◌, ◌<◌, ◌≡◌, ◌⊎◌, refl, true, false, List, [], ◌∷◌, arith, length, ◌==◌, if◌then◌else◌,
  read_bytes, write_bytes, bytes_eq,
}
use capemon.Unhook.{
  Region, Unhook, World, WatchEnv, hook_restoration, hook_removal, unhook_detect_add_region,
  remove_hook, restore_hooks_on_range, detect, detect_round,
}
use capemon.Unhook.Table.{IsTable, unhook_detect_add_region-IsTable, count_addr}
use capemon.Unhook.Watch.{IsWhole, Visit, detect-Visit}
use capemon.DllRanges.{DllRange, inside, is_in_dll_range, remove_dll_range}
use capemon.DllRanges.Laws.{weight, count_inside, remove_dll_range_lem}
use capemon.Injection.{InjectionInfo, new_info, SectionView, new_view, drop_section_view}
use capemon.Injection.Processes.{count_pid}
use capemon.Injection.Views.{drop_section_view_lem}

-- Hook 7 on two bytes at 0x1000.
abbrev hooked : Region
hooked = record {
  size = 2;
  addr = 0x1000;
  hook = 7;
  orig = 0x8b ∷ 0xff ∷ [];
  our = 0xeb ∷ 0xf9 ∷ [];
  reported = false;
}

abbrev one_hook : Unhook
one_hook = record { regions = hooked ∷ []; max_unhook_warned = false }

one_hook-IsTable : IsTable one_hook.regions
unfolding count_addr
one_hook-IsTable = record {
  bounded = omega arith;
  distinct = λ a ne. ground arith;
  fits = omega arith;
}

unhook_detect_add_region-IsTable_example :
    IsTable (unhook_detect_add_region one_hook 8 0x2000 (1 ∷ 2 ∷ []) (3 ∷ 4 ∷ []) 2).regions
unhook_detect_add_region-IsTable_example =
    unhook_detect_add_region-IsTable one_hook 8 0x2000 (1 ∷ 2 ∷ []) (3 ∷ 4 ∷ []) 2 one_hook-IsTable

-- The original code is back in memory: the hook was removed.
abbrev unhooked : World
unhooked = record { mem = λ x. if x == 0x1000 then 0x8b else 0xff; log = [] }

abbrev all_well : WatchEnv
all_well = record {
  is_hooked = λ h. true;
  valid_range = λ a n. true;
  can_protect = λ a n. true;
  hook_restore = false;
  shutting_down = false;
}

reports_removal : (detect all_well hooked unhooked).1.log ≡ hook_removal 7 ∷ []
unfolding detect read_bytes bytes_eq
reports_removal = refl

restores :
    (detect (record all_well { hook_restore = true }) hooked unhooked).1.log
    ≡ hook_restoration 7 ∷ []
unfolding detect read_bytes bytes_eq write_bytes
restores = refl

round_once :
    (detect_round all_well (hooked ∷ hooked ∷ []) unhooked).1.log
    ≡ hook_removal 7 ∷ hook_removal 7 ∷ []
unfolding detect_round read_bytes bytes_eq
round_once = refl

removed : (remove_hook (λ a n. true) (λ h. h == 7) (hooked ∷ []) (λ x. 0)).1 0x1001 ≡ 0xff
unfolding remove_hook write_bytes
removed = refl

range_restored :
    (restore_hooks_on_range (λ a n. true) (hooked ∷ []) 0x1000 0x2000 unhooked).log
    ≡ hook_restoration 7 ∷ []
unfolding restore_hooks_on_range read_bytes bytes_eq
range_restored = refl

hooked-IsWhole : IsWhole hooked
hooked-IsWhole = (refl, refl)

detect-Visit_example : Visit all_well hooked unhooked (detect all_well hooked unhooked)
detect-Visit_example = detect-Visit all_well hooked unhooked hooked-IsWhole

abbrev dlls : List DllRange
dlls =
    record { start = 0x1000; end = 0x2000 }
    ∷ record { start = 0x3000; end = 0x4000 }
    ∷ record { start = 0x5000; end = 0x6000 }
    ∷ []

unload_first :
    remove_dll_range dlls 0x1800
    ≡ (record { start = 0x5000; end = 0x6000 } ∷ record { start = 0x3000; end = 0x4000 } ∷ [], true)
unfolding remove_dll_range
unload_first = refl

dlls_apart : (a : ℕ) → count_inside dlls a ≤ 1
unfolding count_inside
dlls_apart a = ground arith

remove_dll_range_lem_example :
    ((is_in_dll_range dlls 0x3100 ≡ false) × (remove_dll_range dlls 0x3100 ≡ (dlls, false)))
    ⊎ ((r : DllRange) × (inside r 0x3100 ≡ true)
        × ((remove_dll_range dlls 0x3100).1 ≡ true)
        × (length (remove_dll_range dlls 0x3100).0 + 1 ≡ 3)
        × ((a : ℕ)
            → count_inside (remove_dll_range dlls 0x3100).0 a + weight r a ≡ count_inside dlls a))
remove_dll_range_lem_example = remove_dll_range_lem dlls 0x3100

-- Processes 10 and 20 with handles 1 and 2.
abbrev ten : InjectionInfo
ten = record (new_info 10) { process_handle = 1 }

abbrev twenty : InjectionInfo
twenty = record (new_info 20) { process_handle = 2 }

processes_unique : (j : ℕ) → count_pid (ten ∷ twenty ∷ []) j ≤ 1
unfolding count_pid
processes_unique j = ground arith

abbrev views : List SectionView
views = new_view 5 0x1000 0x100 ∷ new_view 6 0 0x200 ∷ new_view 7 0x3000 0x300 ∷ []

drop_section_view_lem_example :
    (drop_section_view views 0 ≡ ([], true))
    × (1 < 2
        → drop_section_view views 2 ≡ (new_view 5 0x1000 0x100 ∷ new_view 6 0 0x200 ∷ [], true))
    × (2 ≤ 1 → drop_section_view views 2 ≡ (views, false))
drop_section_view_lem_example =
    drop_section_view_lem (new_view 5 0x1000 0x100)
      (new_view 6 0 0x200 ∷ new_view 7 0x3000 0x300 ∷ []) 1
