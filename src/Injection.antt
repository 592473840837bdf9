-- ===== src/Injection.antt =====
-- CAPE/Injection.c: the lists of the processes that the monitored one may inject into, and of the
-- section views that it shares. Both grow at the end. Allocation is taken to succeed.
pub mod Processes
pub mod Views
use capemon.Base.{
  ℕ, zero, suc, Bool, true, false, List, [], ◌∷◌, Option, none, some, ◌==◌, if◌then◌else◌,
}

-- `struct InjectionInfo`; `NextInjectionInfo` is the list.
pub record InjectionInfo : Type 0 where
  pub process_id : ℕ
  pub process_handle : ℕ
  pub initial_thread_id : ℕ
  pub image_base : ℕ
  pub entry_point : ℕ
  pub image_dumped : Bool
  pub buffer_base : ℕ
  pub stack_pointer : ℕ
  pub buffer_size_of_image : ℕ
  pub section_handle : ℕ
  pub dont_monitor : Bool

-- A node from `calloc`, with its process.
abbrev pub new_info : ℕ → InjectionInfo
new_info pid = record {
  process_id = pid;
  process_handle = 0;
  initial_thread_id = 0;
  image_base = 0;
  entry_point = 0;
  image_dumped = false;
  buffer_base = 0;
  stack_pointer = 0;
  buffer_size_of_image = 0;
  section_handle = 0;
  dont_monitor = false;
}

unfoldable pub get_injection_info : List InjectionInfo → ℕ → Option InjectionInfo
get_injection_info [] pid = none
get_injection_info (p ∷ ps) pid = if p.process_id == pid then some p else get_injection_info ps pid

unfoldable pub get_injection_info_from_handle : List InjectionInfo → ℕ → Option InjectionInfo
get_injection_info_from_handle [] handle = none
get_injection_info_from_handle (p ∷ ps) handle =
    if p.process_handle == handle then some p else get_injection_info_from_handle ps handle

-- The walk with `PreviousInjectionInfo`: stop at the process, or append it.
walk_or_append : List InjectionInfo → ℕ → List InjectionInfo
walk_or_append [] pid = new_info pid ∷ []
walk_or_append (p ∷ ps) pid = if p.process_id == pid then p ∷ ps else p ∷ walk_or_append ps pid

-- An empty list gets its first node before the walk.
unfoldable pub create_injection_info : List InjectionInfo → ℕ → List InjectionInfo
unfolding walk_or_append
create_injection_info [] pid = walk_or_append (new_info pid ∷ []) pid
create_injection_info (p ∷ ps) pid = walk_or_append (p ∷ ps) pid

-- Behind the head, a node is unlinked from the one before it.
unlink_info : List InjectionInfo → ℕ → List InjectionInfo × Bool
unlink_info [] handle = ([], false)
unlink_info (p ∷ ps) handle =
    let (rest, found) = unlink_info ps handle in
    if p.process_handle == handle then (ps, true) else (p ∷ rest, found)

-- At the head, `InjectionInfoList = NULL`.
unfoldable pub drop_injection_info : List InjectionInfo → ℕ → List InjectionInfo × Bool
unfolding unlink_info
drop_injection_info [] handle = ([], false)
drop_injection_info (p ∷ ps) handle =
    let (rest, found) = unlink_info ps handle in
    if p.process_handle == handle then ([], true) else (p ∷ rest, found)

-- `struct InjectionSectionView`
pub record SectionView : Type 0 where
  pub section_handle : ℕ
  pub local_view : ℕ
  pub view_size : ℕ
  pub target_process_id : ℕ
  pub map_detected : Bool

unfoldable pub get_section_view : List SectionView → ℕ → Option SectionView
get_section_view [] handle = none
get_section_view (v ∷ vs) handle =
    if v.section_handle == handle then some v else get_section_view vs handle

-- A new node: the view is set only if there is one.
abbrev pub new_view : ℕ → ℕ → ℕ → SectionView
new_view handle view size = record {
  section_handle = handle;
  local_view = if view == 0 then 0 else view;
  view_size = if view == 0 then 0 else size;
  target_process_id = 0;
  map_detected = false;
}

walk_or_append_view : List SectionView → ℕ → ℕ → ℕ → List SectionView
walk_or_append_view [] handle view size = new_view handle view size ∷ []
walk_or_append_view (v ∷ vs) handle view size =
    if v.section_handle == handle then v ∷ vs else v ∷ walk_or_append_view vs handle view size

unfoldable pub add_section_view : List SectionView → ℕ → ℕ → ℕ → List SectionView
unfolding walk_or_append_view
add_section_view [] handle view size =
    walk_or_append_view (new_view handle view size ∷ []) handle view size
add_section_view (v ∷ vs) handle view size = walk_or_append_view (v ∷ vs) handle view size

-- The argument is a node of the list, given by its place; a place past the end is another pointer.
unlink_view : List SectionView → ℕ → List SectionView × Bool
unlink_view [] i = ([], false)
unlink_view (v ∷ vs) zero = (vs, true)
unlink_view (v ∷ vs) (suc i) = let (rest, found) = unlink_view vs i in (v ∷ rest, found)

-- At the head, `SectionViewList = NULL`.
unfoldable pub drop_section_view : List SectionView → ℕ → List SectionView × Bool
unfolding unlink_view
drop_section_view [] i = ([], false)
drop_section_view (v ∷ vs) zero = ([], true)
drop_section_view (v ∷ vs) (suc i) = let (rest, found) = unlink_view vs i in (v ∷ rest, found)
