-- ===== src/Injection/Processes.antt =====
-- The list of processes: one node for each process, and what dropping one does.
use capemon.Base.{
  ℕ, suc, ◌+◌, ◌≤◌, ◌≡◌, ◌≢◌, refl, true, false, List, [], ◌∷◌, Option, none, some, ◌==◌,
  if◌then◌else◌, arith, Bool-cases, inl, inr,
}
use capemon.Injection.{
  InjectionInfo, new_info, get_injection_info, get_injection_info_from_handle, walk_or_append,
  create_injection_info, unlink_info, drop_injection_info,
}

unfoldable pub count_pid : List InjectionInfo → ℕ → ℕ
count_pid [] pid = 0
count_pid (p ∷ ps) pid =
    let rest = count_pid ps pid in if p.process_id == pid then suc rest else rest

create-walk :
    (ps : List InjectionInfo) (pid : ℕ) → create_injection_info ps pid ≡ walk_or_append ps pid
unfolding create_injection_info
create-walk [] pid = ground arith
create-walk (p ∷ ps) pid = refl

abbrev pub or_new : Option InjectionInfo → ℕ → Option InjectionInfo
or_new none pid = some (new_info pid)
or_new (some p) pid = some p

walk-get :
    (ps : List InjectionInfo) (pid j : ℕ)
    → get_injection_info (walk_or_append ps pid) j
      ≡ (if pid == j then or_new (get_injection_info ps j) j else get_injection_info ps j)
unfolding get_injection_info walk_or_append
walk-get [] pid j = ground arith
walk-get (p ∷ ps) pid j = ground (arith, walk-get ps pid j)

walk-count :
    (ps : List InjectionInfo) (pid j : ℕ)
    → count_pid ps j ≤ 1
    → count_pid (walk_or_append ps pid) j ≤ 1
unfolding count_pid walk_or_append
walk-count [] pid j h = ground arith
walk-count (p ∷ ps) pid j h = ground (arith, walk-count ps pid j, walk_other ps)
  where
    walk_other :
        (qs : List InjectionInfo) → pid ≢ j → count_pid (walk_or_append qs pid) j ≡ count_pid qs j
    walk_other [] ne = ground arith
    walk_other (q ∷ qs) ne = ground (arith, walk_other qs ne)

-- `CreateInjectionInfo` finds the node of the process or makes a new one, leaves the nodes of the
-- other processes as they are, and never makes a second node for a process.
pub create_injection_info_lem :
    (ps : List InjectionInfo) (pid : ℕ)
    → ((j : ℕ) → count_pid ps j ≤ 1)
    → (get_injection_info (create_injection_info ps pid) pid
        ≡ or_new (get_injection_info ps pid) pid)
      × ((j : ℕ)
          → pid ≢ j
          → get_injection_info (create_injection_info ps pid) j ≡ get_injection_info ps j)
      × ((j : ℕ) → count_pid (create_injection_info ps pid) j ≤ 1)
create_injection_info_lem ps pid unique = rw (create-walk ps pid) (
  ground (arith, walk-get ps pid pid),
  λ j ne. ground (arith, walk-get ps pid j),
  λ j. walk-count ps pid j (unique j),
)

unlink-found :
    (ps : List InjectionInfo) (handle : ℕ) {q : InjectionInfo}
    → get_injection_info_from_handle ps handle ≡ some q
    → ((unlink_info ps handle).1 ≡ true)
      × ((j : ℕ)
          → count_pid (unlink_info ps handle).0 j + (if q.process_id == j then 1 else 0)
            ≡ count_pid ps j)
unfolding get_injection_info_from_handle unlink_info count_pid
unlink-found [] handle h = cc
unlink-found (p ∷ ps) handle {q} h = elim (Bool-cases (p.process_handle == handle)) [
  | inl e ↦ (rw e refl, λ j. ground arith)
  | inr e ↦
      let ih = unlink-found ps handle {q = q} (ground arith) in
      (rw e ih.0, λ j. rw e (ground (arith, ih.1 j)))
]

unlink-missing :
    (ps : List InjectionInfo) (handle : ℕ)
    → get_injection_info_from_handle ps handle ≡ none
    → unlink_info ps handle ≡ (ps, false)
unfolding get_injection_info_from_handle unlink_info
unlink-missing [] handle h = refl
unlink-missing (p ∷ ps) handle h = ground (arith, unlink-missing ps handle)

-- `DropInjectionInfo` on a list with the head `p`. If the head has the handle, the result is TRUE
-- and the whole list is gone, the nodes of the other processes with it. If a later node is the
-- first with the handle, the result is TRUE and that node alone is gone. If no node has the handle,
-- the result is FALSE and nothing changes.
pub drop_injection_info_lem :
    (p : InjectionInfo) (ps : List InjectionInfo) (handle : ℕ)
    → (p.process_handle ≡ handle → drop_injection_info (p ∷ ps) handle ≡ ([], true))
      × ((q : InjectionInfo)
          → p.process_handle ≢ handle
          → get_injection_info_from_handle ps handle ≡ some q
          → ((drop_injection_info (p ∷ ps) handle).1 ≡ true)
            × ((j : ℕ)
                → count_pid (drop_injection_info (p ∷ ps) handle).0 j
                    + (if q.process_id == j then 1 else 0)
                  ≡ count_pid (p ∷ ps) j))
      × (get_injection_info_from_handle (p ∷ ps) handle ≡ none
          → drop_injection_info (p ∷ ps) handle ≡ (p ∷ ps, false))
unfolding drop_injection_info
drop_injection_info_lem p ps handle = (
  λ h. ground arith,
  λ q ne found.
      let rest = unlink-found ps handle {q = q} found in
      let e : (p.process_handle == handle) ≡ false = ground arith in
      (rw e rest.0, λ j. unfold count_pid in rw e (ground (arith, rest.1 j))),
  λ missing. unfold get_injection_info_from_handle in ground (arith, unlink-missing ps handle),
)
