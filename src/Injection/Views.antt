-- ===== src/Injection/Views.antt =====
-- The list of section views: one node for each section, and what dropping one does.
use capemon.Base.{
  ℕ, zero, suc, ◌≤◌, ◌<◌, ◌≡◌, ◌≢◌, refl, true, false, List, [], ◌∷◌, ◌++◌, none, some, ◌==◌,
  if◌then◌else◌, arith, length, take, drop,
}
use capemon.Injection.{
  SectionView, new_view, get_section_view, walk_or_append_view, add_section_view, unlink_view,
  drop_section_view,
}

add-walk :
    (vs : List SectionView) (handle view size : ℕ)
    → add_section_view vs handle view size ≡ walk_or_append_view vs handle view size
unfolding add_section_view
add-walk [] handle view size = ground arith
add-walk (v ∷ vs) handle view size = refl

walk-get :
    (vs : List SectionView) (handle view size j : ℕ)
    → get_section_view (walk_or_append_view vs handle view size) j ≡ (
        if handle == j
        then elim (get_section_view vs j) [
          | none ↦ some (new_view handle view size)
          | some v ↦ some v
        ]
        else get_section_view vs j)
unfolding get_section_view walk_or_append_view
walk-get [] handle view size j = ground arith
walk-get (v ∷ vs) handle view size j = ground (arith, walk-get vs handle view size j)

-- `AddSectionView` makes a node for a section that has none, with the view if one is given, and
-- keeps the node that a section has. The nodes of the other sections stay as they are.
pub add_section_view_lem :
    (vs : List SectionView) (handle view size : ℕ)
    → (get_section_view vs handle ≡ none
        → get_section_view (add_section_view vs handle view size) handle
          ≡ some (new_view handle view size))
      × ((v : SectionView)
          → get_section_view vs handle ≡ some v
          → get_section_view (add_section_view vs handle view size) handle ≡ some v)
      × ((j : ℕ)
          → handle ≢ j
          → get_section_view (add_section_view vs handle view size) j ≡ get_section_view vs j)
add_section_view_lem vs handle view size = rw (add-walk vs handle view size) (
  λ h. ground (arith, walk-get vs handle view size handle),
  λ v h. ground (arith, walk-get vs handle view size handle),
  λ j ne. ground (arith, walk-get vs handle view size j),
)

unlink_view_lem :
    (vs : List SectionView) (i : ℕ)
    → i < length vs
    → unlink_view vs i ≡ (take i vs ++ drop (suc i) vs, true)
unfolding unlink_view
unlink_view_lem [] i h = absurd (omega arith)
unlink_view_lem (v ∷ vs) zero h = refl
unlink_view_lem (v ∷ vs) (suc i) h = ground (arith, unlink_view_lem vs i)

unlink_view_other : (vs : List SectionView) (i : ℕ) → length vs ≤ i → unlink_view vs i ≡ (vs, false)
unfolding unlink_view
unlink_view_other [] i h = refl
unlink_view_other (v ∷ vs) zero h = absurd (omega arith)
unlink_view_other (v ∷ vs) (suc i) h = ground (arith, unlink_view_other vs i)

-- `DropSectionView` on a list with the head `v`: dropping a later node takes that node out alone,
-- and a pointer that is no node changes nothing; but dropping the head loses the whole list, however
-- many views it held.
pub drop_section_view_lem :
    (v : SectionView) (vs : List SectionView) (i : ℕ)
    → (drop_section_view (v ∷ vs) 0 ≡ ([], true))
      × (i < length vs
          → drop_section_view (v ∷ vs) (suc i) ≡ (v ∷ (take i vs ++ drop (suc i) vs), true))
      × (length vs ≤ i → drop_section_view (v ∷ vs) (suc i) ≡ (v ∷ vs, false))
unfolding drop_section_view
drop_section_view_lem v vs i =
    (refl, λ h. ground (arith, unlink_view_lem vs i), λ h. ground (arith, unlink_view_other vs i))
