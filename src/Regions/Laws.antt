-- ===== src/Regions/Laws.antt =====
-- Adding, finding and dropping tracked regions.
use capemon.Base.{
  ℕ, ◌≡◌, ◌≢◌, ◌⊎◌, refl, ap, ◌∙◌, true, Option, none, some, List, [], ◌∷◌, ◌++◌, ◌==◌, arith,
  Bool-cases, Option-cases, inl, inr, length, All,
}
use capemon.Regions.{
  TrackedRegion, Machine, zeroed_region, find_base, put_tracked, create_tracked_region, head_of,
  get_allocation_base, get_tracked_region, fill_region, update_region, add_tracked_region,
  unlink_region, drop_tracked_region,
}

-- What is written is found, in the place of what was found before.
find_base-put_tracked :
    (ts : List TrackedRegion) (t t' : TrackedRegion) (base : ℕ)
    → find_base ts base ≡ some t
    → t'.region ≡ t.region
    → t'.allocation_base ≡ base
    → base ≢ 0
    → find_base (put_tracked ts t') base ≡ some t'
unfolding find_base put_tracked
find_base-put_tracked [] t t' base h same named nz = absurd (ground arith)
find_base-put_tracked (x ∷ ts) t t' base h same named nz =
    ground (arith, find_base-put_tracked ts t t' base)

-- What is appended and written is found, where nothing was.
find_base-append :
    (ts : List TrackedRegion) (t t' : TrackedRegion) (base : ℕ)
    → find_base ts base ≡ none
    → t'.region ≡ t.region
    → t'.allocation_base ≡ base
    → base ≢ 0
    → find_base (put_tracked (ts ++ (t ∷ [])) t') base ≡ some t'
unfolding find_base put_tracked
find_base-append [] t t' base h same named nz = ground arith
find_base-append (x ∷ ts) t t' base h same named nz = ground (arith, find_base-append ts t t' base)

length-put_tracked :
    (ts : List TrackedRegion) (v : TrackedRegion) → length (put_tracked ts v) ≡ length ts
unfolding put_tracked
length-put_tracked [] v = refl
length-put_tracked (t ∷ ts) v = ground (arith, length-put_tracked ts v)

-- What a region that was filled says.
fill_region-base :
    (m : Machine) (t t' : TrackedRegion) (address protect : ℕ)
    → address ≢ 0
    → fill_region m t address protect ≡ some t'
    → (t'.region ≡ t.region) × (t'.allocation_base ≡ get_allocation_base m address)
unfolding fill_region get_allocation_base
fill_region-base m t t' address protect nz h = ground arith

-- How `AddTrackedRegion` gives a region back.
data Added (m : Machine) (address protect : ℕ) (ts : List TrackedRegion) (fresh : ℕ)
    : List TrackedRegion × Option TrackedRegion → Type 0 where
  refused : (r : List TrackedRegion) → Added m address protect ts fresh (r, none)
  updated :
      (t t' : TrackedRegion)
      → get_tracked_region m ts address ≡ some t
      → fill_region m t address protect ≡ some t'
      → Added m address protect ts fresh (put_tracked ts t', some t')
  appended :
      (t' : TrackedRegion)
      → get_tracked_region m ts address ≡ none
      → fill_region m (zeroed_region fresh) address protect ≡ some t'
      → Added m address protect ts fresh
          (put_tracked (ts ++ (zeroed_region fresh ∷ [])) t', some t')

update_region-cases :
    (m : Machine) (ts : List TrackedRegion) (t : TrackedRegion) (address protect : ℕ)
    → (update_region m ts t address protect ≡ (ts, none))
      ⊎ ((t' : TrackedRegion) × (fill_region m t address protect ≡ some t')
          × (update_region m ts t address protect ≡ (put_tracked ts t', some t')))
unfolding update_region
update_region-cases m ts t address protect = elim (Option-cases (fill_region m t address protect)) [
  | inl failed ↦ inl (rw (update_region, failed) refl)
  | inr (t', filled) ↦ inr (t', filled, rw (update_region, filled) refl)
]

add_tracked_region-Added :
    (m : Machine) (first fresh : ℕ) (ts : List TrackedRegion) (address protect : ℕ)
    → Added m address protect
        (create_tracked_region first ts)
        fresh
        (add_tracked_region m first fresh ts address protect)
unfolding add_tracked_region
add_tracked_region-Added m first fresh ts address protect =
    let ts' = create_tracked_region first ts in
    elim (Bool-cases (address == 0)) [
      | inl null ↦ rw (add_tracked_region, null) (refused ts)
      | inr some_address ↦
          elim (Bool-cases (m.get_page_address address == m.get_page_address (head_of ts'))) [
            | inl own ↦ rw (add_tracked_region, some_address, own) (refused ts')
            | inr other ↦ elim (Option-cases (get_tracked_region m ts' address)) [
              | inr (t, known) ↦ elim (update_region-cases m ts' t address protect) [
                | inl failed ↦
                    rw (add_tracked_region, some_address, other, known, failed) (refused ts')
                | inr (t', filled, done) ↦
                    rw (add_tracked_region, some_address, other, known, done)
                      (updated t t' known filled)
              ]
              | inl unknown ↦
                  elim (update_region-cases m (ts' ++ (zeroed_region fresh ∷ []))
                    (zeroed_region fresh) address protect) [
                      | inl failed ↦
                          rw (add_tracked_region, some_address, other, unknown, failed) (refused _)
                      | inr (t', filled, done) ↦
                          rw (add_tracked_region, some_address, other, unknown, done)
                            (appended t' unknown filled)
                    ]
            ]
          ]
    ]

get_tracked_region-find :
    (m : Machine) (ts : List TrackedRegion) (address : ℕ) (o : Option TrackedRegion)
    → address ≢ 0
    → get_tracked_region m ts address ≡ o
    → find_base ts (get_allocation_base m address) ≡ o
unfolding get_tracked_region
get_tracked_region-find m ts address o nz h = ground arith

get_tracked_region-known :
    (m : Machine) (ts : List TrackedRegion) (address : ℕ) (o : Option TrackedRegion)
    → address ≢ 0
    → find_base ts (get_allocation_base m address) ≡ o
    → get_tracked_region m ts address ≡ o
unfolding get_tracked_region
get_tracked_region-known m ts address o nz h = ground arith

-- For an address in an allocation: a region that `AddTrackedRegion` returns is the one that
-- `GetTrackedRegion` finds for the address from then on, whether it was new or known.
pub add_tracked_region_lem :
    (m : Machine) (first fresh : ℕ) (ts : List TrackedRegion) (address protect : ℕ)
    (t : TrackedRegion)
    → address ≢ 0
    → get_allocation_base m address ≢ 0
    → (add_tracked_region m first fresh ts address protect).1 ≡ some t
    → get_tracked_region m (add_tracked_region m first fresh ts address protect).0 address ≡ some t
add_tracked_region_lem m first fresh ts address protect t nz based h =
    go (add_tracked_region-Added m first fresh ts address protect) h
  where
    go :
        {r : List TrackedRegion × Option TrackedRegion}
        → Added m address protect (create_tracked_region first ts) fresh r
        → r.1 ≡ some t
        → get_tracked_region m r.0 address ≡ some t
    go (refused r) e = absurd (ground arith)
    go (updated old t' known filled) e =
        let (same, named) = fill_region-base m old t' address protect nz filled in
        let found = get_tracked_region-find m _ address (some old) nz known in
        get_tracked_region-known m _ address (some t) nz
          (find_base-put_tracked _ old t' _ found same named based ∙ e)
    go (appended t' unknown filled) e =
        let (same, named) = fill_region-base m (zeroed_region fresh) t' address protect nz filled in
        let missing = get_tracked_region-find m _ address none nz unknown in
        get_tracked_region-known m _ address (some t) nz
          (find_base-append _ (zeroed_region fresh) t' _ missing same named based ∙ e)

-- No region of the list stands at the address.
abbrev pub IsFresh : ℕ → List TrackedRegion → Type 0
IsFresh fresh ts = All (λ (t : TrackedRegion). t.region ≢ fresh) ts

unlink_region-append :
    (ts : List TrackedRegion) (t t' : TrackedRegion)
    → IsFresh t.region ts
    → t'.region ≡ t.region
    → unlink_region (put_tracked (ts ++ (t ∷ [])) t') t.region ≡ (ts, true)
unfolding unlink_region put_tracked
unlink_region-append [] t t' new same = ground arith
unlink_region-append (x ∷ ts) t t' new same =
    ground (arith, new.0, unlink_region-append ts t t' new.1)

drop_tracked_region-append :
    (x : TrackedRegion) (xs : List TrackedRegion) (t t' : TrackedRegion)
    → t.region ≢ 0
    → IsFresh t.region (x ∷ xs)
    → t'.region ≡ t.region
    → drop_tracked_region (put_tracked ((x ∷ xs) ++ (t ∷ [])) t') t.region ≡ (x ∷ xs, true)
unfolding drop_tracked_region put_tracked
drop_tracked_region-append x xs t t' nz new same =
    ground (arith, new.0, unlink_region-append xs t t' new.1 same)

-- In a list that is not empty, `DropTrackedRegion` undoes an `AddTrackedRegion` that has made a new
-- region: the list is what it was before, with every other region in its place.
pub drop_tracked_region-add :
    (m : Machine) (first fresh : ℕ) (x : TrackedRegion) (xs : List TrackedRegion)
    (address protect : ℕ) (t : TrackedRegion)
    → address ≢ 0
    → fresh ≢ 0
    → IsFresh fresh (x ∷ xs)
    → get_tracked_region m (x ∷ xs) address ≡ none
    → (add_tracked_region m first fresh (x ∷ xs) address protect).1 ≡ some t
    → drop_tracked_region (add_tracked_region m first fresh (x ∷ xs) address protect).0 t.region
      ≡ (x ∷ xs, true)
unfolding create_tracked_region
drop_tracked_region-add m first fresh x xs address protect t nz made new unknown h =
    go (add_tracked_region-Added m first fresh (x ∷ xs) address protect) h
  where
    go :
        {r : List TrackedRegion × Option TrackedRegion}
        → Added m address protect (create_tracked_region first (x ∷ xs)) fresh r
        → r.1 ≡ some t
        → drop_tracked_region r.0 t.region ≡ (x ∷ xs, true)
    go (refused r) e = absurd (ground arith)
    go (updated old t' known filled) e = absurd (ground arith)
    go (appended t' missing filled) e =
        let (same, named) = fill_region-base m (zeroed_region fresh) t' address protect nz filled in
        let e' : t.region ≡ fresh = ground arith in
        ap (drop_tracked_region (put_tracked ((x ∷ xs) ++ (zeroed_region fresh ∷ [])) t')) e'
        ∙ drop_tracked_region-append x xs (zeroed_region fresh) t' made new same
