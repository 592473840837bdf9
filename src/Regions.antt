-- ===== src/Regions.antt =====
-- CAPE/CAPE.c: the list of tracked regions of memory. A region is known by the address of its
-- structure, `region`; allocation is taken to succeed, and its addresses are arguments.
pub mod Laws
use capemon.Base.{
  ℕ, ◌+◌, ◌*◌, ◌/◌, ◌%◌, ◌^◌, Bool, true, false, not, ◌&&◌, ◌||◌, Option, none, some, List, [], ◌∷◌,
  ◌++◌, ◌==◌, ltb, leb, if◌then◌else◌,
}

pub record TrackedRegion : Type 0 where
  pub region : ℕ
  pub allocation_base : ℕ
  pub address : ℕ
  pub protect : ℕ
  pub entry_point : ℕ
  pub entropy : ℕ
  pub min_pe_size : ℕ
  pub pages_dumped : Bool

-- What the system and the other parts say: the allocation base and the protection of an address,
-- the size that can be read, what is measured of an allocation, and whether it is a cache of .NET.
pub record Machine : Type 0 where
  pub virtual_query : ℕ → Option (ℕ × ℕ)
  pub get_accessible_size : ℕ → ℕ
  pub get_page_address : ℕ → ℕ
  pub get_entropy : ℕ → ℕ
  pub get_entry_point : ℕ → ℕ
  pub get_min_pe_size : ℕ → ℕ
  pub is_dotnet_jit : ℕ → Bool

-- `calloc`
abbrev pub zeroed_region : ℕ → TrackedRegion
zeroed_region region = record {
  region = region;
  allocation_base = 0;
  address = 0;
  protect = 0;
  entry_point = 0;
  entropy = 0;
  min_pe_size = 0;
  pages_dumped = false;
}

unfoldable pub find_base : List TrackedRegion → ℕ → Option TrackedRegion
find_base [] base = none
find_base (t ∷ ts) base =
    if not (t.allocation_base == 0) && (base == t.allocation_base)
    then some t
    else find_base ts base

-- The write through a pointer to a region.
unfoldable pub put_tracked : List TrackedRegion → TrackedRegion → List TrackedRegion
put_tracked [] v = []
put_tracked (t ∷ ts) v = if t.region == v.region then v ∷ ts else t ∷ put_tracked ts v

unfoldable pub create_tracked_region : ℕ → List TrackedRegion → List TrackedRegion
create_tracked_region fresh [] = zeroed_region fresh ∷ []
create_tracked_region fresh (t ∷ ts) = t ∷ ts

-- `TrackedRegionList` as an address.
unfoldable pub head_of : List TrackedRegion → ℕ
head_of [] = 0
head_of (t ∷ ts) = t.region

module _ (m : Machine) where
  unfoldable pub get_allocation_base : ℕ → ℕ
  get_allocation_base address =
      if address == 0
      then 0
      else elim (m.virtual_query address) [ none ↦ 0 | some (base, protect) ↦ base ]

  unfoldable pub is_in_tracked_region : TrackedRegion → ℕ → Bool
  is_in_tracked_region t address =
      leb t.allocation_base address
      && ltb address ((t.allocation_base + m.get_accessible_size t.allocation_base) % 2 ^ 64)

  unfoldable pub any_region : List TrackedRegion → ℕ → Bool
  any_region [] address = false
  any_region (t ∷ ts) address = is_in_tracked_region t address || any_region ts address

  unfoldable pub is_in_tracked_regions : List TrackedRegion → ℕ → Bool
  is_in_tracked_regions ts address = not (address == 0) && any_region ts address

  unfoldable pub get_tracked_region : List TrackedRegion → ℕ → Option TrackedRegion
  get_tracked_region ts address =
      if address == 0 then none else find_base ts (get_allocation_base address)

  -- What `AddTrackedRegion` writes into a region, `none` where the query fails.
  unfoldable pub fill_region : TrackedRegion → ℕ → ℕ → Option TrackedRegion
  fill_region t address protect = elim (m.virtual_query address) [
    | none ↦ none
    | some (base, old) ↦ some (record t {
      allocation_base = base;
      address = if address == base then t.address else address;
      protect = if protect == 0 then old else protect;
      entropy = m.get_entropy base;
      entry_point = m.get_entry_point base;
      min_pe_size = if m.get_entry_point base == 0 then t.min_pe_size else m.get_min_pe_size base;
      pages_dumped = t.pages_dumped || m.is_dotnet_jit (get_allocation_base address);
    })
  ]

  -- The end of `AddTrackedRegion`, on the region `t` of the list `ts`; without an answer of the system
  -- the region stays as it is.
  unfoldable pub update_region :
      List TrackedRegion → TrackedRegion → ℕ → ℕ → List TrackedRegion × Option TrackedRegion
  update_region ts t address protect = elim (fill_region t address protect) [
    | none ↦ (ts, none)
    | some t' ↦ (put_tracked ts t', some t')
  ]

  -- `first` and `fresh` are the addresses that `calloc` gives for an empty list and for a new region.
  unfoldable pub add_tracked_region :
      ℕ → ℕ → List TrackedRegion → ℕ → ℕ → List TrackedRegion × Option TrackedRegion
  add_tracked_region first fresh ts address protect =
      let ts' = create_tracked_region first ts in
      if address == 0
      then (ts, none)
      else if m.get_page_address address == m.get_page_address (head_of ts')
      then (ts', none)
      else elim (get_tracked_region ts' address) [
        | some t ↦ update_region ts' t address protect
        | none ↦
            update_region (ts' ++ (zeroed_region fresh ∷ [])) (zeroed_region fresh) address protect
      ]

-- The walk behind the head.
unfoldable pub unlink_region : List TrackedRegion → ℕ → List TrackedRegion × Bool
unlink_region [] region = ([], false)
unlink_region (t ∷ ts) region =
    let rest = unlink_region ts region in
    if t.region == region then (ts, true) else (t ∷ rest.0, rest.1)

-- At the head the whole list is given up.
unfoldable pub drop_tracked_region : List TrackedRegion → ℕ → List TrackedRegion × Bool
drop_tracked_region [] region = ([], false)
drop_tracked_region (t ∷ ts) region =
    let rest = unlink_region ts region in
    if region == 0
    then (t ∷ ts, false)
    else if t.region == region
    then ([], true)
    else (t ∷ rest.0, rest.1)
