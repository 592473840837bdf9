-- ===== src/Tests/Regions.antt =====
-- Two allocations of two pages, and the list of regions.
use capemon.Base.{◌*◌, ◌/◌, ◌≡◌, refl, true, false, some, [], ◌∷◌, if◌then◌else◌, ltb, arith}
use capemon.Regions.{
  TrackedRegion, Machine, zeroed_region, find_base, create_tracked_region, head_of,
  get_allocation_base, get_tracked_region, fill_region, update_region, add_tracked_region,
  drop_tracked_region, is_in_tracked_regions, any_region, is_in_tracked_region,
}
use capemon.Regions.Laws.{add_tracked_region_lem, drop_tracked_region-add}

abbrev two_allocations : Machine
two_allocations = record {
  virtual_query = λ a. some ((if ltb a 0x20000 then 0x10000 else 0x20000), 4);
  get_accessible_size = λ a. 0x2000;
  get_page_address = λ a. a / 0x1000 * 0x1000;
  get_entropy = λ a. 5;
  get_entry_point = λ a. 0;
  get_min_pe_size = λ a. 0;
  is_dotnet_jit = λ a. false;
}

-- What is written for the second allocation.
abbrev second_region : TrackedRegion
second_region = record (zeroed_region 0x98) {
  allocation_base = 0x20000;
  address = 0x20100;
  protect = 0x40;
  entropy = 5;
}

add_tracked_region_lem_example :
    get_tracked_region two_allocations
      (add_tracked_region two_allocations 0x90 0x98 [] 0x20100 0x40).0
      0x20100
    ≡ some second_region
add_tracked_region_lem_example =
    add_tracked_region_lem two_allocations 0x90 0x98 [] 0x20100 0x40 second_region (omega arith)
      (unfold get_allocation_base in omega arith)
      (unfold add_tracked_region create_tracked_region head_of get_tracked_region find_base
          get_allocation_base update_region fill_region in
        refl)

drop_tracked_region-add_example :
    drop_tracked_region
      (add_tracked_region two_allocations 0x90 0x98 (zeroed_region 0x90 ∷ []) 0x20100 0x40).0
      0x98
    ≡ (zeroed_region 0x90 ∷ [], true)
drop_tracked_region-add_example =
    drop_tracked_region-add two_allocations 0x90 0x98 (zeroed_region 0x90) [] 0x20100 0x40
      second_region (omega arith) (omega arith) (omega arith, tt)
      (unfold get_tracked_region find_base in refl)
      (unfold add_tracked_region create_tracked_region head_of get_tracked_region find_base
          get_allocation_base update_region fill_region in
        refl)

-- A region that was added covers the addresses of its allocation, until the head of the list is
-- dropped.
head_takes_all :
    (is_in_tracked_regions two_allocations (zeroed_region 0x90 ∷ second_region ∷ []) 0x21FFF ≡ true)
    × (drop_tracked_region (zeroed_region 0x90 ∷ second_region ∷ []) 0x90 ≡ ([], true))
unfolding is_in_tracked_regions any_region is_in_tracked_region drop_tracked_region
head_takes_all = (refl, refl)
