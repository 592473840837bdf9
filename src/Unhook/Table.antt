-- ===== src/Unhook/Table.antt =====
-- The table of unhook.c keeps its bounds and holds no code address twice.
use Prim.Native.Nat.{min}
use capemon.Base.{
  ℕ, zero, suc, ◌-◌, ◌≤◌, ◌≡◌, ◌≢◌, refl, true, false, List, [], ◌∷◌, ◌==◌, if◌then◌else◌, arith,
  length, length-append, length-set, length-take, set, take, All, Bool-cases, inl, inr, All-append,
}
use capemon.Unhook.{
  Region, Unhook, unhook_maxcount, unhook_bufsize, address_already_hooked,
  get_first_zero_addr_index, put_region, unhook_detect_add_region, invalidate_regions_for_hook,
}

-- How many entries stand for the address.
unfoldable pub count_addr : List Region → ℕ → ℕ
count_addr [] a = 0
count_addr (r ∷ rs) a = let rest = count_addr rs a in if r.addr == a then suc rest else rest

abbrev pub Fits : Region → Type 0
Fits r = (r.size ≤ unhook_bufsize) × (length r.orig ≤ r.size) × (length r.our ≤ r.size)

pub record IsTable (rs : List Region) : Type 0 where
  pub bounded : length rs ≤ unhook_maxcount - 1
  pub distinct : (a : ℕ) → a ≢ 0 → count_addr rs a ≤ 1
  pub fits : All Fits rs

not_hooked-count :
    (rs : List Region) (a : ℕ) → address_already_hooked rs a ≡ false → count_addr rs a ≡ 0
unfolding address_already_hooked count_addr
not_hooked-count [] a h = refl
not_hooked-count (r ∷ rs) a h = ground (arith, not_hooked-count rs a)

first_zero_le : (rs : List Region) → get_first_zero_addr_index rs ≤ length rs
unfolding get_first_zero_addr_index
first_zero_le [] = omega arith
first_zero_le (r ∷ rs) = ground (arith, first_zero_le rs)

-- An entry put in the first free place is counted, and nothing else changes for live addresses.
put-count :
    (rs : List Region) (r : Region) (a : ℕ)
    → a ≢ 0
    → count_addr (put_region rs (get_first_zero_addr_index rs) r) a
      ≡ (if r.addr == a then suc (count_addr rs a) else count_addr rs a)
unfolding put_region get_first_zero_addr_index count_addr
put-count [] r a h = refl
put-count (q ∷ rs) r a h = ground (arith, put-count rs r a, first_zero_le rs)

put-length :
    (rs : List Region) (r : Region) (i : ℕ)
    → length rs ≤ length (put_region rs i r) × (length (put_region rs i r) ≤ suc (length rs))
unfolding put_region
put-length rs r i = ground (arith, length-append rs (r ∷ []), length-set rs i r)

set-All : (rs : List Region) (r : Region) (i : ℕ) → All Fits rs → Fits r → All Fits (set rs i r)
set-All [] r i h f = tt
set-All (q ∷ rs) r zero h f = (f, h.1)
set-All (q ∷ rs) r (suc i) h f = (h.0, set-All rs r i h.1 f)

put-All :
    (rs : List Region) (r : Region) (i : ℕ) → All Fits rs → Fits r → All Fits (put_region rs i r)
unfolding put_region
put-All rs r i h f = elim (Bool-cases (i == length rs)) [
  | inl e ↦ rw e (All-append Fits rs (r ∷ []) h (f, tt))
  | inr e ↦ rw e (set-All rs r i h f)
]

-- Adding a region keeps the table within its 2047 entries, every live address in it once, and every
-- copy of code within its 32 bytes. The address 0 marks a free entry.
pub unhook_detect_add_region-IsTable :
    (u : Unhook) (hook addr : ℕ) (orig our : List ℕ) (size : ℕ)
    → IsTable u.regions
    → IsTable (unhook_detect_add_region u hook addr orig our size).regions
unfolding unhook_detect_add_region
unhook_detect_add_region-IsTable u hook addr orig our size t =
    let kept = min size unhook_bufsize in
    let i = get_first_zero_addr_index u.regions in
    let r : Region = record {
      size = kept;
      addr = addr;
      hook = hook;
      orig = take kept orig;
      our = take kept our;
      reported = false;
    } in
    let fit : Fits r =
      (omega arith, omega (arith, length-take kept orig), omega (arith, length-take kept our)) in
    elim (Bool-cases (length u.regions == unhook_maxcount - 1)) [
      | inl full ↦ rw full t
      | inr room ↦ elim (Bool-cases (address_already_hooked u.regions addr)) [
        | inl known ↦ rw (room, known) t
        | inr fresh ↦
            rw (room, fresh)
              (record {
                bounded = ground (arith, put-length u.regions r i, t.bounded);
                distinct = λ a ne. ground (
                  arith,
                  put-count u.regions r a ne,
                  t.distinct a ne,
                  not_hooked-count u.regions addr fresh,
                );
                fits = put-All u.regions r i t.fits fit;
              })
      ]
    ]

invalidate-count_le :
    (rs : List Region) (hook a : ℕ)
    → a ≢ 0
    → count_addr (invalidate_regions_for_hook rs hook) a ≤ count_addr rs a
unfolding invalidate_regions_for_hook count_addr
invalidate-count_le [] hook a h = omega arith
invalidate-count_le (r ∷ rs) hook a h = ground (arith, invalidate-count_le rs hook a)

invalidate-length :
    (rs : List Region) (hook : ℕ) → length (invalidate_regions_for_hook rs hook) ≡ length rs
unfolding invalidate_regions_for_hook
invalidate-length [] hook = refl
invalidate-length (r ∷ rs) hook = ground (arith, invalidate-length rs hook)

invalidate-Fits :
    (rs : List Region) (hook : ℕ) → All Fits rs → All Fits (invalidate_regions_for_hook rs hook)
unfolding invalidate_regions_for_hook
invalidate-Fits [] hook h = tt
invalidate-Fits (r ∷ rs) hook h = elim (Bool-cases (r.hook == hook)) [
  | inl e ↦ rw e (h.0, invalidate-Fits rs hook h.1)
  | inr e ↦ rw e (h.0, invalidate-Fits rs hook h.1)
]

abbrev pub Freed : ℕ → Region → Type 0
Freed hook r = r.hook ≡ hook → (r.addr ≡ 0) × (r.reported ≡ true)

invalidate-Freed :
    (rs : List Region) (hook : ℕ) → All (Freed hook) (invalidate_regions_for_hook rs hook)
unfolding invalidate_regions_for_hook
invalidate-Freed [] hook = tt
invalidate-Freed (r ∷ rs) hook = elim (Bool-cases (r.hook == hook)) [
  | inl e ↦ rw e ((λ h. (refl, refl)), invalidate-Freed rs hook)
  | inr e ↦ rw e ((λ h. absurd (ground arith)), invalidate-Freed rs hook)
]

-- Invalidating the regions of a hook keeps the table well formed, and leaves no entry of the hook
-- live: each is free and marked as reported.
pub invalidate_regions_for_hook-IsTable :
    (rs : List Region) (hook : ℕ)
    → IsTable rs
    → IsTable (invalidate_regions_for_hook rs hook)
      × All (Freed hook) (invalidate_regions_for_hook rs hook)
invalidate_regions_for_hook-IsTable rs hook t = (
  record {
    bounded = omega (arith, invalidate-length rs hook, t.bounded);
    distinct = λ a ne. omega (arith, invalidate-count_le rs hook a ne, t.distinct a ne);
    fits = invalidate-Fits rs hook t.fits;
  },
  invalidate-Freed rs hook,
)

hooked_first :
    (rs : List Region) (r : Region)
    → address_already_hooked (put_region rs (get_first_zero_addr_index rs) r) r.addr ≡ true
unfolding put_region get_first_zero_addr_index address_already_hooked
hooked_first [] r = ground arith
hooked_first (q ∷ rs) r = ground (arith, hooked_first rs r, first_zero_le rs)

add_known :
    (u : Unhook) (hook addr : ℕ) (orig our : List ℕ) (size : ℕ)
    → address_already_hooked u.regions addr ≡ true
    → (unhook_detect_add_region u hook addr orig our size).regions ≡ u.regions
unfolding unhook_detect_add_region
add_known u hook addr orig our size known =
    elim (Bool-cases (length u.regions == unhook_maxcount - 1)) [
      | inl full ↦ rw full
      | inr room ↦ rw (room, known)
    ]

add_makes_known :
    (u : Unhook) (hook addr : ℕ) (orig our : List ℕ) (size : ℕ)
    → length u.regions ≢ unhook_maxcount - 1
    → address_already_hooked (unhook_detect_add_region u hook addr orig our size).regions addr
      ≡ true
unfolding unhook_detect_add_region
add_makes_known u hook addr orig our size room =
    let full : (length u.regions == unhook_maxcount - 1) ≡ false = ground arith in
    elim (Bool-cases (address_already_hooked u.regions addr)) [
      | inl known ↦ rw (full, known) known
      | inr fresh ↦ rw (full, fresh) (hooked_first u.regions _)
    ]

-- With a free entry left, an address is known as hooked after it was added, and a second addition
-- of it changes no entry.
pub unhook_detect_add_region_twice :
    (u : Unhook) (hook hook2 addr : ℕ) (orig our orig2 our2 : List ℕ) (size size2 : ℕ)
    → length u.regions ≢ unhook_maxcount - 1
    → let u' = unhook_detect_add_region u hook addr orig our size in
      (address_already_hooked u'.regions addr ≡ true)
      × ((unhook_detect_add_region u' hook2 addr orig2 our2 size2).regions ≡ u'.regions)
unhook_detect_add_region_twice u hook hook2 addr orig our orig2 our2 size size2 room =
    let known = add_makes_known u hook addr orig our size room in
    (known, add_known _ hook2 addr orig2 our2 size2 known)
