-- ===== src/DllRanges/Laws.antt =====
-- The ranges of misc.c as a set of addresses, counted with how many ranges hold each address.
use capemon.Base.{
  ℕ, zero, suc, ◌+◌, ◌-◌, ◌≤◌, ◌<◌, ◌≡◌, ◌⊎◌, refl, ap, true, false, List, [], ◌∷◌, ◌++◌, none,
  some, if◌then◌else◌, arith, length, length-append, length-set, get_elem?, set, take, Bool-cases,
  inl, inr,
}
use capemon.DllRanges.{
  DllRange, max_dlls, inside, is_in_dll_range, add_dll_range, find_range, swap_out,
  remove_dll_range,
}

-- 1 for an address in the range, 0 otherwise.
abbrev pub weight : DllRange → ℕ → ℕ
weight r a = if inside r a then 1 else 0

unfoldable pub count_inside : List DllRange → ℕ → ℕ
count_inside [] a = 0
count_inside (r ∷ rs) a = weight r a + count_inside rs a

pub is_in_dll_range-count :
    (rs : List DllRange) (a : ℕ)
    → ((is_in_dll_range rs a ≡ true) × (0 < count_inside rs a))
      ⊎ ((is_in_dll_range rs a ≡ false) × (count_inside rs a ≡ 0))
unfolding is_in_dll_range count_inside
is_in_dll_range-count [] a = inr (refl, refl)
is_in_dll_range-count (r ∷ rs) a = ground (arith, is_in_dll_range-count rs a)

count-append :
    (xs ys : List DllRange) (a : ℕ)
    → count_inside (xs ++ ys) a ≡ count_inside xs a + count_inside ys a
unfolding count_inside
count-append [] ys a = omega arith
count-append (x ∷ xs) ys a = omega (arith, count-append xs ys a)

count_one : (r : DllRange) (a : ℕ) → count_inside (r ∷ []) a ≡ weight r a + 0
unfolding count_inside
count_one r a = refl

-- Registering a library keeps the array within its 500 entries, and adds its range exactly if there
-- is room and its first address lies in no range yet; all else stays as it was.
pub add_dll_range_lem :
    (rs : List DllRange) (start end a : ℕ)
    → length rs ≤ max_dlls
    → let r : DllRange = record { start = start; end = end } in
      (length (add_dll_range rs start end) ≤ max_dlls)
      × (((length rs ≡ max_dlls) ⊎ (is_in_dll_range rs start ≡ true))
          → add_dll_range rs start end ≡ rs)
      × (length rs < max_dlls
          → is_in_dll_range rs start ≡ false
          → count_inside (add_dll_range rs start end) a ≡ count_inside rs a + weight r a)
unfolding add_dll_range
add_dll_range_lem rs start end a fits =
    let r : DllRange = record { start = start; end = end } in
    (
      ground (arith, length-append rs (r ∷ [])),
      λ why. ground arith,
      λ room fresh. ground (arith, count-append rs (r ∷ []) a, count_one r a),
    )

count-set :
    (xs : List DllRange) (i : ℕ) (r z : DllRange) (a : ℕ)
    → get_elem? xs i ≡ some r
    → count_inside (set xs i z) a + weight r a ≡ count_inside xs a + weight z a
unfolding count_inside
count-set [] i r z a h = cc
count-set (x ∷ xs) zero r z a h = ground arith
count-set (x ∷ xs) (suc i) r z a h = omega (arith, count-set xs i r z a h)

get-last : (ys : List DllRange) (z : DllRange) → get_elem? (ys ++ z ∷ []) (length ys) ≡ some z
get-last [] z = refl
get-last (y ∷ ys) z = get-last ys z

take-init : (ys : List DllRange) (z : DllRange) → take (length ys) (ys ++ z ∷ []) ≡ ys
take-init [] z = refl
take-init (y ∷ ys) z = ap (◌∷◌ y) (take-init ys z)

-- The entry `i` of `ys ++ z ∷ []` replaced by `z`, and the last one dropped.
set-init :
    (ys : List DllRange) (z r : DllRange) (i : ℕ)
    → get_elem? (ys ++ z ∷ []) i ≡ some r
    → ((i ≡ length ys) × (r ≡ z) × (take (length ys) (set (ys ++ z ∷ []) i z) ≡ ys))
      ⊎ ((get_elem? ys i ≡ some r) × (take (length ys) (set (ys ++ z ∷ []) i z) ≡ set ys i z))
set-init [] z r zero h = inl (refl, ground arith, refl)
set-init [] z r (suc i) h = cc
set-init (y ∷ ys) z r zero h = inr (h, ap (◌∷◌ z) (take-init ys z))
set-init (y ∷ ys) z r (suc i) h = ground (arith, set-init ys z r i h)

-- A nonempty list ends in an entry.
snoc_view :
    (xs : List DllRange) → (xs ≡ []) ⊎ ((ys : List DllRange) × (z : DllRange) × (xs ≡ ys ++ z ∷ []))
snoc_view [] = inl refl
snoc_view (x ∷ xs) = elim (snoc_view xs) [
  | inl e ↦ inr ([], x, ap (◌∷◌ x) e)
  | inr (ys, z, e) ↦ inr (x ∷ ys, z, ap (◌∷◌ x) e)
]

swap_out_last :
    (ys : List DllRange) (z : DllRange) (i : ℕ)
    → swap_out (ys ++ z ∷ []) i ≡ take (length ys) (set (ys ++ z ∷ []) i z)
unfolding swap_out
swap_out_last ys z i =
    let e : length (ys ++ z ∷ []) - 1 ≡ length ys = omega (arith, length-append ys (z ∷ [])) in
    rw (swap_out, e, get-last ys z) (rw e refl)

swap_out-count_snoc :
    (ys : List DllRange) (z r : DllRange) (i a : ℕ)
    → get_elem? (ys ++ z ∷ []) i ≡ some r
    → (count_inside (swap_out (ys ++ z ∷ []) i) a + weight r a ≡ count_inside (ys ++ z ∷ []) a)
      × (length (swap_out (ys ++ z ∷ []) i) + 1 ≡ length (ys ++ z ∷ []))
swap_out-count_snoc ys z r i a h = elim (set-init ys z r i h) [
  | inl (at_end, same, e) ↦
      rw (swap_out_last ys z i, e)
        (
          rw same (omega (arith, count-append ys (z ∷ []) a, count_one z a)),
          omega (arith, length-append ys (z ∷ [])),
        )
  | inr (below, e) ↦
      rw (swap_out_last ys z i, e)
        (
          omega (arith, count-append ys (z ∷ []) a, count_one z a, count-set ys i r z a below),
          omega (arith, length-append ys (z ∷ []), length-set ys i z),
        )
]

swap_out-count :
    (rs : List DllRange) (i : ℕ) (r : DllRange) (a : ℕ)
    → get_elem? rs i ≡ some r
    → (count_inside (swap_out rs i) a + weight r a ≡ count_inside rs a)
      × (length (swap_out rs i) + 1 ≡ length rs)
swap_out-count rs i r a h = elim (snoc_view rs) [
  | inl e ↦ absurd (empty rs e h)
  | inr (ys, z, e) ↦ rw e (swap_out-count_snoc ys z r i a (rw e at h))
]
  where
    empty : (xs : List DllRange) → xs ≡ [] → get_elem? xs i ≡ some r → ⊥
    empty [] e g = cc
    empty (x ∷ xs) e g = cc

-- What `find_range` finds is the first range with the address.
find_range_lem :
    (rs : List DllRange) (addr : ℕ)
    → ((find_range rs addr ≡ none) × (is_in_dll_range rs addr ≡ false))
      ⊎ ((i : ℕ) × (r : DllRange) × (find_range rs addr ≡ some i)
          × (get_elem? rs i ≡ some r)
          × (inside r addr ≡ true)
          × (is_in_dll_range rs addr ≡ true))
unfolding find_range is_in_dll_range
find_range_lem [] addr = inl (refl, refl)
find_range_lem (r ∷ rs) addr = elim (Bool-cases (inside r addr)) [
  | inl yes' ↦ inr (0, r, ground arith, refl, yes', ground arith)
  | inr no' ↦ elim (find_range_lem rs addr) [
    | inl (e, out) ↦ inl (ground arith, ground arith)
    | inr (i, q, e, g, hit, found) ↦ inr (suc i, q, ground arith, g, hit, ground arith)
  ]
]

-- Unloading: if no range holds the address, nothing changes and the result is FALSE. Otherwise the
-- result is TRUE, and of the ranges just one that holds the address is gone, whatever its place in
-- the array: each address lies in as many ranges as before, less one if it lay in that range.
pub remove_dll_range_lem :
    (rs : List DllRange) (addr : ℕ)
    → ((is_in_dll_range rs addr ≡ false) × (remove_dll_range rs addr ≡ (rs, false)))
      ⊎ ((r : DllRange) × (inside r addr ≡ true)
          × ((remove_dll_range rs addr).1 ≡ true)
          × (length (remove_dll_range rs addr).0 + 1 ≡ length rs)
          × ((a : ℕ)
              → count_inside (remove_dll_range rs addr).0 a + weight r a ≡ count_inside rs a))
unfolding remove_dll_range
remove_dll_range_lem rs addr = elim (find_range_lem rs addr) [
  | inl (e, out) ↦ inl (out, rw (e, remove_dll_range) refl)
  | inr (i, r, e, g, hit, found) ↦ inr (
    r,
    hit,
    rw (e, remove_dll_range) refl,
    rw (e, remove_dll_range) (swap_out-count rs i r 0 g).1,
    λ a. rw (e, remove_dll_range) (swap_out-count rs i r a g).0,
  )
]

-- With ranges that do not overlap, the library's addresses are out after `remove_dll_range`, and no
-- others.
pub is_in_dll_range-remove :
    (rs : List DllRange) (addr : ℕ)
    → ((a : ℕ) → count_inside rs a ≤ 1)
    → is_in_dll_range rs addr ≡ true
    → (r : DllRange) × (inside r addr ≡ true)
      × ((a : ℕ)
          → is_in_dll_range (remove_dll_range rs addr).0 a
            ≡ (if inside r a then false else is_in_dll_range rs a))
is_in_dll_range-remove rs addr apart loaded = elim (remove_dll_range_lem rs addr) [
  | inl (out, e) ↦ absurd (cc)
  | inr (r, hit, done, shorter, counts) ↦ (
    r,
    hit,
    λ a. ground (
      arith,
      counts a,
      apart a,
      is_in_dll_range-count rs a,
      is_in_dll_range-count (remove_dll_range rs addr).0 a,
    ),
  )
]
