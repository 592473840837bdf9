-- ===== src/Pe/Laws.antt =====
-- What the tests for a PE image agree on.
use native.Mathlib.Decide.{ℕ_discrete}
use capemon.Base.{
  ℕ, zero, suc, ◌+◌, ◌-◌, ◌%◌, ◌^◌, ◌≤◌, ◌<◌, ◌≡◌, ◌≢◌, refl, ap, sym, ◌∙◌, Bool, true, false, not,
  ◌&&◌, ◌||◌, some, ◌==◌, ltb, leb, arith, Bool-cases, Option-cases, inl, inr,
}
use capemon.Pe.{
  Section, NtHeaders, Headers, pe_max_size, pe_header_limit, is_small, test_sections,
  test_pe_requirements, is_disguised_pe_header, headers_below, min_size, get_min_pe_size,
  section_end, file_offset_in, file_offset_from_rva,
}

-- The headers that are followed are those that the test for an image looks at.
headers_below-disguised :
    (e : Headers) (base : ℕ) (h : NtHeaders)
    → headers_below e base ≡ some h
    → test_pe_requirements (some h) ≡ true
    → is_disguised_pe_header e base ≡ some true
unfolding headers_below is_disguised_pe_header
headers_below-disguised e base h found ok = elim (Option-cases (e.e_lfanew base)) [
  | inl bad ↦ absurd (ground arith)
  | inr (l, at) ↦ elim (Bool-cases (not (l == 0) && (ltb l pe_header_limit && (l % 4 == 0)))) [
    | inr off ↦ absurd (ground arith)
    | inl near ↦
        let nt : e.nt_headers ((base + l) % 2 ^ 64) ≡ some h = ground arith in
        let low : (not ((l == 0) || ltb pe_header_limit l)) ≡ true = ground arith in
        let even : (l % 4 == 0) ≡ true = ground arith in
        rw (is_disguised_pe_header, at, low, even, nt, ok) refl
  ]
]

tested :
    (h : NtHeaders)
    → test_pe_requirements (some h) ≡ true
    → test_sections h 0 h.number_of_sections ≡ true
unfolding test_pe_requirements
tested h ok = ground arith

test_pe_requirements-size :
    (h : NtHeaders) → test_pe_requirements (some h) ≡ true → h.size_of_image ≤ pe_max_size
unfolding test_pe_requirements
test_pe_requirements-size h ok = ground arith

min_size-le : (h : NtHeaders) (s : Section) → min_size h s ≤ h.size_of_image
unfolding min_size
min_size-le h s = elim (Bool-cases ((s.pointer_to_raw_data == 0) && (s.virtual_address == 0))) [
  | inl nowhere ↦ rw (min_size, nowhere) (omega arith)
  | inr somewhere ↦ ground arith
]

-- `GetMinPESize` returns 0 or what the last section of an image says.
data MinSize (e : Headers) (base : ℕ) : ℕ → Type 0 where
  no_size : MinSize e base 0
  sized :
      (h : NtHeaders) (s : Section)
      → headers_below e base ≡ some h
      → test_pe_requirements (some h) ≡ true
      → MinSize e base (min_size h s)

get_min_pe_size-MinSize :
    (e : Headers) (accessible : Bool) (base : ℕ)
    → MinSize e base (get_min_pe_size e accessible base)
unfolding get_min_pe_size
get_min_pe_size-MinSize e false base = no_size
get_min_pe_size-MinSize e true base = elim (Option-cases (headers_below e base)) [
  | inl bad ↦ rw (get_min_pe_size, bad) no_size
  | inr (h, here) ↦ elim (Bool-cases (test_pe_requirements (some h))) [
    | inr refused ↦ rw (get_min_pe_size, here, refused) no_size
    | inl ok ↦ elim (Option-cases (h.section (h.number_of_sections - 1))) [
      | inl bad ↦ rw (get_min_pe_size, here, ok, bad) no_size
      | inr (s, last) ↦ rw (get_min_pe_size, here, ok, last) (sized h s here ok)
    ]
  ]
]

-- A size that `GetMinPESize` returns is at most the size of the image and at most 0x20000000; where it
-- is not 0, `IsDisguisedPEHeader` takes the memory for an image.
pub get_min_pe_size_lem :
    (e : Headers) (accessible : Bool) (base : ℕ)
    → (get_min_pe_size e accessible base ≢ 0 → is_disguised_pe_header e base ≡ some true)
      × (get_min_pe_size e accessible base ≤ pe_max_size)
      × ((h : NtHeaders)
          → headers_below e base ≡ some h
          → get_min_pe_size e accessible base ≤ h.size_of_image)
get_min_pe_size_lem e accessible base = go (get_min_pe_size-MinSize e accessible base)
  where
    go :
        {r : ℕ}
        → MinSize e base r
        → (r ≢ 0 → is_disguised_pe_header e base ≡ some true)
          × (r ≤ pe_max_size)
          × ((h : NtHeaders) → headers_below e base ≡ some h → r ≤ h.size_of_image)
    go no_size = (λ ne. absurd (ne refl), omega arith, λ h here. omega arith)
    go (sized h s here ok) = (
      λ ne. headers_below-disguised e base h here ok,
      omega (arith, min_size-le h s, test_pe_requirements-size h ok),
      λ h' here'. ground (arith, min_size-le h s),
    )

-- What `FileOffsetFromRVA` answers: nothing; an address in front of the sections, as it is; or the
-- place in the file of an address in a section.
pub data FileOffset (h : NtHeaders) (allocation_size rva : ℕ) : ℕ → Type 0 where
  no_offset : FileOffset h allocation_size rva 0
  in_headers :
      (s : Section)
      → h.section 0 ≡ some s
      → rva < s.virtual_address
      → FileOffset h allocation_size rva rva
  in_section :
      (i r : ℕ) (s : Section)
      → i < h.number_of_sections
      → h.section i ≡ some s
      → s.virtual_address ≤ rva
      → rva < section_end s
      → r + s.virtual_address ≡ rva + s.pointer_to_raw_data
      → r < allocation_size
      → FileOffset h allocation_size rva r

-- The sections of headers that pass the test.
test_sections-small :
    (h : NtHeaders) (i n k : ℕ) (s : Section)
    → test_sections h i n ≡ true
    → i ≤ k
    → k < i + n
    → h.section k ≡ some s
    → is_small s ≡ true
unfolding test_sections
test_sections-small h i zero k s ok low high here = absurd (omega arith)
test_sections-small h i (suc n) k s ok low high here = elim (Option-cases (h.section i)) [
  | inl bad ↦ absurd (ground arith)
  | inr (t, first) ↦ elim (ℕ_discrete i k) [
    | yes same ↦ let e : some t ≡ some s = sym first ∙ ap h.section same ∙ here in ground arith
    | no differ ↦
        test_sections-small h (suc i) n k s (ground arith) (omega arith) (omega arith) here
  ]
]

-- The place in the file, without wrapping around.
offset_exact :
    (s : Section) (rva : ℕ)
    → is_small s ≡ true
    → s.virtual_address ≤ rva
    → rva < section_end s
    → (rva + 2 ^ 32 - s.virtual_address + s.pointer_to_raw_data) % 2 ^ 32 + s.virtual_address
      ≡ rva + s.pointer_to_raw_data
unfolding is_small section_end
offset_exact s rva small low high = ground arith

file_offset_in-FileOffset :
    (h : NtHeaders) (allocation_size rva i n : ℕ)
    → test_sections h 0 h.number_of_sections ≡ true
    → i + n ≡ h.number_of_sections
    → FileOffset h allocation_size rva (file_offset_in h allocation_size rva i n)
unfolding file_offset_in
file_offset_in-FileOffset h size rva i zero ok all = no_offset
file_offset_in-FileOffset h size rva i (suc n) ok all = elim (Option-cases (h.section i)) [
  | inl bad ↦ rw (file_offset_in, bad) no_offset
  | inr (s, here) ↦
      let small =
        test_sections-small h 0 h.number_of_sections i s ok (omega arith) (omega arith) here in
      elim (Bool-cases (
        (leb s.virtual_address rva && ltb rva (section_end s))
        && ltb ((rva + 2 ^ 32 - s.virtual_address + s.pointer_to_raw_data) % 2 ^ 32) size)) [
          | inl inside ↦
              let low : s.virtual_address ≤ rva = ground arith in
              let high : rva < section_end s = ground arith in
              rw (file_offset_in, here, inside)
                (in_section i _ s (omega arith) here low high (offset_exact s rva small low high)
                  (ground arith))
          | inr outside ↦
              rw (file_offset_in, here, outside)
                (file_offset_in-FileOffset h size rva (suc i) n ok (omega arith))
        ]
]

-- Every answer of `FileOffsetFromRVA` for headers that it follows: 0, an address in front of the
-- first section as it is, or for an address inside a section its distance from the start of the
-- section behind the place of the section in the file, computed without wrapping around and below
-- the size of the allocation.
pub file_offset_from_rva-FileOffset :
    (e : Headers) (allocation_size base rva : ℕ) (h : NtHeaders)
    → headers_below e base ≡ some h
    → FileOffset h allocation_size rva (file_offset_from_rva e allocation_size base rva)
unfolding file_offset_from_rva
file_offset_from_rva-FileOffset e size base rva h here = elim (Bool-cases (base == 0)) [
  | inl zero_base ↦ rw (file_offset_from_rva, zero_base) no_offset
  | inr based ↦ elim (Option-cases (is_disguised_pe_header e base)) [
    | inl bad ↦ rw (file_offset_from_rva, based, bad) no_offset
    | inr (false, seen) ↦ rw (file_offset_from_rva, based, seen) no_offset
    | inr (true, seen) ↦ elim (Bool-cases (test_pe_requirements (some h))) [
      | inr refused ↦ rw (file_offset_from_rva, based, seen, here, refused) no_offset
      | inl ok ↦ elim (Option-cases (h.section 0)) [
        | inl bad ↦ rw (file_offset_from_rva, based, seen, here, ok, bad) no_offset
        | inr (s, first) ↦ elim (Bool-cases (ltb rva s.virtual_address)) [
          | inl front ↦
              rw (file_offset_from_rva, based, seen, here, ok, first, front)
                (in_headers s first (ground arith))
          | inr behind ↦
              rw (file_offset_from_rva, based, seen, here, ok, first, behind)
                (file_offset_in-FileOffset h size rva 0 h.number_of_sections (tested h ok)
                  (omega arith))
        ]
      ]
    ]
  ]
]
