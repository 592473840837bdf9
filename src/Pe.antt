-- ===== src/Pe.antt =====
-- CAPE/CAPE.c: the tests for a PE image in memory. The layout of the headers is that of the system:
-- `e_lfanew` and `nt_headers` read them at an address, `none` where the read raises an exception.
pub mod Laws
pub mod Searching
use capemon.Base.{
  ℕ, zero, suc, ◌+◌, ◌-◌, ◌*◌, ◌/◌, ◌%◌, ◌^◌, Bool, true, false, not, ◌&&◌, ◌||◌, Option, none,
  some, ◌==◌, ltb, leb, if◌then◌else◌,
}
use capemon.Scans.{Space, scan_for_access}

-- The fields of `IMAGE_SECTION_HEADER` and `IMAGE_NT_HEADERS` that are read.
pub record Section : Type 0 where
  pub virtual_address : ℕ
  pub virtual_size : ℕ
  pub pointer_to_raw_data : ℕ
  pub size_of_raw_data : ℕ

pub record NtHeaders : Type 0 where
  pub magic : ℕ
  pub number_of_sections : ℕ
  pub size_of_image : ℕ
  pub section : ℕ → Option Section

pub record Headers : Type 0 where
  pub e_lfanew : ℕ → Option ℕ
  pub nt_headers : ℕ → Option NtHeaders

abbrev pub pe_max_size : ℕ
pe_max_size = 0x20000000

abbrev pub pe_min_size : ℕ
pe_min_size = 0x800

abbrev pub pe_max_sections : ℕ
pe_max_sections = 0xFFFF

abbrev pub pe_header_limit : ℕ
pe_header_limit = 0x200

-- `IMAGE_NT_OPTIONAL_HDR32_MAGIC` and `IMAGE_NT_OPTIONAL_HDR64_MAGIC`
unfoldable pub is_magic : ℕ → Bool
is_magic magic = (magic == 0x10B) || (magic == 0x20B)

-- The sizes and places of a section are not too large.
unfoldable pub is_small : Section → Bool
is_small s =
    not (ltb pe_max_size s.pointer_to_raw_data || ltb pe_max_size s.size_of_raw_data)
    && not (ltb pe_max_size s.virtual_address || ltb pe_max_size s.virtual_size)

-- The loop over the sections from `i` on, `n` of them.
unfoldable pub test_sections : NtHeaders → ℕ → ℕ → Bool
test_sections h i zero = true
test_sections h i (suc n) = elim (h.section i) [
  | none ↦ false
  | some s ↦ is_small s && test_sections h (suc i) n
]

unfoldable pub test_pe_requirements : Option NtHeaders → Bool
test_pe_requirements none = false
test_pe_requirements (some h) =
    is_magic h.magic
    && (not ((h.number_of_sections == 0) || ltb pe_max_sections h.number_of_sections)
        && (not ((h.size_of_image == 0) || ltb pe_max_size h.size_of_image)
            && test_sections h 0 h.number_of_sections))

-- `none` is the return of -1.
unfoldable pub is_disguised_pe_header : Headers → ℕ → Option Bool
is_disguised_pe_header e buffer = elim (e.e_lfanew buffer) [
  | none ↦ none
  | some l ↦ some (
      not ((l == 0) || ltb pe_header_limit l)
      && ((l % 4 == 0) && test_pe_requirements (e.nt_headers ((buffer + l) % 2 ^ 64))))
]

-- The headers that `GetMinPESize` and `FileOffsetFromRVA` follow: here `e_lfanew` is below the limit.
unfoldable pub headers_below : Headers → ℕ → Option NtHeaders
headers_below e base = elim (e.e_lfanew base) [
  | none ↦ none
  | some l ↦
      if not (l == 0) && (ltb l pe_header_limit && (l % 4 == 0))
      then e.nt_headers ((base + l) % 2 ^ 64)
      else none
]

-- The end of the last section, as far as it is in the file.
unfoldable pub min_size : NtHeaders → Section → ℕ
min_size h s =
    let size =
      if not (s.pointer_to_raw_data == 0)
      then (s.pointer_to_raw_data + s.size_of_raw_data) % 2 ^ 32
      else if not (s.virtual_address == 0)
      then (s.virtual_address + s.size_of_raw_data) % 2 ^ 32
      else 0 in
    if (s.pointer_to_raw_data == 0) && (s.virtual_address == 0)
    then 0
    else if (size == 0) || ltb h.size_of_image size
    then 0
    else size

unfoldable pub get_min_pe_size : Headers → Bool → ℕ → ℕ
get_min_pe_size e accessible base = if not accessible then 0 else elim (headers_below e base) [
  | none ↦ 0
  | some h ↦
      if not (test_pe_requirements (some h))
      then 0
      else elim (h.section (h.number_of_sections - 1)) [ none ↦ 0 | some s ↦ min_size h s ]
]

unfoldable pub section_end : Section → ℕ
section_end s =
    (s.virtual_address
      + (if ltb s.virtual_size s.size_of_raw_data then s.size_of_raw_data else s.virtual_size))
    % 2 ^ 32

-- The loop of `FileOffsetFromRVA` over the sections from `i` on.
unfoldable pub file_offset_in : NtHeaders → ℕ → ℕ → ℕ → ℕ → ℕ
file_offset_in h allocation_size rva i zero = 0
file_offset_in h allocation_size rva i (suc n) =
    let rest = file_offset_in h allocation_size rva (suc i) n in
    elim (h.section i) [
      | none ↦ 0
      | some s ↦
          let offset = (rva + 2 ^ 32 - s.virtual_address + s.pointer_to_raw_data) % 2 ^ 32 in
          if (leb s.virtual_address rva && ltb rva (section_end s)) && ltb offset allocation_size
          then offset
          else rest
    ]

unfoldable pub file_offset_from_rva : Headers → ℕ → ℕ → ℕ → ℕ
file_offset_from_rva e allocation_size base rva =
    if base == 0 then 0 else elim (is_disguised_pe_header e base) [
      | none ↦ 0
      | some false ↦ 0
      | some true ↦ elim (headers_below e base) [
        | none ↦ 0
        | some h ↦ if not (test_pe_requirements (some h)) then 0 else elim (h.section 0) [
          | none ↦ 0
          | some s ↦
              if ltb rva s.virtual_address
              then rva
              else file_offset_in h allocation_size rva 0 h.number_of_sections
        ]
      ]
    ]

-- The loop of `ScanForDisguisedPE` from `buffer + p` on, `n` rounds.
unfoldable pub scan_headers : Headers → ℕ → ℕ → ℕ → Option ℕ
scan_headers e buffer p zero = none
scan_headers e buffer p (suc n) = elim (is_disguised_pe_header e ((buffer + p) % 2 ^ 64)) [
  | none ↦ none
  | some false ↦ scan_headers e buffer (suc p) n
  | some true ↦ some ((buffer + p) % 2 ^ 64)
]

-- `none` is the return of 0. Where fewer than `pe_min_size` bytes can be read, the bound of the loop
-- wraps around.
unfoldable pub scan_for_disguised_pe : Space → Headers → ℕ → ℕ → Option ℕ
scan_for_disguised_pe sp e buffer size =
    let accessible_size = scan_for_access sp buffer size in
    let size' = if ltb accessible_size size then accessible_size else size in
    if size == 0
    then none
    else if leb size pe_min_size
    then none
    else scan_headers e buffer 0 ((size' + 2 ^ 64 - pe_min_size) % 2 ^ 64 + 1)
