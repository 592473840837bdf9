-- ===== src/Tests/Scans.antt =====
-- Scans of a small memory, and of an image in it.
use capemon.Base.{
  ◌+◌, ◌-◌, ◌≤◌, ◌≡◌, ◌≢◌, refl, true, none, some, ◌==◌, if◌then◌else◌, leb, ltb, arith,
}
use capemon.Scans.{
  Space, scan_up, scan_down, scan_for_non_zero, reverse_scan_for_non_zero, scan_for_access,
}
use capemon.Scans.Laws.{FoundLast, readable_from-all, reverse_scan_for_non_zero-FoundLast}
use capemon.Pe.{
  Section, NtHeaders, Headers, pe_max_size, pe_min_size, headers_below, is_disguised_pe_header,
  get_min_pe_size, file_offset_from_rva, scan_for_disguised_pe,
}
use capemon.Pe.Laws.{FileOffset, get_min_pe_size_lem, file_offset_from_rva-FileOffset}
use capemon.Pe.Searching.{Searched, smaller, scan_for_disguised_pe-Searched}

-- One byte that is not zero, at 0x1002, and nothing to read from 0x3000 on.
abbrev one_byte : Space
one_byte = record {
  memory = λ a. if a == 0x1002 then 0x41 else 0;
  faults = λ a. leb 0x3000 a;
  is_address_accessible = λ a. ltb a 0x3000;
  get_allocation_size = λ a. 8;
  page_size = 0x1000;
}

reverse_scan_for_non_zero-FoundLast_example :
    FoundLast one_byte 0x1000 8 (reverse_scan_for_non_zero one_byte 0x1000 8)
reverse_scan_for_non_zero-FoundLast_example =
    reverse_scan_for_non_zero-FoundLast one_byte 0x1000 8 (omega arith) (omega arith) (omega arith)
      (omega arith) refl (λ p h. ground arith)

-- The byte is found from both sides; a buffer that starts with it looks empty from behind.
byte_is_found :
    (scan_for_non_zero one_byte 0x1000 8 ≡ 2)
    × (reverse_scan_for_non_zero one_byte 0x1000 8 ≡ 3)
    × (scan_for_non_zero one_byte 0x1002 8 ≡ 1)
    × (reverse_scan_for_non_zero one_byte 0x1002 8 ≡ 0)
unfolding scan_for_non_zero reverse_scan_for_non_zero scan_up scan_down
byte_is_found = (refl, refl, refl, refl)

-- An image at 0x1000 with one section.
abbrev text_section : Section
text_section = record {
  virtual_address = 0x1000;
  virtual_size = 0x300;
  pointer_to_raw_data = 0x400;
  size_of_raw_data = 0x400;
}

abbrev image_headers : NtHeaders
image_headers = record {
  magic = 0x20B;
  number_of_sections = 1;
  size_of_image = 0x2000;
  section = λ i. some text_section;
}

abbrev image : Headers
image = record {
  e_lfanew = λ a. some (if a == 0x1000 then 0x80 else 0);
  nt_headers = λ a. if a == 0x1080 then some image_headers else none;
}

get_min_pe_size_lem_example :
    (get_min_pe_size image true 0x1000 ≢ 0 → is_disguised_pe_header image 0x1000 ≡ some true)
    × (get_min_pe_size image true 0x1000 ≤ pe_max_size)
    × ((h : NtHeaders)
        → headers_below image 0x1000 ≡ some h
        → get_min_pe_size image true 0x1000 ≤ h.size_of_image)
get_min_pe_size_lem_example = get_min_pe_size_lem image true 0x1000

file_offset_from_rva-FileOffset_example :
    FileOffset image_headers 0x2000 0x1010 (file_offset_from_rva image 0x2000 0x1000 0x1010)
file_offset_from_rva-FileOffset_example =
    file_offset_from_rva-FileOffset image 0x2000 0x1000 0x1010 image_headers
      (unfold headers_below in refl)

-- A page of 0x1000 bytes at 0x1000.
abbrev page : Space
page = record one_byte { get_allocation_size = λ a. 0x1000 }

page_readable : scan_for_access page 0x1000 0x1000 ≡ 0x1000
unfolding scan_for_access
page_readable = readable_from-all page 0x1000 0 0x1000 0x1000 (omega arith) (λ p h. ground arith)

scan_for_disguised_pe-Searched_example :
    Searched image 0x1000 0
      (smaller (scan_for_access page 0x1000 0x1000) 0x1000 - pe_min_size + 1)
      (scan_for_disguised_pe page image 0x1000 0x1000)
scan_for_disguised_pe-Searched_example =
    scan_for_disguised_pe-Searched page image 0x1000 0x1000 (omega arith) (omega arith)
      (ground (arith, page_readable))
