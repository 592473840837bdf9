-- ===== src/Scans.antt =====
-- CAPE/CAPE.c: scans of memory for data. Memory is a function from addresses to bytes, and `faults`
-- says where a read raises an exception. An `int` that is returned is its 32-bit pattern.
pub mod Laws
use capemon.Base.{
  ℕ, zero, suc, ◌+◌, ◌-◌, ◌*◌, ◌/◌, ◌%◌, ◌^◌, Bool, true, false, not, ◌==◌, ltb, if◌then◌else◌,
  Memory,
}

-- What the system says: where reads fault, which addresses it has mapped, the size of the
-- allocation around an address, and the size of a page.
pub record Space : Type 0 where
  pub memory : Memory
  pub faults : ℕ → Bool
  pub is_address_accessible : ℕ → Bool
  pub get_allocation_size : ℕ → ℕ
  pub page_size : ℕ

-- How a loop over bytes ends.
pub data Scan : Type 0 where
  found : ℕ → Scan
  exception : Scan
  nothing : Scan

module _ (e : Space) where
  -- The bytes at `buffer + p`, `buffer + p + 1`, ..., `n` of them.
  unfoldable pub scan_up : ℕ → ℕ → ℕ → Scan
  scan_up buffer p zero = nothing
  scan_up buffer p (suc n) =
      let rest = scan_up buffer (suc p) n in
      if e.faults (buffer + p)
      then exception
      else if e.memory (buffer + p) == 0
      then rest
      else found p

  unfoldable pub scan_for_non_zero : ℕ → ℕ → ℕ
  scan_for_non_zero buffer size =
      if buffer == 0
      then 0
      else if size == 0
      then 0
      else if not (e.is_address_accessible buffer)
      then 0
      else elim (scan_up buffer 0 size) [
        | found p ↦ if p == 0 then 1 else p % 2 ^ 32
        | exception ↦ 0
        | nothing ↦ 0
      ]

  -- The bytes at `buffer + p`, ..., down to `buffer + 1`.
  unfoldable pub scan_down : ℕ → ℕ → Scan
  scan_down buffer zero = nothing
  scan_down buffer (suc p) =
      let rest = scan_down buffer p in
      if e.faults (buffer + suc p)
      then exception
      else if e.memory (buffer + suc p) == 0
      then rest
      else found (suc p)

  unfoldable pub reverse_scan_for_non_zero : ℕ → ℕ → ℕ
  reverse_scan_for_non_zero buffer size =
      if buffer == 0
      then 0
      else if size == 0
      then 0
      else if not (e.is_address_accessible ((buffer + size - 1) % 2 ^ 64))
      then 0
      else elim (scan_down buffer (size - 1)) [
        | found p ↦ (p % 2 ^ 32 + 1) % 2 ^ 32
        | exception ↦ 0
        | nothing ↦ 0
      ]

  unfoldable pub get_page_address : ℕ → ℕ
  get_page_address address =
      if address == 0
      then 0
      else if e.page_size == 0
      then 0
      else address / e.page_size * e.page_size

  -- All bytes of the page but the last.
  unfoldable pub scan_page_for_non_zero : ℕ → ℕ
  scan_page_for_non_zero address =
      if address == 0
      then 0
      else if e.page_size == 0
      then 0
      else elim (scan_up (address / e.page_size * e.page_size) 0 (e.page_size - 1)) [
        | found p ↦ 1
        | exception ↦ 0
        | nothing ↦ 0
      ]

  -- How many bytes from `buffer + p` on can be read, of `n`.
  unfoldable pub readable_from : ℕ → ℕ → ℕ → ℕ
  readable_from buffer p zero = p
  readable_from buffer p (suc n) =
      let rest = readable_from buffer (suc p) n in if e.faults (buffer + p) then p else rest

  unfoldable pub scan_for_access : ℕ → ℕ → ℕ
  scan_for_access buffer size =
      let allocation_size = e.get_allocation_size buffer in
      if buffer == 0
      then 0
      else readable_from buffer 0 (if ltb allocation_size size then allocation_size else size)
