-- ===== src/Scans/Laws.antt =====
-- What the scans find.
use native.Mathlib.Decide.{ℕ_discrete}
use capemon.Base.{
  ℕ, zero, suc, ◌+◌, ◌-◌, ◌%◌, ◌^◌, ◌≤◌, ◌<◌, ◌≡◌, ◌≢◌, ap, sym, ◌∙◌, true, false, ◌==◌, ==_iff,
  if◌then◌else◌, arith, Bool-cases, inl, inr,
}
use capemon.Scans.{
  Space, Scan, found, exception, nothing, scan_up, scan_for_non_zero, scan_down,
  reverse_scan_for_non_zero, readable_from,
}

-- No read of the bytes from `low` to `high` faults, and all of them are zero.
abbrev pub IsReadable : Space → ℕ → ℕ → Type 0
IsReadable e buffer size = (p : ℕ) → p < size → e.faults (buffer + p) ≡ false

abbrev pub IsZero : Space → ℕ → ℕ → ℕ → Type 0
IsZero e buffer low high = (p : ℕ) → low ≤ p → p < high → e.memory (buffer + p) ≡ 0

-- The upward scan stops at the first byte that is not zero.
pub data Up (e : Space) (buffer low high : ℕ) : Scan → Type 0 where
  stops :
      (p : ℕ)
      → low ≤ p
      → p < high
      → e.memory (buffer + p) ≢ 0
      → IsZero e buffer low p
      → Up e buffer low high (found p)
  ends : IsZero e buffer low high → Up e buffer low high nothing

-- One more zero byte in front.
IsZero-below :
    (e : Space) (buffer p high : ℕ)
    → e.memory (buffer + p) ≡ 0
    → IsZero e buffer (suc p) high
    → IsZero e buffer p high
IsZero-below e buffer p high here z q a b = elim (ℕ_discrete p q) [
  | yes same ↦ ap (λ (k : ℕ). e.memory (buffer + k)) (sym same) ∙ here
  | no differ ↦ z q (omega arith) b
]

scan_up-Up :
    (e : Space) (buffer p n high : ℕ)
    → p + n ≡ high
    → IsReadable e buffer high
    → Up e buffer p high (scan_up e buffer p n)
unfolding scan_up
scan_up-Up e buffer p zero high h ok = ends (λ q a b. absurd (omega arith))
scan_up-Up e buffer p (suc n) high h ok = elim (Bool-cases (e.memory (buffer + p) == 0)) [
  | inl blank ↦
      rw (scan_up, ok p (omega arith), blank)
        (go ((==_iff _ _).0 blank) (scan_up-Up e buffer (suc p) n high (omega arith) ok))
  | inr data_here ↦
      rw (scan_up, ok p (omega arith), data_here)
        (stops p (omega arith) (omega arith) (ground arith) (λ q a b. absurd (omega arith)))
]
  where
    go : {r : Scan} → e.memory (buffer + p) ≡ 0 → Up e buffer (suc p) high r → Up e buffer p high r
    go blank (stops q a b here before) =
        stops q (omega arith) b here (IsZero-below e buffer p q blank before)
    go blank (ends z) = ends (IsZero-below e buffer p high blank z)

-- The downward scan stops at the last byte that is not zero, and does not look at the first one.
pub data Down (e : Space) (buffer size : ℕ) : Scan → Type 0 where
  stops_down :
      (p : ℕ)
      → 0 < p
      → p < size
      → e.memory (buffer + p) ≢ 0
      → IsZero e buffer (suc p) size
      → Down e buffer size (found p)
  ends_down : IsZero e buffer 1 size → Down e buffer size nothing

scan_down-Down :
    (e : Space) (buffer p size : ℕ)
    → p < size
    → IsReadable e buffer size
    → IsZero e buffer (suc p) size
    → Down e buffer size (scan_down e buffer p)
unfolding scan_down
scan_down-Down e buffer zero size h ok z = ends_down z
scan_down-Down e buffer (suc p) size h ok z = elim (Bool-cases (e.memory (buffer + suc p) == 0)) [
  | inl blank ↦
      rw (scan_down, ok (suc p) h, blank)
        (scan_down-Down e buffer p size (omega arith) ok
          (IsZero-below e buffer (suc p) size ((==_iff _ _).0 blank) z))
  | inr data_here ↦
      rw (scan_down, ok (suc p) h, data_here) (stops_down (suc p) (omega arith) h (ground arith) z)
]

-- What a scan of `size` readable bytes says: nothing was found, and they are all zero; or the place
-- of the first byte that is not zero, where 1 also stands for the place 0.
pub data Found (e : Space) (buffer size : ℕ) : ℕ → Type 0 where
  all_zero : IsZero e buffer 0 size → Found e buffer size 0
  at_start : e.memory buffer ≢ 0 → Found e buffer size 1
  later :
      (p : ℕ)
      → 0 < p
      → p < size
      → e.memory (buffer + p) ≢ 0
      → IsZero e buffer 0 p
      → Found e buffer size p

-- On readable memory of less than 2 ^ 31 bytes, `ScanForNonZero` returns 0 exactly where all bytes
-- are zero, and otherwise the place of the first other byte, with 1 for the very first.
scan_for_non_zero-Found :
    (e : Space) (buffer size : ℕ)
    → buffer ≢ 0
    → 0 < size
    → size < 2 ^ 31
    → e.is_address_accessible buffer ≡ true
    → IsReadable e buffer size
    → Found e buffer size (scan_for_non_zero e buffer size)
unfolding scan_for_non_zero
scan_for_non_zero-Found e buffer size nz some_size small mapped ok =
    let b0 : (buffer == 0) ≡ false = ground arith in
    let s0 : (size == 0) ≡ false = ground arith in
    rw (scan_for_non_zero, b0, s0, mapped) (go (scan_up-Up e buffer 0 size size (omega arith) ok))
  where
    go :
        {r : Scan}
        → Up e buffer 0 size r
        → Found e buffer size
            (elim r [ found p ↦ if p == 0 then 1 else p % 2 ^ 32 | exception ↦ 0 | nothing ↦ 0 ])
    go (ends z) = all_zero z
    go (stops p a b here before) = elim (Bool-cases (p == 0)) [
      | inl first ↦
          let p0 : p ≡ 0 = (==_iff p 0).0 first in
          rw first (at_start (λ z. here (ap e.memory (omega arith) ∙ z)))
      | inr other ↦
          let fits : p % 2 ^ 32 ≡ p = omega arith in
          rw (other, fits) (later p (ground arith) b here before)
    ]

-- What the reverse scan says: no byte behind the first one is other than zero; or one more than the
-- place of the last byte that is.
pub data FoundLast (e : Space) (buffer size : ℕ) : ℕ → Type 0 where
  none_behind : IsZero e buffer 1 size → FoundLast e buffer size 0
  last_at :
      (p : ℕ)
      → 0 < p
      → p < size
      → e.memory (buffer + p) ≢ 0
      → IsZero e buffer (p + 1) size
      → FoundLast e buffer size (p + 1)

-- On readable memory of less than 2 ^ 31 bytes that does not reach the end of the address space,
-- `ReverseScanForNonZero` returns one more than the place of the last byte that is not zero, and 0
-- where all bytes behind the first are zero: the first byte is not looked at.
pub reverse_scan_for_non_zero-FoundLast :
    (e : Space) (buffer size : ℕ)
    → buffer ≢ 0
    → 0 < size
    → size < 2 ^ 31
    → buffer + size ≤ 2 ^ 64
    → e.is_address_accessible (buffer + size - 1) ≡ true
    → IsReadable e buffer size
    → FoundLast e buffer size (reverse_scan_for_non_zero e buffer size)
unfolding reverse_scan_for_non_zero
reverse_scan_for_non_zero-FoundLast e buffer size nz some_size small inside mapped ok =
    let b0 : (buffer == 0) ≡ false = ground arith in
    let s0 : (size == 0) ≡ false = ground arith in
    let whole : (buffer + size - 1) % 2 ^ 64 ≡ buffer + size - 1 = omega arith in
    rw (reverse_scan_for_non_zero, b0, s0, whole, mapped)
      (go
        (scan_down-Down e buffer (size - 1) size (omega arith) ok (λ q a b. absurd (omega arith))))
  where
    go :
        {r : Scan}
        → Down e buffer size r
        → FoundLast e buffer size
            (elim r [ found p ↦ (p % 2 ^ 32 + 1) % 2 ^ 32 | exception ↦ 0 | nothing ↦ 0 ])
    go (ends_down z) = none_behind z
    go (stops_down p a b here behind) =
        let fits : (p % 2 ^ 32 + 1) % 2 ^ 32 ≡ p + 1 = omega arith in
        rw fits (last_at p a b here (λ q c d. behind q (omega arith) d))

-- Where all bytes can be read, `ScanForAccess` counts all of them up to the end of the allocation.
pub readable_from-all :
    (e : Space) (buffer p n size : ℕ)
    → p + n ≡ size
    → IsReadable e buffer size
    → readable_from e buffer p n ≡ size
unfolding readable_from
readable_from-all e buffer p zero size h ok = omega arith
readable_from-all e buffer p (suc n) size h ok =
    rw (readable_from, ok p (omega arith))
      (readable_from-all e buffer (suc p) n size (omega arith) ok)
