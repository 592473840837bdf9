-- ===== src/Pe/Searching.antt =====
-- The search for the header of an image.
use capemon.Base.{
  ℕ, zero, suc, ◌+◌, ◌-◌, ◌%◌, ◌^◌, ◌≤◌, ◌<◌, ◌≡◌, ap, sym, ◌∙◌, true, false, Option, none, some,
  ◌==◌, ltb, leb, if◌then◌else◌, arith, Option-cases, inl, inr,
}
use native.Mathlib.Decide.{ℕ_discrete}
use capemon.Scans.{Space, scan_for_access}
use capemon.Pe.{Headers, pe_min_size, is_disguised_pe_header, scan_headers, scan_for_disguised_pe}

-- No header from `low` to `high`.
abbrev pub IsPlain : Headers → ℕ → ℕ → ℕ → Type 0
IsPlain e buffer low high =
    (p : ℕ) → low ≤ p → p < high → is_disguised_pe_header e ((buffer + p) % 2 ^ 64) ≡ some false

-- The search from `low` to `high` ends at the first header, at the first exception, or at the end.
pub data Searched (e : Headers) (buffer low high : ℕ) : Option ℕ → Type 0 where
  header_at :
      (p : ℕ)
      → low ≤ p
      → p < high
      → is_disguised_pe_header e ((buffer + p) % 2 ^ 64) ≡ some true
      → IsPlain e buffer low p
      → Searched e buffer low high (some ((buffer + p) % 2 ^ 64))
  exception_at :
      (p : ℕ)
      → low ≤ p
      → p < high
      → is_disguised_pe_header e ((buffer + p) % 2 ^ 64) ≡ none
      → IsPlain e buffer low p
      → Searched e buffer low high none
  no_header : IsPlain e buffer low high → Searched e buffer low high none

IsPlain-below :
    (e : Headers) (buffer p high : ℕ)
    → is_disguised_pe_header e ((buffer + p) % 2 ^ 64) ≡ some false
    → IsPlain e buffer (suc p) high
    → IsPlain e buffer p high
IsPlain-below e buffer p high here later q a b = elim (ℕ_discrete p q) [
  | yes same ↦ ap (λ (k : ℕ). is_disguised_pe_header e ((buffer + k) % 2 ^ 64)) (sym same) ∙ here
  | no differ ↦ later q (omega arith) b
]

scan_headers-Searched :
    (e : Headers) (buffer p n high : ℕ)
    → p + n ≡ high
    → Searched e buffer p high (scan_headers e buffer p n)
unfolding scan_headers
scan_headers-Searched e buffer p zero high h = no_header (λ q a b. absurd (omega arith))
scan_headers-Searched e buffer p (suc n) high h =
    elim (Option-cases (is_disguised_pe_header e ((buffer + p) % 2 ^ 64))) [
      | inl bad ↦
          rw (scan_headers, bad)
            (exception_at p (omega arith) (omega arith) bad (λ q a b. absurd (omega arith)))
      | inr (true, seen) ↦
          rw (scan_headers, seen)
            (header_at p (omega arith) (omega arith) seen (λ q a b. absurd (omega arith)))
      | inr (false, plain) ↦
          rw (scan_headers, plain)
            (go plain (scan_headers-Searched e buffer (suc p) n high (omega arith)))
    ]
  where
    go :
        {r : Option ℕ}
        → is_disguised_pe_header e ((buffer + p) % 2 ^ 64) ≡ some false
        → Searched e buffer (suc p) high r
        → Searched e buffer p high r
    go plain (header_at q a b seen before) =
        header_at q (omega arith) b seen (IsPlain-below e buffer p q plain before)
    go plain (exception_at q a b bad before) =
        exception_at q (omega arith) b bad (IsPlain-below e buffer p q plain before)
    go plain (no_header all) = no_header (IsPlain-below e buffer p high plain all)

abbrev pub smaller : ℕ → ℕ → ℕ
smaller a b = if ltb a b then a else b

-- Where more than 0x800 bytes are asked for and at least as many can be read, `ScanForDisguisedPE`
-- answers the first place that is taken for a header among those with 0x800 readable bytes from it on,
-- and otherwise nothing, if it has met an exception first or there is no such place.
pub scan_for_disguised_pe-Searched :
    (sp : Space) (e : Headers) (buffer size : ℕ)
    → pe_min_size < size
    → size < 2 ^ 64
    → pe_min_size ≤ scan_for_access sp buffer size
    → Searched e buffer 0
        (smaller (scan_for_access sp buffer size) size - pe_min_size + 1)
        (scan_for_disguised_pe sp e buffer size)
unfolding scan_for_disguised_pe
scan_for_disguised_pe-Searched sp e buffer size large fits readable =
    let s0 : (size == 0) ≡ false = ground arith in
    let sm : leb size pe_min_size ≡ false = ground arith in
    let rounds : (smaller (scan_for_access sp buffer size) size + 2 ^ 64 - pe_min_size) % 2 ^ 64 + 1
        ≡ smaller (scan_for_access sp buffer size) size - pe_min_size + 1 =
      ground arith in
    rw (scan_for_disguised_pe, s0, sm, rounds) (scan_headers-Searched e buffer 0 _ _ (omega arith))
