-- ===== src/Files/Records.antt =====
-- What makes a record of an open file safe to report, and that a report of one is a state.
use capemon.Base.{
  ℕ, zero, suc, ◌*◌, ◌/◌, ◌%◌, ◌^◌, ◌≤◌, ◌≡◌, refl, ap, Bool, true, false, some, List, [], ◌∷◌,
  ◌==◌, leb, arith, length, take, inl, inr, Bool-cases,
}
use capemon.Lookup.Blocks.{Blocks}
use capemon.Utf8.Strings.{exactly_units-length}
use capemon.Files.{FileRecord, Files, Setting, wcsncpy, starts_with_drive, new_file, report_record}

pub length-wcsncpy : (src : List ℕ) (n : ℕ) → length (wcsncpy src n) ≡ n
unfolding wcsncpy
length-wcsncpy src zero = refl
length-wcsncpy [] (suc n) = ap suc (length-wcsncpy [] n)
length-wcsncpy (c ∷ src) (suc n) = ap suc (length-wcsncpy src n)

-- What can be read at `filename` covers the drive test and the length.
abbrev pub StartsReadable : (ℕ → Bool) → List ℕ → Type 0
StartsReadable isalpha [] = ⊥
StartsReadable isalpha (c ∷ []) = isalpha c ≡ false
StartsReadable isalpha (c ∷ (d ∷ rest)) = Unit

pub record IsReadable (isalpha : ℕ → Bool) (r : FileRecord) : Type 0 where
  pub starts : StartsReadable isalpha r.filename
  pub covers : r.length % 32768 ≤ length r.filename

-- The counts of reports agree and keep to the limit, and every record is readable.
pub record IsFiles (e : Setting) (s : Files) : Type 0 where
  pub counted : length s.sent ≡ s.dropped_count
  pub limited : s.dropped_count ≤ e.dropped_limit
  pub readable : Blocks (IsReadable e.isalpha) s.g_files

starts_with_drive-total :
    (isalpha : ℕ → Bool) (str : List ℕ)
    → StartsReadable isalpha str
    → (b : Bool) × (starts_with_drive isalpha str ≡ some b)
unfolding starts_with_drive
starts_with_drive-total isalpha [] good = absurd good
starts_with_drive-total isalpha (c ∷ []) good = (false, rw good refl)
starts_with_drive-total isalpha (c ∷ (d ∷ rest)) good = elim (Bool-cases (isalpha c)) [
  | inl alpha ↦ (d == b':', rw alpha refl)
  | inr other ↦ (false, rw other refl)
]

pub length_field : (n : ℕ) → n % 2 ^ 16 * 2 % 2 ^ 16 / 2 ≡ n % 32768
length_field n = omega arith

module _ (e : Setting) where
  -- Reporting a readable record gives a state, and changes no list.
  pub report_record-total :
      (s : Files) (r : FileRecord)
      → IsFiles e s
      → IsReadable e.isalpha r
      → (s' : Files) × (report_record e s r ≡ some s') × IsFiles e s' × (s'.g_files ≡ s.g_files)
  unfolding report_record new_file
  report_record-total s r good fine =
      let (b, drive) = starts_with_drive-total e.isalpha r.filename fine.starts in
      let read = exactly_units-length (r.length % 32768) r.filename fine.covers in
      elim (Bool-cases (leb e.dropped_limit s.dropped_count)) [
        | inl full ↦ (
          record s { dropped_limit_reached = true },
          rw full refl,
          record { counted = good.counted; limited = good.limited; readable = good.readable },
          refl,
        )
        | inr room ↦ elim (Bool-cases b) [
          | inl is_drive ↦ (
            record s {
              dropped_count = suc s.dropped_count;
              sent = take (r.length % 32768) r.filename ∷ s.sent;
            },
            rw (room, drive, is_drive, length_field r.length, read) refl,
            record {
              counted = ap suc good.counted;
              limited = ground arith;
              readable = good.readable;
            },
            refl,
          )
          | inr other ↦ (s, rw (room, drive, other) refl, good, refl)
        ]
      ]
