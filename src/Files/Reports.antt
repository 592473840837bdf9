-- ===== src/Files/Reports.antt =====
-- What a report of an open file says, and when it reads outside the block.
use capemon.Base.{
  ℕ, suc, ◌+◌, ◌%◌, ◌*◌, ◌/◌, ◌^◌, ◌<◌, ◌≡◌, ◌≢◌, refl, ap, ◌∙◌, sym, true, false, none, some, List,
  [], ◌∷◌, leb, ==_iff, arith, length, take,
}
use capemon.Lookup.{Entry, Lookup, lookup_add, lookup_get, lookup_put, lookup_del}
use capemon.Lookup.Laws.{lookup_get-stack_of, lookup_del-stack_of}
use capemon.Utf8.Strings.{exactly_units-length}
use capemon.Files.{
  FileRecord, Files, Setting, wcsncpy, starts_with_drive, new_file, report_record, cache_file,
  file_write, file_close, duplicate_entry, handle_duplicate,
}
use capemon.Files.Calls.{file_close-found, handle_duplicate-IsFiles}
use capemon.Files.Records.{IsFiles, length-wcsncpy}

take-wcsncpy : (path : List ℕ) → take (length path) (wcsncpy path (suc (length path))) ≡ path
unfolding wcsncpy
take-wcsncpy [] = refl
take-wcsncpy (c ∷ path) = ap (◌∷◌ c) (take-wcsncpy path)

module _ {ℓ} {A : Type ℓ} where
  duplicate_entry-found :
      (zeroed : A) (d : Lookup A) (old new size : ℕ) (a : A)
      → lookup_get d old ≡ some (a, size)
      → duplicate_entry zeroed d old new ≡ record { id = new; size = size; block = a } ∷ d
  unfolding duplicate_entry lookup_add lookup_put
  duplicate_entry-found zeroed d old new size a there =
      rw (duplicate_entry, there, (==_iff new new).1 refl) refl

  get_behind :
      (k j size : ℕ) (a : A) (d : Lookup A)
      → k ≢ j
      → lookup_get (record { id = k; size = size; block = a } ∷ d) j ≡ lookup_get d j
  unfolding lookup_get
  get_behind k j size a d differ = ground arith

module _ (e : Setting) where
  drive_path :
      (c : ℕ) (path : List ℕ)
      → e.isalpha c ≡ true
      → starts_with_drive e.isalpha (wcsncpy (c ∷ (b':' ∷ path)) (suc (length (c ∷ (b':' ∷ path)))))
        ≡ some true
  unfolding starts_with_drive wcsncpy
  drive_path c path alpha = rw alpha refl

  cached : List ℕ → ℕ → FileRecord
  cached path attributes = record {
    attributes = attributes;
    length = length path;
    filename = wcsncpy path (suc (length path));
  }

  cache_file-fresh :
      (s : Files) (h attributes : ℕ) (path : List ℕ)
      → lookup_get s.g_files h ≡ none
      → cache_file e s h path (length path) attributes ≡ record s {
        g_files =
            record { id = h; size = 18 + length path * 2; block = cached path attributes }
            ∷ s.g_files;
      }
  unfolding cache_file cached lookup_add lookup_put
  cache_file-fresh s h attributes path fresh = rw (cache_file, fresh, (==_iff h h).1 refl) refl

  report_record-cached :
      (s : Files) (c attributes : ℕ) (path : List ℕ)
      → s.dropped_count < e.dropped_limit
      → e.isalpha c ≡ true
      → length path < 32766
      → report_record e s (cached (c ∷ (b':' ∷ path)) attributes)
        ≡ some
            (record s { dropped_count = suc s.dropped_count; sent = (c ∷ (b':' ∷ path)) ∷ s.sent })
  unfolding report_record new_file cached
  report_record-cached s c attributes path room alpha short =
      let full = c ∷ (b':' ∷ path) in
      let field : length full % 2 ^ 16 * 2 % 2 ^ 16 / 2 ≡ length full = omega arith in
      let free : leb e.dropped_limit s.dropped_count ≡ false = ground arith in
      let copy = wcsncpy full (suc (length full)) in
      let read =
        exactly_units-length (length full) copy
          (omega (arith, length-wcsncpy full (suc (length full)))) in
      rw (report_record, new_file, free, drive_path c path alpha, field, read, take-wcsncpy full)
        refl

  file_close-cached :
      (s : Files) (h c attributes size : ℕ) (path : List ℕ)
      → s.dropped_count < e.dropped_limit
      → e.isalpha c ≡ true
      → length path < 32766
      → let full = c ∷ (b':' ∷ path) in
        let r : Entry FileRecord = record { id = h; size = size; block = cached full attributes } in
        file_close e (record s { g_files = r ∷ s.g_files }) h
        ≡ some (record s { dropped_count = suc s.dropped_count; sent = full ∷ s.sent })
  unfolding file_close lookup_get lookup_del
  file_close-cached s h c attributes size path room alpha short =
      let here = (==_iff h h).1 refl in
      let r : Entry FileRecord = record {
        id = h;
        size = size;
        block = cached (c ∷ (b':' ∷ path)) attributes;
      } in
      rw
        (
          file_close,
          lookup_get,
          here,
          report_record-cached (record s { g_files = r ∷ s.g_files }) c attributes path room alpha
              short,
          lookup_del,
          here,
        )
        refl

  -- Closing a file that was cached under a fresh handle with a path on a drive, of less than 32768
  -- characters, while the limit is not reached, reports just that path and leaves no trace of the
  -- handle.
  file_close-cache_file :
      (s : Files) (h c attributes : ℕ) (path : List ℕ)
      → lookup_get s.g_files h ≡ none
      → s.dropped_count < e.dropped_limit
      → e.isalpha c ≡ true
      → length path < 32766
      → let full = c ∷ b':' ∷ path in
        file_close e (cache_file e s h full (length full) attributes) h
        ≡ some (record s { dropped_count = suc s.dropped_count; sent = full ∷ s.sent })
  file_close-cache_file s h c attributes path fresh room alpha short =
      ap (λ (t : Files). file_close e t h)
        (cache_file-fresh s h attributes (c ∷ (b':' ∷ path)) fresh)
      ∙ file_close-cached s h c attributes _ path room alpha short

  unseen : FileRecord
  unseen = record { attributes = 0; length = 0; filename = e.padding }

  report_record-unseen :
      (s : Files)
      → e.padding ≡ []
      → s.dropped_count < e.dropped_limit
      → report_record e s unseen ≡ none
  unfolding report_record new_file starts_with_drive unseen
  report_record-unseen s bare room =
      let free : leb e.dropped_limit s.dropped_count ≡ false = ground arith in
      rw (report_record, new_file, free, bare) refl

  file_close-unseen :
      (s : Files) (h : ℕ)
      → e.padding ≡ []
      → s.dropped_count < e.dropped_limit
      → let r : Entry FileRecord = record { id = h; size = 16; block = unseen } in
        file_close e (record s { g_files = r ∷ s.g_files }) h ≡ none
  unfolding file_close lookup_get
  file_close-unseen s h bare room =
      let r : Entry FileRecord = record { id = h; size = 16; block = unseen } in
      rw
        (
          file_close,
          lookup_get,
          (==_iff h h).1 refl,
          report_record-unseen (record s { g_files = r ∷ s.g_files }) bare room,
        )
        refl

  file_write-fresh :
      (s : Files) (h : ℕ)
      → lookup_get s.g_files h ≡ none
      → file_write e s h
        ≡ record s { g_files = record { id = h; size = 16; block = unseen } ∷ s.g_files }
  unfolding file_write lookup_add unseen
  file_write-fresh s h fresh = rw (file_write, fresh) refl

  -- A 32-bit build has no padding behind a block: there, closing a handle that only `file_write` has
  -- seen reads outside the block, while the limit is not reached.
  pub file_close-file_write :
      (s : Files) (h : ℕ)
      → e.padding ≡ []
      → lookup_get s.g_files h ≡ none
      → s.dropped_count < e.dropped_limit
      → file_close e (file_write e s h) h ≡ none
  file_close-file_write s h bare fresh room =
      ap (λ (t : Files). file_close e t h) (file_write-fresh s h fresh)
      ∙ file_close-unseen s h bare room

  -- After a duplication, closing the old handle of a readable record runs to its end, and the new
  -- handle still stands for the record.
  pub file_close-handle_duplicate :
      (s : Files) (old new size : ℕ) (r : FileRecord)
      → IsFiles e s
      → old ≢ new
      → lookup_get s.g_files old ≡ some (r, size)
      → (s' : Files) × (file_close e (handle_duplicate s old new) old ≡ some s')
        × (lookup_get s'.g_files new ≡ some (r, size))
  file_close-handle_duplicate s old new size r good differ there =
      let s1 = handle_duplicate s old new in
      let good1 = handle_duplicate-IsFiles e s old new good in
      let files : s1.g_files ≡ record { id = new; size = size; block = r } ∷ s.g_files =
        unfold handle_duplicate in duplicate_entry-found _ s.g_files old new size r there in
      let stays : lookup_get s1.g_files old ≡ some (r, size) =
        ap (λ (d : Lookup FileRecord). lookup_get d old) files
        ∙ get_behind new old size r s.g_files (λ e. differ (sym e))
        ∙ there in
      let (s', runs, same, good') = file_close-found e s1 old size r good1 stays in
      (
        s',
        runs,
        ground (
          arith,
          same,
          files,
          lookup_get-stack_of s'.g_files new,
          lookup_del-stack_of s1.g_files old new,
        ),
      )
