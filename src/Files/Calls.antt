-- ===== src/Files/Calls.antt =====
-- Each call into hook_file.c runs to its end from a state whose records are readable, and keeps it so.
use capemon.Base.{
  ℕ, suc, ◌≡◌, refl, ap, true, false, some, List, [], ◌∷◌, ◌==◌, leb, arith, length, inl, inr,
  Option-cases, Bool-cases,
}
use capemon.Lookup.{Lookup, lookup_add, lookup_get, lookup_del}
use capemon.Lookup.Blocks.{Blocks, lookup_get-Blocks, lookup_del-Blocks, lookup_put-add-Blocks}
use capemon.Files.{
  FileRecord, FileLog, Files, Setting, add_file_to_log_tracking, increment_file_log_read_count,
  increment_file_log_write_count, remove_file_from_log_tracking, wcsncpy, new_file_path, cache_file,
  file_write, file_close, ids, terminate_loop, file_handle_terminate, duplicate_entry,
  handle_duplicate,
}
use capemon.Files.Records.{StartsReadable, IsReadable, IsFiles, length-wcsncpy, report_record-total}

module _ (e : Setting) where
  -- Closing a handle that has a record.
  pub file_close-found :
      (s : Files) (h n : ℕ) (r : FileRecord)
      → IsFiles e s
      → lookup_get s.g_files h ≡ some (r, n)
      → (s' : Files) × (file_close e s h ≡ some s')
        × (s'.g_files ≡ lookup_del s.g_files h)
        × IsFiles e s'
  unfolding file_close
  file_close-found s h n r good there =
      let fine = lookup_get-Blocks (IsReadable e.isalpha) s.g_files h r n good.readable there in
      let (s', runs, good', same) = report_record-total e s r good fine in
      (
        record s' { g_files = lookup_del s'.g_files h },
        rw (file_close, there, runs) refl,
        ap (λ (d : Lookup FileRecord). lookup_del d h) same,
        record {
          counted = good'.counted;
          limited = good'.limited;
          readable = lookup_del-Blocks (IsReadable e.isalpha) s'.g_files h good'.readable;
        },
      )

  pub file_close-total :
      (s : Files) (h : ℕ) → IsFiles e s → (s' : Files) × (file_close e s h ≡ some s') × IsFiles e s'
  unfolding file_close
  file_close-total s h good = elim (Option-cases (lookup_get s.g_files h)) [
    | inl none_there ↦ (s, rw (file_close, none_there) refl, good)
    | inr ((r, n), there) ↦
        let (s', runs, same, good') = file_close-found s h n r good there in (s', runs, good')
  ]

  terminate_loop-total :
      (hs : List ℕ) (s : Files)
      → IsFiles e s
      → (s' : Files) × (terminate_loop e s hs ≡ some s') × IsFiles e s'
  unfolding terminate_loop
  terminate_loop-total [] s good = (s, refl, good)
  terminate_loop-total (h ∷ hs) s good = elim (Bool-cases (h == 0)) [
    | inl blank ↦
        let (s', runs, good') = terminate_loop-total hs s good in
        (s', rw (terminate_loop, blank) runs, good')
    | inr handle ↦ elim (Option-cases (lookup_get s.g_files h)) [
      | inl none_there ↦
          let (s', runs, good') = terminate_loop-total hs s good in
          (s', rw (terminate_loop, handle, none_there) runs, good')
      | inr ((r, n), there) ↦
          let fine = lookup_get-Blocks (IsReadable e.isalpha) s.g_files h r n good.readable there in
          let (s1, reports, good1, same) = report_record-total e s r good fine in
          let (s', runs, good') = terminate_loop-total hs s1 good1 in
          (s', rw (terminate_loop, handle, there, reports) runs, good')
    ]
  ]

  pub file_handle_terminate-total :
      (s : Files) (stray : ℕ)
      → IsFiles e s
      → (s' : Files) × (file_handle_terminate e s stray ≡ some s') × IsFiles e s'
  unfolding file_handle_terminate terminate_loop
  file_handle_terminate-total s stray good = elim (Bool-cases s.files_dumped) [
    | inl again ↦ (s, rw again refl, good)
    | inr first ↦
        let (s', runs, good') = terminate_loop-total (stray ∷ ids s.g_files) s good in
        (
          record s' { files_dumped = true },
          rw (file_handle_terminate, first, runs) refl,
          record { counted = good'.counted; limited = good'.limited; readable = good'.readable },
        )
  ]

  pub new_file_path-IsFiles :
      (s : Files) (path : List ℕ) → IsFiles e s → IsFiles e (new_file_path e s path)
  unfolding new_file_path
  new_file_path-IsFiles s path good = elim (Bool-cases (leb e.dropped_limit s.dropped_count)) [
    | inl full ↦
        rw full
          (record { counted = good.counted; limited = good.limited; readable = good.readable })
    | inr room ↦
        rw room (record {
          counted = ap suc good.counted;
          limited = ground arith;
          readable = good.readable;
        })
  ]

  -- A change of the list of records alone.
  pub with_files :
      (s : Files) (d : Lookup FileRecord)
      → IsFiles e s
      → Blocks (IsReadable e.isalpha) d
      → IsFiles e (record s { g_files = d })
  with_files s d good all = record {
    counted = good.counted;
    limited = good.limited;
    readable = all;
  }

  cached-starts :
      (path : List ℕ)
      → e.isalpha 0 ≡ false
      → StartsReadable e.isalpha (wcsncpy path (suc (length path)))
  unfolding wcsncpy
  cached-starts [] nul = nul
  cached-starts (c ∷ []) nul = tt
  cached-starts (c ∷ (d ∷ path)) nul = tt

  pub cache_file-IsFiles :
      (s : Files) (h : ℕ) (path : List ℕ) (attributes : ℕ)
      → e.isalpha 0 ≡ false
      → IsFiles e s
      → IsFiles e (cache_file e s h path (length path) attributes)
  unfolding cache_file
  cache_file-IsFiles s h path attributes nul good = elim (Option-cases (lookup_get s.g_files h)) [
    | inr ((r, n), there) ↦ rw (cache_file, there) good
    | inl fresh ↦
        rw (cache_file, fresh)
          (with_files s _ good (
            lookup_put-add-Blocks (IsReadable e.isalpha) _ s.g_files h _ _ good.readable (record {
              starts = cached-starts path nul;
              covers = omega (arith, length-wcsncpy path (suc (length path)));
            })))
  ]

  pub file_write-IsFiles :
      (s : Files) (h : ℕ)
      → StartsReadable e.isalpha e.padding
      → IsFiles e s
      → IsFiles e (file_write e s h)
  unfolding file_write lookup_add
  file_write-IsFiles s h pad good = elim (Option-cases (lookup_get s.g_files h)) [
    | inr ((r, n), there) ↦ rw (file_write, there) good
    | inl fresh ↦
        rw (file_write, fresh)
          (with_files s _ good (record { starts = pad; covers = omega arith }, good.readable))
  ]

  pub handle_duplicate-IsFiles :
      (s : Files) (old new : ℕ) → IsFiles e s → IsFiles e (handle_duplicate s old new)
  unfolding handle_duplicate duplicate_entry
  handle_duplicate-IsFiles s old new good = elim (Option-cases (lookup_get s.g_files old)) [
    | inl fresh ↦
        rw (handle_duplicate, duplicate_entry, fresh)
          (record { counted = good.counted; limited = good.limited; readable = good.readable })
    | inr ((r, n), there) ↦
        let fine = lookup_get-Blocks (IsReadable e.isalpha) s.g_files old r n good.readable there in
        rw (handle_duplicate, duplicate_entry, there)
          (record {
            counted = good.counted;
            limited = good.limited;
            readable =
                lookup_put-add-Blocks (IsReadable e.isalpha) _ s.g_files new n r good.readable fine;
          })
  ]

  with_logs :
      (s : Files) (d : Lookup FileLog) → IsFiles e s → IsFiles e (record s { g_file_logs = d })
  with_logs s d good = record {
    counted = good.counted;
    limited = good.limited;
    readable = good.readable;
  }

  pub add_file_to_log_tracking-IsFiles :
      (s : Files) (h : ℕ) → IsFiles e s → IsFiles e (add_file_to_log_tracking s h)
  unfolding add_file_to_log_tracking
  add_file_to_log_tracking-IsFiles s h good = elim (Option-cases (lookup_get s.g_file_logs h)) [
    | inl fresh ↦ rw (add_file_to_log_tracking, fresh) (with_logs s _ good)
    | inr (r, there) ↦ rw (add_file_to_log_tracking, there) good
  ]

  pub remove_file_from_log_tracking-IsFiles :
      (s : Files) (h : ℕ) → IsFiles e s → IsFiles e (remove_file_from_log_tracking s h)
  unfolding remove_file_from_log_tracking
  remove_file_from_log_tracking-IsFiles s h good = with_logs s _ good

  pub increment_file_log_read_count-IsFiles :
      (s : Files) (h : ℕ) → IsFiles e s → IsFiles e (increment_file_log_read_count s h).0
  unfolding increment_file_log_read_count
  increment_file_log_read_count-IsFiles s h good =
      elim (Option-cases (lookup_get s.g_file_logs h)) [
        | inl fresh ↦ rw (increment_file_log_read_count, fresh) good
        | inr ((r, n), there) ↦ rw (increment_file_log_read_count, there) (with_logs s _ good)
      ]

  pub increment_file_log_write_count-IsFiles :
      (s : Files) (h : ℕ) → IsFiles e s → IsFiles e (increment_file_log_write_count s h).0
  unfolding increment_file_log_write_count
  increment_file_log_write_count-IsFiles s h good =
      elim (Option-cases (lookup_get s.g_file_logs h)) [
        | inl fresh ↦ rw (increment_file_log_write_count, fresh) good
        | inr ((r, n), there) ↦ rw (increment_file_log_write_count, there) (with_logs s _ good)
      ]
