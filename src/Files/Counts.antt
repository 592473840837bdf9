-- ===== src/Files/Counts.antt =====
-- The counts of logged reads and writes, handle by handle.
use capemon.Base.{
  ℕ, ◌+◌, ◌%◌, ◌^◌, ◌<◌, ◌≡◌, ◌≢◌, refl, ap₂, ◌∙◌, some, List, [], ◌∷◌, ◌==◌, ==_iff, if◌then◌else◌,
  arith, inl, inr, Option-cases, Bool-cases,
}
use capemon.Lookup.{Lookup, lookup_get, lookup_put}
use capemon.Lookup.Laws.{lookup_get-stack_of, lookup_put-stack_of}
use capemon.Files.{FileLog, Files, increment_file_log_read_count, increment_file_log_write_count}

pub data LogUse : Type 0 where
  reads : ℕ → LogUse
  writes : ℕ → LogUse

unfoldable pub log_use : Files → LogUse → Files
log_use s (reads h) = (increment_file_log_read_count s h).0
log_use s (writes h) = (increment_file_log_write_count s h).0

unfoldable pub run_log_uses : Files → List LogUse → Files
run_log_uses s [] = s
run_log_uses s (u ∷ us) = run_log_uses (log_use s u) us

-- How many of the uses read from a handle, and how many write to it.
abbrev pub reads_of : ℕ → List LogUse → ℕ
reads_of h [] = 0
reads_of h (reads k ∷ us) = (if k == h then 1 else 0) + reads_of h us
reads_of h (writes k ∷ us) = reads_of h us

abbrev pub writes_of : ℕ → List LogUse → ℕ
writes_of h [] = 0
writes_of h (reads k ∷ us) = writes_of h us
writes_of h (writes k ∷ us) = (if k == h then 1 else 0) + writes_of h us

-- The counts after some more reads and writes.
abbrev pub counted : FileLog → ℕ → ℕ → FileLog
counted r n m = record {
  read_count = (r.read_count + n) % 2 ^ 32;
  write_count = (r.write_count + m) % 2 ^ 32;
}

module _ {ℓ} {A : Type ℓ} where
  put_self :
      (d : Lookup A) (k size : ℕ) (a v : A)
      → lookup_get d k ≡ some (a, size)
      → lookup_get (lookup_put d k v) k ≡ some (v, size)
  put_self d k size a v there = ground (
    arith,
    lookup_get-stack_of d k,
    lookup_get-stack_of (lookup_put d k v) k,
    lookup_put-stack_of d k k v,
  )

  put_other :
      (d : Lookup A) (k j : ℕ) (v : A) → k ≢ j → lookup_get (lookup_put d k v) j ≡ lookup_get d j
  put_other d k j v differ = ground (
    arith,
    lookup_get-stack_of d j,
    lookup_get-stack_of (lookup_put d k v) j,
    lookup_put-stack_of d k j v,
  )

module _ (s : Files) (h size : ℕ) (r : FileLog)
    (there : lookup_get s.g_file_logs h ≡ some (r, size)) where
  read_self :
      lookup_get (increment_file_log_read_count s h).0.g_file_logs h
      ≡ some (record r { read_count = (r.read_count + 1) % 2 ^ 32 }, size)
  unfolding increment_file_log_read_count
  read_self = rw (increment_file_log_read_count, there) (put_self s.g_file_logs h size r _ there)

  write_self :
      lookup_get (increment_file_log_write_count s h).0.g_file_logs h
      ≡ some (record r { write_count = (r.write_count + 1) % 2 ^ 32 }, size)
  unfolding increment_file_log_write_count
  write_self = rw (increment_file_log_write_count, there) (put_self s.g_file_logs h size r _ there)

module _ (s : Files) (k h : ℕ) (differ : k ≢ h) where
  read_other :
      lookup_get (increment_file_log_read_count s k).0.g_file_logs h ≡ lookup_get s.g_file_logs h
  unfolding increment_file_log_read_count
  read_other = elim (Option-cases (lookup_get s.g_file_logs k)) [
    | inl fresh ↦ rw (increment_file_log_read_count, fresh) refl
    | inr ((r, n), there) ↦
        rw (increment_file_log_read_count, there) (put_other s.g_file_logs k h _ differ)
  ]

  write_other :
      lookup_get (increment_file_log_write_count s k).0.g_file_logs h ≡ lookup_get s.g_file_logs h
  unfolding increment_file_log_write_count
  write_other = elim (Option-cases (lookup_get s.g_file_logs k)) [
    | inl fresh ↦ rw (increment_file_log_write_count, fresh) refl
    | inr ((r, n), there) ↦
        rw (increment_file_log_write_count, there) (put_other s.g_file_logs k h _ differ)
  ]

abbrev counts : ℕ → ℕ → FileLog
counts n m = record { read_count = n; write_count = m }

-- One use counts for its own handle alone.
log_use-counts :
    (s : Files) (u : LogUse) (h size : ℕ) (r : FileLog)
    → r.read_count < 2 ^ 32
    → r.write_count < 2 ^ 32
    → lookup_get s.g_file_logs h ≡ some (r, size)
    → lookup_get (log_use s u).g_file_logs h
      ≡ some (counted r (reads_of h (u ∷ [])) (writes_of h (u ∷ [])), size)
unfolding log_use
log_use-counts s (reads k) h size r small_reads small_writes there = elim (Bool-cases (k == h)) [
  | inl same ↦
      rw (same, (==_iff k h).0 same)
        (read_self s h size r there
          ∙ ap₂ (λ (n m : ℕ). some (counts n m, size)) (omega arith) (omega arith))
  | inr other ↦ rw other (
      read_other s k h (λ e. ground arith)
      ∙ there
      ∙ ap₂ (λ (n m : ℕ). some (counts n m, size)) (omega arith) (omega arith))
]
log_use-counts s (writes k) h size r small_reads small_writes there = elim (Bool-cases (k == h)) [
  | inl same ↦
      rw (same, (==_iff k h).0 same)
        (write_self s h size r there
          ∙ ap₂ (λ (n m : ℕ). some (counts n m, size)) (omega arith) (omega arith))
  | inr other ↦ rw other (
      write_other s k h (λ e. ground arith)
      ∙ there
      ∙ ap₂ (λ (n m : ℕ). some (counts n m, size)) (omega arith) (omega arith))
]

reads_of-cons :
    (h : ℕ) (u : LogUse) (us : List LogUse)
    → reads_of h (u ∷ us) ≡ reads_of h (u ∷ []) + reads_of h us
reads_of-cons h (reads k) us = omega arith
reads_of-cons h (writes k) us = omega arith

writes_of-cons :
    (h : ℕ) (u : LogUse) (us : List LogUse)
    → writes_of h (u ∷ us) ≡ writes_of h (u ∷ []) + writes_of h us
writes_of-cons h (reads k) us = omega arith
writes_of-cons h (writes k) us = omega arith

-- After any sequence of reads and writes on tracked and other handles, the counts of a tracked
-- handle have grown by its own reads and its own writes, modulo 2 ^ 32.
pub run_log_uses_lem :
    (us : List LogUse) (s : Files) (h size : ℕ) (r : FileLog)
    → r.read_count < 2 ^ 32
    → r.write_count < 2 ^ 32
    → lookup_get s.g_file_logs h ≡ some (r, size)
    → lookup_get (run_log_uses s us).g_file_logs h
      ≡ some (counted r (reads_of h us) (writes_of h us), size)
unfolding run_log_uses
run_log_uses_lem [] s h size r small_reads small_writes there =
    there ∙ ap₂ (λ (n m : ℕ). some (counts n m, size)) (omega arith) (omega arith)
run_log_uses_lem (u ∷ us) s h size r small_reads small_writes there =
    run_log_uses_lem us (log_use s u) h size
      (counted r (reads_of h (u ∷ [])) (writes_of h (u ∷ []))) (omega arith) (omega arith)
      (log_use-counts s u h size r small_reads small_writes there)
    ∙ ap₂ (λ (n m : ℕ). some (counts n m, size)) (omega (arith, reads_of-cons h u us))
        (omega (arith, writes_of-cons h u us))
