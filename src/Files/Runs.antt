-- ===== src/Files/Runs.antt =====
-- Any sequence of calls into hook_file.c: the reads stay inside the blocks, and the reports inside
-- the limit.
use capemon.Base.{ℕ, false, Option, none, some, List, [], ◌∷◌, length}
use capemon.Files.{
  Files, Setting, add_file_to_log_tracking, increment_file_log_read_count,
  increment_file_log_write_count, remove_file_from_log_tracking, new_file_path, cache_file,
  file_write, file_close, file_handle_terminate, handle_duplicate,
}

-- A call by a hook; `cache_file` is always given the length of its path.
pub data FileCall : Type 0 where
  cache : ℕ → List ℕ → ℕ → FileCall
  write : ℕ → FileCall
  close : ℕ → FileCall
  duplicate : ℕ → ℕ → FileCall
  path_used : List ℕ → FileCall
  terminate : ℕ → FileCall
  log_track : ℕ → FileCall
  log_untrack : ℕ → FileCall
  log_read : ℕ → FileCall
  log_write : ℕ → FileCall

module _ (e : Setting) where
  unfoldable pub file_call : Files → FileCall → Option Files
  file_call s (cache h path attributes) = some (cache_file e s h path (length path) attributes)
  file_call s (write h) = some (file_write e s h)
  file_call s (close h) = file_close e s h
  file_call s (duplicate old new) = some (handle_duplicate s old new)
  file_call s (path_used path) = some (new_file_path e s path)
  file_call s (terminate stray) = file_handle_terminate e s stray
  file_call s (log_track h) = some (add_file_to_log_tracking s h)
  file_call s (log_untrack h) = some (remove_file_from_log_tracking s h)
  file_call s (log_read h) = some (increment_file_log_read_count s h).0
  file_call s (log_write h) = some (increment_file_log_write_count s h).0

  unfoldable pub run_file_calls : Files → List FileCall → Option Files
  run_file_calls s [] = some s
  run_file_calls s (c ∷ cs) = elim (file_call s c) [ none ↦ none | some s' ↦ run_file_calls s' cs ]

-- The state at load, before `file_init`.
abbrev pub no_files : Files
no_files = record {
  g_files = [];
  g_file_logs = [];
  dropped_count = 0;
  dropped_limit_reached = false;
  files_dumped = false;
  sent = [];
}
