-- ===== src/Files.antt =====
-- hook_file.c: the open files whose content is reported when they are closed, and the counts of
-- logged reads and writes. A report (`FILE_NEW`) is kept in the state as the path that is sent.
-- `none` is a read outside a block.
pub mod Records
pub mod Calls
pub mod Runs
pub mod Reports
pub mod Counts
use capemon.Base.{
  ℕ, zero, suc, ◌+◌, ◌*◌, ◌/◌, ◌%◌, ◌^◌, Bool, true, false, Option, none, some, List, [], ◌∷◌, ◌==◌,
  leb, if◌then◌else◌, length, replicate,
}
use capemon.Lookup.{Lookup, lookup_add, lookup_get, lookup_put, lookup_del}
use capemon.Utf8.Strings.{exactly_units}

-- `filename` is all that can be read behind the two numbers.
pub record FileRecord : Type 0 where
  pub attributes : ℕ
  pub length : ℕ
  pub filename : List ℕ

pub record FileLog : Type 0 where
  pub read_count : ℕ
  pub write_count : ℕ

pub record Files : Type 0 where
  pub g_files : Lookup FileRecord
  pub g_file_logs : Lookup FileLog
  pub dropped_count : ℕ
  pub dropped_limit_reached : Bool
  pub files_dumped : Bool
  -- the paths sent as `FILE_NEW`, newest first
  pub sent : List (List ℕ)

-- What the component takes from elsewhere: `g_config.dropped_limit`, the C library's `isalpha`, the
-- `ensure_absolute` functions, and the zeroed units that the compiler's padding of `entry_t` leaves
-- behind a block: two in a 64-bit build, none in a 32-bit build.
pub record Setting : Type 0 where
  pub dropped_limit : ℕ
  pub isalpha : ℕ → Bool
  pub ensure_absolute_path : List ℕ → List ℕ
  pub padding : List ℕ

unfoldable pub file_init : Files → Files
file_init s = record s { dropped_count = 0; dropped_limit_reached = false }

-- sizeof (file_log_t)
abbrev sizeof_log : ℕ
sizeof_log = 8

unfoldable pub add_file_to_log_tracking : Files → ℕ → Files
add_file_to_log_tracking s h =
    let zeroed : FileLog = record { read_count = 0; write_count = 0 } in
    elim (lookup_get s.g_file_logs h) [
      | some r ↦ s
      | none ↦ record s { g_file_logs = lookup_add zeroed s.g_file_logs h sizeof_log }
    ]

unfoldable pub increment_file_log_read_count : Files → ℕ → Files × ℕ
increment_file_log_read_count s h = elim (lookup_get s.g_file_logs h) [
  | none ↦ (s, 0)
  | some (r, size) ↦
      let n = (r.read_count + 1) % 2 ^ 32 in
      (record s { g_file_logs = lookup_put s.g_file_logs h (record r { read_count = n }) }, n)
]

unfoldable pub increment_file_log_write_count : Files → ℕ → Files × ℕ
increment_file_log_write_count s h = elim (lookup_get s.g_file_logs h) [
  | none ↦ (s, 0)
  | some (r, size) ↦
      let n = (r.write_count + 1) % 2 ^ 32 in
      (record s { g_file_logs = lookup_put s.g_file_logs h (record r { write_count = n }) }, n)
]

unfoldable pub remove_file_from_log_tracking : Files → ℕ → Files
remove_file_from_log_tracking s h = record s { g_file_logs = lookup_del s.g_file_logs h }

-- `wcsncpy` of a source given by the units before its terminator.
unfoldable pub wcsncpy : List ℕ → ℕ → List ℕ
wcsncpy src zero = []
wcsncpy [] (suc n) = 0 ∷ wcsncpy [] n
wcsncpy (c ∷ src) (suc n) = c ∷ wcsncpy src n

abbrev ids : Lookup FileRecord → List ℕ
ids [] = []
ids (p ∷ ps) = p.id ∷ ids ps

-- The `pipe` call and the count behind it; the limit, an `unsigned int`, keeps the count in range.
abbrev send_report : Files → List ℕ → Files
send_report s path = record s { dropped_count = suc s.dropped_count; sent = path ∷ s.sent }

-- `isalpha(str[0]) != 0 && str[1] == ':'`
unfoldable pub starts_with_drive : (ℕ → Bool) → List ℕ → Option Bool
starts_with_drive isalpha [] = none
starts_with_drive isalpha (c ∷ []) = if isalpha c then none else some false
starts_with_drive isalpha (c ∷ (d ∷ rest)) = if isalpha c then some (d == b':') else some false

module _ (e : Setting) where
  unfoldable pub new_file_path : Files → List ℕ → Files
  new_file_path s fname =
      if leb e.dropped_limit s.dropped_count
      then record s { dropped_limit_reached = true }
      else send_report s (e.ensure_absolute_path fname)

  -- `str` is what can be read at `obj->Buffer`, `len` the length in characters.
  unfoldable pub new_file : Files → ℕ → List ℕ → Option Files
  new_file s len str =
      if leb e.dropped_limit s.dropped_count
      then some (record s { dropped_limit_reached = true })
      else elim (starts_with_drive e.isalpha str) [
        | none ↦ none
        | some false ↦ some s
        | some true ↦ elim (exactly_units len str) [
          | none ↦ none
          | some path ↦ some (send_report s path)
        ]
      ]

  -- The `UNICODE_STRING` built from a record: its `Length` is a `USHORT` count of bytes.
  unfoldable pub report_record : Files → FileRecord → Option Files
  report_record s r = new_file s (r.length % 2 ^ 16 * 2 % 2 ^ 16 / 2) r.filename

  unfoldable pub cache_file : Files → ℕ → List ℕ → ℕ → ℕ → Files
  cache_file s h path length_in_chars attributes =
      let zeroed : FileRecord = record {
        attributes = 0;
        length = 0;
        filename = replicate (suc length_in_chars) 0;
      } in
      let r : FileRecord = record {
        attributes = attributes;
        length = length_in_chars;
        filename = wcsncpy path (suc length_in_chars);
      } in
      elim (lookup_get s.g_files h) [
        | some old ↦ s
        | none ↦
            let added = lookup_add zeroed s.g_files h (18 + length_in_chars * 2) in
            record s { g_files = lookup_put added h r }
      ]

  unfoldable pub file_write : Files → ℕ → Files
  file_write s h =
      let zeroed : FileRecord = record { attributes = 0; length = 0; filename = e.padding } in
      elim (lookup_get s.g_files h) [
        | some r ↦ s
        | none ↦ record s { g_files = lookup_add zeroed s.g_files h 16 }
      ]

  unfoldable pub file_close : Files → ℕ → Option Files
  file_close s h = elim (lookup_get s.g_files h) [
    | none ↦ some s
    | some (r, size) ↦ elim (report_record s r) [
      | none ↦ none
      | some s' ↦ some (record s' { g_files = lookup_del s'.g_files h })
    ]
  ]

  -- The walk of `file_handle_terminate`, over the ids of the list.
  unfoldable pub terminate_loop : Files → List ℕ → Option Files
  terminate_loop s [] = some s
  terminate_loop s (h ∷ hs) =
      let found : Option (FileRecord × ℕ) = if h == 0 then none else lookup_get s.g_files h in
      let next : Option Files = elim found [ none ↦ some s | some (r, size) ↦ report_record s r ] in
      elim next [ none ↦ none | some s' ↦ terminate_loop s' hs ]

  -- The walk starts at the list's root taken for an entry; `stray` is what lies where its id would be.
  unfoldable pub file_handle_terminate : Files → ℕ → Option Files
  file_handle_terminate s stray =
      if s.files_dumped then some s else elim (terminate_loop s (stray ∷ ids s.g_files)) [
        | none ↦ none
        | some s' ↦ some (record s' { files_dumped = true })
      ]

module _ {ℓ} {A : Type ℓ} where
  -- `__handle_duplicate`: a block is added for the new handle, zeroed, and the old one copied over it.
  unfoldable pub duplicate_entry : A → Lookup A → ℕ → ℕ → Lookup A
  duplicate_entry zeroed d old_handle new_handle = elim (lookup_get d old_handle) [
    | none ↦ d
    | some (data', size) ↦ lookup_put (lookup_add zeroed d new_handle size) new_handle data'
  ]

unfoldable pub handle_duplicate : Files → ℕ → ℕ → Files
handle_duplicate s old_handle new_handle =
    let log : FileLog = record { read_count = 0; write_count = 0 } in
    let file : FileRecord = record { attributes = 0; length = 0; filename = [] } in
    record s {
      g_file_logs = duplicate_entry log s.g_file_logs old_handle new_handle;
      g_files = duplicate_entry file s.g_files old_handle new_handle;
    }
