-- ===== src/Tests/Files.antt =====
-- hook_file.c on small inputs.
use capemon.Base.{ℕ, ◌^◌, ◌-◌, refl, List, [], ◌∷◌, ltb, arith, length}
use capemon.Files.{FileRecord, Files, Setting}
use capemon.Files.Records.{IsFiles}
use capemon.Files.Runs.{FileCall, cache, write, close, duplicate, path_used, terminate, no_files}
use capemon.Files.Counts.{LogUse, reads, writes}

-- Two reports at most, letters by their ASCII codes, a 64-bit build.
abbrev two_reports : Setting
two_reports = record {
  dropped_limit = 2;
  isalpha = λ c. ltb 64 c;
  ensure_absolute_path = λ p. p;
  padding = 0 ∷ 0 ∷ [];
}

abbrev no_padding : Setting
no_padding = record {
  dropped_limit = 2;
  isalpha = λ c. ltb 64 c;
  ensure_absolute_path = λ p. p;
  padding = [];
}

-- `C:a`
abbrev drive_a : List ℕ
drive_a = b'C' ∷ b':' ∷ b'a' ∷ []

abbrev some_calls : List FileCall
some_calls =
    cache 4 drive_a 0
    ∷ write 8
    ∷ duplicate 4 12
    ∷ close 4
    ∷ close 8
    ∷ path_used drive_a
    ∷ terminate 0
    ∷ []

abbrev open_a : FileRecord
open_a = record { attributes = 0; length = 3; filename = b'C' ∷ b':' ∷ b'a' ∷ 0 ∷ [] }

abbrev one_open : Files
one_open = record no_files { g_files = record { id = 4; size = 24; block = open_a } ∷ [] }

one_open-IsFiles : IsFiles two_reports one_open
one_open-IsFiles = record {
  counted = refl;
  limited = omega arith;
  readable = (record { starts = tt; covers = omega arith }, tt);
}

abbrev tracked : Files
tracked = record no_files {
  g_file_logs =
      record { id = 4; size = 8; block = record { read_count = 2 ^ 32 - 1; write_count = 5 } } ∷ [];
}

abbrev some_uses : List LogUse
some_uses = reads 4 ∷ writes 4 ∷ reads 8 ∷ reads 4 ∷ []
