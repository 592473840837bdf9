-- ===== src/Log.antt =====
-- log.c: the buffer in front of the log file, the last message, and the calls that flush them.
pub mod Calls
pub mod Writing
pub mod Jobs
pub mod Last
pub mod Repeats
pub mod Runs
pub mod Explained
pub mod Order
pub mod Keeping
pub mod Readable
pub mod Values
pub mod Variants
pub mod Registry
pub mod Format
pub mod Walk
pub mod Escapes
pub mod MultiSz
pub mod Notes
pub mod Environ
pub mod Fitting
pub mod Reports
pub mod Passes
pub mod Agreeing
use capemon.Base.{
  ℕ, zero, suc, ◌+◌, ◌-◌, ◌*◌, ◌%◌, ◌^◌, Bool, true, false, not, ◌&&◌, ◌||◌, Option, none, some,
  List, [], ◌∷◌, ◌++◌, ◌==◌, leb, if◌then◌else◌, length, take, drop, get_elem?, set, bytes_eq,
}
use Prim.Native.Nat.{min}
use capemon.Utf8.Strings.{int_bytes}

infixl 5 ◌>>=◌
abbrev pub ◌>>=◌ {ℓ κ} : {A : Type ℓ} {B : Type κ} → Option A → (A → Option B) → Option B
none >>= f = none
some a >>= f = f a

-- BUFFERSIZE
abbrev pub buffersize : ℕ
buffersize = 2 ^ 24

-- What `WriteFile` does: `failed` leaves `written` at -1, `wrote n` takes the first `n` bytes, or all
-- of a shorter buffer.
pub data Write : Type 0 where
  failed : Write
  wrote : ℕ → Write

-- `pending` is `g_buffer[0]` to `g_buffer[g_idx - 1]`, `sent` what `WriteFile` has taken so far, and
-- `writes` what it will do in the calls to come.
pub record Stream : Type 0 where
  pub pending : List ℕ
  pub sent : List ℕ
  pub writes : List Write

-- Where the log goes: the tests on `g_sock`, `g_debug_log_handle` and `g_log_handle`. `buffer_size`
-- is `BUFFERSIZE`, and `allocated` tells whether `g_buffer` is not NULL.
pub record Settings : Type 0 where
  pub buffer_size : ℕ
  pub allocated : Bool
  pub debug_socket : Bool
  pub debug_log_handle : Bool
  pub log_handle : Bool
  pub suspend_logging : Bool
  pub force_flush : ℕ

-- The rounds of `_send_log` that call `WriteFile`; `none` if it is still there when `writes` is used up.
unfoldable pub write_loop : List Write → List ℕ → List ℕ → Option Stream
write_loop writes [] sent = some (record { pending = []; sent = sent; writes = writes })
write_loop [] (b ∷ buf) sent = none
write_loop (failed ∷ writes) (b ∷ buf) sent = write_loop writes (b ∷ buf) sent
write_loop (wrote n ∷ writes) (b ∷ buf) sent =
    write_loop writes (drop n (b ∷ buf)) (sent ++ take n (b ∷ buf))

-- `WriteFile` is called; otherwise the bytes are dropped.
unfoldable pub writes_to_file : Settings → Bool
writes_to_file c = if c.debug_socket then c.debug_log_handle else c.log_handle

unfoldable pub send_log : Settings → Stream → Option Stream
send_log c s =
    if writes_to_file c
    then write_loop s.writes s.pending s.sent
    else some (record { pending = []; sent = s.sent; writes = s.writes })

unfoldable pub send_rest : Settings → List ℕ → Stream → Option Stream
send_rest c [] s = some s
send_rest c (b ∷ rest) s = send_log c s

-- `copylen`.
unfoldable pub copy_length : Settings → Stream → List ℕ → ℕ
copy_length c s buf = min (length buf % 2 ^ 32) (c.buffer_size - length s.pending)

-- `memcpy` and the two additions.
unfoldable pub copy_in : ℕ → Stream → List ℕ → Stream
copy_in n s buf = record { pending = s.pending ++ take n buf; sent = s.sent; writes = s.writes }

-- `while (copiedlen != length)`, with the bytes from `buf[copiedlen]` on.
unfoldable pub raw_loop : ℕ → Settings → Stream → List ℕ → Option Stream
raw_loop fuel c s [] = some s
raw_loop zero c s (b ∷ buf) = none
raw_loop (suc fuel) c s (b ∷ buf) =
    let n = copy_length c s (b ∷ buf) in
    send_rest c (drop n (b ∷ buf)) (copy_in n s (b ∷ buf)) >>= λ s'.
    raw_loop fuel c s' (drop n (b ∷ buf))

unfoldable pub log_raw_direct : Settings → Stream → List ℕ → Option Stream
log_raw_direct c s buf = if c.allocated then raw_loop (suc (length buf)) c s buf else some s

-- What fills and empties the buffer: a message, or a round of `_log_thread`.
pub data Job : Type 0 where
  raw : List ℕ → Job
  round : Job

unfoldable pub do_job : Settings → Job → Stream → Option Stream
do_job c (raw buf) s = log_raw_direct c s buf
do_job c round s = send_log c s

unfoldable pub run_jobs : Settings → List Job → Stream → Option Stream
run_jobs c [] s = some s
run_jobs c (job ∷ jobs) s = do_job c job s >>= λ s'. run_jobs c jobs s'

-- `lastlog` with its pointers as offsets: `compare_ptr` is `buf + compare_offset`, `repeated_ptr` four
-- bytes before it, and `compare_len` reaches to the end.
pub record LastLog : Type 0 where
  pub buf : List ℕ
  pub compare_offset : ℕ

pub record Log : Type 0 where
  pub stream : Stream
  pub lastlog : Option LastLog
  pub logtbl_explained : List Bool
  pub special_api_triggered : Bool
  pub delete_last_log : Bool
  pub last_api_logged : ℕ

unfoldable pub write_lastlog : Settings → Log → Option Log
write_lastlog c s = elim s.lastlog [
  | none ↦ some s
  | some l ↦ log_raw_direct c s.stream l.buf >>= λ stream.
      some (record s { stream = stream; lastlog = none })
]

-- `entered` is the result of `TryEnterCriticalSection`.
unfoldable pub log_flush : Settings → Bool → Log → Option Log
log_flush c entered s =
    if not entered
    then some s
    else write_lastlog c s >>= λ s'.
        if c.allocated
        then (send_log c s'.stream >>= λ stream. some (record s' { stream = stream }))
        else some s'

-- `bytes` is what the bson library makes of the message.
unfoldable pub debug_message : Settings → Bool → List ℕ → Log → Option Log
debug_message c entered bytes s =
    log_raw_direct c s.stream bytes >>= λ stream. log_flush c entered (record s { stream = stream })

unfoldable pub set_special_api : ℕ → Bool → Bool → Log → Log
set_special_api api delete entered s =
    if not entered
    then s
    else record s { special_api_triggered = true; last_api_logged = api; delete_last_log = delete }
