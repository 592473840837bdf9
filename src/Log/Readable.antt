-- ===== src/Log/Readable.antt =====
-- Runs of everything that threads do to the log: it can be read from its start.
use capemon.Base.{
  ℕ, zero, suc, ◌+◌, ◌≤◌, ◌<◌, ◌≡◌, refl, Bool, true, false, Option, none, some, List, [], ◌∷◌,
  ◌++◌, length, All, arith, replicate, get_elem?, length-replicate,
}
use capemon.Log.{Write, Settings, Log, writes_to_file, set_special_api, ◌>>=◌}
use capemon.Log.Calls.{ApiCall, LogEvent, logs, flushes, reports, sends, do_event, run_events}
use capemon.Log.Writing.{progress, send_log_lem}
use capemon.Log.Explained.{Item, call_of, log_bytes, IsReadable, held_bytes, Ordered, Ends, ends}
use capemon.Log.Keeping.{cost, Fits, flush-Ends, loq-Ends, sent_on, spare}

abbrev pub event_cost : LogEvent → ℕ
event_cost (logs e) = cost e
event_cost _ = 0

abbrev pub total_cost : List LogEvent → ℕ
total_cost [] = 0
total_cost (event ∷ events) = event_cost event + total_cost events

-- A property of the calls that log.
abbrev pub OnCall : (ApiCall → Type 0) → LogEvent → Type 0
OnCall Q (logs e) = Q e
OnCall Q _ = Unit

-- `logtbl_explained` and the globals as they start, with nothing logged yet.
abbrev pub fresh : List Write → Log
fresh writes = record {
  stream = record { pending = []; sent = []; writes = writes };
  lastlog = none;
  logtbl_explained = replicate 256 false;
  special_api_triggered = false;
  delete_last_log = false;
  last_api_logged = 0;
}

none_described : (n i : ℕ) → i < n → get_elem? (replicate n false) i ≡ some false
none_described zero i h = absurd (omega arith)
none_described (suc n) zero h = refl
none_described (suc n) (suc i) h = none_described n i (omega arith)

module _ (P : ApiCall → Type 0) (c : Settings) (file : writes_to_file c ≡ true)
    (room : 0 < c.buffer_size) (allocated : c.allocated ≡ true) where
  set_special_api-Ordered :
      (todo api : ℕ) (delete entered : Bool) (s : Log) (items : List Item)
      → Ordered P c.buffer_size todo s items
      → Ordered P c.buffer_size todo (set_special_api api delete entered s) items
  unfolding set_special_api
  set_special_api-Ordered todo api delete false s items h = h
  set_special_api-Ordered todo api delete true s items h = record {
    ready = h.ready;
    known = h.known;
    same = h.same;
    order = h.order;
    entries = h.entries;
    table = h.table;
    held = h.held;
  }

  event-Ends :
      (todo : ℕ) (event : LogEvent) (s : Log) (items : List Item)
      → OnCall P event
      → OnCall Fits event
      → Ordered P c.buffer_size (event_cost event + todo) s items
      → Ends P c.buffer_size todo (do_event c event s)
  unfolding do_event
  event-Ends todo (logs e) s items from fits h =
      loq-Ends P c file room allocated todo e s items from fits h
  event-Ends todo (flushes entered) s items from fits h =
      flush-Ends P c file room allocated todo entered s items
        (spare P c file room allocated 0 todo s items h)
  event-Ends todo (reports api delete entered) s items from fits h = ends _ items (
      set_special_api-Ordered todo api delete entered s items
        (spare P c file room allocated 0 todo s items h))
  event-Ends todo sends s items from fits h =
      sent_on P c file room allocated todo s items (spare P c file room allocated 0 todo s items h)
        (send_log_lem c file (held_bytes s.lastlog + todo) s.stream
          (omega (arith, h.ready.supplied)))

  run-Ends :
      (events : List LogEvent) (s : Log) (items : List Item)
      → All (OnCall P) events
      → All (OnCall Fits) events
      → Ordered P c.buffer_size (total_cost events) s items
      → Ends P c.buffer_size 0 (run_events c events s)
  unfolding run_events
  run-Ends [] s items from fits h = ends s items h
  run-Ends (event ∷ events) s items from fits h =
      go (event-Ends (total_cost events) event s items from.0 fits.0 h)
        (λ s' items' h'. run-Ends events s' items' from.1 fits.1 h')
    where
      go :
          {r : Option Log}
          → Ends P c.buffer_size (total_cost events) r
          → ((s' : Log) (items' : List Item)
              → Ordered P c.buffer_size (total_cost events) s' items'
              → Ends P c.buffer_size 0 (run_events c events s'))
          → Ends P c.buffer_size 0 (r >>= λ s'. run_events c events s')
      go (ends s' items' h') next = next s' items' h'

  -- The log goes to a file, the buffer is there, and `WriteFile` makes progress in as many calls as
  -- there are bytes to write. From the start of the process on, `loq`, `log_flush`, `set_special_api`
  -- and the log thread run in any order. A call of `loq` may find the lock taken or be suspended, and
  -- be new, critical or a repeat, in every mode of `force_flush`; it has an index below 256 and pieces
  -- below 4 GB. Then all calls return, the buffer is never overfull, and the log so far consists of
  -- descriptions and messages of these calls (of entries with `P`, if all the calls have `P`) such that
  -- an index is described once at most, and before each of its messages.
  pub run_events-IsReadable :
      (events : List LogEvent) (writes : List Write)
      → All (OnCall P) events
      → All (OnCall Fits) events
      → total_cost events ≤ progress writes
      → (s : Log) × (items : List Item) × (run_events c events (fresh writes) ≡ some s)
        × (s.stream.sent ++ s.stream.pending ≡ log_bytes items)
        × IsReadable items
        × All (λ item. P (call_of item)) items
        × (length s.stream.pending ≤ c.buffer_size)
  run_events-IsReadable events writes from fits supply = go (
      run-Ends events (fresh writes) [] from fits (record {
        ready = record { bounded = omega (arith, room); supplied = omega (arith, supply) };
        known = tt;
        same = refl;
        order = tt;
        entries = length-replicate 256 false;
        table = none_described 256;
        held = tt;
      }))
    where
      go :
          {r : Option Log}
          → Ends P c.buffer_size 0 r
          → (s : Log) × (items : List Item) × (r ≡ some s)
            × (s.stream.sent ++ s.stream.pending ≡ log_bytes items)
            × IsReadable items
            × All (λ item. P (call_of item)) items
            × (length s.stream.pending ≤ c.buffer_size)
      go (ends s items h) = (s, items, refl, h.same, h.order, h.known, h.ready.bounded)
