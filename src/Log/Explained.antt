-- ===== src/Log/Explained.antt =====
-- The order of the log: a call is described once, before its first message.
use capemon.Base.{
  ℕ, ◌+◌, ◌^◌, ◌<◌, ◌≡◌, ◌∙◌, ap, inl, inr, Bool, true, false, ◌||◌, Option, none, some, List, [],
  ◌∷◌, ◌++◌, length, All, arith, get_elem?, get_elem?-set_self, get_elem?-set_ne, length-set, set,
  Bool-cases, ◌==◌,
}
use capemon.Log.{Stream, Settings, LastLog, Log, writes_to_file, log_raw_direct, ◌>>=◌}
use capemon.Log.Calls.{ApiCall, message_with, check_special, explain}
use capemon.Log.Writing.{text, Supplied, Logged, logged, log_raw_direct_lem}
use capemon.Log.Last.{block}

-- What the log is made of: the description of a call, or a message with its count of repeats.
pub data Item : Type 0 where
  description : ApiCall → Item
  message : ApiCall → ℕ → Item

abbrev pub item_bytes : Item → List ℕ
item_bytes (description e) = e.info
item_bytes (message e count) = message_with count e

abbrev pub call_of : Item → ApiCall
call_of (description e) = e
call_of (message e count) = e

-- The items from the newest to the oldest.
abbrev pub log_bytes : List Item → List ℕ
log_bytes [] = []
log_bytes (item ∷ older) = log_bytes older ++ item_bytes item

abbrev pub describes : ℕ → List Item → Bool
describes index [] = false
describes index (description e ∷ older) = e.index == index || describes index older
describes index (message e count ∷ older) = describes index older

-- A description is the first of its index, and a message has one before it.
abbrev pub IsReadable : List Item → Type 0
IsReadable [] = Unit
IsReadable (description e ∷ older) = (describes e.index older ≡ false) × IsReadable older
IsReadable (message e count ∷ older) = (describes e.index older ≡ true) × IsReadable older

abbrev pub held_bytes : Option LastLog → ℕ
held_bytes none = 0
held_bytes (some l) = length l.buf

module _ (P : ApiCall → Type 0) where
  abbrev pub Holds : Option LastLog → List Item → Type 0
  Holds none items = Unit
  Holds (some l) items =
      (m : ApiCall) × (k : ℕ) × (l ≡ block m k)
      × (describes m.index items ≡ true)
      × (length (message_with k m) < 2 ^ 32)
      × P m

  -- Between the steps of a call, with `todo` bytes to come.
  pub record Ordered (size todo : ℕ) (s : Log) (items : List Item) : Type 0 where
    pub ready : Supplied size (held_bytes s.lastlog + todo) s.stream
    pub known : All (λ item. P (call_of item)) items
    pub same : text s.stream ≡ log_bytes items
    pub order : IsReadable items
    pub entries : length s.logtbl_explained ≡ 256
    pub table : (i : ℕ) → i < 256 → get_elem? s.logtbl_explained i ≡ some (describes i items)
    pub held : Holds s.lastlog items

  pub data Ends (size todo : ℕ) : Option Log → Type 0 where
    ends : (s : Log) (items : List Item) → Ordered size todo s items → Ends size todo (some s)

  dropped :
      (size todo : ℕ) (delete : Bool) (s : Log) (items : List Item)
      → Ordered size todo s items
      → Ordered size todo
          (record s { special_api_triggered = false; delete_last_log = delete; lastlog = none })
          items
  dropped size todo delete s items h = record {
    ready = record { bounded = h.ready.bounded; supplied = omega (arith, h.ready.supplied) };
    known = h.known;
    same = h.same;
    order = h.order;
    entries = h.entries;
    table = h.table;
    held = tt;
  }

  kept :
      (size todo api : ℕ) (special delete : Bool) (s : Log) (items : List Item)
      → Ordered size todo s items
      → Ordered size todo
          (record s {
            special_api_triggered = special;
            delete_last_log = delete;
            last_api_logged = api;
          })
          items
  kept size todo api special delete s items h = record {
    ready = h.ready;
    known = h.known;
    same = h.same;
    order = h.order;
    entries = h.entries;
    table = h.table;
    held = h.held;
  }

  pub check_special-Ordered :
      (size todo : ℕ) (s : Log) (items : List Item)
      → Ordered size todo s items
      → Ordered size todo (check_special s) items
  unfolding check_special
  check_special-Ordered size todo s items h = elim (Bool-cases s.special_api_triggered) [
    | inl e ↦ elim (Bool-cases s.delete_last_log) [
      | inl d ↦ simp (e, d) (dropped size todo true s items h)
      | inr d ↦ simp (e, d) (kept size todo s.last_api_logged false false s items h)
    ]
    | inr e ↦ simp e (kept size todo 0 false s.delete_last_log s items h)
  ]

  describes-grows :
      (i : ℕ) (x : Item) (items : List Item)
      → describes i items ≡ true
      → describes i (x ∷ items) ≡ true
  describes-grows i (description e) items h = ground arith
  describes-grows i (message e k) items h = h

  pub Holds-grows :
      (l : Option LastLog) (x : Item) (items : List Item) → Holds l items → Holds l (x ∷ items)
  Holds-grows none x items h = tt
  Holds-grows (some l) x items h = (h.0, h.1, h.2, describes-grows h.0.index x items h.3, h.4, h.5)

module _ (P : ApiCall → Type 0) (c : Settings) (file : writes_to_file c ≡ true)
    (room : 0 < c.buffer_size) (allocated : c.allocated ≡ true) where
  -- An item is written, with the held message still to come.
  pub data Put (todo : ℕ) (s : Log) (items : List Item) (x : Item) : Option Stream → Type 0 where
    put :
        (stream : Stream)
        → Supplied c.buffer_size (held_bytes s.lastlog + todo) stream
        → text stream ≡ log_bytes (x ∷ items)
        → Put todo s items x (some stream)

  pub write-Put :
      (todo : ℕ) (s : Log) (items : List Item) (x : Item)
      → length (item_bytes x) < 2 ^ 32
      → Ordered P c.buffer_size (length (item_bytes x) + todo) s items
      → Put todo s items x (log_raw_direct c s.stream (item_bytes x))
  write-Put todo s items x small h = go (
      log_raw_direct_lem c file room (held_bytes s.lastlog + todo) s.stream (item_bytes x) allocated
        small (record { bounded = h.ready.bounded; supplied = omega (arith, h.ready.supplied) }))
    where
      go :
          {r : Option Stream}
          → Logged c.buffer_size (held_bytes s.lastlog + todo) (text s.stream ++ item_bytes x) r
          → Put todo s items x r
      go (logged stream ready same) = put stream ready (same ∙ ap (λ l. l ++ item_bytes x) h.same)

  describes_self :
      (e : ApiCall) (items : List Item) → describes e.index (description e ∷ items) ≡ true
  describes_self e items = ground arith

  table_set :
      (tbl : List Bool) (e : ApiCall) (items : List Item)
      → e.index < 256
      → length tbl ≡ 256
      → ((i : ℕ) → i < 256 → get_elem? tbl i ≡ some (describes i items))
      → (i : ℕ) → i < 256
      → get_elem? (set tbl e.index true) i ≡ some (describes i (description e ∷ items))
  table_set tbl e items inside len table i h = elim (Bool-cases (e.index == i)) [
    | inl same ↦ ground (arith, get_elem?-set_self tbl e.index true)
    | inr differ ↦ ground (arith, table i h, get_elem?-set_ne tbl e.index i true)
  ]

  -- After `explain` the call is described.
  pub data Told (todo : ℕ) (e : ApiCall) : Option Log → Type 0 where
    told :
        (s : Log) (items : List Item)
        → Ordered P c.buffer_size todo s items
        → describes e.index items ≡ true
        → Told todo e (some s)

  pub explain-Told :
      (todo : ℕ) (e : ApiCall) (s : Log) (items : List Item)
      → e.index < 256
      → length e.info < 2 ^ 32
      → P e
      → Ordered P c.buffer_size (length e.info + todo) s items
      → Told todo e (explain c e s)
  unfolding explain
  explain-Told todo e s items inside small from h =
      rw (h.table e.index inside) (elim (Bool-cases (describes e.index items)) [
        | inl known ↦ rw known (
            told s items
              (record {
                ready = record {
                  bounded = h.ready.bounded;
                  supplied = omega (arith, h.ready.supplied);
                };
                known = h.known;
                same = h.same;
                order = h.order;
                entries = h.entries;
                table = h.table;
                held = h.held;
              })
              known)
        | inr new ↦ rw new (go new (write-Put todo s items (description e) small h))
      ])
    where
      go :
          {r : Option Stream}
          → describes e.index items ≡ false
          → Put todo s items (description e) r
          → Told todo e (
              r >>= λ stream. some (record s {
                stream = stream;
                logtbl_explained = set s.logtbl_explained e.index true;
              }))
      go new (put stream ready same) =
          told _ (description e ∷ items)
            (record {
              ready = ready;
              known = (from, h.known);
              same = same;
              order = (new, h.order);
              entries = length-set s.logtbl_explained e.index true ∙ h.entries;
              table = table_set s.logtbl_explained e items inside h.entries h.table;
              held = Holds-grows P s.lastlog (description e) items h.held;
            })
            (describes_self e items)
