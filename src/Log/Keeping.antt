-- ===== src/Log/Keeping.antt =====
-- Whole calls of `loq`, in every mode, and of `log_flush`, keep the log in order.
use mathlib.Core.List.{append-nil}
use mathlib.Core.Path.{subst}
use capemon.Base.{
  ℕ, ◌+◌, ◌^◌, ◌<◌, ◌≡◌, ◌∙◌, ap, inl, inr, Bool, true, false, ◌&&◌, Option, none, some, List, ◌∷◌,
  ◌++◌, length, arith, leb, Bool-cases, Option-cases, ◌==◌, if◌then◌else◌,
}
use capemon.Log.{Stream, Settings, Log, writes_to_file, send_log, log_flush, write_lastlog, ◌>>=◌}
use capemon.Log.Calls.{ApiCall, message_with, emit_message, check_special, log_locked, loq}
use capemon.Log.Writing.{text, Flushed, flushed, send_log_lem}
use capemon.Log.Last.{block, Cleared, cleared, log_flush-Cleared}
use capemon.Log.Explained.{
  Item, message, describes, held_bytes, Holds, Ordered, Ends, ends, Told, told,
  check_special-Ordered, explain-Told,
}
use capemon.Log.Order.{emit-Ends}

-- What a call may add to the log.
abbrev pub cost : ApiCall → ℕ
cost e = length e.info + length (message_with 0 e)

-- The index is one of `logtbl_explained`, and the two pieces are below 4 GB.
pub record Fits (e : ApiCall) : Type 0 where
  pub inside : e.index < 256
  pub small_info : length e.info < 2 ^ 32
  pub small_message : length (message_with 0 e) < 2 ^ 32

module _ (P : ApiCall → Type 0) (c : Settings) (file : writes_to_file c ≡ true)
    (room : 0 < c.buffer_size) (allocated : c.allocated ≡ true) where
  flush-none :
      (s : Log)
      → s.lastlog ≡ none
      → log_flush c true s ≡ (send_log c s.stream >>= λ stream. some (record s { stream = stream }))
  unfolding log_flush write_lastlog
  flush-none s empty = ground arith

  pub sent_on :
      (todo : ℕ) (s : Log) (items : List Item) {r : Option Stream}
      → Ordered P c.buffer_size todo s items
      → Flushed (held_bytes s.lastlog + todo) (text s.stream) r
      → Ends P c.buffer_size todo (r >>= λ stream. some (record s { stream = stream }))
  sent_on todo s items h (flushed stream no_rest supply same) = ends _ items (record {
    ready = record { bounded = ground (arith); supplied = ground (arith) };
    known = h.known;
    same = ap (λ p. stream.sent ++ p) no_rest ∙ (append-nil stream.sent ∙ (same ∙ h.same));
    order = h.order;
    entries = h.entries;
    table = h.table;
    held = h.held;
  })

  -- The held message is the newest item then.
  cleared_on :
      (todo : ℕ) (s : Log) (items : List Item) (m : ApiCall) (k : ℕ) {r : Option Log}
      → P m
      → Ordered P c.buffer_size todo s items
      → describes m.index items ≡ true
      → Cleared c file room allocated todo (text s.stream ++ message_with k m) s r
      → Ends P c.buffer_size todo r
  cleared_on todo s items m k from_m h known (cleared stream no_rest supply same) =
      ends _ (message m k ∷ items) (record {
        ready = record { bounded = ground (arith); supplied = ground (arith) };
        known = (from_m, h.known);
        same =
            ap (λ p. stream.sent ++ p) no_rest
            ∙ (append-nil stream.sent ∙ (same ∙ ap (λ l. l ++ message_with k m) h.same));
        order = (known, h.order);
        entries = h.entries;
        table = h.table;
        held = tt;
      })

  pub flush-Ends :
      (todo : ℕ) (entered : Bool) (s : Log) (items : List Item)
      → Ordered P c.buffer_size todo s items
      → Ends P c.buffer_size todo (log_flush c entered s)
  unfolding block log_flush
  flush-Ends todo false s items h = ends s items h
  flush-Ends todo true s items h = elim (Option-cases s.lastlog) [
    | inl empty ↦ rw (flush-none s empty) (
        sent_on todo s items h (
          send_log_lem c file (held_bytes s.lastlog + todo) s.stream
            (omega (arith, h.ready.supplied))))
    | inr (l, last) ↦
        let holds = subst (λ o. Holds P o items) last h.held in
        cleared_on todo s items holds.0 holds.1 holds.5 h holds.3 (
          log_flush-Cleared c file room allocated todo s (block holds.0 holds.1)
            (last ∙ ap some holds.2) holds.4
            (record {
              bounded = h.ready.bounded;
              supplied = omega (arith, h.ready.supplied, ap held_bytes (last ∙ ap some holds.2));
            }))
  ]

  pub spare :
      (n todo : ℕ) (s : Log) (items : List Item)
      → Ordered P c.buffer_size (n + todo) s items
      → Ordered P c.buffer_size todo s items
  spare n todo s items h = record {
    ready = record { bounded = h.ready.bounded; supplied = omega (arith, h.ready.supplied) };
    known = h.known;
    same = h.same;
    order = h.order;
    entries = h.entries;
    table = h.table;
    held = h.held;
  }

  locked-Ends :
      (todo : ℕ) (e : ApiCall) (s : Log) (items : List Item)
      → P e
      → Fits e
      → Ordered P c.buffer_size (cost e + todo) s items
      → Ends P c.buffer_size todo (log_locked c e s)
  unfolding log_locked
  locked-Ends todo e s items from fits h = elim (Bool-cases e.entered) [
    | inl entered ↦ simp entered (
        go (
          explain-Told P c file room allocated (length (message_with 0 e) + todo) e
            (check_special s) items fits.inside fits.small_info from
            (check_special-Ordered P c.buffer_size
              (length e.info + (length (message_with 0 e) + todo)) s items
              (subst (λ (n : ℕ). Ordered P c.buffer_size n s items) (omega arith) h))))
    | inr busy ↦ simp busy (ends s items (spare (cost e) todo s items h))
  ]
    where
      go :
          {r : Option Log}
          → Told P c file room allocated (length (message_with 0 e) + todo) e r
          → Ends P c.buffer_size todo (r >>= λ s'. emit_message c e s')
      go (told s' items' h' known) =
          emit-Ends P c file room allocated todo e s' items' from fits.small_message known h'

  pub loq-Ends :
      (todo : ℕ) (e : ApiCall) (s : Log) (items : List Item)
      → P e
      → Fits e
      → Ordered P c.buffer_size (cost e + todo) s items
      → Ends P c.buffer_size todo (loq c e s)
  unfolding loq
  loq-Ends todo e s items from fits h = elim (Bool-cases (leb 10 e.index && c.suspend_logging)) [
    | inl off ↦ rw off (ends s items (spare (cost e) todo s items h))
    | inr on ↦ rw on (go (locked-Ends todo e s items from fits h))
  ]
    where
      go :
          {r : Option Log}
          → Ends P c.buffer_size todo r
          → Ends P c.buffer_size todo
              (r >>= λ s'. if c.force_flush == 2 then log_flush c e.flush_entered s' else some s')
      go (ends s' items' h') = elim (Bool-cases (c.force_flush == 2)) [
        | inl flush ↦ simp flush (flush-Ends todo e.flush_entered s' items' h')
        | inr later ↦ simp later (ends s' items' h')
      ]
