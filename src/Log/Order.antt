-- ===== src/Log/Order.antt =====
-- Every branch of `loq` keeps the log in order.
use mathlib.Core.Path.{subst}
use capemon.Base.{
  ℕ, ◌+◌, ◌^◌, ◌<◌, ◌≡◌, ◌∙◌, refl, sym, ap, inl, inr, true, false, Option, none, some, List, ◌∷◌,
  ◌++◌, length, arith, Bool-cases, Option-cases,
}
use capemon.Log.{Stream, Settings, LastLog, Log, writes_to_file, log_raw_direct, ◌>>=◌}
use capemon.Log.Calls.{
  ApiCall, is_critical, is_repeat, message_with, flush_last, compare_last, hold, emit_message,
}
use capemon.Log.Writing.{text}
use capemon.Log.Last.{
  block, length-message_with, count_repeat-block, Emptied, emptied, flush_last-Emptied,
}
use capemon.Log.Explained.{
  Item, message, describes, held_bytes, Holds, Ordered, Ends, ends, Put, put, Holds-grows,
  write-Put,
}

module _ (P : ApiCall → Type 0) (c : Settings) (file : writes_to_file c ≡ true)
    (room : 0 < c.buffer_size) (allocated : c.allocated ≡ true) where
  emit-critical :
      (e : ApiCall) (s : Log)
      → is_critical e.index ≡ true
      → emit_message c e s ≡ (
          log_raw_direct c s.stream (message_with 0 e) >>= λ stream.
          some (record s { stream = stream }))
  unfolding emit_message
  emit-critical e s h = ground arith

  emit-first :
      (e : ApiCall) (s : Log)
      → is_critical e.index ≡ false
      → s.lastlog ≡ none
      → emit_message c e s ≡ some (record s { lastlog = some (block e 0) })
  unfolding emit_message compare_last hold block
  emit-first e s h empty = ground arith

  emit-repeat :
      (e : ApiCall) (s : Log) (m : ApiCall) (k : ℕ)
      → is_critical e.index ≡ false
      → s.lastlog ≡ some (block m k)
      → is_repeat (block m k) e ≡ true
      → emit_message c e s ≡ some (record s { lastlog = some (block m (k + 1)) })
  unfolding emit_message compare_last hold
  emit-repeat e s m k h held repeated = ground (arith, count_repeat-block m k s)

  emit-other :
      (e : ApiCall) (s : Log) (l : LastLog)
      → is_critical e.index ≡ false
      → s.lastlog ≡ some l
      → is_repeat l e ≡ false
      → emit_message c e s ≡ (flush_last c s >>= λ s'. some (hold e s'))
  unfolding emit_message compare_last
  emit-other e s l h held other = ground arith

  other-Ends :
      (todo : ℕ) (e : ApiCall) (s : Log) (items : List Item) (m : ApiCall) (k : ℕ)
      → P e
      → P m
      → s.lastlog ≡ some (block m k)
      → describes m.index items ≡ true
      → describes e.index items ≡ true
      → length (message_with 0 e) < 2 ^ 32
      → length (message_with k m) < 2 ^ 32
      → Ordered P c.buffer_size (length (message_with 0 e) + todo) s items
      → Ends P c.buffer_size todo (flush_last c s >>= λ s'. some (hold e s'))
  unfolding hold block
  other-Ends todo e s items m k from from_m held known_m known_e small_e small_m h = go (
      flush_last-Emptied c file room allocated (length (message_with 0 e) + todo) s (block m k) held
        small_m
        (record {
          bounded = h.ready.bounded;
          supplied = omega (arith, h.ready.supplied, ap held_bytes held);
        }))
    where
      go :
          {r : Option Log}
          → Emptied c.buffer_size
              (length (message_with 0 e) + todo)
              (text s.stream ++ message_with k m)
              s
              r
          → Ends P c.buffer_size todo (r >>= λ s'. some (hold e s'))
      go (emptied stream ready same) = ends _ (message m k ∷ items) (record {
        ready = ready;
        known = (from_m, h.known);
        same = same ∙ ap (λ l. l ++ message_with k m) h.same;
        order = (known_m, h.order);
        entries = h.entries;
        table = h.table;
        held = (e, 0, refl, known_e, small_e, from);
      })

  critical-Ends :
      (todo : ℕ) (e : ApiCall) (s : Log) (items : List Item)
      → P e
      → is_critical e.index ≡ true
      → length (message_with 0 e) < 2 ^ 32
      → describes e.index items ≡ true
      → Ordered P c.buffer_size (length (message_with 0 e) + todo) s items
      → Ends P c.buffer_size todo (emit_message c e s)
  critical-Ends todo e s items from critical small known h =
      rw (emit-critical e s critical)
        (go (write-Put P c file room allocated todo s items (message e 0) small h))
    where
      go :
          {r : Option Stream}
          → Put P c file room allocated todo s items (message e 0) r
          → Ends P c.buffer_size todo (r >>= λ stream. some (record s { stream = stream }))
      go (put stream ready same) = ends _ (message e 0 ∷ items) (record {
        ready = ready;
        known = (from, h.known);
        same = same;
        order = (known, h.order);
        entries = h.entries;
        table = h.table;
        held = Holds-grows P s.lastlog (message e 0) items h.held;
      })

  held-Ends :
      (todo : ℕ) (e : ApiCall) (s : Log) (items : List Item) (m : ApiCall) (k : ℕ)
      → P e
      → P m
      → is_critical e.index ≡ false
      → s.lastlog ≡ some (block m k)
      → describes m.index items ≡ true
      → length (message_with k m) < 2 ^ 32
      → length (message_with 0 e) < 2 ^ 32
      → describes e.index items ≡ true
      → Ordered P c.buffer_size (length (message_with 0 e) + todo) s items
      → Ends P c.buffer_size todo (emit_message c e s)
  unfolding block
  held-Ends todo e s items m k from from_m usual held known_m small_m small known h =
      elim (Bool-cases (is_repeat (block m k) e)) [
        | inl repeated ↦
            let same_length : length (message_with (k + 1) m) ≡ length (message_with k m) =
              length-message_with (k + 1) m ∙ sym (length-message_with k m) in
            rw (emit-repeat e s m k usual held repeated) (
              ends _ items (record {
                ready = record {
                  bounded = h.ready.bounded;
                  supplied = omega (arith, h.ready.supplied, ap held_bytes held, same_length);
                };
                known = h.known;
                same = h.same;
                order = h.order;
                entries = h.entries;
                table = h.table;
                held = (m, k + 1, refl, known_m, omega (arith, same_length), from_m);
              }))
        | inr other ↦
            rw (emit-other e s (block m k) usual held other)
              (other-Ends todo e s items m k from from_m held known_m known small small_m h)
      ]

  pub emit-Ends :
      (todo : ℕ) (e : ApiCall) (s : Log) (items : List Item)
      → P e
      → length (message_with 0 e) < 2 ^ 32
      → describes e.index items ≡ true
      → Ordered P c.buffer_size (length (message_with 0 e) + todo) s items
      → Ends P c.buffer_size todo (emit_message c e s)
  unfolding block
  emit-Ends todo e s items from small known h = elim (Bool-cases (is_critical e.index)) [
    | inl critical ↦ critical-Ends todo e s items from critical small known h
    | inr usual ↦ elim (Option-cases s.lastlog) [
      | inl empty ↦ rw (emit-first e s usual empty) (
          ends _ items (record {
            ready = record {
              bounded = h.ready.bounded;
              supplied = omega (arith, h.ready.supplied, ap held_bytes empty);
            };
            known = h.known;
            same = h.same;
            order = h.order;
            entries = h.entries;
            table = h.table;
            held = (e, 0, refl, known, small, from);
          }))
      | inr (l, last) ↦
          let holds = subst (λ o. Holds P o items) last h.held in
          held-Ends todo e s items holds.0 holds.1 from holds.5 usual (last ∙ ap some holds.2)
            holds.3 holds.4 small known h
    ]
  ]
