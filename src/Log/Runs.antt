-- ===== src/Log/Runs.antt =====
-- Whole runs of calls that log, up to the flush at the end.
use mathlib.Core.List.{append_assoc, append-nil}
use capemon.Base.{
  ℕ, zero, suc, ◌+◌, ◌^◌, ◌≤◌, ◌<◌, ◌≡◌, ◌≢◌, ◌⊎◌, ◌∙◌, refl, sym, ap, inl, inr, Bool, true, false,
  Option, none, some, List, [], ◌∷◌, ◌++◌, map, length, length-append, length-replicate, All, arith,
  replicate, Bool-cases, ◌==◌, bytes_eq, bytes_eq_refl, bytes_eq_sound,
}
use capemon.Log.{Stream, Settings, Log, writes_to_file, log_flush, ◌>>=◌}
use capemon.Log.Calls.{ApiCall, message_with, run_loq}
use capemon.Log.Writing.{progress, text, Supplied}
use capemon.Log.Last.{block, length-message_with, Cleared, cleared, log_flush-Cleared}
use capemon.Log.Repeats.{
  Run, written_bytes, bodies_read, NoneJoins, total_bytes, IsPlain, idle, first-loq, repeat-loq,
  other-loq, Replaced, replaced,
}

bytes-cases : (xs ys : List ℕ) → (xs ≡ ys) ⊎ (xs ≢ ys)
bytes-cases xs ys = elim (Bool-cases (bytes_eq xs ys)) [
  | inl e ↦ inl (bytes_eq_sound xs ys e)
  | inr e ↦ inr (λ same.
      let equal : bytes_eq xs ys ≡ true = ap (bytes_eq xs) (sym same) ∙ bytes_eq_refl xs in cc)
]

replicate_shift :
    (n : ℕ) (x : List ℕ) (l : List (List ℕ)) → replicate (n + 1) x ++ l ≡ replicate n x ++ x ∷ l
replicate_shift zero x l = refl
replicate_shift (suc n) x l = ground (arith, replicate_shift n x l)

-- The run `message`, repeated from `k` on, and those behind it.
pub record Closed (stream : Stream) (m : ApiCall) (k : ℕ) (entries : List ApiCall) (r : Option Log)
    : Type 0 where
  pub final : Log
  pub count : ℕ
  pub rest : List Run
  pub returns : r ≡ some final
  pub written :
      final.stream.sent
      ≡ text stream ++ written_bytes (record { message = m; count = count } ∷ rest)
  pub read :
      bodies_read (record { message = m; count = count } ∷ rest)
      ≡ replicate (suc k) m.body ++ map (λ (e : ApiCall). e.body) entries
  pub apart : NoneJoins (record { message = m; count = count } ∷ rest)

counts-small :
    (n : ℕ) (runs : List Run) → length (bodies_read runs) ≤ n → All (λ r. r.count < n) runs
counts-small n [] h = tt
counts-small n (r ∷ runs) h =
    let size = length-append (replicate (suc r.count) r.message.body) (bodies_read runs) in
    let repeated = length-replicate (suc r.count) r.message.body in
    (omega (arith, size, repeated), counts-small n runs (omega (arith, size, repeated)))

length-map :
    (entries : List ApiCall) → length (map (λ (e : ApiCall). e.body) entries) ≡ length entries
length-map [] = refl
length-map (e ∷ entries) = ap suc (length-map entries)

module _ (c : Settings) (explained : List Bool) (delete : Bool)
    (mode : (c.force_flush == 2) ≡ false) (file : writes_to_file c ≡ true)
    (room : 0 < c.buffer_size) (allocated : c.allocated ≡ true) where
  end_of_run :
      (stream : Stream) (m : ApiCall) (k : ℕ) {r : Option Log} (s : Log)
      → Cleared c file room allocated 0 (text stream ++ message_with k m) s r
      → Closed stream m k [] r
  end_of_run stream m k s (cleared stream' empty supply same) = record {
    final = record s { stream = stream'; lastlog = none };
    count = k;
    rest = [];
    returns = refl;
    written = same ∙ ap (λ l. text stream ++ l) (sym (append-nil (message_with k m)));
    read = refl;
    apart = tt;
  }

  one_more :
      (stream : Stream) (m e : ApiCall) (k : ℕ) (entries : List ApiCall) (r : Option Log)
      → m.body ≡ e.body
      → Closed stream m (k + 1) entries r
      → Closed stream m k (e ∷ entries) r
  one_more stream m e k entries r same h = record {
    final = h.final;
    count = h.count;
    rest = h.rest;
    returns = h.returns;
    written = h.written;
    read =
        h.read
        ∙ (ap (λ l. m.body ∷ l) (replicate_shift k m.body (map (λ (e : ApiCall). e.body) entries))
            ∙ ap (λ b. replicate (suc k) m.body ++ (b ∷ map (λ (e : ApiCall). e.body) entries))
                same);
    apart = h.apart;
  }

  another_run :
      (stream stream' : Stream) (m e : ApiCall) (k : ℕ) (entries : List ApiCall) (r : Option Log)
      → m.body ≢ e.body
      → text stream' ≡ text stream ++ message_with k m
      → Closed stream' e 0 entries r
      → Closed stream m k (e ∷ entries) r
  another_run stream stream' m e k entries r differ same h = record {
    final = h.final;
    count = k;
    rest = record { message = e; count = h.count } ∷ h.rest;
    returns = h.returns;
    written =
        h.written
        ∙ (ap (λ l. l ++ written_bytes (record { message = e; count = h.count } ∷ h.rest)) same
            ∙ append_assoc (text stream) (message_with k m)
                (written_bytes (record { message = e; count = h.count } ∷ h.rest)));
    read = ap (λ l. replicate (suc k) m.body ++ l) h.read;
    apart = (differ, h.apart);
  }

  run_held :
      (entries : List ApiCall) (api : ℕ) (stream : Stream) (m : ApiCall) (k : ℕ)
      → All (IsPlain c explained) entries
      → length (message_with 0 m) < 2 ^ 32
      → Supplied c.buffer_size (length (message_with 0 m) + total_bytes entries) stream
      → Closed stream m k entries (
          run_loq c entries (idle explained delete api stream (some (block m k))) >>= λ s.
          log_flush c true s)
  unfolding run_loq idle block
  run_held [] api stream m k plain small h =
      let same_length = length-message_with k m in
      let s = idle explained delete api stream (some (block m k)) in
      end_of_run stream m k s (
        log_flush-Cleared c file room allocated 0 s (block m k) refl (omega (arith, same_length))
          (record { bounded = h.bounded; supplied = omega (arith, h.supplied, same_length) }))
  run_held (e ∷ entries) api stream m k plain small h = elim (bytes-cases m.body e.body) [
    | inl same ↦ rw (repeat-loq c explained delete api stream m e k plain.0 mode same) (
        one_more stream m e k entries
          (run_loq c entries (idle explained delete 0 stream (some (block m (k + 1)))) >>= λ s.
            log_flush c true s)
          same
          (run_held entries 0 stream m (k + 1) plain.1 small
            (record { bounded = h.bounded; supplied = omega (arith, h.supplied) })))
    | inr differ ↦
        go differ
          (other-loq c explained delete file room allocated api (total_bytes (e ∷ entries)) stream m
            e k plain.0 mode differ (omega (arith, length-message_with k m))
            (record {
              bounded = h.bounded;
              supplied = omega (arith, h.supplied, length-message_with k m);
            }))
          (λ stream' ready. run_held entries 0 stream' e 0 plain.1 plain.0.small ready)
  ]
    where
      go :
          {r : Option Log}
          → m.body ≢ e.body
          → Replaced c explained delete file room allocated
              (total_bytes (e ∷ entries))
              (text stream ++ message_with k m)
              e
              r
          → ((stream' : Stream)
              → Supplied c.buffer_size (total_bytes (e ∷ entries)) stream'
              → Closed stream' e 0 entries (
                  run_loq c entries (idle explained delete 0 stream' (some (block e 0))) >>= λ s.
                  log_flush c true s))
          → Closed stream m k
              (e ∷ entries)
              ((r >>= λ s'. run_loq c entries s') >>= λ s. log_flush c true s)
      go differ (replaced stream' ready same) next =
          another_run stream stream' m e k entries
            (run_loq c entries (idle explained delete 0 stream' (some (block e 0))) >>= λ s.
              log_flush c true s)
            differ same (next stream' ready)

  -- The log goes to a file, the buffer is there and not overfull, no message is held back and no
  -- special API was reported, `force_flush` is not 2, and `WriteFile` makes progress in as many calls
  -- as there are bytes to write. Then a run of fewer than 2 ^ 32 plain calls of `loq`, at least one,
  -- and a `log_flush` return. What was written is what was logged before and then messages with counts of
  -- repeats, from which a reader gets the bodies of the calls back in order; neighbours differ in
  -- their bodies, and no count wraps around.
  pub run_loq_lem :
      (e : ApiCall) (entries : List ApiCall) (api : ℕ) (stream : Stream)
      → All (IsPlain c explained) (e ∷ entries)
      → length (e ∷ entries) < 2 ^ 32
      → length stream.pending ≤ c.buffer_size
      → length stream.pending + total_bytes (e ∷ entries) ≤ progress stream.writes
      → (s : Log) × (runs : List Run) × ((run_loq c
              (e ∷ entries)
              (idle explained delete api stream none)
            >>= λ s'. log_flush c true s')
          ≡ some s)
        × (s.stream.sent ≡ (stream.sent ++ stream.pending) ++ written_bytes runs)
        × (bodies_read runs ≡ map (λ (e : ApiCall). e.body) (e ∷ entries))
        × NoneJoins runs
        × All (λ r. r.count < 2 ^ 32) runs
  unfolding run_loq
  run_loq_lem e entries api stream plain count bounded supply =
      let h =
        run_held entries 0 stream e 0 plain.1 plain.0.small
          (record { bounded = bounded; supplied = supply }) in
      (
        h.final,
        record { message = e; count = h.count } ∷ h.rest,
        rw (first-loq c explained delete api stream e plain.0 mode) h.returns,
        h.written,
        h.read,
        h.apart,
        counts-small (2 ^ 32) (record { message = e; count = h.count } ∷ h.rest)
            (omega (arith, ap (λ (l : List (List ℕ)). length l) h.read, length-map (e ∷ entries))),
      )
