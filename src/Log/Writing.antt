-- ===== src/Log/Writing.antt =====
-- The buffer in front of the log file: nothing is lost, reordered or written twice, and with enough
-- calls of `WriteFile` that succeed every loop ends.
use mathlib.Core.List.{append_assoc, append-nil}
use mathlib.Core.Path.{subst}
use capemon.Base.{
  ℕ, zero, suc, ◌+◌, ◌^◌, ◌≤◌, ◌<◌, ◌≡◌, ◌∙◌, ◌≢◌, ◌⊎◌, inl, inr, refl, sym, ap, true, Option, some,
  List, [], ◌∷◌, ◌++◌, length, take, drop, length-append, length-drop, length-take, arith,
}
use capemon.Log.{
  Write, failed, wrote, Stream, Settings, write_loop, writes_to_file, send_log, send_rest,
  copy_length, copy_in, raw_loop, log_raw_direct, ◌>>=◌,
}

-- The calls that take a byte at least.
unfoldable pub progress : List Write → ℕ
progress [] = 0
progress (failed ∷ writes) = progress writes
progress (wrote zero ∷ writes) = progress writes
progress (wrote (suc n) ∷ writes) = suc (progress writes)

-- What the program has logged so far.
abbrev pub text : Stream → List ℕ
text s = s.sent ++ s.pending

-- The buffer is within its bound, and what is in it and `todo` bytes more can be written.
pub record Supplied (size todo : ℕ) (s : Stream) : Type 0 where
  pub bounded : length s.pending ≤ size
  pub supplied : length s.pending + todo ≤ progress s.writes

-- A call that returns, with `all` as the text and a supply for `todo` bytes.
pub data Logged (size todo : ℕ) (all : List ℕ) : Option Stream → Type 0 where
  logged : (s : Stream) → Supplied size todo s → text s ≡ all → Logged size todo all (some s)

-- The same with an empty buffer.
pub data Flushed (todo : ℕ) (all : List ℕ) : Option Stream → Type 0 where
  flushed :
      (s : Stream)
      → s.pending ≡ []
      → todo ≤ progress s.writes
      → s.sent ≡ all
      → Flushed todo all (some s)

take-drop : (n : ℕ) (xs : List ℕ) → take n xs ++ drop n xs ≡ xs
take-drop zero xs = refl
take-drop (suc n) [] = refl
take-drop (suc n) (x ∷ xs) = ap (◌∷◌ x) (take-drop n xs)

pub write_loop_lem :
    (todo : ℕ) (writes : List Write) (buf sent : List ℕ)
    → length buf + todo ≤ progress writes
    → Flushed todo (sent ++ buf) (write_loop writes buf sent)
unfolding write_loop progress
write_loop_lem todo writes [] sent h =
    flushed (record { pending = []; sent = sent; writes = writes }) refl (omega arith)
      (sym (append-nil sent))
write_loop_lem todo [] (b ∷ buf) sent h = absurd (omega arith)
write_loop_lem todo (failed ∷ writes) (b ∷ buf) sent h = write_loop_lem todo writes (b ∷ buf) sent h
write_loop_lem todo (wrote zero ∷ writes) (b ∷ buf) sent h =
    rw (append-nil sent) (write_loop_lem todo writes (b ∷ buf) sent h)
write_loop_lem todo (wrote (suc n) ∷ writes) (b ∷ buf) sent h =
    let e : (sent ++ take (suc n) (b ∷ buf)) ++ drop n buf ≡ sent ++ (b ∷ buf) =
      ground (arith, append_assoc sent (b ∷ take n buf) (drop n buf), take-drop n buf) in
    subst (λ l. Flushed todo l (write_loop writes (drop n buf) (sent ++ take (suc n) (b ∷ buf)))) e
      (write_loop_lem todo writes (drop n buf) (sent ++ take (suc n) (b ∷ buf))
        (omega (arith, length-drop n buf)))

List-cases : (xs : List ℕ) → (xs ≡ []) ⊎ ((x : ℕ) × (ys : List ℕ) × (xs ≡ x ∷ ys))
List-cases [] = inl refl
List-cases (x ∷ xs) = inr (x, xs, refl)

module _ (c : Settings) (file : writes_to_file c ≡ true) where
  pub send_log_lem :
      (todo : ℕ) (s : Stream)
      → length s.pending + todo ≤ progress s.writes
      → Flushed todo (text s) (send_log c s)
  unfolding send_log
  send_log_lem todo s h = rw file (write_loop_lem todo s.writes s.pending s.sent h)

  send_rest-Flushed :
      (todo : ℕ) (rest : List ℕ) (s : Stream)
      → rest ≢ []
      → length s.pending + todo ≤ progress s.writes
      → Flushed todo (text s) (send_rest c rest s)
  unfolding send_rest
  send_rest-Flushed todo [] s ne h = absurd (ne refl)
  send_rest-Flushed todo (x ∷ rest) s ne h = send_log_lem todo s h

  module _ (room : 0 < c.buffer_size) where
    copy_in-Supplied :
        (todo : ℕ) (s : Stream) (buf : List ℕ)
        → length buf < 2 ^ 32
        → Supplied c.buffer_size (length buf + todo) s
        → Supplied c.buffer_size
            (length (drop (copy_length c s buf) buf) + todo)
            (copy_in (copy_length c s buf) s buf)
    unfolding copy_length copy_in
    copy_in-Supplied todo s buf small h =
        let n = copy_length c s buf in
        record {
          bounded =
              omega (arith, h.bounded, length-append s.pending (take n buf), length-take n buf);
          supplied = omega (
            arith,
            h.bounded,
            h.supplied,
            length-append s.pending (take n buf),
            length-take n buf,
            length-drop n buf,
          );
        }

    text-copy_in :
        (n : ℕ) (s : Stream) (buf : List ℕ) → text (copy_in n s buf) ++ drop n buf ≡ text s ++ buf
    unfolding copy_in
    text-copy_in n s buf = ground (
      arith,
      take-drop n buf,
      append_assoc s.sent s.pending (take n buf),
      append_assoc (s.sent ++ s.pending) (take n buf) (drop n buf),
    )

    -- A round moves on, or there was no room and the buffer is sent.
    shorter :
        (fuel : ℕ) (s : Stream) (buf : List ℕ)
        → length buf < 2 ^ 32
        → (length s.pending < c.buffer_size) ⊎ (length buf < suc fuel)
        → length buf ≤ suc fuel
        → 0 < length buf
        → length (drop (copy_length c s buf) buf) ≤ fuel
    unfolding copy_length
    shorter fuel s buf small free enough some_left =
        omega (arith, length-drop (copy_length c s buf) buf)

    -- What a round leaves to the rest of the loop.
    copied :
        (todo fuel : ℕ) (rest : List ℕ) (s : Stream) (all : List ℕ)
        → text s ++ rest ≡ all
        → Supplied c.buffer_size (length rest + todo) s
        → ((s' : Stream)
            → s'.pending ≡ []
            → Supplied c.buffer_size (length rest + todo) s'
            → Logged c.buffer_size todo (text s' ++ rest) (raw_loop fuel c s' rest))
        → Logged c.buffer_size todo all (send_rest c rest s >>= λ s'. raw_loop fuel c s' rest)
    unfolding raw_loop send_rest
    copied todo fuel [] s all same h next =
        logged s (record { bounded = h.bounded; supplied = omega (arith, h.supplied) })
          (sym (append-nil (text s)) ∙ same)
    copied todo fuel (x ∷ rest) s all same h next =
        go (send_rest-Flushed (length (x ∷ rest) + todo) (x ∷ rest) s (λ e. cc) h.supplied)
      where
        go :
            {r : Option Stream}
            → Flushed (length (x ∷ rest) + todo) (text s) r
            → Logged c.buffer_size todo all (r >>= λ s'. raw_loop fuel c s' (x ∷ rest))
        go (flushed s' empty supply sent) =
            let e : text s' ++ x ∷ rest ≡ all = ground (arith, append-nil s'.sent) in
            subst (λ l. Logged c.buffer_size todo l (raw_loop fuel c s' (x ∷ rest))) e
              (next s' empty (record { bounded = ground (arith); supplied = ground (arith) }))

    pub raw_loop_lem :
        (todo fuel : ℕ) (s : Stream) (buf : List ℕ)
        → length buf < 2 ^ 32
        → (length s.pending < c.buffer_size) ⊎ (length buf < fuel)
        → length buf ≤ fuel
        → Supplied c.buffer_size (length buf + todo) s
        → Logged c.buffer_size todo (text s ++ buf) (raw_loop fuel c s buf)
    unfolding raw_loop
    raw_loop_lem todo fuel s [] small free enough h =
        logged s (record { bounded = h.bounded; supplied = omega (arith, h.supplied) })
          (sym (append-nil (text s)))
    raw_loop_lem todo zero s (b ∷ buf) small free enough h = absurd (omega arith)
    raw_loop_lem todo (suc fuel) s (b ∷ buf) small free enough h =
        let all : List ℕ = b ∷ buf in
        let n = copy_length c s all in
        let less = shorter fuel s all small free enough (omega arith) in
        copied todo fuel (drop n all) (copy_in n s all) (text s ++ all) (text-copy_in n s all)
          (copy_in-Supplied todo s all small h)
          (λ s' empty ready.
            raw_loop_lem todo fuel s' (drop n all) (omega (arith, length-drop n all))
              (inl (omega (arith, room, ap (λ (l : List ℕ). length l) empty))) less ready)

    pub log_raw_direct_lem :
        (todo : ℕ) (s : Stream) (buf : List ℕ)
        → c.allocated ≡ true
        → length buf < 2 ^ 32
        → Supplied c.buffer_size (length buf + todo) s
        → Logged c.buffer_size todo (text s ++ buf) (log_raw_direct c s buf)
    unfolding log_raw_direct
    log_raw_direct_lem todo s buf allocated small h =
        simp allocated
          (raw_loop_lem todo (suc (length buf)) s buf small (inr (omega arith)) (omega arith) h)
