-- ===== src/Log/Repeats.antt =====
-- A run of calls that log: the messages come out in order, with each repeat of the last one as a count
-- in its bytes.
use capemon.Base.{
  ℕ, suc, ◌+◌, ◌^◌, ◌<◌, ◌≡◌, ◌≢◌, refl, inl, inr, Bool, true, false, ◌&&◌, Option, none, some,
  List, [], ◌∷◌, ◌++◌, length, get_elem?, leb, replicate, Bool-cases, ◌==◌,
}
use capemon.Log.{Stream, Settings, LastLog, Log, writes_to_file, ◌>>=◌}
use capemon.Log.Calls.{
  ApiCall, is_critical, is_repeat, message_with, compare_last, hold, emit_message, check_special,
  explain, log_locked, loq,
}
use capemon.Log.Writing.{text, Supplied}
use capemon.Log.Last.{
  block, is_repeat-block, is_repeat_sound, count_repeat-block, Emptied, emptied, flush_last-Emptied,
}

-- A message, and how often it was repeated behind it.
pub record Run : Type 0 where
  pub message : ApiCall
  pub count : ℕ

abbrev pub written_bytes : List Run → List ℕ
written_bytes [] = []
written_bytes (r ∷ runs) = message_with r.count r.message ++ written_bytes runs

-- The bodies that a reader of the log takes from it.
abbrev pub bodies_read : List Run → List (List ℕ)
bodies_read [] = []
bodies_read (r ∷ runs) = replicate (suc r.count) r.message.body ++ bodies_read runs

-- No run can be joined with the next.
abbrev pub NoneJoins : List Run → Type 0
NoneJoins [] = Unit
NoneJoins (r ∷ []) = Unit
NoneJoins (r ∷ (r' ∷ runs)) = (r.message.body ≢ r'.message.body) × NoneJoins (r' ∷ runs)

abbrev pub total_bytes : List ApiCall → ℕ
total_bytes [] = 0
total_bytes (e ∷ entries) = length (message_with 0 e) + total_bytes entries

-- A call that logs a message only: the lock is free, the call is not suspended, has been explained,
-- and is none of those that are written at once.
pub record IsPlain (c : Settings) (explained : List Bool) (e : ApiCall) : Type 0 where
  pub entered : e.entered ≡ true
  pub unsuspended : (leb 10 e.index && c.suspend_logging) ≡ false
  pub known : get_elem? explained e.index ≡ some true
  pub usual : is_critical e.index ≡ false
  pub small : length (message_with 0 e) < 2 ^ 32

-- Between the calls, with no special API reported.
unfoldable pub idle : List Bool → Bool → ℕ → Stream → Option LastLog → Log
idle explained delete api stream lastlog = record {
  stream = stream;
  lastlog = lastlog;
  logtbl_explained = explained;
  special_api_triggered = false;
  delete_last_log = delete;
  last_api_logged = api;
}

-- The exit of `loq` leaves the state alone.
left_alone :
    (e : ApiCall) (r : Option Log)
    → ((r >>= λ s. some (hold e s)) >>= λ s. some s) ≡ (r >>= λ s. some (hold e s))
left_alone e none = refl
left_alone e (some s) = refl

module _ (c : Settings) (explained : List Bool) (delete : Bool) where
  loq-idle :
      (api : ℕ) (stream : Stream) (lastlog : Option LastLog) (e : ApiCall)
      → IsPlain c explained e
      → (c.force_flush == 2) ≡ false
      → loq c e (idle explained delete api stream lastlog)
        ≡ (compare_last c e (idle explained delete 0 stream lastlog) >>= λ s. some (hold e s))
  unfolding loq log_locked check_special explain emit_message idle
  loq-idle api stream lastlog e p mode =
      simp (p.entered, p.unsuspended, p.known, p.usual, mode)
        (left_alone e (compare_last c e (idle explained delete 0 stream lastlog)))

  pub first-loq :
      (api : ℕ) (stream : Stream) (e : ApiCall)
      → IsPlain c explained e
      → (c.force_flush == 2) ≡ false
      → loq c e (idle explained delete api stream none)
        ≡ some (idle explained delete 0 stream (some (block e 0)))
  unfolding compare_last hold idle block
  first-loq api stream e p mode = rw (loq-idle api stream none e p mode) refl

  pub repeat-loq :
      (api : ℕ) (stream : Stream) (m e : ApiCall) (k : ℕ)
      → IsPlain c explained e
      → (c.force_flush == 2) ≡ false
      → m.body ≡ e.body
      → loq c e (idle explained delete api stream (some (block m k)))
        ≡ some (idle explained delete 0 stream (some (block m (k + 1))))
  unfolding compare_last hold idle
  repeat-loq api stream m e k p mode same =
      rw
        (
          loq-idle api stream (some (block m k)) e p mode,
          is_repeat-block m e k same,
          count_repeat-block m k (idle explained delete 0 stream (some (block m k))),
        )
        refl

  module _ (file : writes_to_file c ≡ true) (room : 0 < c.buffer_size)
      (allocated : c.allocated ≡ true) where
    -- Another message comes: the held one goes out.
    pub data Replaced (todo : ℕ) (all : List ℕ) (e : ApiCall) : Option Log → Type 0 where
      replaced :
          (stream : Stream)
          → Supplied c.buffer_size todo stream
          → text stream ≡ all
          → Replaced todo all e (some (idle explained delete 0 stream (some (block e 0))))

    pub other-loq :
        (api todo : ℕ) (stream : Stream) (m e : ApiCall) (k : ℕ)
        → IsPlain c explained e
        → (c.force_flush == 2) ≡ false
        → m.body ≢ e.body
        → length (message_with k m) < 2 ^ 32
        → Supplied c.buffer_size (length (message_with k m) + todo) stream
        → Replaced todo
            (text stream ++ message_with k m)
            e
            (loq c e (idle explained delete api stream (some (block m k))))
    unfolding compare_last hold idle block
    other-loq api todo stream m e k p mode other small h =
        rw (loq-idle api stream (some (block m k)) e p mode)
          (elim (Bool-cases (is_repeat (block m k) e)) [
            | inl same ↦ absurd (other (is_repeat_sound m e k same))
            | inr differ ↦ rw differ (
                go (
                  flush_last-Emptied c file room allocated todo
                    (idle explained delete 0 stream (some (block m k))) (block m k) refl small h))
          ])
      where
        go :
            {r : Option Log}
            → Emptied c.buffer_size todo
                (text stream ++ message_with k m)
                (idle explained delete 0 stream (some (block m k)))
                r
            → Replaced todo (text stream ++ message_with k m) e (r >>= λ s. some (hold e s))
        go (emptied stream' ready same) = replaced stream' ready same
