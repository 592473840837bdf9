-- ===== src/Log/Jobs.antt =====
-- Sequences of messages and of rounds of the log thread.
use mathlib.Core.List.{append_assoc, append-nil}
use capemon.Base.{
  ℕ, zero, suc, ◌+◌, ◌^◌, ◌≤◌, ◌<◌, ◌≡◌, ◌≢◌, ◌∙◌, refl, sym, ap, true, Option, none, some, List,
  [], ◌∷◌, ◌++◌, length, All, length-append, arith,
}
use capemon.Log.{
  Write, failed, wrote, Stream, Settings, Job, raw, round, write_loop, writes_to_file, send_log,
  do_job, run_jobs, ◌>>=◌,
}
use capemon.Log.Writing.{
  progress, text, Supplied, Logged, logged, Flushed, flushed, send_log_lem, log_raw_direct_lem,
}

abbrev pub message_of : Job → List ℕ
message_of (raw buf) = buf
message_of round = []

abbrev pub messages : List Job → List ℕ
messages [] = []
messages (job ∷ jobs) = message_of job ++ messages jobs

abbrev pub IsSmall : Job → Type 0
IsSmall job = length (message_of job) < 2 ^ 32

module _ (c : Settings) where
  module _ (file : writes_to_file c ≡ true) (room : 0 < c.buffer_size)
      (allocated : c.allocated ≡ true) where
    do_job-Logged :
        (todo : ℕ) (job : Job) (s : Stream)
        → IsSmall job
        → Supplied c.buffer_size (length (message_of job) + todo) s
        → Logged c.buffer_size todo (text s ++ message_of job) (do_job c job s)
    unfolding do_job
    do_job-Logged todo (raw buf) s small h =
        log_raw_direct_lem c file room todo s buf allocated small h
    do_job-Logged todo round s small h = go (send_log_lem c file todo s (omega (arith, h.supplied)))
      where
        go :
            {r : Option Stream}
            → Flushed todo (text s) r
            → Logged c.buffer_size todo (text s ++ []) r
        go (flushed s' empty supply sent) =
            logged s' (record { bounded = ground (arith); supplied = ground (arith) })
              (ap (λ l. s'.sent ++ l) empty
                ∙ (append-nil s'.sent ∙ (sent ∙ sym (append-nil (text s)))))

    -- The log goes to a file, and the buffer is there and not overfull. Messages below 4 GB come with
    -- any rounds of the log thread between them, and `WriteFile` may fail or take nothing as often as
    -- it likes, but takes a byte or more in as many calls as there are bytes to write. Then every call
    -- returns, the buffer is never overfull, and what was written, followed by what is in the buffer,
    -- is what was logged before and then the messages, in order.
    pub run_jobs_lem :
        (jobs : List Job) (s : Stream)
        → All IsSmall jobs
        → length s.pending ≤ c.buffer_size
        → length s.pending + length (messages jobs) ≤ progress s.writes
        → (s' : Stream) × (run_jobs c jobs s ≡ some s')
          × (length s'.pending ≤ c.buffer_size)
          × (s'.sent ++ s'.pending ≡ (s.sent ++ s.pending) ++ messages jobs)
    unfolding run_jobs
    run_jobs_lem [] s small bounded supply = (s, refl, bounded, sym (append-nil (text s)))
    run_jobs_lem (job ∷ jobs) s small bounded supply =
        go
          (do_job-Logged (length (messages jobs)) job s small.0 (record {
            bounded = bounded;
            supplied = omega (arith, length-append (message_of job) (messages jobs));
          }))
          (λ s1 h. run_jobs_lem jobs s1 small.1 h.bounded h.supplied)
      where
        go :
            {r : Option Stream}
            → Logged c.buffer_size (length (messages jobs)) (text s ++ message_of job) r
            → ((s1 : Stream)
                → Supplied c.buffer_size (length (messages jobs)) s1
                → (s' : Stream) × (run_jobs c jobs s1 ≡ some s')
                  × (length s'.pending ≤ c.buffer_size)
                  × (s'.sent ++ s'.pending ≡ (s1.sent ++ s1.pending) ++ messages jobs))
            → (s' : Stream) × ((r >>= λ s1. run_jobs c jobs s1) ≡ some s')
              × (length s'.pending ≤ c.buffer_size)
              × (s'.sent ++ s'.pending ≡ (s.sent ++ s.pending) ++ messages (job ∷ jobs))
        go (logged s1 h same) next =
            let r = next s1 h in
            (
              r.0,
              r.1,
              r.2,
              r.3
                  ∙ (ap (λ l. l ++ messages jobs) same
                      ∙ append_assoc (text s) (message_of job) (messages jobs)),
            )

  write_loop-stuck :
      (writes : List Write) (buf sent : List ℕ)
      → progress writes ≡ 0
      → buf ≢ []
      → write_loop writes buf sent ≡ none
  unfolding write_loop progress
  write_loop-stuck writes [] sent h ne = absurd (ne refl)
  write_loop-stuck [] (b ∷ buf) sent h ne = refl
  write_loop-stuck (failed ∷ writes) (b ∷ buf) sent h ne =
      write_loop-stuck writes (b ∷ buf) sent h ne
  write_loop-stuck (wrote zero ∷ writes) (b ∷ buf) sent h ne =
      write_loop-stuck writes (b ∷ buf) (sent ++ []) h ne
  write_loop-stuck (wrote (suc n) ∷ writes) (b ∷ buf) sent h ne = absurd (omega arith)

  -- While `WriteFile` fails or takes nothing, a `_send_log` with something to write does not return,
  -- however often it has tried.
  pub send_log-stuck :
      (s : Stream)
      → writes_to_file c ≡ true
      → progress s.writes ≡ 0
      → s.pending ≢ []
      → send_log c s ≡ none
  unfolding send_log
  send_log-stuck s file h ne = rw file (write_loop-stuck s.writes s.pending s.sent h ne)
