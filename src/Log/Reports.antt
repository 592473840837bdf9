-- ===== src/Log/Reports.antt =====
-- Every call of `loq` in log.c: both passes over its arguments return.
use Prim.Native.String.{String}
use capemon.Base.{
  ℕ, ◌+◌, ◌≡◌, refl, Bool, true, false, Option, none, some, List, [], ◌∷◌, ◌++◌, length,
  length-append, arith,
}
use capemon.Log.{◌>>=◌}
use capemon.Log.Values.{Element, istr}
use capemon.Log.Format.{LogArg, LogServices}
use capemon.Log.Walk.{
  walk, is_count, typestr, Info, Values, info_round, value_round, info_pass, value_pass, skip_args,
  pop_name, omit_name,
}
use capemon.Log.Notes.{
  codes, named, TextOrNull, Note, log_hook_anomaly, log_anomaly, log_syscall, log_direct_syscall,
  log_procname_anomaly, log_hook_modification, hook_note, log_hook_removal, log_hook_restoration,
}
use capemon.Log.Environ.{log_new_process, Environ, bitness, log_environ}
use capemon.Log.Fitting.{
  FitsKey, Matches, finished, next_key, before_nul, until_nul-terminated, notes,
}

walk-plain :
    {S : Type 0} (body : ℕ → S → Option S) (c : ℕ) (fmt : List ℕ) (s : S)
    → is_count c ≡ false
    → walk body (c ∷ fmt) s ≡ (body c s >>= λ s'. walk body fmt s')
unfolding walk
walk-plain body c [] s h = rw h (go (body c s))
  where
    go : {S : Type 0} (o : Option S) → o ≡ (o >>= λ s'. some s')
    go none = refl
    go (some s') = refl
walk-plain body c (key ∷ fmt) s h = rw (walk, h) refl

module _ (e : LogServices) where
  info_round-named :
      (c : ℕ) (n : String) (arg : LogArg) (args : List LogArg) (argnum : ℕ)
      (names : List (List ℕ × List ℕ × Option ℕ))
      → FitsKey c arg
      → info_round e c (record {
        argnum = argnum;
        info_args = named n ∷ (arg ∷ args);
        names = names;
        unknown = [];
      })
        ≡ some (record {
          argnum = argnum + 1;
          info_args = args;
          names = names ++ (istr argnum, before_nul (codes n), typestr e.is_64_bit c) ∷ [];
          unknown = [];
        })
  unfolding info_round pop_name skip_args
  info_round-named c n arg args argnum names f =
      rw (until_nul-terminated (codes n), f.one, f.known) refl

  value_round-named :
      (c : ℕ) (n : String) (arg : LogArg) (args : List LogArg) (argnum : ℕ)
      (values : List (List ℕ × Element)) (f : FitsKey c arg)
      → value_round e c
          (record { argnum = argnum; value_args = named n ∷ (arg ∷ args); values = values })
        ≡ some (record {
          argnum = argnum + 1;
          value_args = args;
          values = values ++ (istr argnum, (f.valued e args).0) ∷ [];
        })
  unfolding value_round omit_name
  value_round-named c n arg args argnum values f = rw (f.known, (f.valued e args).1) refl

  -- Both passes, from where they are.
  record Passed (fmt : List ℕ) (count : ℕ) (i : Option Info) (v : Option Values) : Type 0 where
    info : Info
    values : Values
    info_done : i ≡ some info
    values_done : v ≡ some values
    quiet : info.unknown ≡ []
    info_left : info.info_args ≡ []
    values_left : values.value_args ≡ []
    counted : length values.values ≡ count + length fmt

  Matches-Passed :
      {fmt : List ℕ} {args : List LogArg} (argnum argnum' : ℕ)
      (names : List (List ℕ × List ℕ × Option ℕ)) (values : List (List ℕ × Element))
      → Matches fmt args
      → Passed fmt
          (length values)
          (walk
            (info_round e)
            fmt
            (record { argnum = argnum; info_args = args; names = names; unknown = [] }))
          (walk
            (value_round e)
            fmt
            (record { argnum = argnum'; value_args = args; values = values }))
  unfolding walk
  Matches-Passed argnum argnum' names values finished = record {
    info = _;
    values = _;
    info_done = refl;
    values_done = refl;
    quiet = refl;
    info_left = refl;
    values_left = refl;
    counted = omega arith;
  }
  Matches-Passed argnum argnum' names values (next_key {c} {arg} {fmt} {args} n f rest) =
      let names' = names ++ (istr argnum, before_nul (codes n), typestr e.is_64_bit c) ∷ [] in
      let values' = values ++ (istr argnum', (f.valued e args).0) ∷ [] in
      let h = Matches-Passed (argnum + 1) (argnum' + 1) names' values' rest in
      record {
        info = h.info;
        values = h.values;
        info_done =
            rw
              (
                walk-plain (info_round e) c fmt
                    (record {
                      argnum = argnum;
                      info_args = named n ∷ (arg ∷ args);
                      names = names;
                      unknown = [];
                    })
                    f.plain,
                info_round-named c n arg args argnum names f,
              )
              h.info_done;
        values_done =
            rw
              (
                walk-plain (value_round e) c fmt
                    (record {
                      argnum = argnum';
                      value_args = named n ∷ (arg ∷ args);
                      values = values;
                    })
                    f.plain,
                value_round-named c n arg args argnum' values f,
              )
              h.values_done;
        quiet = h.quiet;
        info_left = h.info_left;
        values_left = h.values_left;
        counted =
            omega
              (arith, h.counted, length-append values ((istr argnum', (f.valued e args).0) ∷ []));
      }

-- The calls of `loq` in log.c but `log_new_thread`, with what they pass on.
pub data Report : Type 0 where
  new_process : (low high pid parent : ℕ) → TextOrNull → Report
  environ : Environ → Report
  hook_anomaly : ℕ → (a b : TextOrNull) → ℕ → TextOrNull → Report
  anomaly : ℕ → (a b : TextOrNull) → Report
  syscall : ℕ → (a b : TextOrNull) → ℕ → Report
  direct_syscall : ℕ → TextOrNull → ℕ → Report
  procname_anomaly : ℕ → (a b c d : TextOrNull) → Report
  hook_modification : ℕ → TextOrNull → ℕ → (a b : TextOrNull) → Report
  hook_removal : ℕ → TextOrNull → ℕ → Report
  hook_restoration : ℕ → TextOrNull → ℕ → Report

unfoldable pub note_of : Report → Note
note_of (new_process low high pid parent path) = log_new_process low high pid parent path
note_of (environ v) = log_environ v
note_of (hook_anomaly tid a b addr c) = log_hook_anomaly tid a b addr c
note_of (anomaly tid a b) = log_anomaly tid a b
note_of (syscall tid a b addr) = log_syscall tid a b addr
note_of (direct_syscall tid a addr) = log_direct_syscall tid a addr
note_of (procname_anomaly tid a b c d) = log_procname_anomaly tid a b c d
note_of (hook_modification tid a addr b c) = log_hook_modification tid a addr b c
note_of (hook_removal tid a addr) = log_hook_removal tid a addr
note_of (hook_restoration tid a addr) = log_hook_restoration tid a addr

syscall-Matches :
    (tid : ℕ) (a b : TextOrNull) (addr : ℕ) → let n = log_syscall tid a b addr in Matches n.0 n.1
unfolding log_syscall
syscall-Matches tid none none addr = search notes depth 10
syscall-Matches tid none (some []) addr = search notes depth 10
syscall-Matches tid none (some (c ∷ f)) addr = search notes depth 10
syscall-Matches tid (some m) none addr = search notes depth 10
syscall-Matches tid (some m) (some []) addr = search notes depth 10
syscall-Matches tid (some m) (some (c ∷ f)) addr = search notes depth 10

bitness-FitsKey : (b : Bool) → FitsKey b's' (bitness b)
unfolding bitness
bitness-FitsKey true = search notes depth 10
bitness-FitsKey false = search notes depth 10

environ-Matches : (v : Environ) → let n = log_environ v in Matches n.0 n.1
unfolding log_environ
environ-Matches v = search (notes, bitness-FitsKey) depth 20

note_of-Matches : (r : Report) → Matches (note_of r).0 (note_of r).1
unfolding note_of log_new_process log_hook_anomaly log_anomaly log_direct_syscall
    log_procname_anomaly log_hook_modification hook_note log_hook_removal log_hook_restoration
note_of-Matches (new_process low high pid parent path) = search notes depth 10
note_of-Matches (environ v) = environ-Matches v
note_of-Matches (hook_anomaly tid a b addr c) = search notes depth 10
note_of-Matches (anomaly tid a b) = search notes depth 10
note_of-Matches (syscall tid a b addr) = syscall-Matches tid a b addr
note_of-Matches (direct_syscall tid a addr) = search notes depth 10
note_of-Matches (procname_anomaly tid a b c d) = search notes depth 10
note_of-Matches (hook_modification tid a addr b c) = search notes depth 10
note_of-Matches (hook_removal tid a addr) = search notes depth 10
note_of-Matches (hook_restoration tid a addr) = search notes depth 10

-- For every call of `loq` in log.c but the one of `log_new_thread`, and every text, NULL or number that
-- it passes on, the arguments are of the types that the format says: both passes return, report no
-- unknown character and leave no argument over, and there is a value for each character of the format.
pub note_of-fits :
    (r : Report) (e : LogServices)
    → (i : Info) × (v : Values) × (info_pass e (note_of r).0 (note_of r).1 ≡ some i)
      × (value_pass e (note_of r).0 (note_of r).1 ≡ some v)
      × (i.unknown ≡ [])
      × (i.info_args ≡ [])
      × (v.value_args ≡ [])
      × (length v.values ≡ length (note_of r).0)
unfolding info_pass value_pass
note_of-fits r e =
    let h = Matches-Passed e 2 2 [] [] (note_of-Matches r) in
    (
      h.info,
      h.values,
      h.info_done,
      h.values_done,
      h.quiet,
      h.info_left,
      h.values_left,
      omega (arith, h.counted),
    )
