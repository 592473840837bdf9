-- ===== src/Log/Agreeing.antt =====
-- The two passes of `loq` side by side: they take the same arguments, and number names and values alike.
use mathlib.Core.List.{map-append}
use mathlib.Core.Option.{some-injective}
use mathlib.Core.Path.{subst}
use capemon.Base.{
  ℕ, zero, suc, ◌+◌, ◌-◌, ◌≡◌, ◌≢◌, ◌∙◌, refl, sym, ap, ap₂, inl, inr, true, Option, none, some,
  List, [], ◌∷◌, ◌++◌, if◌then◌else◌, map, arith, Bool-cases, length, length-append,
}
use capemon.Log.{◌>>=◌}
use capemon.Log.Values.{istr, Element}
use capemon.Log.Format.{LogArg, LogServices, known_value}
use capemon.Log.Walk.{
  Info, Values, skip_args, ignored_count, is_format_key, is_count, pop_name, omit_name, typestr,
  info_round, value_round, info_pass, value_pass, walk, rounds,
}
use capemon.Log.Passes.{known_value-skip}

-- `argnum` from `first` on, as text.
abbrev pub numbered : ℕ → ℕ → List (List ℕ)
numbered first zero = []
numbered first (suc count) = istr first ∷ numbered (first + 1) count

numbered-snoc :
    (first count : ℕ)
    → numbered first (count + 1) ≡ numbered first count ++ istr (first + count) ∷ []
numbered-snoc first zero = ground arith
numbered-snoc first (suc count) = ground (arith, numbered-snoc (first + 1) count)

next_key :
    {A : Type 0} (key_of : A → List ℕ) (xs : List A) (a : A) (count : ℕ)
    → map key_of xs ≡ numbered 2 count
    → key_of a ≡ istr (2 + count)
    → map key_of (xs ++ a ∷ []) ≡ numbered 2 (count + 1)
next_key key_of xs a count before now =
    map-append key_of xs (a ∷ [])
    ∙ (ap₂ (λ l x. l ++ x ∷ []) before now ∙ sym (numbered-snoc 2 count))

record Agree (i : Info) (v : Values) : Type 0 where
  rest : i.info_args ≡ v.value_args
  nums : i.argnum ≡ v.argnum
  counted : v.argnum ≡ 2 + length v.values
  info_keys : map (λ n. n.0) i.names ≡ numbered 2 (length v.values)
  value_keys : map (λ n. n.0) v.values ≡ numbered 2 (length v.values)

-- What a chain of two steps went through.
bind-split :
    {A B : Type 0} (o : Option A) (k : A → Option B) (b : B)
    → (o >>= k) ≡ some b
    → (a : A) × (o ≡ some a) × (k a ≡ some b)
bind-split none k b h = cc
bind-split (some a) k b h = (a, refl, h)

-- Two bodies that keep a relation between their states, walked over one format.
module _ {S T : Type 0} (f : ℕ → S → Option S) (g : ℕ → T → Option T) (R : S → T → Type 0)
    (step : (key : ℕ) (s s' : S) (t t' : T)
      → f key s ≡ some s'
      → g key t ≡ some t'
      → R s t
      → R s' t') where
  rounds-both :
      (count key : ℕ) (s s' : S) (t t' : T)
      → rounds f count key s ≡ some s'
      → rounds g count key t ≡ some t'
      → R s t
      → R s' t'
  unfolding rounds
  rounds-both zero key s s' t t' hs ht r =
      subst (λ x. R x t') (some-injective s s' hs) (subst (R s) (some-injective t t' ht) r)
  rounds-both (suc count) key s s' t t' hs ht r =
      let a = bind-split (f key s) (rounds f count key) s' hs in
      let b = bind-split (g key t) (rounds g count key) t' ht in
      rounds-both count key a.0 s' b.0 t' a.2 b.2 (step key s a.0 t b.0 a.1 b.1 r)

  walk-both :
      (fmt : List ℕ) (s s' : S) (t t' : T)
      → walk f fmt s ≡ some s'
      → walk g fmt t ≡ some t'
      → R s t
      → R s' t'
  unfolding walk
  walk-both [] s s' t t' hs ht r =
      subst (λ x. R x t') (some-injective s s' hs) (subst (R s) (some-injective t t' ht) r)
  walk-both (c ∷ []) s s' t t' hs ht r = elim (Bool-cases (is_count c)) [
    | inl e ↦ absurd (cc)
    | inr e ↦ step c s s' t t' (rw e at hs) (rw e at ht) r
  ]
  walk-both (c ∷ (key ∷ fmt)) s s' t t' hs ht r = elim (Bool-cases (is_count c)) [
    | inl e ↦
        let a = bind-split (rounds f (c - b'0') key s) (walk f fmt) s' (rw (walk, e) at hs) in
        let b = bind-split (rounds g (c - b'0') key t) (walk g fmt) t' (rw (walk, e) at ht) in
        walk-both fmt a.0 s' b.0 t' a.2 b.2 (rounds-both (c - b'0') key s a.0 t b.0 a.1 b.1 r)
    | inr e ↦
        let a = bind-split (f c s) (walk f (key ∷ fmt)) s' (rw (walk, e) at hs) in
        let b = bind-split (g c t) (walk g (key ∷ fmt)) t' (rw (walk, e) at ht) in
        walk-both (key ∷ fmt) a.0 s' b.0 t' a.2 b.2 (step c s a.0 t b.0 a.1 b.1 r)
  ]

omit-pop :
    (args : List LogArg) (p : List ℕ × List LogArg)
    → pop_name args ≡ some p
    → omit_name args ≡ some p.1
unfolding pop_name omit_name
omit-pop args p h = ground arith

snoc-nonempty : (xs : List ℕ) (x : ℕ) → xs ++ x ∷ [] ≢ []
snoc-nonempty [] x e = cc
snoc-nonempty (y ∷ xs) x e = cc

module _ (e : LogServices) where
  -- One entry of the description, and one value.
  data InfoRound (key : ℕ) (i : Info) : Info → Type 0 where
    info_round_done :
        (pname : List ℕ) (args rest : List LogArg)
        → pop_name i.info_args ≡ some (pname, args)
        → skip_args (ignored_count key) args ≡ some rest
        → InfoRound key i (record {
          argnum = i.argnum + 1;
          info_args = rest;
          names = i.names ++ (istr i.argnum, pname, typestr e.is_64_bit key) ∷ [];
          unknown = if is_format_key key then i.unknown else i.unknown ++ key ∷ [];
        })

  info_round-InfoRound : (key : ℕ) (i i' : Info) → info_round e key i ≡ some i' → InfoRound key i i'
  unfolding info_round
  info_round-InfoRound key i i' h =
      let a = bind-split (pop_name i.info_args) _ i' h in
      let b = bind-split (skip_args (ignored_count key) a.0.1) _ i' a.2 in
      subst (InfoRound key i) (some-injective _ i' b.2) (info_round_done a.0.0 a.0.1 b.0 a.1 b.1)

  data ValueRound (key : ℕ) (v : Values) : Values → Type 0 where
    value_round_done :
        (args rest : List LogArg) (x : Element)
        → omit_name v.value_args ≡ some args
        → known_value e key args ≡ some (x, rest)
        → ValueRound key v (record {
          argnum = v.argnum + 1;
          value_args = rest;
          values = v.values ++ (istr v.argnum, x) ∷ [];
        })

  value_round-ValueRound :
      (key : ℕ) (v v' : Values)
      → is_format_key key ≡ true
      → value_round e key v ≡ some v'
      → ValueRound key v v'
  unfolding value_round
  value_round-ValueRound key v v' known h =
      let a = bind-split (omit_name v.value_args) _ v' h in
      let b = bind-split (known_value e key a.0) _ v' (rw known at a.2) in
      subst (ValueRound key v) (some-injective _ v' b.2) (value_round_done a.0 b.0.1 b.0.0 a.1 b.1)

  both_step :
      (key : ℕ) (i i' : Info) (v v' : Values)
      → is_format_key key ≡ true
      → InfoRound key i i'
      → ValueRound key v v'
      → Agree i v
      → Agree i' v'
  both_step key i i' v v' known (info_round_done pname args rest pop skip)
        (value_round_done args' rest' x omit value) h =
      let longer : length (v.values ++ (istr v.argnum, x) ∷ []) ≡ length v.values + 1 =
        length-append v.values ((istr v.argnum, x) ∷ []) in
      record {
        rest = ground (
          arith,
          h.rest,
          omit-pop i.info_args (pname, args) pop,
          known_value-skip e args' rest' x key value known,
        );
        nums = ap (λ (n : ℕ). n + 1) h.nums;
        counted = omega (arith, h.counted, length-append v.values ((istr v.argnum, x) ∷ []));
        info_keys =
            subst (λ (n : ℕ). map (λ n. n.0) i'.names ≡ numbered 2 n) (sym longer)
              (next_key (λ n. n.0) i.names (istr i.argnum, pname, typestr e.is_64_bit key)
                (length v.values) h.info_keys (ap istr (h.nums ∙ h.counted)));
        value_keys =
            subst (λ (n : ℕ). map (λ n. n.0) v'.values ≡ numbered 2 n) (sym longer)
              (next_key (λ n. n.0) v.values (istr v.argnum, x) (length v.values) h.value_keys
                (ap istr h.counted));
      }

  -- While nothing is reported, the passes agree.
  AgreeIfKnown : Info → Values → Type 0
  AgreeIfKnown i v = i.unknown ≡ [] → Agree i v

  passes_step :
      (key : ℕ) (i i' : Info) (v v' : Values)
      → info_round e key i ≡ some i'
      → value_round e key v ≡ some v'
      → AgreeIfKnown i v
      → AgreeIfKnown i' v'
  unfolding AgreeIfKnown
  passes_step key i i' v v' hi hv agree = go (info_round-InfoRound key i i' hi) hv
    where
      go :
          {i' : Info}
          → InfoRound key i i'
          → value_round e key v ≡ some v'
          → i'.unknown ≡ []
          → Agree i' v'
      go (info_round_done pname args rest pop skip) hv quiet =
          elim (Bool-cases (is_format_key key)) [
            | inl known ↦
                both_step key i _ v v' known (info_round_done pname args rest pop skip)
                  (value_round-ValueRound key v v' known hv) (agree (rw known at quiet))
            | inr strange ↦ absurd (snoc-nonempty i.unknown key (rw strange at quiet))
          ]

  -- If both passes of `loq` return, and the first has reported no unknown character of the format, both
  -- leave the same arguments, and both number what they found from 2 on without a gap: each name of the
  -- description has a value under the same key.
  pub info_pass-value_pass :
      (fmt : List ℕ) (args : List LogArg) (i : Info) (v : Values)
      → info_pass e fmt args ≡ some i
      → value_pass e fmt args ≡ some v
      → i.unknown ≡ []
      → (i.info_args ≡ v.value_args)
        × (map (λ n. n.0) i.names ≡ numbered 2 (length v.values))
        × (map (λ x. x.0) v.values ≡ numbered 2 (length v.values))
  unfolding info_pass value_pass AgreeIfKnown
  info_pass-value_pass fmt args i v hi hv quiet =
      let start_info : Info = record { argnum = 2; info_args = args; names = []; unknown = [] } in
      let start_values : Values = record { argnum = 2; value_args = args; values = [] } in
      let h =
        walk-both (info_round e) (value_round e) AgreeIfKnown passes_step fmt start_info i
          start_values v hi hv
          (λ q. record {
            rest = refl;
            nums = refl;
            counted = refl;
            info_keys = refl;
            value_keys = refl;
          })
          quiet in
      (h.rest, h.info_keys, h.value_keys)
