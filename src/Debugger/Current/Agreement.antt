-- ===== src/Debugger/Current/Agreement.antt =====
-- The four slots of a thread against the registers of its context.
use native.Mathlib.Decide.{ℕ_discrete}
use capemon.Base.{
  ℕ, zero, suc, ◌+◌, ◌<◌, ◌≡◌, ◌≢◌, refl, ap, sym, ◌∙◌, Option, some, List, [], ◌∷◌, ◌==◌, ==_iff,
  arith, length, get_elem?, set, length-set, get_elem?-set_self, get_elem?-set_ne, map, Bool-cases,
  inl, inr,
}
use capemon.Debugger.Registers.{Context}
use capemon.Debugger.Registers.Laws.{Watch, watch, length_field}
use capemon.Debugger.Threads.{BreakpointInfo, free_register, cleared, new_thread}
use capemon.Debugger.Current.{slot_of}

-- What the registers hold for a slot that is in use.
abbrev pub watch_of : BreakpointInfo → Watch
watch_of b = record {
  address = b.address;
  enabled = 1;
  rwe = b.type;
  len = length_field b.size b.type;
}

-- Four slots, each with its own number; a slot in use is what its register watches.
pub record Agrees (bs : List BreakpointInfo) (c : Context) : Type 0 where
  pub four : length bs ≡ 4
  pub own : (r : ℕ) (b : BreakpointInfo) → get_elem? bs r ≡ some b → b.register ≡ r
  pub watched :
      (r : ℕ) (b : BreakpointInfo)
      → get_elem? bs r ≡ some b
      → b.address ≢ 0
      → watch c r ≡ watch_of b

module _ {ℓ} {A : Type ℓ} where
  pub get_elem?-lt : (xs : List A) (i : ℕ) (a : A) → get_elem? xs i ≡ some a → i < length xs
  get_elem?-lt [] i a h = absurd (ground arith)
  get_elem?-lt (x ∷ xs) zero a h = omega arith
  get_elem?-lt (x ∷ xs) (suc i) a h = omega (arith, get_elem?-lt xs i a h)

  pub get_elem?-total : (xs : List A) (i : ℕ) → i < length xs → (a : A) × (get_elem? xs i ≡ some a)
  get_elem?-total [] i h = absurd (omega arith)
  get_elem?-total (x ∷ xs) zero h = (x, refl)
  get_elem?-total (x ∷ xs) (suc i) h = get_elem?-total xs i (omega arith)

  some_eq : (a b : A) (o : Option A) → o ≡ some a → o ≡ some b → a ≡ b
  some_eq a b o h k = ground arith

-- A change of one slot and its register alone.
pub Agrees-set :
    (bs : List BreakpointInfo) (c c' : Context) (r : ℕ) (b' : BreakpointInfo)
    → Agrees bs c
    → r < 4
    → b'.register ≡ r
    → (b'.address ≢ 0 → watch c' r ≡ watch_of b')
    → ((q : ℕ) → q < 4 → r ≢ q → watch c' q ≡ watch c q)
    → Agrees (set bs r b') c'
Agrees-set bs c c' r b' ok small named good others = record {
  four = omega (arith, length-set bs r b', ok.four);
  own = λ q b h. elim (ℕ_discrete r q) [
    | yes same ↦
        let self = get_elem?-set_self bs r b' (omega (arith, ok.four)) in
        let e : b' ≡ b =
          some_eq b' b (get_elem? (set bs r b') r) self (ap (get_elem? (set bs r b')) same ∙ h) in
        ground (arith, e)
    | no other ↦ ok.own q b (sym (get_elem?-set_ne bs r q b' other) ∙ h)
  ];
  watched = λ q b h used. elim (ℕ_discrete r q) [
    | yes same ↦
        let self = get_elem?-set_self bs r b' (omega (arith, ok.four)) in
        let e : b' ≡ b =
          some_eq b' b (get_elem? (set bs r b') r) self (ap (get_elem? (set bs r b')) same ∙ h) in
        rw (← same)
          (good (λ z. used (ap (λ (x : BreakpointInfo). x.address) (sym e) ∙ z)) ∙ ap watch_of e)
    | no other ↦
        let old = sym (get_elem?-set_ne bs r q b' other) ∙ h in
        others q (omega (arith, get_elem?-lt bs q b old, ok.four)) other ∙ ok.watched q b old used
  ];
}

-- A change of a register whose slot is free.
pub Agrees-free :
    (bs : List BreakpointInfo) (c c' : Context) (r : ℕ) (b : BreakpointInfo)
    → Agrees bs c
    → get_elem? bs r ≡ some b
    → b.address ≡ 0
    → ((q : ℕ) → q < 4 → r ≢ q → watch c' q ≡ watch c q)
    → Agrees bs c'
Agrees-free bs c c' r b ok at free others = record {
  four = ok.four;
  own = ok.own;
  watched = λ q b2 h used. elim (ℕ_discrete r q) [
    | yes same ↦
        let e : b ≡ b2 = some_eq b b2 (get_elem? bs r) at (rw same h) in
        absurd (used (ap (λ (x : BreakpointInfo). x.address) (sym e) ∙ free))
    | no other ↦
        others q (omega (arith, get_elem?-lt bs q b2 h, ok.four)) other ∙ ok.watched q b2 h used
  ];
}

-- The free slot that is found is free.
pub free_register-some :
    (bs : List BreakpointInfo) (i q : ℕ)
    → free_register bs i ≡ some q
    → (r : ℕ) × (b : BreakpointInfo) × (q ≡ i + r) × (get_elem? bs r ≡ some b) × (b.address ≡ 0)
unfolding free_register
free_register-some [] i q h = absurd (ground arith)
free_register-some (b ∷ bs) i q h = elim (Bool-cases (b.address == 0)) [
  | inl free ↦ (0, b, ground arith, refl, (==_iff _ _).0 free)
  | inr taken ↦
      let (r, b2, e, at, free) = free_register-some bs (suc i) q (ground arith) in
      (suc r, b2, omega arith, at, free)
]

-- The slot that is found bears the number, at its place.
pub slot_of-some :
    (bs : List BreakpointInfo) (register i k : ℕ) (b : BreakpointInfo)
    → slot_of bs register i ≡ some (k, b)
    → (j : ℕ) × (k ≡ i + j) × (get_elem? bs j ≡ some b) × (b.register ≡ register)
unfolding slot_of
slot_of-some [] register i k b h = absurd (ground arith)
slot_of-some (x ∷ bs) register i k b h = elim (Bool-cases (x.register == register)) [
  | inl this ↦ (0, ground arith, ground arith, ground arith)
  | inr later ↦
      let (j, e, at, named) = slot_of-some bs register (suc i) k b (ground arith) in
      (suc j, omega arith, at, named)
]

get_elem?-map :
    (bs : List BreakpointInfo) (r : ℕ) (b : BreakpointInfo)
    → get_elem? (map cleared bs) r ≡ some b
    → (x : BreakpointInfo) × (get_elem? bs r ≡ some x) × (b ≡ cleared x)
get_elem?-map [] r b h = absurd (ground arith)
get_elem?-map (x ∷ bs) zero b h = (x, refl, ground arith)
get_elem?-map (x ∷ bs) (suc r) b h = get_elem?-map bs r b h

length-map : (bs : List BreakpointInfo) → length (map cleared bs) ≡ length bs
length-map [] = refl
length-map (b ∷ bs) = ap suc (length-map bs)

-- Four cleared slots agree with any context.
pub Agrees-cleared :
    (bs : List BreakpointInfo) (c c' : Context) → Agrees bs c → Agrees (map cleared bs) c'
unfolding cleared
Agrees-cleared bs c c' ok = record {
  four = length-map bs ∙ ok.four;
  own = λ r b h.
      let (x, at, e) = get_elem?-map bs r b h in
      ap (λ (t : BreakpointInfo). t.register) e ∙ ok.own r x at;
  watched = λ r b h used.
      let (x, at, e) = get_elem?-map bs r b h in
      absurd (used (ap (λ (t : BreakpointInfo). t.address) e));
}

-- The slots of a new thread, none of which is in use.
new_slot :
    (id handle r : ℕ) (b : BreakpointInfo)
    → get_elem? (new_thread id handle).breakpoint_info r ≡ some b
    → (b.register ≡ r) × (b.address ≡ 0)
unfolding new_thread
new_slot id handle zero b h = ground arith
new_slot id handle (suc zero) b h = ground arith
new_slot id handle (suc (suc zero)) b h = ground arith
new_slot id handle (suc (suc (suc zero))) b h = ground arith
new_slot id handle (suc (suc (suc (suc r)))) b h = absurd (ground arith)

-- A thread that was just entered agrees with every context.
pub new_thread-Agrees :
    (id handle : ℕ) (c : Context) → Agrees (new_thread id handle).breakpoint_info c
unfolding new_thread
new_thread-Agrees id handle c = record {
  four = refl;
  own = λ r b h. (new_slot id handle r b h).0;
  watched = λ r b h used. absurd (used (new_slot id handle r b h).1);
}
