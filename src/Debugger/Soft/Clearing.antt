-- ===== src/Debugger/Soft/Clearing.antt =====
-- Clearing software breakpoints: one, all, and those of a range.
use mathlib.Core.Path.{subst}
use capemon.Base.{
  ℕ, ◌≡◌, ◌≢◌, refl, ap, sym, ◌∙◌, Bool, true, false, none, some, ◌==◌, ==_iff, arith, write_byte,
  Bool-cases, Option-cases, inl, inr,
}
use capemon.Lookup.{Lookup, lookup_get, lookup_del}
use capemon.Lookup.Laws.{IsUnique, lookup_del-IsUnique, lookup_get-stack_of}
use capemon.Debugger.Soft.{
  SoftBp, Pages, Code, int3, set_software_breakpoint, clear_software_breakpoint,
}
use capemon.Debugger.Soft.Original.{
  original, IsCode, added, Setting, set_software_breakpoint-Setting, refused, unprotected, planted,
  get_added,
}

-- Every page can be made writable, and code can be read.
pub record IsUsable (p : Pages) : Type 0 where
  pub writable : (a : ℕ) → p.virtual_protect a ≡ true
  pub readable : (a : ℕ) → p.is_address_executable a ≡ true → p.is_address_accessible a ≡ true

added-IsUnique :
    (bps : Lookup SoftBp) (a : ℕ) (b : SoftBp)
    → IsUnique bps
    → lookup_get bps a ≡ none
    → IsUnique (added bps a b)
unfolding added
added-IsUnique bps a b u fresh j = ground (arith, u j, lookup_get-stack_of bps a)

added-IsCode :
    (p : Pages) (s : Code) (a : ℕ) (b : SoftBp)
    → IsCode p s
    → lookup_get s.bps a ≡ none
    → a ≢ 0
    → p.is_address_accessible a ≡ true
    → p.in_ntdll a ≡ false
    → b.instruction_byte ≢ int3
    → IsCode p (record { memory = write_byte s.memory a int3; bps = added s.bps a b })
unfolding write_byte
added-IsCode p s a b ok fresh nz acc out other = record {
  unique = added-IsUnique s.bps a b ok.unique fresh;
  entries = λ x n b2 h. elim (Bool-cases (a == x)) [
    | inl here ↦
        let e : a ≡ x = (==_iff a x).0 here in
        record {
          not_null = λ z. nz (e ∙ z);
          accessible = ap p.is_address_accessible (sym e) ∙ acc;
          outside = ap p.in_ntdll (sym e) ∙ out;
          planted = ground arith;
        }
    | inr there ↦
        let old = ok.entries x n b2 (ground (arith, get_added s.bps a x b)) in
        record {
          not_null = old.not_null;
          accessible = old.accessible;
          outside = old.outside;
          planted = ground (arith, old.planted);
        }
  ];
  replaced = λ x n b2 h. elim (Bool-cases (a == x)) [
    | inl here ↦ λ bad. other (ground (arith, get_added s.bps a x b))
    | inr there ↦ ok.replaced x n b2 (ground (arith, get_added s.bps a x b))
  ];
}

pub set_software_breakpoint-IsCode :
    (p : Pages) (s : Code) (a : ℕ)
    → IsUsable p
    → IsCode p s
    → IsCode p (set_software_breakpoint p s a).0
set_software_breakpoint-IsCode p s a use_ok ok = go (set_software_breakpoint-Setting p s a)
  where
    go : {r : Code × Bool} → Setting p s a r → IsCode p r.0
    go refused = ok
    go (unprotected fixed fresh b byte e) = absurd (ground (arith, use_ok.writable a))
    go (planted nz exec out fresh b byte other e) =
        subst (λ (r : Code × Bool). IsCode p r.0) (sym e)
          (added-IsCode p s a b ok fresh nz (use_ok.readable a exec) out other)

pub clear_unknown :
    (p : Pages) (s : Code) (a : ℕ)
    → lookup_get s.bps a ≡ none
    → clear_software_breakpoint p s a ≡ (s, false)
unfolding clear_software_breakpoint
clear_unknown p s a gone = ground arith

clear_known :
    (p : Pages) (s : Code) (a n : ℕ) (b : SoftBp)
    → IsUsable p
    → IsCode p s
    → lookup_get s.bps a ≡ some (b, n)
    → clear_software_breakpoint p s a ≡ (
      record { memory = write_byte s.memory a b.instruction_byte; bps = lookup_del s.bps a },
      true,
    )
unfolding clear_software_breakpoint
clear_known p s a n b use_ok ok known =
    let e = ok.entries a n b known in
    let here : (s.memory a == int3) ≡ true = (==_iff _ _).1 e.planted in
    let nz : (a == 0) ≡ false = ground (arith, e.not_null) in
    rw (clear_software_breakpoint, nz, e.accessible, e.outside, known, here, use_ok.writable a) refl

differs : (a x : ℕ) → (a == x) ≡ false → a ≢ x
differs a x h e = cc (h, (==_iff a x).1 e)

-- What clearing one address does.
pub record Clears (p : Pages) (s s' : Code) (a : ℕ) : Type 0 where
  pub code : IsCode p s'
  pub same : (x : ℕ) → original s' x ≡ original s x
  pub gone : lookup_get s'.bps a ≡ none
  pub still : (x : ℕ) → lookup_get s.bps x ≡ none → lookup_get s'.bps x ≡ none
  pub elsewhere : (x : ℕ) → a ≢ x → s'.memory x ≡ s.memory x

clear_known-Clears :
    (p : Pages) (s : Code) (a n : ℕ) (b : SoftBp)
    → IsCode p s
    → lookup_get s.bps a ≡ some (b, n)
    → Clears p s
        (record { memory = write_byte s.memory a b.instruction_byte; bps = lookup_del s.bps a })
        a
unfolding write_byte original
clear_known-Clears p s a n b ok known =
    let (gone, others, unique) = lookup_del-IsUnique s.bps a ok.unique in
    record {
      code = record {
        unique = unique;
        entries = λ x m b2 h. elim (Bool-cases (a == x)) [
          | inl here ↦
              let e = ap (lookup_get (lookup_del s.bps a)) ((==_iff a x).0 here) in
              absurd (ground (arith, sym gone ∙ e ∙ h))
          | inr there ↦
              let old = ok.entries x m b2 (sym (others x (differs a x there)) ∙ h) in
              record {
                not_null = old.not_null;
                accessible = old.accessible;
                outside = old.outside;
                planted = ground (arith, old.planted, differs a x there);
              }
        ];
        replaced = λ x m b2 h. elim (Bool-cases (a == x)) [
          | inl here ↦
              let e = ap (lookup_get (lookup_del s.bps a)) ((==_iff a x).0 here) in
              absurd (ground (arith, sym gone ∙ e ∙ h))
          | inr there ↦ ok.replaced x m b2 (sym (others x (differs a x there)) ∙ h)
        ];
      };
      same = λ x. elim (Bool-cases (a == x)) [
        | inl here ↦
            let e : a ≡ x = (==_iff a x).0 here in
            let gone_x = ap (lookup_get (lookup_del s.bps a)) (sym e) ∙ gone in
            let known_x = ap (lookup_get s.bps) (sym e) ∙ known in
            let back : (x == a) ≡ true = (==_iff x a).1 (sym e) in
            rw (original, gone_x, known_x, back) refl
        | inr there ↦
            let kept = others x (differs a x there) in
            let back : (x == a) ≡ false = ground (arith, differs a x there) in
            elim (Option-cases (lookup_get s.bps x)) [
              | inl free ↦ rw (original, kept ∙ free, back, original, free) refl
              | inr ((old, m), found) ↦ rw (original, kept ∙ found, original, found) refl
            ]
      ];
      gone = gone;
      still = λ x free. elim (Bool-cases (a == x)) [
        | inl here ↦ ap (lookup_get (lookup_del s.bps a)) (sym ((==_iff a x).0 here)) ∙ gone
        | inr there ↦ others x (differs a x there) ∙ free
      ];
      elsewhere = λ x ne. ground arith;
    }

pub clear_software_breakpoint-Clears :
    (p : Pages) (s : Code) (a : ℕ)
    → IsUsable p
    → IsCode p s
    → Clears p s (clear_software_breakpoint p s a).0 a
clear_software_breakpoint-Clears p s a use_ok ok = elim (Option-cases (lookup_get s.bps a)) [
  | inl free ↦ rw (clear_unknown p s a free) (record {
    code = ok;
    same = λ x. refl;
    gone = free;
    still = λ x h. h;
    elsewhere = λ x ne. refl;
  })
  | inr ((b, n), known) ↦
      rw (clear_known p s a n b use_ok ok known) (clear_known-Clears p s a n b ok known)
]
