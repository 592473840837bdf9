-- ===== src/Debugger/Soft/Sharing.antt =====
-- The lists SoftBPs and SyscallBPs over one memory: what a change by way of one of them leaves of the
-- other.
use mathlib.Core.Path.{subst}
use capemon.Base.{
  ℕ, ◌≡◌, ◌⊎◌, write_byte, refl, ap, sym, ◌∙◌, Bool, false, none, some, List, [], ◌∷◌, ◌==◌, arith,
  Memory, Option-cases, inl, inr,
}
use capemon.Lookup.{Lookup, lookup_get}
use capemon.Debugger.Soft.{
  SoftBp, Pages, Code, int3, set_software_breakpoint, clear_software_breakpoint, clear_each,
}
use capemon.Debugger.Soft.Original.{
  original, IsCode, Setting, set_software_breakpoint-Setting, refused, unprotected, planted,
  get_added, original-set_software_breakpoint,
}
use capemon.Debugger.Soft.Clearing.{
  IsUsable, set_software_breakpoint-IsCode, clear_software_breakpoint-Clears, clear_unknown,
}

-- A change by way of a list, which leaves the 0xCC bytes of others.
pub record Touches (p : Pages) (s s' : Code) : Type 0 where
  pub code : IsCode p s'
  pub same : (x : ℕ) → original s' x ≡ original s x
  pub quiet :
      (x : ℕ)
      → lookup_get s.bps x ≡ none
      → s.memory x ≡ int3
      → (lookup_get s'.bps x ≡ none) × (s'.memory x ≡ int3)

pub Touches-refl : (p : Pages) (s : Code) → IsCode p s → Touches p s s
Touches-refl p s ok = record { code = ok; same = λ x. refl; quiet = λ x free here. (free, here) }

pub Touches-trans : (p : Pages) (s t u : Code) → Touches p s t → Touches p t u → Touches p s u
Touches-trans p s t u one two = record {
  code = two.code;
  same = λ x. two.same x ∙ one.same x;
  quiet = λ x free planted.
      let (free', planted') = one.quiet x free planted in two.quiet x free' planted';
}

Setting-quiet :
    (p : Pages) (s : Code) (a x : ℕ) {r : Code × Bool}
    → IsUsable p
    → Setting p s a r
    → lookup_get s.bps x ≡ none
    → s.memory x ≡ int3
    → (lookup_get r.0.bps x ≡ none) × (r.0.memory x ≡ int3)
Setting-quiet p s a x use_ok refused free here = (free, here)
Setting-quiet p s a x use_ok (unprotected fixed fresh b byte e) free here =
    absurd (ground (arith, use_ok.writable a))
Setting-quiet p s a x use_ok (planted nz exec out fresh b byte other e) free planted_x =
    let apart : (a == x) ≡ false = ground (arith, byte, other, planted_x) in
    subst (λ (r : Code × Bool). (lookup_get r.0.bps x ≡ none) × (r.0.memory x ≡ int3)) (sym e)
      (rw (get_added s.bps a x b, apart) free, unfold write_byte in ground arith)

pub set_software_breakpoint-Touches :
    (p : Pages) (s : Code) (a : ℕ)
    → IsUsable p
    → IsCode p s
    → Touches p s (set_software_breakpoint p s a).0
set_software_breakpoint-Touches p s a use_ok ok = record {
  code = set_software_breakpoint-IsCode p s a use_ok ok;
  same = original-set_software_breakpoint p s a;
  quiet = λ x free planted_x.
      Setting-quiet p s a x use_ok (set_software_breakpoint-Setting p s a) free planted_x;
}

pub clear_software_breakpoint-Touches :
    (p : Pages) (s : Code) (a : ℕ)
    → IsUsable p
    → IsCode p s
    → Touches p s (clear_software_breakpoint p s a).0
clear_software_breakpoint-Touches p s a use_ok ok =
    let one = clear_software_breakpoint-Clears p s a use_ok ok in
    elim (Option-cases (lookup_get s.bps a)) [
      | inl free ↦ rw (clear_unknown p s a free) (Touches-refl p s ok)
      | inr ((b, n), known) ↦ record {
        code = one.code;
        same = one.same;
        quiet = λ x free planted_x. (
          one.still x free,
          one.elsewhere x (λ e. ground (arith, ap (lookup_get s.bps) e ∙ free)) ∙ planted_x,
        );
      }
    ]

pub clear_each-Touches :
    (p : Pages) (addrs : List ℕ) (s : Code)
    → IsUsable p
    → IsCode p s
    → Touches p s (clear_each p s addrs)
unfolding clear_each
clear_each-Touches p [] s use_ok ok = Touches-refl p s ok
clear_each-Touches p (a ∷ addrs) s use_ok ok =
    let one = clear_software_breakpoint-Touches p s a use_ok ok in
    Touches-trans p s (clear_software_breakpoint p s a).0 _ one
      (clear_each-Touches p addrs (clear_software_breakpoint p s a).0 use_ok one.code)

-- What is not in the list is in the code as it was.
pub original_free : (s : Code) (x : ℕ) → lookup_get s.bps x ≡ none → original s x ≡ s.memory x
unfolding original
original_free s x free = rw (original, free) refl

-- Two lists of breakpoints in one memory, with no address in both. What neither has, and what was
-- replaced, is the program's byte.
pub record IsShared (p : Pages) (program memory : Memory) (mine other : Lookup SoftBp)
    : Type 0 where
  pub mine_code : IsCode p (record { memory = memory; bps = mine })
  pub other_code : IsCode p (record { memory = memory; bps = other })
  pub apart : (x : ℕ) → (lookup_get mine x ≡ none) ⊎ (lookup_get other x ≡ none)
  pub mine_kept :
      (x : ℕ)
      → lookup_get other x ≡ none
      → original (record { memory = memory; bps = mine }) x ≡ program x
  pub other_kept :
      (x : ℕ)
      → lookup_get mine x ≡ none
      → original (record { memory = memory; bps = other }) x ≡ program x

pub IsShared-swap :
    {p : Pages} {program memory : Memory} {mine other : Lookup SoftBp}
    → IsShared p program memory mine other
    → IsShared p program memory other mine
IsShared-swap h = record {
  mine_code = h.other_code;
  other_code = h.mine_code;
  apart = λ x. elim (h.apart x) [ inl free ↦ inr free | inr free ↦ inl free ];
  mine_kept = h.other_kept;
  other_kept = h.mine_kept;
}

-- The entries of the other list keep their 0xCC bytes.
other-quiet :
    (p : Pages) (program memory : Memory) (mine other : Lookup SoftBp) (s' : Code) (x n : ℕ)
    (b : SoftBp)
    → IsShared p program memory mine other
    → Touches p (record { memory = memory; bps = mine }) s'
    → lookup_get other x ≡ some (b, n)
    → (lookup_get mine x ≡ none) × (lookup_get s'.bps x ≡ none) × (s'.memory x ≡ int3)
other-quiet p program memory mine other s' x n b h t known = elim (h.apart x) [
  | inl free ↦
      let (gone, still) = t.quiet x free (h.other_code.entries x n b known).planted in
      (free, gone, still)
  | inr free ↦ absurd (ground (arith, sym known ∙ free))
]

replaced_same :
    (bps : Lookup SoftBp) (m m' : Memory) (x n : ℕ) (b : SoftBp)
    → lookup_get bps x ≡ some (b, n)
    → original (record { memory = m'; bps = bps }) x ≡ original (record { memory = m; bps = bps }) x
unfolding original
replaced_same bps m m' x n b known = rw (original, known) refl

pub Touches-IsShared :
    (p : Pages) (program memory : Memory) (mine other : Lookup SoftBp) (s' : Code)
    → IsShared p program memory mine other
    → Touches p (record { memory = memory; bps = mine }) s'
    → IsShared p program s'.memory s'.bps other
Touches-IsShared p program memory mine other s' h t =
    let mine_kept' : (x : ℕ) → lookup_get other x ≡ none → original s' x ≡ program x =
      λ x free. t.same x ∙ h.mine_kept x free in
    record {
      mine_code = t.code;
      other_code = record {
        unique = h.other_code.unique;
        entries = λ x n b known.
            let old = h.other_code.entries x n b known in
            record {
              not_null = old.not_null;
              accessible = old.accessible;
              outside = old.outside;
              planted = (other-quiet p program memory mine other s' x n b h t known).2;
            };
        replaced = h.other_code.replaced;
      };
      apart = λ x. elim (Option-cases (lookup_get other x)) [
        | inl free ↦ inr free
        | inr ((b, n), known) ↦ inl (other-quiet p program memory mine other s' x n b h t known).1
      ];
      mine_kept = mine_kept';
      other_kept = λ x gone. elim (Option-cases (lookup_get other x)) [
        | inl free ↦
            original_free (record { memory = s'.memory; bps = other }) x free
            ∙ sym (original_free s' x gone)
            ∙ mine_kept' x free
        | inr ((b, n), known) ↦
            let before =
              h.other_kept x (other-quiet p program memory mine other s' x n b h t known).0 in
            replaced_same other memory s'.memory x n b known ∙ before
      ];
    }
