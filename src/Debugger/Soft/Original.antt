-- ===== src/Debugger/Soft/Original.antt =====
-- The code as it was before any breakpoint, which setting and clearing do not change.
use capemon.Base.{
  ℕ, ◌≡◌, ◌≢◌, refl, ap, sym, ◌∙◌, Bool, true, false, not, ◌||◌, none, some, ◌∷◌, ◌==◌, ==_iff,
  if◌then◌else◌, arith, Memory, write_byte, Bool-cases, Option-cases, inl, inr,
}
use capemon.Lookup.{Lookup, lookup_add, lookup_get, lookup_put}
use capemon.Lookup.Laws.{IsUnique}
use capemon.Debugger.Soft.{SoftBp, Pages, Code, int3, set_software_breakpoint}

-- The byte of the program at an address.
unfoldable pub original : Code → ℕ → ℕ
original s x = elim (lookup_get s.bps x) [ none ↦ s.memory x | some (b, size) ↦ b.instruction_byte ]

-- What setting a breakpoint needs of an address, and what it left there.
pub record IsPlanted (p : Pages) (s : Code) (x : ℕ) : Type 0 where
  pub not_null : x ≢ 0
  pub accessible : p.is_address_accessible x ≡ true
  pub outside : p.in_ntdll x ≡ false
  pub planted : s.memory x ≡ int3

-- Each address stands once in the list, and has its breakpoint in the code, in place
-- of another byte.
pub record IsCode (p : Pages) (s : Code) : Type 0 where
  pub unique : IsUnique s.bps
  pub entries : (x size : ℕ) (b : SoftBp) → lookup_get s.bps x ≡ some (b, size) → IsPlanted p s x
  pub replaced :
      (x size : ℕ) (b : SoftBp) → lookup_get s.bps x ≡ some (b, size) → b.instruction_byte ≢ int3

-- An entry that is added and filled.
unfoldable pub added : Lookup SoftBp → ℕ → SoftBp → Lookup SoftBp
added bps a b = record { id = a; size = 8; block = b } ∷ bps

put_added :
    (zeroed b : SoftBp) (bps : Lookup SoftBp) (a : ℕ)
    → lookup_put (lookup_add zeroed bps a 8) a b ≡ added bps a b
unfolding lookup_put lookup_add added
put_added zeroed b bps a = rw ((==_iff a a).1 refl) refl

pub get_added :
    (bps : Lookup SoftBp) (a x : ℕ) (b : SoftBp)
    → lookup_get (added bps a b) x ≡ (if a == x then some (b, 8) else lookup_get bps x)
unfolding lookup_get added
get_added bps a x b = refl

-- Setting a breakpoint does one of these: nothing; an entry without a change of the code, where the
-- page cannot be made writable; or an entry and the 0xCC byte.
pub data Setting (p : Pages) (s : Code) (a : ℕ) : Code × Bool → Type 0 where
  refused : Setting p s a (s, false)
  unprotected :
      {r : Code × Bool}
      → p.virtual_protect a ≡ false
      → lookup_get s.bps a ≡ none
      → (b : SoftBp) → b.instruction_byte ≡ s.memory a
      → r ≡ (record s { bps = added s.bps a b }, false)
      → Setting p s a r
  planted :
      {r : Code × Bool}
      → a ≢ 0
      → p.is_address_executable a ≡ true
      → p.in_ntdll a ≡ false
      → lookup_get s.bps a ≡ none
      → (b : SoftBp) → b.instruction_byte ≡ s.memory a
      → b.instruction_byte ≢ int3
      → r ≡ (record { memory = write_byte s.memory a int3; bps = added s.bps a b }, true)
      → Setting p s a r

pub set_software_breakpoint-Setting :
    (p : Pages) (s : Code) (a : ℕ) → Setting p s a (set_software_breakpoint p s a)
unfolding set_software_breakpoint
set_software_breakpoint-Setting p s a =
    elim (Bool-cases ((a == 0) || not (p.is_address_executable a))) [
      | inl bad ↦ rw (set_software_breakpoint, bad) refused
      | inr fine ↦ elim (Bool-cases (p.in_ntdll a)) [
        | inl system ↦ rw (set_software_breakpoint, fine, system) refused
        | inr outside ↦ elim (Option-cases (lookup_get s.bps a)) [
          | inr (old, there) ↦ rw (set_software_breakpoint, fine, outside, there) refused
          | inl fresh ↦ elim (Bool-cases (s.memory a == int3)) [
            | inl foreign ↦ rw (set_software_breakpoint, fine, outside, fresh, foreign) refused
            | inr code ↦ elim (Bool-cases (p.virtual_protect a)) [
              | inr fixed ↦
                  rw (set_software_breakpoint, fine, outside, fresh, code, fixed, put_added)
                    (unprotected fixed fresh _ refl refl)
              | inl writable ↦
                  rw (set_software_breakpoint, fine, outside, fresh, code, writable, put_added)
                    (planted (λ e. ground arith) (ground arith) outside fresh _ refl
                      (λ e. ground (arith, code)) refl)
            ]
          ]
        ]
      ]
    ]

original-added :
    (s : Code) (memory : Memory) (a x : ℕ) (b : SoftBp)
    → lookup_get s.bps a ≡ none
    → b.instruction_byte ≡ s.memory a
    → (a ≢ x → memory x ≡ s.memory x)
    → original (record { memory = memory; bps = added s.bps a b }) x ≡ original s x
unfolding original
original-added s memory a x b fresh byte same = elim (Bool-cases (a == x)) [
  | inl here ↦
      let e : a ≡ x = (==_iff a x).0 here in
      let gone : lookup_get s.bps x ≡ none = ap (lookup_get s.bps) (sym e) ∙ fresh in
      rw (original, get_added s.bps a x b, here, gone) (byte ∙ ap s.memory e)
  | inr there ↦ elim (Option-cases (lookup_get s.bps x)) [
    | inl gone ↦
        rw (original, get_added s.bps a x b, there, gone)
          (same (λ e. ground (arith, (==_iff a x).1 e)))
    | inr ((old, n), known) ↦ rw (original, get_added s.bps a x b, there, known) refl
  ]
]

-- Setting a breakpoint does not change the original code, whatever comes of it.
pub original-set_software_breakpoint :
    (p : Pages) (s : Code) (a x : ℕ) → original (set_software_breakpoint p s a).0 x ≡ original s x
original-set_software_breakpoint p s a x = go (set_software_breakpoint-Setting p s a)
  where
    go : {r : Code × Bool} → Setting p s a r → original r.0 x ≡ original s x
    go refused = refl
    go (unprotected fixed fresh b byte e) =
        ap (λ (r : Code × Bool). original r.0 x) e
        ∙ original-added s s.memory a x b fresh byte (λ ne. refl)
    go (planted nz exec out fresh b byte other e) =
        ap (λ (r : Code × Bool). original r.0 x) e
        ∙ original-added s (write_byte s.memory a int3) a x b fresh byte
            (λ ne. unfold write_byte in ground arith)
