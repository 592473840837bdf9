-- ===== src/Lookup/Blocks.antt =====
-- A property of every block of a list, kept by the operations of lookup.c.
use capemon.Base.{
  ℕ, ◌≡◌, Option, none, some, [], ◌∷◌, ◌==◌, ==_iff, refl, All, inl, inr, Bool-cases,
}
use mathlib.Core.Path.{subst}
use capemon.Lookup.{Lookup, lookup_add, lookup_get, lookup_put, unlink, lookup_del}

module _ {ℓ} {A : Type ℓ} (P : A → Type 0) where
  abbrev pub Blocks : Lookup A → Type 0
  Blocks d = All (λ p. P p.block) d

  -- The property of what a lookup finds.
  abbrev Found : Option (A × ℕ) → Type 0
  Found none = Unit
  Found (some x) = P x.0

  lookup_get-Found : (d : Lookup A) (h : ℕ) → Blocks d → Found (lookup_get d h)
  unfolding lookup_get
  lookup_get-Found [] h all = tt
  lookup_get-Found (p ∷ ps) h all = elim (Bool-cases (p.id == h)) [
    | inl here ↦ rw here all.0
    | inr there ↦ rw there (lookup_get-Found ps h all.1)
  ]

  pub lookup_get-Blocks :
      (d : Lookup A) (h : ℕ) (a : A) (n : ℕ) → Blocks d → lookup_get d h ≡ some (a, n) → P a
  lookup_get-Blocks d h a n all e = subst Found e (lookup_get-Found d h all)

  pub lookup_put-Blocks :
      (d : Lookup A) (h : ℕ) (a : A) → Blocks d → P a → Blocks (lookup_put d h a)
  unfolding lookup_put
  lookup_put-Blocks [] h a all good = tt
  lookup_put-Blocks (p ∷ ps) h a all good = elim (Bool-cases (p.id == h)) [
    | inl here ↦ rw here (good, all.1)
    | inr there ↦ rw there (all.0, lookup_put-Blocks ps h a all.1 good)
  ]

  unlink-Blocks : (d : Lookup A) (h : ℕ) → Blocks d → Blocks (unlink d h)
  unfolding unlink
  unlink-Blocks [] h all = tt
  unlink-Blocks (p ∷ ps) h all = elim (Bool-cases (p.id == h)) [
    | inl here ↦ rw here all.1
    | inr there ↦ rw there (all.0, unlink-Blocks ps h all.1)
  ]

  pub lookup_del-Blocks : (d : Lookup A) (h : ℕ) → Blocks d → Blocks (lookup_del d h)
  unfolding lookup_del
  lookup_del-Blocks [] h all = tt
  lookup_del-Blocks (p ∷ ps) h all = elim (Bool-cases (p.id == h)) [
    | inl here ↦ rw here all.1
    | inr there ↦ rw there (all.0, unlink-Blocks ps h all.1)
  ]

  -- A block that is added and then written.
  pub lookup_put-add-Blocks :
      (zeroed : A) (d : Lookup A) (h n : ℕ) (a : A)
      → Blocks d
      → P a
      → Blocks (lookup_put (lookup_add zeroed d h n) h a)
  unfolding lookup_put lookup_add
  lookup_put-add-Blocks zeroed d h n a all good = rw ((==_iff h h).1 refl) (good, all)
