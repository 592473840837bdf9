-- ===== src/Lookup.antt =====
-- lookup.c and lookup.h: the linked list from an id (a handle or a thread) to a block of data,
-- newest entry first. A block is a value of type `A`, and `zeroed` is what `calloc` leaves in it;
-- allocation is taken to succeed, as the source does. A pointer into a block is used at once, so a
-- write through what `lookup_get` returned is `lookup_put`.
pub mod Laws
pub mod Blocks
use capemon.Base.{ℕ, Bool, Option, none, some, List, [], ◌∷◌, ◌==◌, if◌then◌else◌, ◌≡◌, refl, arith}

module _ {ℓ} (A : Type ℓ) where
  pub record Entry : Type ℓ where
    pub id : ℕ
    pub size : ℕ
    pub block : A

  -- The list behind `root`.
  abbrev pub Lookup : Type ℓ
  Lookup = List Entry

module _ {ℓ} {A : Type ℓ} where
  unfoldable pub lookup_add : A → Lookup A → ℕ → ℕ → Lookup A
  lookup_add zeroed d id size = record { id = id; size = size; block = zeroed } ∷ d

  unfoldable pub lookup_get : Lookup A → ℕ → Option (A × ℕ)
  lookup_get [] id = none
  lookup_get (p ∷ ps) id = if p.id == id then some (p.block, p.size) else lookup_get ps id

  -- The write through the pointer that `lookup_get` returned.
  unfoldable pub lookup_put : Lookup A → ℕ → A → Lookup A
  lookup_put [] id v = []
  lookup_put (p ∷ ps) id v =
      if p.id == id then record p { block = v } ∷ ps else p ∷ lookup_put ps id v

  -- The walk with `last`: unlink the first entry with the id, and stop.
  unlink : Lookup A → ℕ → Lookup A
  unlink [] id = []
  unlink (p ∷ ps) id = if p.id == id then ps else p ∷ unlink ps id

  unfoldable pub lookup_del : Lookup A → ℕ → Lookup A
  unfolding unlink
  lookup_del [] id = []
  lookup_del (p ∷ ps) id = if p.id == id then ps else unlink (p ∷ ps) id
