-- ===== src/Lookup/Laws.antt =====
-- The contract of lookup.c: each id has a stack of blocks of its own, and an operation on one id
-- touches no other stack.
use capemon.Base.{
  ℕ, Option, none, some, List, [], ◌∷◌, ◌==◌, if◌then◌else◌, ◌≡◌, ◌≢◌, refl, arith, length, ◌≤◌,
}
use capemon.Lookup.{Lookup, lookup_add, lookup_get, lookup_put, unlink, lookup_del}

module _ {ℓ} {A : Type ℓ} where
  -- The blocks of one id, newest first.
  abbrev pub stack_of : Lookup A → ℕ → List (A × ℕ)
  stack_of [] k = []
  stack_of (p ∷ ps) k = if p.id == k then (p.block, p.size) ∷ stack_of ps k else stack_of ps k

  abbrev pub top : List (A × ℕ) → Option (A × ℕ)
  top [] = none
  top (x ∷ xs) = some x

  abbrev pub pop : List (A × ℕ) → List (A × ℕ)
  pop [] = []
  pop (x ∷ xs) = xs

  abbrev pub write_top : A → List (A × ℕ) → List (A × ℕ)
  write_top v [] = []
  write_top v ((a, n) ∷ xs) = (v, n) ∷ xs

  pub lookup_get-stack_of : (d : Lookup A) (k : ℕ) → lookup_get d k ≡ top (stack_of d k)
  unfolding lookup_get
  lookup_get-stack_of [] k = refl
  lookup_get-stack_of (p ∷ ps) k = ground (arith, lookup_get-stack_of ps k)

  unlink-stack_of :
      (d : Lookup A) (k j : ℕ)
      → stack_of (unlink d k) j ≡ (if k == j then pop (stack_of d j) else stack_of d j)
  unfolding unlink
  unlink-stack_of [] k j = ground arith
  unlink-stack_of (p ∷ ps) k j = ground (arith, unlink-stack_of ps k j)

  lookup_del-unlink : (d : Lookup A) (k : ℕ) → lookup_del d k ≡ unlink d k
  unfolding lookup_del
  lookup_del-unlink [] k = refl
  lookup_del-unlink (p ∷ ps) k = ground arith

  pub lookup_del-stack_of :
      (d : Lookup A) (k j : ℕ)
      → stack_of (lookup_del d k) j ≡ (if k == j then pop (stack_of d j) else stack_of d j)
  lookup_del-stack_of d k j = ground (arith, lookup_del-unlink d k, unlink-stack_of d k j)

  pub lookup_put-stack_of :
      (d : Lookup A) (k j : ℕ) (v : A)
      → stack_of (lookup_put d k v) j
        ≡ (if k == j then write_top v (stack_of d j) else stack_of d j)
  unfolding lookup_put
  lookup_put-stack_of [] k j v = ground arith
  lookup_put-stack_of (p ∷ ps) k j v = ground (arith, lookup_put-stack_of ps k j v)

  -- The list implements a family of stacks, one for each id `j`, for every list `d` and id `k`:
  -- reading gives the top; adding pushes on the stack of `k` and leaves the others; deleting pops
  -- the stack of `k` and leaves the others; a write changes the top of the stack of `k` alone.
  pub lookup_refines_stacks :
      (d : Lookup A) (zeroed v : A) (size k j : ℕ)
      → (lookup_get d j ≡ top (stack_of d j))
        × (stack_of (lookup_add zeroed d k size) j
            ≡ (if k == j then (zeroed, size) ∷ stack_of d j else stack_of d j))
        × (stack_of (lookup_del d k) j ≡ (if k == j then pop (stack_of d j) else stack_of d j))
        × (stack_of (lookup_put d k v) j
            ≡ (if k == j then write_top v (stack_of d j) else stack_of d j))
  unfolding lookup_add
  lookup_refines_stacks d zeroed v size k j =
      (lookup_get-stack_of d j, refl, lookup_del-stack_of d k j, lookup_put-stack_of d k j v)

  -- Deleting what was just added gives the list back.
  pub lookup_del-add :
      (d : Lookup A) (zeroed : A) (size k : ℕ) → lookup_del (lookup_add zeroed d k size) k ≡ d
  unfolding lookup_del lookup_add
  lookup_del-add d zeroed size k = ground arith

  -- Every id stands at most once.
  abbrev pub IsUnique : Lookup A → Type 0
  IsUnique d = (k : ℕ) → length (stack_of d k) ≤ 1

  -- An id is added only after `lookup_get` has found nothing: then ids stay unique.
  pub lookup_add-IsUnique :
      (d : Lookup A) (zeroed : A) (size k : ℕ)
      → IsUnique d
      → lookup_get d k ≡ none
      → IsUnique (lookup_add zeroed d k size)
  unfolding lookup_add
  lookup_add-IsUnique d zeroed size k u fresh j = ground (arith, u j, lookup_get-stack_of d k)

  -- With unique ids a deleted id is gone, the others are found as before, and ids stay unique.
  pub lookup_del-IsUnique :
      (d : Lookup A) (k : ℕ)
      → IsUnique d
      → (lookup_get (lookup_del d k) k ≡ none)
        × ((j : ℕ) → k ≢ j → lookup_get (lookup_del d k) j ≡ lookup_get d j)
        × IsUnique (lookup_del d k)
  lookup_del-IsUnique d k u = (
    ground (arith, u k, lookup_get-stack_of (lookup_del d k) k, lookup_del-stack_of d k k),
    λ j ne. ground (
      arith,
      lookup_get-stack_of (lookup_del d k) j,
      lookup_get-stack_of d j,
      lookup_del-stack_of d k j,
    ),
    λ j. ground (arith, u j, lookup_del-stack_of d k j),
  )
