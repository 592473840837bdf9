-- ===== src/HookGate/Names.antt =====
-- The names in the configuration that keep a hook from being installed. The arrays end at their
-- first NULL, so they are lists; `same` is `!stricmp` and `same_wide` is `!wcsicmp`.
use capemon.Base.{
  ℕ, Bool, true, false, ◌||◌, not, List, [], ◌∷◌, ◌++◌, ltb, if◌then◌else◌, length, ◌≡◌, refl, ◌≤◌,
  arith, length-append,
}
use capemon.HookGate.{Hook}

unfoldable pub any : (List ℕ → Bool) → List (List ℕ) → Bool
any p [] = false
any p (x ∷ xs) = p x || any p xs

pub record Names : Type 0 where
  pub included_apinames : List (List ℕ)
  pub excluded_apinames : List (List ℕ)
  pub excluded_dllnames : List (List ℕ)

abbrev pub exclusion_max : ℕ
exclusion_max = 128

module _ (same same_wide : List ℕ → List ℕ → Bool) where
  included : Hook → List (List ℕ) → Bool
  included h [] = true
  included h (n ∷ ns) = any (same h.funcname) (n ∷ ns)

  unfoldable pub hook_is_excluded : Names → Hook → Bool
  unfolding included any
  hook_is_excluded c h =
      if not (included h c.included_apinames)
      then true
      else if any (same h.funcname) c.excluded_apinames
      then true
      else any (same_wide h.library) c.excluded_dllnames

-- A name goes to the first free place of the array, if there is one.
unfoldable pub add_hook_exclusion : Names → List ℕ → Names × Bool
add_hook_exclusion c apiname =
    if ltb (length c.excluded_apinames) exclusion_max
    then (record c { excluded_apinames = c.excluded_apinames ++ apiname ∷ [] }, true)
    else (c, false)

any-append : (p : List ℕ → Bool) (xs ys : List (List ℕ)) → any p (xs ++ ys) ≡ (any p xs || any p ys)
unfolding any
any-append p [] ys = refl
any-append p (x ∷ xs) ys = ground (arith, any-append p xs ys)

-- Excluding a name keeps the array within its bound. If it was added, exactly the hooks that were
-- excluded before or have the name are excluded; if there was no room, nothing changed.
pub hook_is_excluded-add :
    (same same_wide : List ℕ → List ℕ → Bool) (c : Names) (apiname : List ℕ) (h : Hook)
    → length c.excluded_apinames ≤ exclusion_max
    → let o = add_hook_exclusion c apiname in
      (length o.0.excluded_apinames ≤ exclusion_max)
      × (o.1 ≡ true
          → hook_is_excluded same same_wide o.0 h
            ≡ (hook_is_excluded same same_wide c h || same h.funcname apiname))
      × (o.1 ≡ false → o.0 ≡ c)
unfolding hook_is_excluded add_hook_exclusion
hook_is_excluded-add same same_wide c apiname h fits = (
  ground (arith, length-append c.excluded_apinames (apiname ∷ [])),
  λ added. ground (arith, any-append (same h.funcname) c.excluded_apinames (apiname ∷ [])),
  λ full. ground arith,
)
