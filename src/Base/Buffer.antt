-- ===== src/Base/Buffer.antt =====
-- A buffer of fixed size and writes into it: `none` is a write outside the buffer.
use Prim.Native.Nat.{ℕ, suc, ◌≤◌, ◌<◌}
use mathlib.Core.Path.{◌≡◌, refl, ap}
use mathlib.Core.List.{List, [], ◌∷◌, ◌++◌, append_assoc, append-nil}
use mathlib.Core.Option.{Option, none, some}
use native.Mathlib.Omega.{arith}
use capemon.Base.Tests.{ltb, if◌then◌else◌}
use capemon.Base.Lists.{length, set, drop}

module _ {ℓ} {A : Type ℓ} where
  -- `memcpy (buf + pos, bytes, length bytes)`, byte by byte.
  unfoldable pub store : List A → ℕ → List A → Option (List A)
  store buf pos [] = some buf
  store buf pos (b ∷ bytes) =
      let rest = store (set buf pos b) (suc pos) bytes in
      if ltb pos (length buf) then rest else none

  set-append :
      (done : List A) (x y : A) (rest : List A)
      → set (done ++ x ∷ rest) (length done) y ≡ done ++ y ∷ rest
  set-append [] x y rest = refl
  set-append (d ∷ done) x y rest = ap (◌∷◌ d) (set-append done x y rest)

  length-lt-append :
      (done : List A) (x : A) (rest : List A) → length done < length (done ++ x ∷ rest)
  length-lt-append [] x rest = omega arith
  length-lt-append (d ∷ done) x rest = omega (arith, length-lt-append done x rest)

  length-snoc : (done : List A) (x : A) → length (done ++ x ∷ []) ≡ suc (length done)
  length-snoc [] x = refl
  length-snoc (d ∷ done) x = ap suc (length-snoc done x)

  -- A write that fits replaces what stood there, and nothing else.
  pub store-append :
      (done bytes rest : List A)
      → length bytes ≤ length rest
      → store (done ++ rest) (length done) bytes
        ≡ some (done ++ (bytes ++ drop (length bytes) rest))
  unfolding store
  store-append done [] rest h = refl
  store-append done (b ∷ bytes) [] h = absurd (omega arith)
  store-append done (b ∷ bytes) (x ∷ rest) h = ground (
    arith,
    length-lt-append done x rest,
    set-append done x b rest,
    append_assoc done (b ∷ []) rest,
    append_assoc done (b ∷ []) (bytes ++ drop (length bytes) rest),
    length-snoc done b,
    store-append (done ++ b ∷ []) bytes rest,
  )

  -- A write that does not fit is outside the buffer.
  pub store-overflow :
      (done bytes rest : List A)
      → length rest < length bytes
      → store (done ++ rest) (length done) bytes ≡ none
  unfolding store
  store-overflow done [] rest h = absurd (omega arith)
  store-overflow done (b ∷ bytes) [] h = ground (arith, append-nil done)
  store-overflow done (b ∷ bytes) (x ∷ rest) h = ground (
    arith,
    set-append done x b rest,
    append_assoc done (b ∷ []) rest,
    length-snoc done b,
    store-overflow (done ++ b ∷ []) bytes rest,
  )
