-- ===== src/Base/Bytes.antt =====
-- Byte-addressed memory: reads and writes of a run of bytes.
use Prim.Native.Nat.{ℕ, zero, suc, ◌+◌, ◌≤◌, ◌<◌}
use mathlib.Core.Path.{◌≡◌, refl, ap₂}
use mathlib.Core.Logic.{◌⊎◌}
use mathlib.Core.Bool.{Bool, true, false, ◌&&◌}
use mathlib.Core.List.{List, [], ◌∷◌}
use native.Mathlib.Omega.{arith}
use capemon.Base.Tests.{◌==◌, if◌then◌else◌}
use capemon.Base.Lists.{length}

abbrev pub Memory : Type 0
Memory = ℕ → ℕ

unfoldable pub read_bytes : Memory → ℕ → ℕ → List ℕ
read_bytes mem a zero = []
read_bytes mem a (suc n) = mem a ∷ read_bytes mem (suc a) n

unfoldable pub write_byte : Memory → ℕ → ℕ → Memory
write_byte mem a v x = if x == a then v else mem x

-- `memcpy (a, bytes, length bytes)`.
unfoldable pub write_bytes : Memory → ℕ → List ℕ → Memory
unfolding write_byte
write_bytes mem a [] = mem
write_bytes mem a (b ∷ bytes) = write_bytes (write_byte mem a b) (suc a) bytes

-- `!memcmp`
unfoldable pub bytes_eq : List ℕ → List ℕ → Bool
bytes_eq [] [] = true
bytes_eq [] (y ∷ ys) = false
bytes_eq (x ∷ xs) [] = false
bytes_eq (x ∷ xs) (y ∷ ys) = x == y && bytes_eq xs ys

pub bytes_eq_refl : (xs : List ℕ) → bytes_eq xs xs ≡ true
unfolding bytes_eq
bytes_eq_refl [] = refl
bytes_eq_refl (x ∷ xs) = ground (arith, bytes_eq_refl xs)

pub bytes_eq_sound : (xs ys : List ℕ) → bytes_eq xs ys ≡ true → xs ≡ ys
unfolding bytes_eq
bytes_eq_sound [] [] h = refl
bytes_eq_sound [] (y ∷ ys) h = cc
bytes_eq_sound (x ∷ xs) [] h = cc
bytes_eq_sound (x ∷ xs) (y ∷ ys) h = ground (arith, bytes_eq_sound xs ys)

-- A write leaves the bytes before it and behind it alone.
pub write_bytes_outside :
    (mem : Memory) (a : ℕ) (bytes : List ℕ) (x : ℕ)
    → (x < a) ⊎ (a + length bytes ≤ x)
    → write_bytes mem a bytes x ≡ mem x
unfolding write_bytes write_byte
write_bytes_outside mem a [] x h = refl
write_bytes_outside mem a (b ∷ bytes) x h =
    ground (arith, write_bytes_outside (write_byte mem a b) (suc a) bytes x)

-- What was written is read back.
pub read_bytes-write_bytes :
    (mem : Memory) (a : ℕ) (bytes : List ℕ)
    → read_bytes (write_bytes mem a bytes) a (length bytes) ≡ bytes
unfolding read_bytes write_bytes write_byte
read_bytes-write_bytes mem a [] = refl
read_bytes-write_bytes mem a (b ∷ bytes) =
    ap₂ ◌∷◌ (ground (arith, write_bytes_outside (write_byte mem a b) (suc a) bytes a))
      (read_bytes-write_bytes (write_byte mem a b) (suc a) bytes)
