-- ===== src/Log/MultiSz.antt =====
-- What `loq` makes of a well-formed REG_MULTI_SZ value: one `\x00` for each string, and no letter.
use mathlib.Core.Path.{subst}
use Prim.Native.Nat.{min}
use capemon.Base.{
  ℕ, zero, suc, ◌+◌, ◌*◌, ◌≤◌, ◌<◌, ◌≡◌, refl, ap, true, false, Option, none, some, List, [], ◌∷◌,
  ◌++◌, ◌==◌, leb, if◌then◌else◌, arith, length, map, All, length-append, replicate,
  length-replicate,
}
use capemon.Utf8.{char_to_ushort, utf8_do_encode}
use capemon.Utf8.Decode.{encode_all}
use capemon.Utf8.Strings.{exactly, exactly_units, read_units, int_bytes, utf8_string_lem}
use capemon.Log.{◌>>=◌}
use capemon.Log.Values.{binary, Element, text, log_string}
use capemon.Log.Escapes.{
  stored, mark, marks, IsLetter, IsString, Outcome, fits, overflow, escapes, escape_strings,
}
use capemon.Log.Registry.{
  units_n, count_strings, escape_loop, first_units, escaped, multi_sz, pointed, log_registry,
}

count_strings-first :
    (s rest : List ℕ) → 0 < length s → All IsLetter s → count_strings 0 (s ++ 0 ∷ rest) ≡ some 0
unfolding count_strings
count_strings-first [] rest more letters = absurd (omega arith)
count_strings-first (c ∷ []) rest more letters = ground (arith, letters.0)
count_strings-first (c ∷ (d ∷ s)) rest more letters =
    ground (arith, letters.0, letters.1.0, count_strings-first (d ∷ s) rest (omega arith) letters.1)

units_n-marks :
    (n bound : ℕ) (rest : List ℕ)
    → 4 * n + 1 ≤ bound
    → units_n bound (marks n ++ 0 ∷ rest) ≡ some (marks n)
unfolding units_n marks
units_n-marks zero zero rest h = absurd (omega arith)
units_n-marks zero (suc bound) rest h = refl
units_n-marks (suc n) zero rest h = absurd (omega arith)
units_n-marks (suc n) (suc zero) rest h = absurd (omega arith)
units_n-marks (suc n) (suc (suc zero)) rest h = absurd (omega arith)
units_n-marks (suc n) (suc (suc (suc zero))) rest h = absurd (omega arith)
units_n-marks (suc n) (suc (suc (suc (suc bound)))) rest h =
    rw (units_n-marks n bound rest (omega arith)) refl

pub exactly_units_all : (xs : List ℕ) → exactly_units (length xs) xs ≡ some xs
unfolding exactly_units
exactly_units_all [] = refl
exactly_units_all (x ∷ xs) = rw (exactly_units_all xs) refl

encode-marks : (n : ℕ) → encode_all (map char_to_ushort (marks n)) ≡ marks n
unfolding encode_all marks char_to_ushort utf8_do_encode
encode-marks zero = refl
encode-marks (suc n) = ap (λ l. mark ++ l) (encode-marks n)

log_string-marks :
    (junk n : ℕ)
    → log_string junk (some (marks n)) (exactly (length (marks n))) ≡ some (binary (marks n))
unfolding log_string read_units int_bytes
log_string-marks junk n =
    rw
      (
        utf8_string_lem junk (marks n) (exactly (length (marks n))) (marks n)
            (exactly_units_all (marks n)),
        encode-marks n,
      )
      refl

abbrev marked_text : ℕ → ℕ → Option Element
marked_text n size = if leb (4 * n + 1) size then some (text (binary (marks n))) else none

-- What is logged of the block.
logged_of : ℕ → ℕ → Option (List ℕ) → Option Element
logged_of junk bound o =
    ((o >>= λ p. units_n bound p) >>= λ cs. log_string junk (some cs) (exactly (length cs)))
    >>= λ t. some (text t)

logged_of-Outcome :
    (junk n size : ℕ) {o : Option (List ℕ)}
    → Outcome [] n size o
    → logged_of junk size o ≡ marked_text n size
unfolding logged_of
logged_of-Outcome junk n size (fits rest e) =
    let room : leb (4 * n + 1) size ≡ true = ground arith in
    rw (units_n-marks n size rest (omega arith), log_string-marks junk n, room) refl
logged_of-Outcome junk n size (overflow e) =
    let none_left : leb (4 * n + 1) size ≡ false = ground arith in rw none_left refl

count_strings-stored :
    (strings : List (List ℕ))
    → All IsString strings
    → 0 < length strings
    → count_strings 0 (stored strings) ≡ some 0
unfolding stored
count_strings-stored [] all some_string = absurd (omega arith)
count_strings-stored (s ∷ strings) all some_string =
    count_strings-first s (stored strings) all.0.some_letter all.0.letters

stored-nonempty : (strings : List (List ℕ)) → (length (stored strings) == 0) ≡ false
unfolding stored
stored-nonempty [] = refl
stored-nonempty (s ∷ strings) = ground (arith, length-append s (0 ∷ stored strings))

-- The branch for a value that is read whole and has its first NUL behind a letter.
multi_sz-logged_of :
    (junk : ℕ) (units : List ℕ)
    → (length units == 0) ≡ false
    → count_strings 0 units ≡ some 0
    → pointed junk (multi_sz junk true (length units)) (some units)
      ≡ logged_of junk (length units) (escape_loop (replicate (length units) junk) 0 units units)
unfolding multi_sz first_units escaped pointed logged_of
multi_sz-logged_of junk units nonempty count =
    let same_size : length units + 0 * 4 ≡ length units = omega arith in
    ground (arith, exactly_units_all units, same_size)

multi_sz-marks :
    (junk : ℕ) (strings : List (List ℕ))
    → All IsString strings
    → 0 < length strings
    → pointed junk (multi_sz junk true (length (stored strings))) (some (stored strings))
      ≡ marked_text (length strings) (length (stored strings))
multi_sz-marks junk strings all some_string =
    let size = length (stored strings) in
    let block = escape_strings strings [] (replicate size junk) all some_string in
    rw
      (multi_sz-logged_of junk (stored strings) (stored-nonempty strings)
        (count_strings-stored strings all some_string))
      (logged_of-Outcome junk (length strings) size (
        subst
          (λ (n : ℕ).
            Outcome [] (length strings) n (escapes [] (replicate size junk) (stored strings)))
          (length-replicate size junk) block))

-- For a REG_MULTI_SZ value of one or more strings in the form `r`, of 512 bytes at most in all, `loq`
-- logs one `\x00` for each string and none of their letters. If the value has no room for four bytes
-- for each string and one more, it writes behind the block that it allocated instead.
pub log_registry-marks :
    (junk : ℕ) (strings : List (List ℕ))
    → All IsString strings
    → 0 < length strings
    → length (stored strings) ≤ 512
    → log_registry junk true 7 (length (stored strings)) (some (stored strings)) ≡ (
        if leb (4 * length strings + 1) (length (stored strings))
        then some (text (binary (marks (length strings))))
        else none)
unfolding log_registry
log_registry-marks junk strings all some_string small =
    let whole : min (length (stored strings)) 512 ≡ length (stored strings) = omega arith in
    rw whole (multi_sz-marks junk strings all some_string)
