-- ===== src/Utf8/Strings.antt =====
-- `utf8_string` and `utf8_wstring`: an allocated block that holds the length in four bytes, and then
-- the encoded text. `none` is an access outside the memory that was given or allocated.
use mathlib.Core.List.{append_assoc}
use mathlib.Core.Option
use capemon.Base.{
  take, ◌≤◌, length-replicate, length-drop, ℕ, zero, suc, ◌+◌, ◌/◌, ◌%◌, ◌^◌, ◌≡◌, refl, ap, List,
  [], ◌∷◌, ◌++◌, map, Option, none, some, ◌==◌, if◌then◌else◌, arith, length, length-append, drop,
  replicate, store, store-append,
}
use capemon.Utf8.{
  utf8_do_encode, utf8_length, utf8_strlen_unicode, utf8_strlen_ascii, char_to_ushort,
}
use capemon.Utf8.Decode.{encode_all, utf8_strlen_unicode-length}

infixl 5 ◌>>=◌
abbrev ◌>>=◌ {ℓ κ} : {A : Type ℓ} {B : Type κ} → Option A → (A → Option B) → Option B
none >>= f = none
some a >>= f = f a

-- The `length` argument: -1 asks for the length up to the terminator.
pub data Extent : Type 0 where
  terminated : Extent
  exactly : ℕ → Extent

-- The units before the terminator.
unfoldable pub until_nul : List ℕ → Option (List ℕ)
until_nul [] = none
until_nul (c ∷ mem) = if c == 0 then some [] else Option.map (λ (r : List ℕ). c ∷ r) (until_nul mem)

unfoldable pub exactly_units : ℕ → List ℕ → Option (List ℕ)
exactly_units zero mem = some []
exactly_units (suc n) [] = none
exactly_units (suc n) (c ∷ mem) = Option.map (λ (r : List ℕ). c ∷ r) (exactly_units n mem)

pub exactly_units-length :
    (n : ℕ) (xs : List ℕ) → n ≤ length xs → exactly_units n xs ≡ some (take n xs)
unfolding exactly_units
exactly_units-length zero xs h = refl
exactly_units-length (suc n) [] h = absurd (omega arith)
exactly_units-length (suc n) (x ∷ xs) h = ground (arith, exactly_units-length n xs)

unfoldable pub read_units : Extent → List ℕ → Option (List ℕ)
read_units terminated mem = until_nul mem
read_units (exactly n) mem = exactly_units n mem

-- `*((int *) utf8string) = encoded_length`, little-endian.
unfoldable pub int_bytes : ℕ → List ℕ
int_bytes n = n % 256 ∷ n / 2 ^ 8 % 256 ∷ n / 2 ^ 16 % 256 ∷ n / 2 ^ 24 % 256 ∷ []

-- The loop over the units, at `pos`.
unfoldable pub fill : List ℕ → ℕ → List ℕ → Option (List ℕ)
fill buf pos [] = some buf
fill buf pos (c ∷ cs) = do
  buf' ← store buf pos (utf8_do_encode c)
  fill buf' (pos + utf8_length c) cs

-- `malloc` leaves unknown bytes, all `junk` here.
module _ (junk : ℕ) where
  unfoldable pub utf8_wstring : List ℕ → Extent → Option (List ℕ)
  utf8_wstring mem extent = do
    str ← read_units extent mem
    let encoded_length = utf8_strlen_unicode str
    buf ← store (replicate (encoded_length + 4) junk) 0 (int_bytes encoded_length)
    fill buf 4 str

  unfoldable pub utf8_string : List ℕ → Extent → Option (List ℕ)
  utf8_string mem extent = do
    str ← read_units extent mem
    let encoded_length = utf8_strlen_ascii str
    buf ← store (replicate (encoded_length + 4) junk) 0 (int_bytes encoded_length)
    fill buf 4 (map char_to_ushort str)

length-encode_all-cons :
    (c : ℕ) (cs : List ℕ) → length (encode_all (c ∷ cs)) ≡ utf8_length c + length (encode_all cs)
unfolding encode_all utf8_length
length-encode_all-cons c cs = length-append (utf8_do_encode c) (encode_all cs)

nothing_left : (xs : List ℕ) → length xs ≡ 0 → xs ≡ []
nothing_left [] h = refl
nothing_left (x ∷ xs) h = absurd (omega arith)

-- The loop writes the encoded text at `pos` and ends at the end of a buffer that has just the room.
fill-append :
    (cs done rest : List ℕ)
    → length rest ≡ length (encode_all cs)
    → fill (done ++ rest) (length done) cs ≡ some (done ++ encode_all cs)
unfolding fill encode_all utf8_length
fill-append [] done rest h = ground (arith, nothing_left rest)
fill-append (c ∷ cs) done rest h = ground (
  arith,
  length-append (utf8_do_encode c) (encode_all cs),
  store-append done (utf8_do_encode c) rest,
  append_assoc done (utf8_do_encode c) (drop (length (utf8_do_encode c)) rest),
  append_assoc done (utf8_do_encode c) (encode_all cs),
  length-append done (utf8_do_encode c),
  length-drop (length (utf8_do_encode c)) rest,
  fill-append cs (done ++ utf8_do_encode c) (drop (length (utf8_do_encode c)) rest),
)

write_block :
    (junk : ℕ) (cs : List ℕ)
    → let n = length (encode_all cs) in
      (store (replicate (n + 4) junk) 0 (int_bytes n) >>= λ buf. fill buf 4 cs)
      ≡ some (int_bytes n ++ encode_all cs)
unfolding int_bytes
write_block junk cs =
    let n = length (encode_all cs) in
    let rest = drop 4 (replicate (n + 4) junk) in
    ground (
      arith,
      store-append [] (int_bytes n) (replicate (n + 4) junk),
      length-replicate (n + 4) junk,
      length-drop 4 (replicate (n + 4) junk),
      fill-append cs (int_bytes n) rest,
    )

utf8_strlen_ascii-unicode :
    (s : List ℕ) → utf8_strlen_ascii s ≡ utf8_strlen_unicode (map char_to_ushort s)
unfolding utf8_strlen_ascii utf8_strlen_unicode
utf8_strlen_ascii-unicode [] = refl
utf8_strlen_ascii-unicode (x ∷ s) =
    ap (λ (n : ℕ). utf8_length (char_to_ushort x) + n) (utf8_strlen_ascii-unicode s)

module _ (junk : ℕ) (mem : List ℕ) (extent : Extent) (cs : List ℕ) where
  pub utf8_wstring_lem :
      read_units extent mem ≡ some cs
      → utf8_wstring junk mem extent ≡ some (int_bytes (length (encode_all cs)) ++ encode_all cs)
  unfolding utf8_wstring
  utf8_wstring_lem h = ground (arith, utf8_strlen_unicode-length cs, write_block junk cs)

  -- The same of `utf8_string`, where each `char` counts as the `unsigned short` it is widened to.
  pub utf8_string_lem :
      read_units extent mem ≡ some cs
      → let units = map char_to_ushort cs in
        utf8_string junk mem extent
        ≡ some (int_bytes (length (encode_all units)) ++ encode_all units)
  unfolding utf8_string
  utf8_string_lem h = ground (
    arith,
    utf8_strlen_ascii-unicode cs,
    utf8_strlen_unicode-length (map char_to_ushort cs),
    write_block junk (map char_to_ushort cs),
  )
