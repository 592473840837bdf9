-- ===== src/Log/Fitting.antt =====
-- The calls of `loq` about the monitor itself: their arguments fit their formats.
use Prim.Native.String.{String}
use capemon.Base.{
  ℕ, ◌*◌, ◌/◌, ◌≡◌, refl, true, false, none, some, List, [], ◌∷◌, ◌++◌, length, arith, map, ◌==◌,
  if◌then◌else◌,
}
use capemon.Utf8.{char_to_ushort}
use capemon.Utf8.Decode.{encode_all}
use capemon.Utf8.Strings.{
  until_nul, terminated, exactly, read_units, exactly_units, int_bytes, utf8_string_lem,
  utf8_wstring_lem,
}
use capemon.Log.Values.{Text, Element, log_string, log_wstring, int32, text, binary}
use capemon.Log.Format.{
  LogArg, int, word, LogServices, known_value, text_value, number_value, unicode_value, or_empty,
  popped,
}
use capemon.Log.Walk.{is_count, ignored_count, is_format_key, takes_one, takes_two, takes_three}
use capemon.Log.MultiSz.{exactly_units_all}
use capemon.Log.Notes.{c_string, named, wide_string, TextOrNull}

-- A key that takes the argument.
pub record FitsKey (c : ℕ) (arg : LogArg) : Type 0 where
  pub plain : is_count c ≡ false
  pub one : ignored_count c ≡ 1
  pub known : is_format_key c ≡ true
  pub valued :
      (e : LogServices) (args : List LogArg)
      → (x : Element) × (known_value e c (arg ∷ args) ≡ some (x, args))

-- Each key of the format has a name and one argument that it takes.
pub data Matches : List ℕ → List LogArg → Type 0 where
  finished : Matches [] []
  next_key :
      {c : ℕ} {arg : LogArg} {fmt : List ℕ} {args : List LogArg} (n : String)
      → FitsKey c arg
      → Matches fmt args
      → Matches (c ∷ fmt) (named n ∷ (arg ∷ args))

-- What stands before the first NUL of a text that ends with one.
unfoldable pub before_nul : List ℕ → List ℕ
before_nul [] = []
before_nul (c ∷ cs) = if c == 0 then [] else c ∷ before_nul cs

pub until_nul-terminated : (cs : List ℕ) → until_nul (cs ++ 0 ∷ []) ≡ some (before_nul cs)
unfolding until_nul before_nul
until_nul-terminated [] = refl
until_nul-terminated (c ∷ cs) = ground (arith, until_nul-terminated cs)

pub int-FitsKey : (n : ℕ) → FitsKey b'i' (int n)
unfolding is_count ignored_count is_format_key takes_one takes_two takes_three known_value
    number_value
int-FitsKey n = record {
  plain = refl;
  one = refl;
  known = refl;
  valued = λ e args. (int32 n, refl);
}

pub hex-FitsKey : (n : ℕ) → FitsKey b'h' (int n)
unfolding is_count ignored_count is_format_key takes_one takes_two takes_three known_value
    number_value
hex-FitsKey n = record {
  plain = refl;
  one = refl;
  known = refl;
  valued = λ e args. (int32 n, refl);
}

pub pointer-FitsKey : (n : ℕ) → FitsKey b'p' (word n)
unfolding is_count ignored_count is_format_key takes_one takes_two takes_three known_value
    number_value
pointer-FitsKey n = record { plain = refl; one = refl; known = refl; valued = λ e args. (_, refl) }

abbrev shown : List ℕ → Text
shown cs = binary (encode_all (map char_to_ushort (before_nul cs)))

log_string-terminated :
    (junk : ℕ) (cs : List ℕ) → log_string junk (some (cs ++ 0 ∷ [])) terminated ≡ some (shown cs)
unfolding log_string read_units int_bytes
log_string-terminated junk cs =
    rw (utf8_string_lem junk (cs ++ 0 ∷ []) terminated (before_nul cs) (until_nul-terminated cs))
      refl

pub string-FitsKey : (t : TextOrNull) → FitsKey b's' (c_string t)
unfolding is_count ignored_count is_format_key takes_one takes_two takes_three known_value
    text_value or_empty popped
string-FitsKey none = record {
  plain = refl;
  one = refl;
  known = refl;
  valued = λ e args. (text (shown []), rw (log_string-terminated e.junk []) refl);
}
string-FitsKey (some cs) = record {
  plain = refl;
  one = refl;
  known = refl;
  valued = λ e args. (text (shown cs), rw (log_string-terminated e.junk cs) refl);
}

log_wstring-whole :
    (junk : ℕ) (cs : List ℕ)
    → log_wstring junk (some cs) (exactly (2 * length cs / 2)) ≡ some (binary (encode_all cs))
unfolding log_wstring read_units int_bytes
log_wstring-whole junk cs =
    let half : 2 * length cs / 2 ≡ length cs = omega arith in
    rw half (rw (utf8_wstring_lem junk cs (exactly (length cs)) cs (exactly_units_all cs)) refl)

log_string-empty : (junk : ℕ) → log_string junk (some []) (exactly 0) ≡ some (binary [])
unfolding log_string read_units exactly_units int_bytes encode_all
log_string-empty junk = rw (utf8_string_lem junk [] (exactly 0) [] refl) refl

pub wide-FitsKey : (t : TextOrNull) → FitsKey b'o' (wide_string t)
unfolding is_count ignored_count is_format_key takes_one takes_two takes_three known_value
    unicode_value popped
wide-FitsKey none = record {
  plain = refl;
  one = refl;
  known = refl;
  valued = λ e args. (text (binary []), rw (log_string-empty e.junk) refl);
}
wide-FitsKey (some cs) = record {
  plain = refl;
  one = refl;
  known = refl;
  valued = λ e args. (text (binary (encode_all cs)), rw (log_wstring-whole e.junk cs) refl);
}

pub ruleset notes =
    (next_key, finished, int-FitsKey, hex-FitsKey, pointer-FitsKey, string-FitsKey, wide-FitsKey)
