-- ===== src/Log/Walk.antt =====
-- log.c: the loops of the two passes of `loq`. `none` is a read outside of the format or the arguments.
use capemon.Base.{
  ℕ, zero, suc, ◌+◌, ◌-◌, Bool, true, false, ◌&&◌, ◌||◌, Option, none, some, List, [], ◌∷◌, ◌++◌,
  ◌==◌, leb, if◌then◌else◌,
}
use capemon.Utf8.Strings.{until_nul}
use capemon.Log.{◌>>=◌}
use capemon.Log.Values.{Element, istr}
use capemon.Log.Format.{LogArg, char_ptr, LogServices, known_value}

-- A repeat count in the format: `*fmt >= '2' && *fmt <= '9'`.
unfoldable pub is_count : ℕ → Bool
is_count c = leb b'2' c && leb c b'9'

module _ {S : Type 0} (body : ℕ → S → Option S) where
  -- `count` rounds with one key.
  unfoldable pub rounds : ℕ → ℕ → S → Option S
  rounds zero key s = some s
  rounds (suc count) key s = body key s >>= λ s'. rounds count key s'

  -- `while (--count != 0 || *fmt != 0)`. A count at the end takes the terminator for a key and goes on
  -- behind it.
  unfoldable pub walk : List ℕ → S → Option S
  walk [] s = some s
  walk (c ∷ []) s = if is_count c then none else body c s
  walk (c ∷ (key ∷ fmt)) s = elim (is_count c) [
    | true ↦ rounds (c - b'0') key s >>= λ s'. walk fmt s'
    | false ↦ body c s >>= λ s'. walk (key ∷ fmt) s'
  ]

-- The keys that both passes know.
unfoldable pub takes_one : ℕ → Bool
takes_one key =
    key == b's'
    || (key == b'f'
        || (key == b'u'
            || (key == b'F'
                || (key == b'i'
                    || (key == b'h'
                        || (key == b'I'
                            || (key == b'H'
                                || (key == b'l'
                                    || (key == b'L'
                                        || (key == b'n'
                                            || (key == b'p'
                                                || (key == b'P'
                                                    || (key == b'x'
                                                        || (key == b'X'
                                                            || (key == b'o'
                                                            || (key == b'O'
                                                            || (key == b'K')))))))))))))))))

unfoldable pub takes_two : ℕ → Bool
takes_two key =
    key == b'S'
    || (key == b'U'
        || (key == b'e'
            || (key == b'v'
                || (key == b'E'
                    || (key == b'V'
                        || (key == b'k'
                            || (key == b'b'
                                || (key == b'c'
                                    || (key == b'B'
                                        || (key == b'C' || (key == b'a' || (key == b'A'))))))))))))

unfoldable pub takes_three : ℕ → Bool
takes_three key = key == b'r' || (key == b'R')

-- "now ignore the values": how many `va_arg` the first pass makes.
unfoldable pub ignored_count : ℕ → ℕ
ignored_count key =
    if takes_one key then 1 else if takes_two key then 2 else if takes_three key then 3 else 0

unfoldable pub is_format_key : ℕ → Bool
is_format_key key = takes_one key || (takes_two key || takes_three key)

unfoldable pub skip_args : ℕ → List LogArg → Option (List LogArg)
skip_args zero args = some args
skip_args (suc n) [] = none
skip_args (suc n) (arg ∷ args) = skip_args n args

-- The second string of the entry for `p`, `h` and `x`, or none.
unfoldable pub typestr : Bool → ℕ → Option ℕ
typestr is_64_bit key =
    if key == b'p' || key == b'P'
    then some (if is_64_bit then b'p' else b'h')
    else if key == b'h' || key == b'H'
    then some b'h'
    else if key == b'x' || key == b'X'
    then some b'p'
    else none

-- `names` has the entries of the description: the key of the array, the name and the type. `unknown` has
-- the characters that were reported to the analyzer.
pub record Info : Type 0 where
  pub argnum : ℕ
  pub info_args : List LogArg
  pub names : List (List ℕ × List ℕ × Option ℕ)
  pub unknown : List ℕ

pub record Values : Type 0 where
  pub argnum : ℕ
  pub value_args : List LogArg
  pub values : List (List ℕ × Element)

-- The name of an argument, in front of its value.
unfoldable pub pop_name : List LogArg → Option (List ℕ × List LogArg)
pop_name (char_ptr (some mem) ∷ args) = until_nul mem >>= λ pname. some (pname, args)
pop_name _ = none

unfoldable pub omit_name : List LogArg → Option (List LogArg)
omit_name (char_ptr p ∷ args) = some args
omit_name _ = none

module _ (e : LogServices) where
  unfoldable pub info_round : ℕ → Info → Option Info
  info_round key s = pop_name s.info_args >>= λ p. skip_args (ignored_count key) p.1 >>= λ rest.
      some (record {
        argnum = s.argnum + 1;
        info_args = rest;
        names = s.names ++ (istr s.argnum, p.0, typestr e.is_64_bit key) ∷ [];
        unknown = if is_format_key key then s.unknown else s.unknown ++ key ∷ [];
      })

  unfoldable pub value_round : ℕ → Values → Option Values
  value_round key s = omit_name s.value_args >>= λ args. elim (is_format_key key) [
    | true ↦ known_value e key args >>= λ p. some (record {
      argnum = s.argnum + 1;
      value_args = p.1;
      values = s.values ++ (istr s.argnum, p.0) ∷ [];
    })
    | false ↦ some (record { argnum = s.argnum + 1; value_args = args; values = s.values })
  ]

  -- Both passes start with `argnum` at 2, behind the success and the return value.
  unfoldable pub info_pass : List ℕ → List LogArg → Option Info
  info_pass fmt args =
      walk info_round fmt (record { argnum = 2; info_args = args; names = []; unknown = [] })

  unfoldable pub value_pass : List ℕ → List LogArg → Option Values
  value_pass fmt args = walk value_round fmt (record { argnum = 2; value_args = args; values = [] })
