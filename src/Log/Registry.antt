-- ===== src/Log/Registry.antt =====
-- log.c: the branch of `loq` for a registry value (`r` and `R`). `none` is an access outside the memory
-- that was given or allocated; the block of a REG_MULTI_SZ holds `junk` at first.
use capemon.Base.{
  ℕ, zero, suc, ◌+◌, ◌*◌, ◌/◌, ◌^◌, Bool, true, false, ◌||◌, Option, none, some, List, [], ◌∷◌,
  ◌==◌, if◌then◌else◌, length, replicate, store,
}
use Prim.Native.Nat.{min}
use capemon.NumText.{our_htonl}
use capemon.Utf8.Strings.{exactly, exactly_units}
use capemon.Log.{◌>>=◌}
use capemon.Log.Values.{
  Text, binary, Element, int32, text, buffer_regval_max, append_binary, log_string, log_wstring,
}

-- The characters before a NUL, at most `n`: `strnlen` and `wcsnlen` with the text they measure.
unfoldable pub units_n : ℕ → List ℕ → Option (List ℕ)
units_n zero mem = some []
units_n (suc n) [] = none
units_n (suc n) (x ∷ mem) = if x == 0 then some [] else units_n n mem >>= λ xs. some (x ∷ xs)

-- The 16-bit units of memory.
unfoldable pub units16 : List ℕ → List ℕ
units16 (a ∷ (b ∷ mem)) = (a + b * 2 ^ 8) ∷ units16 mem
units16 _ = []

-- `*(unsigned int *)data`
unfoldable pub read_dword : Option (List ℕ) → Option ℕ
read_dword none = some 0
read_dword (some (a ∷ (b ∷ (c ∷ (d ∷ rest))))) = some (a + b * 2 ^ 8 + c * 2 ^ 16 + d * 2 ^ 24)
read_dword (some mem) = none

-- `strcnt`, if the loop finds a NUL behind the first character of those it looks at.
unfoldable pub count_strings : ℕ → List ℕ → Option ℕ
count_strings strcnt (x ∷ (y ∷ rest)) =
    let strcnt' = if x == 0 then strcnt + 1 else strcnt in
    let later = count_strings strcnt' (y ∷ rest) in if y == 0 then some strcnt' else later
count_strings strcnt _ = none

-- The loop over the characters, with the bytes of `data` from `data[i]` on. `p[x] = data[i]` does not
-- move `x` on.
unfoldable pub escape_loop : List ℕ → ℕ → List ℕ → List ℕ → Option (List ℕ)
escape_loop p x (c ∷ (d ∷ rest)) (b ∷ bytes) = elim (c == 0) [
  | true ↦ store p x (b'\\' ∷ b'x' ∷ b'0' ∷ b'0' ∷ []) >>= λ p'. elim (d == 0) [
    | true ↦ store p' (x + 4) (0 ∷ [])
    | false ↦ escape_loop p' (x + 4) (d ∷ rest) bytes
  ]
  | false ↦ store p x (b ∷ []) >>= λ p'. escape_loop p' x (d ∷ rest) bytes
]
escape_loop p x units bytes = some p

-- An index that starts at `size - 1` of an empty value would wrap around.
unfoldable pub first_units : ℕ → List ℕ → Option (List ℕ)
first_units size mem = if size == 0 then none else exactly_units size mem

module _ (junk : ℕ) where
  -- The characters of the block up to its first NUL, which `log_string` and `log_wstring` are given.
  unfoldable pub escaped : List ℕ → List ℕ → ℕ → Option (List ℕ)
  escaped units bytes strcnt = do
    p ← escape_loop (replicate (length units + strcnt * 4) junk) 0 units bytes
    units_n (length units + strcnt * 4) p

  -- `buffer_log` if no NUL is found. The guards before it compare `type`, not `key`, with 'r' and 'R',
  -- and are never taken.
  unfoldable pub multi_sz : Bool → ℕ → List ℕ → Option Text
  multi_sz true size mem = do
    units ← first_units size mem
    elim (count_strings 0 units) [
      | none ↦ append_binary size mem
      | some strcnt ↦
          escaped units units strcnt >>= λ cs. log_string junk (some cs) (exactly (length cs))
    ]
  multi_sz false size mem = do
    units ← first_units (size / 2) (units16 mem)
    elim (count_strings 0 units) [
      | none ↦ append_binary size mem
      | some strcnt ↦
          escaped units mem strcnt >>= λ cs. log_wstring junk (some cs) (exactly (length cs))
    ]

  unfoldable pub string_value : Bool → ℕ → List ℕ → Option Text
  string_value true size mem =
      units_n size mem >>= λ cs. log_string junk (some mem) (exactly (length cs))
  string_value false size mem = units_n (size / 2) (units16 mem) >>= λ cs.
      log_wstring junk (some (units16 mem)) (exactly (length cs))

  -- A type that none of the tests knows, or REG_BINARY. A NULL is not looked for.
  unfoldable pub buffer_value : ℕ → Option (List ℕ) → Option Text
  buffer_value size none = if size == 0 then some (binary []) else none
  buffer_value size (some mem) = append_binary size mem

  unfoldable pub pointed : (List ℕ → Option Text) → Option (List ℕ) → Option Element
  pointed log none = some (text (binary []))
  pointed log (some mem) = log mem >>= λ t. some (text t)

  -- REG_NONE 0, REG_SZ 1, REG_EXPAND_SZ 2, REG_DWORD 4, REG_DWORD_BIG_ENDIAN 5, REG_MULTI_SZ 7.
  -- `narrow` is whether the key is `r`.
  unfoldable pub log_registry : Bool → ℕ → ℕ → Option (List ℕ) → Option Element
  log_registry narrow type size regdata =
      let n = min size buffer_regval_max in
      if type == 0
      then log_string junk (some []) (exactly 0) >>= (λ t. some (text t))
      else if type == 4
      then read_dword regdata >>= (λ value. some (int32 value))
      else if type == 5
      then read_dword regdata >>= (λ value. some (int32 (our_htonl value)))
      else if type == 2 || type == 1
      then pointed (string_value narrow n) regdata
      else if type == 7
      then pointed (multi_sz narrow n) regdata
      else buffer_value n regdata >>= (λ t. some (text t))
