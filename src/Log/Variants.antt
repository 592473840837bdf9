-- ===== src/Log/Variants.antt =====
-- log.c: `log_variant`. A field is what the compiler makes of it where it is read: a pattern of 32 or
-- 64 bits, widened by its sign where it has one.
use capemon.Base.{
  ℕ, ◌-◌, length, not, Bool, ◌||◌, Option, none, some, List, [], ◌∷◌, ◌++◌, ◌==◌, if◌then◌else◌,
  bit_and,
}
use capemon.NumText.{num_to_string}
use capemon.Utf8.Strings.{terminated, exactly}
use capemon.Log.{◌>>=◌}
use capemon.Log.Values.{Element, int32, int64, text, log_string, log_wstring}

-- What the fields of a VARIANT hold: a number, a string, a pointer to a string that is NULL, or
-- something that cannot be read.
pub data Payload : Type 0 where
  number : ℕ → Payload
  string : Option (List ℕ) → Payload
  fault : Payload

-- `nested` has a pointer to another VARIANT. `vt` is the type.
pub data Variant : Type 0 where
  null : Variant
  plain : ℕ → Payload → Variant
  nested : ℕ → Variant → Variant

-- VT_INT, VT_UINT, VT_I4, VT_UI4, VT_I2, VT_UI2, VT_I1 and VT_UI1, without VT_BYREF.
unfoldable pub is_int32 : ℕ → Bool
is_int32 vt =
    vt == 22
    || (vt == 23 || (vt == 3 || (vt == 19 || (vt == 2 || (vt == 18 || (vt == 16 || (vt == 17)))))))

-- VT_I8, VT_UI8, VT_DATE and VT_R8, the last two converted.
unfoldable pub is_int64 : ℕ → Bool
is_int64 vt = vt == 20 || (vt == 21 || (vt == 7 || (vt == 5)))

-- `vt` without VT_BYREF.
unfoldable pub without_byref : ℕ → ℕ
without_byref vt = if bit_and vt 0x4000 == 0x4000 then vt - 0x4000 else vt

abbrev pub unhandled : List ℕ
unhandled =
    b'U' ∷ b'n' ∷ b'h' ∷ b'a' ∷ b'n' ∷ b'd' ∷ b'l' ∷ b'e' ∷ b'd' ∷ 32 ∷ b'V' ∷ b'A' ∷ b'R' ∷ b'I'
    ∷ b'A' ∷ b'N' ∷ b'T' ∷ 32 ∷ b'T' ∷ b'y' ∷ b'p' ∷ b'e' ∷ b':' ∷ 32 ∷ []

module _ (junk : ℕ) where
  -- `log_string` of a literal, with its length.
  unfoldable pub literal : List ℕ → Option Element
  literal s = log_string junk (some s) (exactly (length s)) >>= λ t. some (text t)

  unfoldable pub string_field : Payload → Option Element
  string_field (string s) = log_wstring junk s terminated >>= λ t. some (text t)
  string_field fault = literal []
  string_field (number n) = none

  unfoldable pub bool_field : Payload → Option Element
  bool_field (number n) =
      if n == 0
      then literal (b'F' ∷ b'A' ∷ b'L' ∷ b'S' ∷ b'E' ∷ [])
      else literal (b'T' ∷ b'R' ∷ b'U' ∷ b'E' ∷ [])
  bool_field fault = literal []
  bool_field (string s) = none

  unfoldable pub number_field : (ℕ → Element) → Payload → Option Element
  number_field width (number n) = some (width n)
  number_field width fault = literal []
  number_field width (string s) = none

  -- The rest of the switch; the text has at most 29 characters, and `log_msg` has room for 31.
  unfoldable pub other_type : ℕ → Option Element
  other_type vt =
      if not (bit_and vt 0x2000 == 0)
      then literal (b'A' ∷ b'r' ∷ b'r' ∷ b'a' ∷ b'y' ∷ [])
      else num_to_string 32 vt >>= λ digits. literal (unhandled ++ digits)

  -- VT_BSTR is 8, VT_BOOL 11, and 130 as in the source.
  unfoldable pub log_plain : ℕ → Payload → Option Element
  log_plain vt payload =
      if vt == 0
      then literal []
      else if vt == 1
      then literal (b'N' ∷ b'U' ∷ b'L' ∷ b'L' ∷ [])
      else if vt == 74
      then literal []
      else if vt == 130 || without_byref vt == 8
      then string_field payload
      else if without_byref vt == 11
      then bool_field payload
      else if is_int32 (without_byref vt)
      then number_field int32 payload
      else if is_int64 (without_byref vt)
      then number_field int64 payload
      else if without_byref vt == 12
      then literal []
      else other_type vt

  -- 74 and VT_VARIANT, which is 12, hold a pointer to a VARIANT; a NULL or bad one logs an empty string.
  unfoldable pub log_variant : Variant → Option Element
  log_variant null = literal []
  log_variant (plain vt payload) = log_plain vt payload
  log_variant (nested vt v) =
      let inner = log_variant v in if vt == 74 || without_byref vt == 12 then inner else none
