-- ===== src/NumText.antt =====
-- misc.c: numbers as text without the C library (`num_to_string`, `num_to_hex`), network byte order,
-- and the two printers of an IPv4 address. Text is the list of the characters before the terminator.
pub mod Decimal
pub mod ReadBack
pub mod Hex
pub mod Address
use capemon.Base.{
  ℕ, zero, suc, ◌+◌, ◌-◌, ◌*◌, ◌/◌, ◌%◌, ◌^◌, bit_and, bit_or, Bool, true, false, ◌||◌, not, List,
  [], ◌∷◌, ◌++◌, Option, none, some, ◌==◌, leb, ltb, if◌then◌else◌, length,
}
use mathlib.Core.List.{reverse}

-- The body of the loop up to its `break`: the characters after this digit.
abbrev put_digit : ℕ → ℕ → List ℕ → List ℕ
put_digit num dec [] = if not (num / dec == 0) || (dec == 1) then (b'0' + num / dec) ∷ [] else []
put_digit num dec (c ∷ out) = (c ∷ out) ++ (b'0' + num / dec) ∷ []

-- `while (dec)`, with `i` the number of characters written; `none` is the end of the fuel.
unfoldable pub digit_loop : ℕ → ℕ → ℕ → ℕ → List ℕ → Option (List ℕ)
digit_loop zero buflen num dec out = none
digit_loop (suc fuel) buflen num dec out =
    let out' = put_digit num dec out in
    let rest = digit_loop fuel buflen (num % dec) (dec / 10) out' in
    if dec == 0 then some out else if length out' == buflen - 1 then some out' else rest

-- `none` is the return with the buffer untouched. The loop makes ten rounds.
unfoldable pub num_to_string : ℕ → ℕ → Option (List ℕ)
unfolding digit_loop
num_to_string buflen num = if buflen == 0 then none else digit_loop 11 buflen num 1000000000 []

-- `hexchars[n]`.
unfoldable pub hexchar : ℕ → ℕ
hexchar n = if ltb n 10 then b'0' + n else b'A' + n - 10

-- `while (count--)`: the last character first, `out` is what stands behind it.
unfoldable pub hex_loop : ℕ → ℕ → List ℕ → List ℕ
hex_loop zero num out = out
hex_loop (suc count) num out = hex_loop count (num / 2 ^ 4) (hexchar (bit_and num 0xF) ∷ out)

unfoldable pub num_to_hex : ℕ → ℕ → List ℕ
unfolding hex_loop hexchar
num_to_hex width num = hex_loop width num []

-- A GUID, with `Data4` as a list of eight bytes.
pub record Iid : Type 0 where
  pub data1 : ℕ
  pub data2 : ℕ
  pub data3 : ℕ
  pub data4 : List ℕ

hex_bytes : List ℕ → List ℕ
hex_bytes [] = []
hex_bytes (b ∷ bs) = num_to_hex 2 b ++ hex_bytes bs

abbrev first_two : List ℕ → List ℕ
first_two (a ∷ (b ∷ bs)) = a ∷ b ∷ []
first_two bs = bs

abbrev after_two : List ℕ → List ℕ
after_two (a ∷ (b ∷ bs)) = bs
after_two bs = []

unfoldable pub uuid_to_string : Iid → List ℕ
unfolding hex_bytes num_to_hex
uuid_to_string id =
    num_to_hex 8 id.data1
    ++ b'-'
      ∷ (num_to_hex 4 id.data2
          ++ b'-'
            ∷ (num_to_hex 4 id.data3
                ++ b'-'
                  ∷ (hex_bytes (first_two id.data4) ++ b'-' ∷ hex_bytes (after_two id.data4))))

-- `unsigned short` and `unsigned int` results.
unfoldable pub our_htons : ℕ → ℕ
our_htons num = bit_or (num / 2 ^ 8) (bit_and num 0xFF * 2 ^ 8) % 2 ^ 16

unfoldable pub our_ntohs : ℕ → ℕ
our_ntohs netshort = bit_or (netshort / 2 ^ 8) (netshort * 2 ^ 8) % 2 ^ 16

unfoldable pub our_htonl : ℕ → ℕ
our_htonl num =
    bit_or
      (bit_or (bit_or (num / 2 ^ 24) (bit_and num 0x00FF0000 / 2 ^ 8))
        (bit_and num 0x0000FF00 * 2 ^ 8))
      (bit_and num 0xFF * 2 ^ 24 % 2 ^ 32)
    % 2 ^ 32

-- The four bytes of an `IN_ADDR`, in memory order.
pub record Quad : Type 0 where
  pub b0 : ℕ
  pub b1 : ℕ
  pub b2 : ℕ
  pub b3 : ℕ

-- The characters in the buffer after `num_to_string`, which starts as the empty string.
abbrev text_of : Option (List ℕ) → List ℕ
text_of none = []
text_of (some cs) = cs

unfoldable pub addr_to_string : Quad → List ℕ
addr_to_string q =
    text_of (num_to_string 4 q.b0)
    ++ b'.'
      ∷ (text_of (num_to_string 4 q.b1)
          ++ b'.' ∷ (text_of (num_to_string 4 q.b2) ++ b'.' ∷ text_of (num_to_string 4 q.b3)))

-- The digits of an octet, last one first: `while (val > 0)`, at most three rounds.
octet_loop : ℕ → ℕ → List ℕ
octet_loop zero val = []
octet_loop (suc fuel) val =
    let rest = octet_loop fuel (val / 10) in if ltb 0 val then (val % 10 + b'0') ∷ rest else []

unfoldable pub temp_buffer : ℕ → List ℕ
unfolding octet_loop
temp_buffer octet = if octet == 0 then b'0' ∷ [] else octet_loop 3 octet

-- `*p` and `*remaining` after the call; `none` is the return of 0.
unfoldable pub append_octet : List ℕ × ℕ → ℕ → Option (List ℕ × ℕ)
unfolding temp_buffer
append_octet (out, remaining) octet =
    let digits = temp_buffer octet in
    if leb remaining (length digits)
    then none
    else some (out ++ reverse digits, remaining - length digits)

-- The dot between two octets.
unfoldable pub append_dot : List ℕ × ℕ → Option (List ℕ × ℕ)
append_dot (out, remaining) =
    if leb remaining 1 then none else some (out ++ b'.' ∷ [], remaining - 1)

infixl 5 ◌>>=◌
abbrev ◌>>=◌ {ℓ κ} : {A : Type ℓ} {B : Type κ} → Option A → (A → Option B) → Option B
none >>= f = none
some a >>= f = f a

abbrev pub af_inet : ℕ
af_inet = 2

-- OUR_INET_ADDRSTRLEN
abbrev pub our_inet_addrstrlen : ℕ
our_inet_addrstrlen = 16

-- The text in `dst`; `none` is the return of NULL. `dst` is whether the pointer is not NULL.
unfoldable pub our_inet_ntop : ℕ → Option Quad → Bool → ℕ → Option (List ℕ)
our_inet_ntop af none dst size = none
our_inet_ntop af (some q) dst size =
    if not dst || (not (af == af_inet) || ltb size our_inet_addrstrlen) then none else do
      s0 ← append_octet ([], size) q.b0
      s1 ← append_dot s0
      s2 ← append_octet s1 q.b1
      s3 ← append_dot s2
      s4 ← append_octet s3 q.b2
      s5 ← append_dot s4
      s6 ← append_octet s5 q.b3
      some s6.0
