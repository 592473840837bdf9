-- ===== src/Tests/Text.antt =====
-- lookup.c, utf8.c and the number printers of misc.c.
use capemon.Base.{ℕ, ◌≡◌, refl, true, List, [], ◌∷◌, none, some, arith, length, store}
use capemon.Lookup.{Lookup, lookup_add, lookup_get, lookup_put, lookup_del}
use capemon.Lookup.Laws.{stack_of, top, lookup_refines_stacks, IsUnique}
use capemon.Utf8.{
  utf8_do_encode, utf8_length, utf8_strlen_unicode, utf8_strlen_ascii, char_to_ushort,
}
use capemon.Utf8.Decode.{encode_all, decode, has_surrogate, decode-encode_all}
use capemon.Utf8.Strings.{
  terminated, exactly, read_units, until_nul, exactly_units, int_bytes, fill, utf8_wstring,
}
use capemon.NumText.{
  num_to_string, Iid, uuid_to_string, our_htons, our_ntohs, our_htonl, Quad, addr_to_string,
  our_inet_ntop, af_inet,
}
use capemon.NumText.ReadBack.{IsDecimal}
use capemon.NumText.Address.{
  split_dots, IsQuad, split_dots-addr_to_string, our_inet_ntop-addr_to_string,
}

-- Handle 4 twice, the newer entry in front, and handle 8.
abbrev two_handles : Lookup ℕ
two_handles =
    record { id = 4; size = 2; block = 20 }
    ∷ record { id = 8; size = 1; block = 30 }
    ∷ record { id = 4; size = 2; block = 10 }
    ∷ []

lookup_newest : lookup_get two_handles 4 ≡ some (20, 2)
unfolding lookup_get
lookup_newest = refl

lookup_older : lookup_get (lookup_del two_handles 4) 4 ≡ some (10, 2)
unfolding lookup_get lookup_del
lookup_older = refl

lookup_refines_stacks_example :
    (lookup_get two_handles 4 ≡ top (stack_of two_handles 4))
    × (stack_of (lookup_add 0 two_handles 8 5) 4 ≡ stack_of two_handles 4)
    × (stack_of (lookup_del two_handles 8) 4 ≡ stack_of two_handles 4)
    × (stack_of (lookup_put two_handles 8 7) 4 ≡ stack_of two_handles 4)
lookup_refines_stacks_example = lookup_refines_stacks two_handles 0 7 5 8 4

abbrev one_each : Lookup ℕ
one_each = record { id = 4; size = 2; block = 20 } ∷ record { id = 8; size = 1; block = 30 } ∷ []

one_each-IsUnique : IsUnique one_each
one_each-IsUnique k = ground arith

-- A, é and the euro sign.
abbrev mixed : List ℕ
mixed = 0x41 ∷ 0xe9 ∷ 0x20ac ∷ []

encode_mixed : encode_all mixed ≡ 0x41 ∷ 0xc3 ∷ 0xa9 ∷ 0xe2 ∷ 0x82 ∷ 0xac ∷ []
unfolding encode_all utf8_do_encode
encode_mixed = refl

-- A pair of surrogates, for one character outside the 16-bit range, comes out in six bytes.
encode_pair : encode_all (0xd83d ∷ 0xde00 ∷ []) ≡ 0xed ∷ 0xa0 ∷ 0xbd ∷ 0xed ∷ 0xb8 ∷ 0x80 ∷ []
unfolding encode_all utf8_do_encode
encode_pair = refl

refuse_pair : decode 10 (encode_all (0x41 ∷ 0xd83d ∷ 0xde00 ∷ [])) ≡ none
unfolding has_surrogate
refuse_pair = decode-encode_all (0x41 ∷ 0xd83d ∷ 0xde00 ∷ []) 10 (omega arith) (omega arith)

decode-encode_all_example : decode 4 (encode_all mixed) ≡ some mixed
unfolding has_surrogate
decode-encode_all_example = decode-encode_all mixed 4 (omega arith) (omega arith)

-- The text, its terminator, and what lies behind.
abbrev memory : List ℕ
memory = 0x41 ∷ 0xe9 ∷ 0x20ac ∷ 0 ∷ 0x99 ∷ []

wstring_run :
    utf8_wstring 0xcd memory terminated
    ≡ some (6 ∷ 0 ∷ 0 ∷ 0 ∷ 0x41 ∷ 0xc3 ∷ 0xa9 ∷ 0xe2 ∷ 0x82 ∷ 0xac ∷ [])
unfolding utf8_wstring read_units until_nul utf8_strlen_unicode utf8_length utf8_do_encode store
    int_bytes fill
wstring_run = refl

wstring_too_long : utf8_wstring 0xcd memory (exactly 9) ≡ none
unfolding utf8_wstring read_units exactly_units
wstring_too_long = refl

-- The byte of é in Latin-1 comes out as the unit 0xffe9, in three bytes.
sign_extended : utf8_strlen_ascii (0xe9 ∷ []) ≡ 3
unfolding utf8_strlen_ascii utf8_length utf8_do_encode char_to_ushort
sign_extended = refl

print_1024 : num_to_string 32 1024 ≡ some (b'1' ∷ b'0' ∷ b'2' ∷ b'4' ∷ [])
unfolding num_to_string
print_1024 = refl

-- A buffer of one byte is overrun by a number of ten digits.
print_overrun :
    num_to_string 1 4294967295
    ≡ some (b'4' ∷ b'2' ∷ b'9' ∷ b'4' ∷ b'9' ∷ b'6' ∷ b'7' ∷ b'2' ∷ b'9' ∷ b'5' ∷ [])
unfolding num_to_string
print_overrun = refl

abbrev some_guid : Iid
some_guid = record {
  data1 = 0x12345678;
  data2 = 0x9abc;
  data3 = 0xdef0;
  data4 = 0x01 ∷ 0x23 ∷ 0x45 ∷ 0x67 ∷ 0x89 ∷ 0xab ∷ 0xcd ∷ 0xef ∷ [];
}

guid_text : length (uuid_to_string some_guid) ≡ 36
unfolding uuid_to_string
guid_text = refl

swapped :
    (our_htons 0x1234 ≡ 0x3412) × (our_ntohs 0x3412 ≡ 0x1234) × (our_htonl 0x12345678 ≡ 0x78563412)
unfolding our_htons our_ntohs our_htonl
swapped = (refl, refl, refl)

abbrev local : Quad
local = record { b0 = 192; b1 = 168; b2 = 0; b3 = 255 }

local-IsQuad : IsQuad local
local-IsQuad = omega arith

our_inet_ntop-addr_to_string_example :
    our_inet_ntop af_inet (some local) true 16 ≡ some (addr_to_string local)
our_inet_ntop-addr_to_string_example =
    our_inet_ntop-addr_to_string local 16 local-IsQuad (omega arith)

split_dots-addr_to_string_example :
    (p0 : List ℕ) × (p1 : List ℕ) × (p2 : List ℕ) × (p3 : List ℕ) × (split_dots
        (addr_to_string local)
      ≡ p0 ∷ p1 ∷ p2 ∷ p3 ∷ [])
    × IsDecimal 3 192 p0
    × IsDecimal 3 168 p1
    × IsDecimal 3 0 p2
    × IsDecimal 3 255 p3
split_dots-addr_to_string_example = split_dots-addr_to_string local local-IsQuad
