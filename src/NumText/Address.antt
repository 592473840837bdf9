-- ===== src/NumText/Address.antt =====
-- The two printers of an IPv4 address agree, and what they print is read back.
use mathlib.Core.List.{reverse, append_assoc}
use capemon.Base.{
  ℕ, ◌-◌, ◌≤◌, ◌<◌, ◌≡◌, refl, Bool, true, false, ◌&&◌, List, [], ◌∷◌, ◌++◌, some, ◌==◌, ltb, leb,
  All, not, if◌then◌else◌, arith, length, passes_below, passes_below_sound,
}
use capemon.NumText.{
  Quad, num_to_string, temp_buffer, append_octet, append_dot, addr_to_string, our_inet_ntop,
  af_inet, text_of, our_inet_addrstrlen,
}
use capemon.NumText.Decimal.{read_decimal}
use capemon.NumText.ReadBack.{IsDigit, StartsWell, IsDecimal}

abbrev list_eq : List ℕ → List ℕ → Bool
list_eq [] [] = true
list_eq [] (y ∷ ys) = false
list_eq (x ∷ xs) [] = false
list_eq (x ∷ xs) (y ∷ ys) = x == y && list_eq xs ys

list_eq_sound : (xs ys : List ℕ) → list_eq xs ys ≡ true → xs ≡ ys
list_eq_sound [] [] h = refl
list_eq_sound [] (y ∷ ys) h = cc
list_eq_sound (x ∷ xs) [] h = cc
list_eq_sound (x ∷ xs) (y ∷ ys) h = ground (arith, list_eq_sound xs ys)

octet_text : ℕ → List ℕ
octet_text b = text_of (num_to_string 4 b)

all_digit : List ℕ → Bool
all_digit [] = true
all_digit (c ∷ cs) = (leb b'0' c && leb c b'9') && all_digit cs

starts_well : List ℕ → Bool
starts_well [] = false
starts_well (c ∷ []) = true
starts_well (c ∷ (d ∷ cs)) = not (c == b'0')

all_digit-IsDigit : (cs : List ℕ) → all_digit cs ≡ true → All IsDigit cs
unfolding all_digit
all_digit-IsDigit [] h = tt
all_digit-IsDigit (c ∷ cs) h = (ground arith, all_digit-IsDigit cs (ground arith))

starts_well-StartsWell : (cs : List ℕ) → starts_well cs ≡ true → StartsWell cs
unfolding starts_well
starts_well-StartsWell [] h = absurd (ground arith)
starts_well-StartsWell (c ∷ []) h = tt
starts_well-StartsWell (c ∷ (d ∷ cs)) h = λ e. ground arith

same_octet : ℕ → Bool
unfolding octet_text temp_buffer num_to_string all_digit starts_well
same_octet b =
    (list_eq (reverse (temp_buffer b)) (octet_text b) && leb (length (temp_buffer b)) 3)
    && ((all_digit (octet_text b) && (starts_well (octet_text b) && leb (length (octet_text b)) 3))
        && read_decimal 0 (octet_text b) == b)

-- Checked by evaluation over all 256 octets.
octet_table : passes_below same_octet 256 ≡ true
unfolding passes_below same_octet read_decimal
octet_table = refl

record OctetText (b : ℕ) : Type 0 where
  same : reverse (temp_buffer b) ≡ octet_text b
  short : length (temp_buffer b) ≤ 3
  digits : all_digit (octet_text b) ≡ true
  form : IsDecimal 3 b (octet_text b)

octet-OctetText : (b : ℕ) → b < 256 → OctetText b
unfolding same_octet
octet-OctetText b h =
    let passed : same_octet b ≡ true = passes_below_sound same_octet 256 b octet_table h in
    record {
      same = list_eq_sound (reverse (temp_buffer b)) (octet_text b) (ground arith);
      short = ground arith;
      digits = ground arith;
      form = record {
        digits = all_digit-IsDigit (octet_text b) (ground arith);
        value = ground arith;
        short = ground arith;
        starts = starts_well-StartsWell (octet_text b) (ground arith);
      };
    }

abbrev cons_head : ℕ → List (List ℕ) → List (List ℕ)
cons_head d [] = (d ∷ []) ∷ []
cons_head d (p ∷ ps) = (d ∷ p) ∷ ps

-- The pieces between dots.
unfoldable pub split_dots : List ℕ → List (List ℕ)
split_dots [] = [] ∷ []
split_dots (c ∷ cs) = if c == b'.' then [] ∷ split_dots cs else cons_head c (split_dots cs)

split_dots-digits :
    (ds rest : List ℕ) → all_digit ds ≡ true → split_dots (ds ++ b'.' ∷ rest) ≡ ds ∷ split_dots rest
unfolding split_dots all_digit
split_dots-digits [] rest h = refl
split_dots-digits (d ∷ ds) rest h = ground (arith, split_dots-digits ds rest)

split_dots-last : (ds : List ℕ) → all_digit ds ≡ true → split_dots ds ≡ ds ∷ []
unfolding split_dots all_digit
split_dots-last [] h = refl
split_dots-last (d ∷ ds) h = ground (arith, split_dots-last ds)

-- Every field is a byte.
pub record IsQuad (q : Quad) : Type 0 where
  pub b0 : q.b0 < 256
  pub b1 : q.b1 < 256
  pub b2 : q.b2 < 256
  pub b3 : q.b3 < 256

-- The text of an address has four pieces between its dots, and they are the decimal forms of its
-- bytes in memory order: one to three digits that stand for the byte, the first one 0 only if it stands
-- alone.
pub split_dots-addr_to_string :
    (q : Quad)
    → IsQuad q
    → (p0 : List ℕ) × (p1 : List ℕ) × (p2 : List ℕ) × (p3 : List ℕ) × (split_dots (addr_to_string q)
        ≡ p0 ∷ p1 ∷ p2 ∷ p3 ∷ [])
      × IsDecimal 3 q.b0 p0
      × IsDecimal 3 q.b1 p1
      × IsDecimal 3 q.b2 p2
      × IsDecimal 3 q.b3 p3
unfolding addr_to_string octet_text
split_dots-addr_to_string q v =
    let o0 = octet-OctetText q.b0 v.b0 in
    let o1 = octet-OctetText q.b1 v.b1 in
    let o2 = octet-OctetText q.b2 v.b2 in
    let o3 = octet-OctetText q.b3 v.b3 in
    (
      octet_text q.b0,
      octet_text q.b1,
      octet_text q.b2,
      octet_text q.b3,
      rw
          (
            split_dots-digits (octet_text q.b0) _ o0.digits,
            split_dots-digits (octet_text q.b1) _ o1.digits,
            split_dots-digits (octet_text q.b2) _ o2.digits,
            split_dots-last (octet_text q.b3) o3.digits,
          )
          refl,
      o0.form,
      o1.form,
      o2.form,
      o3.form,
    )

append_octet_lem :
    (out : List ℕ) (remaining b : ℕ)
    → b < 256
    → 3 < remaining
    → append_octet (out, remaining) b
      ≡ some (out ++ octet_text b, remaining - length (temp_buffer b))
unfolding append_octet
append_octet_lem out remaining b h room =
    ground (arith, (octet-OctetText b h).short, (octet-OctetText b h).same)

append_dot_lem :
    (out : List ℕ) (remaining : ℕ)
    → 1 < remaining
    → append_dot (out, remaining) ≡ some (out ++ b'.' ∷ [], remaining - 1)
unfolding append_dot
append_dot_lem out remaining room = ground arith

-- For every address and every buffer of at least 16 bytes, `our_inet_ntop` succeeds and prints
-- what `addr_to_string` prints.
pub our_inet_ntop-addr_to_string :
    (q : Quad) (size : ℕ)
    → IsQuad q
    → 16 ≤ size
    → our_inet_ntop af_inet (some q) true size ≡ some (addr_to_string q)
unfolding our_inet_ntop addr_to_string octet_text
our_inet_ntop-addr_to_string q size v room =
    let enough : ltb size our_inet_addrstrlen ≡ false = ground arith in
    let n0 = length (temp_buffer q.b0) in
    let n1 = length (temp_buffer q.b1) in
    let n2 = length (temp_buffer q.b2) in
    let s0 = (octet-OctetText q.b0 v.b0).short in
    let s1 = (octet-OctetText q.b1 v.b1).short in
    let s2 = (octet-OctetText q.b2 v.b2).short in
    let r1 = size - n0 - 1 in
    let r2 = r1 - n1 - 1 in
    rw
      (
        enough,
        append_octet_lem [] size q.b0 v.b0 (omega arith),
        append_dot_lem _ (size - n0) (omega arith),
        append_octet_lem _ r1 q.b1 v.b1 (omega arith),
        append_dot_lem _ (r1 - n1) (omega arith),
        append_octet_lem _ r2 q.b2 v.b2 (omega arith),
        append_dot_lem _ (r2 - n2) (omega arith),
        append_octet_lem _ (r2 - n2 - 1) q.b3 v.b3 (omega arith),
      )
      (simp append_assoc)
