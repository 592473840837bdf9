-- ===== src/KeyText/Laws.antt =====
-- The room that an encoded name takes.
use mathlib.Core.List.{append_assoc}
use capemon.Base.{
  ℕ, zero, suc, ◌+◌, ◌*◌, ◌/◌, ◌%◌, ◌^◌, ◌≤◌, ◌<◌, ◌≡◌, refl, some, List, [], ◌∷◌, ◌++◌, arith,
  length, length-append, drop, length-drop, store-append,
}
use capemon.KeyText.{
  encoded_unit, count_nulls, get_encoded_unicode_string_len, copy_loop, copy_encoded_unicode_string,
}

-- The name with its NUL characters written out.
unfoldable pub encode_name : List ℕ → List ℕ
encode_name [] = []
encode_name (c ∷ cs) = encoded_unit c ++ encode_name cs

length-encode_name : (cs : List ℕ) → length (encode_name cs) ≡ length cs + count_nulls cs * 3
unfolding encode_name count_nulls encoded_unit
length-encode_name [] = refl
length-encode_name (c ∷ cs) = ground (arith, length-encode_name cs)

count_nulls-le : (cs : List ℕ) → count_nulls cs ≤ length cs
unfolding count_nulls
count_nulls-le [] = omega arith
count_nulls-le (c ∷ cs) = ground (arith, count_nulls-le cs)

drop-append : (n : ℕ) (xs ys : List ℕ) → n ≤ length xs → drop n (xs ++ ys) ≡ drop n xs ++ ys
drop-append zero xs ys h = refl
drop-append (suc n) [] ys h = absurd (omega arith)
drop-append (suc n) (x ∷ xs) ys h = drop-append n xs ys (omega arith)

-- The loop fills just the room `room` of the encoded text.
copy_loop-append :
    (cs done room rest : List ℕ)
    → length room ≡ length (encode_name cs)
    → copy_loop (done ++ (room ++ rest)) (length done) cs ≡ some (done ++ (encode_name cs ++ rest))
unfolding copy_loop encode_name
copy_loop-append [] done [] rest h = refl
copy_loop-append [] done (x ∷ room) rest h = absurd (omega arith)
copy_loop-append (c ∷ cs) done room rest h =
    let fits : length (encoded_unit c) ≤ length room =
      omega (arith, length-append (encoded_unit c) (encode_name cs)) in
    ground (
      arith,
      length-append (encoded_unit c) (encode_name cs),
      length-append room rest,
      store-append done (encoded_unit c) (room ++ rest),
      drop-append (length (encoded_unit c)) room rest fits,
      append_assoc done (encoded_unit c) (drop (length (encoded_unit c)) room ++ rest),
      append_assoc done (encoded_unit c) (encode_name cs ++ rest),
      append_assoc (encoded_unit c) (encode_name cs) rest,
      length-append done (encoded_unit c),
      length-drop (length (encoded_unit c)) room,
      copy_loop-append cs (done ++ encoded_unit c) (drop (length (encoded_unit c)) room) rest,
    )

-- A name of `len` bytes, copied into a buffer of the size that `get_encoded_unicode_string_len` asks
-- for, or a larger one: the encoded text is at the start, nothing is written outside the buffer, and
-- the terminator stands where the size says; but a NUL counts as four more characters there and takes
-- three more, so for every NUL one character that was in the buffer before stays between the text
-- and the terminator.
pub copy_encoded_unicode_string_lem :
    (cs room gap rest : List ℕ) (z len : ℕ)
    → len / 2 ≡ length cs
    → len < 2 ^ 16
    → length room ≡ length (encode_name cs)
    → length gap ≡ count_nulls cs
    → copy_encoded_unicode_string
        (room ++ (gap ++ (z ∷ rest)))
        cs
        (get_encoded_unicode_string_len cs len)
      ≡ some (encode_name cs ++ (gap ++ (0 ∷ rest)))
unfolding copy_encoded_unicode_string get_encoded_unicode_string_len
copy_encoded_unicode_string_lem cs room gap rest z len whole short h g =
    let place : (len + count_nulls cs * 4 * 2) % 2 ^ 32 / 2 ≡ length (encode_name cs ++ gap) =
      omega (arith, length-append (encode_name cs) gap, length-encode_name cs, count_nulls-le cs) in
    rw (copy_encoded_unicode_string, copy_loop-append cs [] room (gap ++ (z ∷ rest)) h, place)
      (ground (
        arith,
        append_assoc (encode_name cs) gap (z ∷ rest),
        append_assoc (encode_name cs) gap (0 ∷ rest),
        store-append (encode_name cs ++ gap) (0 ∷ []) (z ∷ rest),
      ))
