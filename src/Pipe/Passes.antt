-- ===== src/Pipe/Passes.antt =====
-- The two passes of the formatter agree, and the second stays inside its buffer.
use mathlib.Core.Path.{subst}
use mathlib.Core.List.{append_assoc, append-nil}
use capemon.Base.{
  length-drop, ℕ, zero, suc, ◌+◌, ◌≤◌, ◌≡◌, refl, ap, ap₂, ◌∙◌, sym, Bool, true, false, Option,
  none, some, List, [], ◌∷◌, ◌++◌, arith, length, length-append, drop, store-append, inl, inr, ◌⊎◌,
  if◌then◌else◌, Option-cases,
}
use capemon.Utf8.{utf8_do_encode}
use capemon.Utf8.Decode.{encode_all}
use capemon.Pipe.{
  Arg, Services, Piece, emit, failed, undefined, piece, next_pending, Out, pipe_utf8x, pipe_units,
  Progress, running, perform, pipe_step, pipe_loop, at_terminator,
}

-- The text of a format without a buffer: its units, and the arguments left over; `none` for a
-- format that ends in a `%`, or that meets the return of -1 or an undefined directive.
module _ (e : Services) where
  unfoldable pub behind : List ℕ → Option (List ℕ × List Arg) → Option (List ℕ × List Arg)
  behind units none = none
  behind units (some (text, args)) = some (units ++ text, args)

  unfoldable pub format_units : Bool → List ℕ → List Arg → Option (List ℕ × List Arg)
  format_units pending [] args = if pending then none else some ([], args)
  format_units pending (c ∷ fmt) args = elim (piece e pending c args) [
    | failed ↦ none
    | undefined ↦ none
    | emit units args' ↦ behind units (format_units (next_pending pending c) fmt args')
  ]

-- A position in the output: NULL, or what is written and what is left of the buffer.
abbrev pub Place : Type 0
Place = Option (List ℕ × List ℕ)

abbrev pub at : Place → Out
at none = none
at (some (done, rest)) = some (done ++ rest, length done)

abbrev pub wrote : Place → List ℕ → Place
wrote none bytes = none
wrote (some (done, rest)) bytes = some (done ++ bytes, drop (length bytes) rest)

abbrev pub Fits : Place → List ℕ → Type 0
Fits none bytes = Unit
Fits (some (done, rest)) bytes = length bytes ≤ length rest

drop_nothing : (n : ℕ) → drop {A = ℕ} n [] ≡ []
drop_nothing zero = refl
drop_nothing (suc n) = refl

drop-drop : (m n : ℕ) (xs : List ℕ) → drop n (drop m xs) ≡ drop (m + n) xs
drop-drop zero n xs = ap (λ (t : ℕ). drop t xs) (omega arith)
drop-drop (suc m) n [] = drop_nothing n ∙ sym (drop_nothing (suc m + n))
drop-drop (suc m) n (x ∷ xs) =
    let next : suc (m + n) ≡ suc m + n = omega arith in
    drop-drop m n xs ∙ ap (λ (t : ℕ). drop t (x ∷ xs)) next

wrote-append : (o : Place) (a b : List ℕ) → wrote (wrote o a) b ≡ wrote o (a ++ b)
wrote-append none a b = refl
wrote-append (some (done, rest)) a b =
    ground (arith, append_assoc done a b, drop-drop (length a) (length b) rest, length-append a b)

first_part : (o : Place) (a b : List ℕ) → Fits o (a ++ b) → Fits o a
first_part none a b h = tt
first_part (some (done, rest)) a b h = omega (arith, length-append a b)

second_part : (o : Place) (a b : List ℕ) → Fits o (a ++ b) → Fits (wrote o a) b
second_part none a b h = tt
second_part (some (done, rest)) a b h =
    omega (arith, length-append a b, length-drop (length a) rest)

pipe_utf8x-at :
    (o : Place) (x : ℕ)
    → Fits o (utf8_do_encode x)
    → pipe_utf8x (at o) x ≡ some (at (wrote o (utf8_do_encode x)), length (utf8_do_encode x))
unfolding pipe_utf8x
pipe_utf8x-at none x h = refl
pipe_utf8x-at (some (done, rest)) x h = ground (
  arith,
  store-append done (utf8_do_encode x) rest,
  append_assoc done (utf8_do_encode x) (drop (length (utf8_do_encode x)) rest),
  length-append done (utf8_do_encode x),
)

-- Emitting units where they fit writes their encoding and adds its length.
pipe_units-at :
    (units : List ℕ) (o : Place) (ret : ℕ)
    → Fits o (encode_all units)
    → pipe_units (at o) ret units
      ≡ some (at (wrote o (encode_all units)), ret + length (encode_all units))
unfolding pipe_units encode_all
pipe_units-at [] none ret h = ap (λ (n : ℕ). some (none, n)) (omega arith)
pipe_units-at [] (some (done, rest)) ret h = ground (arith, append-nil done)
pipe_units-at (x ∷ units) o ret h =
    let bytes = utf8_do_encode x in
    rw (pipe_units, pipe_utf8x-at o x (first_part o bytes (encode_all units) h))
      (pipe_units-at units (wrote o bytes) (ret + length bytes)
          (second_part o bytes (encode_all units) h)
        ∙ ap₂ (λ (p : Place) (n : ℕ). some (at p, n)) (wrote-append o bytes (encode_all units))
            (omega (arith, length-append bytes (encode_all units))))

Piece-cases :
    (p : Piece)
    → (p ≡ failed)
      ⊎ (p ≡ undefined)
      ⊎ ((units : List ℕ) × (args : List Arg) × (p ≡ emit units args))
Piece-cases failed = inl refl
Piece-cases undefined = inr (inl refl)
Piece-cases (emit units args) = inr (inr (units, args, refl))

encode_all-append : (a b : List ℕ) → encode_all (a ++ b) ≡ encode_all a ++ encode_all b
unfolding encode_all
encode_all-append [] b = refl
encode_all-append (x ∷ a) b =
    ap (λ (t : List ℕ). utf8_do_encode x ++ t) (encode_all-append a b)
    ∙ sym (append_assoc (utf8_do_encode x) (encode_all a) (encode_all b))

wrote-nil : (o : Place) → wrote o [] ≡ o
wrote-nil none = refl
wrote-nil (some (done, rest)) = ap (λ (t : List ℕ). some (t, rest)) (append-nil done)

module _ (e : Services) where
  format_units-cons :
      (c : ℕ) (fmt : List ℕ) (pending : Bool) (args rest : List Arg) (text : List ℕ)
      → format_units e pending (c ∷ fmt) args ≡ some (text, rest)
      → (units : List ℕ) × (args' : List Arg) × (text' : List ℕ) × (piece e pending c args
          ≡ emit units args')
        × (format_units e (next_pending pending c) fmt args' ≡ some (text', rest))
        × (text ≡ units ++ text')
  unfolding format_units behind
  format_units-cons c fmt pending args rest text h = elim (Piece-cases (piece e pending c args)) [
    | inl bad ↦ absurd (ground arith)
    | inr (inl bad) ↦ absurd (ground arith)
    | inr (inr (units, args', good)) ↦
        elim (Option-cases (format_units e (next_pending pending c) fmt args')) [
          | inl nothing ↦ absurd (ground arith)
          | inr ((text', rest'), found) ↦ (units, args', text', good, ground arith, ground arith)
        ]
  ]

  -- A step whose piece fits.
  pipe_step-emit :
      (c : ℕ) (pending : Bool) (o : Place) (ret : ℕ) (args args' : List Arg) (units : List ℕ)
      → piece e pending c args ≡ emit units args'
      → Fits o (encode_all units)
      → pipe_step e (running pending (at o) ret args) c
        ≡ running
            (next_pending pending c)
            (at (wrote o (encode_all units)))
            (ret + length (encode_all units))
            args'
  unfolding pipe_step perform
  pipe_step-emit c pending o ret args args' units good fits =
      rw (pipe_step, good, perform, pipe_units-at units o ret fits) refl

  -- The loop over the format, from anywhere in the output where the text fits.
  pub pipe_loop-format_units :
      (fmt : List ℕ) (pending : Bool) (o : Place) (ret : ℕ) (args rest : List Arg) (text : List ℕ)
      → format_units e pending fmt args ≡ some (text, rest)
      → Fits o (encode_all text)
      → at_terminator (pipe_loop e (running pending (at o) ret args) fmt)
        ≡ running false (at (wrote o (encode_all text))) (ret + length (encode_all text)) rest
  unfolding format_units pipe_loop at_terminator encode_all
  pipe_loop-format_units [] true o ret args rest text h fits = absurd (ground arith)
  pipe_loop-format_units [] false o ret args rest text h fits =
      let empty : text ≡ [] = ground arith in
      let same : rest ≡ args = ground arith in
      rw (empty, same)
        (ap₂ (λ (p : Place) (n : ℕ). running false (at p) n args) (sym (wrote-nil o)) (omega arith))
  pipe_loop-format_units (c ∷ fmt) pending o ret args rest text h fits =
      let (units, args', text', good, found, split) =
        format_units-cons c fmt pending args rest text h in
      let encoded : encode_all text ≡ encode_all units ++ encode_all text' =
        ap encode_all split ∙ encode_all-append units text' in
      let room = subst (Fits o) encoded fits in
      ap (λ (t : Progress). at_terminator (pipe_loop e t fmt))
        (pipe_step-emit c pending o ret args args' units good
          (first_part o (encode_all units) (encode_all text') room))
      ∙ pipe_loop-format_units fmt (next_pending pending c) (wrote o (encode_all units))
          (ret + length (encode_all units)) args' rest text' found
          (second_part o (encode_all units) (encode_all text') room)
      ∙ ap₂ (λ (p : Place) (n : ℕ). running false (at p) n rest)
          (wrote-append o (encode_all units) (encode_all text') ∙ ap (wrote o) (sym encoded))
          (omega (arith, ap length encoded, length-append (encode_all units) (encode_all text')))
