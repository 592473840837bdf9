-- ===== src/Replace/Laws.antt =====
-- The replacement in place against a replacement that builds a new text.
use mathlib.Core.List.{append_assoc}
use capemon.Base.{
  length-drop, ℕ, zero, suc, ◌+◌, ◌-◌, ◌%◌, ◌^◌, ◌≤◌, ◌<◌, ◌≡◌, refl, ap, ap₂, ◌∙◌, sym, Bool, true,
  false, some, List, [], ◌∷◌, ◌++◌, ◌==◌, ==_iff, leb, ltb, arith, length, length-append, drop,
  store-append, inl, inr, Bool-cases,
}
use capemon.Replace.{same_units, replace_at, replace_loop, replace_string_in_buf}

unfoldable pub is_prefix : (ℕ → ℕ → Bool) → List ℕ → List ℕ → Bool
is_prefix same [] text = true
is_prefix same (f ∷ find) [] = false
is_prefix same (f ∷ find) (c ∷ text) = elim (same c f) [
  | true ↦ is_prefix same find text
  | false ↦ false
]

same_units-is_prefix :
    (same : ℕ → ℕ → Bool) (find text more : List ℕ)
    → length find ≤ length text
    → same_units same find (text ++ more) ≡ some (is_prefix same find text)
unfolding same_units is_prefix
same_units-is_prefix same [] text more h = refl
same_units-is_prefix same (f ∷ find) [] more h = absurd (omega arith)
same_units-is_prefix same (f ∷ find) (c ∷ text) more h = elim (Bool-cases (same c f)) [
  | inl equal ↦
      rw (same_units, is_prefix, equal) (same_units-is_prefix same find text more (omega arith))
  | inr other ↦ rw (same_units, is_prefix, other) refl
]

is_prefix-short :
    (same : ℕ → ℕ → Bool) (find text : List ℕ)
    → length text < length find
    → is_prefix same find text ≡ false
unfolding is_prefix
is_prefix-short same [] text h = absurd (omega arith)
is_prefix-short same (f ∷ find) [] h = refl
is_prefix-short same (f ∷ find) (c ∷ text) h = elim (Bool-cases (same c f)) [
  | inl equal ↦ rw (is_prefix, equal) (is_prefix-short same find text (omega arith))
  | inr other ↦ rw (is_prefix, other) refl
]

drop-append : (done rest : List ℕ) → drop (length done) (done ++ rest) ≡ rest
drop-append [] rest = refl
drop-append (d ∷ done) rest = drop-append done rest

drop_within :
    (n : ℕ) (text more : List ℕ) → n ≤ length text → drop n (text ++ more) ≡ drop n text ++ more
drop_within zero text more h = refl
drop_within (suc n) [] more h = absurd (omega arith)
drop_within (suc n) (c ∷ text) more h = drop_within n text more (omega arith)

module _ (same : ℕ → ℕ → Bool) (find rep : List ℕ) where
  -- The occurrences from the left on, none inside another, with one unit of fuel for each unit.
  unfoldable pub substitute : ℕ → List ℕ → List ℕ
  substitute zero text = text
  substitute (suc fuel) [] = []
  substitute (suc fuel) (c ∷ text) = elim (is_prefix same find (c ∷ text)) [
    | true ↦ rep ++ substitute fuel (drop (length find) (c ∷ text))
    | false ↦ c ∷ substitute fuel text
  ]

  substitute_short :
      (fuel : ℕ) (text : List ℕ) → length text < length find → substitute fuel text ≡ text
  unfolding substitute
  substitute_short zero text h = refl
  substitute_short (suc fuel) [] h = refl
  substitute_short (suc fuel) (c ∷ text) h =
      rw (substitute, is_prefix-short same find (c ∷ text) h)
        (ap (◌∷◌ c) (substitute_short fuel text (omega arith)))

  -- One round of the loop, at the end of what is done.
  replace_at-miss :
      (done text behind : List ℕ) (c : ℕ)
      → length done + 1 < 2 ^ 32
      → length find ≤ length (c ∷ text)
      → is_prefix same find (c ∷ text) ≡ false
      → replace_at same find rep (done ++ ((c ∷ text) ++ behind)) (length done)
        ≡ some (length done + 1, done ++ ((c ∷ text) ++ behind))
  unfolding replace_at
  replace_at-miss done text behind c small room miss =
      let wrap : (length done + 1) % 2 ^ 32 ≡ length done + 1 = omega arith in
      rw
        (
          replace_at,
          drop-append done ((c ∷ text) ++ behind),
          same_units-is_prefix same find (c ∷ text) behind room,
          miss,
          wrap,
        )
        refl

  replace_at-hit :
      (done text behind : List ℕ)
      → length find ≡ length rep
      → length done + length rep < 2 ^ 32
      → length find ≤ length text
      → is_prefix same find text ≡ true
      → replace_at same find rep (done ++ (text ++ behind)) (length done)
        ≡ some (length done + length rep, done ++ (rep ++ (drop (length find) text ++ behind)))
  unfolding replace_at
  replace_at-hit done text behind even small room hit =
      let wrap : (length done + length rep) % 2 ^ 32 ≡ length done + length rep = omega arith in
      let kept : drop (length rep) (text ++ behind) ≡ drop (length find) text ++ behind =
        rw (sym even) (drop_within (length find) text behind room) in
      let stored =
        store-append done rep (text ++ behind) (omega (arith, length-append text behind))
        ∙ ap (λ (t : List ℕ). some (done ++ (rep ++ t))) kept in
      rw
        (
          replace_at,
          drop-append done (text ++ behind),
          same_units-is_prefix same find text behind room,
          hit,
          stored,
          wrap,
        )
        refl

  -- The loop from the end of what is done, with fuel for each unit that is left.
  replace_loop-substitute :
      (fuel len : ℕ) (done text behind : List ℕ)
      → length find ≡ length rep
      → 1 ≤ length find
      → len < 2 ^ 32
      → length find ≤ len
      → len ≡ length done + length text
      → length text + 2 ≤ fuel
      → replace_loop same find rep fuel len (done ++ (text ++ behind)) (length done)
        ≡ some (done ++ (substitute fuel text ++ behind))
  unfolding replace_loop substitute
  replace_loop-substitute zero len done text behind even some_find small room whole enough =
      absurd (omega arith)
  replace_loop-substitute (suc fuel) len done [] behind even some_find small room whole enough =
      let over : leb (length done) (len - length find) ≡ false = ground arith in
      rw (replace_loop, over) refl
  replace_loop-substitute (suc fuel) len done (c ∷ text) behind even some_find small room whole
        enough =
      elim (Bool-cases (leb (length done) (len - length find))) [
        | inr over ↦
            let rest : substitute (suc fuel) (c ∷ text) ≡ c ∷ text =
              substitute_short (suc fuel) (c ∷ text) (ground arith) in
            rw (replace_loop, over) (ap (λ (t : List ℕ). some (done ++ (t ++ behind))) (sym rest))
        | inl inside ↦ elim (Bool-cases (is_prefix same find (c ∷ text))) [
          | inl hit ↦
              let text' = drop (length find) (c ∷ text) in
              let step =
                replace_at-hit done (c ∷ text) behind even (ground arith) (ground arith) hit in
              let left = length-drop (length find) (c ∷ text) in
              let rest =
                replace_loop-substitute fuel len (done ++ rep) text' behind even some_find small
                  room (ground (arith, left, length-append done rep)) (ground (arith, left)) in
              rw (replace_loop, inside, step, substitute, hit)
                (ap₂ (replace_loop same find rep fuel len)
                    (sym (append_assoc done rep (text' ++ behind))) (sym (length-append done rep))
                  ∙ rest
                  ∙ ap some (
                      append_assoc done rep (substitute fuel text' ++ behind)
                      ∙ ap (λ (t : List ℕ). done ++ t)
                          (sym (append_assoc rep (substitute fuel text') behind))))
          | inr miss ↦
              let step = replace_at-miss done text behind c (ground arith) (ground arith) miss in
              let rest =
                replace_loop-substitute fuel len (done ++ c ∷ []) text behind even some_find small
                  room (ground (arith, length-append done (c ∷ []))) (ground arith) in
              rw (replace_loop, inside, step, substitute, miss)
                (ap₂ (replace_loop same find rep fuel len)
                    (sym (append_assoc done (c ∷ []) (text ++ behind)))
                    (sym (length-append done (c ∷ [])))
                  ∙ rest
                  ∙ ap some (append_assoc done (c ∷ []) (substitute fuel text ++ behind)))
        ]
      ]

  -- With texts of the same length, at least one, in a buffer with the length of a 32-bit number,
  -- `replace_string_in_buf` ends, replaces the occurrences from the left on, and leaves what lies
  -- behind the buffer as it was.
  pub replace_string_in_buf_lem :
      (text behind : List ℕ)
      → length find ≡ length rep
      → 1 ≤ length find
      → length text < 2 ^ 32
      → replace_string_in_buf same find rep (text ++ behind) (length text)
        ≡ some (substitute (length text + 2) text ++ behind)
  unfolding replace_string_in_buf
  replace_string_in_buf_lem text behind even some_find small =
      let alike : (length find == length rep) ≡ true = (==_iff _ _).1 even in
      elim (Bool-cases (ltb (length text) (length find))) [
        | inl short ↦
            let rest = substitute_short (length text + 2) text (ground arith) in
            rw (replace_string_in_buf, alike, short)
              (ap (λ (t : List ℕ). some (t ++ behind)) (sym rest))
        | inr room ↦
            rw (replace_string_in_buf, alike, room)
              (replace_loop-substitute (length text + 2) (length text) [] text behind even some_find
                small (ground arith) (omega arith) (omega arith))
      ]
