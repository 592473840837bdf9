-- ===== src/Log/Escapes.antt =====
-- The loop over a well-formed REG_MULTI_SZ value in its block.
use mathlib.Core.List.{append_assoc}
use mathlib.Core.Path.{subst}
use capemon.Base.{
  ℕ, zero, suc, ◌+◌, ◌*◌, ◌≤◌, ◌<◌, ◌≡◌, ◌∙◌, refl, sym, ap, inl, inr, false, Option, none, some,
  List, [], ◌∷◌, ◌++◌, ◌==◌, leb, arith, length, All, drop, length-append, length-drop, store,
  store-append, store-overflow, Bool-cases,
}
use capemon.Log.{◌>>=◌}
use capemon.Log.Registry.{escape_loop}

-- The value: each string with its terminator, and one more.
unfoldable pub stored : List (List ℕ) → List ℕ
stored [] = 0 ∷ []
stored (s ∷ strings) = s ++ 0 ∷ stored strings

abbrev pub mark : List ℕ
mark = b'\\' ∷ b'x' ∷ b'0' ∷ b'0' ∷ []

unfoldable pub marks : ℕ → List ℕ
marks zero = []
marks (suc n) = mark ++ marks n

abbrev pub IsLetter : ℕ → Type 0
IsLetter c = 0 < c

-- A string has a character, and no NUL.
pub record IsString (s : List ℕ) : Type 0 where
  pub some_letter : 0 < length s
  pub letters : All IsLetter s

-- One round of the loop, with more characters behind.
escape-letter :
    (p : List ℕ) (x c : ℕ) (rest : List ℕ)
    → 0 < c
    → 0 < length rest
    → escape_loop p x (c ∷ rest) (c ∷ rest)
      ≡ (store p x (c ∷ []) >>= λ p'. escape_loop p' x rest rest)
unfolding escape_loop
escape-letter p x c [] letter more = absurd (omega arith)
escape-letter p x c (d ∷ rest) letter more =
    let e : (c == 0) ≡ false = ground arith in rw (escape_loop, e) refl

escape-next :
    (p : List ℕ) (x d : ℕ) (rest : List ℕ)
    → 0 < d
    → escape_loop p x (0 ∷ (d ∷ rest)) (0 ∷ (d ∷ rest))
      ≡ (store p x mark >>= λ p'. escape_loop p' (x + 4) (d ∷ rest) (d ∷ rest))
unfolding escape_loop
escape-next p x d rest letter = let e : (d == 0) ≡ false = ground arith in rw (escape_loop, e) refl

escape-end :
    (p : List ℕ) (x : ℕ)
    → escape_loop p x (0 ∷ (0 ∷ [])) (0 ∷ (0 ∷ []))
      ≡ (store p x mark >>= λ p'. store p' (x + 4) (0 ∷ []))
unfolding escape_loop
escape-end p x = refl

-- `n` marks and the terminator behind `done`, if they fit into `room` characters.
pub data Outcome (done : List ℕ) (n room : ℕ) : Option (List ℕ) → Type 0 where
  fits :
      (rest : List ℕ)
      → length rest + (4 * n + 1) ≡ room
      → Outcome done n room (some (done ++ (marks n ++ 0 ∷ rest)))
  overflow : room < 4 * n + 1 → Outcome done n room none

-- The state behind a NUL.
marked :
    (done r : List ℕ)
    → 4 ≤ length r
    → store (done ++ r) (length done) mark ≡ some ((done ++ mark) ++ drop 4 r)
marked done r h = store-append done mark r h ∙ ap some (sym (append_assoc done mark (drop 4 r)))

-- The loop behind the mark, with the mark counted.
after_mark :
    (done r : List ℕ) (n : ℕ) (k : List ℕ → Option (List ℕ))
    → ((r' : List ℕ)
        → length r' + 4 ≡ length r
        → Outcome (done ++ mark) n (length r') (k ((done ++ mark) ++ r')))
    → Outcome done (suc n) (length r) (store (done ++ r) (length done) mark >>= k)
unfolding marks
after_mark done r n k next = elim (Bool-cases (leb 4 (length r))) [
  | inl e ↦
      rw (marked done r (ground arith))
        (go (ground arith) (next (drop 4 r) (ground (arith, length-drop 4 r))))
  | inr e ↦ rw (store-overflow done mark r (ground arith)) (overflow (ground arith))
]
  where
    go :
        {o : Option (List ℕ)}
        → 4 ≤ length r
        → Outcome (done ++ mark) n (length (drop 4 r)) o
        → Outcome done (suc n) (length r) o
    go h (fits rest e) =
        let same : done ++ (marks (suc n) ++ 0 ∷ rest) ≡ (done ++ mark) ++ (marks n ++ 0 ∷ rest) =
          ap (λ l. done ++ l) (append_assoc mark (marks n) (0 ∷ rest))
          ∙ sym (append_assoc done mark (marks n ++ 0 ∷ rest)) in
        subst (λ l. Outcome done (suc n) (length r) (some l)) same
          (fits rest (omega (arith, length-drop 4 r)))
    go h (overflow e) = overflow (omega (arith, length-drop 4 r))

-- The loop at `place` of a block that holds `done` and `r`, on the rest of the value.
abbrev pub escapes : List ℕ → List ℕ → List ℕ → Option (List ℕ)
escapes done r units = escape_loop (done ++ r) (length done) units units

terminator :
    (done r : List ℕ) → Outcome done 0 (length r) (store (done ++ r) (length done) (0 ∷ []))
unfolding marks
terminator done [] = rw (store-overflow done (0 ∷ []) [] (omega arith)) (overflow (omega arith))
terminator done (y ∷ r) =
    rw (store-append done (0 ∷ []) (y ∷ r) (omega arith)) (fits r (omega arith))

length-mark : (done : List ℕ) → length (done ++ mark) ≡ length done + 4
length-mark done = length-append done mark

escape_nul :
    (strings : List (List ℕ)) (done r : List ℕ)
    → All IsString strings
    → ((done' r' : List ℕ)
        → 0 < length strings
        → Outcome done' (length strings) (length r') (escapes done' r' (stored strings)))
    → Outcome done (suc (length strings)) (length r) (escapes done r (0 ∷ stored strings))
unfolding stored
escape_nul [] done r all next = rw (escape-end (done ++ r) (length done)) (
    after_mark done r 0 (λ p'. store p' (length done + 4) (0 ∷ []))
      (λ r' h.
        subst
          (λ (n : ℕ).
            Outcome (done ++ mark) 0 (length r') (store ((done ++ mark) ++ r') n (0 ∷ [])))
          (length-mark done) (terminator (done ++ mark) r')))
escape_nul ([] ∷ strings) done r all next = absurd (omega (arith, all.0.some_letter))
escape_nul ((c ∷ s) ∷ strings) done r all next =
    rw (escape-next (done ++ r) (length done) c (s ++ 0 ∷ stored strings) all.0.letters.0) (
      after_mark done r (suc (length strings))
        (λ p'.
          escape_loop p' (length done + 4) (stored ((c ∷ s) ∷ strings))
            (stored ((c ∷ s) ∷ strings)))
        (λ r' h.
          subst
            (λ (n : ℕ). Outcome (done ++ mark) (suc (length strings)) (length r') (
              escape_loop ((done ++ mark) ++ r') n (stored ((c ∷ s) ∷ strings))
                (stored ((c ∷ s) ∷ strings))))
            (length-mark done) (next (done ++ mark) r' (omega arith))))

escape_string :
    (s : List ℕ) (strings : List (List ℕ)) (done r : List ℕ)
    → All IsLetter s
    → All IsString strings
    → ((done' r' : List ℕ)
        → 0 < length strings
        → Outcome done' (length strings) (length r') (escapes done' r' (stored strings)))
    → Outcome done (suc (length strings)) (length r) (escapes done r (s ++ 0 ∷ stored strings))
escape_string [] strings done r letters all next = escape_nul strings done r all next
escape_string (c ∷ s) strings done [] letters all next =
    rw
      (
        escape-letter (done ++ []) (length done) c (s ++ 0 ∷ stored strings) letters.0
            (omega (arith, length-append s (0 ∷ stored strings))),
        store-overflow done (c ∷ []) [] (omega arith),
      )
      (overflow (omega arith))
escape_string (c ∷ s) strings done (y ∷ r) letters all next =
    rw
      (
        escape-letter (done ++ y ∷ r) (length done) c (s ++ 0 ∷ stored strings) letters.0
            (omega (arith, length-append s (0 ∷ stored strings))),
        store-append done (c ∷ []) (y ∷ r) (omega arith),
      )
      (escape_string s strings done (c ∷ r) letters.1 all next)

pub escape_strings :
    (strings : List (List ℕ)) (done r : List ℕ)
    → All IsString strings
    → 0 < length strings
    → Outcome done (length strings) (length r) (escapes done r (stored strings))
unfolding stored
escape_strings [] done r all some_string = absurd (omega arith)
escape_strings (s ∷ strings) done r all some_string =
    escape_string s strings done r all.0.letters all.1
      (λ done' r' more. escape_strings strings done' r' all.1 more)
