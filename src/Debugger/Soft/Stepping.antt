-- ===== src/Debugger/Soft/Stepping.antt =====
-- A breakpoint that is hit: the byte goes back for one instruction, and then the breakpoint does.
use capemon.Base.{
  ℕ, ◌+◌, ◌-◌, ◌%◌, ◌^◌, ◌≤◌, ◌≡◌, ◌≢◌, refl, ap, ◌∙◌, Bool, true, false, some, [], ◌∷◌, ◌==◌,
  ==_iff, leb, arith, Memory, write_byte, Bool-cases, inl, inr, All,
}
use capemon.Lookup.{Entry, Lookup, lookup_get}
use capemon.Lookup.Laws.{IsUnique, lookup_get-stack_of}
use capemon.Debugger.Soft.{SoftBp, Pages, Code, int3, software_breakpoint_handler, restore_walk}
use capemon.Debugger.Soft.Original.{IsCode}
use capemon.Debugger.Soft.Clearing.{IsUsable}

-- With unique ids, what holds of every block that is found holds of every entry.
All-found :
    (bps : Lookup SoftBp) (P : ℕ → SoftBp → Type 0)
    → IsUnique bps
    → ((x n : ℕ) (b : SoftBp) → lookup_get bps x ≡ some (b, n) → P x b)
    → All (λ (e : Entry SoftBp). P e.id e.block) bps
unfolding lookup_get
All-found [] P u h = tt
All-found (e ∷ es) P u h = (
  h e.id e.size e.block (ground arith),
  All-found es P (λ k. ground (arith, u k)) (λ x n b found. h x n b (later x n b found)),
)
  where
    later :
        (x n : ℕ) (b : SoftBp) → lookup_get es x ≡ some (b, n) → lookup_get (e ∷ es) x ≡ some (b, n)
    later x n b found = ground (arith, u x, lookup_get-stack_of es x)

-- The walk over entries of which only that of `a` can have its byte in the code.
restore_walk_finds :
    (p : Pages) (memory : Memory) (bps : Lookup SoftBp) (e a n : ℕ) (b : SoftBp)
    → p.virtual_protect a ≡ true
    → (e + 2 ^ 64 - a) % 2 ^ 64 ≤ 16
    → b.instruction_byte ≡ memory a
    → lookup_get bps a ≡ some (b, n)
    → All (λ (k : Entry SoftBp). k.id ≢ a → k.block.instruction_byte ≢ memory k.id) bps
    → restore_walk p memory e bps ≡ (write_byte memory a int3, true)
unfolding restore_walk lookup_get
restore_walk_finds p memory [] e a n b writable near byte h others = absurd (ground arith)
restore_walk_finds p memory (k ∷ ks) e a n b writable near byte h others =
    elim (Bool-cases (k.id == a)) [
      | inl here ↦
          let same : k.id ≡ a = (==_iff k.id a).0 here in
          let kept : (k.block.instruction_byte == memory k.id) ≡ true =
            (==_iff _ _).1 (ground (arith, ap memory same)) in
          let close : leb ((e + 2 ^ 64 - k.id) % 2 ^ 64) 0x10 ≡ true = ground arith in
          let can : p.virtual_protect k.id ≡ true = ap p.virtual_protect same ∙ writable in
          rw (restore_walk, close, kept, can) (ap (λ x. (write_byte memory x int3, true)) same)
      | inr there ↦
          let other : (k.block.instruction_byte == memory k.id) ≡ false =
            ground (arith, others.0 (λ e2. ground arith)) in
          elim (Bool-cases (leb ((e + 2 ^ 64 - k.id) % 2 ^ 64) 0x10)) [
            | inl close ↦
                rw (restore_walk, close, other)
                  (restore_walk_finds p memory ks e a n b writable near byte (ground arith)
                    others.1)
            | inr far ↦
                rw (restore_walk, far)
                  (restore_walk_finds p memory ks e a n b writable near byte (ground arith)
                    others.1)
          ]
    ]

-- Where every page can be made writable and the code and the list agree: a breakpoint that is hit is
-- handled, with the byte of the program back in the code, and when the single step after it reports
-- an address at most 16 bytes behind, the code is what it was before the hit, whatever other
-- breakpoints stand nearby.
pub restore_software_breakpoint_lem :
    (p : Pages) (s : Code) (a n e : ℕ) (b : SoftBp)
    → IsUsable p
    → IsCode p s
    → lookup_get s.bps a ≡ some (b, n)
    → (e + 2 ^ 64 - a) % 2 ^ 64 ≤ 16
    → (software_breakpoint_handler p s a
        ≡ (record s { memory = write_byte s.memory a b.instruction_byte }, true))
      × ((restore_walk p (write_byte s.memory a b.instruction_byte) e s.bps).1 ≡ true)
      × ((x : ℕ)
          → (restore_walk p (write_byte s.memory a b.instruction_byte) e s.bps).0 x ≡ s.memory x)
unfolding software_breakpoint_handler write_byte
restore_software_breakpoint_lem p s a n e b use_ok ok known near =
    let planted = ok.entries a n b known in
    let here : (s.memory a == int3) ≡ true = (==_iff _ _).1 planted.planted in
    let nz : (a == 0) ≡ false = ground (arith, planted.not_null) in
    let others =
      All-found s.bps
        (λ x b2. x ≢ a → b2.instruction_byte ≢ write_byte s.memory a b.instruction_byte x) ok.unique
        (λ x m b2 found ne.
          ground (arith, (ok.entries x m b2 found).planted, ok.replaced x m b2 found)) in
    let walk =
      restore_walk_finds p (write_byte s.memory a b.instruction_byte) s.bps e a n b
        (use_ok.writable a) near (ground arith) known others in
    (
      rw (software_breakpoint_handler, nz, here, known, use_ok.writable a) refl,
      ap (λ (r : Memory × Bool). r.1) walk,
      λ x. ap (λ (r : Memory × Bool). r.0 x) walk ∙ ground (arith, planted.planted),
    )
