-- ===== src/Debugger/Registers/Laws.antt =====
-- Reading back what was written to a debug register.
use capemon.Base.{
  ℕ, zero, suc, ◌%◌, ◌≤◌, ◌<◌, ◌≡◌, ◌≢◌, ◌⊎◌, inl, inr, refl, true, false, some, none, ◌==◌,
  if◌then◌else◌, arith,
}
use capemon.Debugger.Registers.{
  bp_exec, Context, is_invalid, length_mask, put_register, write_debug_register, clear_register,
}

-- What the processor finds in the registers of a number below four.
pub record Watch : Type 0 where
  pub address : ℕ
  pub enabled : ℕ
  pub rwe : ℕ
  pub len : ℕ

unfoldable pub watch : Context → ℕ → Watch
watch c register =
    let d = c.dr7 in
    if register == 0
    then record { address = c.dr0; enabled = d.l0; rwe = d.rwe0; len = d.len0 }
    else if register == 1
    then record { address = c.dr1; enabled = d.l1; rwe = d.rwe1; len = d.len1 }
    else if register == 2
    then record { address = c.dr2; enabled = d.l2; rwe = d.rwe2; len = d.len2 }
    else record { address = c.dr3; enabled = d.l3; rwe = d.rwe3; len = d.len3 }

abbrev pub no_watch : Watch
no_watch = record { address = 0; enabled = 0; rwe = 0; len = 0 }

pub watch-put_register_self :
    (c : Context) (r a n t : ℕ)
    → r < 4
    → watch (put_register c r a n t) r
      ≡ record { address = a; enabled = 1; rwe = t % 4; len = n % 4 }
unfolding watch put_register
watch-put_register_self c r a n t h = ground arith

pub watch-put_register_ne :
    (c : Context) (r q a n t : ℕ)
    → r < 4
    → q < 4
    → r ≢ q
    → watch (put_register c r a n t) q ≡ watch c q
unfolding watch put_register
watch-put_register_ne c r q a n t h k differ = ground arith

pub watch-clear_register_self :
    (c : Context) (r : ℕ) → r < 4 → watch (clear_register c r) r ≡ no_watch
unfolding watch clear_register
watch-clear_register_self c r h = ground arith

pub watch-clear_register_ne :
    (c : Context) (r q : ℕ) → r < 4 → q < 4 → r ≢ q → watch (clear_register c r) q ≡ watch c q
unfolding watch clear_register
watch-clear_register_ne c r q h k differ = ground arith

clear_register-put_register :
    (c : Context) (r a n t : ℕ)
    → r < 4
    → watch c r ≡ no_watch
    → clear_register (put_register c r a n t) r ≡ c
unfolding watch put_register clear_register
clear_register-put_register c r a n t h free = ground arith

-- The length that the processor is told: none for an execution breakpoint, and otherwise the size
-- less one, or 3 for the sizes 0 and 3 whose mask has all bits set.
abbrev pub length_field : ℕ → ℕ → ℕ
length_field size type =
    if type == 0 then 0 else if size == 1 then 0 else if size == 2 then 1 else 3

small_cases : (n : ℕ) → n ≤ 4 → (n ≡ 0) ⊎ (n ≡ 1) ⊎ (n ≡ 2) ⊎ (n ≡ 3) ⊎ (n ≡ 4)
small_cases n h = omega arith

-- The mask of a size of at most four.
pub raw_mask : ℕ → ℕ
raw_mask size =
    if size == 1 then 0 else if size == 2 then 1 else if size == 4 then 3 else 0xFFFFFFFF

pub length_mask-raw_mask : (size : ℕ) → size ≤ 4 → length_mask size ≡ some (raw_mask size)
unfolding raw_mask
length_mask-raw_mask size h = elim (small_cases size h) [
  | inl e ↦ rw e refl
  | inr (inl e) ↦ rw e refl
  | inr (inr (inl e)) ↦ rw e refl
  | inr (inr (inr (inl e))) ↦ rw e refl
  | inr (inr (inr (inr e))) ↦ rw e refl
]

length_mask-outside : (size : ℕ) → 4 < size → length_mask size ≡ none
length_mask-outside zero h = absurd (omega arith)
length_mask-outside (suc zero) h = absurd (omega arith)
length_mask-outside (suc (suc zero)) h = absurd (omega arith)
length_mask-outside (suc (suc (suc zero))) h = absurd (omega arith)
length_mask-outside (suc (suc (suc (suc zero)))) h = absurd (omega arith)
length_mask-outside (suc (suc (suc (suc (suc n))))) h = refl

-- What `write_debug_register` hands over as the length.
mask_of : ℕ → ℕ → ℕ
mask_of size type = if type == bp_exec then 0 else raw_mask size

mask_of-length_field : (size t : ℕ) → size ≤ 4 → mask_of size t % 4 ≡ length_field size t
unfolding mask_of raw_mask
mask_of-length_field size t h = ground arith

is_valid : (r size t : ℕ) → r < 4 → size ≤ 8 → t ≤ 3 → t ≢ 2 → is_invalid r size t ≡ false
unfolding is_invalid
is_valid r size t hr hs ht h2 = ground arith

write_valid :
    (c : Context) (r size a t : ℕ)
    → r < 4
    → size ≤ 4
    → t ≤ 3
    → t ≢ 2
    → write_debug_register c r size a t ≡ some (put_register c r a (mask_of size t) t, true)
unfolding write_debug_register mask_of
write_valid c r size a t hr hs ht h2 =
    rw
      (write_debug_register, is_valid r size t hr (omega arith) ht h2, length_mask-raw_mask size hs)
      refl

-- For a valid type and register and a size of at most four, the write succeeds: the register watches
-- the address with the type and, for an execution breakpoint, the length field 0; otherwise the field
-- is the size less one, save that the sizes 0 and 3 get 3, which is four bytes. The other registers
-- are as before, and clearing the register gives the context back if nothing was in it.
pub write_debug_register_lem :
    (c : Context) (r size a t : ℕ)
    → r < 4
    → size ≤ 4
    → t ≤ 3
    → t ≢ 2
    → (c' : Context) × (write_debug_register c r size a t ≡ some (c', true))
      × (watch c' r ≡ record { address = a; enabled = 1; rwe = t; len = length_field size t })
      × ((q : ℕ) → q < 4 → r ≢ q → watch c' q ≡ watch c q)
      × (watch c r ≡ no_watch → clear_register c' r ≡ c)
write_debug_register_lem c r size a t hr hs ht h2 = (
  put_register c r a (mask_of size t) t,
  write_valid c r size a t hr hs ht h2,
  ground
      (arith, watch-put_register_self c r a (mask_of size t) t hr, mask_of-length_field size t hs),
  λ q hq differ. watch-put_register_ne c r q a (mask_of size t) t hr hq differ,
  λ free. clear_register-put_register c r a (mask_of size t) t hr free,
)

-- A size of five to eight bytes passes the checks, and the mask is read outside its array.
pub write_debug_register_oversize :
    (c : Context) (r size a t : ℕ)
    → r < 4
    → 4 < size
    → size ≤ 8
    → t ≤ 3
    → t ≢ 2
    → write_debug_register c r size a t ≡ none
unfolding write_debug_register
write_debug_register_oversize c r size a t hr low high ht h2 =
    rw (write_debug_register, is_valid r size t hr high ht h2, length_mask-outside size low) refl
