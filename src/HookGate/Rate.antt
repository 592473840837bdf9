-- ===== src/HookGate/Rate.antt =====
-- The caps on how often a hook runs.
use capemon.Base.{
  ℕ, suc, ◌+◌, ◌-◌, ◌/◌, ◌^◌, ◌≤◌, ◌<◌, ◌≡◌, ◌≢◌, ◌⊎◌, refl, Bool, true, false, List, [], ◌∷◌,
  if◌then◌else◌, arith, All, Bool-cases, inl, inr,
}
use capemon.HookGate.{
  Hook, GateConfig, hook_rate_limit, hook_time_sample, is_uncapped, u32, rate_gate,
}

-- The calls of a hook at the given times: the hook afterwards, and how many of them went on.
unfoldable pub run_calls : GateConfig → List ℕ → Hook → Hook × ℕ
run_calls c [] h = (h, 0)
run_calls c (now ∷ times) h =
    let (h', on) = rate_gate c now h in
    let (h2, n) = run_calls c times h' in (h2, if on then suc n else n)

-- Which of the calls went on.
unfoldable pub outcomes : GateConfig → List ℕ → Hook → List Bool
outcomes c [] h = []
outcomes c (now ∷ times) h = let (h', on) = rate_gate c now h in on ∷ outcomes c times h'

module _ (c : GateConfig) (now : ℕ) (h : Hook) where
  new_func_stays : (rate_gate c now h).0.new_func ≡ h.new_func
  unfolding rate_gate
  new_func_stays = ground arith

  pub disabled_stays :
      c.api_rate_cap ≢ 0
      → is_uncapped h.new_func ≡ false
      → h.hook_disabled ≡ true
      → rate_gate c now h ≡ (h, false)
  unfolding rate_gate
  disabled_stays cap kind off = ground arith

  counter_step :
      c.api_rate_cap ≢ 0
      → is_uncapped h.new_func ≡ false
      → ((rate_gate c now h).0.hook_disabled ≡ true)
        ⊎ ((rate_gate c now h).0.counter ≡ u32 (h.counter + 1))
  unfolding rate_gate
  counter_step cap kind = ground arith

  refused_disables : (rate_gate c now h).1 ≡ false → (rate_gate c now h).0.hook_disabled ≡ true
  unfolding rate_gate
  refused_disables refused = ground arith

  window_step :
      c.api_rate_cap ≢ 0
      → is_uncapped h.new_func ≡ false
      → u32 (now + 2 ^ 32 - h.hook_timer) < hook_time_sample
      → (rate_gate c now h).1 ≡ true
      → ((rate_gate c now h).0.hook_timer ≡ h.hook_timer)
        × ((rate_gate c now h).0.rate_counter ≡ u32 (h.rate_counter + 1))
        × (u32 (h.rate_counter + 1) ≤ hook_rate_limit / c.api_rate_cap)
  unfolding rate_gate
  window_step cap kind near on = ground arith

module _ (c : GateConfig) (cap : c.api_rate_cap ≢ 0) where
  -- A hook that is disabled stays as it is, and none of its calls goes on.
  pub run_calls_disabled :
      (times : List ℕ) (h : Hook)
      → is_uncapped h.new_func ≡ false
      → h.hook_disabled ≡ true
      → run_calls c times h ≡ (h, 0)
  unfolding run_calls
  run_calls_disabled [] h kind off = refl
  run_calls_disabled (now ∷ times) h kind off =
      rw (disabled_stays c now h cap kind off) (rw (run_calls_disabled times h kind off) refl)

  -- Within one sample of time a hook runs at most HOOK_RATE_LIMIT / `api_rate_cap` times, counted
  -- with the calls before in the same sample.
  run_calls_rate_cap :
      (times : List ℕ) (h : Hook)
      → is_uncapped h.new_func ≡ false
      → All (λ now. u32 (now + 2 ^ 32 - h.hook_timer) < hook_time_sample) times
      → h.rate_counter ≤ hook_rate_limit / c.api_rate_cap
      → h.rate_counter + (run_calls c times h).1 ≤ hook_rate_limit / c.api_rate_cap
  unfolding run_calls
  run_calls_rate_cap [] h kind near below = omega arith
  run_calls_rate_cap (now ∷ times) h kind near below = elim (Bool-cases (rate_gate c now h).1) [
    | inl on ↦
        let step = window_step c now h cap kind near.0 on in
        let small : hook_rate_limit / c.api_rate_cap ≤ 256 = grind arith in
        let ih =
          run_calls_rate_cap times (rate_gate c now h).0 (rw (new_func_stays c now h) kind)
            (rw step.0 near.1) (omega arith) in
        rw on (omega arith)
    | inr refused ↦ rw refused (
        ground (
          arith,
          refused_disables c now h refused,
          new_func_stays c now h,
          run_calls_disabled times (rate_gate c now h).0,
        ))
  ]
