-- ===== src/Protocol/Encode/Fan.antt =====
-- The fan command: snapping to the 5% grid, and refusal outside it.
use bedjet_local.Prelude.{
  ℕ, ◌+◌, ◌-◌, ◌*◌, ◌≤◌, ◌<◌, ◌≡◌, ◌⊎◌, inl, inr, refl, arith, [], ◌∷◌, Bool-cases, le→leb, ◌&&◌,
  leb,
}
use bedjet_local.Prelude.Int.{ℤ, pos, negsuc}
use bedjet_local.Python.Float.{round_half_even_nearest}
use bedjet_local.Python.Result.{ok, err}
use bedjet_local.Protocol.Encode.{
  set_fan_percent, snap_fan_percent, set_fan_step, fan_percent_to_step, fan_percent_outside,
}

fan_percent_to_step_nearest :
    (p : ℕ)
    → 5 ≤ p
    → p ≤ 100
    → let s = fan_percent_to_step (pos p) in (s ≤ 19) × (5 + 5 * s ≤ p + 2) × (p ≤ 5 + 5 * s + 2)
unfolding fan_percent_to_step
fan_percent_to_step_nearest p low high =
    omega (arith, round_half_even_nearest (p - 5) 5 (omega arith))

-- What the two fan functions give for a percent: the snapped percent with the command for its
-- step, or a refusal by both.
pub data FanOutcome (percent : ℤ) : Type 0 where
  snapped :
      (p step : ℕ)
      → percent ≡ pos p
      → 5 ≤ p
      → p ≤ 100
      → step ≤ 19
      → 5 + 5 * step ≤ p + 2
      → p ≤ 5 + 5 * step + 2
      → snap_fan_percent percent ≡ ok (5 + 5 * step)
      → set_fan_percent percent ≡ ok (0x07 ∷ step ∷ [])
      → FanOutcome percent
  refused :
      ((p : ℕ) → percent ≡ pos p → (p < 5) ⊎ (100 < p))
      → snap_fan_percent percent ≡ err (fan_percent_outside percent)
      → set_fan_percent percent ≡ err (fan_percent_outside percent)
      → FanOutcome percent

set_fan_step_in_range : (step : ℕ) → step ≤ 19 → set_fan_step (pos step) ≡ ok (0x07 ∷ step ∷ [])
unfolding set_fan_step
set_fan_step_in_range step h = ground arith

fan_snapped : (p : ℕ) → 5 ≤ p → p ≤ 100 → FanOutcome (pos p)
unfolding set_fan_percent snap_fan_percent
fan_snapped p low high =
    let (max, above, below) = fan_percent_to_step_nearest p low high in
    snapped p (fan_percent_to_step (pos p)) refl low high max above below
      (rw (le→leb 5 p low, le→leb p 100 high))
      (rw (le→leb 5 p low, le→leb p 100 high)
        (set_fan_step_in_range (fan_percent_to_step (pos p)) max))

-- From 5 to 100 the percent is snapped to the step nearest to it, at most 2 away, and the command
-- carries that step; any other integer is refused by both functions, and nothing is clamped.
pub set_fan_percent_lem : (percent : ℤ) → FanOutcome percent
unfolding set_fan_percent snap_fan_percent
set_fan_percent_lem (negsuc n) = refused (λ p e. cc) refl refl
set_fan_percent_lem (pos p) = elim (Bool-cases (leb 5 p && leb p 100)) [
  | inl within ↦ fan_snapped p (ground arith) (ground arith)
  | inr outside ↦ refused (λ q e. ground arith) (rw outside) (rw outside)
]
