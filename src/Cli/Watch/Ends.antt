-- ===== src/Cli/Watch/Ends.antt =====
-- The loop of a watch ends at its deadline.
use bedjet_local.Prelude.{
  ℕ, zero, suc, ◌+◌, ◌*◌, ◌^◌, ◌≤◌, ◌<◌, ◌≡◌, some, ltb, arith, Bool-cases, inl, inr,
}
use bedjet_local.Prelude.Int.{pos}
use bedjet_local.Python.Float.{finite, two_pow_pos}
use bedjet_local.Cli.Watch.{sleep_loop, goes_on, is_before}

le_scaled : (a m : ℕ) → 0 < m → a ≤ a * m
le_scaled zero m h = omega arith
le_scaled (suc a) m h = omega (arith, le_scaled a m h, h)

-- A watch of n / 2^k seconds sleeps for a whole number of seconds that is no less.
sleep_from :
    (n k fuel elapsed : ℕ)
    → n ≤ elapsed + fuel
    → (s : ℕ) × (sleep_loop (suc fuel) (some (finite (pos n) k)) elapsed ≡ some s) × (n ≤ s * 2 ^ k)
unfolding sleep_loop goes_on is_before
sleep_from n k zero elapsed h =
    let scaled = le_scaled elapsed (2 ^ k) (two_pow_pos k) in
    (elapsed, ground (arith, scaled), omega (arith, scaled, h))
sleep_from n k (suc fuel) elapsed h = elim (Bool-cases (ltb (elapsed * 2 ^ k) n)) [
  | inl before ↦
      let (s, e, p) = sleep_from n k fuel (elapsed + 1) (omega (arith, h)) in (s, ground arith, p)
  | inr reached ↦ (elapsed, ground arith, ground arith)
]

-- Enough fuel is given by the numerator: the loop ends once the deadline is reached.
pub sleep_ends :
    (n k : ℕ)
    → (s : ℕ) × (sleep_loop (suc n) (some (finite (pos n) k)) 0 ≡ some s) × (n ≤ s * 2 ^ k)
sleep_ends n k = sleep_from n k n 0 (omega arith)
