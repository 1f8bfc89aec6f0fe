-- ===== src/Protocol/Encode/Temperature.antt =====
-- The temperature command: snapping to half degrees, and the range that the device reported.
use native.Mathlib.Nat.{mul_comm}
use bedjet_local.Prelude.{
  ℕ, suc, ◌≢◌, ◌+◌, ◌*◌, ◌^◌, ◌≤◌, ◌<◌, ◌≡◌, arith, [], ◌∷◌, some, true, ◌&&◌,
}
use bedjet_local.Prelude.Int.{pos, negsuc}
use bedjet_local.Python.Float.{
  Float, nan, pos_inf, neg_inf, finite, half, double, round, half_le, le_half, round_half_even,
  round_half_even_nearest, round_half_even_within, round_half_even_exact, two_pow_pos,
  overflow_limit_large,
}
use bedjet_local.Python.Result.{ok, require_passed, returned}
use bedjet_local.Protocol.Constants.{Bytes}
use bedjet_local.Protocol.Encode.{set_temperature, snap_target_c, target_raw}

-- What an encoded target is, by the sign of the request.
target_raw_pos :
    (n k raw : ℕ)
    → target_raw (finite (pos n) k) ≡ ok raw
    → (raw ≡ round_half_even (2 * n) (2 ^ k)) × (raw < 256)
unfolding target_raw double round
target_raw_pos n k raw h = ground arith

target_raw_exact : (h : ℕ) → h < 256 → target_raw (half h) ≡ ok h
unfolding target_raw double round
target_raw_exact h l =
    let e : round_half_even (2 * h) 2 ≡ h =
      rw (mul_comm 2 h) (round_half_even_exact h 2 (omega arith)) in
    ground (arith, overflow_limit_large, e)

-- A target that is encoded fits a byte and is the half degree nearest to the request.
pub snap_target_c_nearest :
    (n k raw : ℕ)
    → snap_target_c (finite (pos n) k) ≡ ok raw
    → (raw < 256) × (2 * (raw * 2 ^ k) ≤ 4 * n + 2 ^ k) × (4 * n ≤ 2 * (raw * 2 ^ k) + 2 ^ k)
unfolding snap_target_c
snap_target_c_nearest n k raw h =
    let (e, byte) = target_raw_pos n k raw h in
    let (above, below) = round_half_even_nearest (2 * n) (2 ^ k) (two_pow_pos k) in
    rw e (rw e at byte, omega arith, omega arith)

-- What a command that was encoded has passed.
set_temperature_ok :
    (x : Float) (low high : ℕ) (command : Bytes)
    → set_temperature x (some low) (some high) ≡ ok command
    → (raw : ℕ) × ((half_le low x && le_half x high) ≡ true)
      × (target_raw x ≡ ok raw)
      × (command ≡ 0x03 ∷ raw ∷ [])
unfolding set_temperature
set_temperature_ok x low high command h =
    let (inside, h1) = require_passed (half_le low x && le_half x high) _ h in
    let (raw, encoded, h2) = returned (target_raw x) h1 in (raw, inside, encoded, cc)

bounds_of_inside :
    (n k low high : ℕ)
    → (half_le low (finite (pos n) k) && le_half (finite (pos n) k) high) ≡ true
    → (low * 2 ^ k ≤ 2 * n) × (2 * n ≤ high * 2 ^ k)
unfolding half_le le_half
bounds_of_inside n k low high h = ground arith

-- A temperature command, for any request, carries a byte that is the snapped request and lies
-- within the range that the device reported, in half degrees.
pub set_temperature_within :
    (x : Float) (low high : ℕ) (command : Bytes)
    → set_temperature x (some low) (some high) ≡ ok command
    → (raw : ℕ) × (command ≡ 0x03 ∷ raw ∷ [])
      × (low ≤ raw)
      × (raw ≤ high)
      × (raw < 256)
      × (snap_target_c x ≡ ok raw)
unfolding snap_target_c half_le le_half
set_temperature_within nan low high command h = cc (set_temperature_ok nan low high command h).1
set_temperature_within pos_inf low high command h =
    ground (arith, (set_temperature_ok pos_inf low high command h).1)
set_temperature_within neg_inf low high command h =
    cc (set_temperature_ok neg_inf low high command h).1
set_temperature_within (finite (negsuc n) k) low high command h =
    cc (set_temperature_ok (finite (negsuc n) k) low high command h).1
set_temperature_within (finite (pos n) k) low high command h =
    let (raw, inside, encoded, e) = set_temperature_ok (finite (pos n) k) low high command h in
    let (above, below) = bounds_of_inside n k low high inside in
    let (r, byte) = target_raw_pos n k raw encoded in
    let (lo, hi) = round_half_even_within (2 * n) (2 ^ k) low high (two_pow_pos k) above below in
    (raw, e, rw r lo, rw r hi, byte, encoded)

negative_byte :
    (n k raw : ℕ)
    → target_raw (finite (negsuc n) k) ≡ ok raw
    → (raw ≡ 0) × (round_half_even (suc (2 * n + 1)) (2 ^ k) ≡ 0)
unfolding target_raw double round
negative_byte n k raw h = ground arith

-- A negative target that is encoded is 0, and was at most a quarter of a degree below it.
pub snap_target_c_negative :
    (n k raw : ℕ) → snap_target_c (finite (negsuc n) k) ≡ ok raw → (raw ≡ 0) × (4 * suc n ≤ 2 ^ k)
unfolding snap_target_c
snap_target_c_negative n k raw h =
    let (zeroed, e) = negative_byte n k raw h in
    let (above, below) = round_half_even_nearest (suc (2 * n + 1)) (2 ^ k) (two_pow_pos k) in
    let near : 2 * suc (2 * n + 1) ≤ 2 * (0 * 2 ^ k) + 2 ^ k = rw e at below in
    (zeroed, omega arith)

pub snap_target_c_finite :
    (x : Float) (raw : ℕ) → snap_target_c x ≡ ok raw → (x ≢ nan) × (x ≢ pos_inf) × (x ≢ neg_inf)
unfolding snap_target_c target_raw double round
snap_target_c_finite x raw h = ((λ e. ground arith), (λ e. ground arith), λ e. ground arith)
