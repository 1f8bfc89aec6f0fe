-- ===== src/Python/Float.antt =====
-- Python's `float`, as far as the program computes with it exactly: a finite double is n / 2 ^ k
-- for an integer n. Doubling is exact but for overflow, `round` is to the nearest integer with ties
-- to the even one, and comparisons are exact. Negative zero is not told from zero.
use native.Mathlib.Nat.{
  div-add-mod', mod-lt, le-div_iff_mul-le, le_of_mul-le-mul_right, lt_of_mul-lt-mul_right, le_trans,
  pow-suc,
}
use bedjet_local.Prelude.{
  zero, ℕ, suc, ◌+◌, ◌*◌, ◌/◌, ◌%◌, ◌^◌, ◌≤◌, ◌<◌, ◌≡◌, Bool, true, false, arith, ltb, leb, ◌==◌,
  ◌⊎◌, inl, inr, if◌then◌else◌,
}
use bedjet_local.Prelude.Int.{ℤ, pos, negsuc}
use bedjet_local.Python.Result.{Result, ok, err}

pub data Float : Type 0 where
  nan pos_inf neg_inf : Float
  finite : ℤ → ℕ → Float

-- 2 ^ 1024, the first power of two past the range.
unfoldable pub overflow_limit : ℕ
overflow_limit = 2 ^ 1024

-- `x * 2.0`
unfoldable pub double : Float → Float
double nan = nan
double pos_inf = pos_inf
double neg_inf = neg_inf
double (finite (pos n) k) =
    if leb (overflow_limit * 2 ^ k) (2 * n) then pos_inf else finite (pos (2 * n)) k
double (finite (negsuc n) k) =
    if leb (overflow_limit * 2 ^ k) (2 * suc n) then neg_inf else finite (negsuc (2 * n + 1)) k

-- n / d to the nearest integer, ties to even.
unfoldable pub round_half_even : ℕ → ℕ → ℕ
round_half_even n d =
    if ltb (2 * (n % d)) d
    then n / d
    else if ltb d (2 * (n % d))
    then n / d + 1
    else if n / d % 2 == 0
    then n / d
    else n / d + 1

-- What `round` and `int` raise on values that are no number.
pub data ConversionError : Type 0 where
  value_error overflow_error : ConversionError

abbrev pub negate : ℕ → ℤ
negate zero = pos 0
negate (suc n) = negsuc n

-- `round(x)`
unfoldable pub round : Float → Result ConversionError ℤ
round nan = err value_error
round pos_inf = err overflow_error
round neg_inf = err overflow_error
round (finite (pos n) k) = ok (pos (round_half_even n (2 ^ k)))
round (finite (negsuc n) k) = ok (negate (round_half_even (suc n) (2 ^ k)))

-- `int(x)`: towards zero.
unfoldable pub truncate : Float → Result ConversionError ℤ
truncate nan = err value_error
truncate pos_inf = err overflow_error
truncate neg_inf = err overflow_error
truncate (finite (pos n) k) = ok (pos (n / 2 ^ k))
truncate (finite (negsuc n) k) = ok (negate (suc n / 2 ^ k))

-- h / 2, for a number h of halves.
abbrev pub half : ℕ → Float
half h = finite (pos h) 1

-- `h / 2 <= x`, `x <= h / 2`; a comparison with nan is false.
unfoldable pub half_le : ℕ → Float → Bool
half_le h nan = false
half_le h pos_inf = true
half_le h neg_inf = false
half_le h (finite (pos n) k) = leb (h * 2 ^ k) (2 * n)
half_le h (finite (negsuc n) k) = false

unfoldable pub le_half : Float → ℕ → Bool
le_half nan h = false
le_half pos_inf h = false
le_half neg_inf h = true
le_half (finite (pos n) k) h = leb (2 * n) (h * 2 ^ k)
le_half (finite (negsuc n) k) h = true

-- `x <= 0`
unfoldable pub le_zero : Float → Bool
le_zero nan = false
le_zero pos_inf = false
le_zero neg_inf = true
le_zero (finite (pos n) k) = n == 0
le_zero (finite (negsuc n) k) = true

round_half_even_cases :
    (n d : ℕ)
    → ((round_half_even n d ≡ n / d) × (2 * (n % d) ≤ d))
      ⊎ ((round_half_even n d ≡ n / d + 1) × (d ≤ 2 * (n % d)))
unfolding round_half_even
round_half_even_cases n d = ground arith

-- Rounding moves a number by at most one half.
pub round_half_even_nearest :
    (n d : ℕ)
    → 0 < d
    → (2 * (round_half_even n d * d) ≤ 2 * n + d) × (2 * n ≤ 2 * (round_half_even n d * d) + d)
round_half_even_nearest n d h = elim (round_half_even_cases n d) [
  | inl (e, l) ↦ rw e (omega (arith, div-add-mod' n d, mod-lt n h))
  | inr (e, l) ↦ rw e (omega (arith, div-add-mod' n d, mod-lt n h))
]

-- Rounding stays between two integers that hold the number between them.
pub round_half_even_within :
    (n d low high : ℕ)
    → 0 < d
    → low * d ≤ n
    → n ≤ high * d
    → (low ≤ round_half_even n d) × (round_half_even n d ≤ high)
round_half_even_within n d low high h p q = elim (round_half_even_cases n d) [
  | inl (e, l) ↦ rw e (
    (le-div_iff_mul-le h).1 p,
    le_of_mul-le-mul_right {k = d} (omega (arith, div-add-mod' n d)) h,
  )
  | inr (e, l) ↦ rw e (
    le_trans ((le-div_iff_mul-le h).1 p) (omega arith),
    omega
        (arith, lt_of_mul-lt-mul_right d {m = n / d} {n = high} (omega (arith, div-add-mod' n d))),
  )
]

pub round_half_even_exact : (n d : ℕ) → 0 < d → round_half_even (n * d) d ≡ n
round_half_even_exact n d h =
    omega (arith, round_half_even_within (n * d) d n n h (omega arith) (omega arith))

pub overflow_limit_large : 1024 ≤ overflow_limit
unfolding overflow_limit
overflow_limit_large = omega arith

pub two_pow_pos : (k : ℕ) → 0 < 2 ^ k
two_pow_pos zero = omega arith
two_pow_pos (suc k) = simp pow-suc (omega (arith, two_pow_pos k))
