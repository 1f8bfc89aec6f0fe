-- ===== src/Protocol/Constants/Laws.antt =====
-- What the checksum detects, and that the two mode enumerations are read back.
use bedjet_local.Prelude.{ℕ, ◌+◌, ◌<◌, ◌≡◌, ◌↔◌, true, some, [], ◌∷◌, ◌++◌, arith}
use bedjet_local.Protocol.Constants.{
  Bytes, StatusMode, standby, heat, turbo, cool, dry, status_mode, status_mode_value, sum,
  compute_checksum, verify_checksum,
}

pub sum-append : (xs ys : Bytes) → sum (xs ++ ys) ≡ sum xs + sum ys
unfolding sum
sum-append [] ys = omega arith
sum-append (x ∷ xs) ys = omega (arith, sum-append xs ys)

-- A byte completes a body to a packet that verifies exactly when it is the computed checksum.
pub verify-append_iff :
    (body : Bytes) (c : ℕ)
    → c < 256
    → (verify_checksum (body ++ c ∷ []) ≡ true) ↔ (c ≡ compute_checksum body)
unfolding verify_checksum compute_checksum sum
verify-append_iff [] c h = ground arith
verify-append_iff (b ∷ bs) c h = ground (arith, sum-append bs (c ∷ []))

-- The value of a mode decodes to that mode, and no other byte does.
pub status_mode_iff :
    (raw : ℕ) (m : StatusMode) → (status_mode raw ≡ some m) ↔ (raw ≡ status_mode_value m)
unfolding status_mode
status_mode_iff raw standby = ground arith
status_mode_iff raw heat = ground arith
status_mode_iff raw turbo = ground arith
status_mode_iff raw cool = ground arith
status_mode_iff raw dry = ground arith
