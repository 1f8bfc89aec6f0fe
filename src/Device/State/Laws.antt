-- ===== src/Device/State/Laws.antt =====
-- The state against the bytes of the packet that it was read from.
use bedjet_local.Prelude.{◌≤◌, ◌≡◌, ◌↔◌, Bool, some, arith, length, get_elem?}
use bedjet_local.Protocol.Constants.{Bytes, standby}
use bedjet_local.Protocol.Decode.{decode_status}
use bedjet_local.Protocol.Decode.Fields.{mode_iff}
use bedjet_local.Device.State.{off, from_status, power_of}

power_off_iff : (m : _) → (power_of m ≡ off) ↔ (m ≡ some standby)
unfolding power_of
power_off_iff m = ground arith

-- A unit is reported off exactly when a packet of eleven bytes or more has a zero in byte 9.
pub power_off_iff_byte :
    (bytes : Bytes) (available : Bool)
    → ((from_status (decode_status bytes) available).power ≡ off)
      ↔ ((11 ≤ length bytes) × (get_elem? bytes 9 ≡ some 0))
unfolding from_status
power_off_iff_byte bytes available = (
  λ h. (mode_iff bytes standby).0 ((power_off_iff (decode_status bytes).mode).0 h),
  λ h. (power_off_iff (decode_status bytes).mode).1 ((mode_iff bytes standby).1 h),
)
