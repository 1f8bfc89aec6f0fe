-- ===== src/Protocol/Decode/Fields.antt =====
-- The decoded fields against the bytes.
use bedjet_local.Prelude.{
  ℕ, ◌+◌, ◌*◌, ◌≤◌, ◌<◌, ◌≡◌, ◌≢◌, ◌⊎◌, ◌↔◌, inl, inr, refl, Option, none, some, List, [], ◌∷◌,
  ◌++◌, arith, length, get_elem?, lt→ltb,
}
use bedjet_local.Protocol.Constants.{
  Bytes, StatusMode, standby, heat, turbo, cool, dry, status_mode_value,
}
use bedjet_local.Protocol.Packets.{packet_too_short, Anomaly}
use bedjet_local.Protocol.Decode.{
  decode_status, decode_mode, decode_fan, decode_body, header_anomalies,
}

append-ne-nil : (xs : List Anomaly) (y : Anomaly) (ys : List Anomaly) → xs ++ y ∷ ys ≢ []
append-ne-nil [] y ys h = cc
append-ne-nil (x ∷ xs) y ys h = cc

pub size_cases : (bytes : Bytes) → (length bytes < 11) ⊎ (11 ≤ length bytes)
size_cases bytes = ground arith

pub decode_status_long :
    (bytes : Bytes) → 11 ≤ length bytes → decode_status bytes ≡ decode_body bytes
unfolding decode_status
decode_status_long [] h = absurd (omega arith)
decode_status_long (b ∷ bs) h = ground arith

pub decode_status_short :
    (bytes : Bytes)
    → length bytes < 11
    → ((decode_status bytes).mode ≡ none)
      × ((decode_status bytes).fan_percent ≡ none)
      × ((decode_status bytes).anomalies ≢ [])
unfolding decode_status
decode_status_short [] h = ground arith
decode_status_short (b ∷ bs) h =
    rw (lt→ltb (length (b ∷ bs)) 11 h) (
      refl,
      refl,
      append-ne-nil (header_anomalies (b ∷ bs)) (packet_too_short (length (b ∷ bs))) [],
    )

decode_mode_iff :
    (byte : Option ℕ) (m : StatusMode)
    → ((decode_mode byte).0 ≡ some m) ↔ (byte ≡ some (status_mode_value m))
unfolding decode_mode
decode_mode_iff none m = ground arith
decode_mode_iff (some raw) standby = ground arith
decode_mode_iff (some raw) heat = ground arith
decode_mode_iff (some raw) turbo = ground arith
decode_mode_iff (some raw) cool = ground arith
decode_mode_iff (some raw) dry = ground arith

decode_fan_iff :
    (byte : Option ℕ) (percent : ℕ)
    → ((decode_fan byte).0 ≡ some percent)
      ↔ ((step : ℕ) × (byte ≡ some step) × (step ≤ 19) × (percent ≡ 5 + 5 * step))
unfolding decode_fan
decode_fan_iff none percent = ((λ h. cc), (λ h. cc h.1))
decode_fan_iff (some raw) percent =
    ((λ h. (raw, ground arith, ground arith, ground arith)), (λ h. ground arith))

-- The mode is read from byte 9 of a packet of eleven bytes or more, and only from a byte that is
-- the value of that mode: an unknown byte gives no mode.
pub mode_iff :
    (bytes : Bytes) (m : StatusMode)
    → ((decode_status bytes).mode ≡ some m)
      ↔ ((11 ≤ length bytes) × (get_elem? bytes 9 ≡ some (status_mode_value m)))
unfolding decode_body
mode_iff bytes m = elim (size_cases bytes) [
  | inl short ↦ ((λ h. cc (decode_status_short bytes short).0), (λ h. absurd (omega arith)))
  | inr long ↦ rw (decode_status_long bytes long) (
    (λ h. (long, (decode_mode_iff (get_elem? bytes 9) m).0 h)),
    (λ h. (decode_mode_iff (get_elem? bytes 9) m).1 h.1),
  )
]

-- The fan percentage is read from byte 10, for the steps 0 to 19 alone.
pub fan_percent_iff :
    (bytes : Bytes) (percent : ℕ)
    → ((decode_status bytes).fan_percent ≡ some percent) ↔ (
        (11 ≤ length bytes)
        × ((step : ℕ) × (get_elem? bytes 10 ≡ some step) × (step ≤ 19) × (percent ≡ 5 + 5 * step)))
unfolding decode_body
fan_percent_iff bytes percent = elim (size_cases bytes) [
  | inl short ↦ ((λ h. cc (decode_status_short bytes short).1), (λ h. absurd (omega arith)))
  | inr long ↦ rw (decode_status_long bytes long) (
    (λ h. (long, (decode_fan_iff (get_elem? bytes 10) percent).0 h)),
    (λ h. (decode_fan_iff (get_elem? bytes 10) percent).1 h.1),
  )
]
