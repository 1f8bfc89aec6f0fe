-- ===== src/Protocol/Tests.antt =====
-- Two packets, cooling and standby, and the theorems about the protocol at them.
use bedjet_local.Prelude.{
  ℕ, ◌≤◌, ◌<◌, ◌≡◌, ◌↔◌, refl, true, false, some, [], ◌∷◌, arith, set, take, drop,
}
use bedjet_local.Prelude.Int.{pos}
use bedjet_local.Protocol.Constants.{Bytes, sum}
use bedjet_local.Protocol.Packets.{is_trustworthy, is_complete, is_plausible}
use bedjet_local.Protocol.Decode.{decode_status, looks_like_packet_start, reassemble}
use bedjet_local.Protocol.Decode.Integrity.{IsIntact, trustworthy_iff, corrupt_byte_untrusted}
use bedjet_local.Protocol.Decode.Health.{IsHealthy, quiet-IsHealthy}
use bedjet_local.Protocol.Decode.Reassembly.{split_packet}
use bedjet_local.Protocol.Encode.{
  set_temperature, snap_target_c, set_fan_percent, set_fan_step, fan_percent_to_step, target_raw,
}
use bedjet_local.Protocol.Encode.Temperature.{set_temperature_within}
use bedjet_local.Python.Float.{
  Float, finite, double, round, round_half_even, half_le, le_half, overflow_limit,
}
use bedjet_local.Python.Result.{ok}

abbrev pub cooling : Bytes
cooling =
    0 ∷ 86 ∷ 27 ∷ 1 ∷ 0 ∷ 10 ∷ 30 ∷ 47 ∷ 48 ∷ 4 ∷ 9 ∷ 12 ∷ 0 ∷ 38 ∷ 52 ∷ 0 ∷ 0 ∷ 46 ∷ 0 ∷ 18 ∷ 1
    ∷ 154 ∷ 1 ∷ 16 ∷ 255 ∷ 0 ∷ 0 ∷ 0 ∷ 0 ∷ 0 ∷ 169 ∷ []

abbrev pub resting : Bytes
resting =
    0 ∷ 86 ∷ 27 ∷ 1 ∷ 0 ∷ 10 ∷ 30 ∷ 47 ∷ 48 ∷ 0 ∷ 9 ∷ 0 ∷ 0 ∷ 20 ∷ 80 ∷ 0 ∷ 0 ∷ 46 ∷ 0 ∷ 18 ∷ 1
    ∷ 154 ∷ 1 ∷ 16 ∷ 255 ∷ 0 ∷ 0 ∷ 0 ∷ 0 ∷ 0 ∷ 175 ∷ []

pub cooling-IsIntact : IsIntact cooling 27
unfolding sum
cooling-IsIntact = record {
  declares = refl;
  enough = omega arith;
  whole = omega arith;
  sums_to_zero = refl;
}

pub resting-IsIntact : IsIntact resting 27
unfolding sum
resting-IsIntact = record {
  declares = refl;
  enough = omega arith;
  whole = omega arith;
  sums_to_zero = refl;
}

cooling_plausible : is_plausible (decode_status cooling) ≡ true
unfolding is_plausible decode_status
cooling_plausible = refl

trustworthy_iff_example :
    (is_trustworthy (decode_status cooling) ≡ true) ↔ ((declared : ℕ) × IsIntact cooling declared)
trustworthy_iff_example = trustworthy_iff cooling

corrupt_byte_untrusted_example : is_trustworthy (decode_status (set cooling 9 0)) ≡ false
corrupt_byte_untrusted_example =
    corrupt_byte_untrusted cooling 27 9 4 0 cooling-IsIntact refl (omega arith) (omega arith)
      (omega arith) (omega arith) (omega arith)

split_packet_example :
    (is_complete (decode_status (take 20 cooling)) ≡ false)
    × (looks_like_packet_start (take 20 cooling) ≡ looks_like_packet_start cooling)
    × (is_trustworthy (decode_status (reassemble (take 20 cooling) (drop 20 cooling))) ≡ true)
split_packet_example = split_packet cooling 27 20 cooling-IsIntact (omega arith) (omega arith)

quiet-IsHealthy_example : (declared : ℕ) × IsHealthy cooling declared
unfolding decode_status
quiet-IsHealthy_example = quiet-IsHealthy cooling refl

snapped_to_seventy : set_fan_percent (pos 72) ≡ ok (0x07 ∷ 13 ∷ [])
unfolding set_fan_percent set_fan_step fan_percent_to_step round_half_even
snapped_to_seventy = refl

-- 22.3 degrees, to sixteen binary places, goes out as 22.5.
abbrev request : Float
request = finite (pos 1461452) 16

request_encoded : set_temperature request (some 38) (some 52) ≡ ok (0x03 ∷ 45 ∷ [])
unfolding set_temperature target_raw half_le le_half double round round_half_even overflow_limit
request_encoded = refl

set_temperature_within_example :
    (raw : ℕ) × ((0x03 ∷ 45 ∷ []) ≡ 0x03 ∷ raw ∷ [])
    × (38 ≤ raw)
    × (raw ≤ 52)
    × (raw < 256)
    × (snap_target_c request ≡ ok raw)
set_temperature_within_example =
    set_temperature_within request 38 52 (0x03 ∷ 45 ∷ []) request_encoded

request_snapped : snap_target_c request ≡ ok 45
unfolding snap_target_c target_raw double round round_half_even overflow_limit
request_snapped = refl
