-- ===== src/Protocol/Decode.antt =====
-- protocol/decode.py: the status packet decoder. Each block of `decode_status` that appends
-- anomalies is a function to the list it appends, and the blocks' lists are joined in order.
pub mod Integrity
pub mod Fields
pub mod Health
pub mod Reassembly
use bedjet_local.Prelude.{
  ℕ, ◌+◌, ◌*◌, ◌%◌, Bool, false, ◌&&◌, ◌||◌, not, Option, none, some, List, [], ◌∷◌, ◌++◌, length,
  get_elem?, take, drop, min, leb, ltb, ◌==◌, if◌then◌else◌,
}
use bedjet_local.Protocol.Constants.{
  Bytes, Offset, offset_value, header_length, min_status_length, packet_format_v3_home,
  packet_format_debug, absolute_min_half_c, absolute_max_half_c, fan_step_min, fan_step_max,
  unknown_region_start, unknown_region_stop, StatusMode, status_mode, fan_step_to_percent,
  temp_byte_to_c, sum, verify_checksum,
}
use bedjet_local.Protocol.Packets.{
  StatusPacket, bare_packet, Anomaly, empty_packet, unexpected_format, incomplete_packet,
  packet_too_short, implausible_time, outside_envelope, target_outside_range, unverified_mode,
  fan_step_outside, checksum_mismatch, TemperatureLabel, actual, target, ambient,
}

-- `_u8`
unfoldable pub u8 : Bytes → Offset → Option ℕ
u8 bytes offset = get_elem? bytes (offset_value offset)

-- `_u16_be`
unfoldable pub u16_be : Bytes → Offset → Option ℕ
u16_be bytes offset = elim (get_elem? bytes (offset_value offset + 1)) [
  | none ↦ none
  | some low ↦ elim (get_elem? bytes (offset_value offset)) [
    | none ↦ none
    | some high ↦ some (high * 256 + low)
  ]
]

-- `_decode_temp`
unfoldable pub decode_temp : Bytes → Offset → Option ℕ
unfolding u8 temp_byte_to_c
decode_temp bytes offset = elim (u8 bytes offset) [
  | none ↦ none
  | some raw ↦ some (temp_byte_to_c raw)
]

-- `_max_runtime`
unfoldable pub max_runtime : Bytes → Option ℕ
unfolding u8
max_runtime bytes = elim (u8 bytes Offset.max_runtime_hours) [
  | none ↦ none
  | some hours ↦ elim (u8 bytes Offset.max_runtime_minutes) [
    | none ↦ none
    | some minutes ↦ some (hours * 3600 + minutes * 60)
  ]
]

-- `bool(_u8(...))`: a missing byte and a zero byte are both false.
abbrev truthy : Option ℕ → Bool
truthy none = false
truthy (some n) = not (n == 0)

is_known_format : ℕ → Bool
is_known_format raw = raw == packet_format_v3_home || raw == packet_format_debug

format_anomalies : Option ℕ → List Anomaly
unfolding is_known_format
format_anomalies none = []
format_anomalies (some raw) = if is_known_format raw then [] else unexpected_format raw ∷ []

length_anomalies : Option ℕ → ℕ → List Anomaly
length_anomalies none size = []
length_anomalies (some declared) size =
    if ltb size (declared + header_length)
    then incomplete_packet (declared + header_length) size ∷ []
    else []

unfoldable pub time_remaining : Bytes → Option ℕ × List Anomaly
unfolding u8
time_remaining bytes = elim (u8 bytes Offset.time_hours) [
  | none ↦ (none, [])
  | some hours ↦ elim (u8 bytes Offset.time_minutes) [
    | none ↦ (none, [])
    | some minutes ↦ elim (u8 bytes Offset.time_seconds) [
      | none ↦ (none, [])
      | some seconds ↦ (
        some (hours * 3600 + minutes * 60 + seconds),
        if ltb 59 minutes || ltb 59 seconds
            then implausible_time hours minutes seconds ∷ []
            else [],
      )
    ]
  ]
]

envelope_anomalies : TemperatureLabel → Option ℕ → List Anomaly
envelope_anomalies label none = []
envelope_anomalies label (some value) =
    if leb absolute_min_half_c value && leb value absolute_max_half_c
    then []
    else outside_envelope label value ∷ []

range_anomalies : Option ℕ → Option ℕ → Option ℕ → List Anomaly
range_anomalies (some t) (some low) (some high) =
    if leb low t && leb t high then [] else target_outside_range t low high ∷ []
range_anomalies _ _ _ = []

-- The mode, or none with an anomaly, which carries a hint at 0x03 (`STATUS_MODE_PREDICTION`).
unfoldable pub decode_mode : Option ℕ → Option StatusMode × List Anomaly
unfolding status_mode
decode_mode none = (none, [])
decode_mode (some raw) = elim (status_mode raw) [
  | some m ↦ (some m, [])
  | none ↦ (none, unverified_mode raw (raw == 0x03) ∷ [])
]

unfoldable pub decode_fan : Option ℕ → Option ℕ × List Anomaly
unfolding fan_step_to_percent
decode_fan none = (none, [])
decode_fan (some step) =
    if leb fan_step_min step && leb step fan_step_max
    then (some (fan_step_to_percent step), [])
    else (none, fan_step_outside step ∷ [])

unfoldable pub decode_checksum : Bytes → Option ℕ → Option Bool × List Anomaly
unfolding verify_checksum
decode_checksum bytes none = (none, [])
decode_checksum bytes (some declared) =
    if leb (declared + header_length) (length bytes)
    then (
      some (verify_checksum (take (declared + header_length) bytes)),
      if verify_checksum (take (declared + header_length) bytes)
          then []
          else checksum_mismatch (sum (take (declared + header_length) bytes) % 256) ∷ [],
    )
    else (none, [])

-- `data[19 : min(26, len(data))]`
abbrev unknown_bytes : Bytes → Bytes
unknown_bytes bytes =
    drop unknown_region_start (take (min unknown_region_stop (length bytes)) bytes)

-- The fields that every return of `decode_status` on a non-empty packet sets.
unfoldable pub decode_header : Bytes → StatusPacket
unfolding u8
decode_header bytes = record (bare_packet bytes (take header_length bytes)) {
  is_partial = truthy (u8 bytes Offset.is_partial);
  packet_format = u8 bytes Offset.packet_format;
  packet_type = u8 bytes Offset.packet_type;
  declared_length = u8 bytes Offset.payload_length;
}

-- The anomalies of the header: those found before the length test.
header_anomalies : Bytes → List Anomaly
unfolding u8 format_anomalies length_anomalies
header_anomalies bytes =
    format_anomalies (u8 bytes Offset.packet_format)
    ++ length_anomalies (u8 bytes Offset.payload_length) (length bytes)

temperature_anomalies : Bytes → List Anomaly
unfolding decode_temp envelope_anomalies range_anomalies
temperature_anomalies bytes =
    envelope_anomalies actual (decode_temp bytes Offset.actual_temp)
    ++ (envelope_anomalies target (decode_temp bytes Offset.target_temp)
        ++ (envelope_anomalies ambient (decode_temp bytes Offset.ambient_temp)
            ++ range_anomalies (decode_temp bytes Offset.target_temp)
                (decode_temp bytes Offset.min_temp) (decode_temp bytes Offset.max_temp)))

unfoldable pub decode_body : Bytes → StatusPacket
unfolding decode_header u8 u16_be decode_temp max_runtime time_remaining decode_mode decode_fan
    decode_checksum header_anomalies temperature_anomalies
decode_body bytes = record (decode_header bytes) {
  time_remaining_s = (time_remaining bytes).0;
  actual_temp_c = decode_temp bytes Offset.actual_temp;
  target_temp_c = decode_temp bytes Offset.target_temp;
  ambient_temp_c = decode_temp bytes Offset.ambient_temp;
  mode = (decode_mode (u8 bytes Offset.mode)).0;
  mode_raw = u8 bytes Offset.mode;
  fan_step = u8 bytes Offset.fan_step;
  fan_percent = (decode_fan (u8 bytes Offset.fan_step)).0;
  min_temp_c = decode_temp bytes Offset.min_temp;
  max_temp_c = decode_temp bytes Offset.max_temp;
  max_runtime_s = max_runtime bytes;
  turbo_elapsed_s = u16_be bytes Offset.turbo_elapsed;
  checksum_ok = (decode_checksum bytes (u8 bytes Offset.payload_length)).0;
  shutdown_reason = u8 bytes Offset.shutdown_reason;
  update_phase = u8 bytes Offset.update_phase;
  flags = u8 bytes Offset.flags;
  sequence_step = u8 bytes Offset.sequence_step;
  notify_code = u8 bytes Offset.notify_code;
  unknown_region = unknown_bytes bytes;
  anomalies =
      header_anomalies bytes
      ++ ((time_remaining bytes).1
          ++ (temperature_anomalies bytes
              ++ ((decode_mode (u8 bytes Offset.mode)).1
                  ++ ((decode_fan (u8 bytes Offset.fan_step)).1
                      ++ (decode_checksum bytes (u8 bytes Offset.payload_length)).1))));
}

unfoldable pub decode_status : Bytes → StatusPacket
unfolding decode_header decode_body
decode_status [] = record (bare_packet [] []) { anomalies = empty_packet ∷ [] }
decode_status (b ∷ bs) =
    if ltb (length (b ∷ bs)) min_status_length
    then record (decode_header (b ∷ bs)) {
      anomalies = header_anomalies (b ∷ bs) ++ packet_too_short (length (b ∷ bs)) ∷ [];
    }
    else decode_body (b ∷ bs)

-- Whether the bytes carry a format byte of a status or a debug packet.
unfoldable pub looks_like_packet_start : Bytes → Bool
unfolding u8 is_known_format
looks_like_packet_start bytes = elim (u8 bytes Offset.packet_format) [
  | none ↦ false
  | some raw ↦ is_known_format raw
]

unfoldable pub reassemble : Bytes → Bytes → Bytes
reassemble first remainder = first ++ remainder
