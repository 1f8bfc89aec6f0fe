-- ===== src/Protocol/Packets.antt =====
-- protocol/packets.py: what the wire said. A message of `anomalies` is a constructor with the
-- values that the message prints; a temperature is a number of half degrees.
use bedjet_local.Prelude.{
  ℕ, ◌+◌, Bool, true, false, ◌&&◌, not, Option, none, some, List, [], ◌∷◌, length, leb, is_some,
}
use bedjet_local.Protocol.Constants.{Bytes, StatusMode, header_length}

pub data TemperatureLabel : Type 0 where
  actual target ambient : TemperatureLabel

pub data Anomaly : Type 0 where
  empty_packet : Anomaly
  unexpected_format : ℕ → Anomaly
  incomplete_packet : ℕ → ℕ → Anomaly
  packet_too_short : ℕ → Anomaly
  implausible_time : ℕ → ℕ → ℕ → Anomaly
  outside_envelope : TemperatureLabel → ℕ → Anomaly
  target_outside_range : ℕ → ℕ → ℕ → Anomaly
  unverified_mode : ℕ → Bool → Anomaly
  fan_step_outside : ℕ → Anomaly
  checksum_mismatch : ℕ → Anomaly

pub record StatusPacket : Type 0 where
  pub raw : Bytes
  pub header : Bytes
  pub is_partial : Bool
  pub packet_format : Option ℕ
  pub packet_type : Option ℕ
  pub declared_length : Option ℕ
  pub time_remaining_s : Option ℕ
  pub actual_temp_c : Option ℕ
  pub target_temp_c : Option ℕ
  pub ambient_temp_c : Option ℕ
  pub mode : Option StatusMode
  pub mode_raw : Option ℕ
  pub fan_step : Option ℕ
  pub fan_percent : Option ℕ
  pub min_temp_c : Option ℕ
  pub max_temp_c : Option ℕ
  pub max_runtime_s : Option ℕ
  pub turbo_elapsed_s : Option ℕ
  pub checksum_ok : Option Bool
  pub shutdown_reason : Option ℕ
  pub update_phase : Option ℕ
  pub flags : Option ℕ
  pub sequence_step : Option ℕ
  pub notify_code : Option ℕ
  pub unknown_region : Bytes
  pub anomalies : List Anomaly

-- The constructor called with its two required arguments: every other field has its default.
abbrev pub bare_packet : Bytes → Bytes → StatusPacket
bare_packet raw header = record {
  raw = raw;
  header = header;
  is_partial = false;
  packet_format = none;
  packet_type = none;
  declared_length = none;
  time_remaining_s = none;
  actual_temp_c = none;
  target_temp_c = none;
  ambient_temp_c = none;
  mode = none;
  mode_raw = none;
  fan_step = none;
  fan_percent = none;
  min_temp_c = none;
  max_temp_c = none;
  max_runtime_s = none;
  turbo_elapsed_s = none;
  checksum_ok = none;
  shutdown_reason = none;
  update_phase = none;
  flags = none;
  sequence_step = none;
  notify_code = none;
  unknown_region = [];
  anomalies = [];
}

unfoldable pub expected_total : StatusPacket → Option ℕ
expected_total p = elim p.declared_length [ none ↦ none | some d ↦ some (d + header_length) ]

unfoldable pub is_complete : StatusPacket → Bool
unfolding expected_total
is_complete p = elim (expected_total p) [ none ↦ false | some total ↦ leb total (length p.raw) ]

-- `checksum_ok is True`, `checksum_ok is False`.
abbrev pub is_true : Option Bool → Bool
is_true none = false
is_true (some b) = b

abbrev pub is_false : Option Bool → Bool
is_false none = false
is_false (some b) = not b

abbrev no_anomalies : List Anomaly → Bool
no_anomalies [] = true
no_anomalies (_ ∷ _) = false

unfoldable pub is_trustworthy : StatusPacket → Bool
unfolding is_complete
is_trustworthy p = is_true p.checksum_ok && is_complete p

unfoldable pub is_plausible : StatusPacket → Bool
is_plausible p =
    not (is_false p.checksum_ok) && (no_anomalies p.anomalies && is_some p.actual_temp_c)
