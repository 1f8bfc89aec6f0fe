-- ===== src/Device/State.antt =====
-- device/state.py: the state that a trustworthy packet describes. Temperatures are in half degrees;
-- `describe`, a line of text for the log, is left out.
pub mod Laws
use bedjet_local.Prelude.{ℕ, Bool, true, false, ◌&&◌, Option, none, some, List, [], is_some}
use bedjet_local.Protocol.Constants.{StatusMode, standby, heat, turbo, cool, dry}
use bedjet_local.Protocol.Packets.{StatusPacket, Anomaly}

pub data Power : Type 0 where
  on off unknown : Power

pub record BedJetState : Type 0 where
  pub available : Bool
  pub power : Power
  pub mode : Option StatusMode
  pub target_temp_c : Option ℕ
  pub actual_temp_c : Option ℕ
  pub ambient_temp_c : Option ℕ
  pub fan_percent : Option ℕ
  pub time_remaining_s : Option ℕ
  pub sequence_step : Option ℕ
  pub min_target_c : Option ℕ
  pub max_target_c : Option ℕ
  pub max_runtime_s : Option ℕ
  pub errors : List Anomaly

-- `BedJetState()`
abbrev pub unknown_state : BedJetState
unknown_state = record {
  available = false;
  power = unknown;
  mode = none;
  target_temp_c = none;
  actual_temp_c = none;
  ambient_temp_c = none;
  fan_percent = none;
  time_remaining_s = none;
  sequence_step = none;
  min_target_c = none;
  max_target_c = none;
  max_runtime_s = none;
  errors = [];
}

unfoldable pub power_of : Option StatusMode → Power
power_of (some standby) = off
power_of (some cool) = on
power_of (some heat) = on
power_of (some turbo) = on
power_of (some dry) = on
power_of none = unknown

unfoldable pub from_status : StatusPacket → Bool → BedJetState
unfolding power_of
from_status packet available = record {
  available = available;
  power = power_of packet.mode;
  mode = packet.mode;
  target_temp_c = packet.target_temp_c;
  actual_temp_c = packet.actual_temp_c;
  ambient_temp_c = packet.ambient_temp_c;
  fan_percent = packet.fan_percent;
  time_remaining_s = packet.time_remaining_s;
  sequence_step = packet.sequence_step;
  min_target_c = packet.min_temp_c;
  max_target_c = packet.max_temp_c;
  max_runtime_s = packet.max_runtime_s;
  errors = packet.anomalies;
}

abbrev pub is_off : Power → Bool
is_off off = true
is_off _ = false

abbrev pub is_on : Power → Bool
is_on on = true
is_on _ = false

unfoldable pub fan_is_stale : BedJetState → Bool
fan_is_stale s = is_off s.power && is_some s.fan_percent
