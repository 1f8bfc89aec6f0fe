-- ===== src/Api/Models.antt =====
-- api/models.py: the snapshot of a session in plain values, and the outcome of a command. A
-- temperature in Celsius is in half degrees and one in Fahrenheit in tenths of a degree, which is
-- what the source rounds it to; ages are in ticks of the clock.
pub mod Json
use bedjet_local.Prelude.{ℕ, ◌+◌, ◌*◌, String, Bool, Option, none, some, List}
use bedjet_local.Protocol.Constants.{Bytes, StatusMode, standby, heat, turbo, cool, dry}
use bedjet_local.Protocol.Packets.{Anomaly}
use bedjet_local.Device.State.{BedJetState, unknown_state, Power, on, off, unknown, fan_is_stale}
use bedjet_local.Service.Session.{
  LinkState, stopped, connecting, connected, yielded, lost, SessionSnapshot, available,
}

unfoldable pub link_value : LinkState → String
link_value stopped = "stopped"
link_value connecting = "connecting"
link_value connected = "connected"
link_value yielded = "yielded"
link_value lost = "lost"

unfoldable pub power_value : Power → String
power_value on = "on"
power_value off = "off"
power_value unknown = "unknown"

-- `mode.name.lower()`
unfoldable pub mode_name : StatusMode → String
mode_name standby = "standby"
mode_name heat = "heat"
mode_name turbo = "turbo"
mode_name cool = "cool"
mode_name dry = "dry"

-- `_f`: 9 / 5 * (h / 2) + 32 degrees.
unfoldable pub fahrenheit : Option ℕ → Option ℕ
fahrenheit none = none
fahrenheit (some half_celsius) = some (9 * half_celsius + 320)

pub record DeviceSnapshot : Type 0 where
  pub link : String
  pub available : Bool
  pub stale : Bool
  pub reading_age_s : Option ℕ
  pub power : String
  pub mode : Option String
  pub target_temp_c : Option ℕ
  pub target_temp_f : Option ℕ
  pub actual_temp_c : Option ℕ
  pub actual_temp_f : Option ℕ
  pub ambient_temp_c : Option ℕ
  pub ambient_temp_f : Option ℕ
  pub fan_percent : Option ℕ
  pub fan_is_stale : Bool
  pub time_remaining_s : Option ℕ
  pub min_target_c : Option ℕ
  pub max_target_c : Option ℕ
  pub max_runtime_s : Option ℕ
  pub anomalies : List Anomaly

-- `snapshot.reading or BedJetState()`
unfoldable pub reading_or_default : Option BedJetState → BedJetState
reading_or_default none = unknown_state
reading_or_default (some reading) = reading

unfoldable pub name_of : Option StatusMode → Option String
unfolding mode_name
name_of none = none
name_of (some m) = some (mode_name m)

unfoldable pub from_session : SessionSnapshot → DeviceSnapshot
unfolding fahrenheit power_value link_value name_of reading_or_default
from_session s =
    let reading = reading_or_default s.reading in
    record {
      link = link_value s.link;
      available = available s;
      stale = s.stale;
      reading_age_s = s.reading_age_s;
      power = power_value reading.power;
      mode = name_of reading.mode;
      target_temp_c = reading.target_temp_c;
      target_temp_f = fahrenheit reading.target_temp_c;
      actual_temp_c = reading.actual_temp_c;
      actual_temp_f = fahrenheit reading.actual_temp_c;
      ambient_temp_c = reading.ambient_temp_c;
      ambient_temp_f = fahrenheit reading.ambient_temp_c;
      fan_percent = reading.fan_percent;
      fan_is_stale = fan_is_stale reading;
      time_remaining_s = reading.time_remaining_s;
      min_target_c = reading.min_target_c;
      max_target_c = reading.max_target_c;
      max_runtime_s = reading.max_runtime_s;
      anomalies = reading.errors;
    }

-- What a command is called in its `detail`: a target is in half degrees.
pub data Description : Type 0 where
  called_off : Description
  called_mode : String → Description
  called_target called_fan : ℕ → Description

-- The sentence of an outcome.
pub data Detail : Type 0 where
  already verified_as : Description → Detail
  would_send : Bytes → Description → Detail

pub record CommandOutcome : Type 0 where
  pub ok_flag : Bool
  pub changed : Bool
  pub detail : Detail
  pub sent : Option Bytes
  pub dry_run : Bool
  pub before : DeviceSnapshot
  pub after : DeviceSnapshot

-- The code's own limits; temperatures in half degrees.
pub record Capabilities : Type 0 where
  pub address : String
  pub modes : List String
  pub fan_percent_min : ℕ
  pub fan_percent_max : ℕ
  pub fan_percent_step : ℕ
  pub temperature_step_c : ℕ
  pub absolute_min_c : ℕ
  pub absolute_max_c : ℕ
