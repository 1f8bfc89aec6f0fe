-- ===== src/Protocol/Constants.antt =====
-- protocol/constants.py: the identifiers of the GATT layout, the byte offsets of a status packet,
-- the two mode enumerations, the scalings and the checksum.
--
-- A byte is a number below 256, a packet a list of them. A temperature that comes off the wire is
-- a multiple of half a degree, which a Python float holds exactly: it is kept as the number of
-- half degrees (`TEMP_SCALE` is 2.0), so `temp_byte_to_c` is the identity on that number and a
-- bound such as `ABSOLUTE_MIN_C` is twice its value in degrees.
pub mod Laws
use bedjet_local.Prelude.{
  ℕ, ◌+◌, ◌*◌, ◌-◌, ◌%◌, ◌<◌, String, Bool, true, false, ◌&&◌, not, Option, none, some, List, [],
  ◌∷◌, All, ◌==◌, if◌then◌else◌,
}

abbrev pub Bytes : Type 0
Bytes = List ℕ

abbrev pub IsBytes : Bytes → Type 0
IsBytes = All (λ b. b < 256)

abbrev pub service_uuid : String
service_uuid = "00001000-bed0-0080-aa55-4265644a6574"

abbrev pub status_uuid : String
status_uuid = "00002000-bed0-0080-aa55-4265644a6574"

abbrev pub command_uuid : String
command_uuid = "00002004-bed0-0080-aa55-4265644a6574"

pub data Offset : Type 0 where
  is_partial packet_format payload_length packet_type : Offset
  time_hours time_minutes time_seconds actual_temp target_temp mode fan_step : Offset
  max_runtime_hours max_runtime_minutes min_temp max_temp turbo_elapsed ambient_temp : Offset
  shutdown_reason update_phase flags sequence_step notify_code : Offset

abbrev pub offset_value : Offset → ℕ
offset_value is_partial = 0
offset_value packet_format = 1
offset_value payload_length = 2
offset_value packet_type = 3
offset_value time_hours = 4
offset_value time_minutes = 5
offset_value time_seconds = 6
offset_value actual_temp = 7
offset_value target_temp = 8
offset_value mode = 9
offset_value fan_step = 10
offset_value max_runtime_hours = 11
offset_value max_runtime_minutes = 12
offset_value min_temp = 13
offset_value max_temp = 14
offset_value turbo_elapsed = 15
offset_value ambient_temp = 17
offset_value shutdown_reason = 18
offset_value update_phase = 26
offset_value flags = 27
offset_value sequence_step = 28
offset_value notify_code = 29

abbrev pub header_length : ℕ
header_length = 4

-- `range(19, 26)`.
abbrev pub unknown_region_start : ℕ
unknown_region_start = 19

abbrev pub unknown_region_stop : ℕ
unknown_region_stop = 26

abbrev pub min_status_length : ℕ
min_status_length = 11

abbrev pub packet_format_v3_home : ℕ
packet_format_v3_home = 0x56

abbrev pub packet_format_debug : ℕ
packet_format_debug = 0x05

-- The mode that a status packet reports.
pub data StatusMode : Type 0 where
  standby heat turbo cool dry : StatusMode

abbrev pub status_mode_value : StatusMode → ℕ
status_mode_value standby = 0x00
status_mode_value heat = 0x01
status_mode_value turbo = 0x02
status_mode_value cool = 0x04
status_mode_value dry = 0x05

-- `StatusMode(raw)`; `none` is its ValueError.
unfoldable pub status_mode : ℕ → Option StatusMode
status_mode raw =
    if raw == 0x00
    then some standby
    else if raw == 0x01
    then some heat
    else if raw == 0x02
    then some turbo
    else if raw == 0x04
    then some cool
    else if raw == 0x05
    then some dry
    else none

-- The mode operand of a command, another enumeration.
pub data CommandMode : Type 0 where
  off cool heat turbo dry extended_heat : CommandMode

abbrev pub command_mode_value : CommandMode → ℕ
command_mode_value CommandMode.off = 0x01
command_mode_value CommandMode.cool = 0x02
command_mode_value CommandMode.heat = 0x03
command_mode_value CommandMode.turbo = 0x04
command_mode_value CommandMode.dry = 0x05
command_mode_value CommandMode.extended_heat = 0x06

pub StatusMode-discrete : Discrete StatusMode
StatusMode-discrete = hlevel

pub CommandMode-discrete : Discrete CommandMode
CommandMode-discrete = hlevel

-- 5.0 and 50.0 degrees, in half degrees.
abbrev pub absolute_min_half_c : ℕ
absolute_min_half_c = 10

abbrev pub absolute_max_half_c : ℕ
absolute_max_half_c = 100

abbrev pub fan_step_min : ℕ
fan_step_min = 0

abbrev pub fan_step_max : ℕ
fan_step_max = 19

abbrev pub fan_percent_base : ℕ
fan_percent_base = 5

abbrev pub fan_percent_step : ℕ
fan_percent_step = 5

unfoldable pub fan_step_to_percent : ℕ → ℕ
fan_step_to_percent step = fan_percent_base + fan_percent_step * step

-- Degrees Celsius of a temperature byte, in half degrees.
unfoldable pub temp_byte_to_c : ℕ → ℕ
temp_byte_to_c raw = raw

-- `sum(packet)`.
unfoldable pub sum : Bytes → ℕ
sum [] = 0
sum (b ∷ bs) = b + sum bs

-- `(-sum(body)) & 0xFF`: the residue of the negated sum.
unfoldable pub compute_checksum : Bytes → ℕ
unfolding sum
compute_checksum body = (256 - sum body % 256) % 256

abbrev pub is_empty : Bytes → Bool
is_empty [] = true
is_empty (_ ∷ _) = false

unfoldable pub verify_checksum : Bytes → Bool
unfolding sum
verify_checksum packet = not (is_empty packet) && (sum packet % 256 == 0)
