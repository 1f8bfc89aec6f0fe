-- ===== src/Protocol/Encode.antt =====
-- protocol/encode.py: the command encoders. A command is a list of bytes; `CommandError` carries
-- what its message prints. An integer argument is any Python int, a temperature any float.
pub mod Fan
pub mod Temperature
use bedjet_local.Prelude.{
  ℕ, ◌+◌, ◌-◌, ◌*◌, ◌%◌, Bool, true, false, ◌&&◌, ◌||◌, not, Option, none, some, List, [], ◌∷◌, leb,
  ltb, if◌then◌else◌,
}
use bedjet_local.Prelude.Int.{ℤ, pos, negsuc, pos_part, ltb_ℤ}
use bedjet_local.Protocol.Constants.{
  Bytes, CommandMode, command_mode_value, fan_step_min, fan_step_max, fan_percent_base,
  fan_percent_step, fan_step_to_percent,
}
use bedjet_local.Python.Float.{
  Float, half, double, round, round_half_even, half_le, le_half, ConversionError,
}
use bedjet_local.Python.Result.{Result, ok, err, ◌>>=◌, ◌>>◌, require, map_err}

-- `CommandError`, and the exceptions of `round` on a float that is no number.
pub data EncodeError : Type 0 where
  fan_step_outside : ℤ → EncodeError
  fan_percent_outside : ℤ → EncodeError
  target_unencodable : Float → EncodeError
  bounds_required : EncodeError
  target_outside_bounds : Float → ℕ → ℕ → EncodeError
  invalid_timer : ℤ → ℤ → EncodeError
  timer_too_long : ℤ → ℤ → ℕ → EncodeError
  conversion_error : ConversionError → EncodeError

-- Whether an exception is a `CommandError`: the conversion errors are not.
abbrev pub is_command_error : EncodeError → Bool
is_command_error (conversion_error _) = false
is_command_error _ = true

pub data Button : Type 0 where
  fan_up fan_down temp_up temp_down preset_m1 preset_m2 preset_m3 : Button

abbrev button_value : Button → ℕ
button_value fan_up = 0x10
button_value fan_down = 0x11
button_value temp_up = 0x12
button_value temp_down = 0x13
button_value preset_m1 = 0x20
button_value preset_m2 = 0x21
button_value preset_m3 = 0x22

abbrev pub opcode_button : ℕ
opcode_button = 0x01

abbrev pub opcode_timer : ℕ
opcode_timer = 0x02

abbrev pub opcode_temperature : ℕ
opcode_temperature = 0x03

abbrev pub opcode_fan : ℕ
opcode_fan = 0x07

-- `low <= x <= high` on integers.
abbrev in_range : ℕ → ℕ → ℤ → Bool
in_range low high (pos n) = leb low n && leb n high
in_range low high (negsuc n) = false

unfoldable pub set_mode : CommandMode → Bytes
set_mode m = opcode_button ∷ command_mode_value m ∷ []

unfoldable pub turn_off : Bytes
unfolding set_mode
turn_off = set_mode CommandMode.off

unfoldable pub press : Button → Bytes
press button = opcode_button ∷ button_value button ∷ []

unfoldable pub set_fan_step : ℤ → Result EncodeError Bytes
set_fan_step step = do
  require (in_range fan_step_min fan_step_max step) (fan_step_outside step)
  ok (opcode_fan ∷ pos_part step ∷ [])

abbrev pub fan_percent_min : ℕ
fan_percent_min = fan_percent_base

abbrev pub fan_percent_max : ℕ
fan_percent_max = fan_percent_base + fan_step_max * fan_percent_step

-- `_check_fan_percent`
unfoldable pub check_fan_percent : ℤ → Result EncodeError (Unit {0})
check_fan_percent percent =
    require (in_range fan_percent_min fan_percent_max percent) (fan_percent_outside percent)

-- `_fan_percent_to_step`, which is called on a checked percent, at least 5. The quotient by 5 is
-- never halfway between two integers, so the float division rounds as the exact one does.
unfoldable pub fan_percent_to_step : ℤ → ℕ
fan_percent_to_step percent = round_half_even (pos_part percent - fan_percent_min) fan_percent_step

unfoldable pub snap_fan_percent : ℤ → Result EncodeError ℕ
unfolding check_fan_percent fan_step_to_percent
snap_fan_percent percent = do
  check_fan_percent percent
  ok (fan_step_to_percent (fan_percent_to_step percent))

unfoldable pub set_fan_percent : ℤ → Result EncodeError Bytes
unfolding check_fan_percent
set_fan_percent percent = do
  check_fan_percent percent
  set_fan_step (pos (fan_percent_to_step percent))

-- The byte of a rounded integer.
byte_of : Float → ℤ → Result EncodeError ℕ
byte_of celsius raw = do
  require (in_range 0 0xff raw) (target_unencodable celsius)
  ok (pos_part raw)

-- `_target_raw`
unfoldable pub target_raw : Float → Result EncodeError ℕ
unfolding byte_of
target_raw celsius = do raw ← map_err conversion_error (round (double celsius)); byte_of celsius raw

-- The snapped target in half degrees: `_target_raw(celsius) / TEMP_SCALE`.
unfoldable pub snap_target_c : Float → Result EncodeError ℕ
snap_target_c celsius = target_raw celsius

unfoldable pub set_temperature : Float → Option ℕ → Option ℕ → Result EncodeError Bytes
set_temperature celsius (some low) (some high) = do
  require (half_le low celsius && le_half celsius high) (target_outside_bounds celsius low high)
  raw ← target_raw celsius
  ok (opcode_temperature ∷ raw ∷ [])
set_temperature celsius _ _ = err bounds_required

-- `max_runtime_s is not None and hours * 3600 + minutes * 60 > max_runtime_s`, for checked numbers.
abbrev exceeds : ℕ → ℕ → Option ℕ → Bool
exceeds hours minutes none = false
exceeds hours minutes (some limit) = ltb limit (hours * 3600 + minutes * 60)

abbrev limit_of : Option ℕ → ℕ
limit_of none = 0
limit_of (some limit) = limit

unfoldable pub set_timer : ℤ → ℤ → Option ℕ → Result EncodeError Bytes
set_timer hours minutes max_runtime_s = do
  require (in_range 0 23 hours && in_range 0 59 minutes) (invalid_timer hours minutes)
  require (not (exceeds (pos_part hours) (pos_part minutes) max_runtime_s))
      (timer_too_long hours minutes (limit_of max_runtime_s))
  ok (opcode_timer ∷ pos_part hours ∷ pos_part minutes ∷ [])
