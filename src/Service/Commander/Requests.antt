-- ===== src/Service/Commander/Requests.antt =====
-- service/commander.py: the four commands on top of `_send_verified`.
use bedjet_local.Prelude.{ℕ, Bool, true, false, ◌||◌, not, Option, none, some, ◌==◌, if◌then◌else◌}
use bedjet_local.Prelude.Int.{ℤ, pos}
use bedjet_local.Protocol.Constants.{CommandMode, StatusMode, standby}
use bedjet_local.Protocol.Encode
use bedjet_local.Protocol.Encode.{EncodeError, turn_off, snap_target_c, snap_fan_percent}
use bedjet_local.Python.Float.{Float, half}
use bedjet_local.Python.Result.{Result, ok, err}
use bedjet_local.Device.State.{BedJetState, is_on, is_off}
use bedjet_local.Service.Commander.{
  Commander, Env, Raised, refused, encode_error, not_running, no_reported_bounds, mode_locked,
  no_expected_status, CommandResult, wait_for_state, send_verified, on_ok, is_unlocked,
  expected_status_for,
}

abbrev status_eq : StatusMode → StatusMode → Bool
status_eq standby standby = true
status_eq StatusMode.heat StatusMode.heat = true
status_eq StatusMode.turbo StatusMode.turbo = true
status_eq StatusMode.cool StatusMode.cool = true
status_eq StatusMode.dry StatusMode.dry = true
status_eq _ _ = false

-- `state.mode is expected`
unfoldable pub mode_is : StatusMode → BedJetState → Bool
mode_is expected s = elim s.mode [ none ↦ false | some m ↦ status_eq m expected ]

unfoldable pub off_satisfied : BedJetState → Bool
unfolding mode_is
off_satisfied s = mode_is standby s || is_off s.power

abbrev eq_number : Option ℕ → ℕ → Bool
eq_number none n = false
eq_number (some m) n = m == n

-- `state.target_temp_c == rounded`, in half degrees.
unfoldable pub target_is : ℕ → BedJetState → Bool
target_is rounded s = eq_number s.target_temp_c rounded

unfoldable pub fan_is : ℕ → BedJetState → Bool
fan_is percent s = eq_number s.fan_percent percent

abbrev pub on_encoded :
    {A B : Type 0}
    → Result EncodeError A
    → Commander
    → (A → Result Raised B × Commander)
    → Result Raised B × Commander
on_encoded (ok a) c f = f a
on_encoded (err e) c f = (err (encode_error e), c)

unfoldable pub send_off : Bool → Env → Commander → Result Raised CommandResult × Commander
send_off dry_run env c = send_verified turn_off off_satisfied dry_run env c

unfoldable pub send_mode :
    CommandMode
    → Option StatusMode
    → Bool
    → Env
    → Commander
    → Result Raised CommandResult × Commander
send_mode m none dry_run env c = (err (refused (no_expected_status m)), c)
send_mode m (some expected) dry_run env c =
    send_verified (Encode.set_mode m) (mode_is expected) dry_run env c

unfoldable pub set_mode :
    CommandMode → Bool → Env → Commander → Result Raised CommandResult × Commander
set_mode m dry_run env c =
    if is_unlocked m
    then send_mode m (expected_status_for m) dry_run env c
    else (err (refused (mode_locked m)), c)

-- `set_temperature` with the range that the current packet reports.
unfoldable pub send_temperature :
    Float → Option ℕ → Option ℕ → Bool → Env → Commander → Result Raised CommandResult × Commander
send_temperature celsius (some low) (some high) dry_run env c =
    on_encoded (snap_target_c celsius) c λ rounded.
      on_encoded (Encode.set_temperature (half rounded) (some low) (some high)) c
        λ payload. send_verified payload (target_is rounded) dry_run env c
send_temperature celsius _ _ dry_run env c = (err (refused no_reported_bounds), c)

unfoldable pub set_temperature :
    Float → Bool → Env → Commander → Result Raised CommandResult × Commander
set_temperature celsius dry_run env c = on_ok (wait_for_state env.heard_before c) λ before c'.
    if not (is_on before.0.power)
    then (err (refused not_running), c')
    else send_temperature celsius before.1.min_temp_c before.1.max_temp_c dry_run env c'

unfoldable pub send_fan : ℤ → Bool → Env → Commander → Result Raised CommandResult × Commander
send_fan percent dry_run env c = on_encoded (snap_fan_percent percent) c λ snapped.
    on_encoded (Encode.set_fan_percent (pos snapped)) c
      λ payload. send_verified payload (fan_is snapped) dry_run env c

unfoldable pub set_fan_percent :
    ℤ → Bool → Env → Commander → Result Raised CommandResult × Commander
set_fan_percent percent dry_run env c = on_ok (wait_for_state env.heard_before c) λ before c'.
    if not (is_on before.0.power)
    then (err (refused not_running), c')
    else send_fan percent dry_run env c'

-- The four commands as data.
pub data Request : Type 0 where
  off_request : Request
  mode_request : CommandMode → Request
  temperature_request : Float → Request
  fan_request : ℤ → Request

unfoldable pub execute : Request → Bool → Env → Commander → Result Raised CommandResult × Commander
execute off_request = send_off
execute (mode_request m) = set_mode m
execute (temperature_request celsius) = set_temperature celsius
execute (fan_request percent) = set_fan_percent percent
