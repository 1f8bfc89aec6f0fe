-- ===== src/Api/Service.antt =====
-- api/service.py: `BedJetAPI`, the commands as the adapters ask for them, and the one place where
-- the ways for a command to end are translated.
pub mod Audit
use text.Mathlib.Text.{◌==◌}
use bedjet_local.Prelude.{
  ℕ, String, Bool, true, false, not, Option, none, some, List, [], ◌∷◌, if◌then◌else◌,
}
use bedjet_local.Prelude.Int.{ℤ, pos}
use bedjet_local.Python.Float.{Float, half}
use bedjet_local.Python.Result.{Result, ok, err}
use bedjet_local.Protocol.Constants.{
  Bytes, CommandMode, fan_percent_step, absolute_min_half_c, absolute_max_half_c,
}
use bedjet_local.Protocol.Encode.{
  fan_percent_min, fan_percent_max, EncodeError, is_command_error, snap_target_c, snap_fan_percent,
}
use bedjet_local.Service.Commander.{
  Commander, Env, CommandResult, Refusal, Raised, refused, already_satisfied, write_failed,
  unverified, encode_error, assertion_error, still_waiting, is_unlocked,
}
use bedjet_local.Service.Commander.Requests.{
  Request, off_request, mode_request, temperature_request, fan_request, execute,
}
use bedjet_local.Service.Session.{
  Session, LinkState, connected, link_eq, snapshot, Duration, Deadline, yield_remaining_s,
  deadline_of,
}
use bedjet_local.Api.Models.{
  DeviceSnapshot, CommandOutcome, Description, called_off, called_mode, called_target, called_fan,
  already, verified_as, would_send, from_session, Capabilities,
}

pub data Reason : Type 0 where
  unknown_mode mode_is_locked one_unit_wanted no_duration : Reason
  by_commander : Refusal → Reason
  by_encoder : EncodeError → Reason

-- `ApiError`; `uncaught` is what the translation lets through.
pub data ApiError : Type 0 where
  unavailable : LinkState → Option Deadline → ApiError
  refused_request : Reason → ApiError
  unverified_write : Bytes → ApiError
  uncaught : Raised → ApiError

-- `except encode.CommandError`: a failed conversion of a float is none.
unfoldable pub encoding_failed : EncodeError → ApiError
encoding_failed e =
    if is_command_error e then refused_request (by_encoder e) else uncaught (encode_error e)

-- The session when a command is called and when it ends, each with the clock, and what the
-- commander meets in between.
pub record Call : Type 0 where
  pub address : String
  pub session : Session
  pub now : ℕ
  pub env : Env
  pub session_after : Session
  pub now_after : ℕ

abbrev pub Answer : Type 0
Answer = Result ApiError CommandOutcome × Commander

-- `_command` from the end of its call on.
unfoldable pub translate :
    Call → Description → Bool → Result Raised CommandResult × Commander → Answer
unfolding encoding_failed
translate call description dry_run (ok r, c) = (
  ok (record {
    ok_flag = true;
    changed = not dry_run;
    detail = if dry_run then would_send r.payload description else verified_as description;
    sent = if dry_run then none else some r.payload;
    dry_run = dry_run;
    before = from_session (snapshot call.now call.session);
    after = from_session (snapshot call.now_after call.session_after);
  }),
  c,
)
translate call description dry_run (err already_satisfied, c) = (
  ok (record {
    ok_flag = true;
    changed = false;
    detail = already description;
    sent = none;
    dry_run = dry_run;
    before = from_session (snapshot call.now call.session);
    after = from_session (snapshot call.now_after call.session_after);
  }),
  c,
)
translate call description dry_run (err (refused why), c) =
    (err (refused_request (by_commander why)), c)
translate call description dry_run (err (encode_error e), c) = (err (encoding_failed e), c)
translate call description dry_run (err (unverified payload _), c) =
    (err (unverified_write payload), c)
translate call description dry_run (err (write_failed payload), c) =
    (err (unverified_write payload), c)
translate call description dry_run (err assertion_error, c) = (err (uncaught assertion_error), c)
translate call description dry_run (err still_waiting, c) = (err (uncaught still_waiting), c)

-- `_command`
unfoldable pub command : Call → Description → Bool → Request → Commander → Answer
unfolding translate
command call description dry_run request c =
    if link_eq call.session.link connected
    then translate call description dry_run (execute request dry_run call.env c)
    else (err (unavailable call.session.link (yield_remaining_s call.now call.session)), c)

-- `CommandMode[name]`
unfoldable pub mode_named : String → Option CommandMode
mode_named name =
    if name == "OFF"
    then some CommandMode.off
    else if name == "COOL"
    then some CommandMode.cool
    else if name == "HEAT"
    then some CommandMode.heat
    else if name == "TURBO"
    then some CommandMode.turbo
    else if name == "DRY"
    then some CommandMode.dry
    else if name == "EXTENDED_HEAT"
    then some CommandMode.extended_heat
    else none

-- The members of `CommandMode` by their names in order, and `mode.name.lower()`.
abbrev pub sorted_modes : List CommandMode
sorted_modes =
    CommandMode.cool ∷ CommandMode.dry ∷ CommandMode.extended_heat ∷ CommandMode.heat
    ∷ CommandMode.off ∷ CommandMode.turbo ∷ []

unfoldable pub lower_name : CommandMode → String
lower_name CommandMode.cool = "cool"
lower_name CommandMode.dry = "dry"
lower_name CommandMode.extended_heat = "extended_heat"
lower_name CommandMode.heat = "heat"
lower_name CommandMode.off = "off"
lower_name CommandMode.turbo = "turbo"

unlocked_names : List CommandMode → List String
unfolding lower_name
unlocked_names [] = []
unlocked_names (m ∷ ms) =
    if is_unlocked m then lower_name m ∷ unlocked_names ms else unlocked_names ms

unfoldable pub available_modes : List String
unfolding unlocked_names
available_modes = unlocked_names sorted_modes

unfoldable pub capabilities : String → Capabilities
unfolding available_modes
capabilities address = record {
  address = address;
  modes = available_modes;
  fan_percent_min = fan_percent_min;
  fan_percent_max = fan_percent_max;
  fan_percent_step = fan_percent_step;
  temperature_step_c = 1;
  absolute_min_c = absolute_min_half_c;
  absolute_max_c = absolute_max_half_c;
}

unfoldable pub turn_off : Call → Bool → Commander → Answer
turn_off call dry_run c = command call called_off dry_run off_request c

-- `set_mode` with the mode of that name.
unfoldable pub set_known_mode : Call → String → Option CommandMode → Bool → Commander → Answer
set_known_mode call called none dry_run c = (err (refused_request unknown_mode), c)
set_known_mode call called (some m) dry_run c =
    if is_unlocked m
    then command call (called_mode called) dry_run (mode_request m) c
    else (err (refused_request mode_is_locked), c)

-- `strip_upper` is `str.strip` followed by `str.upper`, and `lower` is `str.lower`.
unfoldable pub set_mode :
    (strip_upper lower : String → String) → Call → String → Bool → Commander → Answer
unfolding mode_named set_known_mode
set_mode strip_upper lower call mode dry_run c =
    set_known_mode call (lower mode) (mode_named (strip_upper mode)) dry_run c

-- `set_temperature` of a snapped target.
unfoldable pub send_target : Call → Result EncodeError ℕ → Bool → Commander → Answer
unfolding encoding_failed
send_target call (ok snapped) dry_run c =
    command call (called_target snapped) dry_run (temperature_request (half snapped)) c
send_target call (err e) dry_run c = (err (encoding_failed e), c)

-- `to_celsius` is the float arithmetic `(fahrenheit - 32.0) * 5.0 / 9.0`.
unfoldable pub set_temperature :
    (to_celsius : Float → Float) → Call → Option Float → Option Float → Bool → Commander → Answer
unfolding send_target
set_temperature to_celsius call (some celsius) none dry_run c =
    send_target call (snap_target_c celsius) dry_run c
set_temperature to_celsius call none (some fahrenheit) dry_run c =
    send_target call (snap_target_c (to_celsius fahrenheit)) dry_run c
set_temperature to_celsius call _ _ dry_run c = (err (refused_request one_unit_wanted), c)

-- `set_fan` of a snapped percent.
unfoldable pub send_percent : Call → Result EncodeError ℕ → Bool → Commander → Answer
unfolding encoding_failed
send_percent call (ok snapped) dry_run c =
    command call (called_fan snapped) dry_run (fan_request (pos snapped)) c
send_percent call (err e) dry_run c = (err (encoding_failed e), c)

unfoldable pub set_fan : Call → ℤ → Bool → Commander → Answer
unfolding send_percent
set_fan call percent dry_run c = send_percent call (snap_fan_percent percent) dry_run c
