-- ===== src/Service/Commander/Concurrent.antt =====
-- service/commander.py: several commands under way on one commander, which has no lock. A task is
-- one call of the four commands, cut at its awaits; an event is an update of the reader or the next
-- stretch of one task, and does nothing where the task does not stand before such a stretch.
pub mod Tasks
mod Follow
pub mod Sent
pub mod Opened
pub mod Ends
pub mod Wire
pub mod Crossed
pub mod Alone
mod Planned
pub mod Sequential
use bedjet_local.Prelude.{
  ℕ, ◌+◌, Bool, true, false, not, Option, none, some, List, [], ◌∷◌, ◌++◌, ltb, if◌then◌else◌,
}
use bedjet_local.Protocol.Constants.{Bytes, CommandMode, StatusMode, command_uuid}
use bedjet_local.Protocol.Packets.{is_trustworthy}
use bedjet_local.Protocol.Encode
use bedjet_local.Protocol.Encode.{EncodeError, turn_off, snap_target_c, snap_fan_percent}
use bedjet_local.Python.Float.{Float, half}
use bedjet_local.Python.Result.{Result, ok, err, ◌>>=◌, map_err, require}
use bedjet_local.Prelude.Int.{ℤ, pos}
use bedjet_local.Device.State.{BedJetState, is_on}
use bedjet_local.Service.Reader.{Update}
use bedjet_local.Service.Commander.{
  Commander, Raised, refused, already_satisfied, write_failed, unverified, encode_error,
  assertion_error, no_status, untrusted_baseline, not_running, no_reported_bounds, mode_locked,
  no_expected_status, CommandResult, WriteOutcome, written, transport_error, look, Look, done,
  go_on, missing, result_of, state_of, is_unlocked, expected_status_for,
}
use bedjet_local.Service.Commander.Requests.{
  Request, off_request, mode_request, temperature_request, fan_request, mode_is, off_satisfied,
  target_is, fan_is,
}

-- What `_send_verified` is called with.
pub record Plan : Type 0 where
  pub payload : Bytes
  pub satisfied : BedJetState → Bool

-- `set_mode` raises before it waits for anything.
unfoldable pub opening : Request → Option Raised
opening (mode_request m) =
    if is_unlocked m
    then elim (expected_status_for m) [
      | none ↦ some (refused (no_expected_status m))
      | some _ ↦ none
    ]
    else some (refused (mode_locked m))
opening _ = none

unfoldable pub plan_mode : CommandMode → Option StatusMode → Result Raised Plan
plan_mode m none = err (refused (no_expected_status m))
plan_mode m (some expected) =
    ok (record { payload = Encode.set_mode m; satisfied = mode_is expected })

unfoldable pub plan_temperature : Float → Option ℕ → Option ℕ → Result Raised Plan
plan_temperature celsius (some low) (some high) =
    map_err encode_error (snap_target_c celsius) >>= λ rounded.
    map_err encode_error (Encode.set_temperature (half rounded) (some low) (some high))
    >>= λ payload. ok (record { payload = payload; satisfied = target_is rounded })
plan_temperature celsius _ _ = err (refused no_reported_bounds)

unfoldable pub plan_fan : ℤ → Result Raised Plan
plan_fan percent = map_err encode_error (snap_fan_percent percent) >>= λ snapped.
    map_err encode_error (Encode.set_fan_percent (pos snapped)) >>= λ payload.
    ok (record { payload = payload; satisfied = fan_is snapped })

-- What a command makes of the state it waited for, before `_send_verified` looks at it.
unfoldable pub plan : Request → Update → Result Raised Plan
plan off_request u = ok (record { payload = turn_off; satisfied = off_satisfied })
plan (mode_request m) u = plan_mode m (expected_status_for m)
plan (temperature_request celsius) u =
    if is_on u.0.power
    then plan_temperature celsius u.1.min_temp_c u.1.max_temp_c
    else err (refused not_running)
plan (fan_request percent) u =
    if is_on u.0.power then plan_fan percent else err (refused not_running)

-- Where a command stands: suspended in the wait for a state, in the write, or in the wait of the
-- loop. The `Bool` of a wait is whether the event has been set since it began. `ended` keeps, for
-- the record, what the command handed to `transport.write`.
pub data Stage : Type 0 where
  ready : Stage
  awaiting : Bool → Stage
  writing : Plan → Update → Stage
  settling : Bool → Plan → Update → (deadline : ℕ) → Stage
  ended : Option Bytes → Result Raised CommandResult → Stage

pub record Task : Type 0 where
  pub request : Request
  pub dry_run : Bool
  pub settle_timeout : ℕ
  pub stage : Stage

-- The head of the loop: another wait, or the end at the deadline. A wait that finds the event set
-- returns.
unfoldable pub settle : Plan → Update → (deadline now : ℕ) → Commander → Stage × Commander
settle p before deadline now c =
    if ltb now deadline
    then (settling c.updated p before deadline, c)
    else (ended (some p.payload) (err (unverified p.payload (state_of c.latest))), c)

unfoldable pub transmit : Plan → Update → Commander → Stage × Commander
transmit p before c = (
  writing p before,
  record c { updated = false; latest = none; writes = c.writes ++ (command_uuid, p.payload) ∷ [] },
)

-- From the state that the wait gave to the write.
unfoldable pub proceed : Bool → Update → Plan → Commander → Stage × Commander
proceed dry_run before p c =
    if not (is_trustworthy before.1)
    then (ended none (err (refused untrusted_baseline)), c)
    else if p.satisfied before.0
    then (ended none (err already_satisfied), c)
    else if dry_run
    then (ended none (ok (result_of before before p.payload)), c)
    else transmit p before c

unfoldable pub on_plan : Bool → Update → Result Raised Plan → Commander → Stage × Commander
on_plan dry_run before (ok p) c = proceed dry_run before p c
on_plan dry_run before (err e) c = (ended none (err e), c)

unfoldable pub on_baseline : Task → Update → Commander → Stage × Commander
on_baseline t before c = on_plan t.dry_run before (plan t.request before) c

unfoldable pub enter_wait : Task → Option Update → Commander → Stage × Commander
enter_wait t (some u) c = on_baseline t u c
enter_wait t none c = (awaiting false, record c { updated = false })

unfoldable pub begin_with : Task → Option Raised → Commander → Stage × Commander
begin_with t (some e) c = (ended none (err e), c)
begin_with t none c = enter_wait t c.latest c

-- The wait has returned: `assert self._latest is not None`.
unfoldable pub leave_wait : Task → Option Update → Commander → Stage × Commander
leave_wait t none c = (ended none (err assertion_error), c)
leave_wait t (some u) c = on_baseline t u c

unfoldable pub checked : Plan → Update → (deadline now : ℕ) → Look → Commander → Stage × Commander
checked p before deadline now (done u) c =
    (ended (some p.payload) (ok (result_of before u p.payload)), c)
checked p before deadline now go_on c = settle p before deadline now c
checked p before deadline now missing c = (ended (some p.payload) (err assertion_error), c)

abbrev pub poke : Commander → Commander
poke c = record c { pokes = c.pokes + 1 }

-- The stretches of a task, with the clock at the next test of the loop; behind the write the clock
-- is read for the deadline too.
pub data Move : Type 0 where
  begin : Move
  resumed timed_out : (now : ℕ) → Move
  write_ended : WriteOutcome → (written_at now : ℕ) → Move

unfoldable pub move : Task → Move → Stage → Commander → Stage × Commander
unfolding begin_with leave_wait settle checked
move t begin ready c = begin_with t (opening t.request) c
move t (resumed now) (awaiting true) c = leave_wait t c.latest c
move t (resumed now) (settling true p before deadline) c =
    checked p before deadline now (look p.satisfied c.latest) (record c { updated = false })
move t (timed_out now) (awaiting woken) c = (ended none (err (refused no_status)), c)
move t (timed_out now) (settling woken p before deadline) c = settle p before deadline now (poke c)
move t (write_ended transport_error written_at now) (writing p before) c =
    (ended (some p.payload) (err (write_failed p.payload)), c)
move t (write_ended written written_at now) (writing p before) c =
    settle p before (written_at + t.settle_timeout) now (poke c)
move t _ stage c = (stage, c)
