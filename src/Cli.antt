-- ===== src/Cli.antt =====
-- cli.py: the commands that write to the device, `off`, `fan`, `mode` and `temp`, and `main`. What
-- is printed is left out. The transport is any that has the operations of `Transport`; `upper` is
-- `str.upper`, `strip` is `str.strip`, and `to_celsius` is the float arithmetic
-- `(value - 32) * 5 / 9`.

pub mod Bodies
pub mod Statuses
pub mod ExitCodes
pub mod Watch
pub mod Daemon
pub mod Serve
pub mod Signals
pub mod Identify
pub mod Discover
mod Tests
use text.Mathlib.Text.{◌==◌ as same_text}
use bedjet_local.Prelude.{
  ℕ, String, Bool, true, false, ◌&&◌, ◌||◌, not, Option, none, some, List, [], ◌∷◌, if◌then◌else◌,
}
use bedjet_local.Prelude.Int.{ℤ}
use bedjet_local.Python.Float.{Float}
use bedjet_local.Python.Result.{Result, ok, err}
use bedjet_local.Protocol.Encode.{EncodeError, is_command_error, snap_target_c, snap_fan_percent}
use bedjet_local.Device.Registry.{Entry, require_known}
use bedjet_local.Service.Reader.{Update}
use bedjet_local.Service.Commander
use bedjet_local.Service.Commander.{
  Commander, Env, CommandResult, Raised, refused, already_satisfied, write_failed, unverified,
  encode_error, assertion_error, still_waiting, deliver, wait_for_state,
}
use bedjet_local.Service.Commander.Requests.{
  Request, off_request, mode_request, temperature_request, fan_request, execute,
}
use bedjet_local.Api.Service.{mode_named}
use bedjet_local.Transport.Contract.{Transport, Raised as TransportRaised}

-- The subcommand with its own arguments.
pub data Subcommand : Type 0 where
  off : Subcommand
  fan : ℤ → Subcommand
  mode : String → Subcommand
  temp : Float → Bool → Subcommand

pub record Arguments : Type 0 where
  pub subcommand : Subcommand
  pub address : String
  pub force : Bool
  pub dry_run : Bool
  pub yes : Bool

-- Where Ctrl-C reaches a run: in `transport.connect`; before the write, in `commander.start` or in a
-- wait for the state; in the write or the verification; in `commander.stop`; in
-- `transport.disconnect`. It cancels the task there; where the stop of the reader swallows that, the
-- run goes on as if there had been none.
pub data Interrupt : Type 0 where
  at_connect before_write behind_write at_stop at_disconnect : Interrupt

abbrev pub is_interrupt : Interrupt → Option Interrupt → Bool
is_interrupt at_connect (some at_connect) = true
is_interrupt at_stop (some at_stop) = true
is_interrupt at_disconnect (some at_disconnect) = true
is_interrupt _ _ = false

-- What the surroundings do during a run.
pub record Surroundings (t : Transport) : Type 0 where
  -- the device registry, as parsed
  pub registry : Option (List Entry)
  pub connecting : t.Moment
  -- whether `commander.start` and `commander.stop` return
  pub started : Bool
  pub stopped : Bool
  pub heard_at_start : List Update
  pub heard_at_first : List Update
  -- what the operator types; `none` is the end of the input
  pub typed : Option String
  pub env : Env
  -- what the calls of the commander leave of the transport
  pub used : t.State → t.State
  pub leaving : t.Moment
  -- whether the file of `--save` is written, where one is asked for
  pub saved : Bool
  pub interrupt : Option Interrupt

-- How the body of a subcommand ends; `verified` goes on behind the release of the link, and
-- `running` is a verification whose rounds are not over. `cancelled` is the end by Ctrl-C.
pub data Ended : Type 0 where
  returned : ℕ → Ended
  verified raised running cancelled : Ended

-- The status of the process.
pub data Exit : Type 0 where
  exited : ℕ → Exit
  still_running : Exit

-- The word that confirms.
unfoldable pub confirmation : Request → String
confirmation off_request = "off"
confirmation (fan_request percent) = "fan"
confirmation (mode_request m) = "go"
confirmation (temperature_request celsius) = "go"

abbrev pub when_ok : {A : Type 0} → Result EncodeError A → Result EncodeError (Unit {0})
when_ok (ok a) = ok tt
when_ok (err e) = err e

-- What is computed to announce a command: the snapped target always, the snapped speed only where
-- the operator is asked.
unfoldable pub announce : Bool → Request → Result EncodeError (Unit {0})
announce asks (temperature_request celsius) = when_ok (snap_target_c celsius)
announce asks (fan_request percent) = if asks then when_ok (snap_fan_percent percent) else ok tt
announce asks _ = ok tt

-- `except encode.CommandError`, which only `cmd_temp` has.
abbrev pub catches_encoding : Request → Bool
catches_encoding (temperature_request celsius) = true
catches_encoding _ = false

unfoldable pub encoding_ended : Request → EncodeError → Ended
encoding_ended request e =
    if catches_encoding request && is_command_error e then returned 1 else raised

-- The `except` clauses.
unfoldable pub ended_by : Request → Raised → Ended
unfolding encoding_ended
ended_by request (refused why) = returned 1
ended_by request already_satisfied = returned 1
ended_by request (unverified payload state) = returned 2
ended_by request (write_failed payload) = returned 2
ended_by request (encode_error e) = encoding_ended request e
ended_by request assertion_error = raised
ended_by request still_waiting = running

unfoldable pub conclude :
    Request → Ended → Result Raised CommandResult × Commander → Ended × Commander
unfolding ended_by
conclude request success (ok r, c) = (success, c)
conclude request success (err e, c) = (ended_by request e, c)

module _ (strip : String → String) where
  -- `yes`, or the word was typed.
  unfoldable pub confirm : Bool → Request → Option String → Option Bool
  unfolding confirmation
  confirm true request typed = some true
  confirm false request none = none
  confirm false request (some line) = some (same_text (strip line) (confirmation request))

  -- From the dry run on.
  unfoldable pub proceed :
      Bool → Bool → Option String → Env → Request → Commander → Ended × Commander
  unfolding confirm conclude
  proceed true sure typed env request c = conclude request (returned 0) (execute request true env c)
  proceed false sure typed env request c = elim (confirm sure request typed) [
    | none ↦ (raised, c)
    | some agreed ↦
        if agreed then conclude request verified (execute request false env c) else (returned 1, c)
  ]

  -- The body of the `try`, behind `commander.start`.
  unfoldable pub attend :
      Arguments → List Update → Option String → Env → Request → Commander → Ended × Commander
  unfolding announce encoding_ended ended_by proceed
  attend args heard typed env request c =
      let (first, c1) = wait_for_state heard c in
      elim first [
        | err e ↦ (ended_by request e, c1)
        | ok before ↦ elim (announce (not args.dry_run && not args.yes) request) [
          | err e ↦ (encoding_ended request e, c1)
          | ok _ ↦ proceed args.dry_run args.yes typed env request c1
        ]
      ]

-- `CommandMode[args.mode.upper()]` and the Celsius value; the choices of the parser exclude the rest.
unfoldable pub request_of :
    (upper : String → String) → (to_celsius : Float → Float) → Subcommand → Option Request
request_of upper to_celsius off = some off_request
request_of upper to_celsius (fan percent) = some (fan_request percent)
request_of upper to_celsius (mode name) = elim (mode_named (upper name)) [
  | none ↦ none
  | some m ↦ some (mode_request m)
]
request_of upper to_celsius (temp value celsius) =
    some (temperature_request (if celsius then value else to_celsius value))

-- How a subcommand leaves the process, the commander and the transport.
pub record Left (t : Transport) : Type 0 where
  pub exit : Exit
  pub commander : Commander
  pub link : t.State

-- `main`: an exception is logged; `asyncio.run` turns the cancellation into a KeyboardInterrupt.
unfoldable pub exit_of : Ended → Exit
exit_of (returned n) = exited n
exit_of verified = exited 0
exit_of raised = exited 1
exit_of running = still_running
exit_of cancelled = exited 130

-- The body, when Ctrl-C comes in it: a wait hears `heard` until then.
unfoldable pub interrupted :
    Option Interrupt → List Update → Commander → Ended × Commander → Ended × Commander
interrupted (some before_write) heard c x = (cancelled, deliver heard c)
interrupted (some behind_write) heard c (running, c') = (cancelled, c')
interrupted _ heard c x = x

-- `if args.save`, which only `cmd_off` has.
unfoldable pub save : Bool → Ended → Request → Ended
save saved verified off_request = if saved then verified else raised
save saved ended request = ended

module _ (t : Transport) where
  -- The `finally`: an exception there takes the place of how the body ended.
  unfoldable pub disconnected :
      Result TransportRaised (Unit {0}) × t.State → Exit → Commander → Left t
  disconnected (ok _, link) exit c = record { exit = exit; commander = c; link = link }
  disconnected (err e, link) exit c = record { exit = exited 1; commander = c; link = link }

  -- Ctrl-C where no `finally` follows.
  unfoldable pub cut : Commander → t.State → Left t
  unfolding exit_of
  cut c link = record { exit = exit_of cancelled; commander = c; link = link }

  unfoldable pub close : Surroundings t → Exit → Commander → t.State → Left t
  unfolding disconnected cut
  close s exit c link =
      if is_interrupt at_stop s.interrupt
      then cut c link
      else if s.stopped
      then if is_interrupt at_disconnect s.interrupt
        then cut c link
        else disconnected (t.disconnect s.leaving link) exit c
      else record { exit = exited 1; commander = c; link = link }

  -- What follows the `finally` is reached by a verified command alone.
  unfoldable pub release : Surroundings t → Request → Ended → Commander → t.State → Left t
  unfolding exit_of save close
  release s request running c link = record { exit = still_running; commander = c; link = link }
  release s request ended c link = close s (exit_of (save s.saved ended request)) c link

  unfoldable pub failed : t.State → Left t
  unfolding Commander.new
  failed link = record { exit = exited 1; commander = Commander.new; link = link }

  module _ (lower upper strip : String → String) (to_celsius : Float → Float) (args : Arguments)
      (s : Surroundings t) where
    -- The `try` and its `finally`.
    unfoldable pub use_link : Request → t.State → Left t
    unfolding attend interrupted release Commander.new
    use_link request link =
        let c = deliver s.heard_at_start Commander.new in
        let body =
          if s.started
          then attend strip args s.heard_at_first s.typed s.env request c
          else (raised, c) in
        let x = interrupted s.interrupt s.heard_at_first c body in
        release s request x.0 x.1 (s.used link)

    unfoldable pub connect_and_use : Request → t.State → Left t
    unfolding use_link failed cut
    connect_and_use request link =
        let connected = t.connect s.connecting args.address link in
        if is_interrupt at_connect s.interrupt
        then cut Commander.new connected.1
        else elim connected.0 [ err e ↦ failed connected.1 | ok _ ↦ use_link request connected.1 ]

    -- `_check_ownership`: does the subcommand go on?
    unfoldable pub check_ownership : Bool
    check_ownership =
        args.force
        || elim (require_known lower args.address s.registry) [ ok known ↦ true | err e ↦ false ]

    -- `cmd_off`, `cmd_fan`, `cmd_mode` and `cmd_temp` under `main`, with a new transport.
    unfoldable pub run : t.State → Left t
    unfolding check_ownership failed request_of connect_and_use
    run link =
        if check_ownership
        then elim (request_of upper to_celsius args.subcommand) [
          | none ↦ failed link
          | some request ↦ connect_and_use request link
        ]
        else failed link
