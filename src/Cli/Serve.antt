-- ===== src/Cli/Serve.antt =====
-- cli.py: the daemons, `cmd_serve` and `cmd_mqtt` under `main`, as far as they decide what runs and
-- what is given back. `lower` is `str.lower` and `ip_loopback` is `ipaddress.ip_address`.
pub mod Ends
mod Tests
use bedjet_local.Prelude.{
  ℕ, String, Bool, true, false, ◌||◌, Option, none, some, List, [], ◌∷◌, ltb, if◌then◌else◌,
}
use bedjet_local.Python.Result.{Result, ok, err}
use bedjet_local.Device.Registry.{Entry, require_known}
use bedjet_local.Integrations.Http.Headers.{Text}
use bedjet_local.Integrations.Http.{ServerConfig, check_config}
use bedjet_local.Cli.{Exit, exited, still_running}
use bedjet_local.Cli.Daemon.{
  Closing, returns, times_out, raises, Shutdown, released, abandoned, failed, Release, release,
  shutdown_grace,
}

pub record Arguments : Type 0 where
  pub address : String
  pub force : Bool
  -- of `serve`
  pub host : Text
  pub token : Option Text
  pub allow_host : List Text

-- How the wait of a daemon ends: by SIGTERM or SIGINT, by an exception that it catches, or never.
pub data Wait : Type 0 where
  signalled interrupted never : Wait

-- What the surroundings do during a run: the registry, as parsed; whether the extra is installed;
-- the token of the environment; whether `session.start` and `serve` return; and how the two
-- steps of the shutdown would end.
pub record Surroundings : Type 0 where
  pub registry : Option (List Entry)
  pub installed : Bool
  pub environment_token : Option Text
  pub session_started : Bool
  pub listening : Bool
  pub waited : Wait
  pub cleanup : Closing
  pub session_stop : Closing

-- How a daemon leaves the process and the session. The session is asked to stop in the second step
-- of the shutdown, once the first has returned.
pub record Left : Type 0 where
  pub exit : Exit
  pub session_started : Bool
  pub stop_called : Bool
  pub shutdown : Option Shutdown

-- An end before the session has started.
unfoldable pub unstarted : Left
unstarted = record {
  exit = exited 1;
  session_started = false;
  stop_called = false;
  shutdown = none;
}

-- An exception behind the start of the session that no shutdown follows.
unfoldable pub deserted : Left
deserted = record { exit = exited 1; session_started = true; stop_called = false; shutdown = none }

unfoldable pub serving : Left
serving = record {
  exit = still_running;
  session_started = true;
  stop_called = false;
  shutdown = none;
}

-- An exception of `_release`, or the one that it was called under, is logged by `main`.
unfoldable pub status_after : Shutdown → (pending : Bool) → Exit
status_after failed pending = exited 1
status_after released pending = if pending then exited 1 else exited 0
status_after abandoned pending = if pending then exited 1 else exited 0

-- `_release` of a first step and `session.stop`, with an exception pending or not.
unfoldable pub shut_down : Closing → Closing → (pending : Bool) → Left
unfolding release status_after
shut_down first stop pending =
    let r = release shutdown_grace (first ∷ stop ∷ []) in
    record {
      exit = status_after r.shutdown pending;
      session_started = true;
      stop_called = elim (release shutdown_grace (first ∷ [])).shutdown [
        | released ↦ true
        | abandoned ↦ false
        | failed ↦ false
      ];
      shutdown = some r.shutdown;
    }

-- `args.token or os.environ.get("BEDJET_TOKEN")`
unfoldable pub token_of : Option Text → Option Text → Option Text
token_of none environment = environment
token_of (some []) environment = environment
token_of (some (c ∷ cs)) environment = some (c ∷ cs)

unfoldable pub config_of : Arguments → Surroundings → ServerConfig
unfolding token_of
config_of args s = record {
  host = args.host;
  token = token_of args.token s.environment_token;
  allowed_hosts = args.allow_host;
}

-- `_check_ownership`
unfoldable pub is_permitted : (lower : String → String) → Arguments → Surroundings → Bool
is_permitted lower args s =
    args.force
    || elim (require_known lower args.address s.registry) [ ok known ↦ true | err e ↦ false ]

-- `await stopping.wait()` and the `finally`.
unfoldable pub hold : Surroundings → Wait → Left
unfolding shut_down serving
hold s never = serving
hold s signalled = shut_down s.cleanup s.session_stop false
hold s interrupted = shut_down s.cleanup s.session_stop false

-- From `session.start` on.
unfoldable pub open_session : Surroundings → Left
unfolding hold deserted unstarted
open_session s =
    if s.session_started then if s.listening then hold s s.waited else deserted else unstarted

unfoldable pub serve :
    (lower : String → String) → (ip_loopback : Text → Option Bool) → Arguments → Surroundings → Left
unfolding is_permitted config_of open_session unstarted
serve lower ip_loopback args s =
    if is_permitted lower args s
    then if s.installed
      then elim (check_config ip_loopback (config_of args s)) [
        | err refused ↦ unstarted
        | ok _ ↦ open_session s
      ]
      else unstarted
    else unstarted

-- How the task of the bridge stands when the wait for it or for a signal ends. `raised` ended on
-- its own by an exception, which may be a TimeoutError; a `running` one is left to be cancelled,
-- and awaiting it ends as its `Closing` says.
pub data BridgeTask : Type 0 where
  running : Wait → Closing → BridgeTask
  raised : (timeout : Bool) → BridgeTask
  ended : BridgeTask

-- `_drain_bridge` of a task that has ended raises its exception once more.
unfoldable pub drain : BridgeTask → Closing
drain (running waited closing) = closing
drain (raised true) = times_out 0
drain (raised false) = raises 0
drain ended = returns 0

unfoldable pub hold_bridge : Surroundings → BridgeTask → Left
unfolding shut_down drain serving
hold_bridge s (running never closing) = serving
hold_bridge s (running signalled closing) =
    shut_down (drain (running signalled closing)) s.session_stop false
hold_bridge s (running interrupted closing) =
    shut_down (drain (running interrupted closing)) s.session_stop false
hold_bridge s (raised timeout) = shut_down (drain (raised timeout)) s.session_stop true
hold_bridge s ended = shut_down (drain ended) s.session_stop false

unfoldable pub mqtt : (lower : String → String) → Arguments → Surroundings → BridgeTask → Left
unfolding is_permitted hold_bridge unstarted
mqtt lower args s bridge =
    if is_permitted lower args s
    then if s.installed
      then if s.session_started then hold_bridge s bridge else unstarted
      else unstarted
    else unstarted
