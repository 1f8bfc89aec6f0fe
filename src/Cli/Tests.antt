-- ===== src/Cli/Tests.antt =====
-- An evening at the command line with the scripted transport, and the theorem about it.
use bedjet_local.Prelude.{
  ◌≡◌, ◌↔◌, ◌∷◌, All, String, refl, true, false, none, some, List, [], ◌++◌, map,
}
use bedjet_local.Python.Float.{Float}
use bedjet_local.Service.Tests.{obeying}
use bedjet_local.Transport.Mock.{MockTransport, new, connect, disconnect, mock_transport}
use bedjet_local.Transport.Mock.Meets.{mock-IsTransport}
use bedjet_local.Cli.{behind_write, Left, exited, Arguments, Surroundings, off, run}
use bedjet_local.Protocol.Packets.{is_trustworthy}
use bedjet_local.Protocol.Decode.{decode_status}
use bedjet_local.Device.State.{from_status}
use bedjet_local.Service.Commander.{
  wait_for_state, deliver, send_verified, transmit, conclude, verify_loop,
}
use bedjet_local.Service.Commander.Requests.{execute, send_off, off_satisfied}
use bedjet_local.Service.Reader.{Update}
use bedjet_local.Cli.Watch.{new as new_watch, watch}
use bedjet_local.Cli.Watch.Transcript.{expand, copies, OnlyChanges, watch_transcript}
use bedjet_local.Device.Registry.{load}
use bedjet_local.Transport.Ble.{Answer, answered}
use bedjet_local.Transport.Ble.Scan.{Advertisement}
use bedjet_local.Cli.Discover.{discover}
use bedjet_local.Cli.Discover.Sightings.{Sighted, AllScanned}
use bedjet_local.Cli.Discover.Census.{discover_zero}
use bedjet_local.Cli.ExitCodes.{IsClear, run-IsClear}

abbrev arguments : Arguments
arguments = record { subcommand = off; address = "aa"; force = true; dry_run = false; yes = false }

abbrev surroundings : Surroundings mock_transport
surroundings = record {
  registry = none;
  connecting = tt;
  started = true;
  stopped = true;
  heard_at_start = [];
  heard_at_first = obeying.heard_before;
  typed = some "off";
  env = obeying;
  used = λ m. m;
  leaving = tt;
  saved = true;
  interrupt = none;
}

abbrev idle_mock : MockTransport
idle_mock = record (new [] 0) { connected = false }

run-IsClear_example :
    IsClear mock_transport mock-IsTransport
      (λ s. s)
      (λ s. s)
      (λ s. s)
      (λ x. x)
      arguments
      surroundings
      (run mock_transport
        (λ s. s)
        (λ s. s)
        (λ s. s)
        (λ (x : Float). x)
        arguments
        surroundings
        idle_mock)
run-IsClear_example =
    run-IsClear mock_transport mock-IsTransport (λ s. s) (λ s. s) (λ s. s) (λ x. x) arguments
      surroundings idle_mock (λ m. refl)

-- Ctrl-C while the device has not answered the command.
abbrev impatient : Surroundings mock_transport
impatient = record surroundings {
  env = record obeying { turns = [] };
  interrupt = some behind_write;
}

ctrl_c : Left mock_transport
ctrl_c =
    run mock_transport (λ s. s) (λ s. s) (λ s. s) (λ (x : Float). x) arguments impatient idle_mock

ctrl_c_exits : ctrl_c.exit ≡ exited 130
unfolding ctrl_c run new connect wait_for_state deliver execute send_off send_verified
    is_trustworthy decode_status off_satisfied from_status transmit conclude verify_loop disconnect
ctrl_c_exits = refl

-- Each packet of the evening arrives twice.
abbrev evening_packets : List Update
evening_packets = obeying.heard_before ++ obeying.heard_before

watch_transcript_example :
    (expand none (watch 0 evening_packets new_watch).printed
        ++ copies
            (watch 0 evening_packets new_watch).repeats
            (watch 0 evening_packets new_watch).last
      ≡ map (λ (u : Update). u.1.raw) evening_packets)
    × OnlyChanges none (watch 0 evening_packets new_watch).printed
watch_transcript_example = watch_transcript 0 evening_packets

abbrev bedroom : List (Answer (List Advertisement))
bedroom =
    answered (
      record {
        address = "AA";
        device_name = none;
        local_name = some "BEDJET_V3";
        rssi = none;
        service_uuids = [];
        manufacturer_data = [];
      }
      ∷ [])
    ∷ []

discover_zero_example : (discover (λ s. s) (λ s. s) none false bedroom ≡ exited 0) ↔ (
    AllScanned (λ s. s) (λ s. s) false bedroom
    × ((x : String) × Sighted (λ s. s) (λ s. s) false x bedroom)
    × All (λ k. Sighted (λ s. s) (λ s. s) false k.1.address bedroom) (load (λ s. s) none))
discover_zero_example = discover_zero (λ s. s) (λ s. s) false none bedroom
