-- ===== src/Api/Tests.antt =====
-- A request of an adapter to a cooling unit, and the theorem about the API at it.
use bedjet_local.Prelude.{String, false, true}
use bedjet_local.Python.Float.{Float}
use bedjet_local.Service.Commander
use bedjet_local.Service.Session
use bedjet_local.Service.Session.{Session, connected}
use bedjet_local.Service.Tests.{obeying}
use bedjet_local.Api.Service.{Call}
use bedjet_local.Api.Service.Audit.{ask_off, serve, IsSafe, serve-IsSafe}

abbrev linked : Session
linked = record (Session.new 120) { link = connected; transport_up = true; reader_running = true }

abbrev pub evening_call : Call
evening_call = record {
  address = "aa";
  session = linked;
  now = 100;
  env = obeying;
  session_after = linked;
  now_after = 103;
}

serve-IsSafe_example :
    IsSafe evening_call false Commander.new (
      serve
        (λ (s : String). s)
        (λ s. s)
        (λ (x : Float). x)
        evening_call
        ask_off
        false
        Commander.new)
serve-IsSafe_example =
    serve-IsSafe (λ s. s) (λ s. s) (λ x. x) evening_call ask_off false Commander.new
