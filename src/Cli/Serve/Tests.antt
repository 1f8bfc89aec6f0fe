-- ===== src/Cli/Serve/Tests.antt =====
-- An evening of the two daemons.
use bedjet_local.Prelude.{true, none, []}
use bedjet_local.Integrations.Http.Headers.{codes}
use bedjet_local.Cli.Daemon.{returns}
use bedjet_local.Cli.Serve.{Arguments, Surroundings, signalled}

abbrev asked_for : Arguments
asked_for = record {
  address = "AA:BB";
  force = true;
  host = codes "127.0.0.1";
  token = none;
  allow_host = [];
}

abbrev quiet : Surroundings
quiet = record {
  registry = none;
  installed = true;
  environment_token = none;
  session_started = true;
  listening = true;
  waited = signalled;
  cleanup = returns 100;
  session_stop = returns 300;
}
