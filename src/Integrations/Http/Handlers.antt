-- ===== src/Integrations/Http/Handlers.antt =====
-- integrations/http_ws.py: the handlers of the routes, from the body of a request to the response,
-- and the guard around them. `float_of` is `float` of an integer, and nothing for its OverflowError;
-- the clock has `rate` ticks a second.
use bedjet_local.Prelude.{ℕ, String, Bool, false, Option, none, some, List, [], if◌then◌else◌}
use bedjet_local.Prelude.Int.{ℤ}
use bedjet_local.Python.Float.{Float, truncate}
use bedjet_local.Python.Result.{Result, ok, err, ◌>>=◌}
use bedjet_local.Service.Commander.{Commander}
use bedjet_local.Service.Session.{snapshot}
use bedjet_local.Service.Session.Tasks.{Event}
use bedjet_local.Api.Models.{CommandOutcome, from_session}
use bedjet_local.Api.Service.{
  ApiError, unavailable, refused_request, unverified_write, uncaught, Call, capabilities,
}
use bedjet_local.Api.Lease.{yield_link, resume_link, LinkAnswer}
use bedjet_local.Api.Service.Audit.{ApiRequest, ask_off, ask_mode, ask_temperature, ask_fan, serve}
use bedjet_local.Integrations.Http.Headers.{Text}
use bedjet_local.Integrations.Http.{
  ServerConfig, Response, error, outcome, current, limits, alive, document, invalid_request,
  refused, unavailable_now, unverified, unexpected, JsonValue, null, compound, boolean, integer,
  floating, text, Body, no_body, malformed, not_an_object, object, Endpoint, health, contract,
  state, build_limits, off, mode, temperature, fan, yielding, resuming, Request, is_health,
  check_access,
}

-- `_bool` with its default.
unfoldable pub bool_at : (String → Option JsonValue) → String → Result Response Bool
bool_at value key = elim (value key) [
  | none ↦ ok false
  | some v ↦ elim v [
    | boolean b ↦ ok b
    | null ↦ err (error invalid_request 400)
    | compound ↦ err (error invalid_request 400)
    | integer n ↦ err (error invalid_request 400)
    | floating x ↦ err (error invalid_request 400)
    | text s ↦ err (error invalid_request 400)
  ]
]

-- `_body`
unfoldable pub body_of : Body → Result Response (String → Option JsonValue)
body_of no_body = ok (λ _. none)
body_of malformed = err (error invalid_request 400)
body_of not_an_object = err (error invalid_request 400)
body_of (object value) = ok value

-- The translation in `guard`, and the 500 of what it does not catch.
unfoldable pub failure_of : ApiError → Response
failure_of (unavailable link left) = error unavailable_now 503
failure_of (unverified_write payload) = error unverified 502
failure_of (refused_request why) = error refused 409
failure_of (uncaught e) = error unexpected 500

-- What the client is told of an answer of the API, with `_outcome`.
unfoldable pub response_of : Result ApiError CommandOutcome → Response
unfolding failure_of
response_of (ok o) = record { status = 200; content = outcome o }
response_of (err e) = failure_of e

-- `body.get("mode")`
unfoldable pub mode_of : Option JsonValue → Result Response String
mode_of (some (text s)) = ok s
mode_of _ = err (error invalid_request 400)

-- The percent that is required, and `int(percent)`, whose exceptions nothing catches.
unfoldable pub percent_of : Option Float → Result Response ℤ
percent_of none = err (error invalid_request 400)
percent_of (some x) = elim (truncate x) [ ok n ↦ ok n | err e ↦ err (error unexpected 500) ]

-- The routes of commands.
pub data Command : Type 0 where
  command_off command_mode command_temperature command_fan : Command

-- The seconds that are required.
abbrev pub seconds_of : Option Float → Result Response Float
seconds_of none = err (error invalid_request 400)
seconds_of (some x) = ok x

module _ (float_of : ℤ → Option Float) where
  -- `_number` of a value.
  unfoldable pub number_of : Option JsonValue → Result Response (Option Float)
  number_of none = ok none
  number_of (some null) = ok none
  number_of (some (floating x)) = ok (some x)
  number_of (some (integer n)) = elim (float_of n) [
    | none ↦ err (error unexpected 500)
    | some x ↦ ok (some x)
  ]
  number_of (some (boolean b)) = err (error invalid_request 400)
  number_of (some compound) = err (error invalid_request 400)
  number_of (some (text s)) = err (error invalid_request 400)

  -- What a command handler asks of the API, in the order in which it reads the body.
  unfoldable pub asked : Command → (String → Option JsonValue) → Result Response (ApiRequest × Bool)
  unfolding bool_at number_of mode_of percent_of
  asked command_off value = do dry_run ← bool_at value "dry_run"; ok (ask_off, dry_run)
  asked command_mode value = do
    name ← mode_of (value "mode")
    dry_run ← bool_at value "dry_run"
    ok (ask_mode name, dry_run)
  asked command_temperature value = do
    celsius ← number_of (value "celsius")
    fahrenheit ← number_of (value "fahrenheit")
    dry_run ← bool_at value "dry_run"
    ok (ask_temperature celsius fahrenheit, dry_run)
  asked command_fan value = do
    number ← number_of (value "percent")
    percent ← percent_of number
    dry_run ← bool_at value "dry_run"
    ok (ask_fan percent, dry_run)

  -- The seconds of a yield.
  unfoldable pub asked_seconds : (String → Option JsonValue) → Result Response Float
  unfolding number_of
  asked_seconds value = do number ← number_of (value "seconds"); seconds_of number

-- The commander afterwards, and what the session was asked.
abbrev pub Answered : Type 0
Answered = Response × Commander × List Event

-- `_json` of a snapshot.
unfoldable pub respond_link : LinkAnswer → Commander → Answered
unfolding failure_of
respond_link (ok s, events) c = (record { status = 200; content = current s }, c, events)
respond_link (err e, events) c = (failure_of e, c, events)

module _ (float_of : ℤ → Option Float) (rate : ℕ) (strip_upper lower_name : String → String)
    (to_celsius : Float → Float) where
  -- The call of the API, and `_outcome` or the translation of its error.
  unfoldable pub run_asked : Call → Result Response (ApiRequest × Bool) → Commander → Answered
  unfolding response_of
  run_asked call (err r) c = (r, c, [])
  run_asked call (ok (request, dry_run)) c =
      let answer = serve strip_upper lower_name to_celsius call request dry_run c in
      (response_of answer.0, answer.1, [])

  unfoldable pub run_yield : Call → Result Response Float → Commander → Answered
  unfolding respond_link
  run_yield call (err r) c = (r, c, [])
  run_yield call (ok seconds) c = respond_link (yield_link rate call seconds) c

  unfoldable pub run_command : Call → Command → Body → Commander → Answered
  unfolding run_asked body_of asked
  run_command call command body c = run_asked call (body_of body >>= asked float_of command) c

  -- The handler of a route.
  unfoldable pub handle : Call → Endpoint → Body → Commander → Answered
  unfolding run_command run_yield body_of asked_seconds respond_link
  handle call health body c = (record { status = 200; content = alive }, c, [])
  handle call contract body c = (record { status = 200; content = document }, c, [])
  handle call state body c = (
    record { status = 200; content = current (from_session (snapshot call.now call.session)) },
    c,
    [],
  )
  handle call build_limits body c =
      (record { status = 200; content = limits (capabilities call.address) }, c, [])
  handle call off body c = run_command call command_off body c
  handle call mode body c = run_command call command_mode body c
  handle call temperature body c = run_command call command_temperature body c
  handle call fan body c = run_command call command_fan body c
  handle call yielding body c = run_yield call (body_of body >>= asked_seconds float_of) c
  handle call resuming body c = respond_link (resume_link call) c

  -- `guard` around the handler: `none` is a request that passed.
  unfoldable pub guarded : Option Response → Call → Request → Commander → Answered
  unfolding handle
  guarded (some refusal) call request c = (refusal, c, [])
  guarded none call request c = handle call request.endpoint request.body c

  unfoldable pub respond :
      (strip lower : Text → Text)
      → (Text → Option Bool)
      → ServerConfig
      → Call
      → Request
      → Commander
      → Answered
  unfolding guarded check_access
  respond strip lower ip_loopback config call request c =
      if is_health request.endpoint
      then handle call request.endpoint request.body c
      else guarded (check_access strip lower ip_loopback config request) call request c
