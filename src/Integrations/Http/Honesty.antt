-- ===== src/Integrations/Http/Honesty.antt =====
-- The status of a response tells what reached the device.
use bedjet_local.Prelude.{
  ℕ, ◌≡◌, refl, inl, inr, String, Bool, Option, none, some, List, [], ◌++◌, Bool-cases, arith,
}
use bedjet_local.Prelude.Int.{ℤ}
use bedjet_local.Python.Float.{Float}
use bedjet_local.Python.Result.{Result, ok, err, ◌>>=◌}
use bedjet_local.Protocol.Constants.{Bytes}
use bedjet_local.Service.Commander.{Commander}
use bedjet_local.Service.Commander.Outcomes.{Silent, Wrote}
use bedjet_local.Api.Service.{
  ApiError, unavailable, refused_request, unverified_write, uncaught, Call, Answer,
}
use bedjet_local.Api.Service.Audit.{ApiRequest, serve-IsSafe, sent_writes, IsTruthful}
use bedjet_local.Integrations.Http.Headers.{Text}
use bedjet_local.Service.Session.Tasks.{Event}
use bedjet_local.Api.Lease.{yield_link, resume_link, LinkAnswer}
use bedjet_local.Integrations.Http.{
  ServerConfig, Response, Content, outcome, current, limits, failure, alive, document, forbidden,
  unauthorized, invalid_request, refused, unavailable_now, unverified, unexpected, Request,
  Endpoint, health, contract, state, build_limits, off, mode, temperature, fan, yielding, resuming,
  Body, JsonValue, check_token, check_access, is_health,
}
use bedjet_local.Integrations.Http.Handlers.{
  Answered, Command, command_off, command_mode, command_temperature, command_fan, bool_at,
  number_of, mode_of, asked_seconds, percent_of, body_of, asked, failure_of, response_of,
  respond_link, run_asked, run_yield, run_command, handle, guarded, respond,
}

-- What a client may conclude from the content and the status of a response.
abbrev pub Concludes : Content → ℕ → Commander → Commander → Type 0
Concludes (outcome o) status c c' = (status ≡ 200) × (c'.writes ≡ c.writes ++ sent_writes o.sent)
Concludes (current s) status c c' = (status ≡ 200) × Silent c c'
Concludes (limits k) status c c' = (status ≡ 200) × Silent c c'
Concludes alive status c c' = (status ≡ 200) × Silent c c'
Concludes document status c c' = (status ≡ 200) × Silent c c'
Concludes (failure unexpected) status c c' = status ≡ 500
Concludes (failure unverified) status c c' =
    (status ≡ 502) × ((payload : Bytes) × Wrote payload c c')
Concludes (failure forbidden) status c c' = (status ≡ 403) × Silent c c'
Concludes (failure unauthorized) status c c' = (status ≡ 401) × Silent c c'
Concludes (failure invalid_request) status c c' = (status ≡ 400) × Silent c c'
Concludes (failure refused) status c c' = (status ≡ 409) × Silent c c'
Concludes (failure unavailable_now) status c c' = (status ≡ 503) × Silent c c'

abbrev pub Says : Commander → Response → Commander → Type 0
Says c r c' = Concludes r.content r.status c c'

-- What the session was asked, beside a response: nothing, unless the link's state is the answer.
abbrev IsAsked : Content → List Event → Type 0
IsAsked (current s) events = Unit {0}
IsAsked _ events = events ≡ []

abbrev pub Tells : Commander → Answered → Type 0
Tells c x = Says c x.0 x.1 × IsAsked x.0.content x.2

failure_of-Says :
    (dry_run : Bool) (c c' : Commander) (e : ApiError)
    → IsTruthful dry_run c (err e, c')
    → Tells c (failure_of e, c', [])
unfolding failure_of
failure_of-Says dry_run c c' (unavailable link left) h = ((refl, h), refl)
failure_of-Says dry_run c c' (refused_request why) h = ((refl, h), refl)
failure_of-Says dry_run c c' (unverified_write payload) h = ((refl, (payload, h.1)), refl)
failure_of-Says dry_run c c' (uncaught e) h = (refl, refl)

response_of-Tells :
    (dry_run : Bool) (c : Commander) (x : Answer)
    → IsTruthful dry_run c x
    → Tells c (response_of x.0, x.1, [])
unfolding response_of
response_of-Tells dry_run c (ok o, c') h = ((refl, h.2), refl)
response_of-Tells dry_run c (err e, c') h = failure_of-Says dry_run c c' e h

-- How a request about the link ends: a refusal asks the session for nothing.
abbrev IsLinkAnswer : LinkAnswer → Type 0
IsLinkAnswer (ok s, events) = Unit {0}
IsLinkAnswer (err (refused_request why), events) = events ≡ []
IsLinkAnswer (err _, events) = ⊥

yield-IsLinkAnswer : (rate : ℕ) (call : Call) (x : Float) → IsLinkAnswer (yield_link rate call x)
unfolding yield_link
yield-IsLinkAnswer rate call x = ground arith

module _ (c : Commander) where
  -- A complaint about the body, made before anything is sent.
  abbrev Complains : {A : Type 0} → Result Response A → Type 0
  Complains (ok a) = Unit {0}
  Complains (err r) = Tells c (r, c, [])

  >>=-Complains :
      {A B : Type 0} (x : Result Response A) (f : A → Result Response B)
      → Complains x
      → ((a : A) → Complains (f a))
      → Complains (x >>= f)
  >>=-Complains (ok a) f x h = h a
  >>=-Complains (err r) f x h = x

  bool_at-Complains :
      (value : String → Option JsonValue) (key : String) → Complains (bool_at value key)
  unfolding bool_at
  bool_at-Complains value key = ground arith

  number_of-Complains :
      (float_of : ℤ → Option Float) (v : Option JsonValue) → Complains (number_of float_of v)
  unfolding number_of
  number_of-Complains float_of v = ground arith

  mode_of-Complains : (v : Option JsonValue) → Complains (mode_of v)
  unfolding mode_of
  mode_of-Complains v = ground arith

  percent_of-Complains : (x : Option Float) → Complains (percent_of x)
  unfolding percent_of
  percent_of-Complains x = ground arith

  body_of-Complains : (body : Body) → Complains (body_of body)
  unfolding body_of
  body_of-Complains body = ground arith

  asked-Complains :
      (float_of : ℤ → Option Float) (command : Command) (value : String → Option JsonValue)
      → Complains (asked float_of command value)
  unfolding asked
  asked-Complains float_of command_off value =
      >>=-Complains (bool_at value "dry_run") _ (bool_at-Complains value "dry_run") λ dry_run. tt
  asked-Complains float_of command_mode value =
      >>=-Complains (mode_of (value "mode")) _ (mode_of-Complains (value "mode")) λ name.
        >>=-Complains (bool_at value "dry_run") _ (bool_at-Complains value "dry_run") λ dry_run. tt
  asked-Complains float_of command_temperature value =
      >>=-Complains (number_of float_of (value "celsius")) _ (number_of-Complains float_of _) λ x.
        >>=-Complains (number_of float_of (value "fahrenheit")) _ (number_of-Complains float_of _)
          λ y.
            >>=-Complains (bool_at value "dry_run") _ (bool_at-Complains value "dry_run")
              λ dry_run. tt
  asked-Complains float_of command_fan value =
      >>=-Complains (number_of float_of (value "percent")) _ (number_of-Complains float_of _) λ x.
        >>=-Complains (percent_of x) _ (percent_of-Complains x) λ percent.
          >>=-Complains (bool_at value "dry_run") _ (bool_at-Complains value "dry_run")
            λ dry_run. tt

  seconds-Complains :
      (float_of : ℤ → Option Float) (value : String → Option JsonValue)
      → Complains (asked_seconds float_of value)
  unfolding asked_seconds
  seconds-Complains float_of value =
      >>=-Complains (number_of float_of (value "seconds")) _ (number_of-Complains float_of _)
        λ x. ground arith

  respond_link-Tells : (x : LinkAnswer) → IsLinkAnswer x → Tells c (respond_link x c)
  unfolding respond_link failure_of
  respond_link-Tells (ok s, events) h = ((refl, refl), tt)
  respond_link-Tells (err (refused_request why), events) h = ((refl, refl), h)
  respond_link-Tells (err (unavailable link left), events) h = absurd h
  respond_link-Tells (err (unverified_write payload), events) h = absurd h
  respond_link-Tells (err (uncaught e), events) h = absurd h

  -- A refusal of the guard.
  abbrev IsRefusal : Option Response → Type 0
  IsRefusal none = Unit {0}
  IsRefusal (some r) = Tells c (r, c, [])

  check_token-IsRefusal :
      (token authorization : Option Text) → IsRefusal (check_token token authorization)
  unfolding check_token
  check_token-IsRefusal token authorization = ground arith

module _ (strip lower : Text → Text) (ip_loopback : Text → Option Bool)
    (float_of : ℤ → Option Float) (rate : ℕ) (strip_upper lower_name : String → String)
    (to_celsius : Float → Float) where
  check_access-IsRefusal :
      (config : ServerConfig) (request : Request) (c : Commander)
      → IsRefusal c (check_access strip lower ip_loopback config request)
  unfolding check_access
  check_access-IsRefusal config request c =
      ground (arith, check_token-IsRefusal c config.token request.authorization)

  run_asked-Tells :
      (call : Call) (x : Result Response (ApiRequest × Bool)) (c : Commander)
      → Complains c x
      → Tells c (run_asked float_of rate strip_upper lower_name to_celsius call x c)
  unfolding run_asked
  run_asked-Tells call (err r) c h = h
  run_asked-Tells call (ok (request, dry_run)) c h =
      response_of-Tells dry_run c _
        (serve-IsSafe strip_upper lower_name to_celsius call request dry_run c).0

  run_command-Tells :
      (call : Call) (command : Command) (body : Body) (c : Commander)
      → Tells c (run_command float_of rate strip_upper lower_name to_celsius call command body c)
  unfolding run_command
  run_command-Tells call command body c = run_asked-Tells call _ c (
      >>=-Complains c (body_of body) _ (body_of-Complains c body)
        (asked-Complains c float_of command))

  run_yield-Tells :
      (call : Call) (x : Result Response Float) (c : Commander)
      → Complains c x
      → Tells c (run_yield float_of rate strip_upper lower_name to_celsius call x c)
  unfolding run_yield
  run_yield-Tells call (err r) c h = h
  run_yield-Tells call (ok seconds) c h =
      respond_link-Tells c _ (yield-IsLinkAnswer rate call seconds)

  handle-Tells :
      (call : Call) (endpoint : Endpoint) (body : Body) (c : Commander)
      → Tells c (handle float_of rate strip_upper lower_name to_celsius call endpoint body c)
  unfolding handle resume_link respond_link
  handle-Tells call health body c = ((refl, refl), refl)
  handle-Tells call contract body c = ((refl, refl), refl)
  handle-Tells call state body c = ((refl, refl), tt)
  handle-Tells call build_limits body c = ((refl, refl), refl)
  handle-Tells call off body c = run_command-Tells call command_off body c
  handle-Tells call mode body c = run_command-Tells call command_mode body c
  handle-Tells call temperature body c = run_command-Tells call command_temperature body c
  handle-Tells call fan body c = run_command-Tells call command_fan body c
  handle-Tells call yielding body c =
      run_yield-Tells call _ c
        (>>=-Complains c (body_of body) _ (body_of-Complains c body) (seconds-Complains c float_of))
  handle-Tells call resuming body c = ((refl, refl), tt)

  guarded-Tells :
      (access : Option Response) (call : Call) (request : Request) (c : Commander)
      → IsRefusal c access
      → Tells c (guarded float_of rate strip_upper lower_name to_celsius access call request c)
  unfolding guarded
  guarded-Tells none call request c h = handle-Tells call request.endpoint request.body c
  guarded-Tells (some r) call request c h = h

  -- For any request to any route but the websocket, the response tells what reached the device. An
  -- outcome, with status 200, names in `sent` all that was written, and any other 200 is of a route
  -- that wrote nothing. With 400, 401, 403, 409 and 503 nothing was written; with 502 one command
  -- was written, without a confirmation. Every other end is a 500. The session is asked to yield or
  -- resume the link only where a snapshot is the answer.
  pub respond-Tells :
      (config : ServerConfig) (call : Call) (request : Request) (c : Commander)
      → Tells c (
          respond float_of rate strip_upper lower_name to_celsius strip lower ip_loopback config
            call request c)
  unfolding respond
  respond-Tells config call request c = elim (Bool-cases (is_health request.endpoint)) [
    | inl free ↦ rw free (handle-Tells call request.endpoint request.body c)
    | inr gated ↦
        rw gated (guarded-Tells _ call request c (check_access-IsRefusal config request c))
  ]
