-- ===== src/Integrations/Http.antt =====
-- integrations/http_ws.py: the configuration, the requests and the tests of the guard in front of
-- every route; `Handlers` has the routes over the API. A header is a list of code points; `strip` and `lower` are
-- `str.strip` and `str.lower`, and `ip_loopback` is `ipaddress.ip_address`, which gives whether the
-- address is a loopback one, or nothing for its ValueError. aiohttp has routed the request and
-- parsed its body. Texts of errors and of the contract's document are
-- left out; the websocket's queue is `Integrations.Outbox`.
pub mod Handlers
pub mod Access
pub mod Honesty
pub mod Declared
mod Tests
pub mod Headers
pub mod Sockets
use bedjet_local.Integrations.Http.Headers.{
  Text, codes, contains, hostname_of, behind, compare_digest,
}
use bedjet_local.Prelude.{
  ℕ, zero, suc, ◌+◌, String, Bool, true, false, ◌&&◌, ◌||◌, not, Option, none, some, is_some, List,
  [], ◌∷◌, ◌++◌, map, ltb, ◌==◌, length, if◌then◌else◌,
}
use bedjet_local.Prelude.Int.{ℤ}
use bedjet_local.Python.Float.{Float, truncate}
use bedjet_local.Python.Result.{Result, ok, err, ◌>>=◌}
use bedjet_local.Service.Commander.{Commander}
use bedjet_local.Api.Models.{CommandOutcome, DeviceSnapshot, Capabilities}
use bedjet_local.Api.Service.{
  ApiError, unavailable, refused_request, unverified_write, uncaught, Call, Answer,
}
use bedjet_local.Api.Service.Audit.{ApiRequest, ask_off, ask_mode, ask_temperature, ask_fan, serve}

pub record ServerConfig : Type 0 where
  pub host : Text
  pub token : Option Text
  pub allowed_hosts : List Text

pub data ConfigurationRefused : Type 0 where
  exposed_without_token token_too_short : ConfigurationRefused

-- `LOOPBACK_HOSTNAMES`
abbrev pub loopback_hostnames : List Text
loopback_hostnames = codes "localhost" ∷ codes "127.0.0.1" ∷ codes "::1" ∷ codes "[::1]" ∷ []

abbrev is_empty : Text → Bool
is_empty [] = true
is_empty (_ ∷ _) = false

pub data Failure : Type 0 where
  forbidden unauthorized invalid_request refused unavailable_now unverified unexpected : Failure

pub data Content : Type 0 where
  outcome : CommandOutcome → Content
  current : DeviceSnapshot → Content
  limits : Capabilities → Content
  failure : Failure → Content
  alive document : Content

pub record Response : Type 0 where
  pub status : ℕ
  pub content : Content

abbrev pub error : Failure → ℕ → Response
error kind status = record { status = status; content = failure kind }

-- A JSON value as far as the handlers look at it.
pub data JsonValue : Type 0 where
  null compound : JsonValue
  boolean : Bool → JsonValue
  integer : ℤ → JsonValue
  floating : Float → JsonValue
  text : String → JsonValue

-- What `_body` parses: nothing, what is not JSON, what is no object, and the value at a key.
pub data Body : Type 0 where
  no_body malformed not_an_object : Body
  object : (String → Option JsonValue) → Body

pub data Endpoint : Type 0 where
  health contract state build_limits off mode temperature fan yielding resuming : Endpoint

-- `ROUTES`
abbrev pub path_of : Endpoint → String
path_of health = "/healthz"
path_of contract = "/api/v1/contract"
path_of state = "/api/v1/state"
path_of build_limits = "/api/v1/capabilities"
path_of off = "/api/v1/command/off"
path_of mode = "/api/v1/command/mode"
path_of temperature = "/api/v1/command/temperature"
path_of fan = "/api/v1/command/fan"
path_of yielding = "/api/v1/link/yield"
path_of resuming = "/api/v1/link/resume"

pub record Request : Type 0 where
  pub endpoint : Endpoint
  pub host : Option Text
  pub has_origin : Bool
  pub authorization : Option Text
  pub body : Body

abbrev pub is_health : Endpoint → Bool
is_health health = true
is_health _ = false

abbrev pub or_empty : Option Text → Text
or_empty none = []
or_empty (some t) = t

-- The token test of `guard`: nothing when it passes.
unfoldable pub check_token : Option Text → Option Text → Option Response
unfolding compare_digest behind
check_token none authorization = none
check_token (some token) authorization =
    elim (compare_digest (behind (codes "Bearer ") (or_empty authorization)) token) [
      | none ↦ some (error unexpected 500)
      | some true ↦ none
      | some false ↦ some (error unauthorized 401)
    ]

unfoldable pub permitted_hosts : ServerConfig → List Text
permitted_hosts config = loopback_hostnames ++ config.allowed_hosts ++ config.host ∷ []

module _ (ip_loopback : Text → Option Bool) where
  -- `_is_loopback`
  unfoldable pub is_loopback : Text → Bool
  unfolding contains
  is_loopback host = elim (ip_loopback host) [
    | some loopback ↦ loopback
    | none ↦ contains host loopback_hostnames
  ]

  -- `__post_init__` of a host and a token.
  unfoldable pub check_exposure : Text → Option Text → Result ConfigurationRefused (Unit {0})
  unfolding is_loopback
  check_exposure host none = if is_loopback host then ok tt else err exposed_without_token
  check_exposure host (some token) = if ltb (length token) 16 then err token_too_short else ok tt

  unfoldable pub check_config : ServerConfig → Result ConfigurationRefused (Unit {0})
  unfolding check_exposure
  check_config config = check_exposure config.host config.token

module _ (strip lower : Text → Text) (ip_loopback : Text → Option Bool) where
  unfoldable pub host_is_permitted : Text → ServerConfig → Bool
  unfolding hostname_of permitted_hosts contains
  host_is_permitted header config =
      is_empty (hostname_of strip header)
      || is_some (ip_loopback (hostname_of strip header))
      || contains (lower (hostname_of strip header))
          (map (λ entry. lower (hostname_of strip entry)) (permitted_hosts config))

  -- The tests of `guard` in front of every route but the health check.
  unfoldable pub check_access : ServerConfig → Request → Option Response
  unfolding check_token
  check_access config request =
      if not (host_is_permitted (or_empty request.host) config)
      then some (error forbidden 403)
      else if request.has_origin
      then some (error forbidden 403)
      else check_token config.token request.authorization
