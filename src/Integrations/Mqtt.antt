-- ===== src/Integrations/Mqtt.antt =====
-- integrations/mqtt.py: topics, the projections for Home Assistant, and what becomes of a command
-- message. A topic is a list of code points. The text of a payload is decoded and stripped
-- (`_decode`); `strip_lower` is `str.strip` and `str.lower`, and `float_of_text` is `float` of a
-- text, `none` for its ValueError. aiomqtt delivers messages and carries publications.
pub mod Reports
pub mod Topics
pub mod Discovery
pub mod Payload
pub mod Bridge
pub mod Retained
pub mod Cancelled
pub mod Published
mod Tests
use bedjet_local.Prelude.{
  ℕ, String, Bool, true, false, ◌&&◌, not, Option, none, some, List, [], ◌∷◌, ◌++◌, ◌==◌,
  if◌then◌else◌,
}
use text.Mathlib.Text.{◌==◌ as same_text}
use bedjet_local.Prelude.Int.{ℤ}
use bedjet_local.Python.Float.{Float, truncate, ConversionError}
use bedjet_local.Python.Result.{Result, ok, err, ◌>>=◌}
use bedjet_local.Protocol.Encode.{EncodeError, conversion_error}
use bedjet_local.Service.Commander.{Commander, Raised, encode_error}
use bedjet_local.Service.Session.Tasks.{Event}
use bedjet_local.Api.Models.{CommandOutcome, DeviceSnapshot}
use bedjet_local.Api.Service.{
  ApiError, unavailable, refused_request, unverified_write, uncaught, Call, set_mode,
  set_temperature, set_fan,
}
use bedjet_local.Api.Lease.{yield_link, resume_link}
use bedjet_local.Integrations.Http.Headers.{Text, codes, text_eq}

-- `MqttConfig`, as far as topics depend on it.
pub record MqttConfig : Type 0 where
  pub base_topic : Text
  pub device_id : Text
  pub discovery_prefix : Text

module _ (config : MqttConfig) where
  unfoldable pub prefix : Text
  prefix = config.base_topic ++ codes "/" ++ config.device_id

  unfoldable pub state_topic : Text
  unfolding prefix
  state_topic = prefix ++ codes "/state"

  unfoldable pub availability_topic : Text
  unfolding prefix
  availability_topic = prefix ++ codes "/availability"

  unfoldable pub result_topic : Text
  unfolding prefix
  result_topic = prefix ++ codes "/result"

  unfoldable pub command_topic : Text → Text
  unfolding prefix
  command_topic name = prefix ++ codes "/set/" ++ name

-- `_HA_MODE_FOR.get(mode, "off")`
unfoldable pub ha_mode_for : String → String
ha_mode_for mode =
    if same_text mode "cool"
    then "cool"
    else if same_text mode "heat"
    then "heat"
    else if same_text mode "dry"
    then "dry"
    else if same_text mode "turbo"
    then "heat"
    else "off"

-- `ha_mode` of a power and a mode.
unfoldable pub ha_mode_of : String → Option String → String
unfolding ha_mode_for
ha_mode_of power none = "off"
ha_mode_of power (some mode) = if same_text power "on" then ha_mode_for mode else "off"

unfoldable pub ha_mode : DeviceSnapshot → String
unfolding ha_mode_of
ha_mode snapshot = ha_mode_of snapshot.power snapshot.mode

unfoldable pub is_available : DeviceSnapshot → Bool
is_available snapshot = snapshot.available && not snapshot.stale

-- The part behind the last `/`: `topic.rsplit("/", 1)[-1]`.
unfoldable pub last_segment : Text → Text → Text
last_segment seen [] = seen
last_segment seen (x ∷ xs) =
    if x == 47 then last_segment [] xs else last_segment (seen ++ x ∷ []) xs

-- What `_dispatch` raises. A TypeError or the like of the API goes through as it is.
pub data Thrown : Type 0 where
  api_error : ApiError → Thrown
  bad_value : Thrown
  overflow : Thrown

-- What `_publish_result` is given beside the command's name.
pub data Report : Type 0 where
  done : CommandOutcome → Report
  state : DeviceSnapshot → Report
  refused unverified invalid_request : Report

-- An exception of the API as `_dispatch` lets it pass: a conversion error is one of Python's own.
unfoldable pub thrown_by : ApiError → Thrown
thrown_by (uncaught (encode_error (conversion_error ConversionError.value_error))) = bad_value
thrown_by (uncaught (encode_error (conversion_error ConversionError.overflow_error))) = overflow
thrown_by e = api_error e

-- `int(x)`
unfoldable pub int_of : Float → Result Thrown ℤ
int_of x = elim (truncate x) [
  | ok n ↦ ok n
  | err e ↦ elim e [
    | ConversionError.value_error ↦ err bad_value
    | ConversionError.overflow_error ↦ err overflow
  ]
]

-- The commander afterwards and what the session was asked.
abbrev pub Effects : Type 0
Effects = Commander × List Event

abbrev pub Dispatched : Type 0
Dispatched = Result Thrown Report × Effects

unfoldable pub commanded : Result ApiError CommandOutcome × Commander → Dispatched
unfolding thrown_by
commanded (ok o, c) = (ok (done o), (c, []))
commanded (err e, c) = (err (thrown_by e), (c, []))

unfoldable pub leased : Result ApiError DeviceSnapshot × List Event → Commander → Dispatched
unfolding thrown_by
leased (ok s, events) c = (ok (state s), (c, events))
leased (err e, events) c = (err (thrown_by e), (c, events))

abbrev pub with_ok : {A : Type 0} → Result Thrown A → Commander → (A → Dispatched) → Dispatched
with_ok (ok a) c f = f a
with_ok (err e) c f = (err e, (c, []))

-- What `_handle` publishes under a command's name, or the exception that leaves it.
unfoldable pub report : Result Thrown Report → Result Thrown Report
report (ok r) = ok r
report (err (api_error (unverified_write payload))) = ok unverified
report (err (api_error (unavailable link left))) = ok refused
report (err (api_error (refused_request why))) = ok refused
report (err (api_error (uncaught e))) = err (api_error (uncaught e))
report (err bad_value) = ok invalid_request
report (err overflow) = err overflow

module _ (float_of_text : String → Option Float) where
  -- `_number`
  unfoldable pub number : String → Result Thrown Float
  number payload = elim (float_of_text payload) [ none ↦ err bad_value | some x ↦ ok x ]

  module _ (rate : ℕ) (strip_lower strip_upper lower : String → String) (to_celsius : Float → Float)
      (call : Call) where
    -- `_dispatch`
    unfoldable pub dispatch : Text → String → Commander → Dispatched
    unfolding number commanded leased int_of
    dispatch name payload c =
        if text_eq name (codes "mode")
        then commanded (set_mode strip_upper lower call (strip_lower payload) false c)
        else if text_eq name (codes "temperature")
        then with_ok (number payload) c
            (λ x. commanded (set_temperature to_celsius call (some x) none false c))
        else if text_eq name (codes "fan")
        then with_ok (number payload >>= int_of) c (λ n. commanded (set_fan call n false c))
        else if text_eq name (codes "link_yield")
        then with_ok (number payload) c (λ x. leased (yield_link rate call x) c)
        else if text_eq name (codes "link_resume")
        then leased (resume_link call) c
        else (err bad_value, (c, []))

    unfoldable pub handle : Text → String → Commander → Dispatched
    unfolding dispatch report last_segment
    handle topic payload c =
        let sent = dispatch (last_segment [] topic) payload c in (report sent.0, sent.1)
