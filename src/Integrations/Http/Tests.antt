-- ===== src/Integrations/Http/Tests.antt =====
-- A client with a token that switches a cooling unit off, and the theorems about the server at it.
use bedjet_local.Prelude.{
  ◌≡◌, ◌⊎◌, if◌then◌else◌, refl, String, Bool, true, false, Option, none, some, [], ◌∷◌,
}
use bedjet_local.Python.Float.{Float}
use bedjet_local.Python.Result.{ok}
use bedjet_local.Service.Commander
use bedjet_local.Service.Commander.{
  Commander, send_verified, send_from, wait_for_state, wait_from, transmit, after_write, deliver,
  on_state, or_silence, verify_loop, look, conclude, result_of,
}
use bedjet_local.Service.Commander.Requests.{execute, send_off, off_satisfied, mode_is}
use bedjet_local.Protocol.Packets.{is_trustworthy, is_complete}
use bedjet_local.Protocol.Decode.{decode_status}
use bedjet_local.Device.State.{from_status}
use bedjet_local.Api.Service.{turn_off, command, translate}
use bedjet_local.Api.Tests.{evening_call}
use bedjet_local.Integrations.Http.Headers.{
  Text, codes, compare_digest, behind, hostname_in, contains, hostname_of, count,
}
use bedjet_local.Integrations.Http.{
  ServerConfig, Request, off, fan, JsonValue, boolean, object, malformed, no_body, or_empty,
  check_config, host_is_permitted, check_access, check_token, permitted_hosts,
}
use bedjet_local.Integrations.Http.Handlers.{
  respond, guarded, handle, run_command, run_asked, body_of, asked, bool_at,
}
use bedjet_local.Integrations.Http.Honesty.{Tells, respond-Tells}
use mathlib.Core.List.{Memᴰ}
use text.Mathlib.Text.{◌==◌ as same_text}
use bedjet_local.Service.Commander.Outcomes.{Silent}
use bedjet_local.Api.Contract.{operations}
use bedjet_local.Integrations.Http.Declared.{operation_of, handle-Declared}
use bedjet_local.Integrations.Http.Access.{IsIdle, IsEntitled, writes_authorised}

abbrev secret : Text
secret = codes "0123456789abcdef"

abbrev server : ServerConfig
server = record { host = codes "0.0.0.0"; token = some secret; allowed_hosts = codes "pi" ∷ [] }

abbrev switch_off : Request
switch_off = record {
  endpoint = off;
  host = some (codes "pi:8787");
  has_origin = false;
  authorization = some (codes "Bearer 0123456789abcdef");
  body = no_body;
}

abbrev no_address : Text → Option Bool
no_address t = none

respond-Tells_example : Tells Commander.new (
    respond
      (λ n. none)
      1
      (λ (s : String). s)
      (λ s. s)
      (λ (x : Float). x)
      (λ t. t)
      (λ t. t)
      no_address
      server
      evening_call
      switch_off
      Commander.new)
respond-Tells_example =
    respond-Tells (λ t. t) (λ t. t) no_address (λ n. none) 1 (λ s. s) (λ s. s) (λ x. x) server
      evening_call switch_off Commander.new

server_valid : check_config no_address server ≡ ok tt
unfolding check_config
server_valid = refl

one_write :
    IsIdle Commander.new (
      respond
        (λ n. none)
        1
        (λ (s : String). s)
        (λ s. s)
        (λ (x : Float). x)
        (λ t. t)
        (λ t. t)
        no_address
        server
        evening_call
        switch_off
        Commander.new)
    → ⊥
unfolding respond guarded handle run_command run_asked body_of asked bool_at check_access
    check_token compare_digest behind host_is_permitted hostname_of hostname_in contains
    permitted_hosts count turn_off command translate execute send_off send_verified send_from
    wait_for_state wait_from transmit after_write deliver on_state or_silence verify_loop look
    conclude off_satisfied mode_is is_trustworthy is_complete decode_status from_status
    Commander.new
one_write h = let same = h.0 in cc

writes_authorised_example :
    (host_is_permitted (λ t. t) (λ t. t) no_address (or_empty switch_off.host) server ≡ true)
    × (switch_off.has_origin ≡ false)
    × IsEntitled no_address server switch_off
writes_authorised_example =
    writes_authorised (λ n. none) 1 (λ s. s) (λ s. s) (λ x. x) (λ t. t) (λ t. t) no_address server
      evening_call switch_off Commander.new server_valid one_write

-- Two bodies that differ in a field that the contract does not declare.
abbrev plain : String → Option JsonValue
plain key = none

abbrev hurried : String → Option JsonValue
hurried key = if same_text key "urgent" then some (boolean true) else none

handle-Declared_example :
    Memᴰ (operation_of fan) operations
    × (handle (λ n. none) 1 (λ s. s) (λ s. s) (λ x. x) evening_call fan (object plain) Commander.new
        ≡ handle
            (λ n. none)
            1
            (λ s. s)
            (λ s. s)
            (λ x. x)
            evening_call
            fan
            (object hurried)
            Commander.new)
    × (((operation_of fan).physical ≡ true)
        ⊎ Silent Commander.new
            (handle
              (λ n. none)
              1
              (λ s. s)
              (λ s. s)
              (λ x. x)
              evening_call
              fan
              malformed
              Commander.new).1)
unfolding operation_of
handle-Declared_example =
    handle-Declared (λ n. none) 1 (λ s. s) (λ s. s) (λ x. x) evening_call Commander.new fan plain
      hurried malformed (refl, (refl, tt))
