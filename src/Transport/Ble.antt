-- ===== src/Transport/Ble.antt =====
-- transport/ble.py: `BleakTransport`. What bleak and the adapter do during one call is a `Moment`;
-- `lower` is `str.lower`. The lock that serialises GATT operations is the order of the calls; the
-- link may break while a write waits for it. The log is left out, and so are the callbacks of
-- notifications, which go to bleak.
pub mod Meets
pub mod WriteType
pub mod Adapter
pub mod Scan
use text.Mathlib.Text.{◌==◌ as same_text}
use bedjet_local.Prelude.{
  ℕ, String, Bool, true, false, ◌&&◌, ◌||◌, not, Option, none, some, List, [], ◌∷◌, ◌++◌, map,
  if◌then◌else◌,
}
use bedjet_local.Protocol.Constants.{Bytes}
use bedjet_local.Python.Result.{Result, ok, err}
use bedjet_local.Transport.Contract.{
  TransportError, not_connected, not_advertising, vanished, out_of_slots, link_refused, translated,
  Raised, transport_error, foreign, Transport,
}

-- The exceptions under `BleakError` that the code tells apart.
pub data BleakError : Type 0 where
  device_not_found no_slots aborted other : BleakError

-- How a call of bleak ends; `stranger` is an exception of another family.
pub data Answer (A : Type 0) : Type 0 where
  answered : A → Answer A
  raised : BleakError → Answer A
  stranger : Answer A

pub record Characteristic : Type 0 where
  pub uuid : String
  pub properties : List String

-- The client of a connection as bleak reports it during a call: up, down, or breaking while the call
-- waits for the lock.
pub data Link : Type 0 where
  up breaking down : Link

pub record Moment : Type 0 where
  pub link : Link
  pub found : Answer Bool
  pub established : Answer (Unit {0})
  pub closed : Answer (Unit {0})
  pub value : Answer Bytes
  pub accepted : Answer (Unit {0})
  -- the characteristics of all services, in order
  pub layout : Answer (List Characteristic)

pub record BleakTransport : Type 0 where
  -- `_client is not None`
  pub client : Bool
  -- the calls of `write_gatt_char`, with their write type
  pub requests : List (String × Bytes × Bool)

unfoldable pub new : BleakTransport
new = record { client = false; requests = [] }

-- `_bleak_errors_as_transport`
unfoldable pub as_transport : {A : Type 0} → Answer A → Result Raised A
as_transport (answered a) = ok a
as_transport (raised e) = err (transport_error translated)
as_transport stranger = err foreign

abbrev pub is_up : Link → Bool
is_up up = true
is_up _ = false

abbrev pub is_down : Link → Bool
is_down down = true
is_down _ = false

-- `is_connected`, and `_require` when a call begins.
unfoldable pub is_connected : Moment → BleakTransport → Bool
is_connected m t = t.client && not (is_down m.link)

abbrev pub Outcome : Type 0 → Type 0
Outcome A = Result Raised A × BleakTransport

-- `_resolve`, and `establish_connection` with the translation of its errors.
unfoldable pub resolve : Answer Bool → Result Raised (Unit {0})
unfolding as_transport
resolve (answered true) = ok tt
resolve (answered false) = err (transport_error not_advertising)
resolve (raised e) = err (transport_error translated)
resolve stranger = err foreign

unfoldable pub connection_failed : BleakError → TransportError
connection_failed device_not_found = vanished
connection_failed no_slots = out_of_slots
connection_failed aborted = link_refused
connection_failed other = link_refused

unfoldable pub establish : Answer (Unit {0}) → BleakTransport → Outcome (Unit {0})
unfolding connection_failed
establish (answered _) t = (ok tt, record t { client = true })
establish (raised e) t = (err (transport_error (connection_failed e)), t)
establish stranger t = (err foreign, t)

abbrev pub after : {A B : Type 0} → Result Raised A → BleakTransport → (A → Outcome B) → Outcome B
after (ok a) t f = f a
after (err e) t f = (err e, t)

unfoldable pub connect : Moment → String → BleakTransport → Outcome (Unit {0})
unfolding resolve establish
connect m address t = after (resolve m.found) t (λ _. establish m.established t)

unfoldable pub disconnect : Moment → BleakTransport → Outcome (Unit {0})
unfolding as_transport
disconnect m t =
    if t.client then (as_transport m.closed, record t { client = false }) else (ok tt, t)

-- `_require` behind the lock.
unfoldable pub still_connected : Moment → BleakTransport → Bool
still_connected m t = t.client && is_up m.link

unfoldable pub read : Moment → String → BleakTransport → Outcome Bytes
unfolding still_connected as_transport
read m uuid t =
    if still_connected m t
    then (as_transport m.value, t)
    else (err (transport_error not_connected), t)

-- `subscribe` and `unsubscribe`, which do not take the lock.
unfoldable pub subscribe : Moment → String → BleakTransport → Outcome (Unit {0})
unfolding is_connected as_transport
subscribe m uuid t =
    if is_connected m t
    then (as_transport m.accepted, t)
    else (err (transport_error not_connected), t)

unfoldable pub contains : String → List String → Bool
contains name [] = false
contains name (x ∷ xs) = same_text x name || contains name xs

module _ (lower : String → String) where
  -- `_write_needs_response` over the characteristics.
  unfoldable pub needs_response : String → List Characteristic → Bool
  unfolding contains
  needs_response uuid [] = true
  needs_response uuid (c ∷ cs) =
      if same_text (lower c.uuid) (lower uuid)
      then not (contains "write-without-response" (map lower c.properties))
      else needs_response uuid cs

  -- The write type, chosen where none is given.
  unfoldable pub write_type : Moment → String → Option Bool → BleakTransport → Result Raised Bool
  unfolding is_connected
  write_type m uuid (some response) t = ok response
  write_type m uuid none t =
      if is_connected m t
      then elim m.layout [
        | answered cs ↦ ok (needs_response uuid cs)
        | raised e ↦ err (transport_error translated)
        | stranger ↦ err foreign
      ]
      else err (transport_error not_connected)

  unfoldable pub send : Moment → String → Bytes → BleakTransport → Bool → Outcome (Unit {0})
  unfolding still_connected as_transport
  send m uuid payload t response =
      if still_connected m t
      then (
        as_transport m.accepted,
        record t { requests = t.requests ++ (uuid, payload, response) ∷ [] },
      )
      else (err (transport_error not_connected), t)

  unfoldable pub write : Moment → String → Bytes → Option Bool → BleakTransport → Outcome (Unit {0})
  unfolding write_type send
  write m uuid payload response t = after (write_type m uuid response t) t (send m uuid payload t)

-- A call that ended as bleak documents.
abbrev pub IsDocumented : {A : Type 0} → Answer A → Type 0
IsDocumented (answered a) = Unit {0}
IsDocumented (raised e) = Unit {0}
IsDocumented stranger = ⊥

pub record IsOrderly (m : Moment) : Type 0 where
  pub found : IsDocumented m.found
  pub established : IsDocumented m.established
  pub closed : IsDocumented m.closed
  pub value : IsDocumented m.value
  pub accepted : IsDocumented m.accepted
  pub layout : IsDocumented m.layout

abbrev handed_over : List (String × Bytes × Bool) → List (String × Bytes)
handed_over [] = []
handed_over ((uuid, payload, response) ∷ rs) = (uuid, payload) ∷ handed_over rs

abbrev pub ble_transport : (String → String) → Transport
ble_transport lower = record {
  State = BleakTransport;
  Moment = Moment;
  connect = connect;
  disconnect = disconnect;
  is_connected = is_connected;
  read = read;
  write = write lower;
  subscribe = subscribe;
  unsubscribe = subscribe;
  handed = λ t. handed_over t.requests;
  IsOrderly = IsOrderly;
}
