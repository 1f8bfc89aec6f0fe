-- ===== src/Transport/Mock.antt =====
-- transport/mock.py: `MockTransport`, scripted. A callback is a number.
pub mod Meets
use text.Mathlib.Text.{◌==◌ as same_text}
use bedjet_local.Prelude.{
  ℕ, ◌+◌, ◌≡◌, String, Bool, true, false, not, Option, none, some, is_some, List, [], ◌∷◌, ◌++◌,
  leb, if◌then◌else◌,
}
use bedjet_local.Protocol.Constants.{Bytes}
use bedjet_local.Python.Result.{Result, ok, err}
use bedjet_local.Transport.Contract.{
  TransportError, not_connected, simulated, no_scripted_read, Raised, transport_error, Transport,
}

pub record MockTransport : Type 0 where
  pub reads : List (String × Bytes)
  pub writes : List (String × Bytes)
  pub write_responses : List (Option Bool)
  pub connect_attempts : ℕ
  pub fail_connects : ℕ
  pub connected : Bool
  pub subs : List (String × ℕ)
  pub write_error : Bool
  pub adapter_power_on : Bool

unfoldable pub new : List (String × Bytes) → ℕ → MockTransport
new reads fail_connects = record {
  reads = reads;
  writes = [];
  write_responses = [];
  connect_attempts = 0;
  fail_connects = fail_connects;
  connected = false;
  subs = [];
  write_error = false;
  adapter_power_on = false;
}

unfoldable pub connect :
    Unit {0} → String → MockTransport → Result Raised (Unit {0}) × MockTransport
connect _ address m =
    let tried = record m { connect_attempts = m.connect_attempts + 1 } in
    if leb tried.connect_attempts m.fail_connects
    then (err (transport_error simulated), tried)
    else (ok tt, record tried { connected = true })

unfoldable pub disconnect : Unit {0} → MockTransport → Result Raised (Unit {0}) × MockTransport
disconnect _ m = (ok tt, record m { connected = false; subs = [] })

unfoldable pub scripted : String → List (String × Bytes) → Option Bytes
scripted uuid [] = none
scripted uuid ((u, payload) ∷ reads) =
    if same_text u uuid then some payload else scripted uuid reads

-- `_require` before an operation.
abbrev require_link :
    {A : Type 0} → MockTransport → Result Raised A × MockTransport → Result Raised A × MockTransport
require_link m rest = if m.connected then rest else (err (transport_error not_connected), m)

unfoldable pub read : Unit {0} → String → MockTransport → Result Raised Bytes × MockTransport
unfolding scripted
read _ uuid m = require_link m (elim (scripted uuid m.reads) [
  | none ↦ (err (transport_error no_scripted_read), m)
  | some payload ↦ (ok payload, m)
])

unfoldable pub write :
    Unit {0}
    → String
    → Bytes
    → Option Bool
    → MockTransport
    → Result Raised (Unit {0}) × MockTransport
write _ uuid payload response m = require_link m (
    if m.write_error then (err (transport_error simulated), record m { write_error = false }) else (
      ok tt,
      record m {
        writes = m.writes ++ (uuid, payload) ∷ [];
        write_responses = m.write_responses ++ response ∷ [];
      },
    ))

-- `subscribe` of a callback.
unfoldable pub subscribe_with :
    ℕ → String → MockTransport → Result Raised (Unit {0}) × MockTransport
subscribe_with callback uuid m =
    require_link m (ok tt, record m { subs = m.subs ++ (uuid, callback) ∷ [] })

-- `_subs.pop(characteristic, None)`
unfoldable pub without : String → List (String × ℕ) → List (String × ℕ)
without uuid [] = []
without uuid ((u, callback) ∷ subs) =
    if same_text u uuid then without uuid subs else (u, callback) ∷ without uuid subs

unfoldable pub unsubscribe :
    Unit {0} → String → MockTransport → Result Raised (Unit {0}) × MockTransport
unfolding without
unsubscribe _ uuid m = (ok tt, record m { subs = without uuid m.subs })

-- The callbacks that `emit` calls.
unfoldable pub emit : String → List (String × ℕ) → List ℕ
emit uuid [] = []
emit uuid ((u, callback) ∷ subs) =
    if same_text u uuid then callback ∷ emit uuid subs else emit uuid subs

unfoldable pub drop_link : MockTransport → MockTransport
drop_link m = record m { connected = false; subs = [] }

unfoldable pub fail_next_write : MockTransport → MockTransport
fail_next_write m = record m { write_error = true }

unfoldable pub power_on_adapter : MockTransport → MockTransport
power_on_adapter m = record m { adapter_power_on = true }

unfoldable pub refuse_next_connects : ℕ → MockTransport → MockTransport
refuse_next_connects count m = record m { fail_connects = m.connect_attempts + count }

abbrev pub mock_transport : Transport
mock_transport = record {
  State = MockTransport;
  Moment = Unit {0};
  connect = connect;
  disconnect = disconnect;
  is_connected = λ _ m. m.connected;
  read = read;
  write = write;
  subscribe = λ _. subscribe_with 0;
  unsubscribe = unsubscribe;
  handed = λ m. m.writes;
  IsOrderly = λ _. Unit {0};
}
