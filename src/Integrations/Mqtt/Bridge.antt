-- ===== src/Integrations/Mqtt/Bridge.antt =====
-- integrations/mqtt.py: `MqttBridge.run` with its `_session` and `_publish_loop`, two tasks cut at their
-- awaits; `fire` is undefined where an event cannot occur. The broker keeps the retained messages of
-- the two topics and, when a connection is not closed in order, publishes the client's will, as MQTT
-- prescribes. A publication that returns has reached the broker; one that raises may have. What
-- `_handle` does is Reports' matter: here it returns, or an exception leaves it.
use bedjet_local.Prelude.{
  ℕ, zero, suc, ◌≡◌, Bool, true, false, ◌&&◌, Option, none, some, List, [], ◌∷◌, if◌then◌else◌,
}
use bedjet_local.Api.Models.{DeviceSnapshot}
use bedjet_local.Integrations.Outbox.{maxsize, enqueue, or_same}
use bedjet_local.Integrations.Mqtt.{is_available}

pub data Availability : Type 0 where
  online offline : Availability

-- How far `_publish_state` is: not called, or a snapshot's availability goes out, or its state.
pub data Publishing : Type 0 where
  nothing : Publishing
  availability_of state_of : DeviceSnapshot → Publishing

-- `aiomqtt.MqttError`; all else, with `CancelledError`.
pub data Raise : Type 0 where
  broker_error other : Raise

-- How an await ends: an exception may stand for a packet that the broker has got all the same.
pub data Awaited : Type 0 where
  returns : Awaited
  raises : Raise → (reached : Bool) → Awaited

-- How the body of `async with` is left: `client.messages` has ended, or by an exception.
pub data Leaving : Type 0 where
  finished : Leaving
  raised : Raise → Leaving

-- Where `run` stands: not called; in `Client.__aenter__`; at the discovery payloads, these many after
-- this one; at `client.subscribe`; in `_publish_state`; at a message or in `_handle`; at
-- `await publisher`; at the goodbye; in `Client.__aexit__`; at `asyncio.sleep`; at its end.
pub data Standing : Type 0 where
  uncalled connecting : Standing
  announcing : ℕ → Standing
  subscribing greeting serving : Standing
  joining parting closing : Leaving → Standing
  pausing ended : Standing

-- The task `publisher`: none, in its loop, cancelled, or ended by an exception.
pub data Publisher : Type 0 where
  absent looping cancelled : Publisher
  failed : Raise → Publisher

pub record Bridge : Type 0 where
  pub discovery : Bool
  pub outgoing : List DeviceSnapshot
  -- whether `_enqueue` is with the session
  pub subscribed : Bool
  pub standing : Standing
  pub publisher : Publisher
  pub publishing : Publishing
  -- whether the broker holds the connection
  pub connected : Bool
  -- the retained messages of the broker
  pub availability : Option Availability
  pub state : Option DeviceSnapshot

pub data Event : Type 0 where
  -- `run` is called; `_enqueue` is called by the session
  called : Event
  snapshot_taken : DeviceSnapshot → Event
  -- the await at which `run` stands ends; `api.snapshot()` is read behind `client.subscribe`
  awaited : Awaited → Event
  greets : DeviceSnapshot → Event
  -- `_handle` returns
  handled : Event
  -- `_outgoing.get` returns in the publisher; a publication of the publisher ends
  taken : Event
  published : Awaited → Event
  -- the connection breaks, or the program dies
  lost : Event

unfoldable pub new : Bool → Bridge
new with_discovery = record {
  discovery = with_discovery;
  outgoing = [];
  subscribed = false;
  standing = uncalled;
  publisher = absent;
  publishing = nothing;
  connected = false;
  availability = none;
  state = none;
}

unfoldable pub availability_for : DeviceSnapshot → Availability
availability_for s = if is_available s then online else offline

-- The broker notices the end of a connection that was not closed in order.
unfoldable pub will : Bridge → Bridge
will b = if b.connected then record b { connected = false; availability = some offline } else b

-- `_publish_loop`: the next of the queue.
unfoldable pub take_next : List DeviceSnapshot → Bridge → Option Bridge
take_next [] b = none
take_next (s ∷ rest) b = some (record b { outgoing = rest; publishing = availability_of s })

-- What the broker retains of a publication of `_publish_state`.
unfoldable pub retain : Publishing → Bridge → Bridge
unfolding availability_for
retain nothing b = b
retain (availability_of s) b = record b { availability = some (availability_for s) }
retain (state_of s) b = record b { state = some s }

-- `_publish_state` behind a publication.
unfoldable pub publish_next : Publishing → Publishing
publish_next nothing = nothing
publish_next (availability_of s) = state_of s
publish_next (state_of s) = nothing

unfoldable pub publish : Bridge → Bridge
unfolding retain publish_next
publish b = record (retain b.publishing b) { publishing = publish_next b.publishing }

-- `run` behind `_session`: on to the next connection, to the pause, or out through the `finally`.
unfoldable pub after_session : Leaving → Bridge → Bridge
after_session finished b = record b { standing = connecting }
after_session (raised broker_error) b = record b { standing = pausing }
after_session (raised other) b = record b { standing = ended; subscribed = false }

-- `_session` in its `finally`: a publisher that has failed raises at once, in front of the goodbye.
unfoldable pub enter_finally : Leaving → Publisher → Bridge → Bridge
enter_finally leaving (failed r) b = record b { standing = closing (raised r) }
enter_finally leaving _ b = record b { standing = joining leaving; publisher = cancelled }

unfoldable pub after_connect : Bool → Standing
after_connect true = announcing 2
after_connect false = subscribing

-- `_publish_state` behind `client.subscribe`, and the publisher's task behind that.
unfoldable pub greeted : Publishing → Bridge → Bridge
greeted nothing b = record b { standing = serving; publisher = looping }
greeted _ b = b

abbrev retain_cut : Bool → Bridge → Bridge
retain_cut reached b = if reached && b.connected then retain b.publishing b else b

-- The goodbye that the broker has got.
unfoldable pub part : Bridge → Bridge
part b = record b { availability = some offline }

unfoldable pub resume_at : Standing → Awaited → Bridge → Option Bridge
unfolding will retain publish after_session enter_finally after_connect greeted part
resume_at connecting returns b = some (record b {
  standing = after_connect b.discovery;
  connected = true;
  publisher = absent;
  publishing = nothing;
})
resume_at connecting (raises r _) b = some (after_session (raised r) b)
resume_at (announcing zero) returns b = some (record b { standing = subscribing })
resume_at (announcing (suc n)) returns b = some (record b { standing = announcing n })
resume_at (announcing n) (raises r _) b = some (record b { standing = closing (raised r) })
resume_at subscribing (raises r _) b = some (record b { standing = closing (raised r) })
resume_at greeting returns b =
    if b.connected then some (greeted (publish_next b.publishing) (publish b)) else none
resume_at greeting (raises r reached) b =
    some (record (retain_cut reached b) { standing = closing (raised r) })
resume_at serving returns b = some (enter_finally finished b.publisher b)
resume_at serving (raises r _) b = some (enter_finally (raised r) b.publisher b)
-- the CancelledError of the publisher and that of a cancellation that comes now are suppressed alike
resume_at (joining leaving) (raises broker_error _) b = none
resume_at (joining leaving) _ b = some (record b { standing = parting leaving })
resume_at (parting leaving) returns b =
    if b.connected then some (record (part b) { standing = closing leaving }) else none
resume_at (parting leaving) (raises r reached) b =
    some (record (if reached && b.connected then part b else b) {
      standing = closing (elim r [ broker_error ↦ leaving | other ↦ raised other ]);
    })
resume_at (closing leaving) returns b =
    some (after_session leaving (record b { connected = false }))
resume_at (closing leaving) (raises r reached) b =
    some (after_session (raised r) (if reached then record b { connected = false } else will b))
resume_at pausing returns b = some (record b { standing = connecting })
resume_at pausing (raises other _) b = some (after_session (raised other) b)
resume_at _ _ b = none

-- A publication of the publisher.
unfoldable pub publish_loop : Awaited → Bridge → Option Bridge
unfolding publish retain
publish_loop returns b = if b.connected then some (publish b) else none
publish_loop (raises r reached) b = some (record (retain_cut reached b) { publisher = failed r })

unfoldable pub from_call : Standing → Bridge → Option Bridge
from_call uncalled b = some (record b { standing = connecting; subscribed = true })
from_call _ b = none

unfoldable pub greet : DeviceSnapshot → Standing → Bridge → Option Bridge
greet s subscribing b = some (record b { standing = greeting; publishing = availability_of s })
greet s _ b = none

unfoldable pub handle_returned : Standing → Bridge → Option Bridge
handle_returned serving b = some b
handle_returned _ b = none

-- The publisher is at `_outgoing.get`, or at a publication.
unfoldable pub loop : Event → Publisher → Publishing → Bridge → Option Bridge
unfolding take_next publish_loop
loop taken looping nothing b = take_next b.outgoing b
loop (published end) looping (availability_of s) b = publish_loop end b
loop (published end) looping (state_of s) b = publish_loop end b
loop _ _ _ b = none

unfoldable pub fire : Event → Bridge → Option Bridge
unfolding from_call greet handle_returned resume_at loop will
fire called b = from_call b.standing b
fire (snapshot_taken s) b =
    if b.subscribed
    then some (record b { outgoing = or_same b.outgoing (enqueue maxsize s b.outgoing) })
    else none
fire (awaited end) b = resume_at b.standing end b
fire (greets s) b = greet s b.standing b
fire handled b = handle_returned b.standing b
fire lost b = if b.connected then some (will b) else none
fire e b = loop e b.publisher b.publishing b

-- A publication of `_publish_state` or the goodbye raises, or is cancelled, over a connection that
-- stands.
abbrev pub is_publishing : Standing → Bool
is_publishing greeting = true
is_publishing (parting _) = true
is_publishing _ = false

abbrev pub is_cut : Event → Bridge → Bool
is_cut (awaited (raises _ _)) b = is_publishing b.standing && b.connected
is_cut (published (raises _ _)) b = b.connected
is_cut _ b = false

-- What a bridge can become; with or without publications that are cut.
pub data Reachable (cuts : Bool) : Bridge → Type 0 where
  made : (with_discovery : Bool) → Reachable cuts (new with_discovery)
  then_fired :
      (b b' : Bridge) (e : Event)
      → Reachable cuts b
      → (is_cut e b ≡ true → cuts ≡ true)
      → fire e b ≡ some b'
      → Reachable cuts b'
