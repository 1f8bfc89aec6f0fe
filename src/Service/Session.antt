-- ===== src/Service/Session.antt =====
-- service/session.py: who holds the BedJet's one BLE slot. The state of a session with that of its
-- transport, and each stretch of its methods between two `await`s as a function; `Session.Tasks`
-- interleaves them. Times are in ticks of the monotonic clock, in an arbitrary unit. The log is
-- left out.
pub mod Tasks
pub mod Lease
pub mod Recovery
pub mod Silence
pub mod Waits
pub mod Backoff
mod Tests
use bedjet_local.Prelude.{
  ℕ, zero, suc, ◌+◌, ◌-◌, ◌*◌, Bool, true, false, Option, none, some, List, [], ◌∷◌, ◌++◌, map, ltb,
  ◌==◌, if◌then◌else◌, min,
}
use bedjet_local.Prelude.Int.{ℤ, pos, negsuc}
use bedjet_local.Device.State.{BedJetState}
use bedjet_local.Protocol.Packets.{StatusPacket}

pub data LinkState : Type 0 where
  stopped connecting connected yielded lost : LinkState

abbrev pub link_eq : LinkState → LinkState → Bool
link_eq stopped stopped = true
link_eq connecting connecting = true
link_eq connected connected = true
link_eq yielded yielded = true
link_eq lost lost = true
link_eq _ _ = false

pub record SessionSnapshot : Type 0 where
  pub link : LinkState
  pub reading : Option BedJetState
  pub reading_age_s : Option ℕ
  pub stale : Bool

-- `SessionSnapshot.available`
unfoldable pub available : SessionSnapshot → Bool
available s = link_eq s.link connected

-- The seconds of a yield, a float: a finite number, infinity or nan.
pub data Duration : Type 0 where
  ticks : ℤ → Duration
  endless nan : Duration

-- `time.monotonic() + seconds`
pub data Deadline : Type 0 where
  at_tick : ℕ → Deadline
  never nan : Deadline

-- `time.monotonic() < deadline`, which is false at nan.
unfoldable pub is_before : ℕ → Deadline → Bool
is_before now (at_tick t) = ltb now t
is_before now never = true
is_before now Deadline.nan = false

pub record Session : Type 0 where
  pub stale_after : ℕ
  pub link : LinkState
  pub reading : Option BedJetState
  pub packet : Option StatusPacket
  pub reading_at : Option ℕ
  pub yield_until : Option Deadline
  -- the `_connected` event
  pub connected_event : Bool
  pub listeners : List ℕ
  -- the calls of listeners
  pub told : List (ℕ × SessionSnapshot)
  -- `transport.is_connected`, and whether the commander's reader runs
  pub transport_up : Bool
  pub reader_running : Bool

unfoldable pub new : ℕ → Session
new stale_after = record {
  stale_after = stale_after;
  link = stopped;
  reading = none;
  packet = none;
  reading_at = none;
  yield_until = none;
  connected_event = false;
  listeners = [];
  told = [];
  transport_up = false;
  reader_running = false;
}

unfoldable pub age_at : ℕ → Option ℕ → Option ℕ
age_at now none = none
age_at now (some at) = some (now - at)

unfoldable pub is_stale : ℕ → Option ℕ → Bool
is_stale limit none = true
is_stale limit (some age) = ltb limit age

unfoldable pub snapshot : ℕ → Session → SessionSnapshot
unfolding age_at is_stale
snapshot now s = record {
  link = s.link;
  reading = s.reading;
  reading_age_s = age_at now s.reading_at;
  stale = is_stale s.stale_after (age_at now s.reading_at);
}

-- `subscribe`; the function that it returns removes the first equal listener.
unfoldable pub subscribe : ℕ → Session → Session
subscribe listener s = record s { listeners = s.listeners ++ listener ∷ [] }

remove_first : ℕ → List ℕ → List ℕ
remove_first x [] = []
remove_first x (y ∷ ys) = if y == x then ys else y ∷ remove_first x ys

unfoldable pub unsubscribe : ℕ → Session → Session
unfolding remove_first
unsubscribe listener s = record s { listeners = remove_first listener s.listeners }

-- `_notify`: a listener that raises is passed over.
unfoldable pub notify : ℕ → Session → Session
notify now s = record s { told = s.told ++ map (λ l. (l, snapshot now s)) s.listeners }

-- `_on_state`
unfoldable pub on_state : ℕ → BedJetState → StatusPacket → Session → Session
on_state now state packet s =
    notify now (record s { reading = some state; packet = some packet; reading_at = some now })

-- `_set_link`
unfoldable pub set_link : ℕ → LinkState → Session → Session
set_link now link s =
    if link_eq link s.link
    then s
    else notify now (record s { link = link; connected_event = link_eq link connected })

-- `_teardown_locked`: whatever its two calls raise is suppressed.
unfoldable pub teardown : Session → Session
teardown s = record s { reader_running = false; transport_up = false }

unfoldable pub deadline_of : ℕ → Duration → Option Deadline
deadline_of now (ticks (pos zero)) = none
deadline_of now (ticks (pos (suc n))) = some (at_tick (now + suc n))
deadline_of now (ticks (negsuc n)) = none
deadline_of now endless = some never
deadline_of now Duration.nan = some Deadline.nan

-- `resume`
unfoldable pub resume : Session → Session
resume s = record s { yield_until = none }

unfoldable pub yield_remaining_s : ℕ → Session → Option Deadline
yield_remaining_s now s = elim s.yield_until [
  | none ↦ none
  | some d ↦ elim d [
    | at_tick t ↦ some (at_tick (t - now))
    | never ↦ some never
    | Deadline.nan ↦ some (at_tick 0)
  ]
]

-- Whether the yield is still in force at a tick of the supervisor.
unfoldable pub yield_holds : ℕ → Option Deadline → Bool
unfolding is_before
yield_holds now none = false
yield_holds now (some d) = is_before now d

-- `_supervise` from its sleep on, when no yield holds: an expired one is forgotten, then the link
-- is reported up, or lost, in which case the teardown follows.
unfoldable pub tick : ℕ → Session → Session
tick now s =
    set_link now (if s.transport_up then connected else lost) (record s { yield_until = none })

-- The backoff after another failed attempt.
unfoldable pub next_backoff : ℕ → ℕ → ℕ
next_backoff limit backoff = min (backoff * 2) limit
