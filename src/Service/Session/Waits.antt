-- ===== src/Service/Session/Waits.antt =====
-- service/session.py: the two waits of a session's clients, `wait_until_connected` and
-- `wait_for_reading`, over what happens to the session meanwhile.
use bedjet_local.Prelude.{
  ℕ, ◌≡◌, refl, sym, ◌∙◌, if_both, Bool, true, Option, none, some, List, [], ◌∷◌, leb, if_known,
  if◌then◌else◌,
}
use bedjet_local.Device.State.{BedJetState}
use bedjet_local.Protocol.Packets.{StatusPacket}
use bedjet_local.Service.Session.{
  Session, LinkState, connected, link_eq, on_state, set_link, notify,
}

-- The `_connected` event, through the changes of the link until the timeout.
unfoldable pub await_connected : List (ℕ × LinkState) → Session → Bool × Session
await_connected [] s = (s.connected_event, s)
await_connected ((now, link) ∷ changes) s =
    let later = await_connected changes (set_link now link s) in
    if s.connected_event then (true, s) else later

unfoldable pub wait_until_connected : List (ℕ × LinkState) → Session → Bool × Session
unfolding await_connected
wait_until_connected changes s =
    if link_eq s.link connected then (true, s) else await_connected changes s

-- A round of `wait_for_reading`: the clock at its test, and the readings during its sleep.
pub record Poll : Type 0 where
  pub now : ℕ
  pub readings : List (ℕ × BedJetState × StatusPacket)

unfoldable pub take_readings : List (ℕ × BedJetState × StatusPacket) → Session → Session
take_readings [] s = s
take_readings ((now, state, packet) ∷ rest) s = take_readings rest (on_state now state packet s)

-- How the wait ends: with a reading, without one at its deadline, or not within these rounds.
pub data Reading : Type 0 where
  read : BedJetState → Reading
  silence unfinished : Reading

unfoldable pub wait_for_reading : ℕ → List Poll → Session → Reading × Session
unfolding take_readings
wait_for_reading deadline [] s = elim s.reading [
  | some state ↦ (read state, s)
  | none ↦ (unfinished, s)
]
wait_for_reading deadline (p ∷ ps) s =
    let later = wait_for_reading deadline ps (take_readings p.readings s) in
    elim s.reading [
      | some state ↦ (read state, s)
      | none ↦ if leb deadline p.now then (silence, s) else later
    ]

-- The event stands beside a connected link.
abbrev pub IsInStep : Session → Type 0
IsInStep s = s.connected_event ≡ link_eq s.link connected

set_link-IsInStep :
    (now : ℕ) (link : LinkState) (s : Session) → IsInStep s → IsInStep (set_link now link s)
unfolding set_link notify
set_link-IsInStep now link s h = if_both IsInStep (link_eq link s.link) h refl

abbrev Agrees : Bool × Session → Type 0
Agrees x = x.0 ≡ link_eq x.1.link connected

await_connected-told :
    (changes : List (ℕ × LinkState)) (s : Session)
    → IsInStep s
    → (await_connected changes s).0 ≡ link_eq (await_connected changes s).1.link connected
unfolding await_connected
await_connected-told [] s h = h
await_connected-told ((now, link) ∷ changes) s h =
    if_known Agrees s.connected_event (λ on. sym on ∙ h)
      λ _. await_connected-told changes (set_link now link s) (set_link-IsInStep now link s h)

-- What `wait_until_connected` returns is whether the link is connected as it returns.
pub wait_until_connected_lem :
    (changes : List (ℕ × LinkState)) (s : Session)
    → IsInStep s
    → (wait_until_connected changes s).0 ≡ link_eq (wait_until_connected changes s).1.link connected
unfolding wait_until_connected
wait_until_connected_lem changes s h =
    if_known Agrees (link_eq s.link connected) (λ up. sym up) λ _. await_connected-told changes s h

-- What the end of the wait tells of the session's reading.
pub Told : Reading → Option BedJetState → Type 0
Told (read state) reading = reading ≡ some state
Told silence reading = reading ≡ none
Told unfinished reading = reading ≡ none

abbrev TellsOf : Reading × Session → Type 0
TellsOf x = Told x.0 x.1.reading

from_reading :
    (s : Session) (o : Option BedJetState) (y : Reading × Session)
    → s.reading ≡ o
    → (s.reading ≡ none → TellsOf y)
    → TellsOf (elim o [ some state ↦ (read state, s) | none ↦ y ])
unfolding Told
from_reading s (some state) y e h = e
from_reading s none y e h = h e

-- `wait_for_reading` returns the session's reading, and None only where there has been none.
pub wait_for_reading_lem :
    (deadline : ℕ) (ps : List Poll) (s : Session)
    → Told (wait_for_reading deadline ps s).0 (wait_for_reading deadline ps s).1.reading
unfolding wait_for_reading Told
wait_for_reading_lem deadline [] s = from_reading s s.reading (unfinished, s) refl λ e. e
wait_for_reading_lem deadline (p ∷ ps) s = from_reading s s.reading _ refl λ e.
    if_both TellsOf (leb deadline p.now) e
      (wait_for_reading_lem deadline ps (take_readings p.readings s))
