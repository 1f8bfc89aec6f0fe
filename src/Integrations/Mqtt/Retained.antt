-- ===== src/Integrations/Mqtt/Retained.antt =====
-- What a later subscriber finds on the broker.
use bedjet_local.Prelude.{◌≡◌, refl, subst, Bool, true, false, Option, none, some, arith}
use bedjet_local.Api.Models.{DeviceSnapshot}
use bedjet_local.Integrations.Mqtt.{is_available}
use bedjet_local.Integrations.Mqtt.Bridge.{
  online, Publishing, nothing, availability_of, state_of, Awaited, Standing, greeting, serving,
  joining, parting, Publisher, looping, failed, Bridge, Event, new, called, snapshot_taken, awaited,
  greets, handled, taken, published, lost, availability_for, will, take_next, retain, publish_next,
  publish, resume_at, publish_loop, from_call, greet, handle_returned, loop, fire, is_cut,
  Reachable, made, then_fired,
}

-- An `online` that is retained was published over a connection that stands, and is that of the
-- snapshot whose state is published next or, when nothing is on its way or the next snapshot's
-- availability is, of the state that is retained.
abbrev is_current : Option DeviceSnapshot → Bool
is_current none = false
is_current (some s) = is_available s

abbrev Backed : Publishing → Bridge → Type 0
Backed (state_of s) b = is_available s ≡ true
Backed nothing b = is_current b.state ≡ true
Backed (availability_of waiting) b = is_current b.state ≡ true

-- Between `_publish_state` behind the subscription and the goodbye.
abbrev pub is_exposed : Standing → Bool
is_exposed greeting = true
is_exposed serving = true
is_exposed (joining _) = true
is_exposed (parting _) = true
is_exposed _ = false

abbrev is_failed : Publisher → Bool
is_failed (failed _) = true
is_failed _ = false

abbrev pub is_looping : Publisher → Bool
is_looping looping = true
is_looping _ = false

abbrev pub is_serving : Standing → Bool
is_serving serving = true
is_serving _ = false

record IsSound (b : Bridge) : Type 0 where
  standing : b.availability ≡ some online → b.connected ≡ true
  backed : b.availability ≡ some online → Backed b.publishing b
  exposed : b.availability ≡ some online → is_exposed b.standing ≡ true
  failing : is_failed b.publisher ≡ true → b.connected ≡ false
  busy : is_looping b.publisher ≡ true → is_serving b.standing ≡ true

new-IsSound : (d : Bool) → IsSound (new d)
unfolding new
new-IsSound d = ground arith

resume_at-IsSound :
    (p : Standing) (end : Awaited) (b b' : Bridge)
    → b.standing ≡ p
    → IsSound b
    → (is_cut (awaited end) b ≡ true → false ≡ true)
    → resume_at p end b ≡ some b'
    → IsSound b'
unfolding resume_at
resume_at-IsSound p end b b' q h whole k =
    ground (arith, h.standing, h.backed, h.exposed, h.failing, h.busy, whole)

loop-IsSound :
    (e : Event) (t : Publisher) (p : Publishing) (b b' : Bridge)
    → b.publisher ≡ t
    → b.publishing ≡ p
    → IsSound b
    → (is_cut e b ≡ true → false ≡ true)
    → loop e t p b ≡ some b'
    → IsSound b'
unfolding loop take_next publish_loop publish retain publish_next availability_for
loop-IsSound e t p b b' running at h whole k =
    ground (arith, h.standing, h.backed, h.exposed, h.failing, h.busy, whole)

fire-IsSound :
    (e : Event) (b b' : Bridge)
    → IsSound b
    → (is_cut e b ≡ true → false ≡ true)
    → fire e b ≡ some b'
    → IsSound b'
unfolding fire from_call greet handle_returned will
fire-IsSound (awaited end) b b' h whole k = resume_at-IsSound b.standing end b b' refl h whole k
fire-IsSound taken b b' h whole k =
    loop-IsSound taken b.publisher b.publishing b b' refl refl h whole k
fire-IsSound (published end) b b' h whole k =
    loop-IsSound (published end) b.publisher b.publishing b b' refl refl h whole k
fire-IsSound called b b' h whole k =
    ground (arith, h.standing, h.backed, h.exposed, h.failing, h.busy)
fire-IsSound (snapshot_taken s) b b' h whole k =
    ground (arith, h.standing, h.backed, h.exposed, h.failing, h.busy)
fire-IsSound (greets s) b b' h whole k =
    ground (arith, h.standing, h.backed, h.exposed, h.failing, h.busy)
fire-IsSound handled b b' h whole k =
    ground (arith, h.standing, h.backed, h.exposed, h.failing, h.busy)
fire-IsSound lost b b' h whole k =
    ground (arith, h.standing, h.backed, h.exposed, h.failing, h.busy)

Reachable-IsSound : (b : Bridge) → Reachable false b → IsSound b
Reachable-IsSound _ (made d) = new-IsSound d
Reachable-IsSound _ (then_fired before after e r whole k) =
    fire-IsSound e before after (Reachable-IsSound before r) whole k

-- What a later subscriber finds retained is honest, as long as no publication of a state and no
-- goodbye is cut short over a connection that stands: `online` is there only while the connection
-- stands and `run` is between its first publication and the goodbye, and between two publications it
-- stands beside a retained state that was taken with the link up and not stale. A bridge that
-- pauses, has ended, lost its connection or died has left no `online`.
pub retained_honest :
    (b : Bridge)
    → Reachable false b
    → b.availability ≡ some online
    → (b.connected ≡ true)
      × (is_exposed b.standing ≡ true)
      × (b.publishing ≡ nothing
          → (s : DeviceSnapshot) × (b.state ≡ some s) × (s.available ≡ true) × (s.stale ≡ false))
unfolding is_available
retained_honest b r o =
    let sound = Reachable-IsSound b r in
    (
      sound.standing o,
      sound.exposed o,
      λ idle. current_state b.state refl (subst (λ p. Backed p b) idle (sound.backed o)),
    )
  where
    current_state :
        (state : Option DeviceSnapshot)
        → b.state ≡ state
        → is_current b.state ≡ true
        → (s : DeviceSnapshot) × (b.state ≡ some s) × (s.available ≡ true) × (s.stale ≡ false)
    current_state none e current = absurd (ground arith)
    current_state (some s) e current = (s, e, ground arith, ground arith)
