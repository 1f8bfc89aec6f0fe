-- ===== src/Integrations/Mqtt/Published.antt =====
-- integrations/mqtt.py, `_enqueue` and `_publish_loop`: from the session's snapshot to the broker.
use bedjet_local.Prelude.{
  ℕ, zero, suc, ◌≡◌, ◌≤◌, ◌<◌, ◌∙◌, refl, ap, Bool-cases, inl, inr, true, false, Option, none, some,
  List, [], ◌∷◌, ◌++◌, ltb, length, length-append, Bool, arith,
}
use bedjet_local.Api.Models.{DeviceSnapshot}
use bedjet_local.Integrations.Outbox.{maxsize, enqueue, or_same, discard}
use bedjet_local.Integrations.Outbox.Newest.{enqueue_room, enqueue_full}
use bedjet_local.Integrations.Mqtt.Retained.{is_looping, is_serving}
use bedjet_local.Integrations.Mqtt.Bridge.{
  returns, nothing, looping, Awaited, Publishing, Standing, uncalled, ended, Publisher, Bridge,
  Event, snapshot_taken, taken, published, availability_for, take_next, retain, publish_next,
  publish, publish_loop, loop, resume_at, from_call, greet, handle_returned, will, called, awaited,
  greets, handled, lost, Reachable, made, then_fired, new, fire,
}

unfoldable pub fire_all : List Event → Bridge → Option Bridge
fire_all [] b = some b
fire_all (e ∷ es) b = elim (fire e b) [ none ↦ none | some b' ↦ fire_all es b' ]

-- So many snapshots are taken from the queue and published.
unfoldable pub rounds : ℕ → List Event
rounds zero = []
rounds (suc n) = taken ∷ published returns ∷ published returns ∷ rounds n

-- The bridge once it has published `s` and has nothing more to publish.
abbrev pub told : DeviceSnapshot → List DeviceSnapshot → Bridge → Bridge
told s rest b = record b {
  outgoing = rest;
  publishing = nothing;
  availability = some (availability_for s);
  state = some s;
}

one_round :
    (es : List Event) (b : Bridge) (x : DeviceSnapshot) (rest : List DeviceSnapshot)
    → b.outgoing ≡ x ∷ rest
    → b.publisher ≡ looping
    → b.publishing ≡ nothing
    → b.connected ≡ true
    → fire_all (taken ∷ published returns ∷ published returns ∷ es) b ≡ fire_all es (told x rest b)
unfolding fire_all fire loop take_next publish_loop publish retain publish_next
one_round es b x rest q p n up = ground arith

all_rounds :
    (before : List DeviceSnapshot) (s : DeviceSnapshot) (b : Bridge)
    → b.outgoing ≡ before ++ s ∷ []
    → b.publisher ≡ looping
    → b.publishing ≡ nothing
    → b.connected ≡ true
    → fire_all (rounds (length (before ++ s ∷ []))) b ≡ some (told s [] b)
unfolding rounds fire_all
all_rounds [] s b q p n up = one_round [] b s [] q p n up
all_rounds (x ∷ before) s b q p n up =
    one_round (rounds (length (before ++ s ∷ []))) b x (before ++ s ∷ []) q p n up
    ∙ all_rounds before s (told x (before ++ s ∷ []) b) refl p refl up

-- What `_enqueue` makes of the queue.
abbrev pub queue_with : DeviceSnapshot → List DeviceSnapshot → List DeviceSnapshot
queue_with s q = or_same q (enqueue maxsize s q)

length-discard : (q : List DeviceSnapshot) → length q ≡ maxsize → length (discard q) < maxsize
unfolding discard
length-discard [] h = omega arith
length-discard (x ∷ q) h = omega arith

-- The queue ends with the snapshot that was put there last, and stays within its bound.
enqueue_last :
    (s : DeviceSnapshot) (q : List DeviceSnapshot)
    → length q ≤ maxsize
    → (before : List DeviceSnapshot) × (queue_with s q ≡ before ++ s ∷ [])
      × (length before < maxsize)
enqueue_last s q h = elim (Bool-cases (ltb (length q) maxsize)) [
  | inl below ↦ (q, rw (enqueue_room maxsize s q (ground arith)), ground arith)
  | inr full ↦ (
    discard q,
    rw (enqueue_full maxsize s q (ground arith) (omega arith)),
    length-discard q (ground arith),
  )
]

length-queue_with :
    (s : DeviceSnapshot) (q : List DeviceSnapshot)
    → length q ≤ maxsize
    → length (queue_with s q) ≤ maxsize
length-queue_with s q h =
    let (before, e, l) = enqueue_last s q h in rw e (omega (arith, length-append before (s ∷ [])))

abbrev is_listening : Standing → Bool
is_listening uncalled = false
is_listening ended = false
is_listening _ = true

record IsFed (b : Bridge) : Type 0 where
  bounded : length b.outgoing ≤ maxsize
  listening : b.subscribed ≡ is_listening b.standing
  running : is_looping b.publisher ≡ true → is_serving b.standing ≡ true

resume_at-IsFed :
    (p : Standing) (end : Awaited) (b b' : Bridge)
    → b.standing ≡ p
    → IsFed b
    → resume_at p end b ≡ some b'
    → IsFed b'
unfolding resume_at
resume_at-IsFed p end b b' q h k = ground (arith, h.bounded, h.listening, h.running)

loop-IsFed :
    (e : Event) (t : Publisher) (p : Publishing) (b b' : Bridge)
    → b.publisher ≡ t
    → IsFed b
    → loop e t p b ≡ some b'
    → IsFed b'
unfolding loop take_next publish_loop publish retain
loop-IsFed e t p b b' q h k = ground (arith, h.bounded, h.listening, h.running)

fire-IsFed : (e : Event) (b b' : Bridge) → IsFed b → fire e b ≡ some b' → IsFed b'
unfolding fire from_call greet handle_returned will
fire-IsFed (awaited end) b b' h k = resume_at-IsFed b.standing end b b' refl h k
fire-IsFed taken b b' h k = loop-IsFed taken b.publisher b.publishing b b' refl h k
fire-IsFed (published end) b b' h k =
    loop-IsFed (published end) b.publisher b.publishing b b' refl h k
fire-IsFed (snapshot_taken s) b b' h k =
    ground (arith, h.bounded, h.listening, h.running, length-queue_with s b.outgoing h.bounded)
fire-IsFed called b b' h k = ground (arith, h.bounded, h.listening, h.running)
fire-IsFed (greets s) b b' h k = ground (arith, h.bounded, h.listening, h.running)
fire-IsFed handled b b' h k = ground (arith, h.bounded, h.listening, h.running)
fire-IsFed lost b b' h k = ground (arith, h.bounded, h.listening, h.running)

Reachable-IsFed : {cuts : Bool} (b : Bridge) → Reachable cuts b → IsFed b
unfolding new
Reachable-IsFed _ (made d) = record { bounded = omega arith; listening = refl; running = λ h. h }
Reachable-IsFed _ (then_fired before after e r whole k) =
    fire-IsFed e before after (Reachable-IsFed before r) k

first_step :
    (es : List Event) (b : Bridge) (s : DeviceSnapshot)
    → b.subscribed ≡ true
    → fire_all (snapshot_taken s ∷ es) b
      ≡ fire_all es (record b { outgoing = queue_with s b.outgoing })
unfolding fire_all fire
first_step es b s h = ground arith

-- What the session tells last is what the broker retains: let the publisher of a bridge stand at its
-- queue over a connection that stands, however the bridge came there; then a snapshot can be taken,
-- however many wait, and once the publisher has published as many as the queue then holds, the queue
-- is empty and the retained state and availability are those of that snapshot.
pub snapshot_told :
    {cuts : Bool} (b : Bridge) (s : DeviceSnapshot)
    → Reachable cuts b
    → b.publisher ≡ looping
    → b.publishing ≡ nothing
    → b.connected ≡ true
    → fire_all (snapshot_taken s ∷ rounds (length (queue_with s b.outgoing))) b ≡ some (told s [] b)
snapshot_told b s r p n up =
    let fed = Reachable-IsFed b r in
    let heard : b.subscribed ≡ true =
      fed.listening ∙ listening_of b.standing (fed.running (ap is_looping p)) in
    let (before, e, l) = enqueue_last s b.outgoing fed.bounded in
    let b1 : Bridge = record b { outgoing = queue_with s b.outgoing } in
    first_step (rounds (length (queue_with s b.outgoing))) b s heard
    ∙ ap (λ q. fire_all (rounds (length q)) b1) e
    ∙ all_rounds before s b1 e p n up
  where
    listening_of : (at : Standing) → is_serving at ≡ true → is_listening at ≡ true
    listening_of at h = ground arith
