-- ===== src/Service/Session/Recovery.antt =====
-- service/session.py: the supervisor takes the link back, how long it waits in between, and what
-- `stop` leaves.
use bedjet_local.Prelude.{
  ℕ, suc, ◌+◌, ◌≡◌, ◌∙◌, ◌⊎◌, refl, Bool, true, false, Option, none, some, List, [], ◌∷◌, arith,
  if◌then◌else◌,
}
use bedjet_local.Service.Session.{
  Session, stopped, connected, lost, set_link, teardown, yield_holds, tick,
}
use bedjet_local.Service.Session.Lease.{
  holds_lock, set_link-link, set_link-yield_until, set_link-transport_up, set_link-reader_running,
}
use bedjet_local.Service.Session.Tasks.{
  Stage, first, again, Place, idle, sleeping, want_teardown, want_connect, linking, subscribing,
  free, Timing, World, Event, lock_taken, torn_down, connected_to, subscribed, subscribe_failed,
  woke, tearing, stop_swallowed, swallow, backoff_over, stop_called, stopper_entered, stopper_left,
  connect_or_abandon, failed, wake, cancel, take_lock, fire_supervisor, fire_caller, fire, fire_all,
}

-- A run that is defined and ends in a world with a property.
abbrev pub Ends : Option World → (World → Type 0) → Type 0
Ends o P = (w : World) × (o ≡ some w) × P w

-- Connected, with a reader, and nothing in between.
pub record IsServing (timing : Timing) (w : World) : Type 0 where
  reports_connected : w.session.link ≡ connected
  up : w.session.transport_up ≡ true
  reading : w.session.reader_running ≡ true
  asleep : w.place ≡ sleeping
  unlocked : w.holder ≡ free
  rested : w.backoff ≡ timing.backoff_initial

module _ (timing : Timing) (w : World) (rest : List Event) where
  wakes_down :
      w.place ≡ sleeping
      → w.session.transport_up ≡ false
      → yield_holds w.now w.session.yield_until ≡ false
      → fire_all timing (woke ∷ rest) w
        ≡ fire_all timing rest (record w { session = tick w.now w.session; place = want_teardown })
  unfolding fire_all fire fire_supervisor wake
  wakes_down p d y = ground arith

  tears_down :
      w.place ≡ want_teardown
      → w.holder ≡ free
      → fire_all timing (lock_taken ∷ torn_down ∷ rest) w
        ≡ fire_all timing rest
            (record w { session = teardown w.session; place = want_connect again; holder = free })
  unfolding fire_all fire fire_supervisor take_lock
  tears_down p f = ground arith

  connects :
      (stage : Stage)
      → w.place ≡ want_connect stage
      → w.holder ≡ free
      → w.session.yield_until ≡ none
      → fire_all timing (lock_taken ∷ connected_to ∷ subscribed ∷ rest) w
        ≡ fire_all timing rest (record w {
          session =
              set_link w.now connected
                (record w.session { transport_up = true; reader_running = true });
          place = sleeping;
          holder = free;
          backoff = timing.backoff_initial;
        })
  unfolding fire_all fire fire_supervisor take_lock connect_or_abandon
  connects stage p f y = ground arith

module _ (now : ℕ) (s : Session) where
  tick-yield_until : (tick now s).yield_until ≡ none
  unfolding tick
  tick-yield_until = set_link-yield_until now _ _

  tick-link : (tick now s).link ≡ (if s.transport_up then connected else lost)
  unfolding tick
  tick-link = set_link-link now _ _

  tick-reader_running : (tick now s).reader_running ≡ s.reader_running
  unfolding tick
  tick-reader_running = set_link-reader_running now _ _

-- Once no yield holds, a supervisor that wakes with the link down, finds the lock free and gets
-- its connection, with nothing in between, has the session connected, with the reader running and
-- the backoff reset.
pub recovers :
    (timing : Timing) (w : World)
    → w.place ≡ sleeping
    → w.holder ≡ free
    → w.session.transport_up ≡ false
    → yield_holds w.now w.session.yield_until ≡ false
    → Ends
        (fire_all timing
          (woke ∷ lock_taken ∷ torn_down ∷ lock_taken ∷ connected_to ∷ subscribed ∷ [])
          w)
        (IsServing timing)
unfolding fire_all teardown
recovers timing w p f d y =
    let w1 = record w { session = tick w.now w.session; place = want_teardown } in
    let w2 = record w1 {
      session = teardown w1.session;
      place = want_connect again;
      holder = free;
    } in
    let s = record w2.session { transport_up = true; reader_running = true } in
    (
      _,
      wakes_down timing w (lock_taken ∷ torn_down ∷ lock_taken ∷ connected_to ∷ subscribed ∷ []) p d
            y
          ∙ tears_down timing w1 (lock_taken ∷ connected_to ∷ subscribed ∷ []) refl f
          ∙ connects timing w2 [] again refl refl (tick-yield_until w.now w.session),
      record {
        reports_connected = set_link-link w.now connected s;
        up = set_link-transport_up w.now connected s;
        reading = set_link-reader_running w.now connected s;
        asleep = refl;
        unlocked = refl;
        rested = refl;
      },
    )

-- A supervisor's places: `start` has returned and no `stop` was called since.
abbrev pub is_supervised : Place → Bool
is_supervised idle = false
is_supervised (want_connect first) = false
is_supervised (linking first) = false
is_supervised (subscribing first) = false
is_supervised _ = true

abbrev pub IsStopped : World → Type 0
IsStopped w =
    (w.session.link ≡ stopped)
    × (w.session.transport_up ≡ false)
    × (w.session.reader_running ≡ false)
    × (w.place ≡ idle)
    × (w.holder ≡ free)

cancels :
    (timing : Timing) (w : World) (rest : List Event)
    → is_supervised w.place ≡ true
    → (w.holder ≡ free) ⊎ (holds_lock w.place ≡ true)
    → fire_all timing (stop_called ∷ rest) w
      ≡ fire_all timing rest (record w {
        place = idle;
        holder = free;
        stoppers = w.stoppers + 1 + w.hanging;
        hanging = 0;
      })
unfolding fire_all fire fire_supervisor fire_caller cancel
cancels timing w rest s f = ground arith

releases :
    (timing : Timing) (w : World) (n : ℕ)
    → w.place ≡ idle
    → w.holder ≡ free
    → w.stoppers ≡ suc n
    → fire_all timing (stopper_entered ∷ stopper_left ∷ []) w
      ≡ some (record w {
        session = set_link w.now stopped (teardown w.session);
        holder = free;
        stoppers = n;
      })
unfolding fire_all fire fire_supervisor fire_caller
releases timing w n p f e = ground arith

-- `stop` of a supervised session, wherever its supervisor stands, so long as the cancellation is not
-- swallowed by a stop of the reader, no other call holds the lock and nothing comes in between: the
-- supervisor and the reader are gone, the link is down and reported stopped.
pub stops :
    (timing : Timing) (w : World)
    → is_supervised w.place ≡ true
    → (w.holder ≡ free) ⊎ (holds_lock w.place ≡ true)
    → Ends (fire_all timing (stop_called ∷ stopper_entered ∷ stopper_left ∷ []) w) IsStopped
unfolding fire_all teardown
stops timing w s f =
    let n = w.stoppers + w.hanging in
    let w1 = record w {
      place = idle;
      holder = free;
      stoppers = w.stoppers + 1 + w.hanging;
      hanging = 0;
    } in
    (
      _,
      cancels timing w (stopper_entered ∷ stopper_left ∷ []) s f
          ∙ releases timing w1 n refl refl (omega arith),
      (
        set_link-link w.now stopped (teardown w.session),
        set_link-transport_up w.now stopped (teardown w.session),
        set_link-reader_running w.now stopped (teardown w.session),
        refl,
        refl,
      ),
    )

-- A reconnect whose subscription fails leaves the transport up, and the supervisor takes that for
-- a link: after its backoff, if nothing comes in between and no yield was asked for, the session
-- reports connected although no reader runs.
pub serves_without_reader :
    (timing : Timing) (w : World)
    → w.place ≡ subscribing again
    → w.session.transport_up ≡ true
    → w.session.reader_running ≡ false
    → w.session.yield_until ≡ none
    → Ends (fire_all timing (subscribe_failed ∷ backoff_over ∷ woke ∷ []) w) (λ w'.
      (w'.session.link ≡ connected) × (w'.session.reader_running ≡ false) × (w'.place ≡ sleeping))
unfolding fire_all fire fire_supervisor failed wake yield_holds
serves_without_reader timing w p u r y = (
  record w {
    session = tick w.now w.session;
    place = sleeping;
    holder = free;
    backoff = timing.backoff_initial;
  },
  ground arith,
  (
    ground (arith, tick-link w.now w.session),
    ground (arith, tick-reader_running w.now w.session),
    refl,
  ),
)

swallows :
    (timing : Timing) (w : World) (rest : List Event)
    → w.place ≡ tearing
    → w.session.reader_running ≡ true
    → fire_all timing (stop_swallowed ∷ torn_down ∷ rest) w
      ≡ fire_all timing rest (record w {
        session = teardown w.session;
        place = want_connect again;
        holder = free;
        hanging = w.hanging + 1;
      })
unfolding fire_all fire fire_supervisor fire_caller swallow
swallows timing w rest p r = ground arith

-- A `stop` whose cancellation is swallowed in the teardown does not stop anything: the supervisor
-- connects again, if no yield was asked for and nothing comes in between, and the session reports
-- connected, with its reader running, while the call still waits.
pub stop_undone :
    (timing : Timing) (w : World)
    → w.place ≡ tearing
    → w.session.reader_running ≡ true
    → w.session.yield_until ≡ none
    → Ends
        (fire_all timing
          (stop_swallowed ∷ torn_down ∷ lock_taken ∷ connected_to ∷ subscribed ∷ [])
          w)
        (λ w'. IsServing timing w' × (w'.hanging ≡ suc w.hanging))
unfolding fire_all teardown
stop_undone timing w p r y =
    let w1 = record w {
      session = teardown w.session;
      place = want_connect again;
      holder = free;
      hanging = w.hanging + 1;
    } in
    let s = record w1.session { transport_up = true; reader_running = true } in
    (
      _,
      swallows timing w (lock_taken ∷ connected_to ∷ subscribed ∷ []) p r
          ∙ connects timing w1 [] again refl refl y,
      (
        record {
          reports_connected = set_link-link w.now connected s;
          up = set_link-transport_up w.now connected s;
          reading = set_link-reader_running w.now connected s;
          asleep = refl;
          unlocked = refl;
          rested = refl;
        },
        omega arith,
      ),
    )
