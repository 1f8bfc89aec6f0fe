-- ===== src/Service/Session/Tasks.antt =====
-- service/session.py: the tasks that share a session, cut at their awaits. An event is one stretch
-- of one task, or something that the world does; `fire` is undefined where the task is not there.
-- One call of `start` runs at a time; calls of `yield_link` and `stop` may overlap anything.
use bedjet_local.Prelude.{
  ℕ, suc, ◌+◌, ◌≡◌, true, false, Option, none, some, is_some, List, [], ◌∷◌, refl, subst,
  if◌then◌else◌,
}
use bedjet_local.Device.State.{BedJetState}
use bedjet_local.Protocol.Packets.{StatusPacket}
use bedjet_local.Service.Session.{
  Session, connecting, connected, yielded, stopped, Duration, Deadline, new, on_state, set_link,
  teardown, deadline_of, resume, yield_holds, tick, next_backoff,
}

-- Who calls `_connect`: `start`, or the supervisor after a drop.
pub data Stage : Type 0 where
  first again : Stage

-- Where `start` and then the supervisor stand. A state named `want_` waits for the link lock;
-- `tearing`, `linking` and `subscribing` hold it.
pub data Place : Type 0 where
  idle sleeping want_teardown tearing backing_off : Place
  want_connect linking subscribing : Stage → Place

-- `_link_lock`
pub data Holder : Type 0 where
  free supervisor yielder stopper : Holder

pub record Timing : Type 0 where
  pub backoff_initial : ℕ
  pub backoff_max : ℕ

pub record World : Type 0 where
  pub session : Session
  pub place : Place
  pub holder : Holder
  -- the calls of `yield_link` and `stop` that wait for the lock
  pub yielders : ℕ
  pub stoppers : ℕ
  -- the calls of `stop` that wait for the supervisor
  pub hanging : ℕ
  pub backoff : ℕ
  pub now : ℕ

pub data Event : Type 0 where
  -- `start` and the supervisor
  start_called lock_taken torn_down connected_to connect_failed subscribed subscribe_failed woke
        backoff_over :
      Event
  -- the callers of `yield_link`, `resume` and `stop`; a cancellation that `reader.stop` awaits away
  -- is swallowed
  yield_called : Duration → Event
  yielder_entered yielder_left resume_called stop_called stop_swallowed stopper_entered
        stopper_left :
      Event
  -- the device and the clock
  dropped : Event
  status : BedJetState → StatusPacket → Event
  passed : ℕ → Event

unfoldable pub fresh : ℕ → World
fresh stale_after = record {
  session = new stale_after;
  place = idle;
  holder = free;
  yielders = 0;
  stoppers = 0;
  hanging = 0;
  backoff = 0;
  now = 0;
}

-- `_connect` once it has the lock.
unfoldable pub connect_or_abandon : Timing → Stage → World → World
connect_or_abandon timing stage w =
    if is_some w.session.yield_until
    then record w { place = sleeping; backoff = timing.backoff_initial }
    else record w { place = linking stage; holder = supervisor }

-- `_connect` raises: `start` passes it on, the supervisor backs off.
unfoldable pub failed : Stage → World → World
failed first w = record w {
  session = set_link w.now stopped w.session;
  place = idle;
  holder = free;
}
failed again w = record w { place = backing_off; holder = free }

-- The supervisor wakes from its sleep.
unfoldable pub wake : Timing → World → World
wake timing w =
    if yield_holds w.now w.session.yield_until
    then w
    else if w.session.transport_up
    then record w { session = tick w.now w.session; backoff = timing.backoff_initial }
    else record w { session = tick w.now w.session; place = want_teardown }

-- `yield_link` until its first await; without a positive time it raises.
unfoldable pub call_yield : Option Deadline → World → World
call_yield none w = w
call_yield (some deadline) w = record w {
  session = record w.session { yield_until = some deadline };
  yielders = w.yielders + 1;
}

-- `stop` until its first await for the lock: the supervisor, if there is one, is cancelled, which
-- gives the lock back; the calls that waited for it go on as well.
unfoldable pub cancel : Place → World → World
cancel idle w = w
cancel (want_connect first) w = w
cancel (linking first) w = w
cancel (subscribing first) w = w
cancel tearing w = record w { place = idle; holder = free }
cancel (linking again) w = record w { place = idle; holder = free }
cancel (subscribing again) w = record w { place = idle; holder = free }
cancel _ w = record w { place = idle }

-- The supervisor is inside `reader.stop`, of a reader that runs, whose `except` and `suppress` around
-- the tasks that it cancels take the supervisor's own CancelledError as well; it goes on, and `stop`
-- waits for it.
unfoldable pub swallow : Place → World → Option World
swallow tearing w =
    if w.session.reader_running then some (record w { hanging = w.hanging + 1 }) else none
swallow _ w = none

unfoldable pub take_lock : Timing → Place → Holder → World → Option World
take_lock timing want_teardown free w = some (record w { place = tearing; holder = supervisor })
take_lock timing (want_connect stage) free w = some (connect_or_abandon timing stage w)
take_lock timing _ _ w = none

unfoldable pub fire_supervisor : Timing → Event → Place → World → Option World
unfolding take_lock
fire_supervisor timing start_called idle w =
    some (record w { session = set_link w.now connecting w.session; place = want_connect first })
fire_supervisor timing lock_taken place w = take_lock timing place w.holder w
fire_supervisor timing torn_down tearing w =
    some (record w { session = teardown w.session; place = want_connect again; holder = free })
fire_supervisor timing connected_to (linking stage) w =
    some
      (record w { session = record w.session { transport_up = true }; place = subscribing stage })
fire_supervisor timing connect_failed (linking stage) w = some (failed stage w)
fire_supervisor timing subscribed (subscribing stage) w = some (record w {
  session = set_link w.now connected (record w.session { reader_running = true });
  place = sleeping;
  holder = free;
  backoff = timing.backoff_initial;
})
fire_supervisor timing subscribe_failed (subscribing stage) w = some (failed stage w)
fire_supervisor timing woke sleeping w = some (wake timing w)
fire_supervisor timing backoff_over backing_off w =
    some (record w { place = sleeping; backoff = next_backoff timing.backoff_max w.backoff })
fire_supervisor timing _ _ w = none

unfoldable pub fire_caller : Event → Holder → ℕ → ℕ → World → Option World
unfolding swallow
fire_caller (yield_called seconds) _ _ _ w = some (call_yield (deadline_of w.now seconds) w)
fire_caller yielder_entered free (suc n) _ w = some (record w { holder = yielder; yielders = n })
fire_caller yielder_left yielder _ _ w =
    some (record w { session = set_link w.now yielded (teardown w.session); holder = free })
fire_caller resume_called _ _ _ w = some (record w { session = resume w.session })
fire_caller stop_called _ _ n w =
    some (cancel w.place (record w { stoppers = n + 1 + w.hanging; hanging = 0 }))
fire_caller stop_swallowed _ _ _ w = swallow w.place w
fire_caller stopper_entered free _ (suc n) w = some (record w { holder = stopper; stoppers = n })
fire_caller stopper_left stopper _ _ w =
    some (record w { session = set_link w.now stopped (teardown w.session); holder = free })
fire_caller dropped _ _ _ w =
    some (record w { session = record w.session { transport_up = false } })
fire_caller (status state packet) _ _ _ w =
    some (record w { session = on_state w.now state packet w.session })
fire_caller (passed d) _ _ _ w = some (record w { now = w.now + d })
fire_caller _ _ _ _ w = none

abbrev or_else : Option World → Option World → Option World
or_else (some w) _ = some w
or_else none o = o

unfoldable pub fire : Timing → Event → World → Option World
fire timing e w =
    or_else (fire_supervisor timing e w.place w) (fire_caller e w.holder w.yielders w.stoppers w)

-- A run of events, undefined where one of them is.
unfoldable pub fire_all : Timing → List Event → World → Option World
unfolding fire
fire_all timing [] w = some w
fire_all timing (e ∷ es) w = elim (fire timing e w) [
  | none ↦ none
  | some w' ↦ fire_all timing es w'
]

-- What a session that was just made can become.
pub data Reachable (timing : Timing) (stale_after : ℕ) : World → Type 0 where
  made : Reachable timing stale_after (fresh stale_after)
  then_fired :
      (w w' : World) (e : Event)
      → Reachable timing stale_after w
      → fire timing e w ≡ some w'
      → Reachable timing stale_after w'

pub fire_all-Reachable :
    (timing : Timing) (stale_after : ℕ) (es : List Event) (w w' : World)
    → Reachable timing stale_after w
    → fire_all timing es w ≡ some w'
    → Reachable timing stale_after w'
unfolding fire_all
fire_all-Reachable timing stale_after [] w w' r h = subst (Reachable timing stale_after) (cc) r
fire_all-Reachable timing stale_after (e ∷ es) w w' r h =
    go (fire timing e w) refl h
      λ w1 f k. fire_all-Reachable timing stale_after es w1 w' (then_fired w w1 e r f) k
  where
    go :
        (o : Option World)
        → fire timing e w ≡ o
        → (elim o [ none ↦ none | some w1 ↦ fire_all timing es w1 ]) ≡ some w'
        → ((w1 : World)
            → fire timing e w ≡ some w1
            → fire_all timing es w1 ≡ some w'
            → Reachable timing stale_after w')
        → Reachable timing stale_after w'
    go none f k later = absurd (cc)
    go (some w1) f k later = later w1 f k
