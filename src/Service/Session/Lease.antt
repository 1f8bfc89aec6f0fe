-- ===== src/Service/Session/Lease.antt =====
-- service/session.py: the lease. What a yield guarantees once its `yield_link` calls have returned,
-- whatever the supervisor, `start`, `stop` and the device do meanwhile.
use bedjet_local.Prelude.{ℕ, ◌≡◌, ◌≢◌, refl, Bool, true, false, none, some, is_some, arith}
use bedjet_local.Service.Session.{
  Session, LinkState, stopped, connecting, connected, yielded, lost, link_eq, new, on_state,
  set_link, notify, teardown, resume, tick,
}
use bedjet_local.Service.Session.Tasks.{
  Stage, first, again, Place, sleeping, tearing, linking, subscribing, Holder, supervisor, yielder,
  Timing, World, Event, fresh, connect_or_abandon, failed, wake, call_yield, cancel, take_lock,
  fire_supervisor, fire_caller, fire, Reachable, made, then_fired,
}

pub link_eq_sound : (a b : LinkState) → link_eq a b ≡ true → a ≡ b
link_eq_sound stopped b h = ground arith
link_eq_sound connecting b h = ground arith
link_eq_sound connected b h = ground arith
link_eq_sound yielded b h = ground arith
link_eq_sound lost b h = ground arith

module _ (now : ℕ) (link : LinkState) (s : Session) where
  pub set_link-link : (set_link now link s).link ≡ link
  unfolding set_link notify
  set_link-link = ground (arith, link_eq_sound link s.link)

  pub set_link-yield_until : (set_link now link s).yield_until ≡ s.yield_until
  unfolding set_link notify
  set_link-yield_until = ground arith

  pub set_link-transport_up : (set_link now link s).transport_up ≡ s.transport_up
  unfolding set_link notify
  set_link-transport_up = ground arith

  pub set_link-reader_running : (set_link now link s).reader_running ≡ s.reader_running
  unfolding set_link notify
  set_link-reader_running = ground arith

abbrev pub holds_lock : Place → Bool
holds_lock tearing = true
holds_lock (linking _) = true
holds_lock (subscribing _) = true
holds_lock _ = false

abbrev pub is_taking : Place → Bool
is_taking (linking _) = true
is_taking (subscribing _) = true
is_taking _ = false

-- A yield is in force and no `yield_link` is still on its way.
abbrev pub IsYielded : World → Type 0
IsYielded w = (is_some w.session.yield_until ≡ true) × (w.yielders ≡ 0) × (w.holder ≢ yielder)

-- The slot is with the owner: the link is down, nobody is taking it, and it is not reported up.
abbrev pub IsReleased : World → Type 0
IsReleased w =
    (w.session.transport_up ≡ false)
    × (is_taking w.place ≡ false)
    × (w.session.link ≢ connected)
    × (w.session.link ≢ lost)

record IsSound (w : World) : Type 0 where
  exclusive : holds_lock w.place ≡ true → w.holder ≡ supervisor
  honoured : IsYielded w → IsReleased w

fresh-IsSound : (stale_after : ℕ) → IsSound (fresh stale_after)
unfolding fresh new
fresh-IsSound stale_after = ground arith

module _ (timing : Timing) (w w' : World) (sound : IsSound w) where
  take_lock-IsSound :
      (place : Place) (holder : Holder)
      → w.place ≡ place
      → w.holder ≡ holder
      → take_lock timing place holder w ≡ some w'
      → IsSound w'
  unfolding take_lock connect_or_abandon
  take_lock-IsSound place holder p e h = ground (arith, sound.exclusive, sound.honoured)

  failed-IsSound : (stage : Stage) → is_taking w.place ≡ true → IsSound (failed stage w)
  unfolding failed
  failed-IsSound first p = ground (
    arith,
    sound.exclusive,
    sound.honoured,
    set_link-link w.now stopped w.session,
    set_link-yield_until w.now stopped w.session,
    set_link-transport_up w.now stopped w.session,
  )
  failed-IsSound again p = ground (arith, sound.exclusive, sound.honoured)

  wake-IsSound : w.place ≡ sleeping → IsSound (wake timing w)
  unfolding wake tick
  wake-IsSound p =
      let s = record w.session { yield_until = none } in
      ground (
        arith,
        sound.exclusive,
        sound.honoured,
        set_link-yield_until w.now connected s,
        set_link-yield_until w.now lost s,
      )

  fire_supervisor-IsSound :
      (e : Event) (place : Place)
      → w.place ≡ place
      → fire_supervisor timing e place w ≡ some w'
      → IsSound w'
  unfolding fire_supervisor teardown
  fire_supervisor-IsSound e place p h = ground (
    arith,
    sound.exclusive,
    sound.honoured,
    take_lock-IsSound place w.holder p refl,
    failed-IsSound first,
    failed-IsSound again,
    wake-IsSound,
    set_link-link w.now connecting w.session,
    set_link-yield_until w.now connecting w.session,
    set_link-transport_up w.now connecting w.session,
    set_link-yield_until w.now connected (record w.session { reader_running = true }),
  )

  cancel-IsSound : (place : Place) → w.place ≡ place → IsSound (cancel place w)
  unfolding cancel
  cancel-IsSound place p = ground (arith, sound.exclusive, sound.honoured)

  fire_caller-IsSound :
      (e : Event) → fire_caller e w.holder w.yielders w.stoppers w ≡ some w' → IsSound w'
  unfolding fire_caller call_yield teardown resume on_state notify cancel
  fire_caller-IsSound e h = ground (
    arith,
    sound.exclusive,
    sound.honoured,
    set_link-link w.now yielded (teardown w.session),
    set_link-link w.now stopped (teardown w.session),
    set_link-yield_until w.now yielded (teardown w.session),
    set_link-yield_until w.now stopped (teardown w.session),
    set_link-transport_up w.now yielded (teardown w.session),
    set_link-transport_up w.now stopped (teardown w.session),
  )

  fire-IsSound : (e : Event) → fire timing e w ≡ some w' → IsSound w'
  unfolding fire
  fire-IsSound e h = ground (arith, fire_supervisor-IsSound e w.place refl, fire_caller-IsSound e)

Reachable-IsSound :
    (timing : Timing) (stale_after : ℕ) (w : World) → Reachable timing stale_after w → IsSound w
Reachable-IsSound timing stale_after _ made = fresh-IsSound stale_after
Reachable-IsSound timing stale_after _ (then_fired before after e r h) =
    fire-IsSound timing before after (Reachable-IsSound timing stale_after before r) e h

-- A yield that has returned holds: as long as it is in force and no later `yield_link` is on its
-- way, the link is down, no task is connecting or subscribing, and the session reports the link
-- neither connected nor lost. So it is however the calls of `start`, `stop`, `yield_link` and
-- `resume`, the supervisor's attempts and the drops were interleaved.
pub yield_honoured :
    (timing : Timing) (stale_after : ℕ) (w : World)
    → Reachable timing stale_after w
    → IsYielded w
    → IsReleased w
yield_honoured timing stale_after w r = (Reachable-IsSound timing stale_after w r).honoured
