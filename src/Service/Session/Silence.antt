-- ===== src/Service/Session/Silence.antt =====
-- service/session.py: a reading that grows old while the link is up.
use bedjet_local.Prelude.{
  ℕ, ◌+◌, ◌<◌, ◌≡◌, ◌∙◌, subst, refl, Bool, true, false, Option, none, some, List, [], ◌∷◌, All,
  arith,
}
use bedjet_local.Service.Session.{connected, set_link, snapshot, yield_holds, tick, resume}
use bedjet_local.Service.Session.Tasks.{
  sleeping, free, Timing, World, Event, stop_called, stop_swallowed, yield_called, dropped, status,
  wake, swallow, take_lock, fire_supervisor, fire_caller, fire, fire_all,
}

-- Neither the device nor a client does anything; time passes, and the supervisor turns.
abbrev pub is_quiet : Event → Bool
is_quiet (status state packet) = false
is_quiet dropped = false
is_quiet (yield_called seconds) = false
is_quiet stop_called = false
is_quiet stop_swallowed = false
is_quiet _ = true

-- The supervisor sleeps over a link that is up, and nobody waits for the lock.
pub record IsResting (w : World) : Type 0 where
  pub asleep : w.place ≡ sleeping
  pub unlocked : w.holder ≡ free
  pub no_yielder : w.yielders ≡ 0
  pub no_stopper : w.stoppers ≡ 0
  pub up : w.session.transport_up ≡ true
  pub reported : w.session.link ≡ connected
  pub unyielded : w.session.yield_until ≡ none

-- What no quiet event changes.
record Keeps (w w' : World) : Type 0 where
  told : w'.session.told ≡ w.session.told
  reading_at : w'.session.reading_at ≡ w.session.reading_at
  stale_after : w'.session.stale_after ≡ w.session.stale_after

fire-Keeps :
    (timing : Timing) (e : Event) (w w' : World)
    → IsResting w
    → is_quiet e ≡ true
    → fire timing e w ≡ some w'
    → IsResting w' × Keeps w w'
unfolding fire fire_supervisor fire_caller take_lock wake yield_holds tick set_link swallow resume
fire-Keeps timing e w w' r q h =
    ground (arith, r.asleep, r.unlocked, r.no_yielder, r.no_stopper, r.up, r.reported, r.unyielded)

run-Keeps :
    (timing : Timing) (es : List Event) (w w' : World)
    → IsResting w
    → All (λ e. is_quiet e ≡ true) es
    → fire_all timing es w ≡ some w'
    → IsResting w' × Keeps w w'
unfolding fire_all
run-Keeps timing [] w w' r quiet h = elim_same (cc)
  where
    elim_same : w ≡ w' → IsResting w' × Keeps w w'
    elim_same e =
        subst (λ v. IsResting v × Keeps w v) e
          (r, record { told = refl; reading_at = refl; stale_after = refl })
run-Keeps timing (e ∷ es) w w' r (q, quiet) h =
    go (fire timing e w) refl h λ w1 k. run-Keeps timing es w1 w' k quiet
  where
    go :
        (o : Option World)
        → fire timing e w ≡ o
        → (elim o [ none ↦ none | some w1 ↦ fire_all timing es w1 ]) ≡ some w'
        → ((w1 : World)
            → IsResting w1
            → fire_all timing es w1 ≡ some w'
            → IsResting w' × Keeps w1 w')
        → IsResting w' × Keeps w w'
    go none f k later = absurd (cc)
    go (some w1) f k later =
        let (r1, k1) = fire-Keeps timing e w w1 r q f in
        let (r2, k2) = later w1 r1 k in
        (
          r2,
          record {
            told = k2.told ∙ k1.told;
            reading_at = k2.reading_at ∙ k1.reading_at;
            stale_after = k2.stale_after ∙ k1.stale_after;
          },
        )

-- A device that falls silent is never announced as stale: from a supervisor that sleeps over a link
-- that is up, with no yield and nobody waiting for the lock, however much time passes and however often
-- the supervisor turns, as long as no status arrives, the link does not drop and nobody calls
-- `yield_link` or `stop`, no listener is told anything more, although the snapshot is stale once its
-- reading is older than the limit; it still reports the link connected.
pub silence_untold :
    (timing : Timing) (es : List Event) (w w' : World) (read_at : ℕ)
    → IsResting w
    → All (λ e. is_quiet e ≡ true) es
    → fire_all timing es w ≡ some w'
    → w.session.reading_at ≡ some read_at
    → read_at + w.session.stale_after < w'.now
    → (w'.session.told ≡ w.session.told)
      × ((snapshot w'.now w'.session).stale ≡ true)
      × ((snapshot w'.now w'.session).link ≡ connected)
unfolding snapshot
silence_untold timing es w w' read_at r quiet h reading late =
    let (r', k) = run-Keeps timing es w w' r quiet h in
    (k.told, ground (arith, k.reading_at, k.stale_after), r'.reported)
