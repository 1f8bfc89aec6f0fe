-- ===== src/Service/Session/Tests.antt =====
-- A session that connects and then yields, and the theorems about sessions at it.
use bedjet_local.Prelude.{
  ◌+◌, ◌*◌, ◌^◌, ◌≤◌, ◌≡◌, refl, inl, false, true, Option, none, some, List, [], ◌∷◌, length, min,
  arith,
}
use bedjet_local.Prelude.Int.{pos}
use bedjet_local.Service.Session
use bedjet_local.Service.Session.{
  connecting, connected, yielded, ticks, deadline_of, set_link, link_eq, notify, teardown,
  yield_holds, is_before, tick, snapshot, next_backoff,
}
use bedjet_local.Service.Session.Tasks.{
  again, sleeping, subscribing, Timing, World, Event, passed, wake, start_called, lock_taken,
  connected_to, subscribed, subscribe_failed, backoff_over, woke, torn_down, stop_called,
  stopper_entered, stopper_left, yield_called, yielder_entered, yielder_left, fresh, fire_all, fire,
  fire_supervisor, fire_caller, take_lock, connect_or_abandon, call_yield, made, fire_all-Reachable,
}
use bedjet_local.Service.Session.Lease.{IsYielded, IsReleased, yield_honoured}
use bedjet_local.Service.Session.Silence.{silence_untold}
use bedjet_local.Service.Session.Backoff.{
  Trial, await_power_on, backoff_or_power_on, first_retry, power_ons, disarm, fail, retry,
  retry_all,
}
use bedjet_local.Service.Session.Backoff.Paced.{retry_paced}
use bedjet_local.Service.Session.Recovery.{
  Ends, IsServing, IsStopped, recovers, stops, serves_without_reader,
}

abbrev timing : Timing
timing = record { backoff_initial = 2; backoff_max = 60 }

abbrev evening : List Event
evening =
    start_called
    ∷ lock_taken
    ∷ connected_to
    ∷ subscribed
    ∷ yield_called (ticks (pos 600))
    ∷ yielder_entered
    ∷ yielder_left
    ∷ []

abbrev world_of : Option World → World
world_of none = fresh 0
world_of (some w) = w

abbrev given_away : World
given_away = world_of (fire_all timing evening (fresh 120))

evening_runs : fire_all timing evening (fresh 120) ≡ some given_away
unfolding fire_all fire fire_supervisor fire_caller take_lock connect_or_abandon call_yield fresh
    Session.new deadline_of set_link notify teardown
evening_runs = refl

given_away-IsYielded : IsYielded given_away
unfolding fire_all fire fire_supervisor fire_caller take_lock connect_or_abandon call_yield fresh
    Session.new deadline_of set_link notify teardown
given_away-IsYielded = (refl, refl, λ e. cc)

yield_honoured_example : IsReleased given_away
yield_honoured_example =
    yield_honoured timing 120 given_away
      (fire_all-Reachable timing 120 evening (fresh 120) given_away made evening_runs)
      given_away-IsYielded

abbrev asleep : World
asleep = record (fresh 120) { place = sleeping }

recovers_example :
    Ends
      (fire_all timing
        (woke ∷ lock_taken ∷ torn_down ∷ lock_taken ∷ connected_to ∷ subscribed ∷ [])
        asleep)
      (IsServing timing)
unfolding fresh Session.new yield_holds
recovers_example = recovers timing asleep refl refl refl refl

stops_example :
    Ends (fire_all timing (stop_called ∷ stopper_entered ∷ stopper_left ∷ []) asleep) IsStopped
unfolding fresh
stops_example = stops timing asleep refl (inl refl)

abbrev half_up : World
half_up = record (fresh 120) {
  session = record (Session.new 120) { transport_up = true };
  place = subscribing again;
}

serves_without_reader_example :
    Ends (fire_all timing (subscribe_failed ∷ backoff_over ∷ woke ∷ []) half_up) (λ w'.
      (w'.session.link ≡ connected) × (w'.session.reader_running ≡ false) × (w'.place ≡ sleeping))
unfolding fresh Session.new
serves_without_reader_example = serves_without_reader timing half_up refl refl refl refl

abbrev up_at : World
up_at = record (fresh 120) {
  session = record (Session.new 120) {
    link = connected;
    transport_up = true;
    reader_running = true;
    reading_at = some 5;
  };
  place = sleeping;
  now = 60;
}

silence_untold_example :
    let w' = record up_at { now = 160; backoff = timing.backoff_initial } in
    (w'.session.told ≡ up_at.session.told)
    × ((snapshot w'.now w'.session).stale ≡ true)
    × ((snapshot w'.now w'.session).link ≡ connected)
unfolding fresh Session.new fire_all fire fire_supervisor fire_caller wake yield_holds tick set_link
silence_untold_example =
    silence_untold timing (passed 70 ∷ woke ∷ passed 30 ∷ woke ∷ []) up_at
      (record up_at { now = 160; backoff = timing.backoff_initial }) 5
      (record {
        asleep = refl;
        unlocked = refl;
        no_yielder = refl;
        no_stopper = refl;
        up = refl;
        reported = refl;
        unyielded = refl;
      })
      (refl, (refl, (refl, (refl, tt)))) refl refl (omega arith)

-- An adapter that flaps: on while an attempt runs, then thrice in the pause, where it is cleared.
abbrev flapping : List Trial
flapping =
    record { asleep = 0; attempt = 20; meanwhile = 2; next_set = none }
    ∷ record { asleep = 3; attempt = 20; meanwhile = 0; next_set = some 4 }
    ∷ record { asleep = 0; attempt = 20; meanwhile = 0; next_set = some 90 }
    ∷ []

retry_paced_example :
    let r = retry_all 1 60 flapping (first_retry 100 true 5) in
    (r.early ≤ r.sets)
    × (100 + length flapping * (1 + 5) ≤ r.now + r.early * 5)
    × (r.backoff ≡ min (5 * 2 ^ length flapping) 60)
retry_paced_example = retry_paced 1 60 5 100 true flapping (omega arith)

flapping_cuts_two :
    retry_all 1 60 flapping (first_retry 100 true 5)
    ≡ record { now = 187; backoff = 40; power_on = false; sets = 6; early = 2 }
unfolding retry_all retry fail backoff_or_power_on await_power_on power_ons disarm first_retry
    next_backoff
flapping_cuts_two = refl
