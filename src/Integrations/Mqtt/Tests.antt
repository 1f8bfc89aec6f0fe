-- ===== src/Integrations/Mqtt/Tests.antt =====
-- A command message and an evening of a bridge, and the theorems about the bridge at them.
use bedjet_local.Prelude.{ℕ, ◌≡◌, refl, true, false, some, List, [], ◌∷◌, length, arith}
use bedjet_local.Python.Float.{Float}
use bedjet_local.Service.Commander
use bedjet_local.Service.Session.{snapshot}
use bedjet_local.Api.Models.{DeviceSnapshot, from_session}
use bedjet_local.Api.Tests.{evening_call}
use bedjet_local.Integrations.Outbox.{Op, push, next as get_next, run_queue}
use bedjet_local.Integrations.Outbox.Newest.{Refines, read_log, run_queue-Refines}
use bedjet_local.Integrations.Mqtt.{is_available}
use bedjet_local.Integrations.Mqtt.Payload.{Renders, state_payload, payload-Renders}
use bedjet_local.Integrations.Mqtt.Bridge
use bedjet_local.Integrations.Mqtt.Bridge.{
  Bridge, snapshot_taken, called, awaited, greets, returns, broker_error, connecting, subscribing,
  greeting, serving, pausing, looping, failed, nothing, availability_of, state_of, online, fire,
  from_call, resume_at, after_connect, greet, greeted, publish, publish_next, retain,
  availability_for, enter_finally, after_session, Reachable, made, then_fired,
}
use bedjet_local.Integrations.Mqtt.Retained.{is_exposed, retained_honest}
use bedjet_local.Integrations.Mqtt.Published.{fire_all, rounds, queue_with, told, snapshot_told}
use bedjet_local.Integrations.Mqtt.Cancelled.{wind_up, after_cancel}

-- A full queue of two that loses its oldest entry.
abbrev evening_ops : List (Op ℕ)
evening_ops = push 1 ∷ push 2 ∷ push 3 ∷ get_next ∷ push 4 ∷ []

run_queue-Refines_example :
    ((run_queue 2 evening_ops []).0
      ≡ (read_log 2 evening_ops (record { log = []; position = 0 })).0)
    × Refines 2
        (run_queue 2 evening_ops []).1
        (read_log 2 evening_ops (record { log = []; position = 0 })).1
run_queue-Refines_example = run_queue-Refines 2 (omega arith) evening_ops

abbrev fresh_reading : DeviceSnapshot
fresh_reading = record (from_session (snapshot evening_call.now evening_call.session)) {
  available = true;
  stale = false;
}

abbrev called_ : Bridge
called_ = record (Bridge.new false) { standing = connecting; subscribed = true }

abbrev joined : Bridge
joined = record called_ { standing = subscribing; connected = true }

abbrev greeted_with : Bridge
greeted_with = record joined { standing = greeting; publishing = availability_of fresh_reading }

abbrev announced : Bridge
announced = record greeted_with { availability = some online; publishing = state_of fresh_reading }

abbrev settled : Bridge
settled = record announced {
  standing = serving;
  publisher = looping;
  state = some fresh_reading;
  publishing = nothing;
}

settled-Reachable : Reachable false settled
unfolding fire from_call resume_at after_connect greet greeted publish publish_next retain
    availability_for is_available Bridge.new
settled-Reachable =
    then_fired announced settled (awaited returns)
      (then_fired greeted_with announced (awaited returns)
        (then_fired joined greeted_with (greets fresh_reading)
          (then_fired called_ joined (awaited returns)
            (then_fired (Bridge.new false) called_ called (made false) (λ h. h) refl) (λ h. h) refl)
          (λ h. h) refl)
        (λ h. h) refl)
      (λ h. h) refl

retained_honest_example :
    (settled.connected ≡ true)
    × (is_exposed settled.standing ≡ true)
    × (settled.publishing ≡ nothing
        → (s : DeviceSnapshot) × (settled.state ≡ some s)
          × (s.available ≡ true)
          × (s.stale ≡ false))
unfolding Bridge.new
retained_honest_example = retained_honest settled settled-Reachable refl

snapshot_told_example :
    fire_all
      (snapshot_taken fresh_reading ∷ rounds (length (queue_with fresh_reading settled.outgoing)))
      settled
    ≡ some (told fresh_reading [] settled)
snapshot_told_example = snapshot_told settled fresh_reading settled-Reachable refl refl refl

-- The publisher's publication has timed out while the connection stands.
abbrev unpublished : Bridge
unpublished = record settled { publisher = failed broker_error }

-- The bridge then neither ends nor says goodbye: `online` stays behind a connection closed in order.
unpublished_goes_on :
    after_cancel true unpublished
    ≡ some (record unpublished { standing = pausing; connected = false })
unfolding wind_up fire resume_at enter_finally after_session Bridge.new
unpublished_goes_on = refl

payload-Renders_example : Renders fresh_reading (state_payload fresh_reading)
payload-Renders_example = payload-Renders fresh_reading
