-- ===== src/Integrations/Mqtt/Cancelled.antt =====
-- integrations/mqtt.py, `MqttBridge.run`: what a cancellation, as that of the shutdown, comes to.
-- It is `awaited (raises other _)`, and what is left of `_session` follows.
use bedjet_local.Prelude.{ℕ, zero, suc, ◌≡◌, Bool, true, false, Option, none, some, if◌then◌else◌}
use bedjet_local.Integrations.Mqtt.Bridge.{
  Availability, Publishing, availability_of, greeting, availability_for, offline, broker_error,
  other, returns, raises, raised, Standing, uncalled, serving, joining, parting, closing, ended,
  Publisher, failed, Bridge, awaited, fire,
}

abbrev is_winding : Standing → Bool
is_winding (joining _) = true
is_winding (parting _) = true
is_winding (closing _) = true
is_winding _ = false

-- The awaits of the `finally` and of `Client.__aexit__` return, so many of them at most.
unfoldable pub wind_up : ℕ → Option Bridge → Option Bridge
unfolding fire
wind_up zero o = o
wind_up (suc n) none = none
wind_up (suc n) (some b) =
    wind_up n (if is_winding b.standing then fire (awaited returns) b else some b)

-- The cancellation; `reached` tells whether the broker got the packet that was on its way.
abbrev pub after_cancel : Bool → Bridge → Option Bridge
after_cancel reached b = wind_up 3 (fire (awaited (raises other reached)) b)

abbrev pub is_running : Standing → Bool
is_running uncalled = false
is_running ended = false
is_running _ = true

-- Whether a cancellation gets through: not past a publisher that has failed with an MqttError, nor
-- past `suppress(CancelledError)` while the publisher is awaited, unless `run` was ending anyway.
abbrev pub gets_through : Standing → Publisher → Bool
gets_through serving (failed broker_error) = false
gets_through (joining (raised other)) _ = true
gets_through (joining _) _ = false
gets_through _ _ = true

-- The retained availability once a publication was cut.
abbrev pub greeting_left : Bool → Publishing → Option Availability → Option Availability
greeting_left true (availability_of s) old = some (availability_for s)
greeting_left _ _ old = old

-- The retained availability behind a cancellation: `offline` by the goodbye, which is still said or has
-- just reached the broker, or by the will, where the closing of a standing connection is cut and the
-- broker does not hear of it; that of the greeting that has just reached the broker; or the one before.
abbrev pub availability_left : Bool → Standing → Publisher → Bridge → Option Availability
availability_left reached serving (failed _) b = b.availability
availability_left reached serving _ b = some offline
availability_left reached (joining _) _ b = some offline
availability_left reached (parting _) _ b = if reached then some offline else b.availability
availability_left reached greeting _ b = greeting_left reached b.publishing b.availability
availability_left true (closing _) _ b = b.availability
availability_left false (closing _) _ b = if b.connected then some offline else b.availability
availability_left reached _ _ b = b.availability

abbrev pub is_ended : Standing → Bool
is_ended ended = true
is_ended _ = false

-- What a cancellation leaves of a bridge.
abbrev pub Leaves : Bool → Bridge → Option Bridge → Type 0
Leaves reached b none = ⊥
Leaves reached b (some b') =
    (is_ended b'.standing ≡ gets_through b.standing b.publisher)
    × (b'.subscribed ≡ (if gets_through b.standing b.publisher then false else b.subscribed))
    × (b'.availability ≡ availability_left reached b.standing b.publisher b)
