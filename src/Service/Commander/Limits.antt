-- ===== src/Service/Commander/Limits.antt =====
-- What any of the four commands may put on the wire.
use bedjet_local.Prelude.{
  ℕ, ◌≡◌, inl, inr, refl, subst, Bool, true, not, Option, none, some, arith, Bool-cases,
  if◌then◌else◌,
}
use bedjet_local.Prelude.Int.{ℤ, pos}
use bedjet_local.Protocol.Constants.{Bytes, CommandMode}
use bedjet_local.Protocol.Encode
use bedjet_local.Protocol.Encode.{EncodeError, turn_off, snap_target_c, snap_fan_percent}
use bedjet_local.Protocol.Encode.Fan.{
  FanOutcome, snapped, refused as refused_fan, set_fan_percent_lem,
}
use bedjet_local.Protocol.Encode.Temperature.{set_temperature_within}
use bedjet_local.Python.Float.{Float, half}
use bedjet_local.Python.Result.{Result, ok, err}
use bedjet_local.Device.State.{Power, on, is_on}
use bedjet_local.Service.Reader.{Update}
use bedjet_local.Service.Commander.{
  Commander, Env, Raised, refused, not_running, wait_for_state, send_verified, on_ok, is_unlocked,
  expected_status_for,
}
use bedjet_local.Service.Commander.Outcomes.{Silent, Waited, wait_for_state-Waited}
use bedjet_local.Service.Commander.Requests.{
  Request, off_request, mode_request, temperature_request, fan_request, execute, send_off,
  send_mode, set_mode, send_temperature, set_temperature, send_fan, set_fan_percent, on_encoded,
  target_is, fan_is,
}
use bedjet_local.Service.Commander.Effects.{
  IsAllowed, off_allowed, cool_allowed, heat_allowed, dry_allowed, temperature_allowed, fan_allowed,
  Effect, silent, send_verified-Effect, send_again-Effect,
}

is_on_eq : (p : Power) → is_on p ≡ true → p ≡ on
is_on_eq p h = ground arith

module _ (dry_run : Bool) (env : Env) (c c1 : Commander) (u : Update)
    (w : (wait_for_state env.heard_before c).0 ≡ ok u) (e : Silent c c1) (l : c1.latest ≡ some u)
    (running : u.0.power ≡ on) where
  temperature_payload :
      (rounded low high : ℕ) (x : Result EncodeError Bytes)
      → u.1.min_temp_c ≡ some low
      → u.1.max_temp_c ≡ some high
      → Encode.set_temperature (half rounded) (some low) (some high) ≡ x
      → Effect dry_run env c
          (on_encoded x c1 (λ payload. send_verified payload (target_is rounded) dry_run env c1)).1
  temperature_payload rounded low high (err x) p q h = silent e
  temperature_payload rounded low high (ok payload) p q h =
      let (raw, shape, above, below, byte, snap) =
        set_temperature_within (half rounded) low high payload h in
      send_again-Effect payload (target_is rounded) dry_run env c c1 u w e l
        (rw shape (temperature_allowed raw low high running p q above below))

  temperature_rounded :
      (low high : ℕ) (x : Result EncodeError ℕ)
      → u.1.min_temp_c ≡ some low
      → u.1.max_temp_c ≡ some high
      → Effect dry_run env c
          (on_encoded x c1 (λ rounded.
            on_encoded
              (Encode.set_temperature (half rounded) (some low) (some high))
              c1
              (λ payload. send_verified payload (target_is rounded) dry_run env c1))).1
  temperature_rounded low high (err x) p q = silent e
  temperature_rounded low high (ok rounded) p q =
      temperature_payload rounded low high
        (Encode.set_temperature (half rounded) (some low) (some high)) p q refl

  send_temperature-Effect :
      (celsius : Float) (low high : Option ℕ)
      → u.1.min_temp_c ≡ low
      → u.1.max_temp_c ≡ high
      → Effect dry_run env c (send_temperature celsius low high dry_run env c1).1
  unfolding send_temperature
  send_temperature-Effect celsius (some low) (some high) p q =
      temperature_rounded low high (snap_target_c celsius) p q
  send_temperature-Effect celsius (some low) none p q = silent e
  send_temperature-Effect celsius none high p q = silent e

  fan_payload :
      (q : ℕ) (x : Result EncodeError Bytes)
      → Encode.set_fan_percent (pos q) ≡ x
      → Effect dry_run env c
          (on_encoded x c1 (λ payload. send_verified payload (fan_is q) dry_run env c1)).1
  fan_payload q (err x) h = silent e
  fan_payload q (ok payload) h =
      send_again-Effect payload (fan_is q) dry_run env c c1 u w e l
        (fan_shape (set_fan_percent_lem (pos q)) h)
    where
      fan_shape :
          FanOutcome (pos q) → Encode.set_fan_percent (pos q) ≡ ok payload → IsAllowed u payload
      fan_shape (snapped p step e1 l1 l2 max l3 l4 s1 s2) k =
          subst (IsAllowed u) (cc) (fan_allowed step running max)
      fan_shape (refused_fan r s1 s2) k = absurd (cc)

  send_fan-Effect :
      (x : Result EncodeError ℕ)
      → Effect dry_run env c
          (on_encoded x c1 (λ q.
            on_encoded
              (Encode.set_fan_percent (pos q))
              c1
              (λ payload. send_verified payload (fan_is q) dry_run env c1))).1
  send_fan-Effect (err x) = silent e
  send_fan-Effect (ok q) = fan_payload q (Encode.set_fan_percent (pos q)) refl

module _ (dry_run : Bool) (env : Env) (c : Commander) where
  temperature-Effect :
      (celsius : Float) (x : Result Raised Update × Commander)
      → (wait_for_state env.heard_before c).0 ≡ x.0
      → Waited c x
      → Effect dry_run env c
          (on_ok x (λ before c'.
            if not (is_on before.0.power)
            then (err (refused not_running), c')
            else send_temperature celsius before.1.min_temp_c before.1.max_temp_c dry_run env c')).1
  temperature-Effect celsius (err r, c1) w h = silent h.0
  temperature-Effect celsius (ok u, c1) w h = elim (Bool-cases (is_on u.0.power)) [
    | inr idle ↦ rw idle (silent h.0)
    | inl running ↦ rw running (
        send_temperature-Effect dry_run env c c1 u w h.0 h.1 (is_on_eq u.0.power running) celsius
          u.1.min_temp_c u.1.max_temp_c refl refl)
  ]

  fan-Effect :
      (percent : ℤ) (x : Result Raised Update × Commander)
      → (wait_for_state env.heard_before c).0 ≡ x.0
      → Waited c x
      → Effect dry_run env c
          (on_ok x (λ before c'.
            if not (is_on before.0.power)
            then (err (refused not_running), c')
            else send_fan percent dry_run env c')).1
  unfolding send_fan
  fan-Effect percent (err r, c1) w h = silent h.0
  fan-Effect percent (ok u, c1) w h = elim (Bool-cases (is_on u.0.power)) [
    | inr idle ↦ rw idle (silent h.0)
    | inl running ↦ rw running (
        send_fan-Effect dry_run env c c1 u w h.0 h.1 (is_on_eq u.0.power running)
          (snap_fan_percent percent))
  ]

  mode-Effect : (m : CommandMode) → Effect dry_run env c (set_mode m dry_run env c).1
  unfolding set_mode send_mode is_unlocked expected_status_for Encode.set_mode
  mode-Effect CommandMode.off = send_verified-Effect _ _ dry_run env c (λ u _. off_allowed)
  mode-Effect CommandMode.cool = send_verified-Effect _ _ dry_run env c (λ u _. cool_allowed)
  mode-Effect CommandMode.heat = send_verified-Effect _ _ dry_run env c (λ u _. heat_allowed)
  mode-Effect CommandMode.dry = send_verified-Effect _ _ dry_run env c (λ u _. dry_allowed)
  mode-Effect CommandMode.turbo = silent refl
  mode-Effect CommandMode.extended_heat = silent refl

-- No command writes more than once, and none writes at all but: off, cool, heat or dry; a
-- temperature within the range that the current packet reports, or a fan step up to 19, with the
-- unit running. Each was checked against a trustworthy update. Turbo and extended heat never go
-- out, and a dry run writes nothing.
pub execute-Effect :
    (request : Request) (dry_run : Bool) (env : Env) (c : Commander)
    → Effect dry_run env c (execute request dry_run env c).1
unfolding execute send_off turn_off Encode.set_mode set_temperature set_fan_percent
execute-Effect off_request dry_run env c =
    send_verified-Effect _ _ dry_run env c (λ u _. off_allowed)
execute-Effect (mode_request m) dry_run env c = mode-Effect dry_run env c m
execute-Effect (temperature_request celsius) dry_run env c =
    temperature-Effect dry_run env c celsius (wait_for_state env.heard_before c) refl
      (wait_for_state-Waited env.heard_before c)
execute-Effect (fan_request percent) dry_run env c =
    fan-Effect dry_run env c percent (wait_for_state env.heard_before c) refl
      (wait_for_state-Waited env.heard_before c)
