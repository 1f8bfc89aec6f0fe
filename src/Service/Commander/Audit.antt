-- ===== src/Service/Commander/Audit.antt =====
-- What the end of a command tells about the wire, for all four commands.
use bedjet_local.Prelude.{
  ℕ, ◌≡◌, ◌∙◌, inl, inr, refl, Bool, true, false, not, some, none, Option, Bool-cases,
  if◌then◌else◌,
}
use bedjet_local.Prelude.Int.{ℤ, pos}
use bedjet_local.Protocol.Constants.{Bytes, CommandMode, StatusMode}
use bedjet_local.Protocol.Encode
use bedjet_local.Protocol.Encode.{EncodeError, turn_off, snap_target_c, snap_fan_percent}
use bedjet_local.Python.Float.{Float, half}
use bedjet_local.Python.Result.{Result, ok, err}
use bedjet_local.Device.State.{BedJetState, is_on}
use bedjet_local.Service.Reader.{Update}
use bedjet_local.Service.Commander.{
  Commander, Env, Raised, refused, already_satisfied, write_failed, unverified, encode_error,
  assertion_error, still_waiting, CommandResult, wait_for_state, send_verified, on_ok, is_unlocked,
  expected_status_for, not_running,
}
use bedjet_local.Service.Commander.Outcomes.{
  Silent, Wrote, Contract, Waited, wait_for_state-Waited, send_verified-Contract,
}
use bedjet_local.Service.Commander.Requests.{
  Request, off_request, mode_request, temperature_request, fan_request, execute, send_off,
  send_mode, set_mode, send_temperature, set_temperature, send_fan, set_fan_percent, on_encoded,
}

-- How the end of a command tells what it wrote.
abbrev pub Accounted : Bool → Commander → Result Raised CommandResult × Commander → Type 0
Accounted dry_run c (ok r, c') =
    (dry_run ≡ true → Silent c c') × (dry_run ≡ false → Wrote r.payload c c')
Accounted dry_run c (err (refused e), c') = Silent c c'
Accounted dry_run c (err already_satisfied, c') = Silent c c'
Accounted dry_run c (err (encode_error e), c') = Silent c c'
Accounted dry_run c (err (write_failed p), c') = (dry_run ≡ false) × Wrote p c c'
Accounted dry_run c (err (unverified p s), c') = (dry_run ≡ false) × Wrote p c c'
Accounted dry_run c (err still_waiting, c') = (dry_run ≡ false) × ((p : Bytes) × Wrote p c c')
Accounted dry_run c (err assertion_error, c') = ⊥

module _ (dry_run : Bool) (env : Env) (c c1 : Commander) (quiet : Silent c c1) where
  Contract-Accounted :
      (payload : Bytes) (satisfied : BedJetState → Bool)
      (x : Result Raised CommandResult × Commander)
      → Contract payload satisfied dry_run env c1 x
      → Accounted dry_run c x
  Contract-Accounted payload satisfied (ok r, c') h =
      ((λ d. (h.3 d).0 ∙ quiet), (λ d. let w = (h.4 d).0 in let named = h.0 in cc))
  Contract-Accounted payload satisfied (err (refused e), c') h = h ∙ quiet
  Contract-Accounted payload satisfied (err already_satisfied, c') h = h ∙ quiet
  Contract-Accounted payload satisfied (err (encode_error e), c') h = h ∙ quiet
  Contract-Accounted payload satisfied (err (write_failed p), c') h = (h.1, cc)
  Contract-Accounted payload satisfied (err (unverified p s), c') h = (h.1, cc)
  Contract-Accounted payload satisfied (err still_waiting, c') h = (h.0, (payload, cc))
  Contract-Accounted payload satisfied (err assertion_error, c') h = absurd h

  send-Accounted :
      (payload : Bytes) (satisfied : BedJetState → Bool)
      → Accounted dry_run c (send_verified payload satisfied dry_run env c1)
  send-Accounted payload satisfied =
      Contract-Accounted payload satisfied (send_verified payload satisfied dry_run env c1)
        (send_verified-Contract payload satisfied dry_run env c1)

  on_encoded-Accounted :
      {A : Type 0} (x : Result EncodeError A) (f : A → Result Raised CommandResult × Commander)
      → ((a : A) → Accounted dry_run c (f a))
      → Accounted dry_run c (on_encoded x c1 f)
  on_encoded-Accounted (ok a) f h = h a
  on_encoded-Accounted (err e) f h = quiet

  send_temperature-Accounted :
      (celsius : Float) (low high : Option ℕ)
      → Accounted dry_run c (send_temperature celsius low high dry_run env c1)
  unfolding send_temperature
  send_temperature-Accounted celsius none high = quiet
  send_temperature-Accounted celsius (some low) none = quiet
  send_temperature-Accounted celsius (some low) (some high) =
      on_encoded-Accounted (snap_target_c celsius) _ λ rounded.
        on_encoded-Accounted (Encode.set_temperature (half rounded) (some low) (some high)) _
          λ payload. send-Accounted payload _

  send_fan-Accounted : (percent : ℤ) → Accounted dry_run c (send_fan percent dry_run env c1)
  unfolding send_fan
  send_fan-Accounted percent = on_encoded-Accounted (snap_fan_percent percent) _ λ snapped.
      on_encoded-Accounted (Encode.set_fan_percent (pos snapped)) _
        λ payload. send-Accounted payload _

module _ (dry_run : Bool) (env : Env) (c : Commander) where
  -- A command that wants a running unit.
  on_running-Accounted :
      (x : Result Raised Update × Commander)
      (f : Update → Commander → Result Raised CommandResult × Commander)
      → Waited c x
      → ((u : Update) (c1 : Commander) → Silent c c1 → Accounted dry_run c (f u c1))
      → Accounted dry_run c (
          on_ok x
            (λ u c1. if not (is_on u.0.power) then (err (refused not_running), c1) else f u c1))
  on_running-Accounted (err e, c1) f w h = rw w.1 w.0
  on_running-Accounted (ok u, c1) f w h = elim (Bool-cases (is_on u.0.power)) [
    | inr idle ↦ rw idle w.0
    | inl running ↦ rw running (h u c1 w.0)
  ]

  send_mode-Accounted :
      (m : CommandMode) (expected : Option StatusMode)
      → Accounted dry_run c (send_mode m expected dry_run env c)
  unfolding send_mode
  send_mode-Accounted m none = refl
  send_mode-Accounted m (some expected) = send-Accounted dry_run env c c refl _ _

-- However a command ends, and whatever was asked, its end tells what was written: the payload that
-- its result names, unless it was a dry run; the payload of an unverified or failed write; and
-- nothing at all when it was refused, already satisfied or could not be encoded.
pub execute-Accounted :
    (request : Request) (dry_run : Bool) (env : Env) (c : Commander)
    → Accounted dry_run c (execute request dry_run env c)
unfolding execute send_off set_mode set_temperature set_fan_percent
execute-Accounted off_request dry_run env c = send-Accounted dry_run env c c refl _ _
execute-Accounted (mode_request m) dry_run env c = elim (Bool-cases (is_unlocked m)) [
  | inl unlocked ↦ rw unlocked (send_mode-Accounted dry_run env c m (expected_status_for m))
  | inr locked ↦ rw locked refl
]
execute-Accounted (temperature_request celsius) dry_run env c =
    on_running-Accounted dry_run env c (wait_for_state env.heard_before c) _
      (wait_for_state-Waited env.heard_before c)
      λ u c1 quiet. send_temperature-Accounted dry_run env c c1 quiet celsius _ _
execute-Accounted (fan_request percent) dry_run env c =
    on_running-Accounted dry_run env c (wait_for_state env.heard_before c) _
      (wait_for_state-Waited env.heard_before c)
      λ u c1 quiet. send_fan-Accounted dry_run env c c1 quiet percent
