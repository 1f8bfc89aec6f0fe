-- ===== src/Service/Commander/Concurrent/Planned.antt =====
-- service/commander.py: the four commands as a wait, a plan and `_send_verified` behind it.
use bedjet_local.Prelude.{
  ℕ, ◌≡◌, ap, refl, Bool, false, Option, none, some, List, Bool-cases, inl, inr,
}
use bedjet_local.Protocol.Constants.{CommandMode}
use bedjet_local.Python.Result.{Result, ok, err, ◌>>=◌, map_err}
use bedjet_local.Service.Reader.{Update}
use bedjet_local.Service.Commander.{
  Commander, Env, Raised, CommandResult, deliver, send_from, encode_error, is_unlocked,
  expected_status_for, send_verified, on_ok, wait_for_state, wait_from, or_silence,
}
use bedjet_local.Service.Commander.Requests.{
  Request, off_request, mode_request, temperature_request, fan_request, send_temperature, send_fan,
  target_is, fan_is, on_encoded, execute, send_off, send_mode, set_mode, set_temperature,
  set_fan_percent,
}
use bedjet_local.Service.Commander.Effects.{wait_again}
use bedjet_local.Protocol.Encode
use bedjet_local.Protocol.Encode.{EncodeError, snap_target_c, snap_fan_percent}
use bedjet_local.Python.Float.{Float, half}
use bedjet_local.Prelude.Int.{ℤ, pos}
use bedjet_local.Device.State.{is_on}
use bedjet_local.Service.Commander.Concurrent.{
  Plan, plan, plan_temperature, plan_fan, plan_mode, opening,
}

module _ (request : Request) (dry_run : Bool) (env : Env) where
  -- What the sequential command makes of the state that it waited for.
  unfoldable pub planned :
      Result Raised Plan → Update → Commander → Result Raised CommandResult × Commander
  planned (ok p) u c = send_from p.payload p.satisfied dry_run env u c
  planned (err e) u c = (err e, c)

  -- The sequential command with the wait before it.
  abbrev pub waited : Commander → Result Raised CommandResult × Commander
  waited c = on_ok (wait_for_state env.heard_before c) λ u c'. planned (plan request u) u c'

  -- A wait that gives an update keeps it.
  Keeps : Result Raised Update × Commander → Type 0
  Keeps (ok u, c) = c.latest ≡ some u
  Keeps (err e, c) = Unit

  silence-Keeps : (o : Option Update) (c : Commander) → c.latest ≡ o → Keeps (or_silence c o)
  unfolding or_silence Keeps
  silence-Keeps none c e = tt
  silence-Keeps (some u) c e = e

  wait-Keeps :
      (o : Option Update) (heard : List Update) (c : Commander)
      → c.latest ≡ o
      → Keeps (wait_from o heard c)
  unfolding wait_from Keeps
  wait-Keeps (some u) heard c e = e
  wait-Keeps none heard c e =
      let c' = deliver heard (record c { updated = false }) in silence-Keeps c'.latest c' refl

  on_ok-same :
      (x : Result Raised Update × Commander)
      (f g : Update → Commander → Result Raised CommandResult × Commander)
      → Keeps x
      → ((u : Update) (c : Commander) → c.latest ≡ some u → f u c ≡ g u c)
      → on_ok x f ≡ on_ok x g
  unfolding Keeps
  on_ok-same (ok u, c) f g k h = h u c k
  on_ok-same (err e, c) f g k h = refl

  send_verified-planned :
      (p : Plan) (u : Update) (c : Commander)
      → c.latest ≡ some u
      → send_verified p.payload p.satisfied dry_run env c ≡ planned (ok p) u c
  unfolding send_verified planned
  send_verified-planned p u c e =
      ap (λ x. on_ok x (send_from p.payload p.satisfied dry_run env))
        (wait_again env.heard_before c u e)

  encoded-planned :
      {A : Type 0} (x : Result EncodeError A) (u : Update) (c : Commander)
      (f : A → Result Raised CommandResult × Commander) (g : A → Result Raised Plan)
      → ((a : A) → f a ≡ planned (g a) u c)
      → on_encoded x c f ≡ planned (map_err encode_error x >>= g) u c
  unfolding planned
  encoded-planned (ok a) u c f g h = h a
  encoded-planned (err e) u c f g h = refl

  send_temperature-planned :
      (celsius : Float) (low high : Option ℕ) (u : Update) (c : Commander)
      → c.latest ≡ some u
      → send_temperature celsius low high dry_run env c
        ≡ planned (plan_temperature celsius low high) u c
  unfolding send_temperature plan_temperature planned
  send_temperature-planned celsius (some low) (some high) u c e =
      encoded-planned (snap_target_c celsius) u c _ _ λ rounded.
        encoded-planned (Encode.set_temperature (half rounded) (some low) (some high)) u c _ _
          λ payload.
            send_verified-planned (record { payload = payload; satisfied = target_is rounded }) u c
              e
  send_temperature-planned celsius (some low) none u c e = refl
  send_temperature-planned celsius none high u c e = refl

  send_fan-planned :
      (percent : ℤ) (u : Update) (c : Commander)
      → c.latest ≡ some u
      → send_fan percent dry_run env c ≡ planned (plan_fan percent) u c
  unfolding send_fan plan_fan
  send_fan-planned percent u c e = encoded-planned (snap_fan_percent percent) u c _ _ λ snapped.
      encoded-planned (Encode.set_fan_percent (pos snapped)) u c _ _ λ payload.
        send_verified-planned (record { payload = payload; satisfied = fan_is snapped }) u c e

  same-waited :
      (f : Update → Commander → Result Raised CommandResult × Commander) (c : Commander)
      → ((u : Update) (c' : Commander)
          → c'.latest ≡ some u
          → f u c' ≡ planned (plan request u) u c')
      → on_ok (wait_for_state env.heard_before c) f ≡ waited c
  unfolding wait_for_state
  same-waited f c h =
      on_ok-same (wait_from c.latest env.heard_before c) f _
        (wait-Keeps c.latest env.heard_before c refl) h

module _ (dry_run : Bool) (env : Env) (c : Commander) where
  unlocked-waited :
      (m : CommandMode)
      → opening (mode_request m) ≡ none
      → set_mode m dry_run env c ≡ waited (mode_request m) dry_run env c
  unfolding opening is_unlocked expected_status_for set_mode send_mode send_verified plan plan_mode
      planned
  unlocked-waited CommandMode.off o = refl
  unlocked-waited CommandMode.cool o = refl
  unlocked-waited CommandMode.heat o = refl
  unlocked-waited CommandMode.dry o = refl
  unlocked-waited CommandMode.turbo o = absurd cc
  unlocked-waited CommandMode.extended_heat o = absurd cc

  -- The four commands wait, plan, and send.
  pub execute-waited :
      (r : Request) → opening r ≡ none → execute r dry_run env c ≡ waited r dry_run env c
  unfolding execute send_off send_verified set_temperature set_fan_percent plan planned
  execute-waited off_request o = refl
  execute-waited (mode_request m) o = unlocked-waited m o
  execute-waited (temperature_request celsius) o =
      same-waited (temperature_request celsius) dry_run env _ c λ u c' e.
        elim (Bool-cases (is_on u.0.power)) [
          | inl on ↦ rw on (
              send_temperature-planned (temperature_request celsius) dry_run env celsius
                u.1.min_temp_c u.1.max_temp_c u c' e)
          | inr off ↦ rw off refl
        ]
  execute-waited (fan_request percent) o =
      same-waited (fan_request percent) dry_run env _ c λ u c' e.
        elim (Bool-cases (is_on u.0.power)) [
          | inl on ↦ rw on (send_fan-planned (fan_request percent) dry_run env percent u c' e)
          | inr off ↦ rw off refl
        ]

  pub opening-refuses :
      (r : Request) (e : Raised) → opening r ≡ some e → execute r dry_run env c ≡ (err e, c)
  unfolding opening is_unlocked expected_status_for execute set_mode
  opening-refuses off_request e o = absurd cc
  opening-refuses (mode_request CommandMode.off) e o = absurd cc
  opening-refuses (mode_request CommandMode.cool) e o = absurd cc
  opening-refuses (mode_request CommandMode.heat) e o = absurd cc
  opening-refuses (mode_request CommandMode.dry) e o = absurd cc
  opening-refuses (mode_request CommandMode.turbo) e o = cc
  opening-refuses (mode_request CommandMode.extended_heat) e o = cc
  opening-refuses (temperature_request celsius) e o = absurd cc
  opening-refuses (fan_request percent) e o = absurd cc
