-- ===== src/Service/Commander/Goals.antt =====
-- What a returned command has achieved, against the meaning of its request.
use mathlib.Core.List.{Memᴰ}
use bedjet_local.Prelude.{
  ℕ, suc, ◌+◌, ◌*◌, ◌^◌, ◌≤◌, ◌≡◌, ◌⊎◌, inl, inr, arith, subst, refl, Bool-cases, Bool, true, false,
  not, Option, none, some, if_both, if◌then◌else◌,
}
use bedjet_local.Prelude.Int.{ℤ, pos, negsuc}
use bedjet_local.Protocol.Constants.{Bytes, CommandMode, StatusMode, standby}
use bedjet_local.Protocol.Packets.{is_trustworthy}
use bedjet_local.Protocol.Encode
use bedjet_local.Protocol.Encode.Temperature.{
  snap_target_c_nearest, snap_target_c_negative, snap_target_c_finite,
}
use bedjet_local.Protocol.Encode.Fan.{FanOutcome, snapped, set_fan_percent_lem}
use bedjet_local.Protocol.Encode.{EncodeError, turn_off, snap_target_c, snap_fan_percent}
use bedjet_local.Python.Float.{Float, nan, pos_inf, neg_inf, finite, half}
use bedjet_local.Python.Result.{Result, ok, err}
use bedjet_local.Device.State.{BedJetState, Power, is_on}
use bedjet_local.Service.Reader.{Update}
use bedjet_local.Service.Commander.{
  Commander, Env, Raised, refused, CommandResult, wait_for_state, send_verified, on_ok, is_unlocked,
  expected_status_for, not_running,
}
use bedjet_local.Service.Commander.Outcomes.{Contract, heard_after_write, send_verified-Contract}
use bedjet_local.Service.Commander.Requests.{
  Request, off_request, mode_request, temperature_request, fan_request, execute, send_off,
  send_mode, set_mode, send_temperature, set_temperature, send_fan, set_fan_percent, on_encoded,
  off_satisfied, mode_is, target_is, fan_is,
}

-- The status that a mode command asks for; turbo and extended heat ask for none.
pub data SameMode : CommandMode → StatusMode → Type 0 where
  stands_by : SameMode CommandMode.off standby
  cools : SameMode CommandMode.cool StatusMode.cool
  heats : SameMode CommandMode.heat StatusMode.heat
  dries : SameMode CommandMode.dry StatusMode.dry

-- `target` half degrees are at most a quarter of a degree from the request.
abbrev pub IsNear : Float → ℕ → Type 0
IsNear nan target = ⊥
IsNear pos_inf target = ⊥
IsNear neg_inf target = ⊥
IsNear (finite (pos n) k) target =
    (2 * (target * 2 ^ k) ≤ 4 * n + 2 ^ k) × (4 * n ≤ 2 * (target * 2 ^ k) + 2 ^ k)
IsNear (finite (negsuc n) k) target = (target ≡ 0) × (4 * suc n ≤ 2 ^ k)

-- A state is what a request asks for: off, the mode, a target next to the request, or the step of the
-- fan next to a percentage in range.
abbrev pub Shows : Request → BedJetState → Type 0
Shows off_request s = (s.mode ≡ some standby) ⊎ (s.power ≡ Power.off)
Shows (mode_request m) s = (status : StatusMode) × (s.mode ≡ some status) × SameMode m status
Shows (temperature_request celsius) s =
    (target : ℕ) × (s.target_temp_c ≡ some target) × IsNear celsius target
Shows (fan_request percent) s =
    (p : ℕ) × (step : ℕ) × (percent ≡ pos p)
    × (s.fan_percent ≡ some (5 + 5 * step))
    × (5 ≤ p)
    × (p ≤ 100)
    × (step ≤ 19)
    × (5 + 5 * step ≤ p + 2)
    × (p ≤ 5 + 5 * step + 2)

mode_shown :
    (expected : StatusMode) (s : BedJetState) → mode_is expected s ≡ true → s.mode ≡ some expected
unfolding mode_is
mode_shown expected s h = ground arith

off_shown : (s : BedJetState) → off_satisfied s ≡ true → Shows off_request s
unfolding off_satisfied
off_shown s h = elim (Bool-cases (mode_is standby s)) [
  | inl e ↦ inl (mode_shown standby s e)
  | inr e ↦ inr (ground arith)
]

same_mode :
    (m : CommandMode) (status : StatusMode)
    → expected_status_for m ≡ some status
    → SameMode m status
unfolding expected_status_for
same_mode m status h =
    elim m as (λ m. expected_status_for m ≡ some status → SameMode m status) [
      | CommandMode.off ↦ λ e. subst (SameMode CommandMode.off) (cc) stands_by
      | CommandMode.cool ↦ λ e. subst (SameMode CommandMode.cool) (cc) cools
      | CommandMode.heat ↦ λ e. subst (SameMode CommandMode.heat) (cc) heats
      | CommandMode.dry ↦ λ e. subst (SameMode CommandMode.dry) (cc) dries
      | CommandMode.turbo ↦ λ e. absurd cc
      | CommandMode.extended_heat ↦ λ e. absurd cc
    ]
      h

target_shown :
    (target : ℕ) (s : BedJetState) → target_is target s ≡ true → s.target_temp_c ≡ some target
unfolding target_is
target_shown target s h = ground arith

fan_shown : (percent : ℕ) (s : BedJetState) → fan_is percent s ≡ true → s.fan_percent ≡ some percent
unfolding fan_is
fan_shown percent s h = ground arith

snap-IsNear :
    (celsius : Float) (target : ℕ) → snap_target_c celsius ≡ ok target → IsNear celsius target
snap-IsNear nan target h = (snap_target_c_finite nan target h).0 refl
snap-IsNear pos_inf target h = (snap_target_c_finite pos_inf target h).1 refl
snap-IsNear neg_inf target h = (snap_target_c_finite neg_inf target h).2 refl
snap-IsNear (finite (pos n) k) target h =
    let (byte, above, below) = snap_target_c_nearest n k target h in (above, below)
snap-IsNear (finite (negsuc n) k) target h = snap_target_c_negative n k target h

fan_near :
    (percent : ℤ) (target : ℕ) (s : BedJetState)
    → snap_fan_percent percent ≡ ok target
    → fan_is target s ≡ true
    → Shows (fan_request percent) s
fan_near percent target s h t = elim (set_fan_percent_lem percent) [
  | snapped p step e low high max above below snaps encodes ↦ (
    p,
    step,
    e,
    fan_shown (5 + 5 * step) s (subst (λ n. fan_is n s ≡ true) (cc) t),
    low,
    high,
    max,
    above,
    below,
  )
  | FanOutcome.refused outside snaps encodes ↦ absurd cc
]

module _ (request : Request) (env : Env) where
  -- What was returned shows what was asked for, in a trustworthy packet heard since the write began.
  abbrev pub Achieved : Result Raised CommandResult × Commander → Type 0
  Achieved (ok r, c) =
      Shows request r.after
      × (is_trustworthy r.after_packet ≡ true)
      × Memᴰ (r.after, r.after_packet) (heard_after_write env)
  Achieved (err e, c) = Unit

  Contract-Achieved :
      (payload : Bytes) (satisfied : BedJetState → Bool) (c : Commander)
      (x : Result Raised CommandResult × Commander)
      → ((s : BedJetState) → satisfied s ≡ true → Shows request s)
      → Contract payload satisfied false env c x
      → Achieved x
  Contract-Achieved payload satisfied c (ok r, c') means h =
      let (wrote, met, good, heard) = h.4 refl in (means r.after met, good, heard)
  Contract-Achieved payload satisfied c (err e, c') means h = tt

  send-Achieved :
      (payload : Bytes) (satisfied : BedJetState → Bool) (c : Commander)
      → ((s : BedJetState) → satisfied s ≡ true → Shows request s)
      → Achieved (send_verified payload satisfied false env c)
  send-Achieved payload satisfied c means =
      Contract-Achieved payload satisfied c (send_verified payload satisfied false env c) means
        (send_verified-Contract payload satisfied false env c)

  on_encoded-Achieved :
      {A : Type 0} (x : Result EncodeError A) (c : Commander)
      (f : A → Result Raised CommandResult × Commander)
      → ((a : A) → x ≡ ok a → Achieved (f a))
      → Achieved (on_encoded x c f)
  on_encoded-Achieved (ok a) c f h = h a refl
  on_encoded-Achieved (err e) c f h = tt

  on_running-Achieved :
      (x : Result Raised Update × Commander)
      (f : Update → Commander → Result Raised CommandResult × Commander)
      → ((u : Update) (c : Commander) → Achieved (f u c))
      → Achieved (
          on_ok x
            (λ u c1. if not (is_on u.0.power) then (err (refused not_running), c1) else f u c1))
  on_running-Achieved (err e, c) f h = tt
  on_running-Achieved (ok u, c) f h = if_both Achieved (not (is_on u.0.power)) tt (h u c)

module _ (env : Env) where
  mode-Achieved :
      (m : CommandMode) (o : Option StatusMode) (c : Commander)
      → expected_status_for m ≡ o
      → Achieved (mode_request m) env (send_mode m o false env c)
  unfolding send_mode
  mode-Achieved m none c e = tt
  mode-Achieved m (some expected) c e =
      send-Achieved (mode_request m) env (Encode.set_mode m) (mode_is expected) c
        λ s t. (expected, mode_shown expected s t, same_mode m expected e)

  temperature-Achieved :
      (celsius : Float) (low high : Option ℕ) (c : Commander)
      → Achieved (temperature_request celsius) env (send_temperature celsius low high false env c)
  unfolding send_temperature
  temperature-Achieved celsius (some low) (some high) c =
      on_encoded-Achieved (temperature_request celsius) env (snap_target_c celsius) c _ λ rounded e.
        on_encoded-Achieved (temperature_request celsius) env
          (Encode.set_temperature (half rounded) (some low) (some high)) c _
          λ payload _.
            send-Achieved (temperature_request celsius) env payload (target_is rounded) c
              λ s t. (rounded, target_shown rounded s t, snap-IsNear celsius rounded e)
  temperature-Achieved celsius (some low) none c = tt
  temperature-Achieved celsius none high c = tt

  fan-Achieved :
      (percent : ℤ) (c : Commander)
      → Achieved (fan_request percent) env (send_fan percent false env c)
  unfolding send_fan
  fan-Achieved percent c =
      on_encoded-Achieved (fan_request percent) env (snap_fan_percent percent) c _ λ target e.
        on_encoded-Achieved (fan_request percent) env (Encode.set_fan_percent (pos target)) c _
          λ payload _.
            send-Achieved (fan_request percent) env payload (fan_is target) c
              λ s t. fan_near percent target s e t

-- A command that returns, and was no dry run, has what was asked for to show: the state that it
-- returns is off, in the mode, at the half degree next to the target or at the fan's step next to
-- the percentage, and it was decoded from a trustworthy packet heard after the write began.
pub execute-Achieved :
    (request : Request) (env : Env) (c : Commander)
    → Achieved request env (execute request false env c)
unfolding execute send_off set_mode set_temperature set_fan_percent
execute-Achieved off_request env c =
    send-Achieved off_request env turn_off off_satisfied c off_shown
execute-Achieved (mode_request m) env c =
    if_both (Achieved (mode_request m) env) (is_unlocked m)
      (mode-Achieved env m (expected_status_for m) c refl) tt
execute-Achieved (temperature_request celsius) env c =
    on_running-Achieved (temperature_request celsius) env (wait_for_state env.heard_before c) _
      λ u c1. temperature-Achieved env celsius u.1.min_temp_c u.1.max_temp_c c1
execute-Achieved (fan_request percent) env c =
    on_running-Achieved (fan_request percent) env (wait_for_state env.heard_before c) _
      λ u c1. fan-Achieved env percent c1
