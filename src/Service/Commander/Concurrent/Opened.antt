-- ===== src/Service/Commander/Concurrent/Opened.antt =====
-- service/commander.py: a command up to its write: what a stretch makes of it.
use bedjet_local.Prelude.{
  ℕ, ◌≡◌, ◌⊎◌, inl, inr, refl, Bool, true, false, not, Option, none, some, arith, if_both, if_known,
}
use bedjet_local.Protocol.Packets.{is_trustworthy}
use bedjet_local.Python.Result.{Result, ok, err}
use bedjet_local.Python.Result.{◌>>=◌, map_err}
use bedjet_local.Python.Float.{Float, half}
use bedjet_local.Prelude.Int.{ℤ, pos}
use bedjet_local.Protocol.Constants.{CommandMode, StatusMode}
use bedjet_local.Protocol.Encode
use bedjet_local.Protocol.Encode.{EncodeError, snap_target_c, snap_fan_percent}
use bedjet_local.Device.State.{is_on}
use bedjet_local.Service.Commander.Requests.{
  Request, off_request, mode_request, temperature_request, fan_request,
}
use bedjet_local.Service.Reader.{Update}
use bedjet_local.Service.Commander.{
  Commander, Raised, refused, already_satisfied, encode_error, assertion_error, CommandResult,
  expected_status_for, is_unlocked, written, transport_error,
}
use bedjet_local.Service.Commander.Concurrent.{
  Plan, plan, plan_mode, plan_temperature, plan_fan, Stage, ready, awaiting, writing, settling,
  ended, Task, Move, begin, resumed, timed_out, write_ended, move, begin_with, enter_wait,
  leave_wait, on_baseline, on_plan, proceed, transmit, opening,
}

-- The ends of a command that has not called `transport.write`.
unfoldable pub IsUnsent : (dry_run : Bool) → Result Raised CommandResult → Type 0
IsUnsent dry_run (ok r) = dry_run ≡ true
IsUnsent dry_run (err (refused _)) = Unit
IsUnsent dry_run (err already_satisfied) = Unit
IsUnsent dry_run (err (encode_error _)) = Unit
IsUnsent dry_run (err assertion_error) = Unit
IsUnsent dry_run (err _) = ⊥

-- What a command was checked with before its write.
abbrev pub IsAsked : Task → Plan → Update → Type 0
IsAsked t p before =
    (plan t.request before ≡ ok p)
    × (t.dry_run ≡ false)
    × (is_trustworthy before.1 ≡ true)
    × (p.satisfied before.0 ≡ false)

-- A stretch of a task that has not written.
pub data Opened (t : Task) (y : Stage × Commander) : Type 0 where
  waits : (b : Bool) → y.0 ≡ awaiting b → Opened t y
  writes :
      (p : Plan) (before : Update)
      → y.0 ≡ writing p before
      → IsAsked t p before
      → y.1.latest ≡ none
      → Opened t y
  is_over :
      (x : Result Raised CommandResult) → y.0 ≡ ended none x → IsUnsent t.dry_run x → Opened t y

module _ (t : Task) where
  proceed-Opened :
      (u : Update) (p : Plan) (c : Commander)
      → plan t.request u ≡ ok p
      → Opened t (proceed t.dry_run u p c)
  unfolding proceed transmit IsUnsent
  proceed-Opened u p c h =
      if_known (Opened t) (not (is_trustworthy u.1)) (λ _. is_over _ refl tt)
        λ good.
          if_known (Opened t) (p.satisfied u.0) (λ _. is_over _ refl tt)
            λ s.
              if_known (Opened t) t.dry_run (λ dry. is_over _ refl dry)
                λ wet. writes p u refl (h, wet, ground arith, s) refl

  -- A command that cannot be planned is refused, or cannot be encoded.
  IsPlanned : Result Raised Plan → Type 0
  IsPlanned (ok p) = Unit
  IsPlanned (err e) = IsUnsent t.dry_run (err e)

  encoded-IsPlanned :
      {A : Type 0} (x : Result EncodeError A) (f : A → Result Raised Plan)
      → ((a : A) → IsPlanned (f a))
      → IsPlanned (map_err encode_error x >>= f)
  unfolding IsPlanned IsUnsent
  encoded-IsPlanned (ok a) f h = h a
  encoded-IsPlanned (err e) f h = tt

  mode-IsPlanned : (m : CommandMode) (o : Option StatusMode) → IsPlanned (plan_mode m o)
  unfolding plan_mode IsPlanned IsUnsent
  mode-IsPlanned m none = tt
  mode-IsPlanned m (some expected) = tt

  temperature-IsPlanned :
      (celsius : Float) (low high : Option ℕ) → IsPlanned (plan_temperature celsius low high)
  unfolding plan_temperature IsPlanned IsUnsent
  temperature-IsPlanned celsius (some low) (some high) =
      encoded-IsPlanned (snap_target_c celsius) _ λ rounded.
        encoded-IsPlanned (Encode.set_temperature (half rounded) (some low) (some high)) _ λ _. tt
  temperature-IsPlanned celsius (some low) none = tt
  temperature-IsPlanned celsius none high = tt

  fan-IsPlanned : (percent : ℤ) → IsPlanned (plan_fan percent)
  unfolding plan_fan IsPlanned
  fan-IsPlanned percent =
      encoded-IsPlanned (snap_fan_percent percent) _
        λ snapped. encoded-IsPlanned (Encode.set_fan_percent (pos snapped)) _ λ _. tt

  plan-IsPlanned : (r : Request) (u : Update) → IsPlanned (plan r u)
  unfolding plan IsPlanned IsUnsent
  plan-IsPlanned off_request u = tt
  plan-IsPlanned (mode_request m) u = mode-IsPlanned m (expected_status_for m)
  plan-IsPlanned (temperature_request celsius) u =
      if_both IsPlanned (is_on u.0.power)
        (temperature-IsPlanned celsius u.1.min_temp_c u.1.max_temp_c) tt
  plan-IsPlanned (fan_request percent) u =
      if_both IsPlanned (is_on u.0.power) (fan-IsPlanned percent) tt

  on_plan-Opened :
      (u : Update) (x : Result Raised Plan) (c : Commander)
      → plan t.request u ≡ x
      → IsPlanned x
      → Opened t (on_plan t.dry_run u x c)
  unfolding on_plan IsPlanned
  on_plan-Opened u (ok p) c h i = proceed-Opened u p c h
  on_plan-Opened u (err e) c h i = is_over (err e) refl i

  on_baseline-Opened : (u : Update) (c : Commander) → Opened t (on_baseline t u c)
  unfolding on_baseline
  on_baseline-Opened u c = on_plan-Opened u (plan t.request u) c refl (plan-IsPlanned t.request u)

  enter_wait-Opened : (o : Option Update) (c : Commander) → Opened t (enter_wait t o c)
  unfolding enter_wait
  enter_wait-Opened (some u) c = on_baseline-Opened u c
  enter_wait-Opened none c = waits false refl

  leave_wait-Opened : (o : Option Update) (c : Commander) → Opened t (leave_wait t o c)
  unfolding leave_wait IsUnsent
  leave_wait-Opened (some u) c = on_baseline-Opened u c
  leave_wait-Opened none c = is_over (err assertion_error) refl tt

  opening-IsUnsent : (r : Request) (e : Raised) → opening r ≡ some e → IsUnsent t.dry_run (err e)
  unfolding opening is_unlocked expected_status_for IsUnsent
  opening-IsUnsent (mode_request CommandMode.turbo) e h = ground arith
  opening-IsUnsent r e h = ground arith

  begin-Opened :
      (o : Option Raised) (c : Commander)
      → ((e : Raised) → o ≡ some e → IsUnsent t.dry_run (err e))
      → Opened t (begin_with t o c)
  unfolding begin_with
  begin-Opened none c h = enter_wait-Opened c.latest c
  begin-Opened (some e) c h = is_over (err e) refl (h e refl)

-- A task that has not come to its write.
unfoldable pub IsOpen : Stage → Type 0
IsOpen ready = Unit
IsOpen (awaiting _) = Unit
IsOpen _ = ⊥

pub move-Opened :
    (t : Task) (m : Move) (s : Stage) (c : Commander)
    → IsOpen s
    → (move t m s c ≡ (s, c)) ⊎ Opened t (move t m s c)
unfolding move IsOpen IsUnsent
move-Opened t begin ready c o =
    inr (begin-Opened t (opening t.request) c (opening-IsUnsent t t.request))
move-Opened t (resumed now) ready c o = inl refl
move-Opened t (timed_out now) ready c o = inl refl
move-Opened t (write_ended written since now) ready c o = inl refl
move-Opened t (write_ended transport_error since now) ready c o = inl refl
move-Opened t begin (awaiting b) c o = inl refl
move-Opened t (resumed now) (awaiting true) c o = inr (leave_wait-Opened t c.latest c)
move-Opened t (resumed now) (awaiting false) c o = inl refl
move-Opened t (timed_out now) (awaiting b) c o = inr (is_over _ refl tt)
move-Opened t (write_ended written since now) (awaiting b) c o = inl refl
move-Opened t (write_ended transport_error since now) (awaiting b) c o = inl refl
move-Opened t m (writing p b) c o = absurd o
move-Opened t m (settling w p b d) c o = absurd o
move-Opened t m (ended x r) c o = absurd o
