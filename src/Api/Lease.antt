-- ===== src/Api/Lease.antt =====
-- api/service.py: `snapshot`, `yield_link` and `resume_link`. What they do to the session is an
-- event of `Service.Session.Tasks`; they answer when the session is `session_after`.
use native.Mathlib.Nat.{le-div_iff_mul-le, mul-pos}
use bedjet_local.Prelude.{
  ℕ, zero, suc, ◌+◌, ◌-◌, ◌*◌, ◌/◌, ◌^◌, ◌≤◌, ◌<◌, ◌≡◌, ◌≢◌, false, none, List, [], ◌∷◌, arith,
  if◌then◌else◌,
}
use bedjet_local.Prelude.Int.{pos, negsuc}
use bedjet_local.Python.Float.{Float, nan, pos_inf, neg_inf, finite, le_zero, two_pow_pos}
use bedjet_local.Python.Result.{Result, ok, err}
use bedjet_local.Service.Session.{Duration, ticks, endless, snapshot, deadline_of}
use bedjet_local.Service.Session.Tasks.{Event, yield_called, resume_called}
use bedjet_local.Api.Models.{DeviceSnapshot, from_session}
use bedjet_local.Api.Service.{ApiError, refused_request, no_duration, Call}

-- Seconds as a duration, rounded away from zero to a tick of a clock with `rate` ticks a second.
unfoldable pub duration_of : ℕ → Float → Duration
duration_of rate nan = Duration.nan
duration_of rate pos_inf = endless
duration_of rate neg_inf = ticks (negsuc 0)
duration_of rate (finite (pos n) k) = ticks (pos ((n * rate + (2 ^ k - 1)) / 2 ^ k))
duration_of rate (finite (negsuc n) k) = ticks (negsuc ((suc n * rate + (2 ^ k - 1)) / 2 ^ k))

-- `BedJetAPI.snapshot` once a call is over.
unfoldable pub state_after : Call → DeviceSnapshot
state_after call = from_session (snapshot call.now_after call.session_after)

abbrev pub LinkAnswer : Type 0
LinkAnswer = Result ApiError DeviceSnapshot × List Event

unfoldable pub yield_link : ℕ → Call → Float → LinkAnswer
unfolding duration_of state_after
yield_link rate call seconds =
    if le_zero seconds
    then (err (refused_request no_duration), [])
    else (ok (state_after call), yield_called (duration_of rate seconds) ∷ [])

unfoldable pub resume_link : Call → LinkAnswer
unfolding state_after
resume_link call = (ok (state_after call), resume_called ∷ [])

ceil_pos : (n d : ℕ) → 1 ≤ n → 0 < d → 1 ≤ (n + (d - 1)) / d
ceil_pos n d h p = (le-div_iff_mul-le p).1 (omega (arith, h, p))

-- Seconds that the API accepts are never refused by the session: it sets a deadline.
pub accepted_yield :
    (rate now : ℕ) (seconds : Float)
    → 1 ≤ rate
    → le_zero seconds ≡ false
    → deadline_of now (duration_of rate seconds) ≢ none
unfolding duration_of le_zero deadline_of
accepted_yield rate now nan r h e = cc
accepted_yield rate now pos_inf r h e = cc
accepted_yield rate now neg_inf r h e = cc
accepted_yield rate now (finite (negsuc n) k) r h e = cc
accepted_yield rate now (finite (pos zero) k) r h e = ground arith
accepted_yield rate now (finite (pos (suc n)) k) r h e =
    ground (arith, ceil_pos (suc n * rate) (2 ^ k) (mul-pos (omega arith) r) (two_pow_pos k))
