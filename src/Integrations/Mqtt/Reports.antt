-- ===== src/Integrations/Mqtt/Reports.antt =====
-- What a report on the result topic tells about the device's wire.
use bedjet_local.Prelude.{◌≡◌, ◌++◌}
use bedjet_local.Python.Float.{Float}
use bedjet_local.Python.Result.{Result, ok, err}
use bedjet_local.Protocol.Constants.{Bytes}
use bedjet_local.Service.Commander.{Commander, still_waiting}
use bedjet_local.Service.Commander.Outcomes.{Silent, Wrote}
use bedjet_local.Api.Service.{unavailable, refused_request, unverified_write, uncaught}
use bedjet_local.Api.Service.Audit.{sent_writes}
use bedjet_local.Integrations.Mqtt.{
  Thrown, api_error, bad_value, overflow, Report, done, state, refused, unverified, invalid_request,
  Dispatched,
}

-- What a subscriber may conclude from a report, or from the exception that leaves `_handle`.
abbrev pub Concludes : Commander → Result Thrown Report → Commander → Type 0
Concludes c (ok (done o)) c' = c'.writes ≡ c.writes ++ sent_writes o.sent
Concludes c (ok (state s)) c' = Silent c c'
Concludes c (ok refused) c' = Silent c c'
Concludes c (ok invalid_request) c' = Silent c c'
Concludes c (ok unverified) c' = (payload : Bytes) × Wrote payload c c'
Concludes c (err overflow) c' = Silent c c'
Concludes c (err bad_value) c' = ⊥
Concludes c (err (api_error e)) c' = e ≡ uncaught still_waiting

-- What `_handle` may conclude from the way that `_dispatch` ends.
abbrev Ends : Commander → Result Thrown Report → Commander → Type 0
Ends c (ok (done o)) c' = c'.writes ≡ c.writes ++ sent_writes o.sent
Ends c (ok (state s)) c' = Silent c c'
Ends c (ok _) c' = ⊥
Ends c (err overflow) c' = Silent c c'
Ends c (err bad_value) c' = Silent c c'
Ends c (err (api_error (unavailable link left))) c' = Silent c c'
Ends c (err (api_error (refused_request why))) c' = Silent c c'
Ends c (err (api_error (unverified_write payload))) c' = Wrote payload c c'
Ends c (err (api_error (uncaught e))) c' = e ≡ still_waiting

-- How one dispatched message ends.
abbrev IsFaithful : Commander → Dispatched → Type 0
IsFaithful c x = Ends c x.0 x.1.0

-- What the parsing of a payload raises.
abbrev IsParseError : {A : Type 0} → Result Thrown A → Type 0
IsParseError (ok a) = Unit {0}
IsParseError (err bad_value) = Unit {0}
IsParseError (err overflow) = Unit {0}
IsParseError (err (api_error e)) = ⊥
