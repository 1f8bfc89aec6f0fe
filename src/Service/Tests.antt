-- ===== src/Service/Tests.antt =====
-- A command sent to a cooling unit, a reader's life, and the theorems about the service at them.
use bedjet_local.Prelude.{
  ◌≡◌, ◌≢◌, refl, true, false, some, List, [], ◌∷◌, ◌++◌, arith, length, take, drop, All,
}
use bedjet_local.Protocol.Constants.{Bytes}
use bedjet_local.Protocol.Packets.{is_trustworthy, is_complete}
use bedjet_local.Protocol.Decode.{decode_status, reassemble, looks_like_packet_start}
use bedjet_local.Protocol.Decode.Integrity.{IsIntact-trustworthy}
use bedjet_local.Protocol.Encode.{turn_off}
use bedjet_local.Protocol.Tests.{cooling, resting, resting-IsIntact}
use bedjet_local.Device.State.{from_status}
use bedjet_local.Service.Reader.{Update, new, start, on_notify, complete_partial, publish}
use bedjet_local.Service.Reader.Steps.{
  Event, started, stopping, stopped, notified, follow_up, step, resume, run,
}
use bedjet_local.Service.Reader.Safety.{FromIntact, published_intact}
use bedjet_local.Service.Reader.Lifecycle.{stop_leaks_read}
use bedjet_local.Service.Commander
use bedjet_local.Service.Commander.{
  Commander, Turn, Env, written, verify_loop, out_of_turns, send_verified, CommandResult,
}
use bedjet_local.Service.Commander.Loop.{is_verified, verify_loop_ends, verify_loop_confirms}
use bedjet_local.Service.Commander.Outcomes.{Contract, send_verified-Contract}
use bedjet_local.Service.Commander.Requests.{off_request, off_satisfied, execute}
use bedjet_local.Service.Commander.Limits.{execute-Effect}
use bedjet_local.Service.Commander.Effects.{Effect}

abbrev update_of : Bytes → Update
update_of bytes = (from_status (decode_status bytes) true, decode_status bytes)

abbrev arriving : Turn
arriving = record { now = 1000; heard = update_of cooling ∷ update_of resting ∷ [] }

abbrev late : Turn
late = record { now = 10000; heard = [] }

-- The unit is cooling, and a second after the write it reports standby.
abbrev pub obeying : Env
obeying = record {
  heard_before = update_of cooling ∷ [];
  heard_during_write = [];
  write = written;
  written_at = 0;
  settle_timeout = 10000;
  turns = record { now = 500; heard = [] } ∷ arriving ∷ late ∷ [];
}

execute-Effect_example :
    Effect false obeying Commander.new (execute off_request false obeying Commander.new).1
execute-Effect_example = execute-Effect off_request false obeying Commander.new

send_verified-Contract_example :
    Contract turn_off off_satisfied false obeying Commander.new
      (send_verified turn_off off_satisfied false obeying Commander.new)
send_verified-Contract_example =
    send_verified-Contract turn_off off_satisfied false obeying Commander.new

verify_loop_ends_example :
    (verify_loop 10000 off_satisfied ((arriving ∷ []) ++ late ∷ []) Commander.new).0 ≢ out_of_turns
verify_loop_ends_example =
    verify_loop_ends 10000 off_satisfied (arriving ∷ []) late [] Commander.new (omega arith)

resting_satisfies : off_satisfied (update_of resting).0 ≡ true
unfolding off_satisfied from_status decode_status
resting_satisfies = refl

verify_loop_confirms_example :
    is_verified (verify_loop 10000 off_satisfied ([] ++ arriving ∷ late ∷ []) Commander.new).0
    ≡ true
unfolding Commander.new
verify_loop_confirms_example =
    verify_loop_confirms 10000 off_satisfied [] arriving (late ∷ []) (update_of cooling ∷ [])
      (update_of resting) Commander.new (λ e _. cc e) tt (omega arith) refl resting_satisfies
      (IsIntact-trustworthy resting 27 resting-IsIntact)

-- A reader that hears a packet in two parts.
abbrev split_arrival : List Event
split_arrival =
    started
    ∷ notified true (take 20 cooling)
    ∷ notified true (take 20 cooling)
    ∷ follow_up true (some (drop 20 cooling))
    ∷ []

split_arrival_published : length (run (new false) split_arrival).published ≡ 1
unfolding run step resume new start on_notify complete_partial publish reassemble decode_status
    is_complete is_trustworthy looks_like_packet_start
split_arrival_published = refl

published_intact_example : All FromIntact (run (new false) split_arrival).published
published_intact_example = published_intact false split_arrival

first_part_incomplete : is_complete (decode_status (take 20 cooling)) ≡ false
unfolding is_complete decode_status
first_part_incomplete = refl

stop_leaks_read_example :
    let r' = run (start (new false)) (stopping ∷ notified true (take 20 cooling) ∷ stopped ∷ []) in
    (r'.running ≡ false) × (r'.subscribed ≡ false) × (r'.completion ≡ some (take 20 cooling))
unfolding start new looks_like_packet_start
stop_leaks_read_example =
    stop_leaks_read true (take 20 cooling) (start (new false)) refl refl refl refl
      first_part_incomplete
