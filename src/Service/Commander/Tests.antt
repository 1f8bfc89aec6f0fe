-- ===== src/Service/Commander/Tests.antt =====
-- Two commands on one commander: heat and off, asked of a cooling unit.
use bedjet_local.Prelude.{
  ℕ, ◌≡◌, refl, Bool, true, false, Option, none, some, List, [], ◌∷◌, get_elem?, arith,
}
use bedjet_local.Protocol.Constants.{Bytes, CommandMode, StatusMode}
use bedjet_local.Protocol.Packets.{is_trustworthy}
use bedjet_local.Protocol.Decode.{decode_status}
use bedjet_local.Protocol.Decode.Integrity.{IsIntact-trustworthy}
use bedjet_local.Protocol.Encode
use bedjet_local.Protocol.Encode.{turn_off}
use bedjet_local.Protocol.Tests.{cooling, resting, cooling-IsIntact}
use bedjet_local.Python.Result.{ok, err}
use bedjet_local.Device.State.{from_status}
use bedjet_local.Service.Reader.{Update}
use bedjet_local.Service.Commander.{
  Commander, new, written, CommandResult, result_of, assertion_error, on_state, look, is_unlocked,
  expected_status_for,
}
use bedjet_local.Service.Commander.Requests.{
  Request, off_request, mode_request, off_satisfied, mode_is,
}
use bedjet_local.Service.Commander.Concurrent.{
  Plan, plan, plan_mode, Stage, ready, ended, writing, Task, begin, resumed, write_ended, move,
  begin_with, enter_wait, leave_wait, on_baseline, on_plan, proceed, settle, checked, transmit,
  opening,
}
use bedjet_local.Service.Commander.Concurrent.Tasks.{
  World, Event, hear, turn, wake, fire, run, start,
}
use bedjet_local.Service.Commander.Concurrent.Alone.{Ends, Reaches}
use bedjet_local.Service.Commander.Concurrent.Sequential.{alone-Reaches}
use bedjet_local.Service.Tests.{obeying}
use bedjet_local.Service.Commander.Goals.{Achieved, execute-Achieved}
use bedjet_local.Service.Commander
use bedjet_local.Service.Commander.{
  wait_for_state, wait_from, or_silence, deliver, send_verified, send_from, after_write,
  verify_loop, conclude,
}
use bedjet_local.Service.Commander.Requests.{execute, set_mode, send_mode}
use bedjet_local.Service.Commander.Concurrent.Opened.{IsOpen}
use bedjet_local.Service.Commander.Concurrent.Ends.{Told, run-Told}
use bedjet_local.Service.Commander.Concurrent.Wire.{writes_picked, writers, writes_counted}
use bedjet_local.Service.Commander.Concurrent.Crossed.{crossing, pair, crossed}

abbrev update_of : Bytes → Update
update_of bytes = (from_status (decode_status bytes) true, decode_status bytes)

abbrev both : List (Request × Bool × ℕ)
both = (mode_request CommandMode.heat, false, 10000) ∷ (off_request, false, 10000) ∷ []

abbrev off_beside_heat : List Event
off_beside_heat =
    hear (update_of cooling)
    ∷ turn 1 begin
    ∷ turn 1 (write_ended written 0 0)
    ∷ hear (update_of cooling)
    ∷ turn 0 begin
    ∷ hear (update_of resting)
    ∷ turn 1 (resumed 500)
    ∷ []

abbrev off_result : CommandResult
off_result = result_of (update_of cooling) (update_of resting) turn_off

stage_at : ℕ → World → Option Stage
stage_at i w = elim (get_elem? w.tasks i) [ none ↦ none | some t ↦ some t.stage ]

off_confirmed :
    stage_at 1 (run off_beside_heat (start both)) ≡ some (ended (some turn_off) (ok off_result))
unfolding stage_at new on_state move begin_with enter_wait leave_wait on_baseline on_plan proceed
    settle checked transmit wake fire run look plan opening is_trustworthy decode_status
    off_satisfied mode_is from_status plan_mode is_unlocked expected_status_for
off_confirmed = refl

abbrev world_end : World
world_end = run off_beside_heat (start both)

abbrev off_ended : Task
off_ended = record {
  request = off_request;
  dry_run = false;
  settle_timeout = 10000;
  stage = ended (some turn_off) (ok off_result);
}

off_ended_there : get_elem? world_end.tasks 1 ≡ some off_ended
unfolding new on_state move begin_with enter_wait leave_wait on_baseline on_plan proceed settle
    checked transmit wake fire run look plan opening is_trustworthy decode_status off_satisfied
    mode_is from_status plan_mode is_unlocked expected_status_for
off_ended_there = refl

run-Told_example :
    Told off_beside_heat
      (start both)
      1
      (record { request = off_request; dry_run = false; settle_timeout = 10000; stage = ready })
      (some turn_off)
      (ok off_result)
unfolding IsOpen
run-Told_example =
    run-Told off_beside_heat (start both) 1 _ off_ended _ _ refl tt off_ended_there refl

writes_counted_example :
    writes_picked (λ _. true) (run off_beside_heat (start both)).commander.writes
    ≡ writers (λ _. true) (run off_beside_heat (start both)).tasks
writes_counted_example = writes_counted (λ _. true) both off_beside_heat

abbrev heating : Plan
heating = record { payload = Encode.set_mode CommandMode.heat; satisfied = mode_is StatusMode.heat }

abbrev switching_off : Plan
switching_off = record { payload = turn_off; satisfied = off_satisfied }

unsatisfied :
    (mode_is StatusMode.heat (update_of cooling).0 ≡ false)
    × (off_satisfied (update_of cooling).0 ≡ false)
unfolding off_satisfied mode_is decode_status from_status
unsatisfied = (refl, refl)

crossed_example :
    (c : Commander) × (run
        (crossing (update_of cooling) (update_of cooling) 0 500 1000 1500)
        (start both)
      ≡ pair
          (mode_request CommandMode.heat)
          off_request
          10000
          10000
          c
          (ended (some heating.payload) (err assertion_error))
          (writing switching_off (update_of cooling)))
unfolding opening plan plan_mode is_unlocked expected_status_for
crossed_example =
    let good = IsIntact-trustworthy cooling 27 cooling-IsIntact in
    crossed (mode_request CommandMode.heat) off_request 10000 10000 (update_of cooling)
      (update_of cooling) heating switching_off 0 500 1000 1500 refl refl
      (refl, refl, good, unsatisfied.0) (refl, refl, good, unsatisfied.1) (omega arith)
      (omega arith)

heat_ends : Ends (execute (mode_request CommandMode.heat) false obeying new)
unfolding execute set_mode send_mode send_verified wait_for_state wait_from or_silence deliver
    on_state send_from Commander.transmit after_write verify_loop look conclude is_trustworthy
    decode_status from_status mode_is is_unlocked expected_status_for new
heat_ends h = absurd cc

alone-Reaches_example :
    Reaches
      (mode_request CommandMode.heat)
      false
      obeying
      (ready, new)
      (execute (mode_request CommandMode.heat) false obeying new)
alone-Reaches_example = alone-Reaches false obeying new (mode_request CommandMode.heat) heat_ends

execute-Achieved_example : Achieved off_request obeying (execute off_request false obeying new)
execute-Achieved_example = execute-Achieved off_request obeying new
