-- ===== src/Service/Commander.antt =====
-- service/commander.py: the write path. A command is a function of the commander and of what its
-- environment does at each `await` (`Env`), and gives back the result, or the exception, with the
-- commander as it is left. Only this command runs meanwhile; updates from the reader come at the
-- awaits.
pub mod Requests
pub mod Loop
pub mod Outcomes
pub mod Effects
pub mod Limits
pub mod Audit
pub mod Goals
mod Tests
pub mod Concurrent
use bedjet_local.Prelude.{
  ℕ, ◌+◌, String, Bool, true, false, ◌&&◌, ◌||◌, not, Option, none, some, List, [], ◌∷◌, ◌++◌, ltb,
  if◌then◌else◌,
}
use bedjet_local.Protocol.Constants.{
  Bytes, command_uuid, CommandMode, StatusMode, standby, cool, heat, turbo, dry,
}
use bedjet_local.Protocol.Packets.{StatusPacket, is_trustworthy}
use bedjet_local.Protocol.Encode.{EncodeError}
use bedjet_local.Device.State.{BedJetState}
use bedjet_local.Service.Reader.{Update}
use bedjet_local.Python.Result.{Result, ok, err}

pub record Commander : Type 0 where
  pub latest : Option Update
  -- the `_updated` event
  pub updated : Bool
  -- the calls of the observer
  pub observed : List Update
  -- the calls of `transport.write`: a failed one may have reached the device
  pub writes : List (String × Bytes)
  -- the calls of `reader.poke`
  pub pokes : ℕ

unfoldable pub new : Commander
new = record { latest = none; updated = false; observed = []; writes = []; pokes = 0 }

pub data Refusal : Type 0 where
  no_status untrusted_baseline not_running no_reported_bounds : Refusal
  mode_locked : CommandMode → Refusal
  no_expected_status : CommandMode → Refusal

-- How a command ends that does not return. `still_waiting` is no exception: the turns of the
-- environment are over and the loop still runs.
pub data Raised : Type 0 where
  refused : Refusal → Raised
  already_satisfied : Raised
  write_failed : Bytes → Raised
  unverified : Bytes → Option BedJetState → Raised
  encode_error : EncodeError → Raised
  assertion_error : Raised
  still_waiting : Raised

pub record CommandResult : Type 0 where
  pub before : BedJetState
  pub after : BedJetState
  pub payload : Bytes
  pub before_packet : StatusPacket
  pub after_packet : StatusPacket

pub data WriteOutcome : Type 0 where
  written transport_error : WriteOutcome

-- One round of the verification loop: the clock at its test, and the updates that arrive before
-- its wait returns or times out.
pub record Turn : Type 0 where
  pub now : ℕ
  pub heard : List Update

pub record Env : Type 0 where
  -- updates during the wait for a baseline
  pub heard_before : List Update
  pub heard_during_write : List Update
  pub write : WriteOutcome
  -- the clock when the deadline is set, and the settle timeout
  pub written_at : ℕ
  pub settle_timeout : ℕ
  pub turns : List Turn

unfoldable pub on_state : Update → Commander → Commander
on_state u c = record c { latest = some u; updated = true; observed = c.observed ++ u ∷ [] }

unfoldable pub deliver : List Update → Commander → Commander
unfolding on_state
deliver [] c = c
deliver (u ∷ us) c = deliver us (on_state u c)

unfoldable pub or_silence : Commander → Option Update → Result Raised Update × Commander
or_silence c none = (err (refused no_status), c)
or_silence c (some u) = (ok u, c)

-- The wait, given whether there is a latest update.
unfoldable pub wait_from :
    Option Update → List Update → Commander → Result Raised Update × Commander
unfolding or_silence
wait_from (some u) heard c = (ok u, c)
wait_from none heard c =
    let c' = deliver heard (record c { updated = false }) in or_silence c' c'.latest

unfoldable pub wait_for_state : List Update → Commander → Result Raised Update × Commander
unfolding wait_from
wait_for_state heard c = wait_from c.latest heard c

pub data Verification : Type 0 where
  verified : Update → Verification
  timed_out broken_assertion out_of_turns : Verification

-- What a round makes of the latest update once the event was set.
pub data Look : Type 0 where
  done : Update → Look
  go_on missing : Look

unfoldable pub look : (BedJetState → Bool) → Option Update → Look
look satisfied none = missing
look satisfied (some (state, packet)) =
    if is_trustworthy packet then if satisfied state then done (state, packet) else go_on else go_on

-- The loop behind the write. Each round that times out pokes the reader.
unfoldable pub verify_loop :
    ℕ → (BedJetState → Bool) → List Turn → Commander → Verification × Commander
verify_loop deadline satisfied [] c = (out_of_turns, c)
verify_loop deadline satisfied (t ∷ ts) c =
    let c' = deliver t.heard c in
    let seen = record c' { updated = false } in
    let quiet = verify_loop deadline satisfied ts (record c' { pokes = c'.pokes + 1 }) in
    let unsatisfied = verify_loop deadline satisfied ts seen in
    let looked : Verification × Commander = elim (look satisfied c'.latest) [
      | done u ↦ (verified u, seen)
      | go_on ↦ unsatisfied
      | missing ↦ (broken_assertion, seen)
    ] in
    if ltb t.now deadline then if c'.updated then looked else quiet else (timed_out, c)

abbrev state_of : Option Update → Option BedJetState
state_of none = none
state_of (some u) = some u.0

unfoldable pub result_of : Update → Update → Bytes → CommandResult
result_of before after payload = record {
  before = before.0;
  after = after.0;
  payload = payload;
  before_packet = before.1;
  after_packet = after.1;
}

unfoldable pub conclude :
    Bytes → Update → Verification × Commander → Result Raised CommandResult × Commander
conclude payload before (verified u, c) = (ok (result_of before u payload), c)
conclude payload before (timed_out, c) = (err (unverified payload (state_of c.latest)), c)
conclude payload before (broken_assertion, c) = (err assertion_error, c)
conclude payload before (out_of_turns, c) = (err still_waiting, c)

-- What follows the write.
unfoldable pub after_write :
    WriteOutcome
    → Bytes
    → (BedJetState → Bool)
    → Env
    → Update
    → Commander
    → Result Raised CommandResult × Commander
after_write transport_error payload satisfied env before c = (err (write_failed payload), c)
after_write written payload satisfied env before c = conclude payload before (
    verify_loop (env.written_at + env.settle_timeout) satisfied env.turns
      (record c { pokes = c.pokes + 1 }))

-- From `self._updated.clear()` on: the write and its verification.
unfoldable pub transmit :
    Bytes
    → (BedJetState → Bool)
    → Env
    → Update
    → Commander
    → Result Raised CommandResult × Commander
unfolding after_write
transmit payload satisfied env before c =
    let asked = record c {
      updated = false;
      latest = none;
      writes = c.writes ++ (command_uuid, payload) ∷ [];
    } in
    after_write env.write payload satisfied env before (deliver env.heard_during_write asked)

-- `_send_verified` behind its wait.
unfoldable pub send_from :
    Bytes
    → (BedJetState → Bool)
    → Bool
    → Env
    → Update
    → Commander
    → Result Raised CommandResult × Commander
send_from payload satisfied dry_run env before c =
    if not (is_trustworthy before.1)
    then (err (refused untrusted_baseline), c)
    else if satisfied before.0
    then (err already_satisfied, c)
    else if dry_run
    then (ok (result_of before before payload), c)
    else transmit payload satisfied env before c

abbrev pub on_ok :
    {A B : Type 0}
    → Result Raised A × Commander
    → (A → Commander → Result Raised B × Commander)
    → Result Raised B × Commander
on_ok (ok a, c) f = f a c
on_ok (err e, c) f = (err e, c)

unfoldable pub send_verified :
    Bytes → (BedJetState → Bool) → Bool → Env → Commander → Result Raised CommandResult × Commander
unfolding send_from
send_verified payload satisfied dry_run env c =
    on_ok (wait_for_state env.heard_before c) (send_from payload satisfied dry_run env)

-- `UNLOCKED_MODES`
unfoldable pub is_unlocked : CommandMode → Bool
is_unlocked CommandMode.off = true
is_unlocked CommandMode.cool = true
is_unlocked CommandMode.dry = true
is_unlocked CommandMode.heat = true
is_unlocked CommandMode.turbo = false
is_unlocked CommandMode.extended_heat = false

-- `_EXPECTED_STATUS_FOR`
unfoldable pub expected_status_for : CommandMode → Option StatusMode
expected_status_for CommandMode.off = some standby
expected_status_for CommandMode.cool = some StatusMode.cool
expected_status_for CommandMode.dry = some StatusMode.dry
expected_status_for CommandMode.heat = some StatusMode.heat
expected_status_for CommandMode.turbo = none
expected_status_for CommandMode.extended_heat = none
