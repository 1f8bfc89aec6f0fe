-- ===== src/Service/Commander/Concurrent/Alone.antt =====
-- One command alone on its commander: the events that lead from its write to the end that the
-- sequential command has.
use bedjet_local.Prelude.{
  ℕ, ◌+◌, ◌≡◌, ◌≢◌, refl, Bool, true, false, Option, none, some, List, [], ◌∷◌, ltb, if◌then◌else◌,
  Bool-cases, inl, inr,
}
use bedjet_local.Protocol.Constants.{Bytes}
use bedjet_local.Protocol.Packets.{is_trustworthy}
use bedjet_local.Python.Result.{Result, ok, err}
use bedjet_local.Service.Reader.{Update}
use bedjet_local.Service.Commander
use bedjet_local.Service.Commander.{
  Commander, Env, Turn, WriteOutcome, written, transport_error, Raised, CommandResult, on_state,
  deliver, still_waiting, look, Look, done, go_on, missing, Verification, verified,
  broken_assertion, verify_loop, conclude, after_write, send_from, result_of, state_of,
  encode_error, is_unlocked, expected_status_for, send_verified, on_ok, wait_for_state, wait_from,
  or_silence,
}
use bedjet_local.Service.Commander.Requests.{Request}
use bedjet_local.Service.Commander.Concurrent.{
  Plan, Stage, writing, settling, ended, Task, Move, resumed, timed_out, write_ended, move, settle,
  checked, poke, proceed, transmit,
}
use bedjet_local.Service.Commander.Concurrent.Tasks.{World, Event, hear, turn, wake, fire, run}

abbrev pub Ends : Result Raised CommandResult × Commander → Type 0
Ends x = x.0 ≢ err still_waiting

first_now : List Turn → ℕ
first_now [] = 0
first_now (t ∷ ts) = t.now

-- The stage after these updates.
abbrev pub wakes : List Update → Stage → Stage
wakes [] s = s
wakes (u ∷ us) s = wakes us (wake s)

module _ (request : Request) (dry_run : Bool) (env : Env) where
  abbrev pub at : Stage → Task
  at s = record {
    request = request;
    dry_run = dry_run;
    settle_timeout = env.settle_timeout;
    stage = s;
  }

  abbrev pub alone : Stage × Commander → World
  alone (s, c) = record { commander = c; tasks = at s ∷ [] }

  -- From here some events lead to the end that is told.
  pub data Reaches (y : Stage × Commander) (end : Result Raised CommandResult × Commander)
      : Type 0 where
    reaches :
        (es : List Event) (o : Option Bytes)
        → run es (alone y) ≡ alone (ended o end.0, end.1)
        → Reaches y end

  pub here :
      (o : Option Bytes) (end : Result Raised CommandResult × Commander)
      → Reaches (ended o end.0, end.1) end
  unfolding run
  here o end = reaches [] o refl

  pub by_move :
      (m : Move) (s : Stage) (c : Commander) {end : Result Raised CommandResult × Commander}
      → Reaches (move (at s) m s c) end
      → Reaches (s, c) end
  unfolding run fire
  by_move m s c (reaches es o e) = reaches (turn 0 m ∷ es) o e

  by_update :
      (u : Update) (s : Stage) (c : Commander) {end : Result Raised CommandResult × Commander}
      → Reaches (wake s, on_state u c) end
      → Reaches (s, c) end
  unfolding run fire
  by_update u s c (reaches es o e) = reaches (hear u ∷ es) o e

  pub by_updates :
      (us : List Update) (s : Stage) (c : Commander) {end : Result Raised CommandResult × Commander}
      → Reaches (wakes us s, deliver us c) end
      → Reaches (s, c) end
  unfolding deliver
  by_updates [] s c r = r
  by_updates (u ∷ us) s c r = by_update u s c (by_updates us (wake s) (on_state u c) r)

  wakes-writing :
      (us : List Update) (p : Plan) (before : Update)
      → wakes us (writing p before) ≡ writing p before
  unfolding wake
  wakes-writing [] p before = refl
  wakes-writing (u ∷ us) p before = wakes-writing us p before

  -- A wait of the loop is woken exactly when the event is set.
  wakes-settling :
      (us : List Update) (c : Commander) (p : Plan) (before : Update) (deadline : ℕ)
      → wakes us (settling c.updated p before deadline)
        ≡ settling (deliver us c).updated p before deadline
  unfolding wake deliver on_state
  wakes-settling [] c p before deadline = refl
  wakes-settling (u ∷ us) c p before deadline = wakes-settling us (on_state u c) p before deadline

  module _ (p : Plan) (before : Update) (deadline : ℕ) where
    abbrev outcome : List Turn → Commander → Result Raised CommandResult × Commander
    outcome ts c = conclude p.payload before (verify_loop deadline p.satisfied ts c)

    -- The loop from its head, with the clock of its first round.
    abbrev Loops : List Turn → Type 0
    Loops ts =
        (c : Commander)
        → Ends (outcome ts c)
        → Reaches (settle p before deadline (first_now ts) c) (outcome ts c)

    looked-Reaches :
        (ts : List Turn) (l : Look) (seen : Commander)
        → Loops ts
        → Ends (
            conclude p.payload before (elim l as (λ _. Verification × Commander) [
              | done u ↦ (verified u, seen)
              | go_on ↦ verify_loop deadline p.satisfied ts seen
              | missing ↦ (broken_assertion, seen)
            ]))
        → Reaches (checked p before deadline (first_now ts) l seen) (
            conclude p.payload before (elim l as (λ _. Verification × Commander) [
              | done u ↦ (verified u, seen)
              | go_on ↦ verify_loop deadline p.satisfied ts seen
              | missing ↦ (broken_assertion, seen)
            ]))
    unfolding checked conclude
    looked-Reaches ts (done u) seen ih h = here (some p.payload) _
    looked-Reaches ts go_on seen ih h = ih seen h
    looked-Reaches ts missing seen ih h = here (some p.payload) _

    wait-Reaches :
        (ts : List Turn) (c : Commander) (b : Bool)
        → Loops ts
        → let seen : Commander = record c { updated = false } in
          let x =
            if b
            then elim (look p.satisfied c.latest) as (λ _. Verification × Commander) [
              | done u ↦ (verified u, seen)
              | go_on ↦ verify_loop deadline p.satisfied ts seen
              | missing ↦ (broken_assertion, seen)
            ]
            else verify_loop deadline p.satisfied ts (poke c) in
          Ends (conclude p.payload before x)
          → Reaches (settling b p before deadline, c) (conclude p.payload before x)
    unfolding move
    wait-Reaches ts c true ih h =
        by_move (resumed (first_now ts)) (settling true p before deadline) c
          (looked-Reaches ts (look p.satisfied c.latest) (record c { updated = false }) ih h)
    wait-Reaches ts c false ih h =
        by_move (timed_out (first_now ts)) (settling false p before deadline) c (ih (poke c) h)

    loop-Reaches : (ts : List Turn) → Loops ts
    unfolding verify_loop conclude settle first_now
    loop-Reaches [] c h = absurd (h refl)
    loop-Reaches (t ∷ ts) c h = elim (Bool-cases (ltb t.now deadline)) [
      | inr late ↦ rw late (here (some p.payload) _)
      | inl early ↦
          let h' = rw early at h in
          rw early (
            by_updates t.heard (settling c.updated p before deadline) c (
              rw (wakes-settling t.heard c p before deadline) (
                wait-Reaches ts (deliver t.heard c) (deliver t.heard c).updated (loop-Reaches ts)
                  h')))
    ]

  written-Reaches :
      (w : WriteOutcome) (p : Plan) (before : Update) (c : Commander)
      → let x = after_write w p.payload p.satisfied env before c in
        Ends x → Reaches (writing p before, c) x
  unfolding after_write move
  written-Reaches transport_error p before c h =
      by_move (write_ended transport_error 0 0) (writing p before) c (here (some p.payload) _)
  written-Reaches written p before c h =
      let deadline = env.written_at + env.settle_timeout in
      by_move (write_ended written env.written_at (first_now env.turns)) (writing p before) c
        (loop-Reaches p before deadline env.turns (poke c) h)

  transmit-Reaches :
      (p : Plan) (before : Update) (c : Commander)
      → let x = Commander.transmit p.payload p.satisfied env before c in
        Ends x → Reaches (transmit p before c) x
  unfolding transmit Commander.transmit
  transmit-Reaches p before c h =
      by_updates env.heard_during_write (writing p before) _ (
        rw (wakes-writing env.heard_during_write p before) (written-Reaches env.write p before _ h))

  pub proceed-Reaches :
      (d : Bool) (before : Update) (p : Plan) (c : Commander)
      → let x = send_from p.payload p.satisfied d env before c in
        Ends x → Reaches (proceed d before p c) x
  unfolding send_from proceed
  proceed-Reaches d before p c h = elim (Bool-cases (is_trustworthy before.1)) [
    | inr bad ↦ rw bad (here none _)
    | inl good ↦ elim (Bool-cases (p.satisfied before.0)) [
      | inl already ↦ rw (good, already) (here none _)
      | inr s ↦ rw (good, s) (by_dry_run d (rw (good, s) at h))
    ]
  ]
    where
      by_dry_run :
          (b : Bool)
          → let x =
              if b
              then (ok (result_of before before p.payload), c)
              else Commander.transmit p.payload p.satisfied env before c in
            Ends x
            → Reaches
                (if b
                  then (ended none (ok (result_of before before p.payload)), c)
                  else transmit p before c)
                x
      by_dry_run true h' = here none _
      by_dry_run false h' = transmit-Reaches p before c h'
