-- ===== src/Service/Commander/Concurrent/Wire.antt =====
-- The writes of commands that share a commander, told apart by their tasks.
use bedjet_local.Prelude.{
  ℕ, zero, suc, ◌+◌, ◌≡◌, String, refl, Bool, true, false, Option, none, some, List, [], ◌∷◌, ◌++◌,
  map, get_elem?, set, arith, if◌then◌else◌,
}
use bedjet_local.Protocol.Constants.{Bytes, command_uuid}
use bedjet_local.Python.Result.{Result, ok, err}
use bedjet_local.Service.Reader.{Update}
use bedjet_local.Service.Commander.{
  Commander, Raised, new, on_state, look, Look, done, go_on, missing, written,
}
use bedjet_local.Service.Commander.Requests.{Request}
use bedjet_local.Service.Commander.Concurrent.{
  Plan, plan, Stage, ready, awaiting, writing, settling, ended, Task, Move, begin, resumed,
  timed_out, write_ended, move, begin_with, enter_wait, leave_wait, on_baseline, on_plan, proceed,
  settle, checked, transmit, opening, poke,
}
use bedjet_local.Service.Commander.Concurrent.Tasks.{
  World, Event, hear, turn, wake, woken, move_task, fire, run, call_of, start,
}

-- What a task has handed to `transport.write`, if it has come so far.
pub handed_over : Stage → Option Bytes
handed_over ready = none
handed_over (awaiting _) = none
handed_over (writing p before) = some p.payload
handed_over (settling _ p before deadline) = some p.payload
handed_over (ended o x) = o

module _ (f : String × Bytes → Bool) where
  pub writes_picked : List (String × Bytes) → ℕ
  writes_picked [] = 0
  writes_picked (x ∷ xs) = if f x then suc (writes_picked xs) else writes_picked xs

  one : Option Bytes → ℕ
  one none = 0
  one (some payload) = if f (command_uuid, payload) then 1 else 0

  weight : Stage → ℕ
  unfolding handed_over one
  weight s = one (handed_over s)

  -- The tasks whose write the test picks.
  pub writers : List Task → ℕ
  unfolding weight
  writers [] = 0
  writers (t ∷ ts) = weight t.stage + writers ts

  writes_picked-snoc :
      (xs : List (String × Bytes)) (payload : Bytes)
      → writes_picked (xs ++ (command_uuid, payload) ∷ []) ≡ writes_picked xs + one (some payload)
  unfolding writes_picked one
  writes_picked-snoc [] payload = ground arith
  writes_picked-snoc (x ∷ xs) payload = ground (arith, writes_picked-snoc xs payload)

  -- A stretch that leaves `s` with the commander `c` accounts for what it writes.
  abbrev Accounts : Stage → Commander → Stage × Commander → Type 0
  Accounts s c y = writes_picked y.1.writes + weight s ≡ writes_picked c.writes + weight y.0

  module _ (s : Stage) (unwritten : weight s ≡ 0) where
    plan-Accounts :
        (dry_run : Bool) (u : Update) (x : Result Raised Plan) (c : Commander)
        → Accounts s c (on_plan dry_run u x c)
    unfolding on_plan proceed transmit weight
    plan-Accounts dry_run u (err e) c = omega (arith, unwritten)
    plan-Accounts dry_run u (ok p) c =
        ground (arith, unwritten, writes_picked-snoc c.writes p.payload)

    enter-Accounts :
        (t : Task) (o : Option Update) (c : Commander) → Accounts s c (enter_wait t o c)
    unfolding enter_wait on_baseline weight
    enter-Accounts t none c = omega (arith, unwritten)
    enter-Accounts t (some u) c = plan-Accounts t.dry_run u (plan t.request u) c

    leave-Accounts :
        (t : Task) (o : Option Update) (c : Commander) → Accounts s c (leave_wait t o c)
    unfolding leave_wait on_baseline weight
    leave-Accounts t none c = omega (arith, unwritten)
    leave-Accounts t (some u) c = plan-Accounts t.dry_run u (plan t.request u) c

    begin-Accounts :
        (t : Task) (o : Option Raised) (c : Commander) → Accounts s c (begin_with t o c)
    unfolding begin_with weight
    begin-Accounts t none c = enter-Accounts t c.latest c
    begin-Accounts t (some e) c = omega (arith, unwritten)

  settle-Accounts :
      (p : Plan) (before : Update) (deadline now : ℕ) (c : Commander)
      → Accounts (writing p before) c (settle p before deadline now c)
  unfolding settle weight
  settle-Accounts p before deadline now c = ground arith

  checked-Accounts :
      (p : Plan) (before : Update) (deadline now : ℕ) (l : Look) (c : Commander)
      → Accounts (writing p before) c (checked p before deadline now l c)
  unfolding checked weight
  checked-Accounts p before deadline now (done u) c = refl
  checked-Accounts p before deadline now go_on c = settle-Accounts p before deadline now c
  checked-Accounts p before deadline now missing c = refl

  move-Accounts : (t : Task) (m : Move) (s : Stage) (c : Commander) → Accounts s c (move t m s c)
  unfolding move weight
  move-Accounts t begin ready c = begin-Accounts ready refl t (opening t.request) c
  move-Accounts t (resumed now) (awaiting true) c = leave-Accounts (awaiting true) refl t c.latest c
  move-Accounts t (resumed now) (settling true p before deadline) c =
      checked-Accounts p before deadline now (look p.satisfied c.latest)
        (record c { updated = false })
  move-Accounts t (timed_out now) (settling w p before deadline) c =
      settle-Accounts p before deadline now (poke c)
  move-Accounts t (write_ended written since now) (writing p before) c =
      settle-Accounts p before (since + t.settle_timeout) now (poke c)
  move-Accounts t m s c = ground arith

  writers-set :
      (ts : List Task) (i : ℕ) (t v : Task)
      → get_elem? ts i ≡ some t
      → writers (set ts i v) + weight t.stage ≡ writers ts + weight v.stage
  unfolding writers
  writers-set [] i t v h = cc
  writers-set (x ∷ ts) zero t v h = let e : x ≡ t = cc in rw e (omega arith)
  writers-set (x ∷ ts) (suc i) t v h = omega (arith, writers-set ts i t v h)

  weight-wake : (s : Stage) → weight (wake s) ≡ weight s
  unfolding weight wake
  weight-wake s = ground arith

  writers-woken : (ts : List Task) → writers (map woken ts) ≡ writers ts
  unfolding writers weight wake
  writers-woken [] = refl
  writers-woken (t ∷ ts) = omega (arith, weight-wake t.stage, writers-woken ts)

  writers-call_of : (cs : List (Request × Bool × ℕ)) → writers (map call_of cs) ≡ 0
  unfolding writers weight
  writers-call_of [] = refl
  writers-call_of (c ∷ cs) = omega (arith, writers-call_of cs)

  turn-writers :
      (i : ℕ) (m : Move) (w : World) (o : Option Task)
      → get_elem? w.tasks i ≡ o
      → writes_picked (move_task i m w o).commander.writes + writers w.tasks
        ≡ writes_picked w.commander.writes + writers (move_task i m w o).tasks
  turn-writers i m w none h = refl
  turn-writers i m w (some t) h =
      let x = move t m t.stage w.commander in
      omega (
        arith,
        move-Accounts t m t.stage w.commander,
        writers-set w.tasks i t (record t { stage = x.0 }) h,
      )

  fire-writers :
      (e : Event) (w : World)
      → writes_picked (fire e w).commander.writes + writers w.tasks
        ≡ writes_picked w.commander.writes + writers (fire e w).tasks
  unfolding fire on_state
  fire-writers (hear u) w = rw (writers-woken w.tasks) refl
  fire-writers (turn i m) w = turn-writers i m w (get_elem? w.tasks i) refl

  run-writers :
      (es : List Event) (w : World)
      → writes_picked (run es w).commander.writes + writers w.tasks
        ≡ writes_picked w.commander.writes + writers (run es w).tasks
  unfolding run
  run-writers [] w = refl
  run-writers (e ∷ es) w = omega (arith, fire-writers e w, run-writers es (fire e w))

  -- Each write is that of one task, and no task writes twice: whatever a test picks, it picks as
  -- many of the calls of `transport.write` as of the tasks that have written, in any order of the
  -- events of any number of commands.
  pub writes_counted :
      (commands : List (Request × Bool × ℕ)) (es : List Event)
      → writes_picked (run es (start commands)).commander.writes
        ≡ writers (run es (start commands)).tasks
  unfolding new writes_picked
  writes_counted commands es =
      omega (arith, run-writers es (start commands), writers-call_of commands)
