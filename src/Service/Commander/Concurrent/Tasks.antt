-- ===== src/Service/Commander/Concurrent/Tasks.antt =====
-- service/commander.py: the tasks that share a commander, in any order of events.
use bedjet_local.Prelude.{ℕ, Bool, true, Option, none, some, List, [], ◌∷◌, map, get_elem?, set}
use bedjet_local.Service.Reader.{Update}
use bedjet_local.Service.Commander.{Commander, new, on_state}
use bedjet_local.Service.Commander.Requests.{Request}
use bedjet_local.Service.Commander.Concurrent.{Stage, ready, awaiting, settling, Task, Move, move}

pub record World : Type 0 where
  pub commander : Commander
  pub tasks : List Task

pub data Event : Type 0 where
  hear : Update → Event
  turn : (task : ℕ) → Move → Event

-- `self._updated.set()` wakes every wait.
unfoldable pub wake : Stage → Stage
wake (awaiting woken) = awaiting true
wake (settling woken p before deadline) = settling true p before deadline
wake stage = stage

abbrev pub woken : Task → Task
woken t = record t { stage = wake t.stage }

abbrev pub move_task : ℕ → Move → World → Option Task → World
move_task i m w none = w
move_task i m w (some t) =
    let x = move t m t.stage w.commander in
    record { commander = x.1; tasks = set w.tasks i (record t { stage = x.0 }) }

unfoldable pub fire : Event → World → World
unfolding wake
fire (hear u) w = record { commander = on_state u w.commander; tasks = map woken w.tasks }
fire (turn i m) w = move_task i m w (get_elem? w.tasks i)

unfoldable pub run : List Event → World → World
unfolding fire
run [] w = w
run (e ∷ es) w = run es (fire e w)

-- The updates among the events.
abbrev pub heard : List Event → List Update
heard [] = []
heard (hear u ∷ es) = u ∷ heard es
heard (turn i m ∷ es) = heard es

-- Commands that are about to begin, on a commander that has just been made.
abbrev pub call_of : Request × Bool × ℕ → Task
call_of (request, dry_run, settle_timeout) = record {
  request = request;
  dry_run = dry_run;
  settle_timeout = settle_timeout;
  stage = ready;
}

abbrev pub start : List (Request × Bool × ℕ) → World
start commands = record { commander = new; tasks = map call_of commands }
