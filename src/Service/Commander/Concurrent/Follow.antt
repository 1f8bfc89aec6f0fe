-- ===== src/Service/Commander/Concurrent/Follow.antt =====
-- One task and the commander under an event, whichever task it moves.
use bedjet_local.Prelude.{
  ℕ, ◌≡◌, ◌⊎◌, inl, refl, ap, ◌∙◌, Bool, true, false, Option, none, some, get_elem?, get_elem?-set,
  get_elem?-set_other, get_elem?-map, arith,
}
use native.Mathlib.Decide.{ℕ_discrete}
use bedjet_local.Protocol.Constants.{Bytes}
use bedjet_local.Python.Result.{Result, ok, err}
use bedjet_local.Service.Reader.{Update}
use bedjet_local.Service.Commander.{
  Commander, Raised, CommandResult, on_state, look, Look, written, transport_error,
}
use bedjet_local.Service.Commander.Concurrent.{
  Plan, plan, Stage, ready, awaiting, settling, ended, Task, Move, begin, resumed, timed_out,
  write_ended, move, begin_with, enter_wait, leave_wait, on_baseline, on_plan, proceed, settle,
  checked, transmit, opening,
}
use bedjet_local.Service.Commander.Concurrent.Tasks.{
  World, Event, hear, turn, woken, fire, move_task,
}

-- What one event does to the task at `i` and to the commander.
pub data Fired (e : Event) (t t' : Task) (c c' : Commander) : Type 0 where
  by_update : (u : Update) → e ≡ hear u → t' ≡ woken t → c' ≡ on_state u c → Fired e t t' c c'
  by_turn :
      (i : ℕ) (m : Move)
      → e ≡ turn i m
      → t' ≡ record t { stage = (move t m t.stage c).0 }
      → c' ≡ (move t m t.stage c).1
      → Fired e t t' c c'
  by_other :
      (i : ℕ) (o : Task) (m : Move)
      → e ≡ turn i m
      → t' ≡ t
      → c' ≡ (move o m o.stage c).1
      → Fired e t t' c c'
  by_nothing : (i : ℕ) (m : Move) → e ≡ turn i m → t' ≡ t → c' ≡ c → Fired e t t' c c'

-- A turn of the task at `j`, which is there or not.
turn-Fired :
    (j : ℕ) (m : Move) (i : ℕ) (w : World) (t : Task) (o : Option Task)
    → get_elem? w.tasks i ≡ some t
    → get_elem? w.tasks j ≡ o
    → (t' : Task) × (get_elem? (move_task j m w o).tasks i ≡ some t')
      × Fired (turn j m) t t' w.commander (move_task j m w o).commander
turn-Fired j m i w t none h e = (t, h, by_nothing j m refl refl refl)
turn-Fired j m i w t (some o) h e = elim (ℕ_discrete j i) [
  | yes same ↦
      let q : o ≡ t = cc in
      (
        after o,
        rw (← same) (get_elem?-set w.tasks j (after o) e),
        by_turn j m refl (ap after q) (ap (λ (x : Task). (move x m x.stage w.commander).1) q),
      )
  | no other ↦
      (t, get_elem?-set_other w.tasks j i (after o) other ∙ h, by_other j o m refl refl refl)
]
  where
    after : Task → Task
    after x = record x { stage = (move x m x.stage w.commander).0 }

pub fire-Fired :
    (e : Event) (i : ℕ) (w : World) (t : Task)
    → get_elem? w.tasks i ≡ some t
    → (t' : Task) × (get_elem? (fire e w).tasks i ≡ some t')
      × Fired e t t' w.commander (fire e w).commander
unfolding fire
fire-Fired (hear u) i w t h = (woken t, get_elem?-map woken w.tasks i h, by_update u refl refl refl)
fire-Fired (turn j m) i w t h = turn-Fired j m i w t (get_elem? w.tasks j) h refl

pub move-ended :
    (t : Task) (m : Move) (o : Option Bytes) (x : Result Raised CommandResult) (c : Commander)
    → move t m (ended o x) c ≡ (ended o x, c)
unfolding move
move-ended t begin o x c = refl
move-ended t (resumed now) o x c = refl
move-ended t (timed_out now) o x c = refl
move-ended t (write_ended written since now) o x c = refl
move-ended t (write_ended transport_error since now) o x c = refl

-- A turn leaves the latest update as it is or takes it away.
abbrev pub Keeps : Commander → Commander → Type 0
Keeps c c' = (c'.latest ≡ c.latest) ⊎ (c'.latest ≡ none)

proceed-Keeps :
    (dry_run : Bool) (u : Update) (x : Result Raised Plan) (c : Commander)
    → Keeps c (on_plan dry_run u x c).1
unfolding on_plan proceed transmit
proceed-Keeps dry_run u (err e) c = inl refl
proceed-Keeps dry_run u (ok p) c = ground arith

checked-Keeps :
    (p : Plan) (u : Update) (deadline now : ℕ) (l : Look) (c : Commander)
    → Keeps c (checked p u deadline now l c).1
unfolding checked settle
checked-Keeps p u deadline now l c = ground arith

wait-Keeps :
    (t : Task) (o : Option Update) (c : Commander)
    → Keeps c (enter_wait t o c).1 × Keeps c (leave_wait t o c).1
unfolding enter_wait leave_wait on_baseline
wait-Keeps t none c = (inl refl, inl refl)
wait-Keeps t (some u) c = let k = proceed-Keeps t.dry_run u (plan t.request u) c in (k, k)

begin-Keeps : (t : Task) (o : Option Raised) (c : Commander) → Keeps c (begin_with t o c).1
unfolding begin_with
begin-Keeps t none c = (wait-Keeps t c.latest c).0
begin-Keeps t (some e) c = inl refl

pub move-Keeps : (t : Task) (m : Move) (s : Stage) (c : Commander) → Keeps c (move t m s c).1
unfolding move settle
move-Keeps t begin ready c = begin-Keeps t (opening t.request) c
move-Keeps t (resumed now) (awaiting true) c = (wait-Keeps t c.latest c).1
move-Keeps t (resumed now) (settling true p b d) c =
    checked-Keeps p b d now (look p.satisfied c.latest) (record c { updated = false })
move-Keeps t m s c = ground arith
