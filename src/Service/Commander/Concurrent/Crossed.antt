-- ===== src/Service/Commander/Concurrent/Crossed.antt =====
-- service/commander.py: a second command that takes the update which the first one waits for. Its
-- `self._latest = None` comes before the first command runs again.
use bedjet_local.Prelude.{
  ℕ, ◌+◌, ◌≡◌, ◌<◌, refl, true, false, none, some, List, [], ◌∷◌, lt→ltb, ◌∙◌, ap₂, ap,
}
use bedjet_local.Python.Result.{Result, ok, err}
use bedjet_local.Service.Reader.{Update}
use bedjet_local.Service.Commander.{
  Commander, Raised, new, on_state, assertion_error, written, look,
}
use bedjet_local.Service.Commander.Requests.{Request}
use bedjet_local.Service.Commander.Concurrent.{
  Stage, Plan, ready, awaiting, settling, writing, ended, Move, Task, begin, resumed, timed_out,
  write_ended, move, begin_with, enter_wait, on_baseline, on_plan, proceed, settle, checked,
  transmit, opening, poke,
}
use bedjet_local.Protocol.Packets.{is_trustworthy}
use bedjet_local.Service.Commander.Concurrent.Tasks.{
  World, Event, hear, turn, wake, fire, run, start,
}
use bedjet_local.Service.Commander.Concurrent.Opened.{IsAsked}

-- The first command writes on `before` and waits; the second begins, finds no state and waits; the
-- first waits again, behind it. `u` wakes both, the second first.
abbrev pub crossing : (before u : Update) (written_at now later last : ℕ) → List Event
crossing before u written_at now later last =
    hear before
    ∷ turn 0 begin
    ∷ turn 0 (write_ended written written_at now)
    ∷ turn 1 begin
    ∷ turn 0 (timed_out later)
    ∷ hear u
    ∷ turn 1 (resumed later)
    ∷ turn 0 (resumed last)
    ∷ []

proceed-writes :
    (u : Update) (p : Plan) (c : Commander)
    → is_trustworthy u.1 ≡ true
    → p.satisfied u.0 ≡ false
    → on_plan false u (ok p) c ≡ transmit p u c
unfolding on_plan proceed
proceed-writes u p c good new_ = rw (good, new_) refl

on_baseline-writes :
    (t : Task) (u : Update) (p : Plan) (c : Commander)
    → IsAsked t p u
    → on_baseline t u c ≡ transmit p u c
unfolding on_baseline
on_baseline-writes t u p c (planned, wet, good, new_) =
    ap₂ (λ d (x : Result Raised Plan). on_plan d u x c) wet planned ∙ proceed-writes u p c good new_

begin-writes :
    (t : Task) (u : Update) (p : Plan) (c : Commander)
    → opening t.request ≡ none
    → IsAsked t p u
    → move t begin ready (on_state u c) ≡ transmit p u (on_state u c)
unfolding move begin_with enter_wait on_state
begin-writes t u p c o asked = rw o (on_baseline-writes t u p _ asked)

begin-waits :
    (t : Task) (c : Commander)
    → opening t.request ≡ none
    → c.latest ≡ none
    → move t begin ready c ≡ (awaiting false, record c { updated = false })
unfolding move begin_with enter_wait
begin-waits t c o l = rw (o, l) refl

settle-waits :
    (p : Plan) (before : Update) (deadline now : ℕ) (c : Commander)
    → now < deadline
    → settle p before deadline now c ≡ (settling c.updated p before deadline, c)
unfolding settle
settle-waits p before deadline now c l = rw (lt→ltb now deadline l) refl

next :
    (e : Event) (es : List Event) (w v x : World) → fire e w ≡ v → run es v ≡ x → run (e ∷ es) w ≡ x
unfolding run
next e es w v x h rest = ap (run es) h ∙ rest

finish : (w : World) → run [] w ≡ w
unfolding run
finish w = refl

module _ (r0 r1 : Request) (timeout0 timeout1 : ℕ) where
  abbrev pub first_at : Stage → Task
  first_at s = record { request = r0; dry_run = false; settle_timeout = timeout0; stage = s }

  abbrev pub second_at : Stage → Task
  second_at s = record { request = r1; dry_run = false; settle_timeout = timeout1; stage = s }

  abbrev pub pair : Commander → Stage → Stage → World
  pair c a b = record { commander = c; tasks = first_at a ∷ second_at b ∷ [] }

  turn_first :
      (m : Move) (c : Commander) (a b : Stage) {y : Stage × Commander}
      → move (first_at a) m a c ≡ y
      → fire (turn 0 m) (pair c a b) ≡ pair y.1 y.0 b
  unfolding fire
  turn_first m c a b h = ap (λ (y : Stage × Commander). pair y.1 y.0 b) h

  turn_second :
      (m : Move) (c : Commander) (a b : Stage) {y : Stage × Commander}
      → move (second_at b) m b c ≡ y
      → fire (turn 1 m) (pair c a b) ≡ pair y.1 a y.0
  unfolding fire
  turn_second m c a b h = ap (λ (y : Stage × Commander). pair y.1 a y.0) h

  -- Two commands on one commander break the assertion of the loop: the first has written and waits,
  -- the update that answers it becomes the baseline of the second, which forgets it as it writes,
  -- and the first ends with an `AssertionError`, whether or not the device obeyed.
  pub crossed :
      (before u : Update) (p0 p1 : Plan) (written_at now later last : ℕ)
      → opening r0 ≡ none
      → opening r1 ≡ none
      → IsAsked (first_at ready) p0 before
      → IsAsked (second_at ready) p1 u
      → now < written_at + timeout0
      → later < written_at + timeout0
      → (c : Commander) × (run
            (crossing before u written_at now later last)
            (start ((r0, false, timeout0) ∷ (r1, false, timeout1) ∷ []))
          ≡ pair c (ended (some p0.payload) (err assertion_error)) (writing p1 u))
  unfolding new on_state move settle checked transmit wake fire look
  crossed before u p0 p1 written_at now later last o0 o1 asked0 asked1 in_time still_in_time =
      let deadline = written_at + timeout0 in
      let c1 = on_state before new in
      let c2 = (transmit p0 before c1).1 in
      let c3 = poke c2 in
      let c4 : Commander = record c3 { updated = false } in
      let c5 = poke c4 in
      let c6 = on_state u c5 in
      let c7 = (transmit p1 u c6).1 in
      let waits0 = settling false p0 before deadline in
      let wakes0 = settling true p0 before deadline in
      let c8 : Commander = record c7 { updated = false } in
      (
        c8,
        next _ _ _ (pair c1 ready ready) _ refl (
            next _ _ _ (pair c2 (writing p0 before) ready) _
              (turn_first begin c1 ready ready
                (begin-writes (first_at ready) before p0 new o0 asked0))
              (next _ _ _ (pair c3 waits0 ready) _
                (turn_first (write_ended written written_at now) c2 (writing p0 before) ready
                  (settle-waits p0 before deadline now c3 in_time))
                (next _ _ _ (pair c4 waits0 (awaiting false)) _
                  (turn_second begin c3 waits0 ready (begin-waits (second_at ready) c3 o1 refl))
                  (next _ _ _ (pair c5 waits0 (awaiting false)) _
                    (turn_first (timed_out later) c4 waits0 (awaiting false)
                      (settle-waits p0 before deadline later c5 still_in_time))
                    (next _ _ _ (pair c6 wakes0 (awaiting true)) _ refl (
                      next _ _ _ (pair c7 wakes0 (writing p1 u)) _
                        (turn_second (resumed later) c6 wakes0 (awaiting true)
                          (on_baseline-writes (second_at (awaiting true)) u p1 c6 asked1))
                        (next _ _ _
                          (pair c8 (ended (some p0.payload) (err assertion_error)) (writing p1 u)) _
                          (turn_first (resumed last) c7 wakes0 (writing p1 u) refl)
                          (finish _)))))))),
      )
