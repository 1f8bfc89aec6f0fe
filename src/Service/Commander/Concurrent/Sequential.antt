-- ===== src/Service/Commander/Concurrent/Sequential.antt =====
-- One command alone on its commander: what `execute` computes, with the commander that it leaves, is
-- reached by a sequence of events.
use bedjet_local.Prelude.{
  ◌≡◌, sym, refl, subst, Bool, true, false, Option, none, some, List, [], ◌∷◌,
}
use bedjet_local.Python.Result.{Result, ok, err}
use bedjet_local.Service.Reader.{Update}
use bedjet_local.Service.Commander.{
  Commander, Env, Raised, deliver, on_ok, wait_for_state, wait_from, or_silence,
}
use bedjet_local.Service.Commander.Requests.{Request, execute}
use bedjet_local.Service.Commander.Concurrent.{
  Plan, ready, awaiting, begin, resumed, timed_out, move, on_plan, plan, leave_wait, enter_wait,
  on_baseline, begin_with, opening,
}
use bedjet_local.Service.Commander.Concurrent.Tasks.{wake}
use bedjet_local.Service.Commander.Concurrent.Alone.{
  Ends, wakes, at, Reaches, here, by_move, by_updates, proceed-Reaches,
}
use bedjet_local.Service.Commander.Concurrent.Planned.{planned, execute-waited, opening-refuses}

module _ (request : Request) (dry_run : Bool) (env : Env) where
  planned-Reaches :
      (x : Result Raised Plan) (u : Update) (c : Commander)
      → Ends (planned request dry_run env x u c)
      → Reaches request dry_run env (on_plan dry_run u x c) (planned request dry_run env x u c)
  unfolding planned on_plan
  planned-Reaches (ok p) u c h = proceed-Reaches request dry_run env dry_run u p c h
  planned-Reaches (err e) u c h = here request dry_run env none _

  -- A wait for a state is woken by the first update.
  wakes-awaiting :
      (us : List Update) (b : Bool) → (b' : Bool) × (wakes us (awaiting b) ≡ awaiting b')
  unfolding wake
  wakes-awaiting [] b = (b, refl)
  wakes-awaiting (u ∷ us) b = wakes-awaiting us true

  stays_awake : (us : List Update) → wakes us (awaiting true) ≡ awaiting true
  unfolding wake
  stays_awake [] = refl
  stays_awake (u ∷ us) = stays_awake us

  wakes-heard :
      (us : List Update) (c : Commander) (u : Update)
      → c.latest ≡ none
      → (deliver us c).latest ≡ some u
      → wakes us (awaiting false) ≡ awaiting true
  unfolding wake deliver
  wakes-heard [] c u n e = absurd cc
  wakes-heard (v ∷ us) c u n e = stays_awake us

  silent-Reaches :
      (c : Commander) (o : Option Update)
      → c.latest ≡ none
      → (deliver env.heard_before c).latest ≡ o
      → let c' = deliver env.heard_before c in
        let x =
          on_ok (or_silence c' o) λ u c''. planned request dry_run env (plan request u) u c'' in
        Ends x → Reaches request dry_run env (wakes env.heard_before (awaiting false), c') x
  unfolding or_silence move leave_wait on_baseline
  silent-Reaches c none n e h =
      let (b, woken) = wakes-awaiting env.heard_before false in
      rw woken (
        by_move request dry_run env (timed_out 0) (awaiting b) (deliver env.heard_before c)
          (here request dry_run env none _))
  silent-Reaches c (some u) n e h =
      let c' = deliver env.heard_before c in
      rw (wakes-heard env.heard_before c u n e) (
        by_move request dry_run env (resumed 0) (awaiting true) c' (
          subst
            (λ l.
              Reaches request dry_run env (leave_wait (at request dry_run env (awaiting true)) l c')
                (planned request dry_run env (plan request u) u c'))
            (sym e) (planned-Reaches (plan request u) u c' h)))

  waited-Reaches :
      (c : Commander) (o : Option Update)
      → c.latest ≡ o
      → let x =
          on_ok
            (wait_from o env.heard_before c)
            λ u c'. planned request dry_run env (plan request u) u c' in
        Ends x → Reaches request dry_run env (enter_wait (at request dry_run env ready) o c) x
  unfolding wait_from enter_wait on_baseline
  waited-Reaches c (some u) e h = planned-Reaches (plan request u) u c h
  waited-Reaches c none e h =
      let c0 : Commander = record c { updated = false } in
      by_updates request dry_run env env.heard_before (awaiting false) c0
        (silent-Reaches c0 (deliver env.heard_before c0).latest e refl h)

module _ (dry_run : Bool) (env : Env) (c : Commander) where
  begin-Reaches :
      (r : Request) (o : Option Raised)
      → opening r ≡ o
      → Ends (execute r dry_run env c)
      → Reaches r dry_run env (begin_with (at r dry_run env ready) o c) (execute r dry_run env c)
  unfolding begin_with wait_for_state
  begin-Reaches r none e h =
      rw (execute-waited dry_run env c r e)
        (waited-Reaches r dry_run env c c.latest refl (rw (execute-waited dry_run env c r e) at h))
  begin-Reaches r (some x) e h =
      rw (opening-refuses dry_run env c r x e) (here r dry_run env none _)

  -- What the sequential command computes is reached by one that is alone on its commander: how
  -- `execute` ends, if its rounds come to an end, and the commander that it leaves, is where some
  -- events lead that move this one task. Other events may end it otherwise.
  pub alone-Reaches :
      (r : Request)
      → Ends (execute r dry_run env c)
      → Reaches r dry_run env (ready, c) (execute r dry_run env c)
  unfolding move
  alone-Reaches r h = by_move r dry_run env begin ready c (begin-Reaches r (opening r) refl h)
