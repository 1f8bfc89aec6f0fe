-- ===== src/Service/Commander/Concurrent/Sent.antt =====
-- service/commander.py: a command from its write to its end, while others run on the same commander.
use bedjet_local.Prelude.{
  ℕ, ◌≡◌, inl, inr, refl, true, false, Option, some, List, [], ◌∷◌, get_elem?, arith, All,
}
use bedjet_local.Protocol.Constants.{Bytes}
use bedjet_local.Protocol.Packets.{is_trustworthy}
use bedjet_local.Python.Result.{Result, ok, err}
use bedjet_local.Service.Reader.{Update}
use bedjet_local.Service.Commander.{
  Commander, Raised, write_failed, unverified, assertion_error, CommandResult, result_of, on_state,
  look, Look, done, go_on, missing, written, transport_error,
}
use bedjet_local.Service.Commander.Loop.{look_done}
use bedjet_local.Service.Commander.Concurrent.{
  Plan, Stage, ready, awaiting, writing, settling, ended, Task, Move, begin, resumed, timed_out,
  write_ended, move, settle, checked, poke,
}
use bedjet_local.Service.Commander.Concurrent.Follow.{
  Fired, by_update, by_turn, by_other, by_nothing, fire-Fired, move-ended, Keeps, move-Keeps,
}
use bedjet_local.Service.Commander.Concurrent.Tasks.{
  World, Event, hear, turn, wake, fire, run, heard,
}

module _ (H : Update → Type 0) (p : Plan) (before : Update) where
  -- What a command that has called `transport.write` may end as.
  pub Answer : Result Raised CommandResult → Type 0
  Answer (ok r) =
      (u : Update) × (r ≡ result_of before u p.payload)
      × (p.satisfied u.0 ≡ true)
      × (is_trustworthy u.1 ≡ true)
      × H u
  Answer (err (write_failed q)) = q ≡ p.payload
  Answer (err (unverified q s)) = q ≡ p.payload
  Answer (err assertion_error) = Unit
  Answer (err _) = ⊥

  -- Where it may stand.
  pub Sent : Stage → Type 0
  Sent (writing q b) = (q ≡ p) × (b ≡ before)
  Sent (settling _ q b _) = (q ≡ p) × (b ≡ before)
  Sent (ended o x) = (o ≡ some p.payload) × Answer x
  Sent _ = ⊥

  abbrev pub Latest : Commander → Type 0
  Latest c = (u : Update) → c.latest ≡ some u → H u

  settle-Sent : (deadline now : ℕ) (c : Commander) → Sent (settle p before deadline now c).0
  unfolding settle Sent Answer
  settle-Sent deadline now c = ground arith

  checked-Sent :
      (deadline now : ℕ) (l : Look) (c : Commander)
      → ((u : Update) → l ≡ done u → (p.satisfied u.0 ≡ true) × (is_trustworthy u.1 ≡ true) × H u)
      → Sent (checked p before deadline now l c).0
  unfolding checked Sent Answer
  checked-Sent deadline now (done u) c h = let (a, b, g) = h u refl in (refl, (u, refl, a, b, g))
  checked-Sent deadline now go_on c h = settle-Sent deadline now c
  checked-Sent deadline now missing c h = (refl, tt)

  move-Sent :
      (t : Task) (m : Move) (s : Stage) (c : Commander) → Latest c → Sent s → Sent (move t m s c).0
  unfolding move Sent Answer
  move-Sent t m ready c l h = absurd h
  move-Sent t m (awaiting _) c l h = absurd h
  move-Sent t begin (writing q b) c l h = h
  move-Sent t (resumed now) (writing q b) c l h = h
  move-Sent t (timed_out now) (writing q b) c l h = h
  move-Sent t (write_ended transport_error since now) (writing q b) c l (e, f) = (cc, cc)
  move-Sent t (write_ended written since now) (writing q b) c l (e, f) =
      rw (e, f) (settle-Sent _ now (poke c))
  move-Sent t begin (settling _ q b d) c l h = h
  move-Sent t (resumed now) (settling false q b d) c l h = h
  move-Sent t (resumed now) (settling true q b d) c l (e, f) =
      rw (e, f)
        (checked-Sent d now (look p.satisfied c.latest) _
          λ u k. let (e, f, g) = look_done p.satisfied c.latest u k in (f, g, l u e))
  move-Sent t (timed_out now) (settling _ q b d) c l (e, f) = rw (e, f) (settle-Sent d now (poke c))
  move-Sent t (write_ended written since now) (settling _ q b d) c l h = h
  move-Sent t (write_ended transport_error since now) (settling _ q b d) c l h = h
  move-Sent t m (ended o x) c l h = rw (move-ended t m o x c) h

  on_state-Latest : (u : Update) (c : Commander) → H u → Latest (on_state u c)
  unfolding on_state
  on_state-Latest u c h v e = ground arith

  Keeps-Latest : (c c' : Commander) → Keeps c c' → Latest c → Latest c'
  Keeps-Latest c c' (inl same) l u e = l u cc
  Keeps-Latest c c' (inr gone) l u e = absurd cc

  wake-Sent : (s : Stage) → Sent s → Sent (wake s)
  unfolding wake Sent
  wake-Sent ready h = h
  wake-Sent (awaiting _) h = h
  wake-Sent (writing q b) h = h
  wake-Sent (settling _ q b d) h = h
  wake-Sent (ended o x) h = h

  heard-All :
      (e : Event) (es : List Event)
      → All H (heard (e ∷ es))
      → All H (heard (e ∷ [])) × All H (heard es)
  heard-All (hear u) es a = ((a.0, tt), a.1)
  heard-All (turn i m) es a = (tt, a)

  Fired-Sent :
      (e : Event) (t t' : Task) (c c' : Commander)
      → Fired e t t' c c'
      → All H (heard (e ∷ []))
      → Latest c
      → Sent t.stage
      → Latest c' × Sent t'.stage
  Fired-Sent e t t' c c' (by_update u q f g) h l s =
      let k = rw q at h in rw (f, g) (on_state-Latest u c k.0, wake-Sent t.stage s)
  Fired-Sent e t t' c c' (by_turn i m q f g) h l s =
      rw (f, g)
        (
          Keeps-Latest c (move t m t.stage c).1 (move-Keeps t m t.stage c) l,
          move-Sent t m t.stage c l s,
        )
  Fired-Sent e t t' c c' (by_other i o m q f g) h l s =
      rw (f, g) (Keeps-Latest c (move o m o.stage c).1 (move-Keeps o m o.stage c) l, s)
  Fired-Sent e t t' c c' (by_nothing i m q f g) h l s = rw (f, g) (l, s)

  pub run-Sent :
      (es : List Event) (i : ℕ) (w : World) (t t' : Task)
      → All H (heard es)
      → Latest w.commander
      → get_elem? w.tasks i ≡ some t
      → get_elem? (run es w).tasks i ≡ some t'
      → Sent t.stage
      → Sent t'.stage
  unfolding run
  run-Sent [] i w t t' a l h h' s = let e : t ≡ t' = cc in rw (← e) s
  run-Sent (e ∷ es) i w t t' a l h h' s =
      let (x, at_i, fired) = fire-Fired e i w t h in
      let (a1, a2) = heard-All e es a in
      let (l', s') = Fired-Sent e t x w.commander _ fired a1 l s in
      run-Sent es i (fire e w) x t' a2 l' at_i h' s'

  pub Sent-writing : (s : Stage) → s ≡ writing p before → Sent s
  unfolding Sent
  Sent-writing s e = rw e (refl, refl)

  pub Sent-ended :
      (s : Stage) (o : Option Bytes) (x : Result Raised CommandResult)
      → s ≡ ended o x
      → Sent s
      → (o ≡ some p.payload) × Answer x
  unfolding Sent
  Sent-ended s o x e h = rw e at h
