-- ===== src/Service/Commander/Concurrent/Ends.antt =====
-- How a command ends while others run on the same commander.
use bedjet_local.Prelude.{
  ℕ, ◌≡◌, ◌⊎◌, inl, inr, refl, ap, ◌∙◌, Option, none, some, List, [], ◌∷◌, ◌++◌, get_elem?, All,
}
use mathlib.Core.List.{Memᴰ}
use bedjet_local.Protocol.Constants.{Bytes}
use bedjet_local.Python.Result.{Result}
use bedjet_local.Service.Reader.{Update}
use bedjet_local.Service.Commander.{Commander, Raised, CommandResult}
use bedjet_local.Service.Commander.Concurrent.{
  Plan, Stage, ready, awaiting, writing, settling, ended, Task, move,
}
use bedjet_local.Service.Commander.Concurrent.Follow.{
  Fired, by_update, by_turn, by_other, by_nothing, fire-Fired, move-ended,
}
use bedjet_local.Service.Commander.Concurrent.Opened.{
  IsUnsent, IsAsked, Opened, waits, writes, is_over, IsOpen, move-Opened,
}
use bedjet_local.Service.Commander.Concurrent.Sent.{Answer, run-Sent, Sent-writing, Sent-ended}
use bedjet_local.Service.Commander.Concurrent.Tasks.{World, Event, wake, fire, run, heard}

Fired-ended :
    {e : Event} {t t' : Task} {c c' : Commander} {o : Option Bytes}
    {x : Result Raised CommandResult}
    → Fired e t t' c c'
    → t.stage ≡ ended o x
    → t'.stage ≡ ended o x
unfolding wake
Fired-ended (by_update u q f g) s = rw (f, s) refl
Fired-ended {t} {c} {o} {x} (by_turn i m q f g) s =
    ap (λ (z : Task). z.stage) f
    ∙ ap (λ (z : Stage). (move t m z c).0) s
    ∙ ap (λ (y : Stage × Commander). y.0) (move-ended t m o x c)
Fired-ended (by_other i y m q f g) s = rw (f, s) refl
Fired-ended (by_nothing i m q f g) s = rw (f, s) refl

run-ended :
    (es : List Event) (i : ℕ) (w : World) (t : Task) (o : Option Bytes)
    (x : Result Raised CommandResult)
    → get_elem? w.tasks i ≡ some t
    → t.stage ≡ ended o x
    → (t' : Task) × (get_elem? (run es w).tasks i ≡ some t') × (t'.stage ≡ ended o x)
unfolding run
run-ended [] i w t o x h e = (t, h, e)
run-ended (e ∷ es) i w t o x h s =
    let (t', at_i, fired) = fire-Fired e i w t h in
    run-ended es i (fire e w) t' o x at_i (Fired-ended fired s)

-- How a command ended that began among these events: before its write, or behind it.
pub data Told (es : List Event) (w : World) (i : ℕ) (t : Task) (o : Option Bytes)
    (x : Result Raised CommandResult) : Type 0 where
  unsent : o ≡ none → IsUnsent t.dry_run x → Told es w i t o x
  sent :
      (pre post : List Event) (t' : Task) (p : Plan) (before : Update)
      → es ≡ pre ++ post
      → get_elem? (run pre w).tasks i ≡ some t'
      → t'.stage ≡ writing p before
      → IsAsked t p before
      → o ≡ some p.payload
      → Answer (λ u. Memᴰ u (heard post)) p before x
      → Told es w i t o x

-- What an event makes of a task that has not come to its write.
data Next (t t' : Task) (c' : Commander) : Type 0 where
  still : t'.request ≡ t.request → t'.dry_run ≡ t.dry_run → IsOpen t'.stage → Next t t' c'
  began :
      (p : Plan) (before : Update)
      → t'.stage ≡ writing p before
      → IsAsked t p before
      → c'.latest ≡ none
      → Next t t' c'
  over :
      (x : Result Raised CommandResult)
      → t'.stage ≡ ended none x
      → IsUnsent t.dry_run x
      → Next t t' c'

wake-IsOpen : (s : Stage) → IsOpen s → IsOpen (wake s)
unfolding wake IsOpen
wake-IsOpen ready o = tt
wake-IsOpen (awaiting _) o = tt
wake-IsOpen (writing p b) o = o
wake-IsOpen (settling _ p b d) o = o
wake-IsOpen (ended x r) o = o

moved-Next :
    (t : Task) (s : Stage) (c : Commander) (y : Stage × Commander)
    → IsOpen s
    → (y ≡ (s, c)) ⊎ Opened t y
    → Next t (record t { stage = y.0 }) y.1
unfolding IsOpen
moved-Next t s c y o (inl same) = rw same (still refl refl o)
moved-Next t s c y o (inr (waits b e)) = still refl refl (rw e tt)
moved-Next t s c y o (inr (writes p before e asked l)) = began p before e asked l
moved-Next t s c y o (inr (is_over x e u)) = over x e u

Fired-Next :
    {e : Event} {t t' : Task} {c c' : Commander} → Fired e t t' c c' → IsOpen t.stage → Next t t' c'
Fired-Next {t} (by_update u q f g) o = rw f (still refl refl (wake-IsOpen t.stage o))
Fired-Next {t} {c} (by_turn i m q f g) o =
    rw (f, g) (moved-Next t t.stage c (move t m t.stage c) o (move-Opened t m t.stage c o))
Fired-Next (by_other i y m q f g) o = rw f (still refl refl o)
Fired-Next (by_nothing i m q f g) o = rw f (still refl refl o)

pub All-Memᴰ :
    (us vs : List Update) → ((u : Update) → Memᴰ u us → Memᴰ u vs) → All (λ u. Memᴰ u vs) us
All-Memᴰ [] vs h = tt
All-Memᴰ (u ∷ us) vs h = (h u (Memᴰ.head refl), All-Memᴰ us vs (λ x m. h x (Memᴰ.tail m)))

earlier-Told :
    (e : Event) (es : List Event) (w : World) (i : ℕ) (t t' : Task) (o : Option Bytes)
    (x : Result Raised CommandResult)
    → t'.request ≡ t.request
    → t'.dry_run ≡ t.dry_run
    → Told es (fire e w) i t' o x
    → Told (e ∷ es) w i t o x
unfolding run
earlier-Told e es w i t t' o x r d (unsent a b) = unsent a (rw (← d) b)
earlier-Told e es w i t t' o x r d (sent pre post s p before q at_i writes_ asked a b) =
    sent (e ∷ pre) post s p before (ap (e ∷◌) q) at_i writes_ (rw (← r, ← d) asked) a b

module _ (e : Event) (es : List Event) (w : World) (i : ℕ) (t t' y : Task) (o : Option Bytes)
    (x : Result Raised CommandResult) (at_i : get_elem? (fire e w).tasks i ≡ some y)
    (h' : get_elem? (run es (fire e w)).tasks i ≡ some t') (s : t'.stage ≡ ended o x) where
  began-Told :
      (p : Plan) (before : Update)
      → y.stage ≡ writing p before
      → IsAsked t p before
      → (fire e w).commander.latest ≡ none
      → Told (e ∷ es) w i t o x
  unfolding run
  began-Told p before k asked l =
      let (a, b) = Sent-ended Heard p before t'.stage o x s (
        run-Sent Heard p before es i (fire e w) y t' (All-Memᴰ (heard es) (heard es) (λ u m. m))
          (λ u n. absurd cc) at_i h' (Sent-writing Heard p before y.stage k)) in
      sent (e ∷ []) es y p before refl at_i k asked a b
    where
      Heard : Update → Type 0
      Heard u = Memᴰ u (heard es)

  over-Told :
      (z : Result Raised CommandResult)
      → y.stage ≡ ended none z
      → IsUnsent t.dry_run z
      → Told (e ∷ es) w i t o x
  over-Told z k u =
      let (y', at_i', k') = run-ended es i (fire e w) y none z at_i k in
      let q : y' ≡ t' = cc in let a : o ≡ none = cc in let b : z ≡ x = cc in unsent a (rw (← b) u)

  step-Told :
      Next t y (fire e w).commander
      → (IsOpen y.stage → Told es (fire e w) i y o x)
      → Told (e ∷ es) w i t o x
  step-Told (still r d open') ih = earlier-Told e es w i t y o x r d (ih open')
  step-Told (began p before k asked l) ih = began-Told p before k asked l
  step-Told (over z k u) ih = over-Told z k u

-- Whatever runs beside it on the same commander, a command that returns has its proof: it wrote
-- once, checked against a trustworthy state that did not satisfy it, and returned a trustworthy
-- update, heard after its write began, that does; only a dry run returns without a write. If it was
-- refused, already satisfied or could not be encoded, it wrote nothing, and an unverified or failed
-- write was this one.
pub run-Told :
    (es : List Event) (w : World) (i : ℕ) (t t' : Task) (o : Option Bytes)
    (x : Result Raised CommandResult)
    → get_elem? w.tasks i ≡ some t
    → IsOpen t.stage
    → get_elem? (run es w).tasks i ≡ some t'
    → t'.stage ≡ ended o x
    → Told es w i t o x
unfolding run IsOpen
run-Told [] w i t t' o x h open_ h' s = let e : t.stage ≡ ended o x = cc in absurd (rw e at open_)
run-Told (e ∷ es) w i t t' o x h open_ h' s =
    let (y, at_i, fired) = fire-Fired e i w t h in
    step-Told e es w i t t' y o x at_i h' s (Fired-Next fired open_)
      λ open'. run-Told es (fire e w) i y t' o x at_i open' h' s
