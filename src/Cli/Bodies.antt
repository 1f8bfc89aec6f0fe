-- ===== src/Cli/Bodies.antt =====
-- What the end of a subcommand's body tells of the writes, before the link is released.
use bedjet_local.Prelude.{
  ◌≡◌, ◌⊎◌, inl, inr, refl, String, Bool, true, false, not, ◌&&◌, Option, none, some, List, if_both,
  if◌then◌else◌,
}
use bedjet_local.Python.Result.{Result, ok, err}
use bedjet_local.Protocol.Constants.{Bytes}
use bedjet_local.Protocol.Encode.{EncodeError}
use bedjet_local.Service.Reader.{Update}
use bedjet_local.Service.Commander.{
  Commander, Env, CommandResult, Raised, refused, already_satisfied, write_failed, unverified,
  encode_error, assertion_error, still_waiting, wait_for_state,
}
use bedjet_local.Service.Commander.Outcomes.{
  heard_after_write, Silent, Wrote, Waited, wait_for_state-Waited,
}
use bedjet_local.Service.Commander.Loop.{deliver-writes}
use bedjet_local.Service.Commander.Requests.{Request, execute}
use mathlib.Core.List.{Memᴰ}
use bedjet_local.Protocol.Packets.{is_trustworthy}
use bedjet_local.Service.Commander.Goals.{Shows, Achieved, execute-Achieved}
use bedjet_local.Service.Commander.Audit.{Accounted, execute-Accounted}
use bedjet_local.Cli.{
  Interrupt, at_connect, before_write, behind_write, at_stop, at_disconnect, interrupted, cancelled,
  Arguments, Ended, returned, verified, raised, running, confirm, announce, encoding_ended,
  ended_by, conclude, proceed, attend,
}

-- A state that the command returned shows what was asked for: trustworthy, and heard since the write
-- began.
abbrev pub Met : Request → Env → Type 0
Met request env =
    (r : CommandResult) × Shows request r.after
    × (is_trustworthy r.after_packet ≡ true)
    × Memᴰ (r.after, r.after_packet) (heard_after_write env)

-- What the end of a body tells of the writes since `c`; a verified command was `met`.
pub data BodyTells (met : Type 0) (dry_run : Bool) (c : Commander)
    : Ended → Commander → Type 0 where
  rehearsed :
      {c' : Commander} → dry_run ≡ true → Silent c c' → BodyTells met dry_run c (returned 0) c'
  declined : {c' : Commander} → Silent c c' → BodyTells met dry_run c (returned 1) c'
  threw : {c' : Commander} → Silent c c' → BodyTells met dry_run c raised c'
  doubtful :
      {c' : Commander} (payload : Bytes)
      → dry_run ≡ false
      → Wrote payload c c'
      → BodyTells met dry_run c (returned 2) c'
  done :
      {c' : Commander} (payload : Bytes)
      → dry_run ≡ false
      → Wrote payload c c'
      → met
      → BodyTells met dry_run c verified c'
  waiting :
      {c' : Commander} (payload : Bytes)
      → dry_run ≡ false
      → Wrote payload c c'
      → BodyTells met dry_run c running c'
  cut_short :
      {c' : Commander}
      → Silent c c' ⊎ ((payload : Bytes) × (dry_run ≡ false) × Wrote payload c c')
      → BodyTells met dry_run c cancelled c'

module _ (met : Type 0) (dry_run : Bool) (request : Request) (c c' : Commander) where
  encoding-BodyTells :
      (e : EncodeError) → Silent c c' → BodyTells met dry_run c (encoding_ended request e) c'
  unfolding encoding_ended
  encoding-BodyTells e quiet =
      if_both (λ x. BodyTells met dry_run c x c') _ (declined quiet) (threw quiet)

  ended-BodyTells :
      (e : Raised)
      → Accounted dry_run c (err e, c')
      → BodyTells met dry_run c (ended_by request e) c'
  unfolding ended_by
  ended-BodyTells (refused why) h = declined h
  ended-BodyTells already_satisfied h = declined h
  ended-BodyTells (unverified payload state) h = doubtful payload h.0 h.1
  ended-BodyTells (write_failed payload) h = doubtful payload h.0 h.1
  ended-BodyTells (encode_error e) h = encoding-BodyTells e h
  ended-BodyTells assertion_error h = absurd h
  ended-BodyTells still_waiting h = waiting h.1.0 h.0 h.1.1

rehearsal-BodyTells :
    (met : Type 0) (request : Request) (c : Commander) (x : Result Raised CommandResult × Commander)
    → Accounted true c x
    → BodyTells met true c (conclude request (returned 0) x).0 (conclude request (returned 0) x).1
unfolding conclude
rehearsal-BodyTells met request c (ok r, c') h = rehearsed refl (h.0 refl)
rehearsal-BodyTells met request c (err e, c') h = ended-BodyTells met true request c c' e h

command-BodyTells :
    (env : Env) (request : Request) (c : Commander) (x : Result Raised CommandResult × Commander)
    → Accounted false c x
    → Achieved request env x
    → BodyTells
        (Met request env)
        false
        c
        (conclude request verified x).0
        (conclude request verified x).1
unfolding conclude
command-BodyTells env request c (ok r, c') h a =
    let (g, good, fresh) = a in done r.payload refl (h.1 refl) (r, g, good, fresh)
command-BodyTells env request c (err e, c') h a =
    ended-BodyTells (Met request env) false request c c' e h

abbrev pub Tells : Type 0 → Bool → Commander → Ended × Commander → Type 0
Tells met dry_run c x = BodyTells met dry_run c x.0 x.1

module _ (strip : String → String) (typed : Option String) (env : Env) (request : Request) where
  sure-Tells :
      (answer : Option Bool) (c : Commander)
      → Tells (Met request env) false c (elim answer [
        | none ↦ (raised, c)
        | some agreed ↦
            if agreed
            then conclude request verified (execute request false env c)
            else (returned 1, c)
      ])
  sure-Tells none c = threw refl
  sure-Tells (some true) c =
      command-BodyTells env request c _ (execute-Accounted request false env c)
        (execute-Achieved request env c)
  sure-Tells (some false) c = declined refl

  proceed-Tells :
      (dry_run yes_given : Bool) (c : Commander)
      → Tells (Met request env) dry_run c (proceed strip dry_run yes_given typed env request c)
  unfolding proceed
  proceed-Tells true yes_given c =
      rehearsal-BodyTells (Met request env) request c _ (execute-Accounted request true env c)
  proceed-Tells false yes_given c = sure-Tells (confirm strip yes_given request typed) c

later :
    {met : Type 0} (dry_run : Bool) (c c1 : Commander) {x : Ended} {c' : Commander}
    → Silent c c1
    → BodyTells met dry_run c1 x c'
    → BodyTells met dry_run c x c'
later dry_run c c1 q (rehearsed d h) = rehearsed d (cc)
later dry_run c c1 q (declined h) = declined (cc)
later dry_run c c1 q (threw h) = threw (cc)
later dry_run c c1 q (doubtful payload d h) = doubtful payload d (cc)
later dry_run c c1 q (done payload d h m) = done payload d (cc) m
later dry_run c c1 q (waiting payload d h) = waiting payload d (cc)
later dry_run c c1 q (cut_short (inl h)) = cut_short (inl (cc))
later dry_run c c1 q (cut_short (inr (payload, d, h))) = cut_short (inr (payload, d, cc))

module _ (strip : String → String) (args : Arguments) (typed : Option String) (env : Env)
    (request : Request) where
  announced-Tells :
      (announcement : Result EncodeError (Unit {0})) (c c1 : Commander)
      → Silent c c1
      → Tells (Met request env) args.dry_run c (elim announcement [
        | err e ↦ (encoding_ended request e, c1)
        | ok _ ↦ proceed strip args.dry_run args.yes typed env request c1
      ])
  announced-Tells (err e) c c1 q =
      encoding-BodyTells (Met request env) args.dry_run request c c1 e q
  announced-Tells (ok _) c c1 q =
      later args.dry_run c c1 q (proceed-Tells strip typed env request args.dry_run args.yes c1)

  heard-Tells :
      (c : Commander) (x : Result Raised Update × Commander)
      → Waited c x
      → Tells (Met request env) args.dry_run c (elim x.0 [
        | err e ↦ (ended_by request e, x.1)
        | ok before ↦ elim (announce (not args.dry_run && not args.yes) request) [
          | err e ↦ (encoding_ended request e, x.1)
          | ok _ ↦ proceed strip args.dry_run args.yes typed env request x.1
        ]
      ])
  unfolding ended_by
  heard-Tells c (ok before, c1) w =
      announced-Tells (announce (not args.dry_run && not args.yes) request) c c1 w.0
  heard-Tells c (err e, c1) w = rw w.1 (declined w.0)

  pub attend-Tells :
      (heard : List Update) (c : Commander)
      → Tells (Met request env) args.dry_run c (attend strip args heard typed env request c)
  unfolding attend
  attend-Tells heard c = heard-Tells c (wait_for_state heard c) (wait_for_state-Waited heard c)

-- Ctrl-C before the write leaves it undone, and behind it leaves the verification.
pub interrupted-Tells :
    {met : Type 0} {dry_run : Bool} (i : Option Interrupt) (heard : List Update) (c : Commander)
    (x : Ended) (c' : Commander)
    → BodyTells met dry_run c x c'
    → Tells met dry_run c (interrupted i heard c (x, c'))
unfolding interrupted
interrupted-Tells none heard c x c' h = h
interrupted-Tells (some before_write) heard c x c' h = cut_short (inl (deliver-writes heard c))
interrupted-Tells (some behind_write) heard c running c' (waiting payload d w) =
    cut_short (inr (payload, d, w))
interrupted-Tells (some behind_write) heard c (returned n) c' h = h
interrupted-Tells (some behind_write) heard c verified c' h = h
interrupted-Tells (some behind_write) heard c raised c' h = h
interrupted-Tells (some behind_write) heard c cancelled c' h = h
interrupted-Tells (some at_connect) heard c x c' h = h
interrupted-Tells (some at_stop) heard c x c' h = h
interrupted-Tells (some at_disconnect) heard c x c' h = h
