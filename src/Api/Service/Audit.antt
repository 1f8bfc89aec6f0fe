-- ===== src/Api/Service/Audit.antt =====
-- api/service.py: what an answer tells about the device's wire is what happened there.
use mathlib.Core.List.{append-nil}
use bedjet_local.Prelude.{
  ℕ, ◌≡◌, ◌⊎◌, refl, inl, inr, String, Bool, true, false, Option, none, some, is_some, List, [],
  ◌∷◌, ◌++◌, Bool-cases,
}
use bedjet_local.Prelude.Int.{ℤ}
use bedjet_local.Python.Float.{Float}
use bedjet_local.Python.Result.{Result, ok, err}
use bedjet_local.Protocol.Constants.{Bytes, CommandMode, command_uuid}
use bedjet_local.Protocol.Encode.{EncodeError, is_command_error, snap_target_c, snap_fan_percent}
use bedjet_local.Service.Commander.{
  Commander, Raised, refused, already_satisfied, write_failed, unverified, encode_error,
  assertion_error, still_waiting, CommandResult, is_unlocked,
}
use bedjet_local.Service.Commander.Outcomes.{Silent, Wrote}
use bedjet_local.Service.Commander.Effects.{Effect, silent}
use bedjet_local.Service.Commander.Limits.{execute-Effect}
use bedjet_local.Service.Commander.Requests.{Request, execute}
use bedjet_local.Service.Commander.Audit.{Accounted, execute-Accounted}
use bedjet_local.Service.Session.{connected, link_eq}
use bedjet_local.Api.Models.{Description}
use bedjet_local.Api.Service.{
  unavailable, refused_request, unverified_write, uncaught, Call, Answer, encoding_failed,
  translate, command, mode_named, turn_off, set_known_mode, set_mode, send_target, set_temperature,
  send_percent, set_fan,
}

-- The writes that the field `sent` speaks of.
abbrev pub sent_writes : Option Bytes → List (String × Bytes)
sent_writes none = []
sent_writes (some payload) = (command_uuid, payload) ∷ []

-- An answer tells the writes.
abbrev pub IsTruthful : Bool → Commander → Answer → Type 0
IsTruthful dry_run c (ok o, c') =
    (o.changed ≡ is_some o.sent)
    × (dry_run ≡ true → o.sent ≡ none)
    × (c'.writes ≡ c.writes ++ sent_writes o.sent)
IsTruthful dry_run c (err (unavailable link left), c') = Silent c c'
IsTruthful dry_run c (err (refused_request why), c') = Silent c c'
IsTruthful dry_run c (err (unverified_write payload), c') = (dry_run ≡ false) × Wrote payload c c'
IsTruthful dry_run c (err (uncaught e), c') =
    (e ≡ still_waiting)
    ⊎ ((x : EncodeError) × (e ≡ encode_error x) × (is_command_error x ≡ false) × Silent c c')

-- What an adapter can ask of the device.
pub data ApiRequest : Type 0 where
  ask_off : ApiRequest
  ask_mode : String → ApiRequest
  ask_temperature : Option Float → Option Float → ApiRequest
  ask_fan : ℤ → ApiRequest

append_none : (c c' : Commander) → Silent c c' → c'.writes ≡ c.writes ++ []
append_none c c' h = cc (h, append-nil c.writes)

returned-IsTruthful :
    (call : Call) (description : Description) (dry_run : Bool) (c : Commander) (r : CommandResult)
    (c' : Commander)
    → Accounted dry_run c (ok r, c')
    → IsTruthful dry_run c (translate call description dry_run (ok r, c'))
unfolding translate
returned-IsTruthful call description true c r c' h =
    (refl, (λ _. refl), append_none c c' (h.0 refl))
returned-IsTruthful call description false c r c' h = (refl, (λ e. cc), h.1 refl)

encoding_failed-IsTruthful :
    (dry_run : Bool) (c c' : Commander) (e : EncodeError)
    → Silent c c'
    → IsTruthful dry_run c (err (encoding_failed e), c')
unfolding encoding_failed
encoding_failed-IsTruthful dry_run c c' e h = elim (Bool-cases (is_command_error e)) [
  | inl caught ↦ rw caught h
  | inr passed ↦ rw passed (inr (e, refl, passed, h))
]

translate-IsTruthful :
    (call : Call) (description : Description) (dry_run : Bool) (c : Commander)
    (x : Result Raised CommandResult × Commander)
    → Accounted dry_run c x
    → IsTruthful dry_run c (translate call description dry_run x)
unfolding translate
translate-IsTruthful call d dry_run c (ok r, c') h = returned-IsTruthful call d dry_run c r c' h
translate-IsTruthful call d dry_run c (err already_satisfied, c') h =
    (refl, (λ _. refl), append_none c c' h)
translate-IsTruthful call d dry_run c (err (refused why), c') h = h
translate-IsTruthful call d dry_run c (err (encode_error e), c') h =
    encoding_failed-IsTruthful dry_run c c' e h
translate-IsTruthful call d dry_run c (err (unverified payload s), c') h = h
translate-IsTruthful call d dry_run c (err (write_failed payload), c') h = h
translate-IsTruthful call d dry_run c (err still_waiting, c') h = inl refl
translate-IsTruthful call d dry_run c (err assertion_error, c') h = absurd h

translate-commander :
    (call : Call) (description : Description) (dry_run : Bool)
    (x : Result Raised CommandResult × Commander)
    → (translate call description dry_run x).1 ≡ x.1
unfolding translate
translate-commander call d dry_run (ok r, c') = refl
translate-commander call d dry_run (err already_satisfied, c') = refl
translate-commander call d dry_run (err (refused why), c') = refl
translate-commander call d dry_run (err (encode_error e), c') = refl
translate-commander call d dry_run (err (unverified payload s), c') = refl
translate-commander call d dry_run (err (write_failed payload), c') = refl
translate-commander call d dry_run (err still_waiting, c') = refl
translate-commander call d dry_run (err assertion_error, c') = refl

-- An answer that tells the writes, and writes that the commander may make.
abbrev pub IsSafe : Call → Bool → Commander → Answer → Type 0
IsSafe call dry_run c x = IsTruthful dry_run c x × Effect dry_run call.env c x.1

module _ (call : Call) (dry_run : Bool) (c : Commander) where
  command-IsSafe :
      (description : Description) (request : Request)
      → IsSafe call dry_run c (command call description dry_run request c)
  unfolding command
  command-IsSafe description request = elim (Bool-cases (link_eq call.session.link connected)) [
    | inr down ↦ rw down (refl, silent refl)
    | inl up ↦ rw up (
      translate-IsTruthful call description dry_run c (execute request dry_run call.env c)
          (execute-Accounted request dry_run call.env c),
      rw (translate-commander call description dry_run (execute request dry_run call.env c))
          (execute-Effect request dry_run call.env c),
    )
  ]

  set_known_mode-IsSafe :
      (called : String) (m : Option CommandMode)
      → IsSafe call dry_run c (set_known_mode call called m dry_run c)
  unfolding set_known_mode
  set_known_mode-IsSafe called none = (refl, silent refl)
  set_known_mode-IsSafe called (some m) = elim (Bool-cases (is_unlocked m)) [
    | inl unlocked ↦ rw unlocked (command-IsSafe _ _)
    | inr locked ↦ rw locked (refl, silent refl)
  ]

  send_target-IsSafe :
      (x : Result EncodeError ℕ) → IsSafe call dry_run c (send_target call x dry_run c)
  unfolding send_target
  send_target-IsSafe (ok snapped) = command-IsSafe _ _
  send_target-IsSafe (err e) = (encoding_failed-IsTruthful dry_run c c e refl, silent refl)

  send_percent-IsSafe :
      (x : Result EncodeError ℕ) → IsSafe call dry_run c (send_percent call x dry_run c)
  unfolding send_percent
  send_percent-IsSafe (ok snapped) = command-IsSafe _ _
  send_percent-IsSafe (err e) = (encoding_failed-IsTruthful dry_run c c e refl, silent refl)

module _ (strip_upper lower : String → String) (to_celsius : Float → Float) (call : Call) where
  abbrev pub serve : ApiRequest → Bool → Commander → Answer
  serve ask_off = turn_off call
  serve (ask_mode mode) = set_mode strip_upper lower call mode
  serve (ask_temperature celsius fahrenheit) = set_temperature to_celsius call celsius fahrenheit
  serve (ask_fan percent) = set_fan call percent

  -- Whatever an adapter asks, what it is told is what happened on the wire: `sent` is null exactly
  -- when nothing changed, and then nothing was written; otherwise these bytes were written, once.
  -- A request that is refused, or made without a link, wrote nothing; an unverified one wrote the
  -- bytes that it names; a dry run writes nothing. The write, if any, is one that the commander
  -- allows. Uncaught is only the failed conversion of a target that is no finite number, which writes
  -- nothing, and the end of the rounds that the environment gives.
  pub serve-IsSafe :
      (request : ApiRequest) (dry_run : Bool) (c : Commander)
      → IsSafe call dry_run c (serve request dry_run c)
  unfolding turn_off set_mode set_temperature set_fan
  serve-IsSafe ask_off dry_run c = command-IsSafe call dry_run c _ _
  serve-IsSafe (ask_mode mode) dry_run c =
      set_known_mode-IsSafe call dry_run c (lower mode) (mode_named (strip_upper mode))
  serve-IsSafe (ask_temperature none none) dry_run c = (refl, silent refl)
  serve-IsSafe (ask_temperature (some x) (some y)) dry_run c = (refl, silent refl)
  serve-IsSafe (ask_temperature (some x) none) dry_run c =
      send_target-IsSafe call dry_run c (snap_target_c x)
  serve-IsSafe (ask_temperature none (some y)) dry_run c =
      send_target-IsSafe call dry_run c (snap_target_c (to_celsius y))
  serve-IsSafe (ask_fan percent) dry_run c =
      send_percent-IsSafe call dry_run c (snap_fan_percent percent)
