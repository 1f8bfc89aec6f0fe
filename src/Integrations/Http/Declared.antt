-- ===== src/Integrations/Http/Declared.antt =====
-- The routes keep what the contract declares of their operations.
use mathlib.Core.List.{Memᴰ}
use bedjet_local.Prelude.{
  ℕ, zero, suc, get_elem?, ◌≡◌, refl, String, true, false, Option, some, List, [], ◌∷◌, All, ◌⊎◌,
  inl, inr, Bool-cases,
}
use bedjet_local.Prelude.Int.{ℤ}
use bedjet_local.Python.Float.{Float}
use bedjet_local.Python.Result.{Result, ok, err}
use bedjet_local.Service.Commander.{Commander}
use bedjet_local.Service.Commander.Outcomes.{Silent}
use bedjet_local.Api.Service.{Call}
use bedjet_local.Api.Lease.{LinkAnswer}
use bedjet_local.Api.Contract
use bedjet_local.Api.Contract.{Operation, Param, operations}
use bedjet_local.Integrations.Http.{
  Endpoint, health, contract, state, build_limits, off, mode, temperature, fan, yielding, resuming,
  JsonValue, Body, object, Response,
}
use bedjet_local.Integrations.Http.Handlers.{
  Command, command_off, command_mode, command_temperature, command_fan, asked, asked_seconds,
  bool_at, body_of, run_yield, run_command, respond_link, handle,
}

-- The operation that a route implements, by the first field of its entry in `ROUTES`.
unfoldable pub operation_of : Endpoint → Operation
operation_of health = Contract.health
operation_of contract = Contract.get_contract
operation_of state = Contract.get_state
operation_of build_limits = Contract.get_capabilities
operation_of off = Contract.turn_off
operation_of mode = Contract.set_mode
operation_of temperature = Contract.set_temperature
operation_of fan = Contract.set_fan
operation_of yielding = Contract.yield_link
operation_of resuming = Contract.resume_link

-- Two bodies with the same values of these parameters.
abbrev pub Agree : List Param → (String → Option JsonValue) → (String → Option JsonValue) → Type 0
Agree params v w = All (λ p. v p.name ≡ w p.name) params

abbrev command_operation : Command → Operation
command_operation command_off = Contract.turn_off
command_operation command_mode = Contract.set_mode
command_operation command_temperature = Contract.set_temperature
command_operation command_fan = Contract.set_fan

Mem_at : {A : Type 0} {x : A} (i : ℕ) (xs : List A) → get_elem? xs i ≡ some x → Memᴰ x xs
Mem_at i [] h = absurd (cc)
Mem_at zero (y ∷ ys) h = Memᴰ.head (cc)
Mem_at (suc i) (y ∷ ys) h = Memᴰ.tail (Mem_at i ys h)

module _ (float_of : ℤ → Option Float) (v w : String → Option JsonValue) where
  bool_at-Agree : (key : String) → v key ≡ w key → bool_at v key ≡ bool_at w key
  unfolding bool_at
  bool_at-Agree key h = rw (bool_at, h) refl

  asked-Agree :
      (command : Command)
      → Agree (command_operation command).params v w
      → asked float_of command v ≡ asked float_of command w
  unfolding asked Contract.set_mode
  asked-Agree command_off (d, _) = rw (bool_at-Agree "dry_run" d) refl
  asked-Agree command_mode (m, (d, _)) = rw (m, bool_at-Agree "dry_run" d) refl
  asked-Agree command_temperature (c, (f, (d, _))) = rw (c, f, bool_at-Agree "dry_run" d) refl
  asked-Agree command_fan (p, (d, _)) = rw (p, bool_at-Agree "dry_run" d) refl

  seconds-Agree : v "seconds" ≡ w "seconds" → asked_seconds float_of v ≡ asked_seconds float_of w
  unfolding asked_seconds
  seconds-Agree h = rw h refl

module _ (float_of : ℤ → Option Float) (rate : ℕ) (strip_upper lower_name : String → String)
    (to_celsius : Float → Float) (call : Call) (c : Commander) where
  Agree-handle :
      (endpoint : Endpoint) (v w : String → Option JsonValue)
      → Agree (operation_of endpoint).params v w
      → handle float_of rate strip_upper lower_name to_celsius call endpoint (object v) c
        ≡ handle float_of rate strip_upper lower_name to_celsius call endpoint (object w) c
  unfolding handle operation_of run_command body_of Contract.set_mode
  Agree-handle health v w h = refl
  Agree-handle contract v w h = refl
  Agree-handle state v w h = refl
  Agree-handle build_limits v w h = refl
  Agree-handle off v w h = rw (asked-Agree float_of v w command_off h) refl
  Agree-handle mode v w h = rw (asked-Agree float_of v w command_mode h) refl
  Agree-handle temperature v w h = rw (asked-Agree float_of v w command_temperature h) refl
  Agree-handle fan v w h = rw (asked-Agree float_of v w command_fan h) refl
  Agree-handle yielding v w (h, _) = rw (seconds-Agree float_of v w h) refl
  Agree-handle resuming v w h = refl

  respond_link-Silent : (x : LinkAnswer) → Silent c (respond_link x c).1
  unfolding respond_link
  respond_link-Silent (ok s, events) = refl
  respond_link-Silent (err e, events) = refl

  run_yield-Silent :
      (x : Result Response Float)
      → Silent c (run_yield float_of rate strip_upper lower_name to_celsius call x c).1
  unfolding run_yield
  run_yield-Silent (ok seconds) = respond_link-Silent _
  run_yield-Silent (err r) = refl

  quiet-Silent :
      (endpoint : Endpoint) (body : Body)
      → (operation_of endpoint).physical ≡ false
      → Silent c (handle float_of rate strip_upper lower_name to_celsius call endpoint body c).1
  unfolding handle operation_of Contract.set_mode
  quiet-Silent health body h = refl
  quiet-Silent contract body h = refl
  quiet-Silent state body h = refl
  quiet-Silent build_limits body h = refl
  quiet-Silent off body h = absurd (cc)
  quiet-Silent mode body h = absurd (cc)
  quiet-Silent temperature body h = absurd (cc)
  quiet-Silent fan body h = absurd (cc)
  quiet-Silent yielding body h = run_yield-Silent _
  quiet-Silent resuming body h = respond_link-Silent _

  operation_of-Mem : (endpoint : Endpoint) → Memᴰ (operation_of endpoint) operations
  unfolding operation_of operations
  operation_of-Mem health = Mem_at 0 operations refl
  operation_of-Mem contract = Mem_at 1 operations refl
  operation_of-Mem state = Mem_at 2 operations refl
  operation_of-Mem build_limits = Mem_at 3 operations refl
  operation_of-Mem off = Mem_at 5 operations refl
  operation_of-Mem mode = Mem_at 6 operations refl
  operation_of-Mem temperature = Mem_at 7 operations refl
  operation_of-Mem fan = Mem_at 8 operations refl
  operation_of-Mem yielding = Mem_at 9 operations refl
  operation_of-Mem resuming = Mem_at 10 operations refl

  -- Every route implements an operation of the contract, answers two bodies alike that agree on the
  -- parameters declared for it, so that it reads no other, and, whatever the body, writes nothing to
  -- the device unless the contract calls the operation physical.
  pub handle-Declared :
      (endpoint : Endpoint) (v w : String → Option JsonValue) (body : Body)
      → Agree (operation_of endpoint).params v w
      → Memᴰ (operation_of endpoint) operations
        × (handle float_of rate strip_upper lower_name to_celsius call endpoint (object v) c
            ≡ handle float_of rate strip_upper lower_name to_celsius call endpoint (object w) c)
        × (((operation_of endpoint).physical ≡ true)
            ⊎ Silent c
                (handle float_of rate strip_upper lower_name to_celsius call endpoint body c).1)
  handle-Declared endpoint v w body same = (
    operation_of-Mem endpoint,
    Agree-handle endpoint v w same,
    elim (Bool-cases (operation_of endpoint).physical) [
      | inl physical ↦ inl physical
      | inr quiet ↦ inr (quiet-Silent endpoint body quiet)
    ],
  )
