-- ===== src/Service/Commander/Effects.antt =====
-- What `_send_verified` does to the wire, against the update that it was checked with.
use bedjet_local.Prelude.{
  ℕ, ◌≤◌, ◌≡◌, ◌⊎◌, inl, inr, refl, ◌∙◌, sym, subst, Bool, true, false, some, List, [], ◌∷◌,
  Bool-cases, if◌then◌else◌,
}
use bedjet_local.Protocol.Constants.{Bytes}
use bedjet_local.Protocol.Packets.{is_trustworthy}
use bedjet_local.Python.Result.{Result, ok, err}
use bedjet_local.Device.State.{BedJetState, on}
use bedjet_local.Service.Reader.{Update}
use bedjet_local.Service.Commander.{
  Commander, Env, Raised, refused, already_satisfied, write_failed, unverified, encode_error,
  assertion_error, still_waiting, CommandResult, result_of, wait_for_state, wait_from,
  send_verified, send_from, transmit, on_ok,
}
use bedjet_local.Service.Commander.Outcomes.{
  Silent, Wrote, Contract, Waited, wait_for_state-Waited, transmit-Contract,
}

-- The commands that may go out, against the update that they were checked with.
pub data IsAllowed (u : Update) : Bytes → Type 0 where
  off_allowed : IsAllowed u (0x01 ∷ 0x01 ∷ [])
  cool_allowed : IsAllowed u (0x01 ∷ 0x02 ∷ [])
  heat_allowed : IsAllowed u (0x01 ∷ 0x03 ∷ [])
  dry_allowed : IsAllowed u (0x01 ∷ 0x05 ∷ [])
  temperature_allowed :
      (raw low high : ℕ)
      → u.0.power ≡ on
      → u.1.min_temp_c ≡ some low
      → u.1.max_temp_c ≡ some high
      → low ≤ raw
      → raw ≤ high
      → IsAllowed u (0x03 ∷ raw ∷ [])
  fan_allowed : (step : ℕ) → u.0.power ≡ on → step ≤ 19 → IsAllowed u (0x07 ∷ step ∷ [])

-- What a command did to the wire.
pub data Effect (dry_run : Bool) (env : Env) (c c' : Commander) : Type 0 where
  silent : Silent c c' → Effect dry_run env c c'
  wrote :
      (u : Update) (payload : Bytes)
      → dry_run ≡ false
      → (wait_for_state env.heard_before c).0 ≡ ok u
      → is_trustworthy u.1 ≡ true
      → IsAllowed u payload
      → Wrote payload c c'
      → Effect dry_run env c c'

Contract-writes :
    (payload : Bytes) (satisfied : BedJetState → Bool) (env : Env) (c : Commander)
    (x : Result Raised CommandResult × Commander)
    → Contract payload satisfied false env c x
    → Silent c x.1 ⊎ Wrote payload c x.1
Contract-writes payload satisfied env c (ok r, c') h = inr (h.4 refl).0
Contract-writes payload satisfied env c (err (refused e), c') h = inl h
Contract-writes payload satisfied env c (err already_satisfied, c') h = inl h
Contract-writes payload satisfied env c (err (encode_error e), c') h = inl h
Contract-writes payload satisfied env c (err (write_failed p), c') h = inr h.2
Contract-writes payload satisfied env c (err (unverified p s), c') h = inr h.2
Contract-writes payload satisfied env c (err still_waiting, c') h = inr h.1
Contract-writes payload satisfied env c (err assertion_error, c') h = absurd h

pub wait_again :
    (heard : List Update) (c : Commander) (u : Update)
    → c.latest ≡ some u
    → wait_for_state heard c ≡ (ok u, c)
unfolding wait_for_state wait_from
wait_again heard c u l = subst (λ o. wait_from o heard c ≡ (ok u, c)) (sym l) refl

module _ (payload : Bytes) (satisfied : BedJetState → Bool) (dry_run : Bool) (env : Env) where
  -- From a baseline `u` that the wait gave.
  send_from-Effect :
      (c c1 : Commander) (u : Update)
      → (wait_for_state env.heard_before c).0 ≡ ok u
      → Silent c c1
      → IsAllowed u payload
      → Effect dry_run env c (send_from payload satisfied dry_run env u c1).1
  unfolding send_from
  send_from-Effect c c1 u w e allowed = elim (Bool-cases (is_trustworthy u.1)) [
    | inr bad ↦ rw bad (silent e)
    | inl t ↦ elim (Bool-cases (satisfied u.0)) [
      | inl already ↦ rw (t, already) (silent e)
      | inr s ↦ rw (t, s) (by_dry_run dry_run refl t s)
    ]
  ]
    where
      from_transmit :
          is_trustworthy u.1 ≡ true
          → dry_run ≡ false
          → Silent c1 (transmit payload satisfied env u c1).1
            ⊎ Wrote payload c1 (transmit payload satisfied env u c1).1
          → Effect dry_run env c (transmit payload satisfied env u c1).1
      from_transmit t d (inl s) = silent (s ∙ e)
      from_transmit t d (inr s) = wrote u payload d w t allowed (rw (← e) s)

      by_dry_run :
          (d : Bool)
          → dry_run ≡ d
          → is_trustworthy u.1 ≡ true
          → satisfied u.0 ≡ false
          → Effect dry_run env c
              (if d
                then (ok (result_of u u payload), c1)
                else transmit payload satisfied env u c1).1
      by_dry_run true d t s = silent e
      by_dry_run false d t s = from_transmit t d (
          Contract-writes payload satisfied env c1 _
            (transmit-Contract payload satisfied env u c1 t s))

  after_wait-Effect :
      (c : Commander) (x : Result Raised Update × Commander)
      → (wait_for_state env.heard_before c).0 ≡ x.0
      → Waited c x
      → ((u : Update) → x.0 ≡ ok u → IsAllowed u payload)
      → Effect dry_run env c (on_ok x (send_from payload satisfied dry_run env)).1
  after_wait-Effect c (ok u, c1) w h allowed = send_from-Effect c c1 u w h.0 (allowed u refl)
  after_wait-Effect c (err e, c1) w h allowed = silent h.0

  pub send_verified-Effect :
      (c : Commander)
      → ((u : Update) → (wait_for_state env.heard_before c).0 ≡ ok u → IsAllowed u payload)
      → Effect dry_run env c (send_verified payload satisfied dry_run env c).1
  unfolding send_verified
  send_verified-Effect c allowed =
      after_wait-Effect c (wait_for_state env.heard_before c) refl
        (wait_for_state-Waited env.heard_before c) allowed

  -- A second wait gives the update of the first.
  pub send_again-Effect :
      (c c1 : Commander) (u : Update)
      → (wait_for_state env.heard_before c).0 ≡ ok u
      → Silent c c1
      → c1.latest ≡ some u
      → IsAllowed u payload
      → Effect dry_run env c (send_verified payload satisfied dry_run env c1).1
  unfolding send_verified
  send_again-Effect c c1 u w e l allowed =
      subst (λ x. Effect dry_run env c (on_ok x (send_from payload satisfied dry_run env)).1)
        (sym (wait_again env.heard_before c1 u l)) (send_from-Effect c c1 u w e allowed)
