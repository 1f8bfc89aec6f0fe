-- ===== src/Service/Commander/Outcomes.antt =====
-- `_send_verified`: what was written, and what that means for each way to end.
use mathlib.Core.List.{Memᴰ}
use bedjet_local.Prelude.{
  ◌+◌, ◌≡◌, ◌≢◌, ◌⊎◌, inl, inr, refl, Bool, true, false, Option, none, some, List, [], ◌∷◌, ◌++◌,
  ◌∙◌, Bool-cases, if◌then◌else◌,
}
use bedjet_local.Protocol.Constants.{Bytes, command_uuid}
use bedjet_local.Protocol.Packets.{is_trustworthy}
use bedjet_local.Device.State.{BedJetState}
use bedjet_local.Service.Reader.{Update}
use bedjet_local.Python.Result.{Result, ok, err}
use bedjet_local.Service.Commander.{
  Commander, Env, Raised, refused, already_satisfied, write_failed, unverified, encode_error,
  assertion_error, still_waiting, no_status, CommandResult, WriteOutcome, written, transport_error,
  deliver, wait_for_state, wait_from, or_silence, Verification, verified, timed_out,
  broken_assertion, out_of_turns, verify_loop, result_of, conclude, after_write, transmit,
  send_from, on_ok, send_verified,
}
use bedjet_local.Service.Commander.Loop.{
  deliver-writes, latest-deliver, deliver-IsCoherent, IsCoherent, heard_in, verify_loop-writes,
  verify_loop_sound, verify_loop_asserts, verify_loop_fresh, Memᴰ-append-left, Memᴰ-append-right,
}

-- Nothing was written.
abbrev pub Silent : Commander → Commander → Type 0
Silent c c' = c'.writes ≡ c.writes

-- One write of the payload was attempted, to the command characteristic.
abbrev pub Wrote : Bytes → Commander → Commander → Type 0
Wrote payload c c' = c'.writes ≡ c.writes ++ (command_uuid, payload) ∷ []

-- What the environment lets the commander hear once the write has begun.
abbrev pub heard_after_write : Env → List Update
heard_after_write env = env.heard_during_write ++ heard_in env.turns

-- The contract of a command that writes `payload` and is judged by `satisfied`, run from `c`.
module _ (payload : Bytes) (satisfied : BedJetState → Bool) (dry_run : Bool) (env : Env)
    (c : Commander) where
  abbrev pub Returned : CommandResult → Commander → Type 0
  Returned r c' =
      (r.payload ≡ payload)
      × (is_trustworthy r.before_packet ≡ true)
      × (satisfied r.before ≡ false)
      × (dry_run ≡ true → Silent c c' × (r.after ≡ r.before))
      × (dry_run ≡ false
          → Wrote payload c c'
            × (satisfied r.after ≡ true)
            × (is_trustworthy r.after_packet ≡ true)
            × Memᴰ (r.after, r.after_packet) (heard_after_write env))

  abbrev pub Contract : Result Raised CommandResult × Commander → Type 0
  Contract (ok r, c') = Returned r c'
  Contract (err (refused e), c') = Silent c c'
  Contract (err already_satisfied, c') = Silent c c'
  Contract (err (encode_error e), c') = Silent c c'
  Contract (err (write_failed p), c') = (p ≡ payload) × (dry_run ≡ false) × Wrote payload c c'
  Contract (err (unverified p s), c') = (p ≡ payload) × (dry_run ≡ false) × Wrote payload c c'
  Contract (err still_waiting, c') = (dry_run ≡ false) × Wrote payload c c'
  Contract (err assertion_error, c') = ⊥

-- A wait gives the latest update, or refuses in silence; it writes nothing.
abbrev pub Waited : Commander → Result Raised Update × Commander → Type 0
Waited c (ok u, c') = Silent c c' × (c'.latest ≡ some u)
Waited c (err e, c') = Silent c c' × (e ≡ refused no_status)

or_silence-Waited :
    (c c' : Commander) (o : Option Update)
    → Silent c c'
    → c'.latest ≡ o
    → Waited c (or_silence c' o)
unfolding or_silence
or_silence-Waited c c' none w e = (w, refl)
or_silence-Waited c c' (some u) w e = (w, e)

wait_from-Waited :
    (o : Option Update) (heard : List Update) (c : Commander)
    → c.latest ≡ o
    → Waited c (wait_from o heard c)
unfolding wait_from
wait_from-Waited (some u) heard c e = (refl, e)
wait_from-Waited none heard c e =
    let asked = record c { updated = false } in
    or_silence-Waited c (deliver heard asked) (deliver heard asked).latest
      (deliver-writes heard asked) refl

pub wait_for_state-Waited :
    (heard : List Update) (c : Commander) → Waited c (wait_for_state heard c)
unfolding wait_for_state
wait_for_state-Waited heard c = wait_from-Waited c.latest heard c refl

module _ (payload : Bytes) (satisfied : BedJetState → Bool) (env : Env) where
  conclude-Contract :
      (before : Update) (c : Commander) (v : Verification) (c' : Commander)
      → is_trustworthy before.1 ≡ true
      → satisfied before.0 ≡ false
      → Wrote payload c c'
      → v ≢ broken_assertion
      → ((u : Update)
          → v ≡ verified u
          → (satisfied u.0 ≡ true) × (is_trustworthy u.1 ≡ true) × Memᴰ u (heard_after_write env))
      → Contract payload satisfied false env c (conclude payload before (v, c'))
  unfolding conclude result_of
  conclude-Contract before c (verified u) c' t s w a f =
      (refl, t, s, (λ e. cc), (λ _. (w, (f u refl).0, (f u refl).1, (f u refl).2)))
  conclude-Contract before c timed_out c' t s w a f = (refl, refl, w)
  conclude-Contract before c broken_assertion c' t s w a f = absurd (a refl)
  conclude-Contract before c out_of_turns c' t s w a f = (refl, w)

  after_write-Contract :
      (before : Update) (c : Commander) (w : WriteOutcome) (c' : Commander)
      → is_trustworthy before.1 ≡ true
      → satisfied before.0 ≡ false
      → Wrote payload c c'
      → IsCoherent c'
      → ((u : Update) → c'.latest ≡ some u → Memᴰ u env.heard_during_write)
      → Contract payload satisfied false env c (after_write w payload satisfied env before c')
  unfolding after_write
  after_write-Contract before c transport_error c' t s w i f = (refl, refl, w)
  after_write-Contract before c written c' t s w i f =
      let poked = record c' { pokes = c'.pokes + 1 } in
      let deadline = env.written_at + env.settle_timeout in
      let (v, c'') = verify_loop deadline satisfied env.turns poked in
      conclude-Contract before c v c'' t s
        (verify_loop-writes deadline satisfied env.turns poked ∙ w)
        (verify_loop_asserts deadline satisfied env.turns poked i)
        (λ u e. (
          (verify_loop_sound deadline satisfied env.turns poked {u = u} e).0,
          (verify_loop_sound deadline satisfied env.turns poked {u = u} e).1,
          heard_late u (verify_loop_fresh deadline satisfied env.turns poked {u = u} e),
        ))
    where
      heard_late :
          (u : Update)
          → (c'.latest ≡ some u) ⊎ Memᴰ u (heard_in env.turns)
          → Memᴰ u (heard_after_write env)
      heard_late u (inl e) = Memᴰ-append-left env.heard_during_write (heard_in env.turns) (f u e)
      heard_late u (inr m) = Memᴰ-append-right env.heard_during_write (heard_in env.turns) m

  pub transmit-Contract :
      (before : Update) (c : Commander)
      → is_trustworthy before.1 ≡ true
      → satisfied before.0 ≡ false
      → Contract payload satisfied false env c (transmit payload satisfied env before c)
  unfolding transmit
  transmit-Contract before c t s =
      let asked = record c {
        updated = false;
        latest = none;
        writes = c.writes ++ (command_uuid, payload) ∷ [];
      } in
      after_write-Contract before c env.write (deliver env.heard_during_write asked) t s
        (deliver-writes env.heard_during_write asked)
        (deliver-IsCoherent env.heard_during_write asked (λ e _. cc))
        (λ u e. from_delivery u (latest-deliver env.heard_during_write asked e))
    where
      from_delivery :
          (u : Update)
          → (none ≡ some u) ⊎ Memᴰ u env.heard_during_write
          → Memᴰ u env.heard_during_write
      from_delivery u (inl e) = absurd (cc)
      from_delivery u (inr m) = m

  send_from-Contract :
      (dry_run : Bool) (before : Update) (c : Commander)
      → Contract payload satisfied dry_run env c (send_from payload satisfied dry_run env before c)
  unfolding send_from result_of
  send_from-Contract dry_run before c = elim (Bool-cases (is_trustworthy before.1)) [
    | inr bad ↦ rw bad refl
    | inl t ↦ elim (Bool-cases (satisfied before.0)) [
      | inl already ↦ rw (t, already) refl
      | inr s ↦ rw (t, s) (by_dry_run dry_run t s)
    ]
  ]
    where
      by_dry_run :
          (d : Bool)
          → is_trustworthy before.1 ≡ true
          → satisfied before.0 ≡ false
          → Contract payload satisfied d env c (
              if d
              then (ok (result_of before before payload), c)
              else transmit payload satisfied env before c)
      by_dry_run true t s = (refl, t, s, (λ _. (refl, refl)), (λ e. cc))
      by_dry_run false t s = transmit-Contract before c t s

  -- The contract from a commander that has written as much.
  Contract-from :
      (dry_run : Bool) (c c1 : Commander)
      → Silent c c1
      → (x : Result Raised CommandResult × Commander) → Contract payload satisfied dry_run env c1 x
      → Contract payload satisfied dry_run env c x
  Contract-from dry_run c c1 e (ok r, c') h = (
    h.0,
    h.1,
    h.2,
    (λ d. ((h.3 d).0 ∙ e, (h.3 d).1)),
    (λ d. (shift (h.4 d).0, (h.4 d).1, (h.4 d).2, (h.4 d).3)),
  )
    where
      shift : Wrote payload c1 c' → Wrote payload c c'
      shift w = rw (← e) w
  Contract-from dry_run c c1 e (err (refused x), c') h = h ∙ e
  Contract-from dry_run c c1 e (err already_satisfied, c') h = h ∙ e
  Contract-from dry_run c c1 e (err (encode_error x), c') h = h ∙ e
  Contract-from dry_run c c1 e (err (write_failed p), c') h = (h.0, h.1, rw (← e) h.2)
  Contract-from dry_run c c1 e (err (unverified p s), c') h = (h.0, h.1, rw (← e) h.2)
  Contract-from dry_run c c1 e (err still_waiting, c') h = (h.0, rw (← e) h.1)
  Contract-from dry_run c c1 e (err assertion_error, c') h = h

  after_wait-Contract :
      (dry_run : Bool) (c : Commander) (x : Result Raised Update × Commander)
      → Waited c x
      → Contract payload satisfied dry_run env c (on_ok x (send_from payload satisfied dry_run env))
  after_wait-Contract dry_run c (ok u, c1) h =
      Contract-from dry_run c c1 h.0 _ (send_from-Contract dry_run u c1)
  after_wait-Contract dry_run c (err e, c1) h = rw (h.1) h.0

-- Every way that a command ends tells what was written. A refusal, an already satisfied request
-- and an encoding error wrote nothing. An unverified or failed write was attempted once, with this
-- payload. A result means a trustworthy baseline that did not satisfy the request, and, unless it
-- is a dry run, which writes nothing, one write and a trustworthy update, heard after the write
-- began, that does satisfy it. The assertion in the loop never fails.
pub send_verified-Contract :
    (payload : Bytes) (satisfied : BedJetState → Bool) (dry_run : Bool) (env : Env) (c : Commander)
    → Contract payload satisfied dry_run env c (send_verified payload satisfied dry_run env c)
unfolding send_verified
send_verified-Contract payload satisfied dry_run env c =
    after_wait-Contract payload satisfied env dry_run c (wait_for_state env.heard_before c)
      (wait_for_state-Waited env.heard_before c)
