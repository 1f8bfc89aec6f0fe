-- ===== src/Cli/Serve/Ends.antt =====
-- When a daemon ends with status 0, and when it gives the link back.
use bedjet_local.Prelude.{
  ◌≤◌, ◌≡◌, ◌≢◌, ◌↔◌, refl, String, Bool, true, false, Option, [], ◌∷◌, if◌then◌else◌,
}
use bedjet_local.Python.Result.{Result, ok, err}
use bedjet_local.Integrations.Http.Headers.{Text}
use bedjet_local.Integrations.Http.{check_config, ConfigurationRefused}
use bedjet_local.Cli.{exited}
use bedjet_local.Cli.Daemon.{
  Closing, Shutdown, returns, released, abandoned, failed, release, shutdown_grace,
}
use bedjet_local.Cli.Serve.{
  Arguments, Surroundings, Wait, signalled, interrupted, never, Left, unstarted, deserted, serving,
  status_after, shut_down, config_of, is_permitted, hold, open_session, serve, BridgeTask, running,
  raised, ended,
}

-- The shutdown of a server ends by no exception.
abbrev pub Shuts : Surroundings → Type 0
Shuts s = (release shutdown_grace (s.cleanup ∷ s.session_stop ∷ [])).shutdown ≢ failed

status_zero : (x : Shutdown) → (status_after x false ≡ exited 0) ↔ (x ≢ failed)
unfolding status_after
status_zero released = ((λ _ e. absurd cc), λ _. refl)
status_zero abandoned = ((λ _ e. absurd cc), λ _. refl)
status_zero failed = ((λ h. absurd cc), λ h. absurd (h refl))

shut_down_zero :
    (first stop : Closing)
    → ((shut_down first stop false).exit ≡ exited 0)
      ↔ ((release shutdown_grace (first ∷ stop ∷ [])).shutdown ≢ failed)
unfolding shut_down
shut_down_zero first stop = status_zero (release shutdown_grace (first ∷ stop ∷ [])).shutdown

-- A step of the shutdown that returns in time.
pub ReturnsInTime : Closing → Type 0
ReturnsInTime (returns n) = n ≤ shutdown_grace
ReturnsInTime _ = ⊥

-- The bridge lets the shutdown go on.
pub Lets : BridgeTask → Type 0
Lets (running never closing) = ⊥
Lets (running _ closing) = ReturnsInTime closing
Lets (raised timeout) = ⊥
Lets ended = Unit

hold_zero : (s : Surroundings) (w : Wait) → ((hold s w).exit ≡ exited 0) ↔ ((w ≢ never) × Shuts s)
unfolding hold serving
hold_zero s never = ((λ h. absurd cc), λ h. absurd (h.0 refl))
hold_zero s signalled =
    let (to, from) = shut_down_zero s.cleanup s.session_stop in
    ((λ h. ((λ e. absurd cc), to h)), λ h. from h.1)
hold_zero s interrupted =
    let (to, from) = shut_down_zero s.cleanup s.session_stop in
    ((λ h. ((λ e. absurd cc), to h)), λ h. from h.1)

-- A test before a run whose failure rules the property out.
gate :
    (P : Left → Type 0) (b : Bool) {Q : Type 0} {x y : Left}
    → ¬ P y
    → P x ↔ Q
    → P (if b then x else y) ↔ ((b ≡ true) × Q)
gate P true other h = ((λ p. (refl, h.0 p)), λ q. h.1 q.1)
gate P false other h = ((λ p. absurd (other p)), λ q. absurd cc)

abbrev IsZero : Left → Type 0
IsZero x = x.exit ≡ exited 0

abbrev IsStopped : Left → Type 0
IsStopped x = x.stop_called ≡ true

not-IsZero : (¬ IsZero unstarted) × (¬ IsZero deserted)
unfolding unstarted deserted
not-IsZero = ((λ h. absurd cc), λ h. absurd cc)

module _ (lower : String → String) (ip_loopback : Text → Option Bool) (args : Arguments)
    (s : Surroundings) where
  -- The server's run went through all its stages.
  abbrev pub Passes : Result ConfigurationRefused (Unit {0}) → Type 0
  Passes checked =
      (is_permitted lower args s ≡ true)
      × (s.installed ≡ true)
      × (checked ≡ ok tt)
      × (s.session_started ≡ true)
      × (s.listening ≡ true)
      × (s.waited ≢ never)
      × Shuts s

  open_session_zero :
      ((open_session s).exit ≡ exited 0)
      ↔ ((s.session_started ≡ true) × ((s.listening ≡ true) × ((s.waited ≢ never) × Shuts s)))
  unfolding open_session
  open_session_zero =
      gate IsZero s.session_started not-IsZero.0
        (gate IsZero s.listening not-IsZero.1 (hold_zero s s.waited))

  checked-IsZero :
      (checked : Result ConfigurationRefused (Unit {0}))
      → IsZero (elim checked [ err refused ↦ unstarted | ok _ ↦ open_session s ]) ↔ (
          (checked ≡ ok tt)
          × ((s.session_started ≡ true) × ((s.listening ≡ true) × ((s.waited ≢ never) × Shuts s))))
  checked-IsZero (ok tt) = ((λ h. (refl, open_session_zero.0 h)), λ h. open_session_zero.1 h.1)
  checked-IsZero (err e) = ((λ h. absurd (not-IsZero.0 h)), λ h. absurd cc)

  -- `serve` ends with status 0 exactly when the device may be used, the extra is there, the
  -- configuration is not refused, the session started and the server listened, the wait ended, and
  -- no step of the shutdown raised.
  pub serve_zero :
      ((serve lower ip_loopback args s).exit ≡ exited 0)
      ↔ Passes (check_config ip_loopback (config_of args s))
  unfolding serve
  serve_zero =
      let whole = gate IsZero (is_permitted lower args s) not-IsZero.0 (
        gate IsZero s.installed not-IsZero.0
          (checked-IsZero (check_config ip_loopback (config_of args s)))) in
      (
        (λ h. let (a, (b, (c, (d, (e, (f, g)))))) = whole.0 h in (a, b, c, d, e, f, g)),
        λ (a, b, c, d, e, f, g). whole.1 (a, (b, (c, (d, (e, (f, g)))))),
      )
