-- ===== src/Cli/ExitCodes.antt =====
-- What the exit status of a writing subcommand tells, and where its link is afterwards.
use bedjet_local.Prelude.{
  ◌≡◌, ◌≢◌, inl, inr, refl, ap, String, Bool, true, false, Option, none, some, List, [], ◌∷◌,
  if_both, if_known, Bool-cases, if◌then◌else◌,
}
use bedjet_local.Python.Float.{Float}
use bedjet_local.Python.Result.{Result, ok, err}
use bedjet_local.Protocol.Constants.{Bytes, command_uuid}
use bedjet_local.Service.Commander
use bedjet_local.Service.Commander.{
  Commander, Env, CommandResult, Raised, refused, already_satisfied, write_failed, unverified,
  encode_error, assertion_error, still_waiting, deliver, wait_for_state,
}
use bedjet_local.Service.Commander.Loop.{deliver-writes}
use bedjet_local.Service.Commander.Requests.{
  Request, off_request, mode_request, temperature_request, fan_request,
}
use bedjet_local.Transport.Contract.{Transport, IsTransport, Raised as TransportRaised}
use bedjet_local.Cli.Bodies.{
  Tells, cut_short, interrupted-Tells, BodyTells, Met, rehearsed, declined, threw, doubtful, done,
  waiting, attend-Tells,
}
use bedjet_local.Cli.Statuses.{
  OnWire, nothing_sent, sent, not_sent, unknown, unconfirmed, awaited, cut_at, OnWire-AtMostOne,
  IsSpoilt, stop_failed, save_failed, release_failed, cuts_release, is_whole, cuts_connect,
  LinkLeft, link_in_use, stop_raised, release_cut, link_down,
}
use bedjet_local.Cli.{
  attend, at_connect, at_stop, at_disconnect, is_interrupt, cancelled, cut, Arguments, Surroundings,
  Ended, returned, verified, raised, running, Exit, exited, still_running, Left, exit_of, save,
  disconnected, close, release, failed, use_link, connect_and_use, check_ownership, request_of, run,
}

module _ (t : Transport) where
  module _ (met : Type 0) (dry_run : Bool) (s : Surroundings t) where
    -- What a run leaves.
    abbrev IsAccounted : Left t → Type 0
    IsAccounted x = OnWire met dry_run (IsSpoilt t s) x.exit x.commander.writes

    disconnected-IsAccounted :
        (link : t.State) (x : Result TransportRaised (Unit {0}) × t.State)
        → (t.disconnect s.leaving link).0 ≡ x.0
        → (exit : Exit) (c : Commander) → OnWire met dry_run (IsSpoilt t s) exit c.writes
        → IsAccounted (disconnected t x exit c)
    unfolding disconnected
    disconnected-IsAccounted link (ok _, after_) e exit c h = h
    disconnected-IsAccounted link (err x, after_) e exit c h =
        unknown (release_failed link x e) (OnWire-AtMostOne h)

    close-IsAccounted :
        (exit : Exit) (c : Commander) (link : t.State)
        → OnWire met dry_run (IsSpoilt t s) exit c.writes
        → IsAccounted (close t s exit c link)
    unfolding close cut exit_of
    close-IsAccounted exit c link h =
        let once = OnWire-AtMostOne h in
        if_both IsAccounted (is_interrupt at_stop s.interrupt) (cut_at once) (
          if_known IsAccounted s.stopped
            (λ _.
              if_both IsAccounted (is_interrupt at_disconnect s.interrupt) (cut_at once)
                (disconnected-IsAccounted link (t.disconnect s.leaving link) refl exit c h))
            (λ loud. unknown (stop_failed loud) once))

    save-OnWire :
        (request : Request) (payload : Bytes) (ws : List (String × Bytes))
        → dry_run ≡ false
        → ws ≡ (command_uuid, payload) ∷ []
        → met
        → OnWire met dry_run (IsSpoilt t s) (exit_of (save s.saved verified request)) ws
    unfolding save exit_of
    save-OnWire off_request payload ws d h m' =
        if_known (λ x. OnWire met dry_run (IsSpoilt t s) (exit_of x) ws) s.saved
          (λ _. sent payload d h m') (λ lost. unknown (save_failed lost) (inr (payload, d, h)))
    save-OnWire (mode_request m) payload ws d h m' = sent payload d h m'
    save-OnWire (temperature_request x) payload ws d h m' = sent payload d h m'
    save-OnWire (fan_request x) payload ws d h m' = sent payload d h m'

    release-IsAccounted :
        (request : Request) (x : Ended) (c c' : Commander) (link : t.State)
        → c.writes ≡ []
        → (Met request s.env → met)
        → BodyTells (Met request s.env) dry_run c x c'
        → IsAccounted (release t s request x c' link)
    unfolding release exit_of save
    release-IsAccounted request x c c' link none_yet means (rehearsed d h) =
        close-IsAccounted (exited 0) c' link (nothing_sent d (cc))
    release-IsAccounted request x c c' link none_yet means (declined h) =
        close-IsAccounted (exited 1) c' link (not_sent (cc))
    release-IsAccounted request x c c' link none_yet means (threw h) =
        close-IsAccounted (exited 1) c' link (not_sent (cc))
    release-IsAccounted request x c c' link none_yet means (doubtful payload d h) =
        close-IsAccounted (exited 2) c' link (unconfirmed payload d (cc))
    release-IsAccounted request x c c' link none_yet means (done payload d h m') =
        close-IsAccounted (exit_of (save s.saved verified request)) c' link
          (save-OnWire request payload c'.writes d (cc) (means m'))
    release-IsAccounted request x c c' link none_yet means (waiting payload d h) =
        awaited payload d (cc)
    release-IsAccounted request x c c' link none_yet means (cut_short (inl h)) =
        close-IsAccounted (exited 130) c' link (cut_at (inl (cc)))
    release-IsAccounted request x c c' link none_yet means (cut_short (inr (payload, d, h))) =
        close-IsAccounted (exited 130) c' link (cut_at (inr (payload, d, cc)))

    module _ (lower upper strip : String → String) (to_celsius : Float → Float) (args : Arguments)
        (same : dry_run ≡ args.dry_run) where
      use_link-IsAccounted :
          (request : Request) (link : t.State)
          → (Met request s.env → met)
          → IsAccounted (use_link t lower upper strip to_celsius args s request link)
      unfolding use_link Commander.new
      use_link-IsAccounted request link means =
          let c = deliver s.heard_at_start Commander.new in
          let fresh : c.writes ≡ [] = deliver-writes s.heard_at_start Commander.new in
          let body =
            if s.started
            then attend strip args s.heard_at_first s.typed s.env request c
            else (raised, c) in
          let told : Tells (Met request s.env) dry_run c body =
            if_both (Tells (Met request s.env) dry_run c) s.started
              (rw same (attend-Tells strip args s.typed s.env request s.heard_at_first c))
              (threw refl) in
          release-IsAccounted request _ c _ (s.used link) fresh means
            (interrupted-Tells s.interrupt s.heard_at_first c body.0 body.1 told)

  module _ (laws : IsTransport t) (s : Surroundings t) (m : t.Moment) (quiet : s.stopped ≡ true)
      (whole : cuts_release s.interrupt ≡ false) where
    -- Where a run has ended, the link is down.
    abbrev IsDown : Left t → Type 0
    IsDown x = x.exit ≢ still_running → t.is_connected m x.link ≡ false

    disconnected-link :
        (x : Result TransportRaised (Unit {0}) × t.State) (exit : Exit) (c : Commander)
        → (disconnected t x exit c).link ≡ x.1
    unfolding disconnected
    disconnected-link (ok _, link) exit c = refl
    disconnected-link (err e, link) exit c = refl

    close-IsDown : (exit : Exit) (c : Commander) (link : t.State) → IsDown (close t s exit c link)
    unfolding close
    close-IsDown exit c link _ =
        rw
          (
            is_whole at_stop s.interrupt whole,
            quiet,
            is_whole at_disconnect s.interrupt whole,
            disconnected-link (t.disconnect s.leaving link) exit c,
          )
          (laws.released s.leaving m link)

    release-IsDown :
        (request : Request) (x : Ended) (c : Commander) (link : t.State)
        → IsDown (release t s request x c link)
    unfolding release
    release-IsDown request running c link over = absurd (over refl)
    release-IsDown request verified c link over =
        close-IsDown (exit_of (save s.saved verified request)) c link over
    release-IsDown request raised c link over =
        close-IsDown (exit_of (save s.saved raised request)) c link over
    release-IsDown request cancelled c link over =
        close-IsDown (exit_of (save s.saved cancelled request)) c link over
    release-IsDown request (returned n) c link over =
        close-IsDown (exit_of (save s.saved (returned n) request)) c link over

    module _ (lower upper strip : String → String) (to_celsius : Float → Float)
        (args : Arguments) where
      use_link-IsDown :
          (request : Request) (link : t.State)
          → IsDown (use_link t lower upper strip to_celsius args s request link)
      unfolding use_link
      use_link-IsDown request link = release-IsDown request _ _ (s.used link)

  module _ (laws : IsTransport t) (lower upper strip : String → String) (to_celsius : Float → Float)
      (args : Arguments) (s : Surroundings t) where
    -- The request of the command line is met.
    abbrev pub IsMet : Type 0
    IsMet =
        (request : Request) × (request_of upper to_celsius args.subcommand ≡ some request)
        × Met request s.env

    -- What a run tells by its status and leaves of the link.
    abbrev pub IsClear : Left t → Type 0
    IsClear x = OnWire IsMet args.dry_run (IsSpoilt t s) x.exit x.commander.writes × LinkLeft t s x

    failed-IsClear :
        (link : t.State)
        → ((m : t.Moment) → t.is_connected m link ≡ false)
        → IsClear (failed t link)
    unfolding failed Commander.new
    failed-IsClear link down = (not_sent refl, link_down down)

    used-LinkLeft :
        (stopped : Bool)
        → s.stopped ≡ stopped
        → (exit : Exit) (request : Request) (link : t.State)
        → (use_link t lower upper strip to_celsius args s request link).exit ≡ exit
        → LinkLeft t s (use_link t lower upper strip to_celsius args s request link)
    used-LinkLeft false loud exit request link e = stop_raised loud
    used-LinkLeft true quiet still_running request link e = link_in_use e
    used-LinkLeft true quiet (exited n) request link e =
        elim (Bool-cases (cuts_release s.interrupt)) [
          | inl broken ↦ release_cut broken
          | inr whole ↦ link_down λ m.
              use_link-IsDown laws s m quiet whole lower upper strip to_celsius args request link
                λ h. cc
        ]

    connected-IsClear :
        (request : Request) (link : t.State)
        → request_of upper to_celsius args.subcommand ≡ some request
        → ((m : t.Moment) → t.is_connected m link ≡ false)
        → (x : Result TransportRaised (Unit {0}) × t.State)
        → t.connect s.connecting args.address link ≡ x
        → IsClear (elim x.0 [
          | err e ↦ failed t x.1
          | ok _ ↦ use_link t lower upper strip to_celsius args s request x.1
        ])
    connected-IsClear request link asked down (ok _, after_) e = (
      use_link-IsAccounted IsMet args.dry_run s lower upper strip to_celsius args refl request
          after_ (λ met. (request, asked, met)),
      used-LinkLeft s.stopped refl _ request after_ refl,
    )
    connected-IsClear request link asked down (err x, after_) e = failed-IsClear after_ λ m.
        cc (
          e,
          down m,
          laws.failed_connect s.connecting m args.address link {e = x} (ap (λ y. y.0) e),
        )

    -- The exit status of a writing subcommand tells what it did to the device, over any transport
    -- that keeps its contract and starts without a link: 0 is a dry run that wrote nothing, or one
    -- write behind which a trustworthy state, heard since the write began, is what the command
    -- line asks for; 2 is one write; 1 is no write, unless the stop of the reader, the release of the
    -- link or the writing of a file failed behind the command; 130 is Ctrl-C, with at most one write and
    -- none in a dry run. No other status occurs, and the link is down afterwards, unless the
    -- verification still runs, the stop of the reader raised, or Ctrl-C came in the connection or in the
    -- release.
    pub run-IsClear :
        (link : t.State)
        → ((m : t.Moment) → t.is_connected m link ≡ false)
        → IsClear (run t lower upper strip to_celsius args s link)
    unfolding run connect_and_use check_ownership cut exit_of Commander.new
    run-IsClear link down =
        if_both IsClear (check_ownership t lower upper strip to_celsius args s)
          (asked-IsClear (request_of upper to_celsius args.subcommand) refl)
          (failed-IsClear link down)
      where
        asked-IsClear :
            (o : Option Request)
            → request_of upper to_celsius args.subcommand ≡ o
            → IsClear (elim o [
              | none ↦ failed t link
              | some request ↦ connect_and_use t lower upper strip to_celsius args s request link
            ])
        asked-IsClear none asked = failed-IsClear link down
        asked-IsClear (some request) asked =
            if_known IsClear (is_interrupt at_connect s.interrupt)
              (λ e. (cut_at (inl refl), release_cut (cuts_connect s.interrupt e)))
              (λ _. connected-IsClear request link asked down _ refl)
