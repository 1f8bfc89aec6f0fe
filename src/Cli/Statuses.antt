-- ===== src/Cli/Statuses.antt =====
-- What the exit status of a writing subcommand tells of its writes, and what may spoil it.
use bedjet_local.Prelude.{
  ◌≡◌, ◌⊎◌, inl, inr, String, Bool, true, false, Option, none, some, List, [], ◌∷◌, arith,
}
use bedjet_local.Python.Result.{err}
use bedjet_local.Protocol.Constants.{Bytes, command_uuid}
use bedjet_local.Transport.Contract.{Transport, Raised as TransportRaised}
use bedjet_local.Cli.{
  Interrupt, at_connect, before_write, behind_write, is_interrupt, Surroundings, Exit, exited,
  still_running, Left,
}

-- At most one write of a command, and none in a dry run.
abbrev pub AtMostOne : Bool → List (String × Bytes) → Type 0
AtMostOne dry_run ws =
    (ws ≡ []) ⊎ ((payload : Bytes) × (dry_run ≡ false) × (ws ≡ (command_uuid, payload) ∷ []))

-- What an exit status tells of the writes of a run.
pub data OnWire (met : Type 0) (dry_run : Bool) (spoilt : Type 0)
    : Exit → List (String × Bytes) → Type 0 where
  -- 0: rehearsed, or one command was written and met
  nothing_sent :
      {ws : List (String × Bytes)}
      → dry_run ≡ true
      → ws ≡ []
      → OnWire met dry_run spoilt (exited 0) ws
  sent :
      {ws : List (String × Bytes)} (payload : Bytes)
      → dry_run ≡ false
      → ws ≡ (command_uuid, payload) ∷ []
      → met
      → OnWire met dry_run spoilt (exited 0) ws
  -- 1: refused, declined or failed before the write, unless what follows the command failed
  not_sent : {ws : List (String × Bytes)} → ws ≡ [] → OnWire met dry_run spoilt (exited 1) ws
  unknown :
      {ws : List (String × Bytes)}
      → spoilt
      → AtMostOne dry_run ws
      → OnWire met dry_run spoilt (exited 1) ws
  -- 2: one command was written
  unconfirmed :
      {ws : List (String × Bytes)} (payload : Bytes)
      → dry_run ≡ false
      → ws ≡ (command_uuid, payload) ∷ []
      → OnWire met dry_run spoilt (exited 2) ws
  awaited :
      {ws : List (String × Bytes)} (payload : Bytes)
      → dry_run ≡ false
      → ws ≡ (command_uuid, payload) ∷ []
      → OnWire met dry_run spoilt still_running ws
  -- 130: Ctrl-C
  cut_at :
      {ws : List (String × Bytes)}
      → AtMostOne dry_run ws
      → OnWire met dry_run spoilt (exited 130) ws

pub OnWire-AtMostOne :
    {met spoilt : Type 0} {dry_run : Bool} {x : Exit} {ws : List (String × Bytes)}
    → OnWire met dry_run spoilt x ws
    → AtMostOne dry_run ws
OnWire-AtMostOne (nothing_sent d e) = inl e
OnWire-AtMostOne (sent payload d e m) = inr (payload, d, e)
OnWire-AtMostOne (not_sent e) = inl e
OnWire-AtMostOne (unknown s h) = h
OnWire-AtMostOne (unconfirmed payload d e) = inr (payload, d, e)
OnWire-AtMostOne (awaited payload d e) = inr (payload, d, e)
OnWire-AtMostOne (cut_at h) = h

-- Something behind the command failed: the stop of the reader, the writing of a file, or the release
-- of the link.
pub data IsSpoilt (t : Transport) (s : Surroundings t) : Type 0 where
  stop_failed : s.stopped ≡ false → IsSpoilt t s
  save_failed : s.saved ≡ false → IsSpoilt t s
  release_failed :
      (link : t.State) (e : TransportRaised)
      → (t.disconnect s.leaving link).0 ≡ err e
      → IsSpoilt t s

-- Ctrl-C in the connection, which no `finally` follows, or in the release.
abbrev pub cuts_release : Option Interrupt → Bool
cuts_release none = false
cuts_release (some before_write) = false
cuts_release (some behind_write) = false
cuts_release (some _) = true

pub is_whole :
    (i : Interrupt) (o : Option Interrupt) → cuts_release o ≡ false → is_interrupt i o ≡ false
is_whole i o h = ground arith

pub cuts_connect : (o : Option Interrupt) → is_interrupt at_connect o ≡ true → cuts_release o ≡ true
cuts_connect o h = ground arith

-- Where a run leaves the link.
pub data LinkLeft (t : Transport) (s : Surroundings t) (x : Left t) : Type 0 where
  link_in_use : x.exit ≡ still_running → LinkLeft t s x
  stop_raised : s.stopped ≡ false → LinkLeft t s x
  release_cut : cuts_release s.interrupt ≡ true → LinkLeft t s x
  link_down : ((m : t.Moment) → t.is_connected m x.link ≡ false) → LinkLeft t s x
