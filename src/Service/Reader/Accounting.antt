-- ===== src/Service/Reader/Accounting.antt =====
-- The counters: every chunk of data is accounted for at most once.
use bedjet_local.Prelude.{
  ℕ, ◌+◌, ◌≤◌, Bool, ◌≡◌, refl, Option, none, some, List, [], ◌∷◌, arith, length, length-append,
  if_both,
}
use bedjet_local.Protocol.Constants.{Bytes}
use bedjet_local.Protocol.Packets.{StatusPacket}
use bedjet_local.Protocol.Decode.{decode_status, reassemble}
use bedjet_local.Device.State.{from_status}
use bedjet_local.Service.Reader.{
  Reader, new, publish, start, stop_tasks, stop_subscription, set_poke, on_notify, complete_partial,
  classify_poll, record_rtt, poll_read, poll_failed,
}
use bedjet_local.Service.Reader.Steps.{
  Event, started, stopping, stopped, poked, notified, follow_up, polled, poll_raised, step, resume,
  run,
}

abbrev pub pending : Option Bytes → ℕ
pending none = 0
pending (some _) = 1

-- The chunks that were published, rejected, dropped or found partial or alien, and the one that
-- waits for its remainder.
abbrev pub chunks : Reader → ℕ
chunks r =
    length r.published
    + r.rejected_checksum
    + r.rejected_not_a_packet
    + r.dropped_while_busy
    + r.polls_partial
    + r.polls_alien
    + pending r.completion

pub record Accounts (r : Reader) : Type 0 where
  -- each poll is whole, partial or alien
  pub polls_split : r.polls ≡ r.polls_whole + r.polls_partial + r.polls_alien
  -- each chunk is published, rejected, dropped, partial or alien, or waits for its remainder, once
  pub chunks_once : chunks r ≤ r.packets_seen

-- Publishing accounts for one chunk.
publish_counts :
    (connected : Bool) (packet : StatusPacket) (r : Reader)
    → let r' = publish connected packet r in
      (length r'.published + r'.rejected_checksum ≡ length r.published + r.rejected_checksum + 1)
      × (r'.rejected_not_a_packet ≡ r.rejected_not_a_packet)
      × (r'.dropped_while_busy ≡ r.dropped_while_busy)
      × (r'.polls ≡ r.polls)
      × (r'.polls_whole ≡ r.polls_whole)
      × (r'.polls_partial ≡ r.polls_partial)
      × (r'.polls_alien ≡ r.polls_alien)
      × (r'.completion ≡ r.completion)
      × (r'.packets_seen ≡ r.packets_seen)
unfolding publish
publish_counts connected packet r =
    ground (arith, length-append r.published ((from_status packet connected, packet) ∷ []))

on_notify-Accounts :
    (connected : Bool) (bytes : Bytes) (r : Reader)
    → Accounts r
    → Accounts (on_notify connected bytes r)
unfolding on_notify
on_notify-Accounts connected bytes r h = ground (
  arith,
  publish_counts connected (decode_status bytes) (record r { packets_seen = r.packets_seen + 1 }),
)

complete_partial-Accounts :
    (connected : Bool) (first : Bytes) (remainder : Option Bytes) (r : Reader)
    → Accounts r
    → r.completion ≡ some first
    → Accounts (complete_partial connected first remainder r)
unfolding complete_partial
complete_partial-Accounts connected first none r h e = ground arith
complete_partial-Accounts connected first (some remainder) r h e = ground (
  arith,
  publish_counts connected (decode_status (reassemble first remainder))
      (record r { completion = none }),
)

classify_poll-Accounts :
    (connected : Bool) (bytes : Bytes) (r : Reader)
    → r.polls ≡ r.polls_whole + r.polls_partial + r.polls_alien + 1
    → chunks r + 1 ≤ r.packets_seen
    → Accounts (classify_poll connected bytes r)
unfolding classify_poll
classify_poll-Accounts connected bytes r polls room = ground (
  arith,
  publish_counts connected (decode_status bytes) (record r { polls_whole = r.polls_whole + 1 }),
)

poll_read-Accounts :
    (connected : Bool) (bytes : Bytes) (time : ℕ) (raised : Bool) (r : Reader)
    → Accounts r
    → Accounts (poll_read connected bytes time raised r)
unfolding poll_read record_rtt
poll_read-Accounts connected bytes time raised r h =
    let timed = record_rtt time r in
    let counted = record timed { polls = r.polls + 1; packets_seen = r.packets_seen + 1 } in
    let a = classify_poll-Accounts connected bytes counted (omega arith) (omega arith) in
    record { polls_split = a.polls_split; chunks_once = a.chunks_once }

resume-Accounts :
    (connected : Bool) (remainder pending : Option Bytes) (r : Reader)
    → Accounts r
    → r.completion ≡ pending
    → Accounts (resume connected remainder pending r)
unfolding resume
resume-Accounts connected remainder none r h e = h
resume-Accounts connected remainder (some first) r h e =
    complete_partial-Accounts connected first remainder r h e

step-Accounts : (r : Reader) (e : Event) → Accounts r → Accounts (step r e)
unfolding step start stop_tasks stop_subscription set_poke poll_failed
step-Accounts r started h = ground arith
step-Accounts r stopping h = ground arith
step-Accounts r stopped h = ground arith
step-Accounts r poked h = ground arith
step-Accounts r (notified connected bytes) h =
    if_both Accounts r.subscribed (on_notify-Accounts connected bytes r h) h
step-Accounts r (follow_up connected remainder) h =
    resume-Accounts connected remainder r.completion r h refl
step-Accounts r (polled connected bytes time raised) h =
    if_both Accounts r.poll_task (poll_read-Accounts connected bytes time raised r h) h
step-Accounts r poll_raised h = ground arith

run-Accounts : (r : Reader) (es : List Event) → Accounts r → Accounts (run r es)
unfolding run
run-Accounts r [] h = h
run-Accounts r (e ∷ es) h = run-Accounts (step r e) es (step-Accounts r e h)

-- Whatever happens to a reader, its counters agree: each poll is whole, partial or alien, and the
-- chunks published, rejected, dropped or waiting for their remainder are at most those received.
pub counters_account : (polling : Bool) (es : List Event) → Accounts (run (new polling) es)
unfolding new
counters_account polling es = run-Accounts (new polling) es (ground arith)
