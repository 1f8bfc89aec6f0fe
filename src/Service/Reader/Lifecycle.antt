-- ===== src/Service/Reader/Lifecycle.antt =====
-- Starting and stopping, and the follow-up read.
use bedjet_local.Prelude.{◌+◌, Bool, true, false, ◌≡◌, Option, none, some, List, [], ◌∷◌, arith}
use bedjet_local.Protocol.Constants.{Bytes}
use bedjet_local.Protocol.Packets.{StatusPacket, is_complete}
use bedjet_local.Protocol.Decode.{decode_status, looks_like_packet_start, reassemble}
use bedjet_local.Service.Reader.{
  Reader, new, publish, start, stop_tasks, stop_subscription, stop, set_poke, on_notify,
  complete_partial, classify_poll, record_rtt, poll_read, poll_failed,
}
use bedjet_local.Service.Reader.Steps.{
  Event, started, stopping, stopped, poked, notified, follow_up, polled, poll_raised, step, resume,
  run,
}

-- What keeps a task or a subscription alive implies that the reader runs.
pub record IsIdle (r : Reader) : Type 0 where
  pub not_running : r.running ≡ false
  pub no_completion : r.completion ≡ none
  pub no_poll_task : r.poll_task ≡ false
  pub unsubscribed : r.subscribed ≡ false

-- While a read is in flight, a further incomplete notification starts no second one: it is counted
-- as dropped, and the first part that waits stays the same.
pub busy_drops :
    (connected : Bool) (bytes first : Bytes) (r : Reader)
    → looks_like_packet_start bytes ≡ true
    → is_complete (decode_status bytes) ≡ false
    → r.completion ≡ some first
    → let r' = on_notify connected bytes r in
      (r'.completion ≡ some first)
      × (r'.dropped_while_busy ≡ r.dropped_while_busy + 1)
      × (r'.partials_seen ≡ r.partials_seen)
      × (r'.published ≡ r.published)
unfolding on_notify
busy_drops connected bytes first r s c b = ground arith

-- What holds of every reader between two events: a polling reader has no subscription and no
-- follow-up read, the other kind no poll task; and a poll task or a subscription alone runs.
pub record IsConsistent (r : Reader) : Type 0 where
  pub polling_alone : r.polling ≡ true → (r.subscribed ≡ false) × (r.completion ≡ none)
  pub notify_alone : r.polling ≡ false → r.poll_task ≡ false
  pub polling_runs : r.polling ≡ true → r.running ≡ false → r.poll_task ≡ false

publish_keeps :
    (connected : Bool) (packet : StatusPacket) (r : Reader)
    → let r' = publish connected packet r in
      (r'.polling ≡ r.polling)
      × (r'.subscribed ≡ r.subscribed)
      × (r'.completion ≡ r.completion)
      × (r'.poll_task ≡ r.poll_task)
      × (r'.running ≡ r.running)
unfolding publish
publish_keeps connected packet r = ground arith

resume-IsConsistent :
    (connected : Bool) (remainder pending : Option Bytes) (r : Reader)
    → IsConsistent r
    → IsConsistent (resume connected remainder pending r)
unfolding resume complete_partial
resume-IsConsistent connected remainder none r h = h
resume-IsConsistent connected none (some first) r h = ground arith
resume-IsConsistent connected (some rest) (some first) r h = ground (
  arith,
  publish_keeps connected (decode_status (reassemble first rest)) (record r { completion = none }),
)

classify_poll_keeps :
    (connected : Bool) (bytes : Bytes) (r : Reader)
    → let r' = classify_poll connected bytes r in
      (r'.polling ≡ r.polling)
      × (r'.subscribed ≡ r.subscribed)
      × (r'.completion ≡ r.completion)
      × (r'.poll_task ≡ r.poll_task)
      × (r'.running ≡ r.running)
unfolding classify_poll
classify_poll_keeps connected bytes r = ground (
  arith,
  publish_keeps connected (decode_status bytes) (record r { polls_whole = r.polls_whole + 1 }),
)

step-IsConsistent : (r : Reader) (e : Event) → IsConsistent r → IsConsistent (step r e)
unfolding step start stop_tasks stop_subscription set_poke poll_failed
step-IsConsistent r started h = ground arith
step-IsConsistent r stopping h = ground arith
step-IsConsistent r stopped h = ground arith
step-IsConsistent r poked h = ground arith
step-IsConsistent r (notified connected bytes) h =
    unfold on_notify in
    ground (
      arith,
      publish_keeps connected (decode_status bytes)
          (record r { packets_seen = r.packets_seen + 1 }),
    )
step-IsConsistent r (follow_up connected remainder) h =
    resume-IsConsistent connected remainder r.completion r h
step-IsConsistent r (polled connected bytes time raised) h =
    unfold poll_read record_rtt in
    let timed = record_rtt time r in
    let counted = record timed { polls = r.polls + 1; packets_seen = r.packets_seen + 1 } in
    ground (arith, classify_poll_keeps connected bytes counted)
step-IsConsistent r poll_raised h = ground arith

run-IsConsistent : (r : Reader) (es : List Event) → IsConsistent r → IsConsistent (run r es)
unfolding run
run-IsConsistent r [] h = h
run-IsConsistent r (e ∷ es) h = run-IsConsistent (step r e) es (step-IsConsistent r e h)

pub new-IsConsistent : (polling : Bool) → IsConsistent (new polling)
unfolding new
new-IsConsistent polling = ground arith

-- Stopping a running reader, reached by any events, with nothing in between leaves no task and no subscription.
pub stop-IsIdle :
    (polling : Bool) (es : List Event)
    → (run (new polling) es).running ≡ true
    → IsIdle (stop (run (new polling) es))
unfolding stop stop_tasks stop_subscription
stop-IsIdle polling es running =
    ground (arith, run-IsConsistent (new polling) es (new-IsConsistent polling))

-- A notification of an incomplete packet that comes between the two parts of `stop` starts a
-- follow-up read which outlives the subscription: the reader has stopped and the read is in flight.
pub stop_leaks_read :
    (connected : Bool) (bytes : Bytes) (r : Reader)
    → r.polling ≡ false
    → r.running ≡ true
    → r.subscribed ≡ true
    → looks_like_packet_start bytes ≡ true
    → is_complete (decode_status bytes) ≡ false
    → let r' = run r (stopping ∷ notified connected bytes ∷ stopped ∷ []) in
      (r'.running ≡ false) × (r'.subscribed ≡ false) × (r'.completion ≡ some bytes)
unfolding run step stop_tasks stop_subscription on_notify
stop_leaks_read connected bytes r p q s l c = ground arith
