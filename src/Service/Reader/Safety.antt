-- ===== src/Service/Reader/Safety.antt =====
-- Nothing is published but the state of an intact packet.
use bedjet_local.Prelude.{
  ℕ, Bool, ◌≡◌, refl, Option, none, some, List, [], ◌∷◌, ◌++◌, All, Bool-cases, inl, inr, not,
  if_both, is_some, ◌+◌,
}
use bedjet_local.Protocol.Constants.{Bytes}
use bedjet_local.Protocol.Packets.{is_trustworthy, is_complete}
use bedjet_local.Protocol.Decode.{decode_status, reassemble, looks_like_packet_start}
use bedjet_local.Protocol.Decode.Integrity.{IsIntact, trustworthy_iff}
use bedjet_local.Device.State.{from_status}
use bedjet_local.Service.Reader.{
  Reader, Update, new, publish, start, stop_tasks, stop_subscription, set_poke, on_notify,
  complete_partial, classify_poll, record_rtt, poll_read, poll_failed,
}
use bedjet_local.Service.Reader.Steps.{
  Event, started, stopping, stopped, poked, notified, follow_up, polled, poll_raised, step, resume,
  run,
}

-- An update that was read from intact bytes: the packet is what they decode to, and the state is
-- that of the packet.
pub record FromIntact (u : Update) : Type 0 where
  pub bytes : Bytes
  pub declared : ℕ
  pub available : Bool
  pub intact : IsIntact bytes declared
  pub update : u ≡ (from_status (decode_status bytes) available, decode_status bytes)

abbrev pub IsSound : Reader → Type 0
IsSound r = All FromIntact r.published

All-snoc :
    (us : List Update) (u : Update)
    → All FromIntact us
    → FromIntact u
    → All FromIntact (us ++ u ∷ [])
All-snoc [] u h p = (p, tt)
All-snoc (v ∷ us) u h p = (h.0, All-snoc us u h.1 p)

publish-IsSound :
    (connected : Bool) (bytes : Bytes) (r : Reader)
    → IsSound r
    → IsSound (publish connected (decode_status bytes) r)
unfolding publish
publish-IsSound connected bytes r h = elim (Bool-cases (is_trustworthy (decode_status bytes))) [
  | inl t ↦
      let (declared, intact) = (trustworthy_iff bytes).0 t in
      rw t (
        All-snoc r.published _ h (record {
          bytes = bytes;
          declared = declared;
          available = connected;
          intact = intact;
          update = refl;
        }))
  | inr f ↦ rw f h
]

on_notify-IsSound :
    (connected : Bool) (bytes : Bytes) (r : Reader)
    → IsSound r
    → IsSound (on_notify connected bytes r)
unfolding on_notify
on_notify-IsSound connected bytes r h = if_both IsSound (not (looks_like_packet_start bytes)) h (
    if_both IsSound (not (is_complete (decode_status bytes)))
      (if_both IsSound (is_some r.completion) h h)
      (publish-IsSound connected bytes (record r { packets_seen = r.packets_seen + 1 }) h))

complete_partial-IsSound :
    (connected : Bool) (first : Bytes) (remainder : Option Bytes) (r : Reader)
    → IsSound r
    → IsSound (complete_partial connected first remainder r)
unfolding complete_partial
complete_partial-IsSound connected first none r h = h
complete_partial-IsSound connected first (some remainder) r h =
    publish-IsSound connected (reassemble first remainder) (record r { completion = none }) h

classify_poll-IsSound :
    (connected : Bool) (bytes : Bytes) (r : Reader)
    → IsSound r
    → IsSound (classify_poll connected bytes r)
unfolding classify_poll
classify_poll-IsSound connected bytes r h =
    if_both IsSound (looks_like_packet_start bytes)
      (if_both IsSound (is_complete (decode_status bytes))
        (publish-IsSound connected bytes (record r { polls_whole = r.polls_whole + 1 }) h) h)
      h

resume-IsSound :
    (connected : Bool) (remainder pending : Option Bytes) (r : Reader)
    → IsSound r
    → IsSound (resume connected remainder pending r)
unfolding resume
resume-IsSound connected remainder none r h = h
resume-IsSound connected remainder (some first) r h =
    complete_partial-IsSound connected first remainder r h

step-IsSound : (r : Reader) (e : Event) → IsSound r → IsSound (step r e)
unfolding step start stop_tasks stop_subscription set_poke poll_read poll_failed record_rtt
step-IsSound r started h = if_both IsSound r.polling h h
step-IsSound r stopping h = if_both IsSound r.running (if_both IsSound r.polling h h) h
step-IsSound r stopped h = if_both IsSound r.running h (if_both IsSound r.polling h h)
step-IsSound r poked h = h
step-IsSound r (notified connected bytes) h =
    if_both IsSound r.subscribed (on_notify-IsSound connected bytes r h) h
step-IsSound r (follow_up connected remainder) h =
    resume-IsSound connected remainder r.completion r h
step-IsSound r (polled connected bytes time raised) h =
    if_both IsSound r.poll_task (classify_poll-IsSound connected bytes _ h) h
step-IsSound r poll_raised h = if_both IsSound r.poll_task h h

run-IsSound : (r : Reader) (es : List Event) → IsSound r → IsSound (run r es)
unfolding run
run-IsSound r [] h = h
run-IsSound r (e ∷ es) h = run-IsSound (step r e) es (step-IsSound r e h)

-- Whatever happens to a reader, in either mode and in any order, each update that it publishes is
-- the state and packet of intact bytes.
pub published_intact :
    (polling : Bool) (es : List Event) → All FromIntact (run (new polling) es).published
unfolding new
published_intact polling es = run-IsSound (new polling) es tt
