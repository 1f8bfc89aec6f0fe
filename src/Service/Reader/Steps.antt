-- ===== src/Service/Reader/Steps.antt =====
-- What can happen to a reader, one callback or resumed task at a time, and runs of it.
use bedjet_local.Prelude.{ℕ, Bool, Option, none, some, List, [], ◌∷◌, if◌then◌else◌}
use bedjet_local.Protocol.Constants.{Bytes}
use bedjet_local.Service.Reader.{
  Reader, start, stop_tasks, stop_subscription, set_poke, on_notify, complete_partial, poll_read,
  poll_failed,
}

pub data Event : Type 0 where
  started stopping stopped poked : Event
  notified : Bool → Bytes → Event
  follow_up : Bool → Option Bytes → Event
  polled : Bool → Bytes → ℕ → Bool → Event
  poll_raised : Event

-- The completion task goes on, if there is one.
unfoldable pub resume : Bool → Option Bytes → Option Bytes → Reader → Reader
resume connected remainder none r = r
resume connected remainder (some first) r = complete_partial connected first remainder r

-- A notification needs the subscription, a follow-up read its task, a poll the poll task, and the
-- end of `stop` its beginning: an event that cannot occur changes nothing.
unfoldable pub step : Reader → Event → Reader
step r started = start r
step r stopping = stop_tasks r
step r stopped = if r.running then r else stop_subscription r
step r poked = set_poke r
step r (notified connected bytes) = if r.subscribed then on_notify connected bytes r else r
step r (follow_up connected remainder) = resume connected remainder r.completion r
step r (polled connected bytes time raised) =
    if r.poll_task then poll_read connected bytes time raised r else r
step r poll_raised = if r.poll_task then poll_failed r else r

unfoldable pub run : Reader → List Event → Reader
run r [] = r
run r (e ∷ es) = run (step r e) es
