-- ===== src/Service/Reader.antt =====
-- service/reader.py: the status reader, in its two modes. An `await` splits a method: what other
-- callbacks do meanwhile comes as the steps of `Reader.Steps` between the parts.
--
-- A call of the state callback appends to `published`. Times are in an arbitrary unit. The log
-- is left out, the flags that decide how loud it is are not. `_last_anomalies` is only read to
-- decide whether to log, and is set to the packet's anomalies in either case.
pub mod Steps
pub mod Safety
pub mod Accounting
pub mod Lifecycle
use bedjet_local.Prelude.{
  ℕ, ◌+◌, ◌≤◌, Bool, true, false, ◌&&◌, not, Option, none, some, List, [], ◌∷◌, ◌++◌, leb, ltb,
  ◌==◌, if◌then◌else◌, is_some, max, min,
}
use bedjet_local.Protocol.Constants.{Bytes}
use bedjet_local.Protocol.Packets.{StatusPacket, Anomaly, is_complete, is_trustworthy}
use bedjet_local.Protocol.Decode.{decode_status, looks_like_packet_start, reassemble}
use bedjet_local.Device.State.{BedJetState, from_status}

abbrev pub Update : Type 0
Update = BedJetState × StatusPacket

pub record Reader : Type 0 where
  -- `_poll_interval is not None`
  pub polling : Bool
  -- the first part that an unfinished `_completion` task is completing
  pub completion : Option Bytes
  -- `_poll_task is not None`
  pub poll_task : Bool
  pub running : Bool
  -- whether the transport delivers notifications to `_on_notify`
  pub subscribed : Bool
  pub poke : Bool
  pub last_anomalies : Option (List Anomaly)
  pub logged_split_notice : Bool
  pub logged_read_failure : Bool
  pub logged_poll_shape : Bool
  pub logged_callback_failure : Bool
  pub packets_seen : ℕ
  pub partials_seen : ℕ
  pub rejected_checksum : ℕ
  pub rejected_not_a_packet : ℕ
  pub dropped_while_busy : ℕ
  pub polls : ℕ
  pub polls_whole : ℕ
  pub polls_partial : ℕ
  pub polls_alien : ℕ
  pub poll_failures : ℕ
  pub rtt_min : Option ℕ
  pub rtt_max : ℕ
  pub rtt_sum : ℕ
  pub published : List Update

-- `__init__`, for a poll interval that it accepts.
unfoldable pub new : Bool → Reader
new polling = record {
  polling = polling;
  completion = none;
  poll_task = false;
  running = false;
  subscribed = false;
  poke = false;
  last_anomalies = none;
  logged_split_notice = false;
  logged_read_failure = false;
  logged_poll_shape = false;
  logged_callback_failure = false;
  packets_seen = 0;
  partials_seen = 0;
  rejected_checksum = 0;
  rejected_not_a_packet = 0;
  dropped_while_busy = 0;
  polls = 0;
  polls_whole = 0;
  polls_partial = 0;
  polls_alien = 0;
  poll_failures = 0;
  rtt_min = none;
  rtt_max = 0;
  rtt_sum = 0;
  published = [];
}

unfoldable pub rejected : Reader → ℕ
rejected r = r.rejected_checksum + r.rejected_not_a_packet

-- `_publish`; `connected` is `transport.is_connected`.
unfoldable pub publish : Bool → StatusPacket → Reader → Reader
publish connected packet r =
    if is_trustworthy packet
    then record r {
      last_anomalies = some packet.anomalies;
      published = r.published ++ (from_status packet connected, packet) ∷ [];
    }
    else record r {
      last_anomalies = some packet.anomalies;
      rejected_checksum = r.rejected_checksum + 1;
    }

-- `start` once `transport.subscribe` has returned; `start` of a polling reader.
unfoldable pub start : Reader → Reader
start r =
    if r.polling
    then record r { poke = false; poll_task = true; running = true }
    else record r { subscribed = true; running = true }

-- `stop` up to its first `await` that lets notifications in: the poll task is gone, or the
-- completion is.
unfoldable pub stop_tasks : Reader → Reader
stop_tasks r =
    if r.running
    then if r.polling
      then record r { running = false; poll_task = false }
      else record r { running = false; completion = none }
    else r

-- The rest of `stop`, in notify mode: `transport.unsubscribe`.
unfoldable pub stop_subscription : Reader → Reader
stop_subscription r = if r.polling then r else record r { subscribed = false }

-- `stop`, when nothing happens meanwhile.
unfoldable pub stop : Reader → Reader
unfolding stop_tasks stop_subscription
stop r = if r.running then stop_subscription (stop_tasks r) else r

unfoldable pub set_poke : Reader → Reader
set_poke r = record r { poke = true }

-- `_on_notify`
unfoldable pub on_notify : Bool → Bytes → Reader → Reader
on_notify connected bytes r =
    let seen = record r { packets_seen = r.packets_seen + 1 } in
    let packet = decode_status bytes in
    if not (looks_like_packet_start bytes)
    then record seen { rejected_not_a_packet = r.rejected_not_a_packet + 1 }
    else if not (is_complete packet)
    then if is_some r.completion
      then record seen { dropped_while_busy = r.dropped_while_busy + 1 }
      else record seen {
        partials_seen = r.partials_seen + 1;
        logged_split_notice = true;
        completion = some bytes;
      }
    else publish connected packet seen

-- `_complete_partial` after its read: the remainder, or none where the read raised or timed out.
unfoldable pub complete_partial : Bool → Bytes → Option Bytes → Reader → Reader
complete_partial connected first none r = record r { completion = none; logged_read_failure = true }
complete_partial connected first (some remainder) r =
    publish connected (decode_status (reassemble first remainder)) (record r { completion = none })

-- `_classify_poll`
unfoldable pub classify_poll : Bool → Bytes → Reader → Reader
classify_poll connected bytes r =
    let packet = decode_status bytes in
    if looks_like_packet_start bytes
    then if is_complete packet
      then publish connected packet (record r { polls_whole = r.polls_whole + 1 })
      else record r { polls_partial = r.polls_partial + 1; logged_poll_shape = true }
    else record r { polls_alien = r.polls_alien + 1; logged_poll_shape = true }

abbrev min_of : Option ℕ → ℕ → ℕ
min_of none n = n
min_of (some m) n = min m n

-- `_record_rtt`
unfoldable pub record_rtt : ℕ → Reader → Reader
record_rtt time r = record r {
  rtt_sum = r.rtt_sum + time;
  rtt_min = some (min_of r.rtt_min time);
  rtt_max = max r.rtt_max time;
}

-- One round of `_poll_loop` whose read returned, after `time`, and whose callback raised or not.
unfoldable pub poll_read : Bool → Bytes → ℕ → Bool → Reader → Reader
poll_read connected bytes time raised r =
    let timed = record_rtt time r in
    let counted = record timed { polls = r.polls + 1; packets_seen = r.packets_seen + 1 } in
    let sorted = classify_poll connected bytes counted in
    record sorted {
      logged_callback_failure = if raised then true else r.logged_callback_failure;
      poke = false;
    }

-- One round of `_poll_loop` whose read raised. The wait behind either round ends with no poke set.
unfoldable pub poll_failed : Reader → Reader
poll_failed r = record r {
  poll_failures = r.poll_failures + 1;
  logged_read_failure = true;
  poke = false;
}
