-- ===== src/Integrations/Http/Sockets.antt =====
-- integrations/http_ws.py: the websockets. Each is a handler (`handle_ws`) with a writer task
-- (`_pump`) and a bounded queue between them, cut at their awaits, over snapshots of any type.
pub mod Tidy
pub mod Stream
mod Tests
use bedjet_local.Prelude.{
  ℕ, Bool, true, false, Option, none, some, List, [], ◌∷◌, ◌++◌, map, get_elem?, set, if◌then◌else◌,
  ◌||◌,
}
use bedjet_local.Integrations.Outbox.{maxsize, enqueue, or_same}

-- Where `handle_ws` stands: in its loop over messages, in the `finally` at `await writer` or at
-- `socket.close()`, or at its end; `raised` is the end that an exception of the writer makes.
pub data Place : Type 0 where
  reading awaiting_writer closing finished raised : Place

-- Where `_pump` stands: at `pending.get()`, in `send_json`, or at its end.
pub data Writer {ℓ} (A : Type ℓ) : Type ℓ where
  waiting : Writer A
  sending : A → Writer A
  stopped crashed : Writer A

pub record Socket {ℓ} (A : Type ℓ) : Type ℓ where
  pub place : Place
  pub writer : Writer A
  pub pending : List A
  -- whether the listener is with the session, and the socket among those of the application
  pub subscribed : Bool
  pub registered : Bool
  pub closed : Bool
  -- the snapshots whose `send_json` returned
  pub delivered : List A
  -- for the record: the calls of `on_snapshot`, and what `pending.get()` returned
  pub offered : List A
  pub taken : List A

-- How `send_json` ends: ConnectionResetError and RuntimeError are `dropped`.
pub data Sending : Type 0 where
  arrived dropped failed : Sending

-- The stretches of the two tasks: the writer wakes with a snapshot, a send ends, the loop over
-- messages is left, and the two awaits of the `finally`; `shut_down` is a `close` of
-- `_close_sockets`, and `peer_closed` the end of the connection.
pub data Move : Type 0 where
  woke : Move
  sent : Sending → Move
  left writer_awaited socket_closed shut_down peer_closed : Move

module _ {ℓ} {A : Type ℓ} where
  -- `on_snapshot`
  unfoldable pub on_snapshot : A → Socket A → Socket A
  on_snapshot x s = record s {
    pending = or_same s.pending (enqueue maxsize x s.pending);
    offered = s.offered ++ x ∷ [];
  }

  -- The socket among those of the application, its listener with the session, nothing queued.
  abbrev pub unheard : Socket A
  unheard = record {
    place = reading;
    writer = waiting;
    pending = [];
    subscribed = true;
    registered = true;
    closed = false;
    delivered = [];
    offered = [];
    taken = [];
  }

  -- `handle_ws` from `sockets.add` to the first message, given `api.snapshot()`.
  unfoldable pub accepted : A → Socket A
  unfolding on_snapshot
  accepted now = on_snapshot now unheard

  -- `pending.get()` has returned: the snapshot is sent, unless the socket is closed.
  unfoldable pub get_pending : List A → Socket A → Socket A
  get_pending [] s = s
  get_pending (x ∷ rest) s = record s {
    pending = rest;
    taken = s.taken ++ x ∷ [];
    writer = if s.closed then stopped else sending x;
  }

  unfoldable pub end_sending : Sending → A → Socket A → Socket A
  end_sending arrived x s = record s { writer = waiting; delivered = s.delivered ++ x ∷ [] }
  end_sending dropped x s = record s { writer = stopped }
  end_sending failed x s = record s { writer = crashed }

  -- `writer.cancel()`: a task that has ended stays as it is.
  unfoldable pub cancel : Writer A → Writer A
  cancel waiting = stopped
  cancel (sending x) = stopped
  cancel stopped = stopped
  cancel crashed = crashed

  -- `await writer` raises what the writer raised; `sockets.discard` follows it.
  unfoldable pub await_writer : Writer A → Socket A → Socket A
  await_writer crashed s = record s { place = raised }
  await_writer _ s = record s { place = closing; registered = false }

  unfoldable pub close_registered : Socket A → Socket A
  close_registered s = record s { closed = s.registered || s.closed }

  unfoldable pub move_from : Move → Place → Writer A → Socket A → Socket A
  unfolding get_pending end_sending cancel await_writer close_registered
  move_from woke place waiting s = get_pending s.pending s
  move_from (sent outcome) place (sending x) s = end_sending outcome x s
  move_from left reading writer s = record s {
    place = awaiting_writer;
    writer = cancel writer;
    subscribed = false;
  }
  move_from writer_awaited awaiting_writer writer s = await_writer writer s
  move_from socket_closed closing writer s = record s { place = finished; closed = true }
  move_from shut_down place writer s = close_registered s
  move_from peer_closed place writer s = record s { closed = true }
  move_from _ place writer s = s

  abbrev pub move : Move → Socket A → Socket A
  move m s = move_from m s.place s.writer s

-- An event: a client connects, the session publishes, or a socket makes a move.
pub data Event {ℓ} (A : Type ℓ) : Type ℓ where
  connected : A → Event A
  published : A → Event A
  turn : ℕ → Move → Event A

module _ {ℓ} {A : Type ℓ} where
  abbrev pub heard : A → Socket A → Socket A
  heard x s = if s.subscribed then on_snapshot x s else s

  abbrev pub move_socket : ℕ → Move → List (Socket A) → Option (Socket A) → List (Socket A)
  move_socket i m sockets none = sockets
  move_socket i m sockets (some s) = set sockets i (move m s)

  unfoldable pub fire : Event A → List (Socket A) → List (Socket A)
  fire (connected now) sockets = sockets ++ accepted now ∷ []
  fire (published x) sockets = map (heard x) sockets
  fire (turn i m) sockets = move_socket i m sockets (get_elem? sockets i)

  unfoldable pub run : List (Event A) → List (Socket A) → List (Socket A)
  unfolding fire
  run [] sockets = sockets
  run (e ∷ es) sockets = run es (fire e sockets)
