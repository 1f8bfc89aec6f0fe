-- ===== src/Integrations/Http/Sockets/Tests.antt =====
-- A client that is sent two snapshots and leaves, and one that stays.
use mathlib.Core.List.{Sublistᴰ}
use bedjet_local.Prelude.{ℕ, ◌≡◌, refl, true, false, some, List, [], ◌∷◌, ◌++◌, All, get_elem?}
use bedjet_local.Integrations.Outbox.{enqueue, enqueue_loop, put_nowait, discard}
use bedjet_local.Integrations.Http.Sockets.{
  Socket, reading, sending, sent, woke, left, writer_awaited, socket_closed, arrived, Event,
  connected, published, turn, fire, run, accepted, on_snapshot, move_from, get_pending, end_sending,
  cancel, await_writer,
}
use bedjet_local.Integrations.Http.Sockets.Tidy.{IsTidy, run-IsTidy}
use bedjet_local.Integrations.Http.Sockets.Stream.{newest, in_flight, run_in_order}

abbrev evening : List (Event ℕ)
evening =
    connected 1
    ∷ turn 0 woke
    ∷ turn 0 (sent arrived)
    ∷ published 2
    ∷ published 3
    ∷ connected 3
    ∷ turn 0 woke
    ∷ published 4
    ∷ turn 1 left
    ∷ turn 1 writer_awaited
    ∷ turn 1 socket_closed
    ∷ []

abbrev staying : Socket ℕ
staying = record {
  place = reading;
  writer = sending 2;
  pending = 3 ∷ 4 ∷ [];
  subscribed = true;
  registered = true;
  closed = false;
  delivered = 1 ∷ [];
  offered = 1 ∷ 2 ∷ 3 ∷ 4 ∷ [];
  taken = 1 ∷ 2 ∷ [];
}

staying_there : ◌≡◌ (get_elem? (run evening []) 0) (some staying)
unfolding run fire accepted on_snapshot move_from get_pending end_sending cancel await_writer
    enqueue enqueue_loop put_nowait discard
staying_there = refl

run-IsTidy_example : All IsTidy (run evening [])
run-IsTidy_example = run-IsTidy evening

run_in_order_example :
    Sublistᴰ ((staying.delivered ++ in_flight staying.writer) ++ staying.pending) staying.offered
    × (newest ((staying.delivered ++ in_flight staying.writer) ++ staying.pending)
        ≡ newest staying.offered)
run_in_order_example = run_in_order evening 0 staying staying_there refl
