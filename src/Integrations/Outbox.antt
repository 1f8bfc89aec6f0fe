-- ===== src/Integrations/Outbox.antt =====
-- integrations/mqtt.py, `MqttBridge._enqueue`, and integrations/http_ws.py, `on_snapshot` in
-- `handle_ws`: the bounded queue of snapshots in which the newest wins. `put_nowait` and
-- `get_nowait` are those of `asyncio.Queue`, whose exceptions are `none`.
pub mod Newest
use bedjet_local.Prelude.{
  ℕ, zero, suc, ◌+◌, Bool, true, false, Option, none, some, List, [], ◌∷◌, ◌++◌, ltb, length,
  if◌then◌else◌,
}

-- `asyncio.Queue(maxsize=16)`
abbrev pub maxsize : ℕ
maxsize = 16

module _ {ℓ} {A : Type ℓ} where
  unfoldable pub put_nowait : ℕ → A → List A → Option (List A)
  put_nowait size x q = if ltb (length q) size then some (q ++ x ∷ []) else none

  unfoldable pub get_nowait : List A → Option (A × List A)
  get_nowait [] = none
  get_nowait (x ∷ q) = some (x, q)

  -- The queue after `with suppress(QueueEmpty): get_nowait()`.
  unfoldable pub discard : List A → List A
  discard [] = []
  discard (x ∷ q) = q

  -- `while True`, on fuel; `none` is a loop that still runs.
  unfoldable pub enqueue_loop : ℕ → ℕ → A → List A → Option (List A)
  unfolding put_nowait discard
  enqueue_loop zero size x q = none
  enqueue_loop (suc fuel) size x q =
      let again = enqueue_loop fuel size x (discard q) in
      elim (put_nowait size x q) [ some q' ↦ some q' | none ↦ again ]

  -- `_enqueue`: each round but the last takes one snapshot out.
  unfoldable pub enqueue : ℕ → A → List A → Option (List A)
  unfolding enqueue_loop
  enqueue size x q = enqueue_loop (suc (length q)) size x q

-- What the producer and the consumer do: `_enqueue`, and `get` where there is something to get.
pub data Op {ℓ} (A : Type ℓ) : Type ℓ where
  push : A → Op A
  next : Op A

module _ {ℓ} {A : Type ℓ} where
  abbrev pub or_same : List A → Option (List A) → List A
  or_same q none = q
  or_same q (some q') = q'

  -- What the consumer gets, in order, and what is left; a `get` of an empty queue waits.
  unfoldable pub run_queue : ℕ → List (Op A) → List A → List A × List A
  unfolding enqueue
  run_queue size [] q = ([], q)
  run_queue size (push x ∷ ops) q = run_queue size ops (or_same q (enqueue size x q))
  run_queue size (next ∷ ops) [] = run_queue size ops []
  run_queue size (next ∷ ops) (x ∷ q) = let rest = run_queue size ops q in (x ∷ rest.0, rest.1)
