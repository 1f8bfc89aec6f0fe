-- ===== src/Integrations/Http/Sockets/Tidy.antt =====
-- What a websocket's handler leaves behind, in every order of its two tasks, the session and the
-- shutdown.
use bedjet_local.Prelude.{
  ℕ, zero, suc, ◌≡◌, refl, Bool, true, false, Option, none, some, List, [], ◌∷◌, ◌++◌, map,
  get_elem?, set, All, arith, if_both,
}
use bedjet_local.Integrations.Http.Sockets.{
  Place, reading, awaiting_writer, closing, finished, raised, Writer, waiting, sending, stopped,
  crashed, Socket, Move, on_snapshot, accepted, move_from, move, Event, connected, published, turn,
  heard, move_socket, fire, run, cancel, await_writer, get_pending, end_sending, close_registered,
}

module _ {ℓ κ} {A : Type ℓ} (P : Socket A → Type κ) where
  All-snoc : (s : Socket A) (ss : List (Socket A)) → P s → All P ss → All P (ss ++ s ∷ [])
  All-snoc s [] p a = (p, tt)
  All-snoc s (t ∷ ss) p a = (a.0, All-snoc s ss p a.1)

  All-heard :
      (x : A) (ss : List (Socket A))
      → ((s : Socket A) → P s → P (on_snapshot x s))
      → All P ss
      → All P (map (heard x) ss)
  All-heard x [] h a = tt
  All-heard x (s ∷ ss) h a = (if_both P s.subscribed (h s a.0) a.0, All-heard x ss h a.1)

  pub All-at :
      (ss : List (Socket A)) (i : ℕ) {s : Socket A} → All P ss → get_elem? ss i ≡ some s → P s
  All-at [] i a e = cc
  All-at (t ∷ ss) zero {s} a e = let q : t ≡ s = cc in rw (← q) a.0
  All-at (t ∷ ss) (suc i) a e = All-at ss i a.1 e

  All-set : (ss : List (Socket A)) (i : ℕ) (s : Socket A) → All P ss → P s → All P (set ss i s)
  All-set [] i s a p = tt
  All-set (t ∷ ss) zero s a p = (p, a.1)
  All-set (t ∷ ss) (suc i) s a p = (a.0, All-set ss i s a.1 p)

  All-moved :
      (m : Move) (ss : List (Socket A)) (i : ℕ) (o : Option (Socket A))
      → get_elem? ss i ≡ o
      → ((s : Socket A) → P s → P (move m s))
      → All P ss
      → All P (move_socket i m ss o)
  All-moved m ss i none e h a = a
  All-moved m ss i (some s) e h a = All-set ss i (move m s) a (h s (All-at ss i a e))

  -- What holds of each new socket and survives every snapshot and every move holds of all sockets.
  pub run-All :
      ((now : A) → P (accepted now))
      → ((x : A) (s : Socket A) → P s → P (on_snapshot x s))
      → ((m : Move) (s : Socket A) → P s → P (move m s))
      → (es : List (Event A)) (ss : List (Socket A)) → All P ss
      → All P (run es ss)
  unfolding fire run
  run-All new_ told moved [] ss a = a
  run-All new_ told moved (connected now ∷ es) ss a =
      run-All new_ told moved es _ (All-snoc (accepted now) ss (new_ now) a)
  run-All new_ told moved (published x ∷ es) ss a =
      run-All new_ told moved es _ (All-heard x ss (told x) a)
  run-All new_ told moved (turn i m ∷ es) ss a =
      run-All new_ told moved es _ (All-moved m ss i (get_elem? ss i) refl (moved m) a)

module _ {ℓ} {A : Type ℓ} where
  abbrev pub is_over : Writer A → Bool
  is_over waiting = false
  is_over (sending x) = false
  is_over stopped = true
  is_over crashed = true

  abbrev pub is_stopped : Writer A → Bool
  is_stopped stopped = true
  is_stopped _ = false

  abbrev pub is_crashed : Writer A → Bool
  is_crashed crashed = true
  is_crashed _ = false

  -- What stands of a socket where its handler stands.
  pub TidyAt : Place → Socket A → Type 0
  TidyAt reading s = (s.subscribed ≡ true) × (s.registered ≡ true)
  TidyAt awaiting_writer s =
      (s.subscribed ≡ false) × (s.registered ≡ true) × (is_over s.writer ≡ true)
  TidyAt closing s = (s.subscribed ≡ false) × (s.registered ≡ false) × (is_stopped s.writer ≡ true)
  TidyAt finished s =
      (s.subscribed ≡ false)
      × (s.registered ≡ false)
      × (is_stopped s.writer ≡ true)
      × (s.closed ≡ true)
  TidyAt raised s = (s.subscribed ≡ false) × (s.registered ≡ true) × (is_crashed s.writer ≡ true)

  abbrev pub IsTidy : Socket A → Type 0
  IsTidy s = TidyAt s.place s

  move-IsTidy : (m : Move) (s : Socket A) → IsTidy s → IsTidy (move m s)
  unfolding move_from TidyAt cancel await_writer get_pending end_sending close_registered
  move-IsTidy m s h = ground arith

  on_snapshot-IsTidy : (x : A) (s : Socket A) → IsTidy s → IsTidy (on_snapshot x s)
  unfolding on_snapshot TidyAt
  on_snapshot-IsTidy x s h = ground arith

  -- Whatever the order of events, a websocket's listener is with the session exactly while its
  -- handler reads messages, and once that has ended the writer sends nothing more. A handler that
  -- has returned has left no registration and a closed socket; only one that the writer's exception
  -- ended has left its socket among those of the application.
  pub run-IsTidy : (es : List (Event A)) → All IsTidy (run es [])
  unfolding accepted on_snapshot TidyAt
  run-IsTidy es = run-All IsTidy (λ now. (refl, refl)) on_snapshot-IsTidy move-IsTidy es [] tt
