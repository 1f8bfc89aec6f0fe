-- ===== src/Integrations/Http/Sockets/Stream.antt =====
-- What a websocket's client gets: the snapshots in order, and the newest one at last.
use mathlib.Core.List.{Sublistᴰ}
use bedjet_local.Prelude.{
  ℕ, zero, suc, ◌<◌, ◌≤◌, ◌≡◌, ◌⊎◌, inl, inr, refl, ap, sym, ◌∙◌, false, Option, none, some, List,
  [], ◌∷◌, ◌++◌, length, ltb, arith, if_both, get_elem?, Bool-cases,
}
use bedjet_local.Integrations.Outbox.{maxsize, enqueue, enqueue_loop, put_nowait, discard, or_same}
use bedjet_local.Integrations.Http.Sockets.{
  Place, reading, awaiting_writer, closing, Writer, waiting, sending, stopped, crashed, Socket,
  Move, woke, sent, left, writer_awaited, socket_closed, shut_down, peer_closed, Sending, arrived,
  dropped, failed, on_snapshot, accepted, unheard, move_from, Event, run, cancel, await_writer,
  get_pending, end_sending, close_registered,
}
use bedjet_local.Integrations.Http.Sockets.Tidy.{run-All, All-at, is_over}

module _ {ℓ} {A : Type ℓ} where
  newest_of : Option A → List A → Option A
  newest_of o [] = o
  newest_of o (x ∷ xs) = newest_of (some x) xs

  pub newest : List A → Option A
  unfolding newest_of
  newest xs = newest_of none xs

  newest-snoc : (xs : List A) (x : A) → newest (xs ++ x ∷ []) ≡ some x
  unfolding newest newest_of
  newest-snoc xs x = from none xs
    where
      from : (o : Option A) (ys : List A) → newest_of o (ys ++ x ∷ []) ≡ some x
      from o [] = refl
      from o (y ∷ ys) = from (some y) ys

  append_assoc : (xs ys zs : List A) → (xs ++ ys) ++ zs ≡ xs ++ (ys ++ zs)
  append_assoc [] ys zs = refl
  append_assoc (x ∷ xs) ys zs = ap (x ∷◌) (append_assoc xs ys zs)

  append_nil : (xs : List A) → xs ++ [] ≡ xs
  append_nil [] = refl
  append_nil (x ∷ xs) = ap (x ∷◌) (append_nil xs)

  Sublistᴰ-snoc : {xs ys : List A} (x : A) → Sublistᴰ xs ys → Sublistᴰ (xs ++ x ∷ []) (ys ++ x ∷ [])
  Sublistᴰ-snoc x Sublistᴰ.slnil = Sublistᴰ.cons-cons refl Sublistᴰ.slnil
  Sublistᴰ-snoc x (Sublistᴰ.cons s) = Sublistᴰ.cons (Sublistᴰ-snoc x s)
  Sublistᴰ-snoc x (Sublistᴰ.cons-cons e s) = Sublistᴰ.cons-cons e (Sublistᴰ-snoc x s)

  -- One element less in the middle.
  Sublistᴰ-less :
      {ws zs : List A} (xs : List A) (y : A) (q : List A)
      → Sublistᴰ ws zs
      → ws ≡ xs ++ y ∷ q
      → Sublistᴰ (xs ++ q) zs
  Sublistᴰ-less xs y q (Sublistᴰ.cons s) e = Sublistᴰ.cons (Sublistᴰ-less xs y q s e)
  Sublistᴰ-less [] y q Sublistᴰ.slnil e = absurd cc
  Sublistᴰ-less (x ∷ xs) y q Sublistᴰ.slnil e = absurd cc
  Sublistᴰ-less [] y q (Sublistᴰ.cons-cons {l₁} f s) e =
      let h : l₁ ≡ q = cc in Sublistᴰ.cons (rw (← h) s)
  Sublistᴰ-less (x ∷ xs) y q (Sublistᴰ.cons-cons {a} {l₁} f s) e =
      let h : l₁ ≡ xs ++ y ∷ q = cc in
      let g : x ≡ a = cc in Sublistᴰ.cons-cons (g ∙ f) (Sublistᴰ-less xs y q s h)

  -- The queue behind a new snapshot: some of the old ones in order, and the new one.
  data Enqueued (old : List A) (x : A) (new_ : List A) : Type ℓ where
    enqueued :
        (rest : List A)
        → new_ ≡ rest ++ x ∷ []
        → ((xs zs : List A) → Sublistᴰ (xs ++ old) zs → Sublistᴰ (xs ++ rest) zs)
        → Enqueued old x new_

  fewer-Enqueued : (y : A) (q : List A) (x : A) (r : List A) → Enqueued q x r → Enqueued (y ∷ q) x r
  fewer-Enqueued y q x r (enqueued rest e h) =
      enqueued rest e λ xs zs s. h xs zs (Sublistᴰ-less xs y q s refl)

  loop-Enqueued :
      (fuel size : ℕ) (x : A) (q : List A)
      → 1 ≤ size
      → length q < fuel
      → (r : List A) × (enqueue_loop fuel size x q ≡ some r) × Enqueued q x r
  unfolding enqueue_loop put_nowait discard
  loop-Enqueued zero size x q h l = absurd (omega arith)
  loop-Enqueued (suc fuel) size x [] h l = (x ∷ [], ground arith, enqueued [] refl λ xs zs s. s)
  loop-Enqueued (suc fuel) size x (y ∷ q) h l =
      let (r, e, f) = loop-Enqueued fuel size x q h (omega arith) in
      elim (Bool-cases (ltb (length (y ∷ q)) size)) [
        | inl room ↦ ((y ∷ q) ++ x ∷ [], ground arith, enqueued (y ∷ q) refl λ xs zs s. s)
        | inr full ↦ (r, ground arith, fewer-Enqueued y q x r f)
      ]

  enqueue-Enqueued : (x : A) (q : List A) → Enqueued q x (or_same q (enqueue maxsize x q))
  unfolding enqueue
  enqueue-Enqueued x q =
      let (r, e, f) = loop-Enqueued (suc (length q)) maxsize x q (omega arith) (omega arith) in
      rw e f

  -- What a socket has taken and holds, against all that it was offered.
  InOrder : Socket A → Type ℓ
  InOrder s =
      Sublistᴰ (s.taken ++ s.pending) s.offered × (newest (s.taken ++ s.pending) ≡ newest s.offered)

  -- Whether the writer has sent what it took.
  HasSent : Writer A → (delivered taken : List A) → Type ℓ
  HasSent waiting delivered taken = delivered ≡ taken
  HasSent (sending x) delivered taken = delivered ++ x ∷ [] ≡ taken
  HasSent _ delivered taken = (delivered ≡ taken) ⊎ ((x : A) × (delivered ++ x ∷ [] ≡ taken))

  Streams : Socket A → Type ℓ
  Streams s = InOrder s × HasSent s.writer s.delivered s.taken

  queued-Streams :
      (x : A) (q : List A) (s : Socket A)
      → Streams s
      → Enqueued s.pending x q
      → Streams (record s { pending = q; offered = s.offered ++ x ∷ [] })
  unfolding Streams InOrder
  queued-Streams x q s ((sub, new_), h) (enqueued rest e f) =
      let j : s.taken ++ q ≡ (s.taken ++ rest) ++ x ∷ [] =
        ap (s.taken ++◌) e ∙ sym (append_assoc s.taken rest (x ∷ [])) in
      (
        (
          rw j (Sublistᴰ-snoc x (f s.taken s.offered sub)),
          rw j (newest-snoc (s.taken ++ rest) x ∙ sym (newest-snoc s.offered x)),
        ),
        h,
      )

  on_snapshot-Streams : (x : A) (s : Socket A) → Streams s → Streams (on_snapshot x s)
  unfolding on_snapshot
  on_snapshot-Streams x s h =
      queued-Streams x (or_same s.pending (enqueue maxsize x s.pending)) s h
        (enqueue-Enqueued x s.pending)

  get-Streams :
      (q : List A) (s : Socket A)
      → s.pending ≡ q
      → s.writer ≡ waiting
      → Streams s
      → Streams (get_pending q s)
  unfolding get_pending Streams InOrder HasSent
  get-Streams [] s e w h = h
  get-Streams (x ∷ q) s e w ((sub, new_), h) =
      let j : (s.taken ++ x ∷ []) ++ q ≡ s.taken ++ s.pending =
        append_assoc s.taken (x ∷ []) q ∙ ap (s.taken ++◌) (sym e) in
      let k : s.delivered ≡ s.taken = rw w at h in
      let sent_on : s.delivered ++ x ∷ [] ≡ s.taken ++ x ∷ [] = ap (◌++ x ∷ []) k in
      (
        (rw j sub, rw j new_),
        if_both (λ w'. HasSent w' s.delivered (s.taken ++ x ∷ [])) s.closed (inr (x, sent_on))
            sent_on,
      )

  end-Streams :
      (o : Sending) (x : A) (s : Socket A)
      → s.writer ≡ sending x
      → Streams s
      → Streams (end_sending o x s)
  unfolding end_sending Streams InOrder HasSent
  end-Streams arrived x s w (i, h) = (i, rw w at h)
  end-Streams dropped x s w (i, h) = (i, inr (x, rw w at h))
  end-Streams failed x s w (i, h) = (i, inr (x, rw w at h))

  cancel-HasSent :
      (w : Writer A) (delivered taken : List A)
      → HasSent w delivered taken
      → HasSent (cancel w) delivered taken
  unfolding cancel HasSent
  cancel-HasSent waiting delivered taken h = inl h
  cancel-HasSent (sending x) delivered taken h = inr (x, h)
  cancel-HasSent stopped delivered taken h = h
  cancel-HasSent crashed delivered taken h = h

  await-Streams : (w : Writer A) (s : Socket A) → Streams s → Streams (await_writer w s)
  unfolding await_writer Streams InOrder
  await-Streams waiting s h = h
  await-Streams (sending x) s h = h
  await-Streams stopped s h = h
  await-Streams crashed s h = h

  move-Streams :
      (m : Move) (p : Place) (w : Writer A) (s : Socket A)
      → s.place ≡ p
      → s.writer ≡ w
      → Streams s
      → Streams (move_from m p w s)
  unfolding move_from Streams InOrder close_registered
  move-Streams woke p waiting s f g h = get-Streams s.pending s refl g h
  move-Streams (sent o) p (sending x) s f g h = end-Streams o x s g h
  move-Streams left reading w s f g (i, h) = (i, cancel-HasSent w s.delivered s.taken (rw g at h))
  move-Streams writer_awaited awaiting_writer w s f g h = await-Streams w s h
  move-Streams socket_closed closing w s f g h = h
  move-Streams shut_down p w s f g h = h
  move-Streams peer_closed p w s f g h = h
  move-Streams m p w s f g h = h

  accepted-Streams : (now : A) → Streams (accepted now)
  unfolding accepted Streams InOrder HasSent
  accepted-Streams now = on_snapshot-Streams now unheard ((Sublistᴰ.slnil, refl), refl)

  -- The snapshot in `send_json`.
  pub in_flight : Writer A → List A
  in_flight (sending x) = x ∷ []
  in_flight _ = []

  unsent_on :
      (w : Writer A) (delivered taken : List A)
      → is_over w ≡ false
      → HasSent w delivered taken
      → delivered ++ in_flight w ≡ taken
  unfolding HasSent in_flight
  unsent_on waiting delivered taken l h = append_nil delivered ∙ h
  unsent_on (sending x) delivered taken l h = h
  unsent_on stopped delivered taken l h = absurd cc
  unsent_on crashed delivered taken l h = absurd cc

  -- A client is told in order, and up to the newest: as long as its writer runs, what was delivered,
  -- then the snapshot on its way, then the queue, are snapshots of those that its listener was
  -- given, in the same order and none twice, and the last of them is the newest.
  pub run_in_order :
      (es : List (Event A)) (i : ℕ) (s : Socket A)
      → get_elem? (run es []) i ≡ some s
      → is_over s.writer ≡ false
      → Sublistᴰ ((s.delivered ++ in_flight s.writer) ++ s.pending) s.offered
        × (newest ((s.delivered ++ in_flight s.writer) ++ s.pending) ≡ newest s.offered)
  unfolding Streams InOrder
  run_in_order es i s e l =
      let ((sub, new_), h) =
        All-at Streams (run es []) i
          (run-All Streams accepted-Streams on_snapshot-Streams
            (λ m s. move-Streams m s.place s.writer s refl refl) es [] tt)
          e in
      rw (unsent_on s.writer s.delivered s.taken l h) (sub, new_)
