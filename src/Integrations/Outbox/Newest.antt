-- ===== src/Integrations/Outbox/Newest.antt =====
-- The bounded queue refines a reader of the whole log of snapshots that jumps over all but the
-- newest `size` of those it has not read.
use bedjet_local.Prelude.{
  ℕ, zero, suc, ◌+◌, ◌-◌, ◌≤◌, ◌<◌, ◌≡◌, refl, ap, true, false, none, some, List, [], ◌∷◌, ◌++◌,
  ltb, length, drop, max, get_elem?, arith, length-append, Bool-cases, inl, inr,
}
use bedjet_local.Integrations.Outbox.{
  put_nowait, discard, enqueue_loop, enqueue, Op, push, next, or_same, run_queue,
}

-- The log of all snapshots, and the position up to which it was read or given up.
pub record Reader {ℓ} (A : Type ℓ) : Type ℓ where
  pub log : List A
  pub position : ℕ

module _ {ℓ} {A : Type ℓ} where
  -- A new snapshot: at most `size` are left before the reader.
  abbrev pub add : ℕ → A → Reader A → Reader A
  add size x r = record {
    log = r.log ++ x ∷ [];
    position = max r.position (suc (length r.log) - size);
  }

  -- What the reader gets.
  unfoldable pub read_log : ℕ → List (Op A) → Reader A → List A × Reader A
  read_log size [] r = ([], r)
  read_log size (push x ∷ ops) r = read_log size ops (add size x r)
  read_log size (next ∷ ops) r =
      let waiting = read_log size ops r in
      let passed = read_log size ops (record r { position = suc r.position }) in
      elim (get_elem? r.log r.position) [ none ↦ waiting | some x ↦ (x ∷ passed.0, passed.1) ]

  -- A queue holds what its reader has before it.
  pub record Refines (size : ℕ) (q : List A) (r : Reader A) : Type ℓ where
    pub rest : q ≡ drop r.position r.log
    pub within : r.position ≤ length r.log
    pub bounded : length r.log ≤ r.position + size

  length-drop : (n : ℕ) (xs : List A) → length (drop n xs) ≡ length xs - n
  length-drop zero xs = omega arith
  length-drop (suc n) [] = omega arith
  length-drop (suc n) (x ∷ xs) = omega (arith, length-drop n xs)

  drop-append : (n : ℕ) (xs ys : List A) → n ≤ length xs → drop n (xs ++ ys) ≡ drop n xs ++ ys
  drop-append zero xs ys h = refl
  drop-append (suc n) [] ys h = absurd (omega arith)
  drop-append (suc n) (x ∷ xs) ys h = drop-append n xs ys (omega arith)

  discard-drop : (n : ℕ) (xs : List A) → discard (drop n xs) ≡ drop (suc n) xs
  unfolding discard
  discard-drop zero [] = refl
  discard-drop zero (x ∷ xs) = refl
  discard-drop (suc n) [] = refl
  discard-drop (suc n) (x ∷ xs) = discard-drop n xs

  -- With room the first round ends the loop.
  pub enqueue_room :
      (size : ℕ) (x : A) (q : List A) → length q < size → enqueue size x q ≡ some (q ++ x ∷ [])
  unfolding enqueue enqueue_loop put_nowait
  enqueue_room size x q h = ground arith

  -- A full queue loses its oldest snapshot, and the second round ends the loop.
  pub enqueue_full :
      (size : ℕ) (x : A) (q : List A)
      → length q ≡ size
      → 1 ≤ size
      → enqueue size x q ≡ some (discard q ++ x ∷ [])
  unfolding enqueue enqueue_loop put_nowait discard
  enqueue_full size x [] h n = absurd (omega arith)
  enqueue_full size x (y ∷ q) h n = ground arith

  next_of_drop :
      (n : ℕ) (xs q : List A) (x : A)
      → x ∷ q ≡ drop n xs
      → (get_elem? xs n ≡ some x) × (q ≡ drop (suc n) xs) × (n < length xs)
  next_of_drop zero [] q x h = absurd (cc)
  next_of_drop zero (y ∷ xs) q x h = (cc, cc, omega arith)
  next_of_drop (suc n) [] q x h = absurd (cc)
  next_of_drop (suc n) (y ∷ xs) q x h =
      let (found, left, inside) = next_of_drop n xs q x h in (found, left, omega arith)

  none_of_drop : (n : ℕ) (xs : List A) → [] ≡ drop n xs → get_elem? xs n ≡ none
  none_of_drop zero [] h = refl
  none_of_drop zero (y ∷ xs) h = absurd (cc)
  none_of_drop (suc n) [] h = refl
  none_of_drop (suc n) (y ∷ xs) h = none_of_drop n xs h

  module _ (size : ℕ) (room : 1 ≤ size) where
    enqueue-Refines :
        (x : A) (q : List A) (r : Reader A)
        → Refines size q r
        → Refines size (or_same q (enqueue size x q)) (add size x r)
    enqueue-Refines x q r h = elim (Bool-cases (ltb (length q) size)) [
      | inl below ↦
          let e : max r.position (suc (length r.log) - size) ≡ r.position =
            omega (arith, unread, below_size below) in
          rw (enqueue_room size x q (below_size below), e)
            (record {
              rest = cc (h.rest, drop-append r.position r.log (x ∷ []) h.within);
              within = omega (arith, longer, h.within);
              bounded = omega (arith, longer, unread, below_size below);
            })
      | inr full ↦
          let e : max r.position (suc (length r.log) - size) ≡ suc r.position =
            omega (arith, unread, at_size full, room) in
          rw (enqueue_full size x q (at_size full) room, e)
            (record {
              rest = cc (
                h.rest,
                discard-drop r.position r.log,
                drop-append (suc r.position) r.log (x ∷ [])
                    (omega (arith, unread, at_size full, room)),
              );
              within = omega (arith, longer, unread, at_size full, room);
              bounded = omega (arith, longer, h.bounded);
            })
    ]
      where
        longer : length (r.log ++ x ∷ []) ≡ length r.log + 1
        longer = length-append r.log (x ∷ [])

        unread : length q + r.position ≡ length r.log
        unread =
            let d = length-drop r.position r.log in
            let l : length q ≡ length (drop r.position r.log) = ap length h.rest in
            omega (arith, d, l, h.within)

        below_size : ltb (length q) size ≡ true → length q < size
        below_size t = ground arith

        at_size : ltb (length q) size ≡ false → length q ≡ size
        at_size t =
            let least : size ≤ length q = ground arith in omega (arith, least, unread, h.bounded)

    run-Refines :
        (ops : List (Op A)) (q : List A) (r : Reader A)
        → Refines size q r
        → ((run_queue size ops q).0 ≡ (read_log size ops r).0)
          × Refines size (run_queue size ops q).1 (read_log size ops r).1
    unfolding run_queue read_log
    run-Refines [] q r h = (refl, h)
    run-Refines (push x ∷ ops) q r h =
        run-Refines ops (or_same q (enqueue size x q)) (add size x r) (enqueue-Refines x q r h)
    run-Refines (next ∷ ops) [] r h =
        rw (read_log, none_of_drop r.position r.log h.rest) (run-Refines ops [] r h)
    run-Refines (next ∷ ops) (x ∷ q) r h =
        let (found, left, inside) = next_of_drop r.position r.log q x h.rest in
        let r' = record r { position = suc r.position } in
        let later =
          run-Refines ops q r'
            (record { rest = left; within = inside; bounded = omega (arith, h.bounded) }) in
        rw (read_log, found) (ap (x ∷◌) later.0, later.1)

    -- The bounded queue is a reader of the whole log: whatever the order of snapshots and reads, the
    -- consumer gets what this reader gets, in order, and the queue is what lies before it, so at
    -- most `size` snapshots, the newest among them.
    pub run_queue-Refines :
        (ops : List (Op A))
        → ((run_queue size ops []).0 ≡ (read_log size ops (record { log = []; position = 0 })).0)
          × Refines size
              (run_queue size ops []).1
              (read_log size ops (record { log = []; position = 0 })).1
    run_queue-Refines ops =
        run-Refines ops [] (record { log = []; position = 0 })
          (record { rest = refl; within = omega arith; bounded = omega arith })
