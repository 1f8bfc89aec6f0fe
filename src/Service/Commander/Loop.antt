-- ===== src/Service/Commander/Loop.antt =====
-- The verification loop: what it returns, that it ends, and what it leaves alone.
use mathlib.Core.List.{Memᴰ}
use bedjet_local.Prelude.{
  ℕ, ◌+◌, ◌≤◌, ◌<◌, ◌≡◌, ◌≢◌, ◌⊎◌, inl, inr, refl, Bool, true, false, Option, none, some, List, [],
  ◌∷◌, ◌++◌, arith, All,
}
use bedjet_local.Protocol.Packets.{is_trustworthy}
use bedjet_local.Device.State.{BedJetState}
use bedjet_local.Service.Reader.{Update}
use bedjet_local.Service.Commander.{
  Commander, Turn, on_state, deliver, Verification, verified, broken_assertion, out_of_turns, done,
  missing, look, verify_loop,
}

pub deliver-writes : (us : List Update) (c : Commander) → (deliver us c).writes ≡ c.writes
unfolding deliver
deliver-writes [] c = refl
deliver-writes (u ∷ us) c = deliver-writes us (on_state u c)

-- The latest update after a delivery is one of those delivered, if there was any.
pub latest-deliver :
    (us : List Update) (c : Commander) {u : Update}
    → (deliver us c).latest ≡ some u
    → (c.latest ≡ some u) ⊎ Memᴰ u us
unfolding deliver
latest-deliver [] c h = inl h
latest-deliver (v ∷ us) c {u} h = elim (latest-deliver us (on_state v c) h) [
  | inl e ↦ inr (Memᴰ.head (cc e))
  | inr m ↦ inr (Memᴰ.tail m)
]

-- If the event is set there is a latest update.
abbrev pub IsCoherent : Commander → Type 0
IsCoherent c = c.updated ≡ true → c.latest ≢ none

pub deliver-IsCoherent :
    (us : List Update) (c : Commander) → IsCoherent c → IsCoherent (deliver us c)
unfolding deliver on_state
deliver-IsCoherent [] c h = h
deliver-IsCoherent (u ∷ us) c h = deliver-IsCoherent us (on_state u c) (λ _ e. cc)

-- All that the rounds hear.
abbrev pub heard_in : List Turn → List Update
heard_in [] = []
heard_in (t ∷ ts) = t.heard ++ heard_in ts

pub look_done :
    (satisfied : BedJetState → Bool) (o : Option Update) (u : Update)
    → look satisfied o ≡ done u
    → (o ≡ some u) × (satisfied u.0 ≡ true) × (is_trustworthy u.1 ≡ true)
unfolding look
look_done satisfied none u h = cc
look_done satisfied (some v) u h = ground arith

look_found :
    (satisfied : BedJetState → Bool) (u : Update)
    → satisfied u.0 ≡ true
    → is_trustworthy u.1 ≡ true
    → look satisfied (some u) ≡ done u
unfolding look
look_found satisfied u s t = ground arith

look_missing :
    (satisfied : BedJetState → Bool) (o : Option Update) → look satisfied o ≡ missing → o ≡ none
unfolding look
look_missing satisfied none h = refl
look_missing satisfied (some v) h = ground arith

pub Memᴰ-append-left : {u : Update} (us vs : List Update) → Memᴰ u us → Memᴰ u (us ++ vs)
Memᴰ-append-left [] vs m = elim m [ ]
Memᴰ-append-left (v ∷ us) vs (Memᴰ.head e) = Memᴰ.head e
Memᴰ-append-left (v ∷ us) vs (Memᴰ.tail m) = Memᴰ.tail (Memᴰ-append-left us vs m)

pub Memᴰ-append-right : {u : Update} (us vs : List Update) → Memᴰ u vs → Memᴰ u (us ++ vs)
Memᴰ-append-right [] vs m = m
Memᴰ-append-right (v ∷ us) vs m = Memᴰ.tail (Memᴰ-append-right us vs m)

abbrev pub is_verified : Verification → Bool
is_verified (verified _) = true
is_verified _ = false

-- After a delivery that ends in `u` the event is set and `u` is the latest.
deliver-snoc :
    (us : List Update) (u : Update) (c : Commander)
    → ((deliver (us ++ u ∷ []) c).latest ≡ some u) × ((deliver (us ++ u ∷ []) c).updated ≡ true)
unfolding deliver on_state
deliver-snoc [] u c = (refl, refl)
deliver-snoc (v ∷ us) u c = deliver-snoc us u (on_state v c)

module _ (deadline : ℕ) (satisfied : BedJetState → Bool) where
  pub verify_loop-writes :
      (ts : List Turn) (c : Commander) → (verify_loop deadline satisfied ts c).1.writes ≡ c.writes
  unfolding verify_loop
  verify_loop-writes [] c = refl
  verify_loop-writes (t ∷ ts) c =
      let c' = deliver t.heard c in
      ground (
        arith,
        deliver-writes t.heard c,
        verify_loop-writes ts (record c' { updated = false; pokes = c'.pokes + 1 }),
        verify_loop-writes ts (record c' { pokes = c'.pokes + 1 }),
        verify_loop-writes ts (record c' { updated = false }),
      )

  -- What the loop takes for a confirmation is satisfied and trustworthy.
  pub verify_loop_sound :
      (ts : List Turn) (c : Commander) {u : Update}
      → (verify_loop deadline satisfied ts c).0 ≡ verified u
      → (satisfied u.0 ≡ true) × (is_trustworthy u.1 ≡ true)
  unfolding verify_loop
  verify_loop_sound [] c h = cc
  verify_loop_sound (t ∷ ts) c {u} h =
      let c' = deliver t.heard c in
      ground (
        arith,
        verify_loop_sound ts (record c' { pokes = c'.pokes + 1 }) {u = u},
        verify_loop_sound ts (record c' { updated = false }) {u = u},
        look_done satisfied c'.latest u,
      )

  -- The assertion in the loop holds.
  pub verify_loop_asserts :
      (ts : List Turn) (c : Commander)
      → IsCoherent c
      → (verify_loop deadline satisfied ts c).0 ≢ broken_assertion
  unfolding verify_loop
  verify_loop_asserts [] c i h = cc
  verify_loop_asserts (t ∷ ts) c i h =
      let c' = deliver t.heard c in
      let i' = deliver-IsCoherent t.heard c i in
      ground (
        arith,
        verify_loop_asserts ts (record c' { pokes = c'.pokes + 1 }) i',
        verify_loop_asserts ts (record c' { updated = false }) (λ e _. cc),
        look_missing satisfied c'.latest,
        i',
      )

  -- The loop ends: a round whose clock has reached the deadline is the last.
  pub verify_loop_ends :
      (ts : List Turn) (late : Turn) (rest : List Turn) (c : Commander)
      → deadline ≤ late.now
      → (verify_loop deadline satisfied (ts ++ late ∷ rest) c).0 ≢ out_of_turns
  unfolding verify_loop
  verify_loop_ends [] late rest c l h = ground arith
  verify_loop_ends (t ∷ ts) late rest c l h =
      let c' = deliver t.heard c in
      ground (
        arith,
        verify_loop_ends ts late rest (record c' { pokes = c'.pokes + 1 }) l,
        verify_loop_ends ts late rest (record c' { updated = false }) l,
      )

  -- The confirmation was heard by the loop, or was the latest update before it.
  pub verify_loop_fresh :
      (ts : List Turn) (c : Commander) {u : Update}
      → (verify_loop deadline satisfied ts c).0 ≡ verified u
      → (c.latest ≡ some u) ⊎ Memᴰ u (heard_in ts)
  unfolding verify_loop
  verify_loop_fresh [] c h = cc
  verify_loop_fresh (t ∷ ts) c {u} h =
      let c' = deliver t.heard c in
      ground (
        arith,
        verify_loop_fresh ts (record c' { pokes = c'.pokes + 1 }) {u = u},
        verify_loop_fresh ts (record c' { updated = false }) {u = u},
        look_done satisfied c'.latest u,
        latest-deliver t.heard c {u = u},
        Memᴰ-append-left {u = u} t.heard (heard_in ts),
        Memᴰ-append-right {u = u} t.heard (heard_in ts),
      )

  -- A device that does what it was asked is believed: a round before the deadline that ends in a
  -- trustworthy, satisfied update confirms the command, if an earlier round has not.
  pub verify_loop_confirms :
      (ts : List Turn) (t : Turn) (rest : List Turn) (us : List Update) (u : Update) (c : Commander)
      → IsCoherent c
      → All (λ s. s.now < deadline) ts
      → t.now < deadline
      → t.heard ≡ us ++ u ∷ []
      → satisfied u.0 ≡ true
      → is_trustworthy u.1 ≡ true
      → is_verified (verify_loop deadline satisfied (ts ++ t ∷ rest) c).0 ≡ true
  unfolding verify_loop
  verify_loop_confirms [] t rest us u c i before now e s tr =
      rw e (ground (arith, deliver-snoc us u c, look_found satisfied u s tr))
  verify_loop_confirms (x ∷ ts) t rest us u c i before now e s tr =
      let c' = deliver x.heard c in
      let i' = deliver-IsCoherent x.heard c i in
      ground (
        arith,
        verify_loop_confirms ts t rest us u (record c' { pokes = c'.pokes + 1 }) i' before.1 now e s
            tr,
        verify_loop_confirms ts t rest us u (record c' { updated = false }) (λ e _. cc) before.1 now
            e s tr,
        look_missing satisfied c'.latest,
        i',
      )
