-- ===== src/Service/Session/Backoff/Paced.antt =====
-- service/session.py, `_supervise` and `_backoff_or_power_on`: how a run of failing attempts is paced.
use native.Mathlib.Nat.{mul_assoc, suc-mul}
use native.Mathlib.Numerals.{unary_clauses}
use bedjet_local.Prelude.{
  ℕ, zero, suc, ◌+◌, ◌*◌, ◌^◌, ◌≡◌, ◌≤◌, ◌∙◌, ◌⊎◌, inl, inr, sym, ap, refl, Bool, List, [], ◌∷◌,
  length, min, arith,
}
use bedjet_local.Service.Session.{next_backoff}
use bedjet_local.Service.Session.Backoff.{
  Trial, Retry, first_retry, await_power_on, backoff_or_power_on, power_ons, disarm, fail, retry,
  retry_all,
}

-- The supervisor's wait after `n` failures in a row.
unfoldable pub backoff_after : ℕ → ℕ → ℕ → ℕ
unfolding next_backoff
backoff_after limit b zero = b
backoff_after limit b (suc n) = next_backoff limit (backoff_after limit b n)

-- The wait doubles from one failure to the next, up to the bound.
pub backoff_doubles : (limit b n : ℕ) → b ≤ limit → backoff_after limit b n ≡ min (b * 2 ^ n) limit
unfolding backoff_after next_backoff
backoff_doubles limit b zero h = ground arith
backoff_doubles limit b (suc n) h =
    let p : 2 ^ suc n ≡ 2 ^ n * 2 = simp unary_clauses refl in
    let e : b * 2 ^ suc n ≡ b * 2 ^ n * 2 = rw p (sym (mul_assoc b (2 ^ n) 2)) in
    ground (arith, backoff_doubles limit b n h, e)

backoff_after-next :
    (limit b n : ℕ) → backoff_after limit (next_backoff limit b) n ≡ backoff_after limit b (suc n)
unfolding backoff_after
backoff_after-next limit b zero = refl
backoff_after-next limit b (suc n) = ap (next_backoff limit) (backoff_after-next limit b n)

module _ (interval limit : ℕ) where
  retry-backoff :
      (t : Trial) (r : Retry) → (retry interval limit t r).backoff ≡ next_backoff limit r.backoff
  unfolding retry fail backoff_or_power_on await_power_on power_ons disarm
  retry-backoff t r = ground arith

  retry_all-backoff :
      (ts : List Trial) (r : Retry)
      → (retry_all interval limit ts r).backoff ≡ backoff_after limit r.backoff (length ts)
  unfolding retry_all backoff_after
  retry_all-backoff [] r = refl
  retry_all-backoff (t ∷ ts) r =
      retry_all-backoff ts (retry interval limit t r)
      ∙ ap (λ b. backoff_after limit b (length ts)) (retry-backoff t r)
      ∙ backoff_after-next limit r.backoff (length ts)

  -- The event was cleared in this round, so that an early attempt has its own power-on.
  retry_early :
      (t : Trial) (r : Retry)
      → r.early ≤ r.sets
      → (retry interval limit t r).early ≤ (retry interval limit t r).sets
  unfolding retry fail backoff_or_power_on await_power_on power_ons disarm
  retry_early t r h = ground arith

  -- A round sleeps, and then either waits in full or is cut short once.
  retry_waits :
      (t : Trial) (r : Retry)
      → ((retry interval limit t r).early ≡ suc r.early)
          × (r.now + interval ≤ (retry interval limit t r).now)
        ⊎ ((retry interval limit t r).early ≡ r.early)
          × (r.now + interval + r.backoff ≤ (retry interval limit t r).now)
  unfolding retry fail backoff_or_power_on await_power_on power_ons disarm
  retry_waits t r = grind arith

  retry_all_early :
      (ts : List Trial) (r : Retry)
      → r.early ≤ r.sets
      → (retry_all interval limit ts r).early ≤ (retry_all interval limit ts r).sets
  unfolding retry_all
  retry_all_early [] r h = h
  retry_all_early (t ∷ ts) r h = retry_all_early ts (retry interval limit t r) (retry_early t r h)

  module _ (initial : ℕ) (allowed : initial ≤ limit) where
    retry_slow :
        (t : Trial) (r : Retry)
        → initial ≤ r.backoff
        → r.now + (interval + initial) + r.early * initial
          ≤ (retry interval limit t r).now + (retry interval limit t r).early * initial
    retry_slow t r h = elim (retry_waits t r) [
      | inl (e, p) ↦ rw e (rw (suc-mul r.early initial) (omega arith))
      | inr (e, p) ↦ rw e (omega arith)
    ]

    retry_all_slow :
        (ts : List Trial) (r : Retry)
        → initial ≤ r.backoff
        → r.now + length ts * (interval + initial) + r.early * initial
          ≤ (retry_all interval limit ts r).now + (retry_all interval limit ts r).early * initial
    unfolding retry_all next_backoff
    retry_all_slow [] r h = omega arith
    retry_all_slow (t ∷ ts) r h =
        let r' = retry interval limit t r in
        let h' : initial ≤ r'.backoff = rw (retry-backoff t r) (ground arith) in
        rw (suc-mul (length ts) (interval + initial))
          (omega (arith, retry_slow t r h, retry_all_slow ts r' h'))

-- Whatever the adapter does while reconnecting fails: at most as many waits are cut short as it
-- powered on, also where its event was set before, so that a power-on buys one early attempt at most;
-- the attempts take at least the pause each, and the initial backoff for each wait that was not cut
-- short; and the backoff has doubled with every failure, cut short or not, up to its bound.
pub retry_paced :
    (interval limit initial start : ℕ) (is_set : Bool) (ts : List Trial)
    → initial ≤ limit
    → let r = retry_all interval limit ts (first_retry start is_set initial) in
      (r.early ≤ r.sets)
      × (start + length ts * (interval + initial) ≤ r.now + r.early * initial)
      × (r.backoff ≡ min (initial * 2 ^ length ts) limit)
unfolding first_retry
retry_paced interval limit initial start is_set ts h =
    let r = first_retry start is_set initial in
    (
      retry_all_early interval limit ts r (omega arith),
      omega (arith, retry_all_slow interval limit initial h ts r (omega arith)),
      retry_all-backoff interval limit ts r ∙ backoff_doubles limit initial (length ts) h,
    )
