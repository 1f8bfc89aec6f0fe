-- ===== src/Service/Session/Backoff.antt =====
-- service/session.py: the reconnection attempts of `_supervise` that fail, one after another, with
-- `_backoff_or_power_on` behind each. The adapter's power-ons set an event that stays set; the world
-- decides when they come.
pub mod Paced
use bedjet_local.Prelude.{
  ℕ, ◌+◌, Bool, true, false, Option, none, some, List, [], ◌∷◌, ltb, if◌then◌else◌,
}
use bedjet_local.Service.Session.{next_backoff}

-- What the world does in a round that fails: the power-ons while the supervisor sleeps, how long the
-- attempt takes with the power-ons behind `clear`, and how far in the wait the next one comes.
pub record Trial : Type 0 where
  pub asleep : ℕ
  pub attempt : ℕ
  pub meanwhile : ℕ
  pub next_set : Option ℕ

pub record Retry : Type 0 where
  pub now : ℕ
  pub backoff : ℕ
  pub power_on : Bool
  -- for the record: the power-ons so far, and the waits that one of them cut short
  pub sets : ℕ
  pub early : ℕ

unfoldable pub first_retry : ℕ → Bool → ℕ → Retry
first_retry start is_set initial = record {
  now = start;
  backoff = initial;
  power_on = is_set;
  sets = 0;
  early = 0;
}

-- `wait_for(power_on.wait(), timeout=backoff)` over an event that is not set.
unfoldable pub await_power_on : ℕ → Option ℕ → Retry → Retry
await_power_on backoff none r = record r { now = r.now + backoff }
await_power_on backoff (some d) r =
    if ltb d backoff
    then record r { now = r.now + d; power_on = true; sets = r.sets + 1; early = r.early + 1 }
    else record r { now = r.now + backoff }

unfoldable pub backoff_or_power_on : ℕ → Option ℕ → Bool → Retry → Retry
unfolding await_power_on
backoff_or_power_on backoff next_set true r = record r { early = r.early + 1 }
backoff_or_power_on backoff next_set false r = await_power_on backoff next_set r

-- Power-ons come, and set the event.
unfoldable pub power_ons : ℕ → Retry → Retry
power_ons n r = record r { power_on = if ltb 0 n then true else r.power_on; sets = r.sets + n }

-- `power_on.clear()`
unfoldable pub disarm : Retry → Retry
disarm r = record r { power_on = false }

-- Up to the wait: the sleep, the clearing of the event, and the attempt.
unfoldable pub fail : ℕ → Trial → Retry → Retry
unfolding power_ons disarm
fail interval t r =
    let asleep = power_ons t.asleep (record r { now = r.now + interval }) in
    let armed = disarm asleep in
    power_ons t.meanwhile (record armed { now = armed.now + t.attempt })

unfoldable pub retry : ℕ → ℕ → Trial → Retry → Retry
unfolding fail backoff_or_power_on
retry interval limit t r =
    let failed = fail interval t r in
    let waited = backoff_or_power_on failed.backoff t.next_set failed.power_on failed in
    record waited { backoff = next_backoff limit waited.backoff }

unfoldable pub retry_all : ℕ → ℕ → List Trial → Retry → Retry
unfolding retry
retry_all interval limit [] r = r
retry_all interval limit (t ∷ ts) r = retry_all interval limit ts (retry interval limit t r)
