-- ===== src/Cli/Daemon.antt =====
-- cli.py: `_release`, the bounded shutdown of the daemons. Times are in milliseconds.
use bedjet_local.Prelude.{
  ℕ, suc, ◌+◌, ◌-◌, ◌≤◌, ◌≡◌, ◌↔◌, refl, subst, List, [], ◌∷◌, ltb, arith, Bool-cases, inl, inr,
  if◌then◌else◌,
}

-- `_SHUTDOWN_GRACE_S`
abbrev pub shutdown_grace : ℕ
shutdown_grace = 2500

-- How a step of the shutdown would end, left alone: it returns or raises after a while, or hangs.
-- `times_out` raises a TimeoutError of its own.
pub data Closing : Type 0 where
  returns : ℕ → Closing
  times_out : ℕ → Closing
  raises : ℕ → Closing
  hangs : Closing

-- How the shutdown ends: it reports a release, gives up, or raises.
pub data Shutdown : Type 0 where
  released abandoned failed : Shutdown

pub record Release : Type 0 where
  pub shutdown : Shutdown
  -- the steps that returned, and the time taken
  pub completed : ℕ
  pub elapsed : ℕ

unfoldable pub release : ℕ → List Closing → Release
release grace [] = record { shutdown = released; completed = 0; elapsed = 0 }
release grace (returns n ∷ closers) =
    let rest = release (grace - n) closers in
    if ltb grace n
    then record { shutdown = abandoned; completed = 0; elapsed = grace }
    else record rest { completed = suc rest.completed; elapsed = n + rest.elapsed }
release grace (times_out n ∷ closers) = record {
  shutdown = abandoned;
  completed = 0;
  elapsed = if ltb grace n then grace else n;
}
release grace (raises n ∷ closers) =
    if ltb grace n
    then record { shutdown = abandoned; completed = 0; elapsed = grace }
    else record { shutdown = failed; completed = 0; elapsed = n }
release grace (hangs ∷ closers) = record { shutdown = abandoned; completed = 0; elapsed = grace }

-- The time that steps take which all return.
abbrev pub Take : List Closing → ℕ → Type 0
Take [] total = total ≡ 0
Take (returns n ∷ closers) total = (n ≤ total) × Take closers (total - n)
Take (_ ∷ closers) total = ⊥

-- The shutdown never outlasts its grace, whatever the steps do, and it reports the release of the
-- link exactly when every step returned within it.
pub release_lem :
    (grace : ℕ) (closers : List Closing)
    → ((release grace closers).elapsed ≤ grace)
      × (((release grace closers).shutdown ≡ released)
          ↔ ((total : ℕ) × (total ≤ grace) × Take closers total))
unfolding release
release_lem grace [] = (omega arith, ((λ h. (0, omega arith, refl)), λ h. refl))
release_lem grace (returns n ∷ closers) = elim (Bool-cases (ltb grace n)) [
  | inl late ↦ (
    ground arith,
    ((λ h. absurd (ground arith)), λ h. absurd (let a = h.1 in let b = h.2.0 in ground arith)),
  )
  | inr timely ↦
      let rest = release_lem (grace - n) closers in
      let bound = rest.0 in
      (
        ground arith,
        (
          (λ h.
              let (total, within, take) = rest.1.0 (ground arith) in
              let same : total ≡ n + total - n = omega arith in
              (n + total, ground arith, (omega arith, subst (λ k. Take closers k) same take))),
          λ h.
              let within : h.0 - n ≤ grace - n = omega (arith, h.1) in
              let back = rest.1.1 (h.0 - n, within, h.2.1) in ground (arith, back),
        ),
      )
]
release_lem grace (times_out n ∷ closers) = (ground arith, ((λ h. absurd (cc)), λ h. absurd h.2))
release_lem grace (raises n ∷ closers) =
    (ground arith, ((λ h. absurd (ground arith)), λ h. absurd h.2))
release_lem grace (hangs ∷ closers) = (omega arith, ((λ h. absurd (cc)), λ h. absurd h.2))
