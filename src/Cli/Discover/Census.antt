-- ===== src/Cli/Discover/Census.antt =====
-- When the exit status of `discover` is 0.
use text.Mathlib.Text.{◌==◌ as same_text}
use text.Mathlib.TextEquality.{eq_iff}
use bedjet_local.Prelude.{
  ◌≡◌, ◌≢◌, ◌↔◌, refl, ap, inl, inr, String, Bool, true, Option, List, [], ◌∷◌, All, arith,
  Bool-cases,
}
use bedjet_local.Python.Result.{Result, ok, err}
use bedjet_local.Device.Registry.{Entry, KnownDevice, Devices, load}
use bedjet_local.Transport.Contract.{Raised}
use bedjet_local.Transport.Ble.{Answer}
use bedjet_local.Transport.Ble.Scan.{Advertisement}
use bedjet_local.Cli.{exited}
use bedjet_local.Cli.Discover.{
  Seen, is_seen, survey, missing_devices, unless_missing, status, discover,
}
use bedjet_local.Cli.Discover.Sightings.{
  or_iff, Sighted, AllScanned, survey-Sighted, survey_scanned, scanned_survey,
}

module _ (lower upper : String → String) (all_devices : Bool) where
  missing_lem :
      (known : Devices) (seen : Seen)
      → (missing_devices lower upper known seen ≡ [])
        ↔ All (λ k. is_seen (lower k.1.address) seen ≡ true) known
  unfolding missing_devices
  missing_lem [] seen = ((λ h. tt), λ h. refl)
  missing_lem ((k, e) ∷ known) seen = elim (Bool-cases (is_seen (lower e.address) seen)) [
    | inl found ↦
        let (out, back) = missing_lem known seen in
        ((λ h. (found, out (rw found at h))), λ h. rw found (back h.1))
    | inr absent ↦ ((λ h. absurd (ground arith)), λ h. absurd (let e = h.0 in cc))
  ]

  status_zero :
      (known : Devices) (seen : Seen)
      → (status lower upper known seen ≡ 0)
        ↔ ((seen ≢ []) × (missing_devices lower upper known seen ≡ []))
  unfolding status
  status_zero known [] = ((λ h. absurd (cc)), λ h. absurd (h.0 refl))
  status_zero known (s ∷ seen) = zero_if (missing_devices lower upper known (s ∷ seen))
    where
      zero_if : (ms : List KnownDevice) → (unless_missing ms ≡ 0) ↔ ((s ∷ seen ≢ []) × (ms ≡ []))
      zero_if [] = ((λ h. ((λ e. cc), refl)), λ h. refl)
      zero_if (m ∷ ms) = ((λ h. absurd (cc)), λ h. absurd (let e = h.1 in cc))

  seen_some : (seen : Seen) → (seen ≢ []) ↔ ((x : String) × (is_seen x seen ≡ true))
  unfolding is_seen
  seen_some [] = ((λ h. absurd (h refl)), λ h. absurd (let e = h.1 in cc))
  seen_some ((a, samples) ∷ seen) = (
    (λ h. (a, (or_iff (same_text a a) (is_seen a seen)).1 (inl ((eq_iff a a).1 refl)))),
    λ h e. cc,
  )

  -- What a survey that returned has seen.
  module _ (rounds : List (Answer (List Advertisement))) (seen : Seen)
      (surveyed : survey lower upper all_devices rounds [] ≡ ok seen) where
    seen_iff : (x : String) → (is_seen x seen ≡ true) ↔ Sighted lower upper all_devices x rounds
    unfolding is_seen
    seen_iff x =
        let (out, back) = survey-Sighted lower upper all_devices x rounds [] seen surveyed in
        ((λ h. elim (out h) [ inl s ↦ s | inr e ↦ absurd (cc) ]), λ s. back (inl s))

    known_iff :
        (known : Devices)
        → All (λ k. is_seen (lower k.1.address) seen ≡ true) known
          ↔ All (λ k. Sighted lower upper all_devices (lower k.1.address) rounds) known
    known_iff [] = ((λ h. tt), λ h. tt)
    known_iff ((k, d) ∷ known) =
        let (out, back) = seen_iff (lower d.address) in
        let (outs, backs) = known_iff known in
        ((λ h. (out h.0, outs h.1)), λ h. (back h.0, backs h.1))

  -- `discover` ends with status 0 exactly when every scan returned, one of them listed a device, and
  -- every registered device was listed by one of them, whatever the case of its address.
  pub discover_zero :
      (registry : Option (List Entry)) (rounds : List (Answer (List Advertisement)))
      → (discover lower upper registry all_devices rounds ≡ exited 0) ↔ (
          AllScanned lower upper all_devices rounds
          × ((x : String) × Sighted lower upper all_devices x rounds)
          × All
              (λ k. Sighted lower upper all_devices (lower k.1.address) rounds)
              (load lower registry))
  unfolding discover
  discover_zero registry rounds = ended (survey lower upper all_devices rounds []) refl
    where
      ended :
          (r : Result Raised Seen)
          → survey lower upper all_devices rounds [] ≡ r
          → ((elim r [
            | ok seen ↦ exited (status lower upper (load lower registry) seen)
            | err e ↦ exited 1
          ])
              ≡ exited 0)
            ↔ (AllScanned lower upper all_devices rounds
                × ((x : String) × Sighted lower upper all_devices x rounds)
                × All
                    (λ k. Sighted lower upper all_devices (lower k.1.address) rounds)
                    (load lower registry))
      ended (err e) q = (
        (λ h. absurd (cc)),
        λ h. absurd (let (s, p) = scanned_survey lower upper all_devices rounds [] h.0 in cc),
      )
      ended (ok seen) q = (
        (λ h.
            let z = (status_zero (load lower registry) seen).0 (cc) in
            let (x, e) = (seen_some seen).0 z.0 in
            (
              survey_scanned lower upper all_devices rounds [] {after_ = seen} q,
              (x, (seen_iff rounds seen q x).0 e),
              (known_iff rounds seen q (load lower registry)).0
                  ((missing_lem (load lower registry) seen).0 z.1),
            )),
        λ h.
            let some_one = (seen_some seen).1 (h.1.0, (seen_iff rounds seen q h.1.0).1 h.1.1) in
            let none_missing =
              (missing_lem (load lower registry) seen).1
                ((known_iff rounds seen q (load lower registry)).1 h.2) in
            ap exited ((status_zero (load lower registry) seen).1 (some_one, none_missing)),
      )
