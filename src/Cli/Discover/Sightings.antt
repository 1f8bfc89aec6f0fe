-- ===== src/Cli/Discover/Sightings.antt =====
-- What the scans of `discover` have seen.
use mathlib.Core.List.{Memᴰ}
use text.Mathlib.Text.{◌==◌ as same_text}
use text.Mathlib.TextEquality.{eq_iff}
use bedjet_local.Prelude.{
  ◌≡◌, ◌↔◌, ◌⊎◌, refl, sym, subst, ap, ◌∙◌, inl, inr, String, Bool, true, false, ◌||◌, List, [],
  ◌∷◌, All, if_known,
}
use bedjet_local.Python.Result.{Result, ok, err}
use bedjet_local.Transport.Contract.{Raised}
use bedjet_local.Transport.Ble.{Answer}
use bedjet_local.Transport.Ble.Scan.{Advertisement, DiscoveredDevice, scan}
use bedjet_local.Cli.Discover.{Seen, note, is_seen, note_all, survey}

or_again : (p q : Bool) → p || q ≡ (p || (p || q))
or_again true q = refl
or_again false q = refl

or_swap : (p q r : Bool) → p || (q || r) ≡ (q || (p || r))
or_swap true true r = refl
or_swap true false r = refl
or_swap false true r = refl
or_swap false false r = refl

note-is_seen :
    (x address : String) (d : DiscoveredDevice) (seen : Seen)
    → is_seen x (note address d seen) ≡ (same_text address x || is_seen x seen)
unfolding note is_seen
note-is_seen x address d [] = refl
note-is_seen x address d ((a, samples) ∷ seen) =
    if_known
      (λ (l : Seen). is_seen x l ≡ (same_text address x || (same_text a x || is_seen x seen)))
      (same_text a address)
      (λ same.
        let e = (eq_iff a address).0 same in
        subst
          (λ b.
            same_text a x || is_seen x seen ≡ (same_text b x || (same_text a x || is_seen x seen)))
          e (or_again (same_text a x) (is_seen x seen)))
      (λ other.
        ap (same_text a x ||◌) (note-is_seen x address d seen)
        ∙ or_swap (same_text a x) (same_text address x) (is_seen x seen))

-- Of the tests of a sum one holds.
pub or_iff : (p q : Bool) → (p || q ≡ true) ↔ ((p ≡ true) ⊎ (q ≡ true))
or_iff true q = ((λ h. inl refl), λ h. refl)
or_iff false q = ((λ h. inr h), λ h. elim h [ inl e ↦ absurd (cc) | inr e ↦ e ])

here_or_later : {A : Type 0} {x y : A} {ys : List A} → Memᴰ x (y ∷ ys) → (x ≡ y) ⊎ Memᴰ x ys
here_or_later (Memᴰ.head p) = inl p
here_or_later (Memᴰ.tail m) = inr m

module _ (lower upper : String → String) (all_devices : Bool) where
  -- One of the devices has this address.
  abbrev AmongThem : String → List DiscoveredDevice → Type 0
  AmongThem x ds = (d : DiscoveredDevice) × Memᴰ d ds × (lower d.address ≡ x)

  -- One of the scans listed a device with this address, whatever the case of its letters.
  abbrev pub Sighted : String → List (Answer (List Advertisement)) → Type 0
  Sighted x rounds =
      (a : Answer (List Advertisement)) × Memᴰ a rounds
      × (ds : List DiscoveredDevice) × (scan lower upper a all_devices ≡ ok ds)
      × (d : DiscoveredDevice) × Memᴰ d ds
      × (lower d.address ≡ x)

  note_all-is_seen :
      (x : String) (ds : List DiscoveredDevice) (seen : Seen)
      → (is_seen x (note_all lower upper ds seen) ≡ true)
        ↔ (AmongThem x ds ⊎ (is_seen x seen ≡ true))
  unfolding note_all
  note_all-is_seen x [] seen =
      ((λ h. inr h), λ h. elim h [ inl (d, m, p) ↦ elim m [ ] | inr e ↦ e ])
  note_all-is_seen x (d ∷ ds) seen = (
    (λ h. elim ((note_all-is_seen x ds (note (lower d.address) d seen)).0 h) [
      | inl (e, m, p) ↦ inl (e, Memᴰ.tail m, p)
      | inr noted ↦ fresh (
          (or_iff (same_text (lower d.address) x) (is_seen x seen)).0
            (sym (note-is_seen x (lower d.address) d seen) ∙ noted))
    ]),
    λ h. (note_all-is_seen x ds (note (lower d.address) d seen)).1 (back h),
  )
    where
      fresh :
          (same_text (lower d.address) x ≡ true) ⊎ (is_seen x seen ≡ true)
          → AmongThem x (d ∷ ds) ⊎ (is_seen x seen ≡ true)
      fresh (inl e) = inl (d, Memᴰ.head refl, (eq_iff (lower d.address) x).0 e)
      fresh (inr e) = inr e

      back :
          AmongThem x (d ∷ ds) ⊎ (is_seen x seen ≡ true)
          → AmongThem x ds ⊎ (is_seen x (note (lower d.address) d seen) ≡ true)
      back (inl (e, Memᴰ.tail m, p)) = inl (e, m, p)
      back (inl (e, Memᴰ.head q, p)) = inr (
          note-is_seen x (lower d.address) d seen
          ∙ (or_iff (same_text (lower d.address) x) (is_seen x seen)).1 (
              inl (
                (eq_iff (lower d.address) x).1
                  (subst (λ (f : DiscoveredDevice). lower f.address ≡ x) q p))))
      back (inr e) = inr (
          note-is_seen x (lower d.address) d seen
          ∙ (or_iff (same_text (lower d.address) x) (is_seen x seen)).1 (inr e))

  pub survey-Sighted :
      (x : String) (rounds : List (Answer (List Advertisement))) (seen after_ : Seen)
      → survey lower upper all_devices rounds seen ≡ ok after_
      → (is_seen x after_ ≡ true) ↔ (Sighted x rounds ⊎ (is_seen x seen ≡ true))
  unfolding survey
  survey-Sighted x [] seen after_ h =
      ((λ e. inr (cc)), λ s. elim s [ inl (a, m, ds, q, d, n, p) ↦ elim m [ ] | inr e ↦ cc ])
  survey-Sighted x (a ∷ rounds) seen after_ h =
      further (scan lower upper a all_devices) refl (survey-Sighted x rounds) h
    where
      listed_before :
          (ds : List DiscoveredDevice)
          → scan lower upper a all_devices ≡ ok ds
          → (b : Answer (List Advertisement)) (es : List DiscoveredDevice) → (b ≡ a) ⊎ Memᴰ b rounds
          → scan lower upper b all_devices ≡ ok es
          → AmongThem x es
          → Sighted x rounds ⊎ (is_seen x (note_all lower upper ds seen) ≡ true)
      listed_before ds q b es (inr m) q' (d, n, p) = inl (b, m, es, q', d, n, p)
      listed_before ds q b es (inl e) q' among =
          let same : es ≡ ds = cc (e, q, q') in
          inr ((note_all-is_seen x ds seen).1 (inl (subst (λ l. AmongThem x l) same among)))

      before :
          (ds : List DiscoveredDevice)
          → scan lower upper a all_devices ≡ ok ds
          → Sighted x (a ∷ rounds) ⊎ (is_seen x seen ≡ true)
          → Sighted x rounds ⊎ (is_seen x (note_all lower upper ds seen) ≡ true)
      before ds q (inr old) = inr ((note_all-is_seen x ds seen).1 (inr old))
      before ds q (inl (b, m, es, q', d, n, p)) =
          listed_before ds q b es (here_or_later m) q' (d, n, p)

      further :
          (r : Result Raised (List DiscoveredDevice))
          → scan lower upper a all_devices ≡ r
          → ((s t : Seen)
              → survey lower upper all_devices rounds s ≡ ok t
              → (is_seen x t ≡ true) ↔ (Sighted x rounds ⊎ (is_seen x s ≡ true)))
          → (elim r [
            | ok ds ↦ survey lower upper all_devices rounds (note_all lower upper ds seen)
            | err e ↦ err e
          ])
            ≡ ok after_
          → (is_seen x after_ ≡ true) ↔ (Sighted x (a ∷ rounds) ⊎ (is_seen x seen ≡ true))
      further (err e) q step k = absurd (cc)
      further (ok ds) q step k = (
        (λ h. elim ((step (note_all lower upper ds seen) after_ k).0 h) [
          | inl (b, m, es, q', d, n, p) ↦ inl (b, Memᴰ.tail m, es, q', d, n, p)
          | inr noted ↦ elim ((note_all-is_seen x ds seen).0 noted) [
            | inl (d, m, p) ↦ inl (a, Memᴰ.head refl, ds, q, d, m, p)
            | inr old ↦ inr old
          ]
        ]),
        λ s. (step (note_all lower upper ds seen) after_ k).1 (before ds q s),
      )

  -- Every scan returned.
  abbrev pub AllScanned : List (Answer (List Advertisement)) → Type 0
  AllScanned rounds =
      All (λ a. (ds : List DiscoveredDevice) × (scan lower upper a all_devices ≡ ok ds)) rounds

  pub survey_scanned :
      (rounds : List (Answer (List Advertisement))) (seen : Seen) {after_ : Seen}
      → survey lower upper all_devices rounds seen ≡ ok after_
      → AllScanned rounds
  unfolding survey
  survey_scanned [] seen h = tt
  survey_scanned (a ∷ rounds) seen {after_} h =
      further (scan lower upper a all_devices) refl (λ s. survey_scanned rounds s {after_ = after_})
        h
    where
      further :
          (r : Result Raised (List DiscoveredDevice))
          → scan lower upper a all_devices ≡ r
          → ((s : Seen) → survey lower upper all_devices rounds s ≡ ok after_ → AllScanned rounds)
          → (elim r [
            | ok ds ↦ survey lower upper all_devices rounds (note_all lower upper ds seen)
            | err e ↦ err e
          ])
            ≡ ok after_
          → AllScanned (a ∷ rounds)
      further (err e) q step k = absurd (cc)
      further (ok ds) q step k = ((ds, q), step (note_all lower upper ds seen) k)

  pub scanned_survey :
      (rounds : List (Answer (List Advertisement))) (seen : Seen)
      → AllScanned rounds
      → (after_ : Seen) × (survey lower upper all_devices rounds seen ≡ ok after_)
  unfolding survey
  scanned_survey [] seen h = (seen, refl)
  scanned_survey (a ∷ rounds) seen ((ds, q), rest) =
      rw (survey, q) (scanned_survey rounds (note_all lower upper ds seen) rest)
