-- ===== src/Transport/Ble/Scan/Looks.antt =====
-- Which advertisements are those of a BedJet, and what is listed of one, apart from how `scan` tests it.
use mathlib.Core.List.{Memᴰ}
use text.Mathlib.Text.{◌==◌ as same_text, starts_with}
use text.Mathlib.TextEquality.{eq_iff}
use bedjet_local.Prelude.{
  ◌≡◌, ◌≢◌, ◌↔◌, ◌⊎◌, inl, inr, refl, sym, subst, String, true, Option, none, some, List, [], ◌∷◌,
  map, arith, Bool-cases,
}
use bedjet_local.Protocol.Constants.{service_uuid}
use bedjet_local.Transport.Ble.{contains}
use bedjet_local.Transport.Ble.WriteType.{contains_sound}
use bedjet_local.Transport.Ble.Scan.{
  Advertisement, DiscoveredDevice, name_of, name_prefixes, starts_with_any, named_like,
  looks_like_bedjet, discovered,
}

-- The name that a device is listed by: the advertised one, if it is not empty, or the device's own.
abbrev pub ShownName : Option String → Option String → Option String → Type 0
ShownName none own shown = shown ≡ own
ShownName (some name) own shown =
    ((name ≡ "") × (shown ≡ own)) ⊎ ((name ≢ "") × (shown ≡ some name))

name_shown : (advertised own : Option String) → ShownName advertised own (name_of advertised own)
unfolding name_of
name_shown none own = refl
name_shown (some name) own = elim (Bool-cases (same_text name "")) [
  | inl empty ↦ inl ((eq_iff name "").0 empty, rw empty)
  | inr full ↦ inr ((λ e. cc ((eq_iff name "").1 e, full)), rw full)
]

shown_name :
    (advertised own shown : Option String)
    → ShownName advertised own shown
    → shown ≡ name_of advertised own
unfolding name_of
shown_name none own shown h = h
shown_name (some name) own shown (inl (e, p)) = rw ((eq_iff name "").1 e) p
shown_name (some name) own shown (inr (n, p)) = elim (Bool-cases (same_text name "")) [
  | inl empty ↦ absurd (n ((eq_iff name "").0 empty))
  | inr full ↦ rw full p
]

module _ (lower upper : String → String) where
  -- It advertises the service, or its name begins with one of the two prefixes, whatever the case.
  abbrev pub IsBedJet : Advertisement → Type 0
  IsBedJet a =
      ((uuid : String) × Memᴰ uuid a.service_uuids × (lower uuid ≡ lower service_uuid))
      ⊎ ((name : String) × ShownName a.local_name a.device_name (some name)
          × ((starts_with (upper name) (upper "BEDJET") ≡ true)
              ⊎ (starts_with (upper name) (upper "BedJet") ≡ true)))

  -- What is listed of an advertisement.
  pub record Describes (a : Advertisement) (d : DiscoveredDevice) : Type 0 where
    pub address : d.address ≡ a.address
    pub name : ShownName a.local_name a.device_name d.name
    pub rssi : d.rssi ≡ a.rssi
    pub service_uuids : d.service_uuids ≡ map lower a.service_uuids
    pub manufacturer_data : d.manufacturer_data ≡ a.manufacturer_data

  advertised :
      (wanted : String) (uuids : List String)
      → Memᴰ wanted (map lower uuids)
      → (uuid : String) × Memᴰ uuid uuids × (lower uuid ≡ wanted)
  advertised wanted [] h = elim h [ ]
  advertised wanted (u ∷ uuids) (Memᴰ.head p) = (u, Memᴰ.head refl, sym p)
  advertised wanted (u ∷ uuids) (Memᴰ.tail h) =
      let (uuid, m, e) = advertised wanted uuids h in (uuid, Memᴰ.tail m, e)

  advertises :
      (wanted uuid : String) (uuids : List String)
      → Memᴰ uuid uuids
      → lower uuid ≡ wanted
      → contains wanted (map lower uuids) ≡ true
  unfolding contains
  advertises wanted uuid [] h e = elim h [ ]
  advertises wanted uuid (u ∷ uuids) (Memᴰ.head p) e =
      ground (arith, (eq_iff (lower u) wanted).1 (cc (p, e)))
  advertises wanted uuid (u ∷ uuids) (Memᴰ.tail h) e =
      ground (arith, advertises wanted uuid uuids h e)

  named :
      (name : String)
      → (named_like lower upper (some name) ≡ true) ↔ (
          (starts_with (upper name) (upper "BEDJET") ≡ true)
          ⊎ (starts_with (upper name) (upper "BedJet") ≡ true))
  unfolding named_like name_prefixes starts_with_any
  named name = ((λ h. ground arith), λ h. ground arith)

  bedjet_of_name :
      (a : Advertisement) (o : Option String)
      → name_of a.local_name a.device_name ≡ o
      → named_like lower upper o ≡ true
      → IsBedJet a
  unfolding named_like
  bedjet_of_name a none e h = absurd (cc)
  bedjet_of_name a (some name) e h = inr (
    name,
    subst (ShownName a.local_name a.device_name) e (name_shown a.local_name a.device_name),
    (named name).0 h,
  )

  pub bedjet_found : (a : Advertisement) → (looks_like_bedjet lower upper a ≡ true) ↔ IsBedJet a
  unfolding looks_like_bedjet
  bedjet_found a = (
    (λ h. elim (Bool-cases (contains (lower service_uuid) (map lower a.service_uuids))) [
      | inl found ↦ inl (advertised (lower service_uuid) a.service_uuids (contains_sound _ _ found))
      | inr missing ↦ bedjet_of_name a (name_of a.local_name a.device_name) refl (rw missing at h)
    ]),
    λ h. looks a h,
  )
    where
      looks : (a : Advertisement) → IsBedJet a → looks_like_bedjet lower upper a ≡ true
      looks a (inl (uuid, m, e)) = rw (advertises (lower service_uuid) uuid a.service_uuids m e)
      looks a (inr (name, shown, p)) =
          let e = shown_name a.local_name a.device_name (some name) shown in
          let f : named_like lower upper (name_of a.local_name a.device_name) ≡ true =
            rw (← e) ((named name).1 p) in
          ground (arith, f)

  pub described :
      (a : Advertisement) (d : DiscoveredDevice) → (d ≡ discovered lower upper a) ↔ Describes a d
  unfolding discovered
  described a d = (
    (λ e. subst (Describes a) (sym e) (record {
      address = refl;
      name = name_shown a.local_name a.device_name;
      rssi = refl;
      service_uuids = refl;
      manufacturer_data = refl;
    })),
    λ h. ground (
      arith,
      h.address,
      h.rssi,
      h.service_uuids,
      h.manufacturer_data,
      shown_name a.local_name a.device_name d.name h.name,
    ),
  )
