-- ===== src/Device/Registry/Ownership.antt =====
-- Only registered devices are let through.
use text.Mathlib.Text.{◌==◌}
use text.Mathlib.TextEquality.{eq_iff}
use mathlib.Core.List.{Memᴰ}
use bedjet_local.Prelude.{
  ◌≡◌, ◌≢◌, ◌⊎◌, ◌↔◌, inl, inr, refl, String, Option, none, some, List, [], ◌∷◌, arith, Bool-cases,
  if◌then◌else◌,
}
use bedjet_local.Python.Result.{ok, err}
use bedjet_local.Device.Registry.{
  KnownDevice, no_registry, Entry, device_of, Devices, get, put, load_into, load, permit,
  require_known,
}

pub get-put :
    (key k : String) (d : KnownDevice) (devices : Devices)
    → get key (put k d devices) ≡ (if k == key then some d else get key devices)
unfolding get put
get-put key k d [] = refl
get-put key k d ((j, e) ∷ devices) =
    ground (arith, eq_iff j k, eq_iff j key, eq_iff k key, get-put key k d devices)

permit_ok :
    (devices : Devices) (o : Option KnownDevice) (d : KnownDevice)
    → (permit devices o ≡ ok d) ↔ (o ≡ some d)
permit_ok devices none d = ground arith
permit_ok devices (some known) d = ground arith

-- The last entry with an address, the letters' case apart.
module _ (lower : String → String) (address : String) where
  abbrev pub last_entry : List Entry → Option KnownDevice → Option KnownDevice
  last_entry [] found = found
  last_entry (e ∷ es) found =
      last_entry es (if lower e.address == lower address then some (device_of e) else found)

  get-load_into :
      (entries : List Entry) (devices : Devices)
      → get (lower address) (load_into lower entries devices)
        ≡ last_entry entries (get (lower address) devices)
  unfolding load_into
  get-load_into [] devices = refl
  get-load_into (e ∷ es) devices = cc (
    get-load_into es (put (lower e.address) (device_of e) devices),
    get-put (lower address) (lower e.address) (device_of e) devices,
  )

  -- An entry of this address that was read as `d`.
  abbrev pub IsEntryOf : List Entry → KnownDevice → Type 0
  IsEntryOf entries d =
      (e : Entry) × Memᴰ e entries × (lower e.address ≡ lower address) × (d ≡ device_of e)

  last_entry_sound :
      (entries : List Entry) (found : Option KnownDevice) (d : KnownDevice)
      → last_entry entries found ≡ some d
      → (found ≡ some d) ⊎ IsEntryOf entries d
  last_entry_sound [] found d h = inl h
  last_entry_sound (e ∷ es) found d h = elim (Bool-cases (lower e.address == lower address)) [
    | inl same ↦ elim (last_entry_sound es _ d h) [
      | inl here ↦ inr (e, Memᴰ.head refl, (eq_iff _ _).0 same, (ground arith))
      | inr later ↦ inr (later.0, Memᴰ.tail later.1, later.2, later.3)
    ]
    | inr other ↦ elim (last_entry_sound es _ d h) [
      | inl before ↦ inl (ground arith)
      | inr later ↦ inr (later.0, Memᴰ.tail later.1, later.2, later.3)
    ]
  ]

  last_entry_kept :
      (entries : List Entry) (found : Option KnownDevice)
      → found ≢ none
      → last_entry entries found ≢ none
  last_entry_kept [] found h = h
  last_entry_kept (e ∷ es) found h = last_entry_kept es _ (ground arith)

  last_entry_found :
      (entries : List Entry) (found : Option KnownDevice) (e : Entry)
      → Memᴰ e entries
      → lower e.address ≡ lower address
      → last_entry entries found ≢ none
  last_entry_found [] found e m same = elim m [ ]
  last_entry_found (x ∷ es) found e (Memᴰ.head here) same =
      last_entry_kept es _ (ground (arith, eq_iff (lower x.address) (lower address)))
  last_entry_found (x ∷ es) found e (Memᴰ.tail later) same = last_entry_found es _ e later same

  require_known-ok :
      (entries : List Entry) (d : KnownDevice)
      → (require_known lower address (some entries) ≡ ok d) ↔ (last_entry entries none ≡ some d)
  unfolding require_known load get
  require_known-ok entries d =
      rw (get-load_into entries [])
        (permit_ok (load lower (some entries)) (last_entry entries none) d)

  known-IsEntryOf :
      (entries : List Entry) (d : KnownDevice)
      → require_known lower address (some entries) ≡ ok d
      → IsEntryOf entries d
  known-IsEntryOf entries d h =
      elim (last_entry_sound entries none d ((require_known-ok entries d).0 h)) [
        | inl e ↦ absurd (cc e)
        | inr entry ↦ entry
      ]

  known_if_found :
      (entries : List Entry) (o : Option KnownDevice)
      → last_entry entries none ≡ o
      → o ≢ none
      → (d : KnownDevice) × (require_known lower address (some entries) ≡ ok d)
  known_if_found entries none e h = absurd (h refl)
  known_if_found entries (some d) e h = (d, (require_known-ok entries d).1 e)

  -- Exactly the devices that the file lists are let through, by their address whatever the case of
  -- its letters, and what is returned was read from such an entry; a missing file lets none through.
  pub require_known_iff :
      (entries : List Entry)
      → (((d : KnownDevice) × (require_known lower address (some entries) ≡ ok d))
          ↔ ((e : Entry) × Memᴰ e entries × (lower e.address ≡ lower address)))
        × ((d : KnownDevice)
            → require_known lower address (some entries) ≡ ok d
            → IsEntryOf entries d)
        × (require_known lower address none ≡ err no_registry)
  unfolding require_known load get
  require_known_iff entries = (
    (
      (λ h. let entry = known-IsEntryOf entries h.0 h.1 in (entry.0, entry.1, entry.2)),
      (λ h. known_if_found entries _ refl (last_entry_found entries none h.0 h.1 h.2)),
    ),
    known-IsEntryOf entries,
    refl,
  )
