-- ===== src/Transport/Ble/Scan/Listing.antt =====
-- What a scan lists, and in which order.
use mathlib.Core.List.{Memᴰ}
use bedjet_local.Prelude.{
  ◌≡◌, ◌↔◌, ◌⊎◌, inl, inr, refl, Option, none, some, String, Bool, true, ◌||◌, List, [], ◌∷◌, arith,
  Bool-cases, All,
}
use bedjet_local.Prelude.Int.{ℤ, negsuc, ltb_ℤ, ◌≤ℤ◌}
use bedjet_local.Python.Result.{ok}
use bedjet_local.Transport.Ble.{answered, as_transport}
use bedjet_local.Transport.Ble.Scan.Looks.{IsBedJet, Describes, bedjet_found, described}
use bedjet_local.Transport.Ble.Scan.{
  Advertisement, DiscoveredDevice, strength, insert_device, sort_devices, looks_like_bedjet,
  discovered, listed, scan,
}

-- The order in which the sort leaves the devices.
abbrev IsSorted : List DiscoveredDevice → Type 0
IsSorted [] = Unit
IsSorted (d ∷ ds) = All (λ e. strength e.rssi ≤ℤ strength d.rssi) ds × IsSorted ds

All-weaken :
    (a b : ℤ) (ds : List DiscoveredDevice)
    → a ≤ℤ b
    → All (λ e. strength e.rssi ≤ℤ a) ds
    → All (λ e. strength e.rssi ≤ℤ b) ds
All-weaken a b [] h all = tt
All-weaken a b (d ∷ ds) h (p, ps) = (omega arith, All-weaken a b ds h ps)

insert-All :
    (a : ℤ) (d : DiscoveredDevice) (ds : List DiscoveredDevice)
    → strength d.rssi ≤ℤ a
    → All (λ e. strength e.rssi ≤ℤ a) ds
    → All (λ e. strength e.rssi ≤ℤ a) (insert_device d ds)
unfolding insert_device
insert-All a d [] h all = (h, tt)
insert-All a d (e ∷ ds) h (p, ps) = elim (Bool-cases (ltb_ℤ (strength d.rssi) (strength e.rssi))) [
  | inl weaker ↦ rw weaker (p, insert-All a d ds h ps)
  | inr other ↦ rw other (h, (p, ps))
]

insert-IsSorted :
    (d : DiscoveredDevice) (ds : List DiscoveredDevice)
    → IsSorted ds
    → IsSorted (insert_device d ds)
unfolding insert_device
insert-IsSorted d [] h = (tt, tt)
insert-IsSorted d (e ∷ ds) (p, ps) = elim (Bool-cases (ltb_ℤ (strength d.rssi) (strength e.rssi))) [
  | inl weaker ↦
      rw weaker (insert-All (strength e.rssi) d ds (ground arith) p, insert-IsSorted d ds ps)
  | inr other ↦
      let least : strength e.rssi ≤ℤ strength d.rssi = ground arith in
      rw other ((least, All-weaken (strength e.rssi) (strength d.rssi) ds least p), (p, ps))
]

sort-IsSorted : (ds : List DiscoveredDevice) → IsSorted (sort_devices ds)
unfolding sort_devices
sort-IsSorted [] = tt
sort-IsSorted (d ∷ ds) = insert-IsSorted d (sort_devices ds) (sort-IsSorted ds)

insert-Mem :
    (x d : DiscoveredDevice) (ds : List DiscoveredDevice)
    → Memᴰ x (insert_device d ds) ↔ Memᴰ x (d ∷ ds)
unfolding insert_device
insert-Mem x d [] = ((λ h. h), λ h. h)
insert-Mem x d (e ∷ ds) = elim (Bool-cases (ltb_ℤ (strength d.rssi) (strength e.rssi))) [
  | inl weaker ↦ rw weaker (swap_in (insert-Mem x d ds).0, swap_out (insert-Mem x d ds).1)
  | inr other ↦ rw other ((λ h. h), λ h. h)
]
  where
    swap_in :
        {ls : List DiscoveredDevice}
        → (Memᴰ x ls → Memᴰ x (d ∷ ds))
        → Memᴰ x (e ∷ ls)
        → Memᴰ x (d ∷ e ∷ ds)
    swap_in f (Memᴰ.head p) = Memᴰ.tail (Memᴰ.head p)
    swap_in f (Memᴰ.tail m) = elim (f m) [
      | Memᴰ.head p ↦ Memᴰ.head p
      | Memᴰ.tail n ↦ Memᴰ.tail (Memᴰ.tail n)
    ]

    swap_out :
        {ls : List DiscoveredDevice}
        → (Memᴰ x (d ∷ ds) → Memᴰ x ls)
        → Memᴰ x (d ∷ e ∷ ds)
        → Memᴰ x (e ∷ ls)
    swap_out f (Memᴰ.head p) = Memᴰ.tail (f (Memᴰ.head p))
    swap_out f (Memᴰ.tail (Memᴰ.head p)) = Memᴰ.head p
    swap_out f (Memᴰ.tail (Memᴰ.tail n)) = Memᴰ.tail (f (Memᴰ.tail n))

sort-Mem :
    (x : DiscoveredDevice) (ds : List DiscoveredDevice) → Memᴰ x (sort_devices ds) ↔ Memᴰ x ds
unfolding sort_devices
sort-Mem x [] = ((λ h. h), λ h. h)
sort-Mem x (d ∷ ds) = (
  (λ h. (under (sort-Mem x ds).0) ((insert-Mem x d (sort_devices ds)).0 h)),
  λ h. (insert-Mem x d (sort_devices ds)).1 ((under (sort-Mem x ds).1) h),
)
  where
    under :
        {ds es : List DiscoveredDevice}
        → (Memᴰ x ds → Memᴰ x es)
        → Memᴰ x (d ∷ ds)
        → Memᴰ x (d ∷ es)
    under f (Memᴰ.head p) = Memᴰ.head p
    under f (Memᴰ.tail m) = Memᴰ.tail (f m)

-- A signal is not stronger than another; one that is not known counts as -999 dBm.
abbrev pub NotStronger : Option ℤ → Option ℤ → Type 0
NotStronger (some a) (some b) = a ≤ℤ b
NotStronger (some a) none = a ≤ℤ negsuc 998
NotStronger none (some b) = negsuc 998 ≤ℤ b
NotStronger none none = Unit

-- No device is weaker than one behind it.
abbrev pub IsStrongestFirst : List DiscoveredDevice → Type 0
IsStrongestFirst [] = Unit
IsStrongestFirst (d ∷ ds) = All (λ e. NotStronger e.rssi d.rssi) ds × IsStrongestFirst ds

not_stronger : (a b : Option ℤ) → strength a ≤ℤ strength b → NotStronger a b
unfolding strength
not_stronger none none h = tt
not_stronger none (some b) h = h
not_stronger (some a) none h = h
not_stronger (some a) (some b) h = h

IsSorted-All :
    (d : DiscoveredDevice) (ds : List DiscoveredDevice)
    → All (λ e. strength e.rssi ≤ℤ strength d.rssi) ds
    → All (λ e. NotStronger e.rssi d.rssi) ds
IsSorted-All d [] h = tt
IsSorted-All d (e ∷ ds) (p, ps) = (not_stronger e.rssi d.rssi p, IsSorted-All d ds ps)

IsSorted-IsStrongestFirst : (ds : List DiscoveredDevice) → IsSorted ds → IsStrongestFirst ds
IsSorted-IsStrongestFirst [] h = tt
IsSorted-IsStrongestFirst (d ∷ ds) (p, ps) = (IsSorted-All d ds p, IsSorted-IsStrongestFirst ds ps)

module _ (lower upper : String → String) (all_devices : Bool) where
  -- The device of an advertisement that the loop keeps.
  abbrev IsKept : List Advertisement → DiscoveredDevice → Type 0
  IsKept ads d =
      (a : Advertisement) × Memᴰ a ads
      × ((all_devices || looks_like_bedjet lower upper a ≡ true) × (d ≡ discovered lower upper a))

  listed-IsKept :
      (d : DiscoveredDevice) (ads : List Advertisement)
      → Memᴰ d (listed lower upper all_devices ads)
      → IsKept ads d
  unfolding listed
  listed-IsKept d [] h = elim h [ ]
  listed-IsKept d (a ∷ ads) h = elim (Bool-cases (all_devices || looks_like_bedjet lower upper a)) [
    | inl shown ↦ kept shown (listed-IsKept d ads) (rw shown at h)
    | inr hidden ↦ further (listed-IsKept d ads (rw hidden at h))
  ]
    where
      further : IsKept ads d → IsKept (a ∷ ads) d
      further (b, m, p) = (b, Memᴰ.tail m, p)

      kept :
          (all_devices || looks_like_bedjet lower upper a ≡ true)
          → (Memᴰ d (listed lower upper all_devices ads) → IsKept ads d)
          → Memᴰ d (discovered lower upper a ∷ listed lower upper all_devices ads)
          → IsKept (a ∷ ads) d
      kept shown f (Memᴰ.head p) = (a, Memᴰ.head refl, (shown, p))
      kept shown f (Memᴰ.tail m) = further (f m)

  seen-Mem :
      (d : DiscoveredDevice) (a : Advertisement) (ads : List Advertisement)
      → Memᴰ a ads
      → (all_devices || looks_like_bedjet lower upper a ≡ true)
      → d ≡ discovered lower upper a
      → Memᴰ d (listed lower upper all_devices ads)
  unfolding listed
  seen-Mem d a [] m shown e = elim m [ ]
  seen-Mem d a (b ∷ ads) (Memᴰ.head p) shown e =
      let here : all_devices || looks_like_bedjet lower upper b ≡ true = cc in
      rw here (Memᴰ.head (cc))
  seen-Mem d a (b ∷ ads) (Memᴰ.tail m) shown e =
      elim (Bool-cases (all_devices || looks_like_bedjet lower upper b)) [
        | inl kept ↦ rw kept (Memᴰ.tail (seen-Mem d a ads m shown e))
        | inr hidden ↦ rw hidden (seen-Mem d a ads m shown e)
      ]

  -- The device of an advertisement of a BedJet, or of any one where all are asked for.
  abbrev pub IsSeen : List Advertisement → DiscoveredDevice → Type 0
  IsSeen ads d =
      (a : Advertisement) × Memᴰ a ads
      × ((all_devices ≡ true) ⊎ IsBedJet lower upper a)
      × Describes lower upper a d

  IsKept-IsSeen : (ads : List Advertisement) (d : DiscoveredDevice) → IsKept ads d ↔ IsSeen ads d
  IsKept-IsSeen ads d = ((λ h. seen h), λ h. kept h)
    where
      seen : IsKept ads d → IsSeen ads d
      seen (a, m, (shown, e)) = (
        a,
        m,
        elim (Bool-cases all_devices) [
          | inl every ↦ inl every
          | inr some_only ↦ inr ((bedjet_found lower upper a).0 (ground arith))
        ],
        (described lower upper a d).0 e,
      )

      kept : IsSeen ads d → IsKept ads d
      kept (a, m, inl every, p) = (a, m, (rw every, (described lower upper a d).1 p))
      kept (a, m, inr like, p) =
          let found = (bedjet_found lower upper a).1 like in
          (a, m, (ground (arith, found), (described lower upper a d).1 p))

  -- A scan that returns lists the strongest signal first, an unknown one as if it were -999 dBm, and
  -- exactly what describes an advertisement that bleak found and that, unless all were asked for,
  -- carries the uuid of the service or a name that begins with `BEDJET`, whatever the case of either.
  pub scan_lem :
      (ads : List Advertisement)
      → (ds : List DiscoveredDevice) × (scan lower upper (answered ads) all_devices ≡ ok ds)
        × IsStrongestFirst ds
        × ((d : DiscoveredDevice) → Memᴰ d ds ↔ IsSeen ads d)
  unfolding scan as_transport
  scan_lem ads =
      let ls = listed lower upper all_devices ads in
      (
        sort_devices ls,
        refl,
        IsSorted-IsStrongestFirst (sort_devices ls) (sort-IsSorted ls),
        λ d. (
          (λ h. (IsKept-IsSeen ads d).0 (listed-IsKept d ads ((sort-Mem d ls).0 h))),
          λ h. member d ((IsKept-IsSeen ads d).1 h),
        ),
      )
    where
      member :
          (d : DiscoveredDevice)
          → IsKept ads d
          → Memᴰ d (sort_devices (listed lower upper all_devices ads))
      member d (a, m, (shown, e)) =
          (sort-Mem d (listed lower upper all_devices ads)).1 (seen-Mem d a ads m shown e)
