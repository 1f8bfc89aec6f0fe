-- ===== src/Transport/Ble/Scan.antt =====
-- transport/ble.py, `scan`: which advertisements are listed, and in which order. What
-- `BleakScanner.discover` returns is a list of advertisements; `lower` and `upper` are `str.lower`
-- and `str.upper`.
pub mod Looks
pub mod Listing
use text.Mathlib.Text.{◌==◌ as same_text, starts_with}
use bedjet_local.Prelude.{
  ℕ, ◌≡◌, ◌↔◌, ◌⊎◌, inl, inr, refl, sym, String, Bool, true, false, ◌||◌, not, Option, none, some,
  List, [], ◌∷◌, map, arith, if◌then◌else◌, Bool-cases, All,
}
use bedjet_local.Prelude.Int.{ℤ, pos, negsuc, ltb_ℤ, ◌≤ℤ◌}
use bedjet_local.Protocol.Constants.{Bytes, service_uuid}
use bedjet_local.Python.Result.{Result, ok, err}
use bedjet_local.Transport.Contract.{Raised}
use bedjet_local.Transport.Ble.{Answer, as_transport, contains}

-- A device and its advertising data, as bleak gives them.
pub record Advertisement : Type 0 where
  pub address : String
  pub device_name : Option String
  pub local_name : Option String
  pub rssi : Option ℤ
  pub service_uuids : List String
  pub manufacturer_data : List (ℕ × Bytes)

pub record DiscoveredDevice : Type 0 where
  pub address : String
  pub name : Option String
  pub rssi : Option ℤ
  pub service_uuids : List String
  pub manufacturer_data : List (ℕ × Bytes)

-- `NAME_PREFIXES`
unfoldable pub name_prefixes : List String
name_prefixes = "BEDJET" ∷ "BedJet" ∷ []

-- `adv.local_name or device.name`: an empty name counts as none.
unfoldable pub name_of : Option String → Option String → Option String
name_of none device_name = device_name
name_of (some name) device_name = if same_text name "" then device_name else some name

-- `startswith` of one of the prefixes.
unfoldable pub starts_with_any : List String → String → Bool
starts_with_any [] name = false
starts_with_any (prefix ∷ prefixes) name = starts_with name prefix || starts_with_any prefixes name

-- The order by signal: `None` counts as -999 dBm.
unfoldable pub strength : Option ℤ → ℤ
strength none = negsuc 998
strength (some dbm) = dbm

-- `sort(…, reverse=True)`, which keeps the order of equals.
unfoldable pub insert_device : DiscoveredDevice → List DiscoveredDevice → List DiscoveredDevice
unfolding strength
insert_device d [] = d ∷ []
insert_device d (e ∷ ds) =
    let later = insert_device d ds in
    if ltb_ℤ (strength d.rssi) (strength e.rssi) then e ∷ later else d ∷ e ∷ ds

unfoldable pub sort_devices : List DiscoveredDevice → List DiscoveredDevice
unfolding insert_device
sort_devices [] = []
sort_devices (d ∷ ds) = insert_device d (sort_devices ds)

module _ (lower upper : String → String) where
  unfoldable pub named_like : Option String → Bool
  unfolding starts_with_any name_prefixes
  named_like none = false
  named_like (some name) = starts_with_any (map upper name_prefixes) (upper name)

  unfoldable pub looks_like_bedjet : Advertisement → Bool
  unfolding contains name_of named_like
  looks_like_bedjet a =
      contains (lower service_uuid) (map lower a.service_uuids)
      || named_like (name_of a.local_name a.device_name)

  unfoldable pub discovered : Advertisement → DiscoveredDevice
  unfolding name_of
  discovered a = record {
    address = a.address;
    name = name_of a.local_name a.device_name;
    rssi = a.rssi;
    service_uuids = map lower a.service_uuids;
    manufacturer_data = a.manufacturer_data;
  }

  unfoldable pub listed : Bool → List Advertisement → List DiscoveredDevice
  unfolding looks_like_bedjet discovered
  listed all_devices [] = []
  listed all_devices (a ∷ ads) =
      let rest = listed all_devices ads in
      if all_devices || looks_like_bedjet a then discovered a ∷ rest else rest

  unfoldable pub scan : Answer (List Advertisement) → Bool → Result Raised (List DiscoveredDevice)
  unfolding as_transport sort_devices listed
  scan results all_devices = elim (as_transport results) [
    | ok ads ↦ ok (sort_devices (listed all_devices ads))
    | err e ↦ err e
  ]
