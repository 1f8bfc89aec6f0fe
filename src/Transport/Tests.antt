-- ===== src/Transport/Tests.antt =====
-- A unit in the air, its characteristics and an adapter that is switched off and on, and the
-- theorems about the transports at them.
use mathlib.Core.List.{Memᴰ}
use bedjet_local.Prelude.{◌≡◌, ◌↔◌, refl, Bool, true, false, none, some, List, [], ◌∷◌}
use bedjet_local.Prelude.Int.{negsuc}
use bedjet_local.Protocol.Constants.{Bytes, service_uuid, command_uuid}
use bedjet_local.Python.Result.{ok}
use bedjet_local.Transport.Contract.{IsTransport}
use bedjet_local.Transport.Ble.{
  answered, Characteristic, up, Moment, BleakTransport, contains, needs_response, write_type, send,
  write, still_connected, is_connected, ble_transport,
}
use bedjet_local.Transport.Ble.Meets.{ble-IsTransport}
use bedjet_local.Transport.Ble.Scan.{Advertisement, DiscoveredDevice, scan}
use bedjet_local.Transport.Ble.Scan.Listing.{IsStrongestFirst, IsSeen, scan_lem}

ble-IsTransport_example : IsTransport (ble_transport (λ s. s))
ble-IsTransport_example = ble-IsTransport (λ s. s)

abbrev characteristics : List Characteristic
characteristics =
    record { uuid = command_uuid; properties = "write" ∷ "write-without-response" ∷ [] } ∷ []

abbrev calm : Moment
calm = record {
  link = up;
  found = answered true;
  established = answered tt;
  closed = answered tt;
  value = answered [];
  accepted = answered tt;
  layout = answered characteristics;
}

abbrev held : BleakTransport
held = record { client = true; requests = [] }

abbrev switch_off : Bytes
switch_off = 1 ∷ 1 ∷ []

unacknowledged :
    (write (λ s. s) calm command_uuid switch_off none held).1.requests
    ≡ (command_uuid, switch_off, false) ∷ []
unfolding write write_type is_connected needs_response contains send still_connected
unacknowledged = refl

abbrev power_reports : List Bool
power_reports = true ∷ false ∷ true ∷ true ∷ []

abbrev air : List Advertisement
air =
    record {
      address = "aa";
      device_name = none;
      local_name = some "Speaker";
      rssi = none;
      service_uuids = [];
      manufacturer_data = [];
    }
    ∷ record {
      address = "bb";
      device_name = some "BEDJET_V3";
      local_name = none;
      rssi = some (negsuc 70);
      service_uuids = service_uuid ∷ [];
      manufacturer_data = [];
    }
    ∷ []

scan_lem_example :
    (ds : List DiscoveredDevice) × (scan (λ s. s) (λ s. s) (answered air) false ≡ ok ds)
    × IsStrongestFirst ds
    × ((d : DiscoveredDevice) → Memᴰ d ds ↔ IsSeen (λ s. s) (λ s. s) false air d)
scan_lem_example = scan_lem (λ s. s) (λ s. s) false air
