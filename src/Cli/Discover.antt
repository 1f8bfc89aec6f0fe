-- ===== src/Cli/Discover.antt =====
-- cli.py: `cmd_discover` and its exit status. What it prints of the samples of a device is left
-- out; `lower` and `upper` are `str.lower` and `str.upper`.
pub mod Sightings
pub mod Census
use text.Mathlib.Text.{◌==◌ as same_text}
use bedjet_local.Prelude.{
  ℕ, String, Bool, true, false, ◌||◌, Option, none, some, List, [], ◌∷◌, ◌++◌, if◌then◌else◌,
}
use bedjet_local.Python.Result.{Result, ok, err}
use bedjet_local.Device.Registry.{Entry, KnownDevice, Devices, load}
use bedjet_local.Transport.Contract.{Raised}
use bedjet_local.Transport.Ble.{Answer}
use bedjet_local.Transport.Ble.Scan.{Advertisement, DiscoveredDevice, scan}
use bedjet_local.Cli.{Exit, exited}

-- `seen`: the samples of each address, in the order of first sight.
abbrev pub Seen : Type 0
Seen = List (String × List DiscoveredDevice)

-- `seen.setdefault(address, []).append(device)`
unfoldable pub note : String → DiscoveredDevice → Seen → Seen
note address d [] = (address, d ∷ []) ∷ []
note address d ((a, samples) ∷ seen) =
    if same_text a address
    then (a, samples ++ d ∷ []) ∷ seen
    else (a, samples) ∷ note address d seen

unfoldable pub is_seen : String → Seen → Bool
is_seen address [] = false
is_seen address ((a, samples) ∷ seen) = same_text a address || is_seen address seen

-- `0 if not missing else 1`
abbrev pub unless_missing : List KnownDevice → ℕ
unless_missing [] = 0
unless_missing (_ ∷ _) = 1

module _ (lower upper : String → String) where
  unfoldable pub note_all : List DiscoveredDevice → Seen → Seen
  unfolding note
  note_all [] seen = seen
  note_all (d ∷ ds) seen = note_all ds (note (lower d.address) d seen)

  -- The scans of `--repeat`, one after another.
  unfoldable pub survey : Bool → List (Answer (List Advertisement)) → Seen → Result Raised Seen
  unfolding note_all scan
  survey all_devices [] seen = ok seen
  survey all_devices (a ∷ rounds) seen = elim (scan lower upper a all_devices) [
    | ok ds ↦ survey all_devices rounds (note_all ds seen)
    | err e ↦ err e
  ]

  -- The registered devices that no scan saw.
  unfoldable pub missing_devices : Devices → Seen → List KnownDevice
  unfolding is_seen
  missing_devices [] seen = []
  missing_devices ((key, d) ∷ known) seen =
      let rest = missing_devices known seen in
      if is_seen (lower d.address) seen then rest else d ∷ rest

  -- The end of the command, given what was seen.
  unfoldable pub status : Devices → Seen → ℕ
  unfolding missing_devices
  status known [] = 1
  status known (s ∷ seen) = unless_missing (missing_devices known (s ∷ seen))

  -- `cmd_discover` under `main`.
  unfoldable pub discover : Option (List Entry) → Bool → List (Answer (List Advertisement)) → Exit
  unfolding survey status load
  discover registry all_devices rounds = elim (survey all_devices rounds []) [
    | ok seen ↦ exited (status (load lower registry) seen)
    | err e ↦ exited 1
  ]
