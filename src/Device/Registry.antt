-- ===== src/Device/Registry.antt =====
-- device/registry.py: which BedJets are ours. `tomllib` has parsed the file: `entries` is its
-- `device` table in order, or `none` where there is no file. `lower` is `str.lower`, of which
-- nothing is assumed. The path of the file is left out.
pub mod Ownership
use text.Mathlib.Text.{◌==◌}
use bedjet_local.Prelude.{String, Bool, Option, none, some, List, [], ◌∷◌, if◌then◌else◌}
use bedjet_local.Python.Result.{Result, ok, err}

pub record KnownDevice : Type 0 where
  pub address : String
  pub label : String
  pub notes : String

pub data UnknownDevice : Type 0 where
  no_registry not_listed : UnknownDevice

-- One of the `[device.<label>]` tables; `load` raises KeyError for one without an address, which is
-- left out.
pub record Entry : Type 0 where
  pub label : String
  pub address : String
  pub notes : Option String

unfoldable pub device_of : Entry → KnownDevice
device_of e = record {
  address = e.address;
  label = e.label;
  notes = elim e.notes [ none ↦ "" | some text ↦ text ];
}

-- A dictionary in the order of first insertion.
abbrev pub Devices : Type 0
Devices = List (String × KnownDevice)

unfoldable pub get : String → Devices → Option KnownDevice
get key [] = none
get key ((k, d) ∷ devices) = if k == key then some d else get key devices

unfoldable pub put : String → KnownDevice → Devices → Devices
put key d [] = (key, d) ∷ []
put key d ((k, old) ∷ devices) = if k == key then (k, d) ∷ devices else (k, old) ∷ put key d devices

abbrev refusal : Devices → UnknownDevice
refusal [] = no_registry
refusal (_ ∷ _) = not_listed

abbrev pub permit : Devices → Option KnownDevice → Result UnknownDevice KnownDevice
permit devices (some known) = ok known
permit devices none = err (refusal devices)

module _ (lower : String → String) where
  unfoldable pub load_into : List Entry → Devices → Devices
  load_into [] devices = devices
  load_into (e ∷ es) devices = load_into es (put (lower e.address) (device_of e) devices)

  unfoldable pub load : Option (List Entry) → Devices
  unfolding load_into
  load none = []
  load (some entries) = load_into entries []

  unfoldable pub lookup : String → Option (List Entry) → Option KnownDevice
  unfolding load get
  lookup address entries = get (lower address) (load entries)

  unfoldable pub require_known : String → Option (List Entry) → Result UnknownDevice KnownDevice
  unfolding load get
  require_known address entries = permit (load entries) (get (lower address) (load entries))
