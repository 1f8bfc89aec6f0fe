-- ===== src/Device/Tests.antt =====
-- A registry of one device.
use mathlib.Core.List.{Memᴰ}
use bedjet_local.Prelude.{◌≡◌, ◌↔◌, none, some, [], ◌∷◌}
use bedjet_local.Python.Result.{ok, err}
use bedjet_local.Device.Registry.{KnownDevice, no_registry, Entry, require_known}
use bedjet_local.Device.Registry.Ownership.{IsEntryOf, require_known_iff}

abbrev bedroom : Entry
bedroom = record { label = "bedroom"; address = "aa:bb"; notes = none }

require_known_iff_example :
    (((d : KnownDevice) × (require_known (λ s. s) "aa:bb" (some (bedroom ∷ [])) ≡ ok d))
      ↔ ((e : Entry) × Memᴰ e (bedroom ∷ []) × (e.address ≡ "aa:bb")))
    × ((d : KnownDevice)
        → require_known (λ s. s) "aa:bb" (some (bedroom ∷ [])) ≡ ok d
        → IsEntryOf (λ s. s) "aa:bb" (bedroom ∷ []) d)
    × (require_known (λ s. s) "aa:bb" none ≡ err no_registry)
require_known_iff_example = require_known_iff (λ s. s) "aa:bb" (bedroom ∷ [])
