-- ===== src/Integrations/Mqtt/Payload.antt =====
-- integrations/mqtt.py: `state_payload`, and what the announced entities make of it. A template
-- `{{ value_json.key }}` is its key.
use mathlib.Core.List.{Memᴰ}
use text.Mathlib.Text.{◌==◌ as same_text}
use bedjet_local.Prelude.{ℕ, ◌≡◌, refl, String, Option, none, some, List, [], ◌∷◌, if_both}
use bedjet_local.Api.Models.{DeviceSnapshot}
use bedjet_local.Api.Models.Json.{
  string, half_degrees, integer, Dict, empty, entry, lookup, optional, snapshot_entries,
}
use bedjet_local.Api.Service.{capabilities}
use bedjet_local.Integrations.Mqtt.{ha_mode, ha_mode_of, ha_mode_for}

unfoldable pub state_payload : DeviceSnapshot → Dict
state_payload s = snapshot_entries s (entry "ha_mode" (string (ha_mode s)) empty)

-- The keys of the three templates of the climate entity, and the modes that it offers.
abbrev pub mode_key : String
mode_key = "ha_mode"

abbrev pub current_temperature_key : String
current_temperature_key = "actual_temp_c"

abbrev pub temperature_key : String
temperature_key = "target_temp_c"

abbrev pub climate_modes : List String
climate_modes = "off" ∷ "cool" ∷ "heat" ∷ "dry" ∷ []

-- The template and the range of the fan's number, and the template of the ambient sensor.
abbrev pub fan_key : String
fan_key = "fan_percent"

abbrev pub fan_range : ℕ × ℕ × ℕ
fan_range = (5, 100, 5)

abbrev pub ambient_key : String
ambient_key = "ambient_temp_c"

Offered : String → Type 0
Offered mode = Memᴰ mode climate_modes

mode_for-Offered : (mode : String) → Offered (ha_mode_for mode)
unfolding ha_mode_for Offered
mode_for-Offered mode = if_both Offered (same_text mode "cool") (Memᴰ.tail (Memᴰ.head refl)) (
    if_both Offered (same_text mode "heat") (Memᴰ.tail (Memᴰ.tail (Memᴰ.head refl))) (
      if_both Offered (same_text mode "dry") (Memᴰ.tail (Memᴰ.tail (Memᴰ.tail (Memᴰ.head refl)))) (
        if_both Offered (same_text mode "turbo") (Memᴰ.tail (Memᴰ.tail (Memᴰ.head refl)))
          (Memᴰ.head refl))))

mode_of-Offered : (power : String) (mode : Option String) → Offered (ha_mode_of power mode)
unfolding ha_mode_of Offered
mode_of-Offered power none = Memᴰ.head refl
mode_of-Offered power (some mode) =
    if_both Offered (same_text power "on") (mode_for-Offered mode) (Memᴰ.head refl)

-- What the templates take from a payload.
abbrev pub Renders : DeviceSnapshot → Dict → Type 0
Renders s payload =
    (lookup mode_key payload ≡ some (string (ha_mode s)))
    × Memᴰ (ha_mode s) climate_modes
    × (lookup current_temperature_key payload ≡ some (optional half_degrees s.actual_temp_c))
    × (lookup temperature_key payload ≡ some (optional half_degrees s.target_temp_c))
    × (lookup fan_key payload ≡ some (optional integer s.fan_percent))
    × (lookup ambient_key payload ≡ some (optional half_degrees s.ambient_temp_c))

-- Home Assistant can render every state that the bridge publishes: each template of the announced
-- entities finds its key, with the field of the snapshot in Celsius or percent, and the mode is one
-- of those that the climate entity offers.
pub payload-Renders : (s : DeviceSnapshot) → Renders s (state_payload s)
unfolding state_payload snapshot_entries lookup ha_mode Offered
payload-Renders s = (refl, mode_of-Offered s.power s.mode, refl, refl, refl, refl)

-- The range of the fan's number is the one that the API declares.
fan_range-declared :
    (address : String)
    → (
      (capabilities address).fan_percent_min,
      (capabilities address).fan_percent_max,
      (capabilities address).fan_percent_step,
    )
      ≡ fan_range
unfolding capabilities
fan_range-declared address = refl
