-- ===== src/Api/Models/Json.antt =====
-- api/models.py, the methods `to_dict`: the dictionaries that become JSON, with their keys in order.
-- A number keeps the unit of its field; the sentence of an outcome stays a `Detail`, and the bytes
-- that were sent stay bytes.
use text.Mathlib.Text.{◌==◌ as same_text}
use bedjet_local.Prelude.{
  ℕ, zero, suc, ◌≡◌, ◌≢◌, refl, sym, ap, String, Bool, false, Option, none, some, List, [],
  if◌then◌else◌,
}
use bedjet_local.Protocol.Constants.{Bytes}
use bedjet_local.Protocol.Packets.{Anomaly}
use bedjet_local.Api.Models.{DeviceSnapshot, CommandOutcome, Capabilities, Detail}

mutual
  pub data Json : Type 0 where
    null : Json
    boolean : Bool → Json
    integer half_degrees tenths ticks : ℕ → Json
    string : String → Json
    strings : List String → Json
    oddities : List Anomaly → Json
    sentence : Detail → Json
    hex : Bytes → Json
    object : Dict → Json

  pub data Dict : Type 0 where
    empty : Dict
    entry : String → Json → Dict → Dict

-- A key of a dictionary of which no key stands twice.
unfoldable pub lookup : String → Dict → Option Json
lookup key empty = none
lookup key (entry k v rest) =
    let later = lookup key rest in if same_text key k then some v else later

abbrev pub optional : {A : Type 0} → (A → Json) → Option A → Json
optional f none = null
optional f (some a) = f a

-- `DeviceSnapshot.to_dict`, before `rest`.
unfoldable pub snapshot_entries : DeviceSnapshot → Dict → Dict
snapshot_entries s rest = entry "link" (string s.link) (
    entry "available" (boolean s.available) (
      entry "stale" (boolean s.stale) (
        entry "reading_age_s" (optional ticks s.reading_age_s) (
          entry "power" (string s.power) (
            entry "mode" (optional string s.mode) (
              entry "target_temp_c" (optional half_degrees s.target_temp_c) (
                entry "target_temp_f" (optional tenths s.target_temp_f) (
                  entry "actual_temp_c" (optional half_degrees s.actual_temp_c) (
                    entry "actual_temp_f" (optional tenths s.actual_temp_f) (
                      entry "ambient_temp_c" (optional half_degrees s.ambient_temp_c) (
                        entry "ambient_temp_f" (optional tenths s.ambient_temp_f) (
                          entry "fan_percent" (optional integer s.fan_percent) (
                            entry "fan_is_stale" (boolean s.fan_is_stale) (
                              entry "time_remaining_s" (optional integer s.time_remaining_s) (
                                entry "min_target_c" (optional half_degrees s.min_target_c) (
                                  entry "max_target_c" (optional half_degrees s.max_target_c) (
                                    entry "max_runtime_s" (optional integer s.max_runtime_s) (
                                      entry "anomalies" (oddities s.anomalies)
                                        rest))))))))))))))))))

unfoldable pub snapshot_to_dict : DeviceSnapshot → Dict
unfolding snapshot_entries
snapshot_to_dict s = snapshot_entries s empty

unfoldable pub outcome_to_dict : CommandOutcome → Dict
unfolding snapshot_to_dict
outcome_to_dict o = entry "ok" (boolean o.ok_flag) (
    entry "changed" (boolean o.changed) (
      entry "detail" (sentence o.detail) (
        entry "sent" (optional hex o.sent) (
          entry "dry_run" (boolean o.dry_run) (
            entry "before" (object (snapshot_to_dict o.before))
              (entry "after" (object (snapshot_to_dict o.after)) empty))))))

-- Without the sentence at "note".
unfoldable pub capabilities_to_dict : Capabilities → Dict
capabilities_to_dict c = entry "address" (string c.address) (
    entry "modes" (strings c.modes) (
      entry "fan"
        (object (
          entry "min_percent" (integer c.fan_percent_min) (
            entry "max_percent" (integer c.fan_percent_max)
              (entry "step_percent" (integer c.fan_percent_step) empty))))
        (entry "temperature"
          (object (
            entry "step_c" (half_degrees c.temperature_step_c) (
              entry "absolute_min_c" (half_degrees c.absolute_min_c)
                (entry "absolute_max_c" (half_degrees c.absolute_max_c) empty))))
          empty)))

optional-injective :
    {A : Type 0} (f : A → Json) (a b : Option A)
    → ((x y : A) → f x ≡ f y → x ≡ y)
    → ((x : A) → f x ≢ null)
    → optional f a ≡ optional f b
    → a ≡ b
optional-injective f none none g n h = refl
optional-injective f none (some y) g n h = absurd (n y (sym h))
optional-injective f (some x) none g n h = absurd (n x h)
optional-injective f (some x) (some y) g n h = ap some (g x y h)

ticks_same : (a b : Option ℕ) → optional ticks a ≡ optional ticks b → a ≡ b
ticks_same a b = optional-injective ticks a b (λ x y e. cc) (λ x e. cc)

halves_same : (a b : Option ℕ) → optional half_degrees a ≡ optional half_degrees b → a ≡ b
halves_same a b = optional-injective half_degrees a b (λ x y e. cc) (λ x e. cc)

tenths_same : (a b : Option ℕ) → optional tenths a ≡ optional tenths b → a ≡ b
tenths_same a b = optional-injective tenths a b (λ x y e. cc) (λ x e. cc)

integers_same : (a b : Option ℕ) → optional integer a ≡ optional integer b → a ≡ b
integers_same a b = optional-injective integer a b (λ x y e. cc) (λ x e. cc)

strings_same : (a b : Option String) → optional string a ≡ optional string b → a ≡ b
strings_same a b = optional-injective string a b (λ x y e. cc) (λ x e. cc)

value_at : ℕ → Dict → Json
value_at n empty = null
value_at zero (entry k v rest) = v
value_at (suc n) (entry k v rest) = value_at n rest

strip_string : Json → String
strip_string (string s) = s
strip_string _ = ""

strip_boolean : Json → Bool
strip_boolean (boolean b) = b
strip_boolean _ = false

strip_oddities : Json → List Anomaly
strip_oddities (oddities xs) = xs
strip_oddities _ = []

-- Two snapshots with the same dictionary are the same: nothing that an adapter may know is lost.
pub snapshot_to_dict-injective :
    (a b : DeviceSnapshot) → snapshot_to_dict a ≡ snapshot_to_dict b → a ≡ b
unfolding snapshot_to_dict snapshot_entries value_at strip_string strip_boolean strip_oddities
snapshot_to_dict-injective a b h = λ i. record {
  link = strip_string (value_at 0 (h i));
  available = strip_boolean (value_at 1 (h i));
  stale = strip_boolean (value_at 2 (h i));
  reading_age_s = ticks_same a.reading_age_s b.reading_age_s (ap (value_at 3) h) i;
  power = strip_string (value_at 4 (h i));
  mode = strings_same a.mode b.mode (ap (value_at 5) h) i;
  target_temp_c = halves_same a.target_temp_c b.target_temp_c (ap (value_at 6) h) i;
  target_temp_f = tenths_same a.target_temp_f b.target_temp_f (ap (value_at 7) h) i;
  actual_temp_c = halves_same a.actual_temp_c b.actual_temp_c (ap (value_at 8) h) i;
  actual_temp_f = tenths_same a.actual_temp_f b.actual_temp_f (ap (value_at 9) h) i;
  ambient_temp_c = halves_same a.ambient_temp_c b.ambient_temp_c (ap (value_at 10) h) i;
  ambient_temp_f = tenths_same a.ambient_temp_f b.ambient_temp_f (ap (value_at 11) h) i;
  fan_percent = integers_same a.fan_percent b.fan_percent (ap (value_at 12) h) i;
  fan_is_stale = strip_boolean (value_at 13 (h i));
  time_remaining_s = integers_same a.time_remaining_s b.time_remaining_s (ap (value_at 14) h) i;
  min_target_c = halves_same a.min_target_c b.min_target_c (ap (value_at 15) h) i;
  max_target_c = halves_same a.max_target_c b.max_target_c (ap (value_at 16) h) i;
  max_runtime_s = integers_same a.max_runtime_s b.max_runtime_s (ap (value_at 17) h) i;
  anomalies = strip_oddities (value_at 18 (h i));
}
