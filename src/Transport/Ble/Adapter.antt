-- ===== src/Transport/Ble/Adapter.antt =====
-- transport/ble.py, `_watch_adapter`: the watch over the power of the adapter. The states that the
-- system reports, as they are read after each pulse, are a list, oldest first; the result tells at
-- which of them the event is set. Where the state cannot be observed there are no reports.
use bedjet_local.Prelude.{
  ℕ, zero, suc, ◌≡◌, ◌↔◌, Bool, true, false, ◌&&◌, not, Option, none, some, List, [], ◌∷◌,
  get_elem?, arith,
}

-- `was_on is False`
unfoldable pub was_off : Option Bool → Bool
was_off none = false
was_off (some on) = not on

-- One round of `while True`: is the event set, and the new baseline.
unfoldable pub observe : Option Bool → Bool → Bool × Option Bool
unfolding was_off
observe was_on is_on = (is_on && was_off was_on, some is_on)

unfoldable pub watch_from : Option Bool → List Bool → List Bool
unfolding observe
watch_from was_on [] = []
watch_from was_on (is_on ∷ reports) =
    (observe was_on is_on).0 ∷ watch_from (observe was_on is_on).1 reports

-- The watch begins with no baseline.
unfoldable pub watch_adapter : List Bool → List Bool
watch_adapter reports = watch_from none reports

-- The report before the `i`th one, where there is one.
abbrev pub previous : List Bool → ℕ → Option Bool
previous reports zero = none
previous reports (suc i) = get_elem? reports i

-- The same, behind a baseline.
abbrev previous_from : Option Bool → List Bool → ℕ → Option Bool
previous_from was_on reports zero = was_on
previous_from was_on reports (suc i) = get_elem? reports i

fires_from :
    (was_on : Option Bool) (reports : List Bool) (i : ℕ)
    → (get_elem? (watch_from was_on reports) i ≡ some true)
      ↔ ((get_elem? reports i ≡ some true) × (previous_from was_on reports i ≡ some false))
unfolding watch_from observe was_off
fires_from was_on [] i = ((λ h. absurd (cc)), λ h. absurd (cc))
fires_from none (on ∷ reports) zero = ((λ h. absurd (ground arith)), λ h. absurd (cc))
fires_from (some true) (on ∷ reports) zero =
    ((λ h. absurd (ground arith)), λ h. absurd (ground arith))
fires_from (some false) (on ∷ reports) zero = ((λ h. ground arith), λ h. ground arith)
fires_from was_on (on ∷ reports) (suc zero) = fires_from (some on) reports zero
fires_from was_on (on ∷ reports) (suc (suc i)) = fires_from (some on) reports (suc i)

-- The event is set at exactly the edges from off to on: at a report of an adapter that is on whose
-- previous report says off. The first report sets nothing, whatever it says.
pub watch_adapter_iff :
    (reports : List Bool) (i : ℕ)
    → (get_elem? (watch_adapter reports) i ≡ some true)
      ↔ ((get_elem? reports i ≡ some true) × (previous reports i ≡ some false))
unfolding watch_adapter
watch_adapter_iff reports zero = fires_from none reports zero
watch_adapter_iff reports (suc i) = fires_from none reports (suc i)
