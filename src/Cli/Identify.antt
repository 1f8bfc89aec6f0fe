-- ===== src/Cli/Identify.antt =====
-- cli.py: `cmd_identify` under `main`, over any transport. What the transport's `services` gave is an
-- argument; `lower` is `str.lower`. What is printed is left out, but for the characteristics that are
-- reported as not seen before.
use text.Mathlib.Text.{◌==◌ as same_text}
use bedjet_local.Prelude.{
  ◌≡◌, refl, ap, String, Bool, true, false, ◌||◌, Option, List, [], ◌∷◌, ◌++◌, if_both,
  if◌then◌else◌,
}
use bedjet_local.Python.Result.{Result, ok, err}
use bedjet_local.Protocol.Constants.{service_uuid, status_uuid, command_uuid}
use bedjet_local.Device.Registry.{Entry, require_known}
use bedjet_local.Transport.Contract.{Transport, IsTransport, Raised}
use bedjet_local.Cli.{Exit, exited}

-- `NAME_UUID`
abbrev pub name_uuid : String
name_uuid = "00002001-bed0-0080-aa55-4265644a6574"

-- The keys of `CHARACTERISTICS`, and the service's.
abbrev pub known_uuids : List String
known_uuids =
    status_uuid ∷ name_uuid ∷ "00002002-bed0-0080-aa55-4265644a6574"
    ∷ "00002003-bed0-0080-aa55-4265644a6574" ∷ command_uuid ∷ "00002005-bed0-0080-aa55-4265644a6574"
    ∷ "00002006-bed0-0080-aa55-4265644a6574" ∷ service_uuid ∷ []

-- The services of the device with the uuids of their characteristics.
abbrev pub Layout : Type 0
Layout = List (String × List String)

pub record Surroundings (t : Transport) : Type 0 where
  pub registry : Option (List Entry)
  pub connecting : t.Moment
  pub services : Result Raised Layout
  pub reading : t.Moment
  pub leaving : t.Moment

pub record Left (t : Transport) : Type 0 where
  pub exit : Exit
  pub unexpected : List String
  pub link : t.State

module _ (lower : String → String) where
  unfoldable pub is_known : List String → String → Bool
  is_known [] uuid = false
  is_known (known ∷ rest) uuid = same_text (lower known) (lower uuid) || is_known rest uuid

  -- The characteristics of the BedJet's service that no table has.
  unfoldable pub unexpected_in : List String → List String
  unfolding is_known
  unexpected_in [] = []
  unexpected_in (uuid ∷ rest) =
      let others = unexpected_in rest in if is_known known_uuids uuid then others else uuid ∷ others

  unfoldable pub unexpected_of : Layout → List String
  unfolding unexpected_in
  unexpected_of [] = []
  unexpected_of ((service, characteristics) ∷ rest) =
      let others = unexpected_of rest in
      if same_text (lower service) (lower service_uuid)
      then unexpected_in characteristics ++ others
      else others

  module _ (t : Transport) (address : String) (force : Bool) (s : Surroundings t) where
    -- The `finally`.
    unfoldable pub leave : Exit → List String → t.State → Left t
    leave exit unexpected link =
        let closed = t.disconnect s.leaving link in
        record {
          exit = elim closed.0 [ ok _ ↦ exit | err e ↦ exited 1 ];
          unexpected = unexpected;
          link = closed.1;
        }

    -- Behind `services`; whatever the read of the name raises is caught.
    unfoldable pub explore : Result Raised Layout → t.State → Left t
    unfolding leave unexpected_of
    explore (err e) link = leave (exited 1) [] link
    explore (ok layout) link =
        leave (exited 0) (unexpected_of layout) (t.read s.reading name_uuid link).1

    unfoldable pub attach : Result Raised (Unit {0}) × t.State → Left t
    unfolding explore
    attach (err e, link) = record { exit = exited 1; unexpected = []; link = link }
    attach (ok _, link) = explore s.services link

    unfoldable pub identify : t.State → Left t
    unfolding attach
    identify link =
        if force
          || elim (require_known lower address s.registry) [ ok known ↦ true | err e ↦ false ]
        then attach (t.connect s.connecting address link)
        else record { exit = exited 1; unexpected = []; link = link }

    module _ (laws : IsTransport t) (m : t.Moment) where
      explore-down :
          (x : Result Raised Layout) (link : t.State)
          → t.is_connected m (explore x link).link ≡ false
      unfolding explore leave
      explore-down (err e) link = laws.released s.leaving m link
      explore-down (ok layout) link = laws.released s.leaving m _

      attach-down :
          (x : Result Raised (Unit {0}) × t.State) (link : t.State)
          → t.connect s.connecting address link ≡ x
          → t.is_connected m link ≡ false
          → t.is_connected m (attach x).link ≡ false
      unfolding attach
      attach-down (err e, after_) link h down =
          cc (h, down, laws.failed_connect s.connecting m address link {e = e} (ap (λ y. y.0) h))
      attach-down (ok _, after_) link h down = explore-down s.services after_

      -- However an identification ends, the link is down behind it.
      pub identify-down :
          (link : t.State)
          → t.is_connected m link ≡ false
          → t.is_connected m (identify link).link ≡ false
      unfolding identify
      identify-down link down =
          if_both (λ (x : Left t). t.is_connected m x.link ≡ false) (force || _)
            (attach-down (t.connect s.connecting address link) link refl down) down
