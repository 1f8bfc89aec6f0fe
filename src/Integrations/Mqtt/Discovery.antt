-- ===== src/Integrations/Mqtt/Discovery.antt =====
-- integrations/mqtt.py: `discovery_payloads`, the entities announced to Home Assistant with the
-- topics that they read and write. Names, units, ranges and templates are left out.
use mathlib.Core.List.{Memᴰ}
use bedjet_local.Prelude.{◌≡◌, refl, List, [], ◌∷◌, ◌++◌, All}
use bedjet_local.Integrations.Http.Headers.{Text, codes, count}
use bedjet_local.Integrations.Mqtt.{
  MqttConfig, state_topic, availability_topic, command_topic, last_segment,
}
use bedjet_local.Integrations.Mqtt.Topics.{last_segment-command_topic}

pub record Discovery : Type 0 where
  -- the topic that the announcement is published to
  pub topic : Text
  pub unique_id : Text
  pub availability : Text
  -- where the entity reads its values, and where it sends commands
  pub reads : List Text
  pub commands : List Text

module _ (config : MqttConfig) where
  unfoldable pub climate : Discovery
  unfolding state_topic availability_topic command_topic
  climate = record {
    topic = config.discovery_prefix ++ codes "/climate/" ++ config.device_id ++ codes "/config";
    unique_id = config.device_id ++ codes "_climate";
    availability = availability_topic config;
    reads = state_topic config ∷ state_topic config ∷ state_topic config ∷ [];
    commands =
        command_topic config (codes "mode") ∷ command_topic config (codes "temperature") ∷ [];
  }

  unfoldable pub fan : Discovery
  unfolding state_topic availability_topic command_topic
  fan = record {
    topic = config.discovery_prefix ++ codes "/number/" ++ config.device_id ++ codes "_fan/config";
    unique_id = config.device_id ++ codes "_fan";
    availability = availability_topic config;
    reads = state_topic config ∷ [];
    commands = command_topic config (codes "fan") ∷ [];
  }

  unfoldable pub ambient : Discovery
  unfolding state_topic availability_topic
  ambient = record {
    topic =
        config.discovery_prefix ++ codes "/sensor/" ++ config.device_id ++ codes "_ambient/config";
    unique_id = config.device_id ++ codes "_ambient";
    availability = availability_topic config;
    reads = state_topic config ∷ [];
    commands = [];
  }

  unfoldable pub discovery_payloads : List Discovery
  unfolding climate fan ambient
  discovery_payloads = climate ∷ fan ∷ ambient ∷ []

  -- The names that `_dispatch` takes from an entity.
  abbrev IsUnderstood : Text → Type 0
  IsUnderstood name = Memᴰ name (codes "mode" ∷ codes "temperature" ∷ codes "fan" ∷ [])

  -- An entity reads the topics that the bridge publishes, and its commands reach the bridge under a
  -- name that it dispatches.
  abbrev IsServed : Discovery → Type 0
  IsServed d =
      (d.availability ≡ availability_topic config)
      × All (λ t. t ≡ state_topic config) d.reads
      × All (λ t. IsUnderstood (last_segment [] t)) d.commands

  -- Every announced entity is served, whatever the base topic, the device and the prefix are called.
  pub discovery-IsServed : All IsServed discovery_payloads
  unfolding discovery_payloads climate fan ambient count
  discovery-IsServed = (
    (
      refl,
      (refl, (refl, (refl, tt))),
      (
        Memᴰ.head (last_segment-command_topic config (codes "mode") refl),
        (Memᴰ.tail (Memᴰ.head (last_segment-command_topic config (codes "temperature") refl)), tt),
      ),
    ),
    (
      (
        refl,
        (refl, tt),
        (
          Memᴰ.tail (Memᴰ.tail (Memᴰ.head (last_segment-command_topic config (codes "fan") refl))),
          tt,
        ),
      ),
      ((refl, (refl, tt), tt), tt),
    ),
  )
