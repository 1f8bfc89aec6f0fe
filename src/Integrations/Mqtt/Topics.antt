-- ===== src/Integrations/Mqtt/Topics.antt =====
-- The command topics: a name is read back from the topic that is made of it.
use mathlib.Core.List.{append-nil, append_assoc}
use bedjet_local.Prelude.{◌≡◌, refl, [], ◌∷◌, ◌++◌, arith, sym}
use bedjet_local.Integrations.Http.Headers.{Text, codes, count}
use bedjet_local.Integrations.Mqtt.{MqttConfig, prefix, command_topic, last_segment}

last_segment-append :
    (seen t name : Text) → last_segment seen (t ++ 47 ∷ name) ≡ last_segment [] name
unfolding last_segment
last_segment-append seen [] name = refl
last_segment-append seen (x ∷ t) name =
    ground (arith, last_segment-append [] t name, last_segment-append (seen ++ x ∷ []) t name)

last_segment_plain : (seen name : Text) → count 47 name ≡ 0 → last_segment seen name ≡ seen ++ name
unfolding last_segment count
last_segment_plain seen [] h = sym (append-nil seen)
last_segment_plain seen (x ∷ name) h =
    ground (arith, last_segment_plain (seen ++ x ∷ []) name, append_assoc seen (x ∷ []) name)

-- Whatever the base topic and the device, the name of a command without a `/` is the last segment
-- of its topic, so that `_handle` dispatches on the name that the discovery announced.
pub last_segment-command_topic :
    (config : MqttConfig) (name : Text)
    → count 47 name ≡ 0
    → last_segment [] (command_topic config name) ≡ name
unfolding command_topic
last_segment-command_topic config name h = cc (
  append_assoc (prefix config) (codes "/set/") name,
  last_segment-append [] (prefix config) (codes "set/" ++ name),
  last_segment-append [] (codes "set") name,
  last_segment_plain [] name h,
)
