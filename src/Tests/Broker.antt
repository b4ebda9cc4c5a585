-- ===== src/Tests/Broker.antt =====
-- What goes to the broker: runs of the client, and its theorems at them.
use mathlib.Core.List.{map}
use mathlib.Core.Option.{get_or}
use vbus2mqtt.Prelude.{◌≡◌, refl, List, [], ◌∷◌, some, if◌then◌else◌}
use vbus2mqtt.Prelude.Int.{pos}
use vbus2mqtt.Prelude.Text.{get, member}
use vbus2mqtt.Vbus.Registry.{TelemetryField}
use vbus2mqtt.Mqtt.Classes.{ha_class_from_unit}
use vbus2mqtt.Mqtt.Slug.{field_slug, slug_loop, trim_left, trim_right, cons_trimmed, lower}
use vbus2mqtt.Mqtt.Slug.Laws.{AllChars, IsSlugChar, StartsClean, EndsClean, field_slug-IsClean}
use vbus2mqtt.Mqtt.Client.{publish_discovery, discovery_message, payload_of, on_connect}
use vbus2mqtt.Mqtt.Client.Discovery.{count, keys, announced, publish_discovery_once}
use vbus2mqtt.Mqtt.Client.Connection.{
  Call, items, item_key, item_message, sent_all, firsts, sent_all_once,
}
use vbus2mqtt.Mqtt.Client.Telemetry.{last_value, last_unit, payload_of-values, payload_of-units}
use vbus2mqtt.Tests.Samples.{Decimal, decimals, plain, plain-IsUnicode, sample_config}

field_slug-run : field_slug plain "_flow set__temp. 1 " ≡ "flow_set__temp__1"
unfolding field_slug slug_loop trim_left trim_right cons_trimmed lower
field_slug-run = refl

classes :
    (ha_class_from_unit "°C" ≡ ("temperature", "measurement"))
    × (ha_class_from_unit " °C" ≡ ("", "measurement"))
unfolding ha_class_from_unit
classes = (refl, refl)

field_slug-IsClean_example :
    AllChars (IsSlugChar plain plain-IsUnicode) (field_slug plain "_flow temp ")
    × StartsClean (field_slug plain "_flow temp ")
    × EndsClean (field_slug plain "_flow temp ")
field_slug-IsClean_example = field_slug-IsClean plain plain-IsUnicode "_flow temp "

-- One name twice, as in some packets of the generated table.
abbrev fields : List (TelemetryField Decimal)
fields =
    record { name = "t1"; value = (pos 2130, 2); unit = "°C" }
    ∷ record { name = "relay"; value = (pos 1, 0); unit = "" }
    ∷ record { name = "t1"; value = (pos 55, 1); unit = "" }
    ∷ []

publish_discovery_once_example :
    ((publish_discovery plain 0x4278 "BS2" sample_config fields []).1
      ≡ map (discovery_message plain 0x4278 "BS2" sample_config) (announced plain 0x4278 fields []))
    × (count "4278/t1" (keys plain 0x4278 (announced plain 0x4278 fields [])) ≡ (
        if member "4278/t1" []
        then 0
        else if member "4278/t1" (keys plain 0x4278 fields)
        then 1
        else 0))
publish_discovery_once_example =
    publish_discovery_once plain 0x4278 "BS2" sample_config fields [] "4278/t1"

abbrev calls : List (Call Decimal)
calls = (0x4278, "BS2", sample_config, fields) ∷ (0x4278, "BS2", sample_config, fields) ∷ []

-- The second call sends nothing.
sent_all_once_example :
    (sent_all plain calls (on_connect ("4278/t1" ∷ []))
      ≡ map (item_message plain) (firsts plain (items calls)))
    × (count "4278/t1" (map (item_key plain) (firsts plain (items calls)))
        ≡ (if member "4278/t1" (map (item_key plain) (items calls)) then 1 else 0))
sent_all_once_example = sent_all_once plain calls ("4278/t1" ∷ []) "4278/t1"

payload_of-values_example :
    get "t1" (payload_of 0x4278 "BS2" fields (pos 7)).fields ≡ last_value "t1" fields
payload_of-values_example = payload_of-values 0x4278 "BS2" fields (pos 7) "t1"

payload_of-units_example :
    get "t1" (get_or (payload_of 0x4278 "BS2" fields (pos 7)).units []) ≡ last_unit "t1" fields
payload_of-units_example = payload_of-units 0x4278 "BS2" fields (pos 7) "t1"

last_values : (last_value "t1" fields ≡ some (pos 55, 1)) × (last_unit "t1" fields ≡ some "°C")
unfolding last_value last_unit
last_values = (refl, refl)
