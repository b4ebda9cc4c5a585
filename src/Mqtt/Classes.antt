-- ===== src/Mqtt/Classes.antt =====
-- `haClassFromUnit` of internal/mqtt/client.go.
pub mod Units
use Prim.Native.String.{String}
use text.Mathlib.Text.{◌==◌ as str_eq}
use vbus2mqtt.Prelude.{◌||◌, if◌then◌else◌}

-- The device class and the state class of a unit.
unfoldable pub ha_class_from_unit : String → String × String
ha_class_from_unit unit =
    if str_eq unit "°C" || str_eq unit "K"
    then ("temperature", "measurement")
    else if str_eq unit "W" || str_eq unit "kW"
    then ("power", "measurement")
    else if str_eq unit "Wh" || str_eq unit "kWh"
    then ("energy", "total_increasing")
    else if str_eq unit "V"
    then ("voltage", "measurement")
    else if str_eq unit "bar"
    then ("pressure", "measurement")
    else if str_eq unit "l/h"
    then ("volume_flow_rate", "measurement")
    else ("", "measurement")
