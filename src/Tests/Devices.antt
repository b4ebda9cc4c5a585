-- ===== src/Tests/Devices.antt =====
-- Devices and their fields: runs of the decoder, and its theorems at them.
use mathlib.Core.List.{map}
use vbus2mqtt.Prelude.{
  ℕ, zero, suc, take, drop, ◌≡◌, refl, ◌&&◌, [], ◌∷◌, none, some, arith, ◌==◌, if◌then◌else◌,
  or_else, All,
}
use vbus2mqtt.Prelude.Int.{pos, negsuc}
use vbus2mqtt.Vbus.Double.{one, tenth}
use vbus2mqtt.Vbus.Frame.{Bytes}
use vbus2mqtt.Vbus.Registry.{
  int16, uint8, FieldDef, PacketDef, field, pkey, find, lookup, register, to_int16, extract_typed,
  extract_value, extract_fields,
}
use vbus2mqtt.Vbus.Registry.Keys.{lookup-register}
use vbus2mqtt.Vbus.Registry.Fields.{
  little_endian, field_bytes, twos_complement, extract_value-int16, meaning, fits, fitting,
  telemetry, extract_value_lem, extract_fields_lem,
}
use vbus2mqtt.Vbus.Registry.Generated.{generated_registry}
use vbus2mqtt.Vbus.Registry.Defaults.{custom_registry, default_registry, lookup-default_registry}
use vbus2mqtt.Vbus.Registry.Audit.{generated_registry_decodes}
use vbus2mqtt.Mqtt.Classes.{ha_class_from_unit}
use vbus2mqtt.Mqtt.Classes.Units.{generated_registry_unclassified}
use vbus2mqtt.Tests.Samples.{Decimal, decimals}

-- 21.3 degrees, and a second sensor that reads -1 tenths.
abbrev payload : Bytes
payload = 0xd5 ∷ 0x00 ∷ 0xff ∷ 0xff ∷ []

abbrev sensor_1 : FieldDef Decimal
sensor_1 = field "temp_sensor1" 0 int16 tenth "°C"

abbrev sensor_2 : FieldDef Decimal
sensor_2 = field "temp_sensor2" 2 int16 tenth "°C"

abbrev sensor_3 : FieldDef Decimal
sensor_3 = field "temp_sensor3" 4 int16 tenth "°C"

extract_value-sensors :
    (extract_value payload sensor_1 ≡ some (pos 2130, 2))
    × (extract_value payload sensor_2 ≡ some (negsuc 9, 2))
    × (extract_value payload sensor_3 ≡ none)
unfolding extract_value extract_typed to_int16
extract_value-sensors = (refl, refl, refl)

extract_value_lem_example : extract_value payload sensor_2 ≡ (
    if fits payload sensor_2
    then some (meaning int16 sensor_2 (little_endian (field_bytes payload sensor_2)))
    else none)
extract_value_lem_example = extract_value_lem payload sensor_2

extract_fields_lem_example :
    extract_fields payload (sensor_1 ∷ sensor_3 ∷ sensor_2 ∷ [])
    ≡ map (telemetry payload) (fitting payload (sensor_1 ∷ sensor_3 ∷ sensor_2 ∷ []))
extract_fields_lem_example = extract_fields_lem payload (sensor_1 ∷ sensor_3 ∷ sensor_2 ∷ [])

-- The bytes 0xff 0xff stand for -1.
word_2 : little_endian (take 2 (drop sensor_2.offset payload)) ≡ twos_complement (negsuc 0)
word_2 = refl

extract_value-int16_example :
    extract_value payload sensor_2
    ≡ some (
        decimals.div
          (decimals.round (
            decimals.mul
              (decimals.mul (decimals.of_ℤ (negsuc 0)) sensor_2.factor)
              (decimals.of_ℤ (pos 100))))
          (decimals.of_ℤ (pos 100)))
extract_value-int16_example =
    extract_value-int16 payload sensor_2 (negsuc 0) refl (omega arith) (omega arith) (omega arith)
      word_2

-- The custom packet hides the generated one of the same addresses.
lookup-default_registry_example :
    lookup {W = Decimal} default_registry 0x4278 0x0010 0x0100
    ≡ or_else
        (lookup custom_registry 0x4278 0x0010 0x0100)
        (lookup generated_registry 0x4278 0x0010 0x0100)
lookup-default_registry_example = lookup-default_registry 0x4278 0x0010 0x0100

abbrev boiler : PacketDef Decimal
boiler = record { device_name = "Boiler"; fields = sensor_1 ∷ [] }

lookup-register_example :
    lookup (register custom_registry 0x4278 0x0010 0x0200 boiler) 0x4278 0x0010 0x0100 ≡ (
      if 0x4278 == 0x4278 && 0x0010 == 0x0010 && 0x0200 == 0x0100
      then some boiler
      else lookup custom_registry 0x4278 0x0010 0x0100)
lookup-register_example =
    lookup-register custom_registry 0x4278 0x0010 0x0200 0x4278 0x0010 0x0100 boiler (omega arith)
      (omega arith) (omega arith) (omega arith) (omega arith) (omega arith)

abbrev packet_1054 : PacketDef Decimal
packet_1054 = record {
  device_name = "0x1054";
  fields =
      field "flow_set_temperature" 0 int16 tenth " °C"
      ∷ field "operating_state" 2 uint8 one ""
      ∷ [];
}

lookup-1054 : lookup generated_registry 0x1054 0x0010 0x0100 ≡ some packet_1054
unfolding lookup find generated_registry pkey
lookup-1054 = refl

abbrev zeros : ℕ → Bytes
zeros zero = []
zeros (suc n) = 0 ∷ zeros n

generated_registry_decodes_example :
    extract_fields (zeros 196) packet_1054.fields ≡ map (telemetry (zeros 196)) packet_1054.fields
generated_registry_decodes_example =
    generated_registry_decodes Decimal 0x1054 0x0010 0x0100 (zeros 196) lookup-1054 (omega arith)

generated_registry_unclassified_example :
    All (λ fd. ha_class_from_unit fd.unit ≡ ("", "measurement")) packet_1054.fields
generated_registry_unclassified_example =
    generated_registry_unclassified Decimal 0x1054 0x0010 0x0100 lookup-1054
