-- ===== src/Vbus/Registry/Generated/From4278.antt =====
-- internal/vbus/registry_gen.go, lines 2888 to 3025: the sources 0x4278 to 0x4731.
use vbus2mqtt.Prelude.{[], ◌∷◌}
use vbus2mqtt.Vbus.Double.{Double, hundredth, one, tenth}
use vbus2mqtt.Vbus.Registry.{int16, uint16, uint32, uint8, Registry, entry, field}

module _ {W : Type 0} ⦃d : Double W⦄ where
  unfoldable pub packets_from_4278 : Registry W
  packets_from_4278 =
      entry 0x4278 0x0010 0x0100 "0x4278" (
        field "temperature_sensor_1" 0 int16 tenth " °C"
        ∷ field "temperature_sensor_2" 2 int16 tenth " °C"
        ∷ field "temperature_sensor_3" 4 int16 tenth " °C"
        ∷ field "temperature_sensor_4" 6 int16 tenth " °C"
        ∷ field "pump_speed_relay_1" 8 uint8 one "%"
        ∷ field "pump_speed_relay_2" 9 uint8 one "%"
        ∷ field "operating_hours_relay_1" 12 uint16 one " h"
        ∷ field "operating_hours_relay_2" 14 uint16 one " h"
        ∷ field "status" 22 int16 one ""
        ∷ field "programme" 23 uint8 one ""
        ∷ field "version" 24 uint16 hundredth ""
        ∷ [])
      ∷ entry 0x4279 0x0010 0x0100 "0x4279" (
          field "temperature_sensor_1" 0 int16 tenth " °F"
          ∷ field "temperature_sensor_2" 2 int16 tenth " °F"
          ∷ field "temperature_sensor_3" 4 int16 tenth " °F"
          ∷ field "temperature_sensor_4" 6 int16 tenth " °F"
          ∷ field "pump_speed_relay_1" 8 uint8 one "%"
          ∷ field "pump_speed_relay_2" 9 uint8 one "%"
          ∷ field "operating_hours_relay_1" 12 uint16 one " h"
          ∷ field "operating_hours_relay_2" 14 uint16 one " h"
          ∷ field "status" 22 int16 one ""
          ∷ field "programme" 23 uint8 one ""
          ∷ field "version" 24 uint16 hundredth ""
          ∷ [])
      ∷ entry 0x427B 0x0010 0x0100 "0x427B" (
          field "temperature_sensor_1" 0 int16 tenth " °C"
          ∷ field "temperature_sensor_2" 2 int16 tenth " °C"
          ∷ field "temperature_sensor_3" 4 int16 tenth " °C"
          ∷ field "temperature_sensor_4" 6 int16 tenth " °C"
          ∷ field "pump_speed_relay_1" 8 uint8 one "%"
          ∷ field "pump_speed_relay_2" 12 uint8 one "%"
          ∷ field "operating_hours_relay_1" 10 uint16 one " h"
          ∷ field "operating_hours_relay_2" 14 uint16 one " h"
          ∷ field "unittype" 16 uint8 one ""
          ∷ field "system" 17 uint8 one ""
          ∷ field "errormask" 20 uint16 one ""
          ∷ field "system_time" 22 int16 one ""
          ∷ field "status_mask" 24 uint32 one ""
          ∷ field "heat_quantity" 28 uint32 one " Wh"
          ∷ field "sw_version" 32 uint16 hundredth ""
          ∷ field "variant" 34 uint16 one ""
          ∷ [])
      ∷ entry 0x4311 0x0010 0x0100 "0x4311" (
          field "tc" 0 int16 tenth " °C"
          ∷ field "cd" 2 int16 tenth " °C"
          ∷ field "cu" 4 int16 tenth " °C"
          ∷ field "p1" 6 uint8 one "%"
          ∷ field "p1s" 13 uint8 one ""
          ∷ field "p2" 7 uint8 one "%"
          ∷ field "ls" 10 int16 tenth ""
          ∷ field "ph" 12 uint8 one ""
          ∷ field "kwh" 16 uint32 tenth " kWh"
          ∷ [])
      ∷ entry 0x4321 0x0010 0x0100 "0x4321" (
          field "temperature_sensor_1" 0 int16 tenth " °C"
          ∷ field "temperature_sensor_2" 2 int16 tenth " °C"
          ∷ field "temperature_sensor_3" 4 int16 tenth " °C"
          ∷ field "temperature_sensor_4" 6 int16 tenth " °C"
          ∷ field "pump_speed_relay_1" 8 uint8 one "%"
          ∷ field "pump_speed_relay_2" 9 uint8 one "%"
          ∷ field "system_time" 10 uint16 one ""
          ∷ field "status_info_1" 12 uint8 one ""
          ∷ field "status_info_2" 13 uint8 one ""
          ∷ field "remaining_status_runtime" 14 uint16 one ""
          ∷ field "heat_quantity" 24 uint32 one " Wh"
          ∷ [])
      ∷ entry 0x4720 0x0010 0x0100 "0x4720" (
          field "temperature_sensor_1" 4 int16 tenth " °C"
          ∷ field "temperature_sensor_2" 6 int16 tenth " °C"
          ∷ field "temperature_sensor_3" 8 int16 tenth " °C"
          ∷ field "pump_speed_relay_1" 16 int16 one "%"
          ∷ field "heat_quantity" 20 uint32 one " Wh"
          ∷ field "sw_version" 24 int16 hundredth ""
          ∷ field "operating_hours_relay_1" 28 uint32 one " h"
          ∷ field "error_mask" 68 uint32 one ""
          ∷ [])
      ∷ entry 0x4721 0x0010 0x0100 "0x4721" (
          field "value" 0 uint32 one " Wh"
          ∷ field "power" 4 uint32 one " W"
          ∷ field "value_today" 8 uint32 one " Wh"
          ∷ field "value_week" 12 uint32 one " Wh"
          ∷ [])
      ∷ entry 0x4730 0x0010 0x0100 "0x4730" (
          field "temperature_sensor_1" 4 int16 tenth " °C"
          ∷ field "temperature_sensor_2" 6 int16 tenth " °C"
          ∷ field "temperature_sensor_3" 8 int16 tenth " °C"
          ∷ field "pump_speed_relay_1" 16 int16 one "%"
          ∷ field "pump_speed_relay_2" 17 int16 one "%"
          ∷ field "heat_quantity" 20 uint32 one " Wh"
          ∷ field "sw_version" 24 int16 hundredth ""
          ∷ field "operating_hours_relay_1" 28 uint32 one " h"
          ∷ field "operating_hours_relay_2" 32 uint32 one " h"
          ∷ field "error_mask" 72 uint32 one ""
          ∷ [])
      ∷ entry 0x4731 0x0010 0x0100 "0x4731" (
          field "value" 0 uint32 one " Wh"
          ∷ field "power" 4 uint32 one " W"
          ∷ field "value_today" 8 uint32 one " Wh"
          ∷ field "value_week" 12 uint32 one " Wh"
          ∷ [])
      ∷ []
