-- ===== src/Vbus/Registry/Generated/From7352.antt =====
-- internal/vbus/registry_gen.go, lines 4148 to 4278: the sources 0x7352 to 0x7422.
use vbus2mqtt.Prelude.{[], ◌∷◌}
use vbus2mqtt.Vbus.Double.{Double, hundredth, one, tenth}
use vbus2mqtt.Vbus.Registry.{int16, uint16, uint32, uint8, Registry, entry, field}

module _ {W : Type 0} ⦃d : Double W⦄ where
  unfoldable pub packets_from_7352 : Registry W
  packets_from_7352 =
      entry 0x7352 0x0010 0x0100 "0x7352" (
        field "temperature_module_1_sensor_1" 0 int16 tenth " °C"
        ∷ field "temperature_module_1_sensor_2" 2 int16 tenth " °C"
        ∷ field "temperature_module_1_sensor_3" 4 int16 tenth " °C"
        ∷ field "temperature_module_1_sensor_4" 6 int16 tenth " °C"
        ∷ field "temperature_module_1_sensor_5" 8 int16 tenth " °C"
        ∷ field "temperature_module_1_sensor_6" 10 int16 tenth " °C"
        ∷ field "temperature_module_2_sensor_1" 12 int16 tenth " °C"
        ∷ field "temperature_module_2_sensor_2" 14 int16 tenth " °C"
        ∷ field "temperature_module_2_sensor_3" 16 int16 tenth " °C"
        ∷ field "temperature_module_2_sensor_4" 18 int16 tenth " °C"
        ∷ field "temperature_module_2_sensor_5" 20 int16 tenth " °C"
        ∷ field "temperature_module_2_sensor_6" 22 int16 tenth " °C"
        ∷ field "temperature_module_3_sensor_1" 24 int16 tenth " °C"
        ∷ field "temperature_module_3_sensor_2" 26 int16 tenth " °C"
        ∷ field "temperature_module_3_sensor_3" 28 int16 tenth " °C"
        ∷ field "temperature_module_3_sensor_4" 30 int16 tenth " °C"
        ∷ field "temperature_module_3_sensor_5" 32 int16 tenth " °C"
        ∷ field "temperature_module_3_sensor_6" 34 int16 tenth " °C"
        ∷ field "temperature_module_4_sensor_1" 36 int16 tenth " °C"
        ∷ field "temperature_module_4_sensor_2" 38 int16 tenth " °C"
        ∷ field "temperature_module_4_sensor_3" 40 int16 tenth " °C"
        ∷ field "temperature_module_4_sensor_4" 42 int16 tenth " °C"
        ∷ field "temperature_module_4_sensor_5" 44 int16 tenth " °C"
        ∷ field "temperature_module_4_sensor_6" 46 int16 tenth " °C"
        ∷ field "temperature_module_5_sensor_1" 48 int16 tenth " °C"
        ∷ field "temperature_module_5_sensor_2" 50 int16 tenth " °C"
        ∷ field "temperature_module_5_sensor_3" 52 int16 tenth " °C"
        ∷ field "temperature_module_5_sensor_4" 54 int16 tenth " °C"
        ∷ field "temperature_module_5_sensor_5" 56 int16 tenth " °C"
        ∷ field "temperature_module_5_sensor_6" 58 int16 tenth " °C"
        ∷ [])
      ∷ entry 0x7411 0x0010 0x0100 "0x7411" (
          field "temperature_sensor_1" 0 int16 tenth " °C"
          ∷ field "temperature_sensor_2" 2 int16 tenth " °C"
          ∷ field "temperature_sensor_3" 4 int16 tenth " °C"
          ∷ field "temperature_sensor_4" 6 int16 tenth " °C"
          ∷ field "temperature_sensor_5" 8 int16 tenth " °C"
          ∷ field "temperature_sensor_6" 10 int16 tenth " °C"
          ∷ field "temperature_sensor_7" 12 int16 tenth " °C"
          ∷ field "temperature_sensor_8" 14 int16 tenth " °C"
          ∷ field "flow_rate" 16 int16 hundredth " m³/h"
          ∷ field "irradiation" 18 int16 one " W/m²"
          ∷ field "pump_speed_1" 21 uint8 one "%"
          ∷ field "pump_speed_2" 22 uint8 one "%"
          ∷ field "pump_speed_3" 23 uint8 one "%"
          ∷ field "system_time" 24 int16 one ""
          ∷ field "scheme" 26 uint8 one ""
          ∷ field "operating_hours_1" 28 uint16 one " h"
          ∷ field "operating_hours_2" 30 uint16 one " h"
          ∷ field "operating_hours_3" 32 uint16 one " h"
          ∷ field "operating_hours_4" 34 uint16 one " h"
          ∷ field "operating_hours_5" 36 uint16 one " h"
          ∷ field "operating_hours_6" 38 uint16 one " h"
          ∷ [])
      ∷ entry 0x7421 0x0010 0x0100 "0x7421" (
          field "temperature_sensor_1" 0 int16 tenth " °C"
          ∷ field "temperature_sensor_2" 2 int16 tenth " °C"
          ∷ field "temperature_sensor_3" 4 int16 tenth " °C"
          ∷ field "temperature_sensor_4" 6 int16 tenth " °C"
          ∷ field "temperature_sensor_5" 8 int16 tenth " °C"
          ∷ field "temperature_rps" 10 int16 tenth " °C"
          ∷ field "pressure_rps" 12 int16 tenth " bar"
          ∷ field "temperature_vfs" 14 int16 tenth " °C"
          ∷ field "flow_rate_vfs" 16 int16 one " l/h"
          ∷ field "pump_speed_relay_1" 24 uint8 one "%"
          ∷ field "pump_speed_relay_2" 25 uint8 one "%"
          ∷ field "pump_speed_relay_3" 26 uint8 one "%"
          ∷ field "pump_speed_relay_4" 27 uint8 one "%"
          ∷ field "pwm_1" 22 uint8 one "%"
          ∷ field "pwm_2" 23 uint8 one "%"
          ∷ field "flow_rate_vfs" 16 int16 one " l/h"
          ∷ field "flow_rate_v40" 18 int16 one " l/h"
          ∷ field "heat_quantity" 48 uint32 one " Wh"
          ∷ field "system_time" 54 uint16 one ""
          ∷ field "date" 56 uint32 one ""
          ∷ field "version" 52 uint16 hundredth ""
          ∷ field "operating_seconds_relay_1" 28 uint32 one " s"
          ∷ field "operating_seconds_relay_2" 32 uint32 one " s"
          ∷ field "operating_seconds_relay_3" 36 uint32 one " s"
          ∷ field "operating_seconds_relay_4" 40 uint32 one " s"
          ∷ field "status" 46 uint16 one ""
          ∷ field "unit" 20 uint8 one ""
          ∷ field "error" 44 uint16 one ""
          ∷ [])
      ∷ entry 0x7422 0x0010 0x0100 "0x7422" (
          field "temperature_sensor_1" 0 int16 tenth " °C"
          ∷ field "temperature_sensor_2" 2 int16 tenth " °C"
          ∷ field "temperature_sensor_3" 4 int16 tenth " °C"
          ∷ field "temperature_sensor_4" 6 int16 tenth " °C"
          ∷ field "temperature_sensor_5" 8 int16 tenth " °C"
          ∷ field "temperature_rps" 10 int16 tenth " °C"
          ∷ field "pressure_rps" 12 int16 tenth " bar"
          ∷ field "temperature_vfs" 14 int16 tenth " °C"
          ∷ field "flow_rate_vfs" 16 int16 one " l/h"
          ∷ field "pump_speed_relay_1" 24 uint8 one "%"
          ∷ field "pump_speed_relay_2" 25 uint8 one "%"
          ∷ field "pump_speed_relay_3" 26 uint8 one "%"
          ∷ field "pump_speed_relay_4" 27 uint8 one "%"
          ∷ field "pwm_1" 22 uint8 one "%"
          ∷ field "pwm_2" 23 uint8 one "%"
          ∷ field "flow_rate_vfs" 16 int16 one " l/h"
          ∷ field "flow_rate_v40" 18 int16 one " l/h"
          ∷ field "heat_quantity" 48 uint32 one " Wh"
          ∷ field "system_time" 54 uint16 one ""
          ∷ field "date" 56 uint32 one ""
          ∷ field "version" 52 uint16 hundredth ""
          ∷ field "operating_seconds_relay_1" 28 uint32 one " s"
          ∷ field "operating_seconds_relay_2" 32 uint32 one " s"
          ∷ field "operating_seconds_relay_3" 36 uint32 one " s"
          ∷ field "operating_seconds_relay_4" 40 uint32 one " s"
          ∷ field "status" 46 uint16 one ""
          ∷ field "unit" 20 uint8 one ""
          ∷ field "error" 44 uint16 one ""
          ∷ [])
      ∷ []
