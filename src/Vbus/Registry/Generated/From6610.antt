-- ===== src/Vbus/Registry/Generated/From6610.antt =====
-- internal/vbus/registry_gen.go, lines 3319 to 3459: the sources 0x6610 to 0x7113.
use vbus2mqtt.Prelude.{[], ◌∷◌}
use vbus2mqtt.Vbus.Double.{Double, hundredth, one, tenth}
use vbus2mqtt.Vbus.Registry.{int16, uint16, uint32, uint8, Registry, entry, field}

module _ {W : Type 0} ⦃d : Double W⦄ where
  unfoldable pub packets_from_6610 : Registry W
  packets_from_6610 =
      entry 0x6610 0x0010 0x0100 "0x6610" (
        field "temperature_sensor_1" 0 int16 tenth " °C"
        ∷ field "temperature_sensor_2" 2 int16 tenth " °C"
        ∷ field "temperature_sensor_3" 4 int16 tenth " °C"
        ∷ field "temperature_sensor_4" 6 int16 tenth " °C"
        ∷ field "temperature_sensor_5" 8 int16 tenth " °C"
        ∷ field "temperature_sensor_6" 10 int16 tenth " °C"
        ∷ field "pump_speed_1" 13 uint8 one "%"
        ∷ field "pump_speed_2" 30 uint8 one "%"
        ∷ field "pump_speed_3" 31 uint8 one "%"
        ∷ field "error_number" 15 uint8 one ""
        ∷ field "error_mask" 16 uint16 one ""
        ∷ field "error_info_1" 18 uint8 one ""
        ∷ field "error_info_2" 19 uint8 one ""
        ∷ field "error_info_3" 20 uint8 one ""
        ∷ field "error_info_4" 21 uint8 one ""
        ∷ field "arrangement_options_1" 22 uint16 one ""
        ∷ field "arrangement_options_2" 32 uint8 one ""
        ∷ field "system" 24 uint8 one ""
        ∷ field "version" 25 uint16 one ""
        ∷ field "module_status" 27 uint8 one ""
        ∷ field "system_time" 28 uint16 one ""
        ∷ field "irradiation" 33 uint16 one " W/m²"
        ∷ field "operating_hours_flag" 35 uint8 one ""
        ∷ [])
      ∷ entry 0x6620 0x0010 0x0100 "0x6620" (
          field "temperature_sensor_1" 0 int16 tenth " °C"
          ∷ field "temperature_sensor_2" 2 int16 tenth " °C"
          ∷ field "temperature_sensor_3" 4 int16 tenth " °C"
          ∷ field "temperature_sensor_4" 6 int16 tenth " °C"
          ∷ field "temperature_sensor_5" 8 int16 tenth " °C"
          ∷ field "temperature_sensor_6" 10 int16 tenth " °C"
          ∷ field "pump_speed_1" 13 uint8 one "%"
          ∷ field "pump_speed_2" 30 uint8 one "%"
          ∷ field "pump_speed_3" 31 uint8 one "%"
          ∷ field "error_number" 15 uint8 one ""
          ∷ field "error_mask" 16 uint16 one ""
          ∷ field "error_info_1" 18 uint8 one ""
          ∷ field "error_info_2" 19 uint8 one ""
          ∷ field "error_info_3" 20 uint8 one ""
          ∷ field "error_info_4" 21 uint8 one ""
          ∷ field "arrangement_options_1" 22 uint16 one ""
          ∷ field "system" 24 uint8 one ""
          ∷ field "version" 25 uint16 one ""
          ∷ field "module_status" 27 uint8 one ""
          ∷ field "system_time" 28 uint16 one ""
          ∷ [])
      ∷ entry 0x7101 0x0010 0x0100 "0x7101" (
          field "temperature_sensor_1" 0 int16 tenth " °C"
          ∷ field "temperature_sensor_2" 2 int16 tenth " °C"
          ∷ field "temperature_sensor_3" 4 int16 tenth " °C"
          ∷ field "temperature_sensor_4" 6 int16 tenth " °C"
          ∷ field "temperature_sensor_5" 8 int16 tenth " °C"
          ∷ field "temperature_rps" 10 int16 tenth " °C"
          ∷ field "pressure_rps" 12 int16 tenth " bar"
          ∷ field "temperature_vfs" 14 int16 tenth " °C"
          ∷ field "flow_rate_vfs" 16 int16 one " l/h"
          ∷ field "pump_speed_relay_1" 24 uint8 one "%"
          ∷ field "pump_speed_relay_2" 25 uint8 one "%"
          ∷ field "pump_speed_relay_3" 26 uint8 one "%"
          ∷ field "pump_speed_relay_4" 27 uint8 one "%"
          ∷ field "pwm_1" 22 uint8 one "%"
          ∷ field "pwm_2" 23 uint8 one "%"
          ∷ field "flow_rate_vfs" 16 int16 one " l/h"
          ∷ field "flow_rate_v40" 18 int16 one " l/h"
          ∷ field "flow_rate_flowrotor" 60 int16 one " l/h"
          ∷ field "heat_quantity" 48 uint32 one " Wh"
          ∷ field "system_time" 54 uint16 one ""
          ∷ field "date" 56 uint32 one ""
          ∷ field "version" 52 uint16 hundredth ""
          ∷ field "operating_seconds_relay_1" 28 uint32 one " s"
          ∷ field "operating_seconds_relay_2" 32 uint32 one " s"
          ∷ field "operating_seconds_relay_3" 36 uint32 one " s"
          ∷ field "operating_seconds_relay_4" 40 uint32 one " s"
          ∷ field "status" 46 uint16 one ""
          ∷ field "unit" 20 uint8 one ""
          ∷ field "error" 44 uint16 one ""
          ∷ [])
      ∷ entry 0x7112 0x0010 0x0100 "0x7112" (
          field "temperature_sensor_1" 0 int16 tenth " °C"
          ∷ field "temperature_sensor_2" 2 int16 tenth " °C"
          ∷ field "temperature_sensor_3" 4 int16 tenth " °C"
          ∷ field "temperature_sensor_4" 6 int16 tenth " °C"
          ∷ field "temperature_sensor_5" 8 int16 tenth " °C"
          ∷ field "temperature_sensor_6" 10 int16 tenth " °C"
          ∷ field "temperature_sensor_7" 12 int16 tenth " °C"
          ∷ field "temperature_sensor_8" 14 int16 tenth " °C"
          ∷ field "temperature_sensor_9" 16 int16 tenth " °C"
          ∷ field "irradiation_sensor_10" 18 int16 one " W/m²"
          ∷ field "temperature_sensor_11" 20 int16 tenth " °C"
          ∷ field "temperature_sensor_12" 22 int16 tenth " °C"
          ∷ field "flow_rate_sensor_9" 24 uint32 one " l/h"
          ∷ field "flow_rate_sensor_11" 28 uint32 one " l/h"
          ∷ field "flow_rate_sensor_12" 32 uint32 one " l/h"
          ∷ field "pressure_sensor_11" 36 int16 hundredth " bar"
          ∷ field "pressure_sensor_12" 38 int16 hundredth " bar"
          ∷ field "relay_1" 40 uint8 one "%"
          ∷ field "relay_2" 41 uint8 one "%"
          ∷ field "relay_3" 42 uint8 one "%"
          ∷ field "relay_4" 43 uint8 one "%"
          ∷ field "relay_5" 44 uint8 one "%"
          ∷ field "pwm_0_10v_a" 64 uint8 one "%"
          ∷ field "pwm_0_10v_b" 65 uint8 one "%"
          ∷ field "system_date" 48 uint32 one ""
          ∷ field "error_mask" 52 uint32 one ""
          ∷ field "warning_mask" 68 uint32 one ""
          ∷ [])
      ∷ entry 0x7113 0x0010 0x0100 "0x7113" (
          field "temperature_module_1_sensor_1" 0 int16 tenth " °C"
          ∷ field "temperature_module_1_sensor_2" 2 int16 tenth " °C"
          ∷ field "temperature_module_1_sensor_3" 4 int16 tenth " °C"
          ∷ field "temperature_module_1_sensor_4" 6 int16 tenth " °C"
          ∷ field "temperature_module_1_sensor_5" 8 int16 tenth " °C"
          ∷ field "temperature_module_1_sensor_6" 10 int16 tenth " °C"
          ∷ field "temperature_module_2_sensor_1" 12 int16 tenth " °C"
          ∷ field "temperature_module_2_sensor_2" 14 int16 tenth " °C"
          ∷ field "temperature_module_2_sensor_3" 16 int16 tenth " °C"
          ∷ field "temperature_module_2_sensor_4" 18 int16 tenth " °C"
          ∷ field "temperature_module_2_sensor_5" 20 int16 tenth " °C"
          ∷ field "temperature_module_2_sensor_6" 22 int16 tenth " °C"
          ∷ [])
      ∷ []
