-- ===== src/Vbus/Registry/Generated/From1052.antt =====
-- internal/vbus/registry_gen.go, lines 161 to 302: the sources 0x1052 to 0x105A.
use vbus2mqtt.Prelude.{[], ◌∷◌}
use vbus2mqtt.Vbus.Double.{Double, hundredth, one, tenth}
use vbus2mqtt.Vbus.Registry.{int16, uint32, uint8, Registry, entry, field}

module _ {W : Type 0} ⦃d : Double W⦄ where
  unfoldable pub packets_from_1052 : Registry W
  packets_from_1052 =
      entry 0x1052 0x0010 0x0100 "0x1052" (
        field "temperature_sensor_1" 0 int16 tenth " °C"
        ∷ field "temperature_sensor_2" 2 int16 tenth " °C"
        ∷ field "temperature_sensor_3" 4 int16 tenth " °C"
        ∷ field "temperature_sensor_4" 6 int16 tenth " °C"
        ∷ field "temperature_sensor_5" 8 int16 tenth " °C"
        ∷ field "temperature_sensor_6" 10 int16 tenth " °C"
        ∷ field "temperature_sensor_7" 12 int16 tenth " °C"
        ∷ field "temperature_sensor_8" 14 int16 tenth " °C"
        ∷ field "temperature_sensor_9" 16 int16 tenth " °C"
        ∷ field "irradiation_sensor_10" 18 int16 one " W/m²"
        ∷ field "temperature_sensor_11" 20 int16 tenth " °C"
        ∷ field "temperature_sensor_12" 22 int16 tenth " °C"
        ∷ field "flow_rate_sensor_9" 24 uint32 one " l/h"
        ∷ field "flow_rate_sensor_11" 28 uint32 one " l/h"
        ∷ field "flow_rate_sensor_12" 32 uint32 one " l/h"
        ∷ field "pressure_sensor_11" 36 int16 hundredth " bar"
        ∷ field "pressure_sensor_12" 38 int16 hundredth " bar"
        ∷ field "pump_speed_relay_1" 40 uint8 one "%"
        ∷ field "pump_speed_relay_2" 41 uint8 one "%"
        ∷ field "pump_speed_relay_3" 42 uint8 one "%"
        ∷ field "pump_speed_relay_4" 43 uint8 one "%"
        ∷ field "pump_speed_relay_5" 44 uint8 one "%"
        ∷ field "system_date" 48 uint32 one ""
        ∷ field "error_mask" 52 uint32 one ""
        ∷ [])
      ∷ entry 0x1053 0x0010 0x0100 "0x1053" (
          field "temperature_module_1_sensor_1" 0 int16 tenth " °C"
          ∷ field "temperature_module_1_sensor_2" 2 int16 tenth " °C"
          ∷ field "temperature_module_1_sensor_3" 4 int16 tenth " °C"
          ∷ field "temperature_module_1_sensor_4" 6 int16 tenth " °C"
          ∷ field "temperature_module_1_sensor_5" 8 int16 tenth " °C"
          ∷ field "temperature_module_1_sensor_6" 10 int16 tenth " °C"
          ∷ field "temperature_module_2_sensor_1" 12 int16 tenth " °C"
          ∷ field "temperature_module_2_sensor_2" 14 int16 tenth " °C"
          ∷ field "temperature_module_2_sensor_3" 16 int16 tenth " °C"
          ∷ field "temperature_module_2_sensor_4" 18 int16 tenth " °C"
          ∷ field "temperature_module_2_sensor_5" 20 int16 tenth " °C"
          ∷ field "temperature_module_2_sensor_6" 22 int16 tenth " °C"
          ∷ [])
      ∷ entry 0x1054 0x0010 0x0100 "0x1054" (
          field "flow_set_temperature" 0 int16 tenth " °C"
          ∷ field "operating_state" 2 uint8 one ""
          ∷ [])
      ∷ entry 0x1055 0x0010 0x0100 "0x1055" (
          field "flow_set_temperature" 0 int16 tenth " °C"
          ∷ field "operating_state" 2 uint8 one ""
          ∷ [])
      ∷ entry 0x1056 0x0010 0x0100 "0x1056" (
          field "heat_quantity" 0 uint32 one " Wh"
          ∷ field "heat_quantity_today" 8 uint32 one " Wh"
          ∷ field "heat_quantity_week" 12 uint32 one " Wh"
          ∷ [])
      ∷ entry 0x1057 0x0010 0x0100 "0x1057" (
          field "heat_quantity" 0 uint32 one " Wh"
          ∷ field "heat_quantity_today" 8 uint32 one " Wh"
          ∷ field "heat_quantity_week" 12 uint32 one " Wh"
          ∷ [])
      ∷ entry 0x1058 0x0010 0x0100 "0x1058" (
          field "temperature_sensor_1" 0 int16 tenth " °C"
          ∷ field "temperature_sensor_2" 2 int16 tenth " °C"
          ∷ field "temperature_sensor_3" 4 int16 tenth " °C"
          ∷ field "sensor_3_zustand_fs" 6 uint8 one ""
          ∷ field "sensor_4_zustand_ta" 7 uint8 one ""
          ∷ field "pump_speed_relay_1" 8 int16 one "%"
          ∷ field "pump_speed_relay_2" 9 int16 one "%"
          ∷ field "pump_speed_relay_3" 10 int16 one "%"
          ∷ field "pump_speed_relay_4" 11 int16 one "%"
          ∷ field "scheme" 12 int16 one ""
          ∷ field "operating_seconds_relay_1" 16 uint32 one " s"
          ∷ field "operating_seconds_relay_2" 20 uint32 one " s"
          ∷ field "operating_seconds_relay_3" 24 uint32 one " s"
          ∷ field "operating_seconds_relay_4" 28 uint32 one " s"
          ∷ field "error_mask" 32 uint32 one ""
          ∷ field "messages" 36 uint32 one ""
          ∷ [])
      ∷ entry 0x1059 0x0010 0x0100 "0x1059" (
          field "temperature_sensor_1" 0 int16 tenth " °C"
          ∷ field "temperature_sensor_2" 2 int16 tenth " °C"
          ∷ field "temperature_sensor_3" 4 int16 tenth " °C"
          ∷ field "temperature_sensor_4" 6 int16 tenth " °C"
          ∷ field "temperature_sensor_5" 8 int16 tenth " °C"
          ∷ field "pump_speed_relay_1" 12 int16 one "%"
          ∷ field "pump_speed_relay_2" 13 int16 one "%"
          ∷ field "pump_speed_relay_3" 14 int16 one "%"
          ∷ field "pump_speed_relay_4" 15 int16 one "%"
          ∷ field "controller_output_1" 17 int16 one "%"
          ∷ field "controller_output_2" 18 int16 one "%"
          ∷ field "system_date" 20 uint32 one ""
          ∷ field "error_mask" 24 uint32 one ""
          ∷ field "warning_mask" 28 uint32 one ""
          ∷ [])
      ∷ entry 0x105A 0x0010 0x0100 "0x105A" (
          field "outdoor_temperature" 0 int16 tenth " °C"
          ∷ field "temperature_speicher_unten" 2 int16 tenth " °C"
          ∷ field "temperature_speicher_oben" 4 int16 tenth " °C"
          ∷ field "irradiation" 6 int16 one " W/m²"
          ∷ field "pump_speed_relay_pumpe" 8 int16 one "%"
          ∷ field "pump_speed_heat_pump" 9 int16 one "%"
          ∷ field "pump_speed_relay_fastoff" 10 int16 one "%"
          ∷ field "operating_seconds_relay_pump" 12 uint32 one " s"
          ∷ field "operating_seconds_relay_fastoff" 16 uint32 one " s"
          ∷ field "error_mask" 20 uint32 one ""
          ∷ field "system_date" 24 uint32 one ""
          ∷ field "version" 28 uint32 hundredth ""
          ∷ [])
      ∷ []
