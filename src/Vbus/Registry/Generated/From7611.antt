-- ===== src/Vbus/Registry/Generated/From7611.antt =====
-- internal/vbus/registry_gen.go, lines 4558 to 4685: the sources 0x7611 to 0x7712.
use vbus2mqtt.Prelude.{[], ◌∷◌}
use vbus2mqtt.Vbus.Double.{Double, hundredth, one, tenth}
use vbus2mqtt.Vbus.Registry.{int16, uint16, uint32, uint8, Registry, entry, field}

module _ {W : Type 0} ⦃d : Double W⦄ where
  unfoldable pub packets_from_7611 : Registry W
  packets_from_7611 =
      entry 0x7611 0x0010 0x0100 "0x7611" (
        field "temperature_sensor_1" 0 int16 tenth " °C"
        ∷ field "temperature_sensor_2" 2 int16 tenth " °C"
        ∷ field "temperature_sensor_3" 4 int16 tenth " °C"
        ∷ field "temperature_sensor_4" 6 int16 tenth " °C"
        ∷ field "temperature_sensor_5" 8 int16 tenth " °C"
        ∷ field "temperature_sensor_6" 10 int16 tenth " °C"
        ∷ field "temperature_sensor_7" 12 int16 tenth " °C"
        ∷ field "temperature_sensor_8" 14 int16 tenth " °C"
        ∷ field "temperature_sensor_9" 16 int16 tenth " °C"
        ∷ field "system_time" 18 int16 one ""
        ∷ field "pump_speed_relay_1" 20 int16 one "%"
        ∷ field "pump_speed_relay_2" 21 int16 one "%"
        ∷ field "sensor_defect_mask" 23 uint8 one ""
        ∷ field "dhw_set_temperature" 24 uint8 one " °C"
        ∷ field "options" 25 uint8 one ""
        ∷ field "status" 26 uint8 one ""
        ∷ [])
      ∷ entry 0x7621 0x0010 0x0100 "0x7621" (
          field "temperature_sensor_1" 0 int16 tenth " °C"
          ∷ field "temperature_sensor_2" 2 int16 tenth " °C"
          ∷ field "temperature_sensor_3" 4 int16 tenth " °C"
          ∷ field "temperature_sensor_4" 6 int16 tenth " °C"
          ∷ field "temperature_sensor_5" 8 int16 tenth " °C"
          ∷ field "temperature_sensor_6" 10 int16 tenth " °C"
          ∷ field "temperature_sensor_7" 12 int16 tenth " °C"
          ∷ field "flow_rate_sensor_8" 14 int16 one " l/h"
          ∷ field "irradiation_sensor_9" 16 int16 one " W/m²"
          ∷ field "system_time" 18 int16 one ""
          ∷ field "pump_speed_relay_1" 20 int16 one "%"
          ∷ field "pump_speed_relay_2" 21 int16 one "%"
          ∷ field "pump_speed_relay_3" 22 int16 one "%"
          ∷ field "pump_speed_relay_4" 23 int16 one "%"
          ∷ field "pump_speed_relay_5" 24 int16 one "%"
          ∷ field "error_mask" 25 uint16 one ""
          ∷ field "messages" 28 uint16 one ""
          ∷ [])
      ∷ entry 0x7622 0x0010 0x0100 "0x7622" (
          field "flow_temperature" 0 int16 tenth " °C"
          ∷ field "return_temperature" 2 int16 tenth " °C"
          ∷ field "flow_rate_sensor_8" 4 int16 one " l/h"
          ∷ [])
      ∷ entry 0x7651 0x0010 0x0100 "0x7651" (
          field "temperature_sensor_1" 0 int16 tenth " °C"
          ∷ field "temperature_sensor_2" 2 int16 tenth " °C"
          ∷ field "temperature_sensor_3" 4 int16 tenth " °C"
          ∷ field "temperature_sensor_4" 6 int16 tenth " °C"
          ∷ field "temperature_sensor_5" 8 int16 tenth " °C"
          ∷ field "temperature_sensor_6" 10 int16 tenth " °C"
          ∷ field "temperature_sensor_7" 12 int16 tenth " °C"
          ∷ field "flow_rate_sensor_8" 14 int16 tenth " l/min"
          ∷ field "digital_input_9" 16 int16 one ""
          ∷ field "status_relay_1" 17 int16 one "%"
          ∷ field "status_relay2" 18 int16 one "%"
          ∷ field "relay_3_status" 19 int16 one "%"
          ∷ field "relay_4_status" 20 int16 one "%"
          ∷ field "status_relay_5" 21 int16 one "%"
          ∷ field "version" 24 uint16 hundredth ""
          ∷ field "system_time" 26 uint16 one ""
          ∷ [])
      ∷ entry 0x7711 0x0010 0x0100 "0x7711" (
          field "temperature_sensor_1" 0 int16 tenth " °C"
          ∷ field "temperature_sensor_2" 2 int16 tenth " °C"
          ∷ field "temperature_sensor_3" 4 int16 tenth " °C"
          ∷ field "temperature_sensor_4" 6 int16 tenth " °C"
          ∷ field "temperature_sensor_5" 8 int16 tenth " °C"
          ∷ field "temperature_sensor_6" 10 int16 tenth " °C"
          ∷ field "temperature_sensor_7" 12 int16 tenth " °C"
          ∷ field "temperature_sensor_8" 14 int16 tenth " °C"
          ∷ field "temperature_sensor_9" 16 int16 tenth " °C"
          ∷ field "temperature_sensor_10" 18 int16 tenth " °C"
          ∷ field "irradiation" 20 int16 one " W/m²"
          ∷ field "impulse_input_1" 22 uint16 one ""
          ∷ field "impulse_input_2" 24 uint16 one ""
          ∷ field "pump_speed_relay_1" 26 uint8 one "%"
          ∷ field "pump_speed_relay_2" 27 uint8 one "%"
          ∷ field "pump_speed_relay_3" 28 uint8 one "%"
          ∷ field "pump_speed_relay_4" 29 uint8 one "%"
          ∷ field "pump_speed_relay_5" 30 uint8 one "%"
          ∷ field "pump_speed_relay_6" 31 uint8 one "%"
          ∷ field "pump_speed_relay_7" 32 uint8 one "%"
          ∷ field "system_time" 34 uint16 one ""
          ∷ field "error_mask" 36 uint16 one ""
          ∷ field "warning_mask" 38 uint16 one ""
          ∷ field "controller_version" 40 uint16 one ""
          ∷ field "system" 42 uint8 one ""
          ∷ field "scheme" 43 uint8 one ""
          ∷ field "hc1_flow_set" 44 int16 tenth " °C"
          ∷ field "hc1_operation_status" 46 uint8 one ""
          ∷ field "hc1_status" 47 uint8 one ""
          ∷ field "hc2_flow_set" 48 int16 tenth " °C"
          ∷ field "hc2_operation_status" 50 uint8 one ""
          ∷ field "hc2_status" 51 uint8 one ""
          ∷ field "hc3_flow_set" 52 int16 tenth " °C"
          ∷ field "hc3_operation_status" 54 uint8 one ""
          ∷ field "hc3_status" 55 uint8 one ""
          ∷ field "sensor_usage_mask" 56 uint32 one ""
          ∷ field "relay_usage_mask" 60 uint32 one ""
          ∷ [])
      ∷ entry 0x7712 0x0010 0x0100 "0x7712" (
          field "flow_temperature" 0 int16 tenth " °C"
          ∷ field "return_temperature" 2 int16 tenth " °C"
          ∷ field "flow_rate" 4 uint16 one " l/h"
          ∷ [])
      ∷ []
