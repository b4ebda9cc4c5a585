-- ===== src/Vbus/Registry/Generated/From7721.antt =====
-- internal/vbus/registry_gen.go, lines 4686 to 4831: the sources 0x7721 to 0x7751.
use vbus2mqtt.Prelude.{[], ◌∷◌}
use vbus2mqtt.Vbus.Double.{Double, one, tenth}
use vbus2mqtt.Vbus.Registry.{int16, uint16, uint32, uint8, Registry, entry, field}

module _ {W : Type 0} ⦃d : Double W⦄ where
  unfoldable pub packets_from_7721 : Registry W
  packets_from_7721 =
      entry 0x7721 0x0010 0x0100 "0x7721" (
        field "temperature_sensor_1" 0 int16 tenth " °C"
        ∷ field "temperature_sensor_2" 2 int16 tenth " °C"
        ∷ field "temperature_sensor_3" 4 int16 tenth " °C"
        ∷ field "temperature_sensor_4" 6 int16 tenth " °C"
        ∷ field "temperature_sensor_5" 8 int16 tenth " °C"
        ∷ field "temperature_sensor_6" 10 int16 tenth " °C"
        ∷ field "temperature_sensor_7" 12 int16 tenth " °C"
        ∷ field "temperature_sensor_8" 14 int16 tenth " °C"
        ∷ field "temperature_sensor_9" 16 int16 tenth " °C"
        ∷ field "temperature_sensor_10" 18 int16 tenth " °C"
        ∷ field "irradiation_cs" 20 int16 one " W/m²"
        ∷ field "impulse_1_v40" 22 uint16 one ""
        ∷ field "digital_input" 24 uint16 one ""
        ∷ field "pump_speed_relay_1" 26 int16 one "%"
        ∷ field "pump_speed_relay_2" 27 int16 one "%"
        ∷ field "pump_speed_relay_3" 28 int16 one "%"
        ∷ field "pump_speed_relay_4" 29 int16 one "%"
        ∷ field "pump_speed_relay_5" 30 int16 one "%"
        ∷ field "pump_speed_relay_6" 31 int16 one "%"
        ∷ field "pump_speed_relay_7" 32 int16 one "%"
        ∷ field "error_mask" 36 uint16 one ""
        ∷ field "messages" 38 uint16 one ""
        ∷ field "system" 40 int16 one ""
        ∷ field "scheme" 42 uint16 one ""
        ∷ field "flow_set_hc1_module_sensor_18" 44 int16 tenth " °C"
        ∷ field "status_hc1_module" 46 uint16 one ""
        ∷ field "flow_set_hc2_module_sensor_25" 48 int16 tenth " °C"
        ∷ field "status_hc2_module" 50 uint16 one ""
        ∷ field "flow_set_hc3_module_sensor_32" 52 int16 tenth " °C"
        ∷ field "status_hc3_module" 54 uint16 one ""
        ∷ field "flow_set_heating_circuit_sensor_11" 56 int16 tenth " °C"
        ∷ field "heating_circuit_status" 58 uint16 one ""
        ∷ field "system_time" 62 int16 one ""
        ∷ field "year" 64 int16 one ""
        ∷ field "month" 66 int16 one ""
        ∷ field "day" 67 int16 one ""
        ∷ [])
      ∷ entry 0x7722 0x0010 0x0100 "0x7722" (
          field "flow_temperature" 0 int16 tenth " °C"
          ∷ field "return_temperature" 2 int16 tenth " °C"
          ∷ field "flow_rate_sensor_8" 4 int16 one " l/h"
          ∷ [])
      ∷ entry 0x7729 0x0010 0x0100 "0x7729" (
          field "temperature_sensor_1" 0 int16 tenth " °F"
          ∷ field "temperature_sensor_2" 2 int16 tenth " °F"
          ∷ field "temperature_sensor_3" 4 int16 tenth " °F"
          ∷ field "temperature_sensor_4" 6 int16 tenth " °F"
          ∷ field "temperature_sensor_5" 8 int16 tenth " °F"
          ∷ field "temperature_sensor_6" 10 int16 tenth " °F"
          ∷ field "temperature_sensor_7" 12 int16 tenth " °F"
          ∷ field "temperature_sensor_8" 14 int16 tenth " °F"
          ∷ field "temperature_sensor_9" 16 int16 tenth " °F"
          ∷ field "temperature_sensor_10" 18 int16 tenth " °F"
          ∷ field "irradiation_cs" 20 int16 one " W/m²"
          ∷ field "impulse_1_v40" 22 uint16 one ""
          ∷ field "digital_input" 24 uint16 one ""
          ∷ field "pump_speed_relay_1" 26 int16 one "%"
          ∷ field "pump_speed_relay_2" 27 int16 one "%"
          ∷ field "pump_speed_relay_3" 28 int16 one "%"
          ∷ field "pump_speed_relay_4" 29 int16 one "%"
          ∷ field "pump_speed_relay_5" 30 int16 one "%"
          ∷ field "pump_speed_relay_6" 31 int16 one "%"
          ∷ field "pump_speed_relay_7" 32 int16 one "%"
          ∷ field "error_mask" 36 uint16 one ""
          ∷ field "messages" 38 uint16 one ""
          ∷ field "system" 40 int16 one ""
          ∷ field "scheme" 42 uint16 one ""
          ∷ field "flow_set_hc1_module_sensor_18" 44 int16 tenth " °F"
          ∷ field "status_hc1_module" 46 uint16 one ""
          ∷ field "flow_set_hc2_module_sensor_25" 48 int16 tenth " °F"
          ∷ field "status_hc2_module" 50 uint16 one ""
          ∷ field "flow_set_hc3_module_sensor_32" 52 int16 tenth " °F"
          ∷ field "status_hc3_module" 54 uint16 one ""
          ∷ field "flow_set_heating_circuit_sensor_11" 56 int16 tenth " °F"
          ∷ field "heating_circuit_status" 58 uint16 one ""
          ∷ field "system_time" 62 int16 one ""
          ∷ field "year" 64 int16 one ""
          ∷ field "month" 66 int16 one ""
          ∷ field "day" 67 int16 one ""
          ∷ [])
      ∷ entry 0x772A 0x0010 0x0100 "0x772A" (
          field "flow_temperature" 0 int16 tenth " °F"
          ∷ field "return_temperature" 2 int16 tenth " °F"
          ∷ field "flow_rate_sensor_8" 4 int16 one " l/h"
          ∷ [])
      ∷ entry 0x7731 0x0010 0x0100 "0x7731" (
          field "temperature_sensor_1" 0 int16 tenth " °C"
          ∷ field "temperature_sensor_2" 2 int16 tenth " °C"
          ∷ field "temperature_sensor_3" 4 int16 tenth " °C"
          ∷ field "temperature_sensor_4" 6 int16 tenth " °C"
          ∷ field "temperature_sensor_5" 8 int16 tenth " °C"
          ∷ field "temperature_sensor_6" 10 int16 tenth " °C"
          ∷ field "temperature_sensor_7" 12 int16 tenth " °C"
          ∷ field "temperature_sensor_8" 14 int16 tenth " °C"
          ∷ field "pump_speed_r1" 16 uint8 one "%"
          ∷ field "pump_speed_r2" 17 uint8 one "%"
          ∷ field "pump_speed_r3" 18 uint8 one "%"
          ∷ field "relay_byte" 19 uint8 one ""
          ∷ field "scheme" 26 uint8 one ""
          ∷ [])
      ∷ entry 0x7751 0x0010 0x0100 "0x7751" (
          field "temperature_sensor_1" 0 int16 tenth " °C"
          ∷ field "temperature_sensor_2" 2 int16 tenth " °C"
          ∷ field "temperature_sensor_3" 4 int16 tenth " °C"
          ∷ field "temperature_sensor_4" 6 int16 tenth " °C"
          ∷ field "temperature_sensor_5" 8 int16 tenth " °C"
          ∷ field "temperature_sensor_6" 10 int16 tenth " °C"
          ∷ field "temperature_sensor_7" 12 int16 tenth " °C"
          ∷ field "temperature_sensor_8" 14 int16 tenth " °C"
          ∷ field "temperature_sensor_9" 16 int16 tenth " °C"
          ∷ field "temperature_sensor_10" 18 int16 tenth " °C"
          ∷ field "temperature_sensor_11" 20 int16 tenth " °C"
          ∷ field "flow_rate" 22 int16 tenth " l/min"
          ∷ field "pump_speed_r1" 24 uint8 one "%"
          ∷ field "pump_speed_r2" 25 uint8 one "%"
          ∷ field "pump_speed_r3" 26 uint8 one "%"
          ∷ field "heat_quantity" 28 uint32 one " Wh"
          ∷ field "system_date" 32 uint32 one ""
          ∷ field "system_time" 36 uint16 one ""
          ∷ field "variant" 39 uint8 one ""
          ∷ [])
      ∷ []
