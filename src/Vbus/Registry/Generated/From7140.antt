-- ===== src/Vbus/Registry/Generated/From7140.antt =====
-- internal/vbus/registry_gen.go, lines 3460 to 3604: the sources 0x7140 to 0x7178.
use vbus2mqtt.Prelude.{[], ◌∷◌}
use vbus2mqtt.Vbus.Double.{Double, hundredth, one, tenth, thousandth}
use vbus2mqtt.Vbus.Registry.{int16, uint16, uint32, uint8, Registry, entry, field}

module _ {W : Type 0} ⦃d : Double W⦄ where
  unfoldable pub packets_from_7140 : Registry W
  packets_from_7140 =
      entry 0x7140 0x0010 0x0100 "0x7140" (
        field "temperature_sensor_1" 0 int16 tenth " °C"
        ∷ field "temperature_sensor_2" 2 int16 tenth " °C"
        ∷ field "temperature_sensor_3" 4 int16 tenth " °C"
        ∷ field "temperature_sensor_4" 6 int16 tenth " °C"
        ∷ field "temperature_sensor_5" 8 int16 tenth " °C"
        ∷ field "temperature_sensor_6" 10 int16 tenth " °C"
        ∷ field "temperature_sensor_7" 12 int16 tenth " °C"
        ∷ field "temperature_sensor_8" 14 int16 tenth " °C"
        ∷ field "temperature_sensor_9" 16 int16 tenth " °C"
        ∷ field "irradiation_sensor_10" 18 int16 one " W/m²"
        ∷ field "flow_rate_sensor_10" 20 uint32 one " l/h"
        ∷ field "pump_speed_relay_1" 24 uint8 one "%"
        ∷ field "pump_speed_relay_2" 25 uint8 one "%"
        ∷ field "pump_speed_relay_3" 26 uint8 one "%"
        ∷ field "system_date" 28 uint32 one ""
        ∷ field "error_mask" 32 uint32 one ""
        ∷ [])
      ∷ entry 0x7160 0x0010 0x0100 "0x7160" (
          field "temperature_sensor_1" 0 int16 tenth " °C"
          ∷ field "temperature_sensor_2" 2 int16 tenth " °C"
          ∷ field "temperature_sensor_3" 4 int16 tenth " °C"
          ∷ field "temperature_sensor_4" 6 int16 tenth " °C"
          ∷ field "temperature_sensor_5" 8 int16 tenth " °C"
          ∷ field "temperature_sensor_6" 10 int16 tenth " °C"
          ∷ field "temperature_sensor_7" 12 int16 tenth " °C"
          ∷ field "temperature_sensor_8" 14 int16 tenth " °C"
          ∷ field "temperature_gfd1" 36 int16 tenth " °C"
          ∷ field "temperature_gfd2" 38 int16 tenth " °C"
          ∷ field "irradiation" 16 int16 one " W/m²"
          ∷ field "flow_rate" 18 int16 one " l/h"
          ∷ field "flow_rate_2" 44 uint32 one " l/h"
          ∷ field "flow_rate_3" 48 uint32 one " l/h"
          ∷ field "pump_speed_a1" 20 uint8 one "%"
          ∷ field "pump_speed_a2" 21 uint8 one "%"
          ∷ field "pump_speed_a3" 22 uint8 one "%"
          ∷ field "pump_speed_a" 23 uint8 one "%"
          ∷ field "power_2" 52 uint32 thousandth " kW"
          ∷ field "power_3" 56 uint32 thousandth " kW"
          ∷ field "error_mask" 32 uint8 one ""
          ∷ field "sensor_line_break_number" 33 uint8 one ""
          ∷ field "sensor_short_circuit_number" 34 uint8 one ""
          ∷ field "system_time" 42 int16 one ""
          ∷ field "system_time2" 42 int16 one ""
          ∷ [])
      ∷ entry 0x7161 0x0010 0x0100 "0x7161" (
          field "flow_set_temperature" 0 int16 tenth " °C"
          ∷ field "mixer_runtime" 2 uint8 one " s"
          ∷ field "mixer_break_time" 3 uint8 one " s"
          ∷ field "hc_status" 4 uint16 one ""
          ∷ [])
      ∷ entry 0x7162 0x0010 0x0100 "0x7162" (
          field "flow_set_temperature" 0 int16 tenth " °C"
          ∷ field "mixer_runtime" 2 uint8 one " s"
          ∷ field "mixer_break_time" 3 uint8 one " s"
          ∷ field "hc_status" 4 uint16 one ""
          ∷ [])
      ∷ entry 0x7163 0x0010 0x0100 "0x7163" (
          field "flow_set_temperature" 0 int16 tenth " °C"
          ∷ field "mixer_runtime" 2 uint8 one " s"
          ∷ field "mixer_break_time" 3 uint8 one " s"
          ∷ field "hc_status" 4 uint16 one ""
          ∷ [])
      ∷ entry 0x7176 0x0010 0x0100 "0x7176" (
          field "temperature_sensor_1" 0 int16 tenth " °C"
          ∷ field "temperature_sensor_2" 2 int16 tenth " °C"
          ∷ field "temperature_sensor_3" 4 int16 tenth " °C"
          ∷ field "temperature_sensor_4" 6 int16 tenth " °C"
          ∷ field "temperature_sensor_5" 8 int16 tenth " °C"
          ∷ field "temperature_sensor_6" 10 int16 tenth " °C"
          ∷ field "temperature_sensor_7" 12 int16 tenth " °C"
          ∷ field "temperature_sensor_8" 14 int16 tenth " °C"
          ∷ field "temperature_sensor_9" 16 int16 tenth " °C"
          ∷ field "temperature_sensor_10" 18 int16 tenth " °C"
          ∷ field "irradiation_sensor_11" 20 int16 one " W/m²"
          ∷ field "temperature_sensor_ga1" 24 int16 tenth " °C"
          ∷ field "temperature_sensor_ga2" 26 int16 tenth " °C"
          ∷ field "flow_rate_sensor_9" 28 uint32 one " l/h"
          ∷ field "flow_rate_sensor_10" 32 uint32 one " l/h"
          ∷ field "flow_rate_sensor_ga1" 36 uint32 one " l/h"
          ∷ field "flow_rate_sensor_ga2" 40 uint32 one " l/h"
          ∷ field "pressure_sensor_ga1" 44 int16 hundredth " bar"
          ∷ field "pressure_sensor_ga2" 46 int16 hundredth " bar"
          ∷ field "relay_1" 48 uint8 one "%"
          ∷ field "relay_2" 49 uint8 one "%"
          ∷ field "relay_3" 50 uint8 one "%"
          ∷ field "relay_4" 51 uint8 one "%"
          ∷ field "relay_5" 52 uint8 one "%"
          ∷ field "pwm_0_10v_a" 72 uint8 one "%"
          ∷ field "pwm_0_10v_b" 73 uint8 one "%"
          ∷ field "pwm_0_10v_c" 74 uint8 one "%"
          ∷ field "pwm_0_10v_d" 75 uint8 one "%"
          ∷ field "system_date" 56 uint32 one ""
          ∷ field "error_mask" 60 uint32 one ""
          ∷ [])
      ∷ entry 0x7177 0x0010 0x0100 "0x7177" (
          field "temperature_module_1_sensor_1" 0 int16 tenth " °C"
          ∷ field "temperature_module_1_sensor_2" 2 int16 tenth " °C"
          ∷ field "temperature_module_1_sensor_3" 4 int16 tenth " °C"
          ∷ field "temperature_module_1_sensor_4" 6 int16 tenth " °C"
          ∷ field "temperature_module_1_sensor_5" 8 int16 tenth " °C"
          ∷ field "temperature_module_1_sensor_6" 10 int16 tenth " °C"
          ∷ field "temperature_module_2_sensor_1" 12 int16 tenth " °C"
          ∷ field "temperature_module_2_sensor_2" 14 int16 tenth " °C"
          ∷ field "temperature_module_2_sensor_3" 16 int16 tenth " °C"
          ∷ field "temperature_module_2_sensor_4" 18 int16 tenth " °C"
          ∷ field "temperature_module_2_sensor_5" 20 int16 tenth " °C"
          ∷ field "temperature_module_2_sensor_6" 22 int16 tenth " °C"
          ∷ [])
      ∷ entry 0x7178 0x0010 0x0100 "0x7178" (
          field "flow_set_temperature" 0 int16 tenth " °C"
          ∷ field "operating_state" 2 uint8 one ""
          ∷ [])
      ∷ []
