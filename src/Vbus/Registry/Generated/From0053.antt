-- ===== src/Vbus/Registry/Generated/From0053.antt =====
-- internal/vbus/registry_gen.go, lines 18 to 160: the sources 0x0053 to 0x1051.
use vbus2mqtt.Prelude.{[], ◌∷◌}
use vbus2mqtt.Vbus.Double.{Double, hundredth, one, tenth, thousandth}
use vbus2mqtt.Vbus.Registry.{int16, uint16, uint32, uint8, Registry, entry, field}

module _ {W : Type 0} ⦃d : Double W⦄ where
  unfoldable pub packets_from_0053 : Registry W
  packets_from_0053 =
      entry 0x0053 0x0010 0x0100 "0x0053" (
        field "resistor_sensor_1" 0 uint32 thousandth " Ω"
        ∷ field "resistor_sensor_2" 4 uint32 thousandth " Ω"
        ∷ field "resistor_sensor_3" 8 uint32 thousandth " Ω"
        ∷ field "current_sensor_4" 12 uint32 thousandth " mA"
        ∷ field "temperature_sensor_1" 34 int16 tenth " °C"
        ∷ field "temperature_sensor_2" 36 int16 tenth " °C"
        ∷ field "temperature_sensor_3" 38 int16 tenth " °C"
        ∷ field "impulse_counter_sensor_1" 16 uint32 one ""
        ∷ field "impulse_counter_sensor_2" 20 uint32 one ""
        ∷ field "impulse_counter_sensor_3" 24 uint32 one ""
        ∷ field "irradiation_sensor_4" 40 int16 one " W/m²"
        ∷ field "last_impulse_interval_sensor_1" 44 uint32 one " ms"
        ∷ field "last_impulse_interval_sensor_2" 48 uint32 one " ms"
        ∷ field "last_impulse_interval_sensor_3" 52 uint32 one " ms"
        ∷ field "current_impulse_interval_sensor_1" 56 uint32 one " ms"
        ∷ field "current_impulse_interval_sensor_2" 60 uint32 one " ms"
        ∷ field "current_impulse_interval_sensor_3" 64 uint32 one " ms"
        ∷ field "heat_quantity" 80 uint32 one " Wh"
        ∷ [])
      ∷ entry 0x1001 0x0010 0x0100 "0x1001" (
          field "system_date" 0 uint32 one ""
          ∷ field "temperature_sensor_1" 4 int16 tenth " °C"
          ∷ field "temperature_sensor_2" 6 int16 tenth " °C"
          ∷ field "temperature_sensor_3" 8 int16 tenth " °C"
          ∷ field "temperature_sensor_4" 10 int16 tenth " °C"
          ∷ field "temperature_sensor_5" 12 int16 tenth " °C"
          ∷ field "temperature_vfs_rps_s6" 14 int16 tenth " °C"
          ∷ field "flow_rate_v40" 16 uint32 one " l/h"
          ∷ field "flow_rate_vfs_s6" 20 uint32 one " l/h"
          ∷ field "flow_rate_flowrotor_s7" 24 uint32 one " l/h"
          ∷ field "pressure_rps_s6" 28 int16 hundredth " bar"
          ∷ field "pump_speed_relay_1" 30 int16 one "%"
          ∷ field "pump_speed_relay_2" 31 int16 one "%"
          ∷ field "pump_speed_relay_3" 32 int16 one "%"
          ∷ field "pump_speed_relay_4" 33 int16 one "%"
          ∷ field "pwm_a" 34 int16 one "%"
          ∷ field "pwm_b" 35 int16 one "%"
          ∷ field "error_mask" 36 uint32 one ""
          ∷ field "warning_mask" 40 uint32 one ""
          ∷ [])
      ∷ entry 0x1002 0x0010 0x0100 "0x1002" (
          field "temperature_sensor_1" 0 int16 tenth " °C"
          ∷ field "temperature_sensor_2" 2 int16 tenth " °C"
          ∷ field "temperature_sensor_3" 4 int16 tenth " °C"
          ∷ field "temperature_sensor_4" 6 int16 tenth " °C"
          ∷ field "temperature_sensor_5" 8 int16 tenth " °C"
          ∷ field "temperature_sensor_6" 10 int16 tenth " °C"
          ∷ field "pump_speed_relay_1" 12 int16 one "%"
          ∷ field "pump_speed_relay_2" 13 int16 one "%"
          ∷ field "pump_speed_relay_3" 14 int16 one "%"
          ∷ field "pump_speed_relay_4" 15 int16 one "%"
          ∷ field "pump_speed_relay_5" 16 int16 one "%"
          ∷ [])
      ∷ entry 0x1020 0x0010 0x0100 "0x1020" (
          field "system_date" 0 uint32 one ""
          ∷ field "temperature_sensor_1" 4 int16 tenth " °C"
          ∷ field "temperature_sensor_2" 6 int16 tenth " °C"
          ∷ field "temperature_sensor_3" 8 int16 tenth " °C"
          ∷ field "temperature_sensor_4" 10 int16 tenth " °C"
          ∷ field "temperature_sensor_5" 12 int16 tenth " °C"
          ∷ field "temperature_sensor_6" 14 int16 tenth " °C"
          ∷ field "temperature_sensor_7" 16 int16 tenth " °C"
          ∷ field "state_sensor_8" 18 uint8 one ""
          ∷ field "pump_speed_relay_1" 19 uint8 one "%"
          ∷ field "pump_speed_relay_2" 20 uint8 one "%"
          ∷ field "pump_speed_relay_3" 21 uint8 one "%"
          ∷ field "pump_speed_relay_4" 22 uint8 one "%"
          ∷ field "pump_speed_relay_potfrei" 23 uint8 one "%"
          ∷ field "pump_speed_output_pwm_1" 24 uint8 one "%"
          ∷ field "pump_speed_output_pwm_2" 25 uint8 one "%"
          ∷ field "error" 28 uint32 one ""
          ∷ [])
      ∷ entry 0x1050 0x0010 0x0100 "0x1050" (
          field "temperature_sensor_1" 0 int16 tenth " °C"
          ∷ field "temperature_sensor_2" 2 int16 tenth " °C"
          ∷ field "temperature_sensor_3" 4 int16 tenth " °C"
          ∷ field "temperature_sensor_4" 6 int16 tenth " °C"
          ∷ field "temperature_sensor_5" 8 int16 tenth " °C"
          ∷ field "temperature_sensor_6" 10 int16 tenth " °C"
          ∷ field "temperature_sensor_7" 12 int16 tenth " °C"
          ∷ field "temperature_sensor_8" 14 int16 tenth " °C"
          ∷ field "temperature_sensor_9" 16 int16 tenth " °C"
          ∷ field "temperature_sensor_10" 18 int16 tenth " °C"
          ∷ field "irradiation_cs" 20 int16 one " W/m²"
          ∷ field "impulse_1_v40" 22 uint16 one ""
          ∷ field "digital_input" 24 uint16 one ""
          ∷ field "pwm_1" 68 int16 one "%"
          ∷ field "pump_speed_relay_1" 26 int16 one "%"
          ∷ field "pwm_2" 69 int16 one "%"
          ∷ field "pump_speed_relay_2" 27 int16 one "%"
          ∷ field "pwm_3" 70 int16 one "%"
          ∷ field "pump_speed_relay_3" 28 int16 one "%"
          ∷ field "pump_speed_relay_4" 29 int16 one "%"
          ∷ field "pump_speed_relay_5" 30 int16 one "%"
          ∷ field "pump_speed_relay_6" 31 int16 one "%"
          ∷ field "pump_speed_relay_7" 32 int16 one "%"
          ∷ field "error_mask" 36 uint16 one ""
          ∷ field "messages" 38 uint16 one ""
          ∷ field "system" 40 int16 one ""
          ∷ field "scheme" 42 uint16 one ""
          ∷ field "flow_set_hc1_module_sensor_18" 44 int16 tenth " °C"
          ∷ field "status_hc1_module" 46 uint16 one ""
          ∷ field "flow_set_hc2_module_sensor_25" 48 int16 tenth " °C"
          ∷ field "status_hc2_module" 50 uint16 one ""
          ∷ field "flow_set_hc3_module_sensor_32" 52 int16 tenth " °C"
          ∷ field "status_hc3_module" 54 uint16 one ""
          ∷ field "flow_set_heating_circuit_sensor_11" 56 int16 tenth " °C"
          ∷ field "heating_circuit_status" 58 uint16 one ""
          ∷ field "system_time" 62 int16 one ""
          ∷ field "year" 64 int16 one ""
          ∷ field "month" 66 int16 one ""
          ∷ field "day" 67 int16 one ""
          ∷ [])
      ∷ entry 0x1051 0x0010 0x0100 "0x1051" (
          field "flow_temperature" 0 int16 tenth " °C"
          ∷ field "return_temperature" 2 int16 tenth " °C"
          ∷ field "flow_rate_sensor_8" 4 int16 one " l/h"
          ∷ [])
      ∷ []
