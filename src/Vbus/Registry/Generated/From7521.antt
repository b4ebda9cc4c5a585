-- ===== src/Vbus/Registry/Generated/From7521.antt =====
-- internal/vbus/registry_gen.go, lines 4410 to 4557: the sources 0x7521 to 0x7541.
use vbus2mqtt.Prelude.{[], ◌∷◌}
use vbus2mqtt.Vbus.Double.{Double, hundredth, one, tenth, thousandth}
use vbus2mqtt.Vbus.Registry.{int16, uint16, uint32, uint8, Registry, entry, field}

module _ {W : Type 0} ⦃d : Double W⦄ where
  unfoldable pub packets_from_7521 : Registry W
  packets_from_7521 =
      entry 0x7521 0x0010 0x0100 "0x7521" (
        field "temperature_sensor_1" 0 int16 tenth " °C"
        ∷ field "temperature_sensor_2" 2 int16 tenth " °C"
        ∷ field "temperature_sensor_3" 4 int16 tenth " °C"
        ∷ field "temperature_sensor_4" 6 int16 tenth " °C"
        ∷ field "temperature_sensor_5" 8 int16 tenth " °C"
        ∷ field "temperature_sensor_6" 10 int16 tenth " °C"
        ∷ field "temperature_sensor_7" 12 int16 tenth " °C"
        ∷ field "temperature_sensor_8" 14 int16 tenth " °C"
        ∷ field "temperature_sensor_9" 16 int16 tenth " °C"
        ∷ field "flow_rate_sensor_10" 18 int16 tenth " l/min"
        ∷ field "pump_speed_relay_1" 20 uint8 one "%"
        ∷ field "pump_speed_relay_2" 21 uint8 one "%"
        ∷ field "pump_speed_relay_3" 22 uint8 one "%"
        ∷ field "pump_speed_relay_4" 24 uint16 tenth "%"
        ∷ field "pump_speed_relay_5" 23 uint8 one "%"
        ∷ field "disinf_phase" 27 uint8 one ""
        ∷ field "operating_seconds_relay_1" 28 uint32 one " s"
        ∷ field "operating_seconds_relay_2" 32 uint32 one " s"
        ∷ field "operating_seconds_relay_3" 36 uint32 one " s"
        ∷ field "operating_seconds_relay_4" 40 uint32 one " s"
        ∷ field "operating_seconds_relay_5" 44 uint32 one " s"
        ∷ field "heat_quantity" 52 uint32 one " Wh"
        ∷ field "version" 56 uint16 hundredth ""
        ∷ field "system_time" 58 uint16 one ""
        ∷ field "date" 60 uint32 one ""
        ∷ [])
      ∷ entry 0x7522 0x0010 0x0100 "0x7522" (
          field "temperature_sensor_1" 0 int16 tenth " °C"
          ∷ field "temperature_sensor_2" 2 int16 tenth " °C"
          ∷ field "temperature_sensor_3" 4 int16 tenth " °C"
          ∷ field "temperature_sensor_4" 6 int16 tenth " °C"
          ∷ field "temperature_sensor_5" 8 int16 tenth " °C"
          ∷ field "temperature_sensor_6" 10 int16 tenth " °C"
          ∷ field "temperature_sensor_7" 12 int16 tenth " °C"
          ∷ field "temperature_sensor_8" 14 int16 tenth " °C"
          ∷ field "temperature_sensor_9" 16 int16 tenth " °C"
          ∷ field "temperature_sensor_gds1" 20 int16 tenth " °C"
          ∷ field "temperature_sensor_gds2" 22 int16 tenth " °C"
          ∷ field "irradiation_sensor" 18 int16 one " W/m²"
          ∷ field "flow_rate_sensor_v40" 24 uint32 one " l/h"
          ∷ field "flow_rate_sensor_gds1" 28 uint32 one " l/h"
          ∷ field "flow_rate_sensor_gds2" 32 uint32 one " l/h"
          ∷ field "pressure_sensor_gds1" 36 int16 hundredth " bar"
          ∷ field "pressure_sensor_gds2" 38 int16 hundredth " bar"
          ∷ field "pump_speed_relay_1" 40 uint8 one "%"
          ∷ field "pump_speed_relay_2" 41 uint8 one "%"
          ∷ field "pump_speed_relay_3" 42 uint8 one "%"
          ∷ field "pump_speed_relay_4" 43 uint8 one "%"
          ∷ field "pump_speed_relay_5" 44 uint8 one "%"
          ∷ field "system_date" 48 uint32 one ""
          ∷ field "error_mask" 52 uint32 one ""
          ∷ [])
      ∷ entry 0x7523 0x0010 0x0100 "0x7523" (
          field "temperature_module_1_sensor_1" 0 int16 tenth " °C"
          ∷ field "temperature_module_1_sensor_2" 2 int16 tenth " °C"
          ∷ field "temperature_module_1_sensor_3" 4 int16 tenth " °C"
          ∷ field "temperature_module_1_sensor_4" 6 int16 tenth " °C"
          ∷ field "temperature_module_1_sensor_5" 8 int16 tenth " °C"
          ∷ field "temperature_module_1_sensor_6" 10 int16 tenth " °C"
          ∷ field "temperature_module_2_sensor_1" 12 int16 tenth " °C"
          ∷ field "temperature_module_2_sensor_2" 14 int16 tenth " °C"
          ∷ field "temperature_module_2_sensor_3" 16 int16 tenth " °C"
          ∷ field "temperature_module_2_sensor_4" 18 int16 tenth " °C"
          ∷ field "temperature_module_2_sensor_5" 20 int16 tenth " °C"
          ∷ field "temperature_module_2_sensor_6" 22 int16 tenth " °C"
          ∷ field "temperature_module_3_sensor_1" 24 int16 tenth " °C"
          ∷ field "temperature_module_3_sensor_2" 26 int16 tenth " °C"
          ∷ field "temperature_module_3_sensor_3" 28 int16 tenth " °C"
          ∷ field "temperature_module_3_sensor_4" 30 int16 tenth " °C"
          ∷ field "temperature_module_3_sensor_5" 32 int16 tenth " °C"
          ∷ field "temperature_module_3_sensor_6" 34 int16 tenth " °C"
          ∷ field "temperature_module_4_sensor_1" 36 int16 tenth " °C"
          ∷ field "temperature_module_4_sensor_2" 38 int16 tenth " °C"
          ∷ field "temperature_module_4_sensor_3" 40 int16 tenth " °C"
          ∷ field "temperature_module_4_sensor_4" 42 int16 tenth " °C"
          ∷ field "temperature_module_4_sensor_5" 44 int16 tenth " °C"
          ∷ field "temperature_module_4_sensor_6" 46 int16 tenth " °C"
          ∷ field "temperature_module_5_sensor_1" 48 int16 tenth " °C"
          ∷ field "temperature_module_5_sensor_2" 50 int16 tenth " °C"
          ∷ field "temperature_module_5_sensor_3" 52 int16 tenth " °C"
          ∷ field "temperature_module_5_sensor_4" 54 int16 tenth " °C"
          ∷ field "temperature_module_5_sensor_5" 56 int16 tenth " °C"
          ∷ field "temperature_module_5_sensor_6" 58 int16 tenth " °C"
          ∷ [])
      ∷ entry 0x7541 0x0010 0x0100 "0x7541" (
          field "temperature_sensor_1" 0 int16 tenth " °C"
          ∷ field "temperature_sensor_2" 2 int16 tenth " °C"
          ∷ field "temperature_sensor_3" 4 int16 tenth " °C"
          ∷ field "temperature_sensor_4" 6 int16 tenth " °C"
          ∷ field "temperature_sensor_5" 8 int16 tenth " °C"
          ∷ field "temperature_sensor_6" 10 int16 tenth " °C"
          ∷ field "temperature_sensor_7" 12 int16 tenth " °C"
          ∷ field "temperature_sensor_8" 14 int16 tenth " °C"
          ∷ field "temperature_sensor_s14_vfd" 16 int16 tenth " °C"
          ∷ field "flow_sensor_s8_v40" 20 uint32 one " l/h"
          ∷ field "flow_sensor_s14_vfd" 24 uint32 one " l/h"
          ∷ field "pressure_sensor_s14_vfd" 28 int16 hundredth " bar"
          ∷ field "flow_turbotron" 132 uint32 one " l/h"
          ∷ field "irradiation_sensor_9" 30 int16 one " W/m²"
          ∷ field "pwm_in_dutycycle_1" 32 uint32 thousandth "%"
          ∷ field "pwm_in_dutycycle_2" 36 uint32 thousandth "%"
          ∷ field "pwm_in_dutycycle_3" 40 uint32 thousandth "%"
          ∷ field "pwm_in_dutycycle_4" 44 uint32 thousandth "%"
          ∷ field "pwm_in_frequency_1" 48 uint32 thousandth " Hz"
          ∷ field "pwm_in_frequency_2" 52 uint32 thousandth " Hz"
          ∷ field "pwm_in_frequency_3" 56 uint32 thousandth " Hz"
          ∷ field "pwm_in_frequency_4" 60 uint32 thousandth " Hz"
          ∷ field "pump_speed_relay_1" 64 uint8 one "%"
          ∷ field "pump_speed_relay_2" 65 uint8 one "%"
          ∷ field "pump_speed_relay_3" 66 uint8 one "%"
          ∷ field "pump_speed_relay_4" 67 uint8 one "%"
          ∷ field "pump_speed_relay_5" 68 uint8 one "%"
          ∷ field "output_pwm_1" 72 uint8 one "%"
          ∷ field "output_pwm_2" 73 uint8 one "%"
          ∷ field "output_pwm_3" 74 uint8 one "%"
          ∷ field "output_pwm_4" 75 uint8 one "%"
          ∷ field "operating_seconds_relay_1" 76 uint32 one " s"
          ∷ field "operating_seconds_relay_2" 80 uint32 one " s"
          ∷ field "operating_seconds_relay_3" 84 uint32 one " s"
          ∷ field "operating_seconds_relay_4" 88 uint32 one " s"
          ∷ field "operating_seconds_relay_5" 92 uint32 one " s"
          ∷ field "operating_seconds_output_pwm1" 96 uint32 one " s"
          ∷ field "operating_seconds_output_pwm2" 100 uint32 one " s"
          ∷ field "w_o3" 104 uint32 one " s"
          ∷ field "w_o4" 108 uint32 one " s"
          ∷ field "heat_quantity" 112 uint32 one " Wh"
          ∷ field "error" 116 uint32 one ""
          ∷ field "option_mask" 120 uint32 one ""
          ∷ field "version" 124 uint16 hundredth ""
          ∷ field "system_date" 128 uint32 one ""
          ∷ [])
      ∷ []
