-- ===== src/Vbus/Registry/Generated/From7E11.antt =====
-- internal/vbus/registry_gen.go, lines 5076 to 5217: the sources 0x7E11 to 0x7F62.
use vbus2mqtt.Prelude.{[], ◌∷◌}
use vbus2mqtt.Vbus.Double.{Double, hundredth, one, tenth, thousandth}
use vbus2mqtt.Vbus.Registry.{int16, uint32, uint8, Registry, entry, field}

module _ {W : Type 0} ⦃d : Double W⦄ where
  unfoldable pub packets_from_7e11 : Registry W
  packets_from_7e11 =
      entry 0x7E11 0x0010 0x0100 "0x7E11" (
        field "temperature_sensor_1" 0 int16 tenth " °C"
        ∷ field "temperature_sensor_2" 2 int16 tenth " °C"
        ∷ field "temperature_sensor_3" 4 int16 tenth " °C"
        ∷ field "temperature_sensor_4" 6 int16 tenth " °C"
        ∷ field "temperature_sensor_5" 8 int16 tenth " °C"
        ∷ field "temperature_sensor_6" 10 int16 tenth " °C"
        ∷ field "temperature_sensor_7" 12 int16 tenth " °C"
        ∷ field "temperature_sensor_8" 14 int16 tenth " °C"
        ∷ field "temperature_sensor_9" 16 int16 tenth " °C"
        ∷ field "temperature_sensor_10" 18 int16 tenth " °C"
        ∷ field "temperature_sensor_11" 20 int16 tenth " °C"
        ∷ field "temperature_sensor_12" 22 int16 tenth " °C"
        ∷ field "temperature_sensor_13" 24 int16 tenth " °C"
        ∷ field "temperature_sensor_14" 26 int16 tenth " °C"
        ∷ field "temperature_sensor_15" 28 int16 tenth " °C"
        ∷ field "irradiation_sensor_16" 30 int16 one " W/m²"
        ∷ field "temperature_sensor_17" 32 int16 tenth " °C"
        ∷ field "temperature_sensor_18" 34 int16 tenth " °C"
        ∷ field "temperature_sensor_19" 36 int16 tenth " °C"
        ∷ field "temperature_sensor_20" 38 int16 tenth " °C"
        ∷ field "flow_rate_sensor_13" 40 uint32 one " l/h"
        ∷ field "flow_rate_sensor_14" 44 uint32 one " l/h"
        ∷ field "flow_rate_sensor_15" 48 uint32 one " l/h"
        ∷ field "flow_rate_sensor_17" 52 uint32 one " l/h"
        ∷ field "flow_rate_sensor_18" 56 uint32 one " l/h"
        ∷ field "flow_rate_sensor_19" 60 uint32 one " l/h"
        ∷ field "flow_rate_sensor_20" 64 uint32 one " l/h"
        ∷ field "flow_rate_sensor_21" 104 uint32 one " l/h"
        ∷ field "pressure_sensor_17" 68 int16 hundredth " bar"
        ∷ field "pressure_sensor_18" 70 int16 hundredth " bar"
        ∷ field "pressure_sensor_19" 72 int16 hundredth " bar"
        ∷ field "pressure_sensor_20" 74 int16 hundredth " bar"
        ∷ field "pump_speed_relay_1" 76 uint8 one "%"
        ∷ field "pump_speed_relay_2" 77 uint8 one "%"
        ∷ field "pump_speed_relay_3" 78 uint8 one "%"
        ∷ field "pump_speed_relay_4" 79 uint8 one "%"
        ∷ field "pump_speed_relay_5" 80 uint8 one "%"
        ∷ field "pump_speed_relay_6" 81 uint8 one "%"
        ∷ field "pump_speed_relay_7" 82 uint8 one "%"
        ∷ field "pump_speed_relay_8" 83 uint8 one "%"
        ∷ field "pump_speed_relay_9" 84 uint8 one "%"
        ∷ field "pump_speed_relay_10" 85 uint8 one "%"
        ∷ field "pump_speed_relay_11" 86 uint8 one "%"
        ∷ field "pump_speed_relay_12" 87 uint8 one "%"
        ∷ field "pump_speed_relay_13" 88 uint8 one "%"
        ∷ field "pump_speed_relay_14" 89 uint8 one "%"
        ∷ field "output_a" 100 uint8 one "%"
        ∷ field "output_b" 101 uint8 one "%"
        ∷ field "output_c" 102 uint8 one "%"
        ∷ field "output_d" 103 uint8 one "%"
        ∷ field "system_date" 92 uint32 one ""
        ∷ field "error_mask" 96 uint32 one ""
        ∷ [])
      ∷ entry 0x7E12 0x0010 0x0100 "0x7E12" (
          field "temperature_module_1_sensor_1" 0 int16 tenth " °C"
          ∷ field "temperature_module_1_sensor_2" 2 int16 tenth " °C"
          ∷ field "temperature_module_1_sensor_3" 4 int16 tenth " °C"
          ∷ field "temperature_module_1_sensor_4" 6 int16 tenth " °C"
          ∷ field "temperature_module_1_sensor_5" 8 int16 tenth " °C"
          ∷ field "temperature_module_1_sensor_6" 10 int16 tenth " °C"
          ∷ field "temperature_module_2_sensor_1" 12 int16 tenth " °C"
          ∷ field "temperature_module_2_sensor_2" 14 int16 tenth " °C"
          ∷ field "temperature_module_2_sensor_3" 16 int16 tenth " °C"
          ∷ field "temperature_module_2_sensor_4" 18 int16 tenth " °C"
          ∷ field "temperature_module_2_sensor_5" 20 int16 tenth " °C"
          ∷ field "temperature_module_2_sensor_6" 22 int16 tenth " °C"
          ∷ field "temperature_module_3_sensor_1" 24 int16 tenth " °C"
          ∷ field "temperature_module_3_sensor_2" 26 int16 tenth " °C"
          ∷ field "temperature_module_3_sensor_3" 28 int16 tenth " °C"
          ∷ field "temperature_module_3_sensor_4" 30 int16 tenth " °C"
          ∷ field "temperature_module_3_sensor_5" 32 int16 tenth " °C"
          ∷ field "temperature_module_3_sensor_6" 34 int16 tenth " °C"
          ∷ field "temperature_module_4_sensor_1" 36 int16 tenth " °C"
          ∷ field "temperature_module_4_sensor_2" 38 int16 tenth " °C"
          ∷ field "temperature_module_4_sensor_3" 40 int16 tenth " °C"
          ∷ field "temperature_module_4_sensor_4" 42 int16 tenth " °C"
          ∷ field "temperature_module_4_sensor_5" 44 int16 tenth " °C"
          ∷ field "temperature_module_4_sensor_6" 46 int16 tenth " °C"
          ∷ field "temperature_module_5_sensor_1" 48 int16 tenth " °C"
          ∷ field "temperature_module_5_sensor_2" 50 int16 tenth " °C"
          ∷ field "temperature_module_5_sensor_3" 52 int16 tenth " °C"
          ∷ field "temperature_module_5_sensor_4" 54 int16 tenth " °C"
          ∷ field "temperature_module_5_sensor_5" 56 int16 tenth " °C"
          ∷ field "temperature_module_5_sensor_6" 58 int16 tenth " °C"
          ∷ [])
      ∷ entry 0x7F61 0x0010 0x0100 "0x7F61" (
          field "seconds_no" 0 uint32 one " s"
          ∷ field "t_ambient" 4 uint32 tenth " °C"
          ∷ field "t_flow_s1" 8 uint32 tenth " °C"
          ∷ field "t_return_s2" 12 uint32 tenth " °C"
          ∷ field "tsl" 16 uint32 tenth " °C"
          ∷ field "tmax_temp_s5" 20 uint32 tenth " °C"
          ∷ field "irradiation" 24 uint32 tenth " W/m²"
          ∷ field "flow_rate_1" 28 uint32 one " l/h"
          ∷ field "flow_rate_2" 32 uint32 one " l/h"
          ∷ field "s6" 36 uint32 tenth " °C"
          ∷ field "s7" 40 uint32 tenth " °C"
          ∷ field "rated_current_1" 44 uint32 hundredth " mA"
          ∷ field "rated_current_2" 48 uint32 hundredth " mA"
          ∷ field "date_measured_values" 52 uint32 one ""
          ∷ field "heat_quantity_1" 56 uint32 hundredth " kWh"
          ∷ field "heat_quantity_2" 60 uint32 hundredth " kWh"
          ∷ field "5_min_error_code" 64 uint32 one ""
          ∷ [])
      ∷ entry 0x7F62 0x0010 0x0100 "0x7F62" (
          field "date" 0 uint32 one ""
          ∷ field "h_day" 4 uint32 hundredth " kWh/(m²*d)"
          ∷ field "q_meas" 8 uint32 thousandth " kWh/(m²*d)"
          ∷ field "q_est2" 12 uint32 thousandth " kWh/(m²*d)"
          ∷ field "q_est" 16 uint32 thousandth " kWh/(m²*d)"
          ∷ field "message" 20 uint32 one ""
          ∷ field "dt_meas" 24 uint32 hundredth " h"
          ∷ field "dt_estimated2" 28 uint32 hundredth " h"
          ∷ field "dt_estimated" 32 uint32 hundredth " h"
          ∷ field "qutil_m" 36 uint32 hundredth " kWh/(m²*d)"
          ∷ field "qutil_e2" 40 uint32 hundredth " kWh/(m²*d)"
          ∷ field "qutil_e" 44 uint32 hundredth " kWh/(m²*d)"
          ∷ field "qtv_e2" 48 uint32 thousandth " kWh/(m²*d)"
          ∷ field "qtv_e" 52 uint32 thousandth " kWh/(m²*d)"
          ∷ field "qkv_e2" 56 uint32 thousandth " kWh/(m²*d)"
          ∷ field "qkv_e" 60 uint32 thousandth " kWh/(m²*d)"
          ∷ field "qskv_e2" 64 uint32 thousandth " kWh/(m²*d)"
          ∷ field "qskv_e" 68 uint32 thousandth " kWh/(m²*d)"
          ∷ field "tset_day" 72 uint32 hundredth " °C"
          ∷ [])
      ∷ []
