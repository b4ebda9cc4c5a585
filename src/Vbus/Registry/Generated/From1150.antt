-- ===== src/Vbus/Registry/Generated/From1150.antt =====
-- internal/vbus/registry_gen.go, lines 709 to 840: the sources 0x1150 to 0x1162.
use vbus2mqtt.Prelude.{[], ◌∷◌}
use vbus2mqtt.Vbus.Double.{Double, hundredth, one, tenth, thousandth}
use vbus2mqtt.Vbus.Registry.{int16, uint16, uint32, uint8, Registry, entry, field}

module _ {W : Type 0} ⦃d : Double W⦄ where
  unfoldable pub packets_from_1150 : Registry W
  packets_from_1150 =
      entry 0x1150 0x0010 0x0100 "0x1150" (
        field "sensor_s1" 0 int16 tenth " °C"
        ∷ field "sensor_s2" 2 int16 tenth " °C"
        ∷ field "sensor_s3" 4 int16 tenth " °C"
        ∷ field "sensor_s4_t" 6 int16 tenth " °C"
        ∷ field "sensor_s4_dv" 8 uint32 one " l/h"
        ∷ field "sensor_s5" 12 int16 tenth " °C"
        ∷ field "potentiometer" 14 int16 tenth " °C"
        ∷ field "dipswitch" 30 uint8 one ""
        ∷ field "primary_pump" 16 uint16 tenth "%"
        ∷ field "mixing_valve" 18 uint16 one "%"
        ∷ field "circulating_pump" 20 uint8 one "%"
        ∷ field "dhw_set_temperature" 21 int16 tenth " °C"
        ∷ field "circulation_switch_on_time" 24 int16 one " s"
        ∷ field "circulation_blocking_period" 26 int16 one " s"
        ∷ field "therm_disinfection" 28 int16 one " s"
        ∷ field "operating_time_prim_pump" 32 uint32 one " s"
        ∷ field "operating_time_circulation" 36 uint32 one " s"
        ∷ field "pwm_a" 40 uint8 one "%"
        ∷ field "curve" 41 uint16 one ""
        ∷ field "pid_p_part" 44 uint32 thousandth ""
        ∷ field "pid_i_part" 48 uint32 thousandth ""
        ∷ field "pid_d_part" 52 uint32 thousandth ""
        ∷ field "system_date" 56 uint32 one ""
        ∷ [])
      ∷ entry 0x1160 0x0010 0x0100 "0x1160" (
          field "temperature_sensor_1" 0 int16 tenth " °C"
          ∷ field "temperature_sensor_2" 2 int16 tenth " °C"
          ∷ field "temperature_sensor_3" 4 int16 tenth " °C"
          ∷ field "temperature_sensor_4" 6 int16 tenth " °C"
          ∷ field "temperature_sensor_5" 8 int16 tenth " °C"
          ∷ field "temperature_sensor_6" 10 int16 tenth " °C"
          ∷ field "temperature_sensor_7" 12 int16 tenth " °C"
          ∷ field "temperature_sensor_8" 14 int16 tenth " °C"
          ∷ field "temperature_sensor_9" 16 int16 tenth " °C"
          ∷ field "temperature_sensor_10" 18 int16 tenth " °C"
          ∷ field "temperature_sensor_11" 20 int16 tenth " °C"
          ∷ field "temperature_sensor_12" 22 int16 tenth " °C"
          ∷ field "temperature_sensor_13" 24 int16 tenth " °C"
          ∷ field "temperature_sensor_14" 26 int16 tenth " °C"
          ∷ field "temperature_sensor_15" 28 int16 tenth " °C"
          ∷ field "irradiation_sensor_16" 30 int16 one " W/m²"
          ∷ field "temperature_sensor_17" 32 int16 tenth " °C"
          ∷ field "temperature_sensor_18" 34 int16 tenth " °C"
          ∷ field "temperature_sensor_19" 36 int16 tenth " °C"
          ∷ field "temperature_sensor_20" 38 int16 tenth " °C"
          ∷ field "flow_rate_sensor_13" 40 uint32 one " l/h"
          ∷ field "flow_rate_sensor_14" 44 uint32 one " l/h"
          ∷ field "flow_rate_sensor_15" 48 uint32 one " l/h"
          ∷ field "flow_rate_sensor_17" 52 uint32 one " l/h"
          ∷ field "flow_rate_sensor_18" 56 uint32 one " l/h"
          ∷ field "flow_rate_sensor_19" 60 uint32 one " l/h"
          ∷ field "flow_rate_sensor_20" 64 uint32 one " l/h"
          ∷ field "pressure_sensor_17" 68 int16 hundredth " bar"
          ∷ field "pressure_sensor_18" 70 int16 hundredth " bar"
          ∷ field "pressure_sensor_19" 72 int16 hundredth " bar"
          ∷ field "pressure_sensor_20" 74 int16 hundredth " bar"
          ∷ field "pump_speed_relay_1" 76 uint8 one "%"
          ∷ field "pump_speed_relay_2" 77 uint8 one "%"
          ∷ field "pump_speed_relay_3" 78 uint8 one "%"
          ∷ field "pump_speed_relay_4" 79 uint8 one "%"
          ∷ field "pump_speed_relay_5" 80 uint8 one "%"
          ∷ field "pump_speed_relay_6" 81 uint8 one "%"
          ∷ field "pump_speed_relay_7" 82 uint8 one "%"
          ∷ field "pump_speed_relay_8" 83 uint8 one "%"
          ∷ field "pump_speed_relay_9" 84 uint8 one "%"
          ∷ field "pump_speed_relay_10" 85 uint8 one "%"
          ∷ field "pump_speed_relay_11" 86 uint8 one "%"
          ∷ field "pump_speed_relay_12" 87 uint8 one "%"
          ∷ field "pump_speed_relay_13" 88 uint8 one "%"
          ∷ field "pump_speed_relay_14" 89 uint8 one "%"
          ∷ field "system_date" 92 uint32 one ""
          ∷ field "error_mask" 96 uint32 one ""
          ∷ [])
      ∷ entry 0x1161 0x0010 0x0100 "0x1161" (
          field "temperature_module_1_sensor_1" 0 int16 tenth " °C"
          ∷ field "temperature_module_1_sensor_2" 2 int16 tenth " °C"
          ∷ field "temperature_module_1_sensor_3" 4 int16 tenth " °C"
          ∷ field "temperature_module_1_sensor_4" 6 int16 tenth " °C"
          ∷ field "temperature_module_1_sensor_5" 8 int16 tenth " °C"
          ∷ field "temperature_module_1_sensor_6" 10 int16 tenth " °C"
          ∷ field "temperature_module_2_sensor_1" 12 int16 tenth " °C"
          ∷ field "temperature_module_2_sensor_2" 14 int16 tenth " °C"
          ∷ field "temperature_module_2_sensor_3" 16 int16 tenth " °C"
          ∷ field "temperature_module_2_sensor_4" 18 int16 tenth " °C"
          ∷ field "temperature_module_2_sensor_5" 20 int16 tenth " °C"
          ∷ field "temperature_module_2_sensor_6" 22 int16 tenth " °C"
          ∷ field "temperature_module_3_sensor_1" 24 int16 tenth " °C"
          ∷ field "temperature_module_3_sensor_2" 26 int16 tenth " °C"
          ∷ field "temperature_module_3_sensor_3" 28 int16 tenth " °C"
          ∷ field "temperature_module_3_sensor_4" 30 int16 tenth " °C"
          ∷ field "temperature_module_3_sensor_5" 32 int16 tenth " °C"
          ∷ field "temperature_module_3_sensor_6" 34 int16 tenth " °C"
          ∷ field "temperature_module_4_sensor_1" 36 int16 tenth " °C"
          ∷ field "temperature_module_4_sensor_2" 38 int16 tenth " °C"
          ∷ field "temperature_module_4_sensor_3" 40 int16 tenth " °C"
          ∷ field "temperature_module_4_sensor_4" 42 int16 tenth " °C"
          ∷ field "temperature_module_4_sensor_5" 44 int16 tenth " °C"
          ∷ field "temperature_module_4_sensor_6" 46 int16 tenth " °C"
          ∷ field "temperature_module_5_sensor_1" 48 int16 tenth " °C"
          ∷ field "temperature_module_5_sensor_2" 50 int16 tenth " °C"
          ∷ field "temperature_module_5_sensor_3" 52 int16 tenth " °C"
          ∷ field "temperature_module_5_sensor_4" 54 int16 tenth " °C"
          ∷ field "temperature_module_5_sensor_5" 56 int16 tenth " °C"
          ∷ field "temperature_module_5_sensor_6" 58 int16 tenth " °C"
          ∷ [])
      ∷ entry 0x1162 0x0010 0x0100 "0x1162" (
          field "hot_water_temperature" 0 int16 tenth " °C"
          ∷ field "hot_water_set" 2 int16 tenth " °C"
          ∷ field "draw_off_flow_rate" 4 uint32 tenth " l/min"
          ∷ field "store_flow" 8 int16 tenth " °C"
          ∷ field "draw_off_quantity_in_total" 12 uint32 thousandth " m³"
          ∷ field "pump_speed_prim_pump" 10 uint8 one "%"
          ∷ field "pump_speed_circulation" 11 uint8 one "%"
          ∷ field "status" 16 int16 one ""
          ∷ [])
      ∷ []
