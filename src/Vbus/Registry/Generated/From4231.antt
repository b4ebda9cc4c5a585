-- ===== src/Vbus/Registry/Generated/From4231.antt =====
-- internal/vbus/registry_gen.go, lines 2745 to 2887: the sources 0x4231 to 0x4265.
use vbus2mqtt.Prelude.{[], ◌∷◌}
use vbus2mqtt.Vbus.Double.{Double, hundredth, one, tenth}
use vbus2mqtt.Vbus.Registry.{int16, uint16, uint32, uint8, Registry, entry, field}

module _ {W : Type 0} ⦃d : Double W⦄ where
  unfoldable pub packets_from_4231 : Registry W
  packets_from_4231 =
      entry 0x4231 0x0010 0x0100 "0x4231" (
        field "dhw_temperature" 0 int16 tenth " °C"
        ∷ field "cold_water_temperature" 2 int16 tenth " °C"
        ∷ field "circulation_temperature" 4 int16 tenth " °C"
        ∷ field "flow_rate" 6 int16 tenth " l/min"
        ∷ field "pump_speed_relay_1" 8 uint8 one "%"
        ∷ field "pump_speed_relay_2" 9 uint8 one "%"
        ∷ field "system_time" 10 int16 one ""
        ∷ field "options" 12 uint8 one ""
        ∷ field "status" 13 uint8 one ""
        ∷ field "relay_status" 14 uint8 one ""
        ∷ field "sensor_defective" 15 uint8 one ""
        ∷ field "dhw_set_temperature" 16 uint8 one " °C"
        ∷ field "source_temperature" 17 uint8 one " °C"
        ∷ field "remaining_draw_off" 19 uint8 one " min"
        ∷ field "operating_cycles" 20 uint32 one ""
        ∷ field "max_cold_water_temperature" 32 int16 tenth " °C"
        ∷ field "min_cold_water_temperature" 34 int16 tenth " °C"
        ∷ field "max_flow_rate" 36 int16 one " l/h"
        ∷ field "draw_off_quantity" 38 uint16 tenth " m³"
        ∷ [])
      ∷ entry 0x4241 0x0010 0x0100 "0x4241" (
          field "dhw_temperature_display" 0 int16 tenth " °C"
          ∷ field "cold_water_temperature" 2 int16 tenth " °C"
          ∷ field "buffer_temperature" 4 int16 tenth " °C"
          ∷ field "flow_rate" 6 uint16 hundredth " l/h"
          ∷ field "speed_1" 8 uint8 one "%"
          ∷ field "speed_2" 9 uint8 one "%"
          ∷ field "system_time" 10 uint16 one ""
          ∷ field "dhw_set_temperature" 16 uint8 one " °C"
          ∷ field "mixing_valve_temperature" 17 uint8 one " °C"
          ∷ field "dt_buffer" 18 uint8 tenth " K"
          ∷ field "remaining_circulation_time" 19 uint8 one " min"
          ∷ field "number_of_operating_cycles" 20 uint32 one ""
          ∷ field "software_version_major" 30 uint8 one ""
          ∷ field "software_version_minor" 31 uint8 one ""
          ∷ field "max_cold_water_temperature" 32 int16 tenth " °C"
          ∷ field "min_cold_water_temperature" 34 int16 tenth " °C"
          ∷ field "flow_rate_max" 36 uint16 one " l/h"
          ∷ field "maximum_draw_off_quantity" 38 uint16 one " m³"
          ∷ field "dhw_temperature_control" 40 int16 tenth " °C"
          ∷ field "source_temperature_control" 42 int16 tenth " °C"
          ∷ field "internal_value" 44 uint8 one ""
          ∷ field "internal_value" 45 uint8 one ""
          ∷ field "internal_value" 46 uint8 one ""
          ∷ field "internal_value" 47 uint8 one ""
          ∷ field "internal_value" 48 uint16 one ""
          ∷ field "internal_value" 50 uint16 one ""
          ∷ [])
      ∷ entry 0x4251 0x0010 0x0100 "0x4251" (
          field "temperature_absorber_s1" 0 int16 tenth " °C"
          ∷ field "temperature_behind_heat_pump_s2" 2 int16 tenth " °C"
          ∷ field "temperature_behind_underground_tank_s3" 4 int16 tenth " °C"
          ∷ field "estim_temperature_underground_tank" 6 int16 tenth " °C"
          ∷ field "temperature_behind_pump_1_s4" 8 int16 tenth " °C"
          ∷ field "system_time" 10 uint16 one ""
          ∷ field "switch_on_temperature_difference" 12 int16 tenth " K"
          ∷ field "switch_off_temperature_difference" 14 int16 tenth " K"
          ∷ field "dt_heat_pump_active" 16 int16 tenth " K"
          ∷ field "dt_heat_pump_inactive" 18 int16 tenth " K"
          ∷ field "underground_tank_maximum_temperature" 20 int16 tenth " °C"
          ∷ field "version" 24 uint16 hundredth ""
          ∷ [])
      ∷ entry 0x4252 0x0010 0x0100 "0x4252" (
          field "temperature_sensor_1" 0 int16 tenth " °C"
          ∷ field "temperature_sensor_2" 2 int16 tenth " °C"
          ∷ field "temperature_sensor_3" 4 int16 tenth " °C"
          ∷ field "temperature_sensor_4" 6 int16 tenth " °C"
          ∷ field "unit" 8 uint8 one ""
          ∷ field "pump_speed_relay_1" 10 uint8 one "%"
          ∷ field "pump_speed_relay_2" 11 uint8 one "%"
          ∷ field "operating_seconds_relay_1" 12 uint32 one " s"
          ∷ field "operating_seconds_relay_2" 16 uint32 one " s"
          ∷ field "heat_quantity" 24 uint32 one " Wh"
          ∷ field "time" 28 int16 one ""
          ∷ field "version" 30 uint16 hundredth ""
          ∷ [])
      ∷ entry 0x4261 0x0010 0x0100 "0x4261" (
          field "t_lt_out" 0 int16 tenth " °C"
          ∷ field "t_lt_in" 12 int16 tenth " °C"
          ∷ field "t_mt_out" 2 int16 tenth " °C"
          ∷ field "t_a1_out" 4 int16 tenth " °C"
          ∷ field "t_a2_out" 6 int16 tenth " °C"
          ∷ field "t_ht_ext" 8 int16 tenth " °C"
          ∷ field "t_lt_ext" 10 int16 tenth " °C"
          ∷ field "rcs" 15 int16 one "%"
          ∷ field "pump_relay" 16 int16 one "%"
          ∷ field "spr_relay" 17 int16 one "%"
          ∷ field "phase" 18 uint8 one ""
          ∷ field "system_code" 19 uint8 one ""
          ∷ field "w_set" 22 uint16 one " Hz"
          ∷ field "t_lts_out_avg" 24 int16 tenth " °C"
          ∷ field "t_lt_out_cycle" 52 int16 tenth " °C"
          ∷ field "t_lt_in_avg" 48 int16 tenth " °C"
          ∷ field "t_lt_in_cycle" 50 int16 tenth " °C"
          ∷ field "t_mt_out_avg" 26 int16 tenth " °C"
          ∷ field "t_mt_out_cycle" 54 int16 tenth " °C"
          ∷ field "dq_lt_cycle" 56 int16 tenth " kW"
          ∷ field "dv_lt" 58 int16 one " l/h"
          ∷ field "current_set_value" 52 int16 tenth " °C"
          ∷ field "external_set_temperature" 30 int16 tenth " °C"
          ∷ field "number_of_cycles" 32 uint32 one ""
          ∷ field "summed_up_spraying_time" 36 uint32 one ""
          ∷ field "system_time" 40 int16 one ""
          ∷ field "year" 42 int16 one ""
          ∷ field "month" 44 int16 one ""
          ∷ field "day" 45 int16 one ""
          ∷ [])
      ∷ entry 0x4265 0x0010 0x0100 "0x4265" (
          field "temperature_sensor_1" 0 int16 tenth " °C"
          ∷ field "temperature_sensor_2" 2 int16 tenth " °C"
          ∷ field "temperature_sensor_3" 4 int16 tenth " °C"
          ∷ field "temperature_sensor_4" 6 int16 tenth " °C"
          ∷ field "pump_speed_relay_1" 8 uint8 one "%"
          ∷ field "pump_speed_relay_2" 9 uint8 one "%"
          ∷ field "operating_hours_relay_1" 12 uint16 one " h"
          ∷ field "operating_hours_relay_2" 14 uint16 one " h"
          ∷ field "version" 24 uint16 hundredth ""
          ∷ [])
      ∷ []
