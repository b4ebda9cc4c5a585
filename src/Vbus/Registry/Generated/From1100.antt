-- ===== src/Vbus/Registry/Generated/From1100.antt =====
-- internal/vbus/registry_gen.go, lines 428 to 563: the sources 0x1100 to 0x1120.
use vbus2mqtt.Prelude.{[], ◌∷◌}
use vbus2mqtt.Vbus.Double.{Double, hundredth, one, tenth, thousandth}
use vbus2mqtt.Vbus.Registry.{int16, uint16, uint32, uint8, Registry, entry, field}

module _ {W : Type 0} ⦃d : Double W⦄ where
  unfoldable pub packets_from_1100 : Registry W
  packets_from_1100 =
      entry 0x1100 0x0010 0x0100 "0x1100" (
        field "t_lt_out" 10 int16 tenth " °C"
        ∷ field "t_lt_in" 8 int16 tenth " °C"
        ∷ field "t_mt_out" 12 int16 tenth " °C"
        ∷ field "t_mt_in" 22 int16 tenth " °C"
        ∷ field "t_e1_out" 0 int16 tenth " °C"
        ∷ field "t_e2_out" 2 int16 tenth " °C"
        ∷ field "t_a1_out" 4 int16 tenth " °C"
        ∷ field "t_a2_out" 6 int16 tenth " °C"
        ∷ field "t_ht_out" 14 int16 tenth " °C"
        ∷ field "t_amb" 16 int16 tenth " °C"
        ∷ field "t_ht_ext" 18 int16 tenth " °C"
        ∷ field "t_lt_ext" 20 int16 tenth " °C"
        ∷ field "ht_pump" 29 int16 one "%"
        ∷ field "mt_pump" 28 int16 one "%"
        ∷ field "lt_pump" 27 int16 one "%"
        ∷ field "rcs" 32 int16 one "%"
        ∷ field "phase" 30 uint8 one ""
        ∷ field "system_code" 31 uint8 one ""
        ∷ field "ext_volt_t_set" 22 int16 one " V"
        ∷ field "t_lts_out_avg" 36 int16 tenth " °C"
        ∷ field "t_lt_out_cycle" 56 int16 tenth " °C"
        ∷ field "t_lt_in_avg" 52 int16 tenth " °C"
        ∷ field "t_lt_in_cycle" 54 int16 tenth " °C"
        ∷ field "t_mt_out_avg" 38 int16 tenth " °C"
        ∷ field "t_mt_out_cycle" 58 int16 tenth " °C"
        ∷ field "kälteleistung_letzter_zyklus" 60 int16 tenth " kW"
        ∷ field "flow_rate_cold_water_circuit_dvlt" 62 int16 one " l/h"
        ∷ field "current_set_value_t_set" 40 int16 tenth " °C"
        ∷ field "external_set_temperature_t_set_ext" 42 int16 tenth " °C"
        ∷ field "number_of_cycles_since_start" 44 uint32 one ""
        ∷ field "number_of_cycles_sum" 48 uint32 one ""
        ∷ field "summed_up_spraying_time" 36 uint32 one ""
        ∷ field "system_time" 64 int16 one ""
        ∷ field "year" 66 int16 one ""
        ∷ field "month" 68 int16 one ""
        ∷ field "day" 69 int16 one ""
        ∷ [])
      ∷ entry 0x1117 0x0010 0x0100 "0x1117" (
          field "temperature_sensor_1" 0 int16 tenth " °C"
          ∷ field "temperature_sensor_2" 2 int16 tenth " °C"
          ∷ field "temperature_sensor_3" 4 int16 tenth " °C"
          ∷ field "temperature_sensor_4" 6 int16 tenth " °C"
          ∷ field "temperature_vfd1" 36 int16 tenth " °C"
          ∷ field "flow_rate_vfd1" 38 int16 one " l/h"
          ∷ field "pump_speed_relay_1" 8 uint8 one "%"
          ∷ field "pump_speed_relay_2" 12 uint8 one "%"
          ∷ field "operating_hours_relay_1" 10 uint16 one " h"
          ∷ field "operating_hours_relay_2" 14 uint16 one " h"
          ∷ field "unittype" 16 uint8 one ""
          ∷ field "system" 17 uint8 one ""
          ∷ field "errormask" 20 uint16 one ""
          ∷ field "system_time" 22 int16 one ""
          ∷ field "status_mask" 24 uint32 one ""
          ∷ field "heat_quantity" 28 uint32 one " Wh"
          ∷ field "sw_version" 32 uint16 hundredth ""
          ∷ [])
      ∷ entry 0x1119 0x0010 0x0100 "0x1119" (
          field "collector_temperature_tc" 0 int16 tenth " °C"
          ∷ field "speicher_temperatur_ts" 2 int16 tenth " °C"
          ∷ field "heat_quantity" 8 uint32 one " Wh"
          ∷ field "pump_speed_pc" 12 uint8 one "%"
          ∷ field "control_time_tc" 14 int16 one "%"
          ∷ field "software_version" 16 int16 hundredth ""
          ∷ [])
      ∷ entry 0x111E 0x0010 0x0100 "0x111E" (
          field "power_excess" 2 uint32 thousandth " W"
          ∷ field "power_heating" 6 uint32 thousandth " W"
          ∷ field "dcin" 68 uint16 tenth " V"
          ∷ field "temperature_store_sensor_1" 10 int16 tenth " °C"
          ∷ field "temperature_sensor_2" 12 int16 tenth " °C"
          ∷ field "temperature_sensor_3" 14 int16 tenth " °C"
          ∷ field "excess" 16 uint32 one " Wh"
          ∷ field "heating" 24 uint32 one " Wh"
          ∷ field "operating_seconds_heating" 32 uint32 one " h"
          ∷ field "backup_heating" 56 uint32 one " Wh"
          ∷ field "operating_seconds_backup_heating" 64 uint32 one " h"
          ∷ field "parameter_max_temp_s1" 36 int16 tenth " °C"
          ∷ field "paramter_reserve" 40 int16 one " W"
          ∷ field "system_date" 44 uint32 one ""
          ∷ [])
      ∷ entry 0x111F 0x0010 0x0100 "0x111F" (
          field "countdown_blockage" 1 int16 one ""
          ∷ field "power_excess" 4 uint32 thousandth " W"
          ∷ field "power_heating" 8 uint32 thousandth " W"
          ∷ field "temperature_flow_sensor_1" 12 int16 tenth " °C"
          ∷ field "temperature_return_sensor_2" 14 int16 tenth " °C"
          ∷ field "temperature_store_top_sensor_3" 16 int16 tenth " °C"
          ∷ field "temperature_sensor_4" 18 int16 tenth " °C"
          ∷ field "speed_loading_pump" 3 uint8 one "%"
          ∷ field "pump_speed_relay_2" 42 uint8 one "%"
          ∷ field "excess_wh" 20 uint32 one " Wh"
          ∷ field "heating_wh" 28 uint32 one " Wh"
          ∷ field "operating_seconds_heating" 36 uint32 one " h"
          ∷ field "operating_seconds_backup_heating" 60 uint32 one " h"
          ∷ field "operating_hours_relay_2" 56 uint32 one " h"
          ∷ field "paramter_target_temperature" 40 int16 tenth " °C"
          ∷ field "paramter_reserve" 44 int16 one " W"
          ∷ field "system_date" 52 uint32 one ""
          ∷ [])
      ∷ entry 0x1120 0x0010 0x0100 "0x1120" (
          field "temperature_sensor_1" 0 int16 tenth " °C"
          ∷ field "temperature_sensor_2" 2 int16 tenth " °C"
          ∷ field "temperature_sensor_3" 4 int16 tenth " °C"
          ∷ field "pump_speed_relay_1" 6 uint8 one "%"
          ∷ field "pump_speed_relay_2" 7 uint8 one "%"
          ∷ field "status_display" 8 uint16 one ""
          ∷ field "operating_hours_relay_1" 12 uint16 one " h"
          ∷ field "operating_hours_relay_2" 14 uint16 one " h"
          ∷ field "heat_quantity" 16 uint32 one " Wh"
          ∷ field "time" 10 int16 one ""
          ∷ [])
      ∷ []
