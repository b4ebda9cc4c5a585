-- ===== src/Vbus/Registry/Generated/From1121.antt =====
-- internal/vbus/registry_gen.go, lines 564 to 708: the sources 0x1121 to 0x1140.
use vbus2mqtt.Prelude.{[], ◌∷◌}
use vbus2mqtt.Vbus.Double.{Double, hundredth, one, tenth, thousandth}
use vbus2mqtt.Vbus.Registry.{int16, uint16, uint32, uint8, Registry, entry, field}

module _ {W : Type 0} ⦃d : Double W⦄ where
  unfoldable pub packets_from_1121 : Registry W
  packets_from_1121 =
      entry 0x1121 0x0010 0x0100 "0x1121" (
        field "temperature_sensor_1" 0 int16 tenth " °C"
        ∷ field "temperature_sensor_2" 2 int16 tenth " °C"
        ∷ field "temperature_sensor_3" 4 int16 tenth " °C"
        ∷ field "temperature_sensor_4" 6 int16 tenth " °C"
        ∷ field "temperature_sensor_5" 8 int16 tenth " °C"
        ∷ field "flow_rate" 10 int16 tenth " l/min"
        ∷ field "pump_speed_relay" 12 uint8 one "%"
        ∷ field "operating_hours_relay" 14 uint16 one " h"
        ∷ field "unittype" 16 uint8 one ""
        ∷ field "errormask" 18 uint16 one ""
        ∷ field "status_mask" 20 uint32 one ""
        ∷ field "heat_quantity" 24 uint32 one " Wh"
        ∷ field "sw_version" 28 uint16 hundredth ""
        ∷ [])
      ∷ entry 0x1122 0x0010 0x0100 "0x1122" (
          field "temperature_sensor_1" 0 int16 tenth " °C"
          ∷ field "temperature_sensor_2" 2 int16 tenth " °C"
          ∷ field "temperature_sensor_3" 4 int16 tenth " °C"
          ∷ field "temperature_sensor_4" 6 int16 tenth " °C"
          ∷ field "temperature_sensor_5" 36 int16 tenth " °C"
          ∷ field "flow_rate" 38 int16 one " l/h"
          ∷ field "pump_speed_relay_1" 8 uint8 one "%"
          ∷ field "pump_speed_relay_2" 12 uint8 one "%"
          ∷ field "operating_hours_relay_1" 10 uint16 one " h"
          ∷ field "operating_hours_relay_2" 14 uint16 one " h"
          ∷ field "unittype" 16 uint8 one ""
          ∷ field "system" 17 uint8 one ""
          ∷ field "errormask" 20 uint16 one ""
          ∷ field "system_time" 22 int16 one ""
          ∷ field "status_mask" 24 uint32 one ""
          ∷ field "heat_quantity" 28 uint32 one " Wh"
          ∷ field "sw_version" 32 uint16 hundredth ""
          ∷ [])
      ∷ entry 0x1123 0x0010 0x0100 "0x1123" (
          field "countdown_blockage" 1 int16 one ""
          ∷ field "power_excess" 4 uint32 thousandth " W"
          ∷ field "power_heating" 76 uint32 thousandth " W"
          ∷ field "power_load_ext" 68 int16 one " W"
          ∷ field "temperature_flow_sensor_1" 12 int16 tenth " °C"
          ∷ field "temperature_return_sensor_2" 14 int16 tenth " °C"
          ∷ field "temperature_store_top_sensor_3" 16 int16 tenth " °C"
          ∷ field "temperature_sensor_4" 18 int16 tenth " °C"
          ∷ field "speed_loading_pump" 3 uint8 one "%"
          ∷ field "pump_speed_relay_2" 42 uint8 one "%"
          ∷ field "pump_speed_relay_3" 70 uint8 one "%"
          ∷ field "pump_speed_relay_4" 71 uint8 one "%"
          ∷ field "excess_wh" 20 uint32 one " Wh"
          ∷ field "heating_wh" 28 uint32 one " Wh"
          ∷ field "operating_seconds_heating" 36 uint32 one " h"
          ∷ field "operating_seconds_backup_heating" 60 uint32 one " h"
          ∷ field "operating_hours_relay_2" 56 uint32 one " h"
          ∷ field "operating_hours_relay_3" 84 uint32 one " h"
          ∷ field "operating_hours_relay_4" 88 uint32 one " h"
          ∷ field "paramter_target_temperature" 40 int16 tenth " °C"
          ∷ field "paramter_reserve" 44 int16 one " W"
          ∷ field "0_10v_in" 43 int16 tenth " V"
          ∷ field "system_date" 52 uint32 one ""
          ∷ [])
      ∷ entry 0x1127 0x0010 0x0100 "0x1127" (
          field "system_time" 34 int16 one ""
          ∷ field "temperature_sensor_1" 0 int16 tenth " °C"
          ∷ field "temperature_sensor_2" 2 int16 tenth " °C"
          ∷ field "temperature_sensor_3" 4 int16 tenth " °C"
          ∷ field "temperature_sensor_4" 6 int16 tenth " °C"
          ∷ field "temperature_gfd" 8 int16 tenth " °C"
          ∷ field "flow_rate_1" 10 int16 one " l/h"
          ∷ field "pump_speed_relay_1" 12 uint8 one "%"
          ∷ field "pump_speed_relay_2" 16 uint8 one "%"
          ∷ field "operating_hours_relay_1" 14 uint16 one " h"
          ∷ field "operating_hours_relay_2" 18 uint16 one " h"
          ∷ field "pfb1_duty" 20 uint32 thousandth "%"
          ∷ field "pfb1_freq" 24 uint32 thousandth " Hz"
          ∷ field "heat_quantity" 28 uint32 one " Wh"
          ∷ field "unittype" 40 uint8 one ""
          ∷ field "status_mask" 36 uint32 one ""
          ∷ field "errormask" 32 uint16 one ""
          ∷ field "sw_version" 42 uint16 hundredth ""
          ∷ [])
      ∷ entry 0x1129 0x0010 0x0100 "0x1129" (
          field "power_excess" 2 uint32 thousandth " W"
          ∷ field "power_heating" 6 uint32 thousandth " W"
          ∷ field "temperatur_store_base_s1" 10 int16 tenth " °C"
          ∷ field "temperature_store_top_s2" 12 int16 tenth " °C"
          ∷ field "temperature_sensor_3" 14 int16 tenth " °C"
          ∷ field "stage_1" 1 uint8 one "%"
          ∷ field "excess" 16 uint32 one " Wh"
          ∷ field "heating" 24 uint32 one " Wh"
          ∷ field "operating_seconds_heating" 32 uint32 one " h"
          ∷ field "backup_heating" 56 uint32 one " Wh"
          ∷ field "operating_seconds_backup_heating" 64 uint32 one " h"
          ∷ field "parameter_max_temp_s1" 36 int16 tenth " °C"
          ∷ field "paramter_reserve" 40 int16 one " W"
          ∷ field "system_date" 44 uint32 one ""
          ∷ [])
      ∷ entry 0x112F 0x0010 0x0100 "0x112F" (
          field "power_excess" 2 uint32 thousandth " W"
          ∷ field "power_heating" 6 uint32 thousandth " W"
          ∷ field "dcin" 68 uint16 tenth " V"
          ∷ field "temperature_store_sensor_1" 10 int16 tenth " °C"
          ∷ field "temperature_sensor_2" 12 int16 tenth " °C"
          ∷ field "temperature_sensor_3" 14 int16 tenth " °C"
          ∷ field "excess" 16 uint32 one " Wh"
          ∷ field "heating" 24 uint32 one " Wh"
          ∷ field "operating_seconds_heating" 32 uint32 one " h"
          ∷ field "backup_heating" 56 uint32 one " Wh"
          ∷ field "operating_seconds_backup_heating" 64 uint32 one " h"
          ∷ field "parameter_max_temp_s1" 36 int16 tenth " °C"
          ∷ field "paramter_reserve" 40 int16 one " W"
          ∷ field "system_date" 44 uint32 one ""
          ∷ [])
      ∷ entry 0x1140 0x0010 0x0100 "0x1140" (
          field "heatingheating_circuit1tflowsetc" 0 int16 tenth " °C"
          ∷ field "heatingheating_circuit1operating_state" 2 int16 one ""
          ∷ field "heatingheating_circuit1operating_mode" 3 int16 one ""
          ∷ field "heatingheating_circuit1boiler_starts" 4 uint32 one ""
          ∷ [])
      ∷ []
