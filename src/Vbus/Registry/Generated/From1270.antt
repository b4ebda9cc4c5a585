-- ===== src/Vbus/Registry/Generated/From1270.antt =====
-- internal/vbus/registry_gen.go, lines 961 to 1106: the sources 0x1270 to 0x1330.
use vbus2mqtt.Prelude.{[], ◌∷◌}
use vbus2mqtt.Vbus.Double.{Double, hundredth, one, tenth, thousandth}
use vbus2mqtt.Vbus.Registry.{int16, uint16, uint32, uint8, Registry, entry, field}

module _ {W : Type 0} ⦃d : Double W⦄ where
  unfoldable pub packets_from_1270 : Registry W
  packets_from_1270 =
      entry 0x1270 0x0010 0x0100 "0x1270" (
        field "leistung_verbraucher" 72 uint32 thousandth " W"
        ∷ field "power_excess" 68 uint32 thousandth " W"
        ∷ field "paramter_reserve" 64 uint32 one " W"
        ∷ field "excess" 80 uint32 one " Wh"
        ∷ field "temperature_sensor_1" 16 int16 tenth " °C"
        ∷ field "temperature_sensor_2" 18 int16 tenth " °C"
        ∷ field "temperature_sensor_3" 20 int16 tenth " °C"
        ∷ field "temperature_sensor_4" 22 int16 tenth " °C"
        ∷ field "temperature_sensor_5" 24 int16 tenth " °C"
        ∷ field "temperature_sensor_6" 120 int16 tenth " °C"
        ∷ field "temperature_sensor_7" 122 int16 tenth " °C"
        ∷ field "drehzahl_lüfter" 128 uint16 one ""
        ∷ field "temperature_sensor_ga1" 112 int16 tenth " °C"
        ∷ field "flow_rate_sensor_ga1" 114 int16 one " l/h"
        ∷ field "pressure_sensor_ga1" 116 int16 hundredth " bar"
        ∷ field "luftfeuchtigkeit_sensor_ga1" 118 int16 one "%"
        ∷ field "temperature_sensor_gd1" 136 int16 tenth " °C"
        ∷ field "flow_rate_sensor_gd1" 138 int16 one " l/h"
        ∷ field "pressure_sensor_gd1" 140 int16 hundredth " bar"
        ∷ field "luftfeuchtigkeit_sensor_gd1" 142 int16 one "%"
        ∷ field "output_a" 36 uint16 one "%"
        ∷ field "output_b" 130 uint16 one "%"
        ∷ field "relay_1" 26 uint16 one "%"
        ∷ field "relay_2" 28 uint16 one "%"
        ∷ field "relay_3" 30 uint16 one "%"
        ∷ field "relay_4" 32 uint16 one "%"
        ∷ field "relay_5" 34 uint16 one "%"
        ∷ field "operating_hours_output_a" 60 uint32 one " h"
        ∷ field "betriebsstunden_ausgang_b" 132 uint32 one " h"
        ∷ field "operating_hours_relay_1" 40 uint32 one " h"
        ∷ field "operating_hours_relay_2" 44 uint32 one " h"
        ∷ field "operating_hours_relay_3" 48 uint32 one " h"
        ∷ field "operating_hours_relay_4" 52 uint32 one " h"
        ∷ field "operating_hours_relay_5" 56 uint32 one " h"
        ∷ field "system_date" 4 uint32 one ""
        ∷ [])
      ∷ entry 0x1271 0x0010 0x0100 "0x1271" (
          field "immersion_heater_1_parameter_priority" 24 int16 one ""
          ∷ field "immersion_heater_1_temperature_store" 8 int16 tenth " °C"
          ∷ field "immersion_heater_1_parameter_tmax" 22 int16 tenth " °C"
          ∷ field "immersion_heater_1_operating_hours_heating" 14 uint32 one " h"
          ∷ field "immersion_heater_1_operating_hours_backup_heating" 18 uint32 one " h"
          ∷ [])
      ∷ entry 0x1272 0x0010 0x0100 "0x1272" (
          field "immersion_heater_2_parameter_priority" 24 int16 one ""
          ∷ field "immersion_heater_2_temperature_store" 8 int16 tenth " °C"
          ∷ field "immersion_heater_2_parameter_tmax" 22 int16 tenth " °C"
          ∷ field "immersion_heater_2_operating_hours_heating" 14 uint32 one " h"
          ∷ field "immersion_heater_2_operating_hours_backup_heating" 18 uint32 one " h"
          ∷ [])
      ∷ entry 0x1273 0x0010 0x0100 "0x1273" (
          field "immersion_heater_3_parameter_priority" 24 int16 one ""
          ∷ field "immersion_heater_3_temperature_store" 8 int16 tenth " °C"
          ∷ field "immersion_heater_3_parameter_tmax" 22 int16 tenth " °C"
          ∷ field "immersion_heater_3_operating_hours_heating" 14 uint32 one " h"
          ∷ field "immersion_heater_3_operating_hours_backup_heating" 18 uint32 one " h"
          ∷ [])
      ∷ entry 0x1274 0x0010 0x0100 "0x1274" (
          field "heat_pump_parameter_priority" 20 int16 one ""
          ∷ field "heat_pump_operating_hours_operation" 12 uint32 one " h"
          ∷ field "heat_pump_operating_hours_mains_operation" 16 uint32 one " h"
          ∷ [])
      ∷ entry 0x1275 0x0010 0x0100 "0x1275" (
          field "wallbox_parameter_priority" 20 int16 one ""
          ∷ field "wallbox_operating_hours_operation" 12 uint32 one " h"
          ∷ field "wallbox_operating_hours_mains_operation" 16 uint32 one " h"
          ∷ [])
      ∷ entry 0x1330 0x0010 0x0100 "0x1330" (
          field "system_date" 4 uint32 one ""
          ∷ field "hot_water_primary_pump_speed" 16 uint16 tenth "%"
          ∷ field "hot_water_set_temperature" 18 int16 tenth " °C"
          ∷ field "hot_water_emergency_speed" 20 int16 one "%"
          ∷ field "hot_water_manual_mode_primary_pump" 21 int16 one "%"
          ∷ field "circulation_pump_speed" 32 uint16 tenth "%"
          ∷ field "disinfection_manual_start" 37 uint8 one ""
          ∷ field "disinfection_result" 39 uint8 one ""
          ∷ field "disinfection_last_disinfection" 40 uint32 one ""
          ∷ field "disinfection_starting_time" 44 uint16 one ""
          ∷ field "stratified_return_valve_status" 51 uint8 one ""
          ∷ field "error_relay_status" 56 uint8 one ""
          ∷ field "sensor_s1" 64 int16 tenth " °C"
          ∷ field "sensor_s2" 66 int16 tenth " °C"
          ∷ field "sensor_s3" 68 int16 tenth " °C"
          ∷ field "sensor_s4" 70 int16 tenth " °C"
          ∷ field "sensor_s5" 72 int16 tenth " °C"
          ∷ field "sensor_s6" 74 int16 tenth " °C"
          ∷ field "sensor_s7" 76 int16 tenth " °C"
          ∷ field "sensor_s9_flow_rate" 84 uint32 one " l/h"
          ∷ field "sensor_s10_flow_rate" 88 uint32 one " l/h"
          ∷ field "sensor_s14_caskade_total_flow_rate" 92 uint32 one " l/h"
          ∷ field "cascade_basic_load_station" 100 uint8 one ""
          ∷ field "cascade_station_2_tfl" 112 int16 tenth " °C"
          ∷ field "cascade_station_2_thw" 114 int16 tenth " °C"
          ∷ field "cascade_station_2_flow_rate" 116 uint32 tenth " l/min"
          ∷ field "cascade_station_2_messages" 120 uint32 one ""
          ∷ field "cascade_station_3_tfl" 124 int16 tenth " °C"
          ∷ field "cascade_station_3_thw" 126 int16 tenth " °C"
          ∷ field "cascade_station_3_flow_rate" 128 uint32 tenth " l/min"
          ∷ field "cascade_station_3_messages" 132 uint32 one ""
          ∷ field "cascade_station_4_tfl" 136 int16 tenth " °C"
          ∷ field "cascade_station_4_thw" 138 int16 tenth " °C"
          ∷ field "cascade_station_4_flow_rate" 140 uint32 tenth " l/min"
          ∷ field "cascade_station_4_messages" 144 uint32 one ""
          ∷ field "cascade_station_5_tfl" 168 int16 tenth " °C"
          ∷ field "cascade_station_5_thw" 170 int16 tenth " °C"
          ∷ field "cascade_station_5_flow_rate" 172 uint32 tenth " l/min"
          ∷ field "cascade_station_5_messages" 176 uint32 one ""
          ∷ field "cascade_station_6_tfl" 180 int16 tenth " °C"
          ∷ field "cascade_station_6_thw" 182 int16 tenth " °C"
          ∷ field "cascade_station_6_flow_rate" 184 uint32 tenth " l/min"
          ∷ field "cascade_station_6_messages" 188 uint32 one ""
          ∷ field "cascade_station_2_primary_pump_speed" 148 uint16 tenth "%"
          ∷ field "cascade_station_3_primary_pump_speed" 150 uint16 tenth "%"
          ∷ field "cascade_station_4_primary_pump_speed" 152 uint16 tenth "%"
          ∷ field "cascade_station_5_primary_pump_speed" 192 uint16 tenth "%"
          ∷ field "cascade_station_6_primary_pump_speed" 194 uint16 tenth "%"
          ∷ [])
      ∷ []
