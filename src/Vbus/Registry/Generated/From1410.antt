-- ===== src/Vbus/Registry/Generated/From1410.antt =====
-- internal/vbus/registry_gen.go, lines 1107 to 1234: the sources 0x1410 to 0x1560.
use vbus2mqtt.Prelude.{[], ◌∷◌}
use vbus2mqtt.Vbus.Double.{Double, hundredth, one, tenth, thousandth}
use vbus2mqtt.Vbus.Registry.{int16, uint16, uint32, uint8, Registry, entry, field}

module _ {W : Type 0} ⦃d : Double W⦄ where
  unfoldable pub packets_from_1410 : Registry W
  packets_from_1410 =
      entry 0x1410 0x0010 0x0100 "0x1410" (
        field "primary_return_temperature_sensor_1" 0 int16 tenth " °C"
        ∷ field "secondary_flow_temperature_sensor_2" 2 int16 tenth " °C"
        ∷ field "outdoor_temperature_sensor_3" 4 int16 tenth " °C"
        ∷ field "primary_flow_temperature_ga2" 34 int16 tenth " °C"
        ∷ field "secondary_return_temperature_gd1" 36 int16 tenth " °C"
        ∷ field "boiler_fault_sensor_4" 40 int16 one ""
        ∷ field "oil_level_ga1" 41 int16 one "%"
        ∷ field "primary_pressure_ga2" 46 int16 hundredth " bar"
        ∷ field "secondary_pressure_gd1" 48 int16 hundredth " bar"
        ∷ field "humidity_gd2" 55 int16 one "%"
        ∷ field "relay_1" 56 uint8 one "%"
        ∷ field "relay_2" 57 uint8 one "%"
        ∷ field "relay_3" 58 uint8 one "%"
        ∷ field "relay_4" 69 uint8 one "%"
        ∷ field "pwm_a" 80 uint8 one "%"
        ∷ field "boiler_demand_0_10_v" 81 uint8 one "%"
        ∷ field "system_date" 72 uint32 one ""
        ∷ field "error_mask" 76 uint32 one ""
        ∷ field "last_event_l_e" 84 int16 one ""
        ∷ field "l_e_error_mask" 88 uint32 one ""
        ∷ field "l_e_time_stamp" 92 uint32 one ""
        ∷ [])
      ∷ entry 0x1420 0x0010 0x0100 "0x1420" (
          field "system_time" 34 int16 one ""
          ∷ field "temperature_sensor_1" 0 int16 tenth " °C"
          ∷ field "temperature_sensor_2" 2 int16 tenth " °C"
          ∷ field "temperature_sensor_3" 4 int16 tenth " °C"
          ∷ field "temperature_sensor_4" 6 int16 tenth " °C"
          ∷ field "temperature_gfd" 8 int16 tenth " °C"
          ∷ field "flow_rate_1" 10 int16 one " l/h"
          ∷ field "pump_speed_relay_1" 12 uint8 one "%"
          ∷ field "pump_speed_relay_2" 16 uint8 one "%"
          ∷ field "operating_hours_relay_1" 14 uint16 one " h"
          ∷ field "operating_hours_relay_2" 18 uint16 one " h"
          ∷ field "pfb1_duty" 20 uint32 thousandth "%"
          ∷ field "pfb1_freq" 24 uint32 thousandth " Hz"
          ∷ field "heat_quantity" 28 uint32 one " Wh"
          ∷ field "unittype" 40 uint8 one ""
          ∷ field "status_mask" 36 uint32 one ""
          ∷ field "errormask" 32 uint16 one ""
          ∷ field "sw_version" 42 uint16 hundredth ""
          ∷ [])
      ∷ entry 0x1510 0x0010 0x0100 "0x1510" (
          field "system_date" 4 uint32 one ""
          ∷ field "hot_water_status" 13 uint8 one ""
          ∷ field "hot_water_primary_pump_speed" 16 uint16 tenth "%"
          ∷ field "hot_water_set_temperature" 18 int16 tenth " °C"
          ∷ field "circulation_pump_speed" 32 uint16 tenth "%"
          ∷ field "circulation_dt_pipe" 34 uint16 tenth " K"
          ∷ field "disinfection_status" 38 uint8 one ""
          ∷ field "disinfection_last_disinfection" 40 uint32 one ""
          ∷ field "stratified_return_valve_status" 51 uint8 one ""
          ∷ field "error_relay_status" 56 uint8 one ""
          ∷ field "sensor_s1" 64 int16 tenth " °C"
          ∷ field "sensor_s2" 66 int16 tenth " °C"
          ∷ field "sensor_s3" 68 int16 tenth " °C"
          ∷ field "sensor_s4" 70 int16 tenth " °C"
          ∷ field "sensor_s5" 72 int16 tenth " °C"
          ∷ field "sensor_s6" 74 int16 tenth " °C"
          ∷ field "sensor_s7" 76 int16 tenth " °C"
          ∷ field "sensor_s9_flow_rate" 84 uint32 one " l/h"
          ∷ [])
      ∷ entry 0x155A 0x0010 0x0100 "0x155A" (
          field "outdoor_temperature" 0 int16 tenth " °C"
          ∷ field "temperature_speicher_unten" 2 int16 tenth " °C"
          ∷ field "temperature_speicher_oben" 4 int16 tenth " °C"
          ∷ field "flow_temperature" 6 int16 tenth " °C"
          ∷ field "pump_speed_relay_pumpe" 8 int16 one "%"
          ∷ field "pump_speed_heat_pump" 9 int16 one "%"
          ∷ field "heizstab" 10 int16 one "%"
          ∷ field "operating_seconds_relay_pump" 12 uint32 one " s"
          ∷ field "betriebssekunden_heizstab" 16 uint32 one " s"
          ∷ field "error_mask" 20 uint32 one ""
          ∷ field "system_date" 24 uint32 one ""
          ∷ field "version" 28 uint32 hundredth ""
          ∷ [])
      ∷ entry 0x1560 0x0010 0x0100 "0x1560" (
          field "temperature_sensor_1" 0 int16 tenth " °C"
          ∷ field "temperature_sensor_2" 2 int16 tenth " °C"
          ∷ field "temperature_sensor_3" 4 int16 tenth " °C"
          ∷ field "temperature_sensor_4" 6 int16 tenth " °C"
          ∷ field "temperature_sensor_5" 8 int16 tenth " °C"
          ∷ field "temperature_sensor_6" 10 int16 tenth " °C"
          ∷ field "temperature_sensor_7" 12 int16 tenth " °C"
          ∷ field "temperature_sensor_8" 14 int16 tenth " °C"
          ∷ field "temperature_sensor_9" 16 int16 tenth " °C"
          ∷ field "temperature_sensor_za" 18 int16 tenth " °C"
          ∷ field "temperature_sensor_gd1" 20 int16 tenth " °C"
          ∷ field "temperature_sensor_gd2" 22 int16 tenth " °C"
          ∷ field "flow_rate_sensor_imp1" 24 uint32 one " l/h"
          ∷ field "flow_rate_sensor_gd1" 28 uint32 one " l/h"
          ∷ field "flow_rate_sensor_gd2" 32 uint32 one " l/h"
          ∷ field "pressure_sensor_gd1" 36 int16 hundredth " bar"
          ∷ field "pressure_sensor_gd2" 38 int16 hundredth " bar"
          ∷ field "pump_speed_relay_1" 40 int16 one "%"
          ∷ field "pump_speed_relay_2" 41 int16 one "%"
          ∷ field "pump_speed_relay_3" 42 int16 one "%"
          ∷ field "pump_speed_relay_4" 43 int16 one "%"
          ∷ field "pump_speed_relay_5" 44 int16 one "%"
          ∷ field "pump_speed_relay_6" 45 int16 one "%"
          ∷ field "pump_speed_relay_7" 46 int16 one "%"
          ∷ field "controller_output_1" 47 int16 one "%"
          ∷ field "controller_output_2" 48 int16 one "%"
          ∷ field "system_date" 52 uint32 one ""
          ∷ field "error_mask" 56 uint32 one ""
          ∷ field "warning_mask" 60 uint32 one ""
          ∷ [])
      ∷ []
