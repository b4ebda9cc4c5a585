-- ===== src/Vbus/Registry/Generated/From105B.antt =====
-- internal/vbus/registry_gen.go, lines 303 to 427: the sources 0x105B to 0x1060.
use vbus2mqtt.Prelude.{[], ◌∷◌}
use vbus2mqtt.Vbus.Double.{Double, hundredth, one, tenth, thousandth}
use vbus2mqtt.Vbus.Registry.{int16, uint16, uint32, uint8, Registry, entry, field}

module _ {W : Type 0} ⦃d : Double W⦄ where
  unfoldable pub packets_from_105b : Registry W
  packets_from_105b =
      entry 0x105B 0x0010 0x0100 "0x105B" (
        field "tcap" 4 int16 tenth " °C"
        ∷ field "trh" 2 int16 tenth " °C"
        ∷ field "trb" 0 int16 tenth " °C"
        ∷ field "r1" 6 uint8 one "%"
        ∷ field "r2" 7 uint8 one "%"
        ∷ field "h_p1" 12 uint16 one " h"
        ∷ field "h_p2" 14 uint16 one " h"
        ∷ field "kwh" 16 uint32 one " kWh"
        ∷ field "mwh" 20 uint32 one " MWh"
        ∷ field "system_date" 24 uint32 one ""
        ∷ [])
      ∷ entry 0x105D 0x0010 0x0100 "0x105D" (
          field "temperature_sensor_1" 0 int16 tenth " °C"
          ∷ field "temperature_sensor_2" 2 int16 tenth " °C"
          ∷ field "temperature_sensor_3" 4 int16 tenth " °C"
          ∷ field "temperature_sensor_4" 6 int16 tenth " °C"
          ∷ field "temperature_vfd1" 36 int16 tenth " °C"
          ∷ field "flow_rate_vfd1" 38 int16 one " l/h"
          ∷ field "pump_speed_relay_1" 8 uint8 one "%"
          ∷ field "pump_speed_relay_2" 12 uint8 one "%"
          ∷ field "operating_hours_relay_1" 10 uint16 one " h"
          ∷ field "operating_hours_relay_2" 14 uint16 one " h"
          ∷ field "unittype" 16 uint8 one ""
          ∷ field "system" 17 uint8 one ""
          ∷ field "errormask" 20 uint16 one ""
          ∷ field "system_time" 22 int16 one ""
          ∷ field "status_mask" 24 uint32 one ""
          ∷ field "heat_quantity" 28 uint32 one " Wh"
          ∷ field "sw_version" 32 uint16 hundredth ""
          ∷ [])
      ∷ entry 0x105E 0x0010 0x0100 "0x105E" (
          field "temperature_sensor_1" 0 int16 tenth " °C"
          ∷ field "temperature_sensor_2" 2 int16 tenth " °C"
          ∷ field "temperature_sensor_3" 4 int16 tenth " °C"
          ∷ field "sensor_3_zustand_fs" 6 uint8 one ""
          ∷ field "sensor_4_zustand_ta" 7 uint8 one ""
          ∷ field "pump_speed_relay_1" 8 int16 one "%"
          ∷ field "pump_speed_relay_2" 9 int16 one "%"
          ∷ field "pump_speed_relay_3" 10 int16 one "%"
          ∷ field "pump_speed_relay_4" 11 int16 one "%"
          ∷ field "operating_seconds_relay_1" 12 uint32 one " s"
          ∷ field "operating_seconds_relay_2" 16 uint32 one " s"
          ∷ field "operating_seconds_relay_3" 20 uint32 one " s"
          ∷ field "operating_seconds_relay_4" 24 uint32 one " s"
          ∷ field "error_mask" 28 uint32 one ""
          ∷ field "messages" 32 uint32 one ""
          ∷ field "heat_pump_state" 36 int16 one ""
          ∷ field "heat_pump_operating_mode" 37 int16 one ""
          ∷ field "heat_pump_tcalc" 38 int16 tenth " °C"
          ∷ field "mixer_command" 40 int16 one ""
          ∷ field "mixer_dt" 41 int16 tenth " K"
          ∷ field "tplan_timer" 44 int16 one " s"
          ∷ [])
      ∷ entry 0x105F 0x0010 0x0100 "0x105F" (
          field "temperature_sensor_1" 0 int16 tenth " °C"
          ∷ field "temperature_sensor_2" 2 int16 tenth " °C"
          ∷ field "temperature_sensor_3" 4 int16 tenth " °C"
          ∷ field "temperature_sensor_4" 6 int16 tenth " °C"
          ∷ field "relay_1" 8 int16 one "%"
          ∷ field "relay_2" 9 int16 one "%"
          ∷ field "pwm_a" 20 int16 one "%"
          ∷ field "pwm_b" 21 int16 one "%"
          ∷ field "mixer_open" 10 int16 one "%"
          ∷ field "mixer_closed" 11 int16 one "%"
          ∷ field "system_message" 18 uint8 one ""
          ∷ field "date" 12 uint32 one ""
          ∷ field "time" 16 int16 one ""
          ∷ [])
      ∷ entry 0x1060 0x0010 0x0100 "0x1060" (
          field "temperature_sensor_1" 0 int16 tenth " °C"
          ∷ field "temperature_sensor_2" 2 int16 tenth " °C"
          ∷ field "temperature_sensor_3" 4 int16 tenth " °C"
          ∷ field "temperature_sensor_4" 6 int16 tenth " °C"
          ∷ field "temperature_sensor_5" 8 int16 tenth " °C"
          ∷ field "temperature_sensor_6" 10 int16 tenth " °C"
          ∷ field "temperature_sensor_7" 12 int16 tenth " °C"
          ∷ field "temperature_sensor_8" 14 int16 tenth " °C"
          ∷ field "temperature_sensor_9" 16 int16 tenth " °C"
          ∷ field "temperature_sensor_10" 18 int16 tenth " °C"
          ∷ field "temperature_sensor_11" 20 int16 tenth " °C"
          ∷ field "temperature_sensor_12" 22 int16 tenth " °C"
          ∷ field "sc_irradiation" 24 int16 one " W/m²"
          ∷ field "sc_voltage" 26 uint16 thousandth " V"
          ∷ field "impulse_counter_1" 28 uint32 one " l/min"
          ∷ field "impulse_counter_2" 32 uint32 one " l/min"
          ∷ field "sensor_cable_broken" 36 int16 one ""
          ∷ field "sensor_used" 40 uint8 one ""
          ∷ field "pump_speed_relay_1" 44 uint8 one "%"
          ∷ field "pump_speed_relay_2" 45 uint8 one "%"
          ∷ field "pump_speed_relay_3" 46 uint8 one "%"
          ∷ field "pump_speed_relay_4" 47 uint8 one "%"
          ∷ field "pump_speed_relay_5" 48 uint8 one "%"
          ∷ field "pump_speed_relay_6" 49 uint8 one "%"
          ∷ field "pump_speed_relay_7" 50 uint8 one "%"
          ∷ field "load_detection_relay" 56 uint8 one ""
          ∷ field "error_load_detection_relay" 57 uint8 one ""
          ∷ field "relay_usage_mask" 58 uint16 one ""
          ∷ field "error_mask" 60 uint16 one ""
          ∷ field "warning_mask" 62 uint16 one ""
          ∷ field "sw_version" 64 uint8 tenth ""
          ∷ field "minorversion" 65 uint8 one ""
          ∷ field "system_time" 66 uint16 one ""
          ∷ field "error_solar_cell" 72 uint8 one ""
          ∷ [])
      ∷ []
