-- ===== src/Vbus/Registry/Generated/From5251.antt =====
-- internal/vbus/registry_gen.go, lines 3176 to 3318: the sources 0x5251 to 0x5611.
use vbus2mqtt.Prelude.{[], ◌∷◌}
use vbus2mqtt.Vbus.Double.{Double, hundredth, one, tenth}
use vbus2mqtt.Vbus.Registry.{int16, uint16, uint32, uint8, Registry, entry, field}

module _ {W : Type 0} ⦃d : Double W⦄ where
  unfoldable pub packets_from_5251 : Registry W
  packets_from_5251 =
      entry 0x5251 0x0010 0x0100 "0x5251" (
        field "temperature_sensor_1" 0 int16 tenth " °C"
        ∷ field "temperature_sensor_2" 2 int16 tenth " °C"
        ∷ field "temperature_sensor_3" 4 int16 tenth " °C"
        ∷ field "temperature_sensor_4" 6 int16 tenth " °C"
        ∷ field "temperature_sensor_5" 8 int16 tenth " °C"
        ∷ field "temperature_sensor_6" 10 int16 tenth " °C"
        ∷ field "temperature_sensor_vfs_us" 22 int16 tenth " °C"
        ∷ field "flow_rate_sensor_vfs_us" 36 uint32 one " l/h"
        ∷ field "pump_speed_relay_1" 49 uint8 one "%"
        ∷ field "pump_speed_relay_2" 50 uint8 one "%"
        ∷ field "pump_speed_relay_3" 51 uint8 one "%"
        ∷ field "pump_speed_relay_potfrei" 52 uint8 one "%"
        ∷ field "pump_speed_output_pwm_1" 56 uint8 one "%"
        ∷ field "pump_speed_output_pwm_2" 57 uint8 one "%"
        ∷ field "operating_seconds_relay_1" 64 uint32 one " s"
        ∷ field "operating_seconds_relay_2" 68 uint32 one " s"
        ∷ field "operating_seconds_relay_3" 72 uint32 one " s"
        ∷ field "operating_seconds_pot_free_relay" 76 uint32 one " s"
        ∷ field "operating_seconds_output_pwm1" 80 uint32 one " s"
        ∷ field "operating_seconds_output_pwm2" 84 uint32 one " s"
        ∷ field "heat_quantity" 96 uint32 one " Wh"
        ∷ field "error" 100 uint32 one ""
        ∷ field "version" 108 uint16 hundredth ""
        ∷ field "system_date" 112 uint32 one ""
        ∷ [])
      ∷ entry 0x5311 0x0010 0x0100 "0x5311" (
          field "temperature_sensor_1" 0 int16 tenth " °C"
          ∷ field "temperature_sensor_2" 2 int16 tenth " °C"
          ∷ field "temperature_sensor_3" 4 int16 tenth " °C"
          ∷ field "temperature_sensor_4" 6 int16 tenth " °C"
          ∷ field "irradiation_sensor_5" 8 int16 one " W/m²"
          ∷ field "pump_speed_r1" 10 uint8 one "%"
          ∷ field "pump_speed_r2" 11 uint8 one "%"
          ∷ field "pump_speed_r3" 12 uint8 one "%"
          ∷ field "relay_bit_mask" 13 uint8 one ""
          ∷ field "system" 21 uint8 one ""
          ∷ field "error_mask" 24 uint8 one ""
          ∷ field "sensor_line_break_mask" 25 uint8 one ""
          ∷ field "sensor_short_circuit_mask" 26 uint8 one ""
          ∷ field "system_time" 28 int16 one ""
          ∷ [])
      ∷ entry 0x5351 0x0010 0x0100 "0x5351" (
          field "hydraulics" 110 uint8 one ""
          ∷ field "flow_rate" 132 uint32 one " l/h"
          ∷ field "tspvl_s1" 0 int16 tenth " °C"
          ∷ field "thw" 116 int16 tenth " °C"
          ∷ field "s3" 4 int16 tenth " °C"
          ∷ field "tkw_s4" 6 int16 tenth " °C"
          ∷ field "s5" 8 int16 tenth " °C"
          ∷ field "s6" 10 int16 tenth " °C"
          ∷ field "s7" 12 int16 tenth " °C"
          ∷ field "s8" 14 int16 tenth " °C"
          ∷ field "s9" 16 int16 tenth " °C"
          ∷ field "pump_speed_prim_pump" 56 uint8 one "%"
          ∷ field "pump_speed_second_pump" 118 uint8 one "%"
          ∷ field "pump_speed_circulation_pump" 119 uint8 one "%"
          ∷ field "r2" 50 uint8 one "%"
          ∷ field "r3" 51 uint8 one "%"
          ∷ field "r4" 52 uint8 one "%"
          ∷ field "heat_quantity" 96 uint32 one " Wh"
          ∷ field "version" 108 uint16 hundredth ""
          ∷ field "date_time" 112 uint32 one ""
          ∷ field "flow_rate_us1" 120 uint32 one " l/h"
          ∷ field "flow_rate_us2" 124 uint32 one " l/h"
          ∷ field "flow_rate_us_in_total" 128 uint32 one " l/h"
          ∷ [])
      ∷ entry 0x5400 0x0010 0x0100 "0x5400" (
          field "temperature_sensor_1" 0 int16 tenth " °C"
          ∷ field "temperature_sensor_2" 2 int16 tenth " °C"
          ∷ field "temperature_sensor_3" 4 int16 tenth " °C"
          ∷ field "temperature_sensor_4" 6 int16 tenth " °C"
          ∷ field "temperature_sensor_5" 8 int16 tenth " °C"
          ∷ field "temperature_sensor_6" 10 int16 tenth " °C"
          ∷ field "temperature_sensor_7" 12 int16 tenth " °C"
          ∷ field "temperature_sensor_8" 14 int16 tenth " °C"
          ∷ field "temperature_sensor_9" 16 int16 tenth " °C"
          ∷ field "irradiation_sensor" 18 int16 one " W/m²"
          ∷ field "temperature_sensor_11" 20 int16 tenth " °C"
          ∷ field "temperature_sensor_12" 22 int16 tenth " °C"
          ∷ field "flow_rate_sensor_1" 24 uint32 one " l/h"
          ∷ field "flow_rate_sensor_2" 28 uint32 one " l/h"
          ∷ field "flow_rate_sensor_3" 32 uint32 one " l/h"
          ∷ field "pressure_sensor_11" 36 int16 hundredth " bar"
          ∷ field "pressure_sensor_12" 38 int16 hundredth " bar"
          ∷ field "pump_speed_relay_1" 40 int16 one "%"
          ∷ field "pump_speed_relay_2" 41 int16 one "%"
          ∷ field "pump_speed_relay_3" 42 int16 one "%"
          ∷ field "pump_speed_relay_4" 43 int16 one "%"
          ∷ field "pump_speed_relay_5" 44 int16 one "%"
          ∷ field "controller_output_1" 45 int16 one "%"
          ∷ field "controller_output_2" 46 int16 one "%"
          ∷ field "system_date" 48 uint32 one ""
          ∷ field "error_mask" 52 uint32 one ""
          ∷ field "warning_mask" 56 uint32 one ""
          ∷ [])
      ∷ entry 0x5510 0x0010 0x0100 "0x5510" (
          field "temperature_sensor_1" 0 int16 tenth " °C"
          ∷ field "temperature_sensor_2" 2 int16 tenth " °C"
          ∷ field "temperature_sensor_3" 4 int16 tenth " °C"
          ∷ field "temperature_sensor_4" 6 int16 tenth " °C"
          ∷ field "operating_hours" 8 uint16 one " h"
          ∷ field "pump_speed_relay_1" 10 uint8 one "%"
          ∷ field "control_status" 11 uint8 one ""
          ∷ field "error_mask" 12 uint8 one ""
          ∷ [])
      ∷ entry 0x5611 0x0010 0x0100 "0x5611" (
          field "temperature_sensor_1" 0 int16 tenth " °C"
          ∷ field "temperature_sensor_2" 2 int16 tenth " °C"
          ∷ field "temperature_sensor_3" 4 int16 tenth " °C"
          ∷ field "temperature_sensor_4" 6 int16 tenth " °C"
          ∷ field "pump_speed_relay_1" 8 int16 one "%"
          ∷ field "pump_speed_relay_2" 9 int16 one "%"
          ∷ field "mixer_open" 10 int16 one "%"
          ∷ field "mixer_closed" 11 int16 one "%"
          ∷ field "system_message" 18 uint8 one ""
          ∷ field "date" 12 uint32 one ""
          ∷ field "time" 16 int16 one ""
          ∷ [])
      ∷ []
