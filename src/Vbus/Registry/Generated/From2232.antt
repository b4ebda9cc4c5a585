-- ===== src/Vbus/Registry/Generated/From2232.antt =====
-- internal/vbus/registry_gen.go, lines 2049 to 2173: the sources 0x2232 to 0x2262.
use vbus2mqtt.Prelude.{[], ◌∷◌}
use vbus2mqtt.Vbus.Double.{Double, hundredth, one, tenth}
use vbus2mqtt.Vbus.Registry.{int16, uint16, uint32, uint8, Registry, entry, field}

module _ {W : Type 0} ⦃d : Double W⦄ where
  unfoldable pub packets_from_2232 : Registry W
  packets_from_2232 =
      entry 0x2232 0x0010 0x0100 "0x2232" (
        field "flow_temperature" 0 int16 tenth " °C"
        ∷ field "return_temperature" 2 int16 tenth " °C"
        ∷ field "flow_rate" 4 uint16 one " l/h"
        ∷ field "heat" 6 uint16 one " Wh"
        ∷ field "heat" 8 uint16 one " kWh"
        ∷ field "heat" 10 uint16 one " MWh"
        ∷ [])
      ∷ entry 0x2241 0x0010 0x0100 "0x2241" (
          field "s1" 0 int16 tenth " °C"
          ∷ field "s2" 2 int16 tenth " °C"
          ∷ field "s3" 4 int16 tenth " °C"
          ∷ field "s4" 6 int16 tenth " °C"
          ∷ field "s5" 8 int16 tenth " l/min"
          ∷ field "primary_pump" 10 int16 tenth "%"
          ∷ field "pump_speed_relay_1" 40 uint16 tenth "%"
          ∷ field "pump_speed_relay_2" 12 uint8 one "%"
          ∷ field "errormask" 13 uint8 one ""
          ∷ field "warningmask" 14 uint8 one ""
          ∷ field "statusmask" 15 uint8 one ""
          ∷ field "bilanz_heat_quantity" 16 uint32 one " Wh"
          ∷ field "balance_duration_p1_on" 20 uint32 one " h"
          ∷ field "balance_duration_p2_on" 24 uint32 one " h"
          ∷ field "draw_off_quantity" 28 uint32 tenth " m³"
          ∷ field "system_date" 32 uint32 one ""
          ∷ field "system_time" 36 int16 one ""
          ∷ [])
      ∷ entry 0x2251 0x0010 0x0100 "0x2251" (
          field "system_date" 0 uint32 one ""
          ∷ field "temperature_sensor_1" 4 int16 tenth " °C"
          ∷ field "temperature_sensor_2" 6 int16 tenth " °C"
          ∷ field "temperature_sensor_3" 8 int16 tenth " °C"
          ∷ field "temperature_sensor_4" 10 int16 tenth " °C"
          ∷ field "temperature_sensor_5" 12 int16 tenth " °C"
          ∷ field "temperature_vfs_rps_s6" 14 int16 tenth " °C"
          ∷ field "flow_rate_v40" 20 uint32 one " l/h"
          ∷ field "flow_rate_vfs_s6" 24 uint32 one " l/h"
          ∷ field "flow_rate_flowrotor_s7" 28 uint32 one " l/h"
          ∷ field "pressure_rps_s6" 32 int16 hundredth " bar"
          ∷ field "pump_speed_relay_1" 34 int16 one "%"
          ∷ field "pump_speed_relay_2" 35 int16 one "%"
          ∷ field "pump_speed_relay_3" 36 int16 one "%"
          ∷ field "pump_speed_relay_4" 37 int16 one "%"
          ∷ field "pwm_a" 38 int16 one "%"
          ∷ field "pwm_b" 39 int16 one "%"
          ∷ field "heat_quantity" 40 uint32 one " Wh"
          ∷ field "sw_version" 44 uint16 hundredth ""
          ∷ field "operating_seconds_relay_1" 48 uint32 one " s"
          ∷ field "operating_seconds_relay_2" 52 uint32 one " s"
          ∷ field "operating_seconds_relay_3" 56 uint32 one " s"
          ∷ field "operating_seconds_relay_4" 60 uint32 one " s"
          ∷ field "blocking_protection_1" 65 int16 one "%"
          ∷ field "blocking_protection_2" 66 int16 one "%"
          ∷ field "blocking_protection_3" 67 int16 one "%"
          ∷ field "initialise" 68 uint32 one ""
          ∷ field "filling" 72 uint32 one ""
          ∷ field "stabilise" 76 uint32 one ""
          ∷ field "pump_delay" 80 int16 one ""
          ∷ field "overrun" 82 int16 one ""
          ∷ field "thermal_disinfection" 83 int16 one ""
          ∷ field "spreading" 86 int16 one ""
          ∷ field "antifreeze" 87 int16 one ""
          ∷ field "error_mask" 96 uint32 one ""
          ∷ [])
      ∷ entry 0x2252 0x0010 0x0100 "0x2252" (
          field "wmz1valuewh" 0 uint32 one " Wh"
          ∷ field "wmz1powerw" 4 uint32 one " W"
          ∷ field "wmz1valuetodaywh" 8 uint32 one " Wh"
          ∷ field "wmz1valueweekwh" 12 uint32 one " Wh"
          ∷ [])
      ∷ entry 0x2261 0x0010 0x0100 "0x2261" (
          field "system_date" 0 uint32 one ""
          ∷ field "temperature_sensor_1" 4 int16 tenth " °C"
          ∷ field "temperature_sensor_2" 6 int16 tenth " °C"
          ∷ field "temperature_sensor_3" 8 int16 tenth " °C"
          ∷ field "temperature_sensor_4" 10 int16 tenth " °C"
          ∷ field "tage" 12 int16 one ""
          ∷ field "flow_rate_sensor_v40" 16 uint32 one " l/h"
          ∷ field "flow_rate_sensor_vfs" 20 uint32 one " l/h"
          ∷ field "temperature_sensor_vfs" 24 int16 tenth " °C"
          ∷ field "pump_speed_relay_1" 26 int16 one "%"
          ∷ field "pump_speed_relay_2" 27 int16 one "%"
          ∷ field "controller_output_1" 28 int16 one "%"
          ∷ field "wmz1valuewh" 32 uint32 one " Wh"
          ∷ field "sw_version" 36 int16 hundredth ""
          ∷ field "operating_hours_relay1" 40 uint32 one " h"
          ∷ field "operating_hours_relay2" 44 uint32 one " h"
          ∷ field "initialise" 52 uint32 one ""
          ∷ field "filling" 56 uint32 one ""
          ∷ field "stabilise" 60 uint32 one ""
          ∷ field "pump_delay" 64 int16 one ""
          ∷ field "overrun" 66 int16 one ""
          ∷ field "antifreeze" 68 int16 one ""
          ∷ field "error_mask" 76 uint32 one ""
          ∷ [])
      ∷ entry 0x2262 0x0010 0x0100 "0x2262" (
          field "wmz1valuewh" 0 uint32 one " Wh"
          ∷ field "wmz1powerw" 4 uint32 one " W"
          ∷ field "wmz1valuetodaywh" 8 uint32 one " Wh"
          ∷ field "wmz1valueweekwh" 12 uint32 one " Wh"
          ∷ [])
      ∷ []
