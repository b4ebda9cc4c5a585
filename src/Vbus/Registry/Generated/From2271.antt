-- ===== src/Vbus/Registry/Generated/From2271.antt =====
-- internal/vbus/registry_gen.go, lines 2174 to 2320: the sources 0x2271 to 0x2372.
use vbus2mqtt.Prelude.{[], ◌∷◌}
use vbus2mqtt.Vbus.Double.{Double, hundredth, one, tenth, thousandth}
use vbus2mqtt.Vbus.Registry.{int16, uint16, uint32, Registry, entry, field}

module _ {W : Type 0} ⦃d : Double W⦄ where
  unfoldable pub packets_from_2271 : Registry W
  packets_from_2271 =
      entry 0x2271 0x0010 0x0100 "0x2271" (
        field "system_date" 0 uint32 one ""
        ∷ field "temperature_sensor_1" 4 int16 tenth " °C"
        ∷ field "temperature_sensor_2" 6 int16 tenth " °C"
        ∷ field "temperature_sensor_3" 8 int16 tenth " °C"
        ∷ field "temperature_sensor_4" 10 int16 tenth " °C"
        ∷ field "tage" 12 int16 one ""
        ∷ field "flow_rate_v40" 16 uint32 one " l/h"
        ∷ field "pump_speed_relay_1" 20 int16 one "%"
        ∷ field "pump_speed_relay_2" 21 int16 one "%"
        ∷ field "pump_speed_relay_4" 22 int16 one "%"
        ∷ field "heat_quantity" 24 uint32 one " Wh"
        ∷ field "sw_version" 28 int16 hundredth ""
        ∷ field "operating_hours_relay_1" 32 uint32 one " h"
        ∷ field "operating_hours_relay_2" 36 uint32 one " h"
        ∷ field "operating_hours_relay_4" 40 uint32 one " h"
        ∷ field "blocking_protection_1" 45 int16 one "%"
        ∷ field "blocking_protection_2" 46 int16 one "%"
        ∷ field "blocking_protection_4" 47 int16 one "%"
        ∷ field "initialise" 48 uint32 one ""
        ∷ field "filling" 52 uint32 one ""
        ∷ field "stabilise" 56 uint32 one ""
        ∷ field "pump_delay" 60 int16 one ""
        ∷ field "overrun" 62 int16 one ""
        ∷ field "thermal_disinfection" 63 int16 one ""
        ∷ field "spreading" 66 int16 one ""
        ∷ field "antifreeze" 67 int16 one ""
        ∷ field "error_mask" 72 uint32 one ""
        ∷ [])
      ∷ entry 0x2272 0x0010 0x0100 "0x2272" (
          field "value" 0 uint32 one " Wh"
          ∷ field "power" 4 uint32 one " W"
          ∷ field "value_today" 8 uint32 one " Wh"
          ∷ field "value_week" 12 uint32 one " Wh"
          ∷ [])
      ∷ entry 0x2360 0x0010 0x0100 "0x2360" (
          field "system_date" 0 uint32 one ""
          ∷ field "temperature_sensor_1" 4 int16 tenth " °C"
          ∷ field "temperature_sensor_2" 6 int16 tenth " °C"
          ∷ field "temperature_sensor_3" 8 int16 tenth " °C"
          ∷ field "temperature_sensor_4" 10 int16 tenth " °C"
          ∷ field "temperature_sensor_5" 12 int16 tenth " °C"
          ∷ field "temperature_vfs_rps_s6" 14 int16 tenth " °C"
          ∷ field "tage" 16 int16 one ""
          ∷ field "flow_rate_v40" 20 uint32 one " l/h"
          ∷ field "flow_rate_vfs_s6" 24 uint32 one " l/h"
          ∷ field "flow_rate_flowrotor_s7" 28 uint32 one " l/h"
          ∷ field "pressure_rps_s6" 32 int16 hundredth " bar"
          ∷ field "pump_speed_relay_1" 34 int16 one "%"
          ∷ field "pump_speed_relay_2" 35 int16 one "%"
          ∷ field "pump_speed_relay_3" 36 int16 one "%"
          ∷ field "pump_speed_relay_4" 37 int16 one "%"
          ∷ field "pwm_a" 38 int16 one "%"
          ∷ field "pwm_b" 39 int16 one "%"
          ∷ field "heat_quantity" 40 uint32 one " Wh"
          ∷ field "sw_version" 44 int16 hundredth ""
          ∷ field "operating_seconds_relay_1" 48 uint32 one " s"
          ∷ field "operating_seconds_relay_2" 52 uint32 one " s"
          ∷ field "operating_seconds_relay_3" 56 uint32 one " s"
          ∷ field "operating_seconds_relay_4" 60 uint32 one " s"
          ∷ field "blocking_protection_1" 65 int16 one "%"
          ∷ field "blocking_protection_2" 66 int16 one "%"
          ∷ field "blocking_protection_3" 67 int16 one "%"
          ∷ field "initialise" 68 uint32 one ""
          ∷ field "filling" 72 uint32 one ""
          ∷ field "stabilise" 76 uint32 one ""
          ∷ field "pump_delay" 80 int16 one ""
          ∷ field "overrun" 82 int16 one ""
          ∷ field "thermal_disinfection" 83 int16 one ""
          ∷ field "spreading" 86 int16 one ""
          ∷ field "antifreeze" 87 int16 one ""
          ∷ field "error_mask" 96 uint32 one ""
          ∷ field "wama_counter" 100 uint32 one ""
          ∷ field "twama" 104 int16 tenth " °C"
          ∷ [])
      ∷ entry 0x2362 0x0010 0x0100 "0x2362" (
          field "wmz1valuewh" 0 uint32 one " Wh"
          ∷ field "wmz1powerw" 4 uint32 one " W"
          ∷ field "wmz1valuetodaywh" 8 uint32 one " Wh"
          ∷ field "wmz1valueweekwh" 12 uint32 one " Wh"
          ∷ [])
      ∷ entry 0x2370 0x0010 0x0100 "0x2370" (
          field "power_heating" 72 uint32 thousandth " W"
          ∷ field "power_excess" 68 uint32 thousandth " W"
          ∷ field "paramter_reserve" 64 uint32 one " W"
          ∷ field "excess" 80 uint32 one " Wh"
          ∷ field "temperature_sensor_1" 16 int16 tenth " °C"
          ∷ field "temperature_sensor_2" 18 int16 tenth " °C"
          ∷ field "temperature_sensor_3" 20 int16 tenth " °C"
          ∷ field "temperature_sensor_4" 22 int16 tenth " °C"
          ∷ field "temperature_sensor_5" 24 int16 tenth " °C"
          ∷ field "output_a" 36 uint16 one "%"
          ∷ field "relay_1" 26 uint16 one "%"
          ∷ field "relay_2" 28 uint16 one "%"
          ∷ field "relay_3" 30 uint16 one "%"
          ∷ field "relay_4" 32 uint16 one "%"
          ∷ field "relay_5" 34 uint16 one "%"
          ∷ field "operating_hours_output_a" 60 uint32 one " h"
          ∷ field "operating_hours_relay_1" 40 uint32 one " h"
          ∷ field "operating_hours_relay_2" 44 uint32 one " h"
          ∷ field "operating_hours_relay_3" 48 uint32 one " h"
          ∷ field "operating_hours_relay_4" 52 uint32 one " h"
          ∷ field "operating_hours_relay_5" 56 uint32 one " h"
          ∷ field "system_date" 4 uint32 one ""
          ∷ [])
      ∷ entry 0x2371 0x0010 0x0100 "0x2371" (
          field "immersion_heater_1_parameter_priority" 24 int16 one ""
          ∷ field "immersion_heater_1_temperature_store" 8 int16 tenth " °C"
          ∷ field "immersion_heater_1_parameter_tmax" 22 int16 tenth " °C"
          ∷ field "immersion_heater_1_operating_hours_heating" 14 uint32 one " h"
          ∷ field "immersion_heater_1_operating_hours_backup_heating" 18 uint32 one " h"
          ∷ [])
      ∷ entry 0x2372 0x0010 0x0100 "0x2372" (
          field "immersion_heater_2_parameter_priority" 24 int16 one ""
          ∷ field "immersion_heater_2_temperature_store" 8 int16 tenth " °C"
          ∷ field "immersion_heater_2_parameter_tmax" 22 int16 tenth " °C"
          ∷ field "immersion_heater_2_operating_hours_heating" 14 uint32 one " h"
          ∷ field "immersion_heater_2_operating_hours_backup_heating" 18 uint32 one " h"
          ∷ [])
      ∷ []
