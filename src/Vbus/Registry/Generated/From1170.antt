-- ===== src/Vbus/Registry/Generated/From1170.antt =====
-- internal/vbus/registry_gen.go, lines 841 to 960: the sources 0x1170 to 0x1260.
use vbus2mqtt.Prelude.{[], ◌∷◌}
use vbus2mqtt.Vbus.Double.{Double, hundredth, one, tenth}
use vbus2mqtt.Vbus.Registry.{int16, uint16, uint32, uint8, Registry, entry, field}

module _ {W : Type 0} ⦃d : Double W⦄ where
  unfoldable pub packets_from_1170 : Registry W
  packets_from_1170 =
      entry 0x1170 0x0010 0x0100 "0x1170" (
        field "changesetid" 0 uint32 one ""
        ∷ field "system_date" 4 uint32 one ""
        ∷ field "software_article_number" 8 uint32 one ""
        ∷ field "system_voltage" 50 uint16 hundredth " V"
        ∷ field "vin_1" 52 uint16 hundredth " V"
        ∷ field "vin_2" 54 uint16 hundredth " V"
        ∷ field "vout" 56 uint16 hundredth " V"
        ∷ field "system" 12 uint8 one ""
        ∷ field "control_status" 13 uint8 one ""
        ∷ field "op_mode" 14 uint8 one ""
        ∷ field "sensor_s1" 20 int16 tenth " °C"
        ∷ field "sensor_s2" 22 int16 tenth " °C"
        ∷ field "sensor_k1_temperature" 26 int16 tenth " °C"
        ∷ field "sensor_k1_relative_humidity" 28 int16 one "%"
        ∷ field "sensor_k1_calculated_dew_point_temperature" 30 int16 tenth " °C"
        ∷ field "sensor_k2_temperature" 32 int16 tenth " °C"
        ∷ field "sensor_k2_relative_humidity" 34 int16 one "%"
        ∷ field "sensor_k2_calculated_dew_point_temperature" 36 int16 tenth " °C"
        ∷ field "sensor_k3_temperature" 38 int16 tenth " °C"
        ∷ field "sensor_k3_relative_humidity" 40 int16 one "%"
        ∷ field "sensor_k3_calculated_dew_point_temperature" 42 int16 tenth " °C"
        ∷ field "dew_point_lock_dynamic_collector_temperature" 58 int16 tenth " °C"
        ∷ field "output_fan" 44 uint16 one "%"
        ∷ field "output_0_10_v" 46 uint16 one "%"
        ∷ field "relay" 48 uint16 one "%"
        ∷ [])
      ∷ entry 0x1240 0x0010 0x0100 "0x1240" (
          field "system_date" 0 uint32 one ""
          ∷ field "temperature_sensor_1" 4 int16 tenth " °C"
          ∷ field "temperature_sensor_2" 6 int16 tenth " °C"
          ∷ field "temperature_sensor_3" 8 int16 tenth " °C"
          ∷ field "temperature_sensor_4" 10 int16 tenth " °C"
          ∷ field "tage" 12 int16 one ""
          ∷ field "flow_rate_v40" 16 uint32 one " l/h"
          ∷ field "pump_speed_relay_1" 20 int16 one "%"
          ∷ field "pump_speed_relay_2" 21 int16 one "%"
          ∷ field "pump_speed_relay_3" 22 int16 one "%"
          ∷ field "heat_quantity" 24 uint32 one " Wh"
          ∷ field "sw_version" 28 int16 hundredth ""
          ∷ field "operating_hours_relay_1" 32 uint32 one " h"
          ∷ field "operating_hours_relay_2" 36 uint32 one " h"
          ∷ field "operating_hours_relay_3" 40 uint32 one " h"
          ∷ field "blocking_protection_1" 45 int16 one "%"
          ∷ field "blocking_protection_2" 46 int16 one "%"
          ∷ field "blocking_protection_3" 47 int16 one "%"
          ∷ field "initialise" 48 uint32 one ""
          ∷ field "filling" 52 uint32 one ""
          ∷ field "stabilise" 54 uint32 one ""
          ∷ field "pump_delay" 60 int16 one ""
          ∷ field "overrun" 62 int16 one ""
          ∷ field "thermal_disinfection" 63 int16 one ""
          ∷ field "spreading" 66 int16 one ""
          ∷ field "antifreeze" 67 int16 one ""
          ∷ field "error_mask" 72 uint32 one ""
          ∷ [])
      ∷ entry 0x1241 0x0010 0x0100 "0x1241" (
          field "wmz1valuewh" 0 uint32 one " Wh"
          ∷ field "wmz1powerw" 4 uint32 one " W"
          ∷ field "wmz1valuetodaywh" 8 uint32 one " Wh"
          ∷ field "wmz1valueweekwh" 12 uint32 one " Wh"
          ∷ [])
      ∷ entry 0x1250 0x0010 0x0100 "0x1250" (
          field "system_date" 0 uint32 one ""
          ∷ field "t_fl" 4 int16 tenth " °C"
          ∷ field "tdhw" 6 int16 tenth " °C"
          ∷ field "t_cw" 8 int16 tenth " °C"
          ∷ field "s4" 10 int16 tenth " °C"
          ∷ field "s5" 12 int16 tenth " °C"
          ∷ field "f_us" 16 uint32 one " l/h"
          ∷ field "f_impulse" 20 uint32 one " l/h"
          ∷ field "pwm_p" 24 uint8 one "%"
          ∷ field "pwm_p" 28 uint32 one " s"
          ∷ field "pwm_28" 25 uint8 one "%"
          ∷ field "pwm_28" 32 uint32 one " s"
          ∷ field "relay_157" 26 uint8 one ""
          ∷ field "relay_28" 27 uint8 one ""
          ∷ field "r2" 36 uint8 one ""
          ∷ field "energy_today" 44 uint32 one " Wh"
          ∷ field "total_energy" 48 uint32 one " Wh"
          ∷ field "total_draw_off_quantity" 84 uint32 one " l"
          ∷ field "total_operation" 88 uint32 one " s"
          ∷ field "fault" 80 uint32 one ""
          ∷ field "version" 64 uint16 hundredth ""
          ∷ field "controller_variant" 66 uint8 one ""
          ∷ [])
      ∷ entry 0x1260 0x0010 0x0100 "0x1260" (
          field "system_date" 28 uint32 one ""
          ∷ field "cs3" 0 int16 tenth " °C"
          ∷ field "s4" 2 int16 tenth " °C"
          ∷ field "s5" 32 int16 tenth " °C"
          ∷ field "pwm_28" 4 uint8 one "%"
          ∷ field "pwm_28" 8 uint32 one " s"
          ∷ field "relay_157" 5 uint8 one ""
          ∷ field "relay_28" 6 uint8 one ""
          ∷ field "r2" 12 uint8 one ""
          ∷ field "total_energy" 16 uint32 one " Wh"
          ∷ field "total_draw_off_quantity" 20 uint32 one " l"
          ∷ field "total_operating_time" 24 uint32 one " s"
          ∷ [])
      ∷ []
