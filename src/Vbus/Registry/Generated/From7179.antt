-- ===== src/Vbus/Registry/Generated/From7179.antt =====
-- internal/vbus/registry_gen.go, lines 3605 to 3733: the sources 0x7179 to 0x7231.
use vbus2mqtt.Prelude.{[], ◌∷◌}
use vbus2mqtt.Vbus.Double.{Double, hundredth, one, tenth}
use vbus2mqtt.Vbus.Registry.{int16, uint16, uint32, uint8, Registry, entry, field}

module _ {W : Type 0} ⦃d : Double W⦄ where
  unfoldable pub packets_from_7179 : Registry W
  packets_from_7179 =
      entry 0x7179 0x0010 0x0100 "0x7179" (
        field "flow_set_temperature" 0 int16 tenth " °C"
        ∷ field "operating_state" 2 uint8 one ""
        ∷ [])
      ∷ entry 0x717A 0x0010 0x0100 "0x717A" (
          field "heat_quantity" 0 uint32 one " Wh"
          ∷ field "heat_quantity_today" 8 uint32 one " Wh"
          ∷ field "heat_quantity_week" 12 uint32 one " Wh"
          ∷ field "volume_in_total" 16 uint32 one " l"
          ∷ [])
      ∷ entry 0x717B 0x0010 0x0100 "0x717B" (
          field "heat_quantity" 0 uint32 one " Wh"
          ∷ field "heat_quantity_today" 8 uint32 one " Wh"
          ∷ field "heat_quantity_week" 12 uint32 one " Wh"
          ∷ field "volume_in_total" 16 uint32 one " l"
          ∷ [])
      ∷ entry 0x7210 0x0010 0x0100 "0x7210" (
          field "temperature_sensor_1" 0 int16 tenth " °C"
          ∷ field "temperature_sensor_2" 2 int16 tenth " °C"
          ∷ field "temperature_sensor_3" 4 int16 tenth " °C"
          ∷ field "temperature_sensor_4" 6 int16 tenth " °C"
          ∷ field "temperature_sensor_5" 8 int16 tenth " °C"
          ∷ field "temperature_sensor_6" 10 int16 tenth " °C"
          ∷ field "temperature_sensor_7" 12 int16 tenth " °C"
          ∷ field "temperature_sensor_8" 14 int16 tenth " °C"
          ∷ field "irradiation" 16 int16 one " W/m²"
          ∷ field "flow_rate" 18 int16 one " l/h"
          ∷ field "pump_speed_a1" 20 uint8 one "%"
          ∷ field "pump_speed_a2" 21 uint8 one "%"
          ∷ field "pump_speed_a3" 22 uint8 one "%"
          ∷ field "pump_speed_a" 23 uint8 one "%"
          ∷ field "error_mask" 32 uint8 one ""
          ∷ field "sensor_line_break_number" 33 uint8 one ""
          ∷ field "sensor_short_circuit_number" 34 uint8 one ""
          ∷ field "system_time" 42 int16 one ""
          ∷ [])
      ∷ entry 0x7211 0x0010 0x0100 "0x7211" (
          field "flow_set_temperature" 0 int16 tenth " °C"
          ∷ field "mixer_runtime" 2 uint8 one " s"
          ∷ field "mixer_break_time" 3 uint8 one " s"
          ∷ field "hc_status" 4 uint16 one ""
          ∷ [])
      ∷ entry 0x7212 0x0010 0x0100 "0x7212" (
          field "flow_set_temperature" 0 int16 tenth " °C"
          ∷ field "mixer_runtime" 2 uint8 one " s"
          ∷ field "mixer_break_time" 3 uint8 one " s"
          ∷ field "hc_status" 4 uint16 one ""
          ∷ [])
      ∷ entry 0x7213 0x0010 0x0100 "0x7213" (
          field "flow_set_temperature" 0 int16 tenth " °C"
          ∷ field "mixer_runtime" 2 uint8 one " s"
          ∷ field "mixer_break_time" 3 uint8 one " s"
          ∷ field "hc_status" 4 uint16 one ""
          ∷ [])
      ∷ entry 0x7221 0x0010 0x0100 "0x7221" (
          field "temperature_sensor_1" 0 int16 tenth " °C"
          ∷ field "temperature_sensor_2" 2 int16 tenth " °C"
          ∷ field "temperature_sensor_3" 4 int16 tenth " °C"
          ∷ field "temperature_sensor_4" 6 int16 tenth " °C"
          ∷ field "temperature_sensor_5" 8 int16 tenth " °C"
          ∷ field "flow_rate" 10 int16 one " l/h"
          ∷ field "system_pressure" 12 int16 tenth " bar"
          ∷ field "control_1" 14 int16 one "%"
          ∷ field "control_2" 15 int16 one "%"
          ∷ field "pump_speed_relay_1" 16 uint8 one "%"
          ∷ field "pwm_1" 17 uint8 one "%"
          ∷ field "pump_speed_relay_2" 18 uint8 one "%"
          ∷ field "pwm_2" 19 uint8 one "%"
          ∷ field "heat_quantity" 20 uint32 one " Wh"
          ∷ field "version" 36 uint8 hundredth ""
          ∷ field "time" 38 int16 one ""
          ∷ field "date" 40 uint32 one ""
          ∷ [])
      ∷ entry 0x7231 0x0010 0x0100 "0x7231" (
          field "temperature_sensor_1" 0 int16 tenth " °C"
          ∷ field "temperature_sensor_2" 2 int16 tenth " °C"
          ∷ field "temperature_sensor_3" 4 int16 tenth " °C"
          ∷ field "temperature_sensor_4" 6 int16 tenth " °C"
          ∷ field "temperature_sensor_5" 8 int16 tenth " °C"
          ∷ field "flow_rate" 10 int16 one " l/h"
          ∷ field "system_pressure" 12 int16 tenth " bar"
          ∷ field "temperature_sensor_8" 14 int16 tenth " °C"
          ∷ field "control_1" 16 int16 one "%"
          ∷ field "control_2" 17 int16 one "%"
          ∷ field "pump_speed_relay_1" 18 uint8 one "%"
          ∷ field "pwm_1" 19 uint8 one "%"
          ∷ field "pump_speed_relay_2" 20 uint8 one "%"
          ∷ field "pwm_2" 21 uint8 one "%"
          ∷ field "heat_quantity" 24 uint32 one " Wh"
          ∷ field "version" 40 uint16 hundredth ""
          ∷ field "time" 42 int16 one ""
          ∷ field "date" 44 uint32 one ""
          ∷ [])
      ∷ []
