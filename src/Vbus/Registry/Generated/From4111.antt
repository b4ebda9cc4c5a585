-- ===== src/Vbus/Registry/Generated/From4111.antt =====
-- internal/vbus/registry_gen.go, lines 2606 to 2744: the sources 0x4111 to 0x4224.
use vbus2mqtt.Prelude.{[], ◌∷◌}
use vbus2mqtt.Vbus.Double.{Double, hundredth, one, tenth}
use vbus2mqtt.Vbus.Registry.{int16, uint16, uint32, uint8, Registry, entry, field}

module _ {W : Type 0} ⦃d : Double W⦄ where
  unfoldable pub packets_from_4111 : Registry W
  packets_from_4111 =
      entry 0x4111 0x0010 0x0100 "0x4111" (
        field "temperature_sensor_1" 0 int16 tenth " °C"
        ∷ field "temperature_sensor_2" 2 int16 tenth " °C"
        ∷ field "temperature_sensor_3" 4 int16 tenth " °C"
        ∷ field "temperature_sensor_4" 6 int16 tenth " °C"
        ∷ field "pump_speed_relay_1" 8 uint8 one "%"
        ∷ field "status_display" 10 uint16 one ""
        ∷ field "operating_hours_relay_1" 12 uint16 one " h"
        ∷ field "heat_quantity" 16 uint32 one " Wh"
        ∷ [])
      ∷ entry 0x4211 0x0010 0x0100 "0x4211" (
          field "temperature_s1" 0 int16 tenth " °C"
          ∷ field "temperature_s2" 2 int16 tenth " °C"
          ∷ field "temperature_s3" 4 int16 tenth " °C"
          ∷ field "temperature_s4" 6 int16 tenth " °C"
          ∷ field "pump_speed_relay_1" 8 uint8 one "%"
          ∷ field "pump_speed_relay_2" 9 uint8 one "%"
          ∷ field "error_mask" 10 uint8 one ""
          ∷ field "operating_hours_relay_1" 12 uint16 one " h"
          ∷ field "operating_hours_relay_2" 14 uint16 one " h"
          ∷ [])
      ∷ entry 0x4212 0x0010 0x0100 "0x4212" (
          field "temperature_s1" 0 int16 tenth " °C"
          ∷ field "temperature_s2" 2 int16 tenth " °C"
          ∷ field "temperature_s3" 4 int16 tenth " °C"
          ∷ field "temperature_s4" 6 int16 tenth " °C"
          ∷ field "pump_speed_r1" 8 uint8 one "%"
          ∷ field "pump_speed_r2" 9 uint8 one "%"
          ∷ field "error_mask" 10 uint8 one ""
          ∷ field "variant" 11 uint8 one ""
          ∷ field "operating_hours_r1" 12 uint16 one " h"
          ∷ field "operating_hours_r2" 14 uint16 one " h"
          ∷ field "system_time" 22 int16 one ""
          ∷ [])
      ∷ entry 0x4213 0x0010 0x0100 "0x4213" (
          field "temperature_s1" 0 int16 tenth " °C"
          ∷ field "temperature_s2" 2 int16 tenth " °C"
          ∷ field "temperature_s3" 4 int16 tenth " °C"
          ∷ field "temperature_s4" 6 int16 tenth " °C"
          ∷ field "temperature_vfd1" 24 int16 tenth " °C"
          ∷ field "flow_rate_vfd1" 26 int16 one " l/h"
          ∷ field "pump_speed_relay_1" 8 uint8 one "%"
          ∷ field "pump_speed_relay_2" 9 uint8 one "%"
          ∷ field "voltage_10_v" 32 uint8 tenth " V"
          ∷ field "error_mask" 10 uint8 one ""
          ∷ field "operating_hours_relay_1" 12 uint16 one " h"
          ∷ field "operating_hours_relay_2" 14 uint16 one " h"
          ∷ [])
      ∷ entry 0x4214 0x0010 0x0100 "0x4214" (
          field "temperature_s1" 0 int16 tenth " °C"
          ∷ field "temperature_s2" 2 int16 tenth " °C"
          ∷ field "temperature_s3" 4 int16 tenth " °C"
          ∷ field "temperature_s4" 6 int16 tenth " °C"
          ∷ field "temperature_vfd1" 24 int16 tenth " °C"
          ∷ field "flow_rate_vfd1" 26 int16 one " l/h"
          ∷ field "pump_speed_relay_1" 8 uint8 one "%"
          ∷ field "pump_speed_relay_2" 9 uint8 one "%"
          ∷ field "voltage_10_v" 32 uint8 tenth " V"
          ∷ field "error_mask" 10 uint8 one ""
          ∷ field "operating_hours_relay_1" 12 uint16 one " h"
          ∷ field "operating_hours_relay_2" 14 uint16 one " h"
          ∷ [])
      ∷ entry 0x4221 0x0010 0x0100 "0x4221" (
          field "temperature_sensor_1" 0 int16 tenth " °C"
          ∷ field "temperature_sensor_2" 2 int16 tenth " °C"
          ∷ field "temperature_sensor_3" 4 int16 tenth " °C"
          ∷ field "temperature_sensor_4" 6 int16 tenth " °C"
          ∷ field "pump_speed_pump_1" 8 int16 one "%"
          ∷ field "pump_speed_pump_2" 9 int16 one "%"
          ∷ field "relay_mask" 10 uint8 one ""
          ∷ field "error_mask" 11 uint8 one ""
          ∷ field "system_time" 12 uint16 one ""
          ∷ field "scheme" 14 uint8 one ""
          ∷ field "operating_hours_relay_1" 16 uint16 one ""
          ∷ field "operating_hours_relay_2" 18 uint16 one ""
          ∷ field "version" 26 uint16 hundredth ""
          ∷ [])
      ∷ entry 0x4223 0x0010 0x0100 "0x4223" (
          field "temperature_sensor_1" 0 int16 tenth " °F"
          ∷ field "temperature_sensor_2" 2 int16 tenth " °F"
          ∷ field "temperature_sensor_3" 4 int16 tenth " °F"
          ∷ field "temperature_sensor_4" 6 int16 tenth " °F"
          ∷ field "pump_speed_pump_1" 8 int16 one "%"
          ∷ field "pump_speed_pump_2" 9 int16 one "%"
          ∷ field "relay_mask" 10 uint8 one ""
          ∷ field "error_mask" 11 uint8 one ""
          ∷ field "system_time" 12 uint16 one ""
          ∷ field "scheme" 14 uint8 one ""
          ∷ field "operating_hours_relay_1" 16 uint16 one ""
          ∷ field "operating_hours_relay_2" 18 uint16 one ""
          ∷ field "version" 26 uint16 hundredth ""
          ∷ [])
      ∷ entry 0x4224 0x0010 0x0100 "0x4224" (
          field "temperature_sensor_1" 0 int16 tenth " °C"
          ∷ field "temperature_sensor_2" 2 int16 tenth " °C"
          ∷ field "temperature_sensor_3" 4 int16 tenth " °C"
          ∷ field "temperature_sensor_4" 6 int16 tenth " °C"
          ∷ field "pump_speed_pump_1" 8 int16 one "%"
          ∷ field "pump_speed_pump_2" 9 int16 one "%"
          ∷ field "relay_mask" 10 uint8 one ""
          ∷ field "error_mask" 11 uint8 one ""
          ∷ field "system_time" 12 uint16 one ""
          ∷ field "scheme" 14 uint8 one ""
          ∷ field "operating_hours_relay_1" 16 uint16 one ""
          ∷ field "operating_hours_relay_2" 18 uint16 one ""
          ∷ field "version" 26 uint16 hundredth ""
          ∷ [])
      ∷ []
