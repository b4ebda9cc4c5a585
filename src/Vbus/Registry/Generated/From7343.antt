-- ===== src/Vbus/Registry/Generated/From7343.antt =====
-- internal/vbus/registry_gen.go, lines 4027 to 4147: the sources 0x7343 to 0x7351.
use vbus2mqtt.Prelude.{[], ◌∷◌}
use vbus2mqtt.Vbus.Double.{Double, hundredth, one, tenth}
use vbus2mqtt.Vbus.Registry.{int16, uint32, uint8, Registry, entry, field}

module _ {W : Type 0} ⦃d : Double W⦄ where
  unfoldable pub packets_from_7343 : Registry W
  packets_from_7343 =
      entry 0x7343 0x0010 0x0100 "0x7343" (
        field "temperature_sensor_1" 0 int16 tenth " °C"
        ∷ field "temperature_sensor_2" 2 int16 tenth " °C"
        ∷ field "temperature_sensor_3" 4 int16 tenth " °C"
        ∷ field "temperature_sensor_4" 6 int16 tenth " °C"
        ∷ field "temperature_sensor_5" 8 int16 tenth " °C"
        ∷ field "temperature_sensor_6" 10 int16 tenth " °C"
        ∷ field "pump_speed_r1" 12 uint8 one "%"
        ∷ field "pump_speed_r2" 13 uint8 one "%"
        ∷ field "pump_speed_r3" 14 uint8 one "%"
        ∷ field "pump_speed_r4" 15 uint8 one "%"
        ∷ field "pump_speed_r5" 16 uint8 one "%"
        ∷ [])
      ∷ entry 0x7344 0x0010 0x0100 "0x7344" (
          field "temperature_sensor_1" 0 int16 tenth " °C"
          ∷ field "temperature_sensor_2" 2 int16 tenth " °C"
          ∷ field "temperature_sensor_3" 4 int16 tenth " °C"
          ∷ field "temperature_sensor_4" 6 int16 tenth " °C"
          ∷ field "temperature_sensor_5" 8 int16 tenth " °C"
          ∷ field "temperature_sensor_6" 10 int16 tenth " °C"
          ∷ field "pump_speed_r1" 12 uint8 one "%"
          ∷ field "pump_speed_r2" 13 uint8 one "%"
          ∷ field "pump_speed_r3" 14 uint8 one "%"
          ∷ field "pump_speed_r4" 15 uint8 one "%"
          ∷ field "pump_speed_r5" 16 uint8 one "%"
          ∷ [])
      ∷ entry 0x7345 0x0010 0x0100 "0x7345" (
          field "temperature_sensor_1" 0 int16 tenth " °C"
          ∷ field "temperature_sensor_2" 2 int16 tenth " °C"
          ∷ field "temperature_sensor_3" 4 int16 tenth " °C"
          ∷ field "temperature_sensor_4" 6 int16 tenth " °C"
          ∷ field "temperature_sensor_5" 8 int16 tenth " °C"
          ∷ field "temperature_sensor_6" 10 int16 tenth " °C"
          ∷ field "pump_speed_r1" 12 uint8 one "%"
          ∷ field "pump_speed_r2" 13 uint8 one "%"
          ∷ field "pump_speed_r3" 14 uint8 one "%"
          ∷ field "pump_speed_r4" 15 uint8 one "%"
          ∷ field "pump_speed_r5" 16 uint8 one "%"
          ∷ [])
      ∷ entry 0x7346 0x0010 0x0100 "0x7346" (
          field "temperature_sensor_1" 0 int16 tenth " °C"
          ∷ field "temperature_sensor_2" 2 int16 tenth " °C"
          ∷ field "temperature_sensor_3" 4 int16 tenth " °C"
          ∷ field "temperature_sensor_4" 6 int16 tenth " °C"
          ∷ field "temperature_sensor_5" 8 int16 tenth " °C"
          ∷ field "temperature_sensor_6" 10 int16 tenth " °C"
          ∷ field "pump_speed_r1" 12 uint8 one "%"
          ∷ field "pump_speed_r2" 13 uint8 one "%"
          ∷ field "pump_speed_r3" 14 uint8 one "%"
          ∷ field "pump_speed_r4" 15 uint8 one "%"
          ∷ field "pump_speed_r5" 16 uint8 one "%"
          ∷ [])
      ∷ entry 0x7351 0x0010 0x0100 "0x7351" (
          field "temperature_sensor_1" 0 int16 tenth " °C"
          ∷ field "temperature_sensor_2" 2 int16 tenth " °C"
          ∷ field "temperature_sensor_3" 4 int16 tenth " °C"
          ∷ field "temperature_sensor_4" 6 int16 tenth " °C"
          ∷ field "temperature_sensor_5" 8 int16 tenth " °C"
          ∷ field "temperature_sensor_6" 10 int16 tenth " °C"
          ∷ field "temperature_sensor_7" 12 int16 tenth " °C"
          ∷ field "temperature_sensor_8" 14 int16 tenth " °C"
          ∷ field "temperature_sensor_9" 16 int16 tenth " °C"
          ∷ field "temperature_sensor_10" 18 int16 tenth " °C"
          ∷ field "temperature_sensor_11" 20 int16 tenth " °C"
          ∷ field "temperature_sensor_12" 22 int16 tenth " °C"
          ∷ field "temperature_sensor_13" 24 int16 tenth " °C"
          ∷ field "temperature_sensor_14" 26 int16 tenth " °C"
          ∷ field "temperature_sensor_15" 28 int16 tenth " °C"
          ∷ field "irradiation_sensor_16" 30 int16 one " W/m²"
          ∷ field "temperature_sensor_17" 32 int16 tenth " °C"
          ∷ field "temperature_sensor_18" 34 int16 tenth " °C"
          ∷ field "temperature_sensor_19" 36 int16 tenth " °C"
          ∷ field "temperature_sensor_20" 38 int16 tenth " °C"
          ∷ field "flow_rate_sensor_13" 40 uint32 one " l/h"
          ∷ field "flow_rate_sensor_14" 44 uint32 one " l/h"
          ∷ field "flow_rate_sensor_15" 48 uint32 one " l/h"
          ∷ field "flow_rate_sensor_17" 52 uint32 one " l/h"
          ∷ field "flow_rate_sensor_18" 56 uint32 one " l/h"
          ∷ field "flow_rate_sensor_19" 60 uint32 one " l/h"
          ∷ field "flow_rate_sensor_20" 64 uint32 one " l/h"
          ∷ field "pressure_sensor_17" 68 int16 hundredth " bar"
          ∷ field "pressure_sensor_18" 70 int16 hundredth " bar"
          ∷ field "pressure_sensor_19" 72 int16 hundredth " bar"
          ∷ field "pressure_sensor_20" 74 int16 hundredth " bar"
          ∷ field "pump_speed_relay_1" 76 uint8 one "%"
          ∷ field "pump_speed_relay_2" 77 uint8 one "%"
          ∷ field "pump_speed_relay_3" 78 uint8 one "%"
          ∷ field "pump_speed_relay_4" 79 uint8 one "%"
          ∷ field "pump_speed_relay_5" 80 uint8 one "%"
          ∷ field "pump_speed_relay_6" 81 uint8 one "%"
          ∷ field "pump_speed_relay_7" 82 uint8 one "%"
          ∷ field "pump_speed_relay_8" 83 uint8 one "%"
          ∷ field "pump_speed_relay_9" 84 uint8 one "%"
          ∷ field "pump_speed_relay_10" 85 uint8 one "%"
          ∷ field "pump_speed_relay_11" 86 uint8 one "%"
          ∷ field "pump_speed_relay_12" 87 uint8 one "%"
          ∷ field "pump_speed_relay_13" 88 uint8 one "%"
          ∷ field "pump_speed_relay_14" 89 uint8 one "%"
          ∷ field "system_date" 92 uint32 one ""
          ∷ field "error_mask" 96 uint32 one ""
          ∷ [])
      ∷ []
