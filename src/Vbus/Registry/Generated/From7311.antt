-- ===== src/Vbus/Registry/Generated/From7311.antt =====
-- internal/vbus/registry_gen.go, lines 3734 to 3879: the sources 0x7311 to 0x7331.
use vbus2mqtt.Prelude.{[], ◌∷◌}
use vbus2mqtt.Vbus.Double.{Double, one, tenth}
use vbus2mqtt.Vbus.Registry.{int16, uint16, uint32, uint8, Registry, entry, field}

module _ {W : Type 0} ⦃d : Double W⦄ where
  unfoldable pub packets_from_7311 : Registry W
  packets_from_7311 =
      entry 0x7311 0x0010 0x0100 "0x7311" (
        field "temperature_sensor_1" 0 int16 tenth " °C"
        ∷ field "temperature_sensor_2" 2 int16 tenth " °C"
        ∷ field "temperature_sensor_3" 4 int16 tenth " °C"
        ∷ field "temperature_sensor_4" 6 int16 tenth " °C"
        ∷ field "temperature_sensor_5" 8 int16 tenth " °C"
        ∷ field "temperature_sensor_6" 10 int16 tenth " °C"
        ∷ field "temperature_sensor_7" 12 int16 tenth " °C"
        ∷ field "temperature_sensor_8" 14 int16 tenth " °C"
        ∷ field "temperature_sensor_9" 16 int16 tenth " °C"
        ∷ field "temperature_sensor_10" 18 int16 tenth " °C"
        ∷ field "temperature_sensor_11" 20 int16 tenth " °C"
        ∷ field "temperature_sensor_12" 22 int16 tenth " °C"
        ∷ field "irradiation" 24 int16 one " W/m²"
        ∷ field "impulse_input_1" 28 uint32 one ""
        ∷ field "impulse_input_2" 32 uint32 one ""
        ∷ field "sensor_line_break_mask" 36 uint16 one ""
        ∷ field "sensor_short_circuit_mask" 38 uint16 one ""
        ∷ field "sensor_usage_mask" 40 uint16 one ""
        ∷ field "pump_speed_relay_1" 44 uint8 one "%"
        ∷ field "pump_speed_relay_2" 45 uint8 one "%"
        ∷ field "pump_speed_relay_3" 46 uint8 one "%"
        ∷ field "pump_speed_relay_4" 47 uint8 one "%"
        ∷ field "pump_speed_relay_5" 48 uint8 one "%"
        ∷ field "pump_speed_relay_6" 49 uint8 one "%"
        ∷ field "pump_speed_relay_7" 50 uint8 one "%"
        ∷ field "pump_speed_relay_8" 51 uint8 one "%"
        ∷ field "pump_speed_relay_9" 52 uint8 one "%"
        ∷ field "relay_usage_mask" 58 uint16 one ""
        ∷ field "error_mask" 60 uint16 one ""
        ∷ field "warning_mask" 62 uint16 one ""
        ∷ field "controller_version" 64 uint16 one ""
        ∷ field "system_time" 66 uint16 one ""
        ∷ [])
      ∷ entry 0x7315 0x0010 0x0100 "0x7315" (
          field "operating_seconds_r1" 0 uint32 one " s"
          ∷ field "operating_seconds_r2" 4 uint32 one " s"
          ∷ field "operating_seconds_r3" 8 uint32 one " s"
          ∷ field "operating_seconds_r4" 12 uint32 one " s"
          ∷ field "operating_seconds_r5" 16 uint32 one " s"
          ∷ field "operating_seconds_r6" 20 uint32 one " s"
          ∷ field "operating_seconds_r7" 24 uint32 one " s"
          ∷ field "operating_seconds_r8" 28 uint32 one " s"
          ∷ field "operating_seconds_r9" 32 uint32 one " s"
          ∷ field "volume_1" 36 uint32 tenth " l"
          ∷ field "volume_2" 40 uint32 tenth " l"
          ∷ [])
      ∷ entry 0x7321 0x0010 0x0100 "0x7321" (
          field "temperature_sensor_1" 0 int16 tenth " °C"
          ∷ field "temperature_sensor_2" 2 int16 tenth " °C"
          ∷ field "temperature_sensor_3" 4 int16 tenth " °C"
          ∷ field "temperature_sensor_4" 6 int16 tenth " °C"
          ∷ field "temperature_sensor_5" 8 int16 tenth " °C"
          ∷ field "temperature_sensor_6" 10 int16 tenth " °C"
          ∷ field "temperature_sensor_7" 12 int16 tenth " °C"
          ∷ field "temperature_sensor_8" 14 int16 tenth " °C"
          ∷ field "temperature_sensor_9" 16 int16 tenth " °C"
          ∷ field "temperature_sensor_10" 18 int16 tenth " °C"
          ∷ field "temperature_sensor_11" 20 int16 tenth " °C"
          ∷ field "temperature_sensor_12" 22 int16 tenth " °C"
          ∷ field "irradiation" 24 int16 one " W/m²"
          ∷ field "impulse_input_1" 28 uint32 one ""
          ∷ field "impulse_input_2" 32 uint32 one ""
          ∷ field "sensor_line_break_mask" 36 uint16 one ""
          ∷ field "sensor_short_circuit_mask" 38 uint16 one ""
          ∷ field "sensor_usage_mask" 40 uint16 one ""
          ∷ field "pump_speed_relay_1" 44 uint8 one "%"
          ∷ field "pump_speed_relay_2" 45 uint8 one "%"
          ∷ field "pump_speed_relay_3" 46 uint8 one "%"
          ∷ field "pump_speed_relay_4" 47 uint8 one "%"
          ∷ field "pump_speed_relay_5" 48 uint8 one "%"
          ∷ field "pump_speed_relay_6" 49 uint8 one "%"
          ∷ field "pump_speed_relay_7" 50 uint8 one "%"
          ∷ field "pump_speed_relay_8" 51 uint8 one "%"
          ∷ field "pump_speed_relay_9" 52 uint8 one "%"
          ∷ field "relay_usage_mask" 58 uint16 one ""
          ∷ field "error_mask" 60 uint16 one ""
          ∷ field "warning_mask" 62 uint16 one ""
          ∷ field "controller_version" 64 uint16 one ""
          ∷ field "system_time" 66 uint16 one ""
          ∷ [])
      ∷ entry 0x7331 0x0010 0x0100 "0x7331" (
          field "temperature_sensor_1" 0 int16 tenth " °C"
          ∷ field "temperature_sensor_2" 2 int16 tenth " °C"
          ∷ field "temperature_sensor_3" 4 int16 tenth " °C"
          ∷ field "temperature_sensor_4" 6 int16 tenth " °C"
          ∷ field "temperature_sensor_5" 8 int16 tenth " °C"
          ∷ field "temperature_sensor_6" 10 int16 tenth " °C"
          ∷ field "temperature_sensor_7" 12 int16 tenth " °C"
          ∷ field "temperature_sensor_8" 14 int16 tenth " °C"
          ∷ field "temperature_sensor_9" 16 int16 tenth " °C"
          ∷ field "temperature_sensor_10" 18 int16 tenth " °C"
          ∷ field "temperature_sensor_11" 20 int16 tenth " °C"
          ∷ field "temperature_sensor_12" 22 int16 tenth " °C"
          ∷ field "temperature_sensor_13" 24 int16 tenth " °C"
          ∷ field "temperature_sensor_14" 26 int16 tenth " °C"
          ∷ field "temperature_sensor_15" 28 int16 tenth " °C"
          ∷ field "temperature_sensor_16" 30 int16 tenth " °C"
          ∷ field "temperature_sensor_17" 32 int16 tenth " °C"
          ∷ field "temperature_sensor_18" 34 int16 tenth " °C"
          ∷ field "temperature_sensor_19" 36 int16 tenth " °C"
          ∷ field "temperature_sensor_20" 38 int16 tenth " °C"
          ∷ field "temperature_sensor_21" 40 int16 tenth " °C"
          ∷ field "temperature_sensor_22" 42 int16 tenth " °C"
          ∷ field "pump_speed_r1" 44 uint8 one "%"
          ∷ field "pump_speed_r2" 45 uint8 one "%"
          ∷ field "pump_speed_r3" 46 uint8 one "%"
          ∷ field "pump_speed_r4" 47 uint8 one "%"
          ∷ field "pump_speed_r5" 48 uint8 one "%"
          ∷ field "pump_speed_r6" 49 uint8 one "%"
          ∷ field "pump_speed_r7" 50 uint8 one "%"
          ∷ field "pump_speed_r8" 51 uint8 one "%"
          ∷ field "pump_speed_r9" 52 uint8 one "%"
          ∷ field "pump_speed_r10" 53 uint8 one "%"
          ∷ field "pump_speed_r11" 54 uint8 one "%"
          ∷ field "pump_speed_r12" 55 uint8 one "%"
          ∷ field "pump_speed_r13" 56 uint8 one "%"
          ∷ field "pump_speed_r14" 57 uint8 one "%"
          ∷ field "pump_speed_r15" 58 uint8 one "%"
          ∷ field "pump_speed_r16" 59 uint8 one "%"
          ∷ field "pump_speed_r17" 60 uint8 one "%"
          ∷ field "pump_speed_r18" 61 uint8 one "%"
          ∷ field "sensor_usage_mask_1" 64 uint32 one ""
          ∷ field "sensor_usage_mask_2" 68 uint32 one ""
          ∷ field "error_mask" 72 uint16 one ""
          ∷ field "warning_mask" 74 uint16 one ""
          ∷ field "version" 76 uint16 one ""
          ∷ field "system_time" 78 int16 one ""
          ∷ field "variant" 80 uint8 one ""
          ∷ [])
      ∷ []
