-- ===== src/Vbus/Registry/Generated/From1A74.antt =====
-- internal/vbus/registry_gen.go, lines 1788 to 1909: the sources 0x1A74 to 0x1F11.
use vbus2mqtt.Prelude.{[], ◌∷◌}
use vbus2mqtt.Vbus.Double.{Double, hundredth, one, tenth}
use vbus2mqtt.Vbus.Registry.{int16, uint32, uint8, Registry, entry, field}

module _ {W : Type 0} ⦃d : Double W⦄ where
  unfoldable pub packets_from_1a74 : Registry W
  packets_from_1a74 =
      entry 0x1A74 0x0010 0x0100 "0x1A74" (
        field "temperature_module_4_sensor_1" 0 int16 tenth " °C"
        ∷ field "temperature_module_4_sensor_2" 2 int16 tenth " °C"
        ∷ field "temperature_module_4_sensor_3" 4 int16 tenth " °C"
        ∷ field "temperature_module_4_sensor_4" 6 int16 tenth " °C"
        ∷ field "temperature_module_4_sensor_5" 8 int16 tenth " °C"
        ∷ field "temperature_module_4_sensor_6" 10 int16 tenth " °C"
        ∷ field "drehzahl_modul_4_relais_1" 12 uint8 one "%"
        ∷ field "drehzahl_modul_4_relais_2" 13 uint8 one "%"
        ∷ field "drehzahl_modul_4_relais_3" 14 uint8 one "%"
        ∷ field "drehzahl_modul_4_relais_4" 15 uint8 one "%"
        ∷ field "drehzahl_modul_4_relais_5" 16 uint8 one "%"
        ∷ [])
      ∷ entry 0x1A75 0x0010 0x0100 "0x1A75" (
          field "temperature_module_5_sensor_1" 0 int16 tenth " °C"
          ∷ field "temperature_module_5_sensor_2" 2 int16 tenth " °C"
          ∷ field "temperature_module_5_sensor_3" 4 int16 tenth " °C"
          ∷ field "temperature_module_5_sensor_4" 6 int16 tenth " °C"
          ∷ field "temperature_module_5_sensor_5" 8 int16 tenth " °C"
          ∷ field "temperature_module_5_sensor_6" 10 int16 tenth " °C"
          ∷ field "drehzahl_modul_5_relais_1" 12 uint8 one "%"
          ∷ field "drehzahl_modul_5_relais_2" 13 uint8 one "%"
          ∷ field "drehzahl_modul_5_relais_3" 14 uint8 one "%"
          ∷ field "drehzahl_modul_5_relais_4" 15 uint8 one "%"
          ∷ field "drehzahl_modul_5_relais_5" 16 uint8 one "%"
          ∷ [])
      ∷ entry 0x1D01 0x0010 0x0100 "0x1D01" (
          field "temperature_sensor_1" 0 int16 tenth " °C"
          ∷ field "temperature_sensor_2" 2 int16 tenth " °C"
          ∷ field "temperature_sensor_3" 4 int16 tenth " °C"
          ∷ field "temperature_sensor_4" 6 int16 tenth " °C"
          ∷ field "temperature_sensor_5" 8 int16 tenth " °C"
          ∷ field "temperature_sensor_6" 10 int16 tenth " °C"
          ∷ field "temperature_sensor_7" 12 int16 tenth " °C"
          ∷ field "temperature_sensor_8" 14 int16 tenth " °C"
          ∷ field "temperature_sensor_9" 16 int16 tenth " °C"
          ∷ field "temperature_sensor_10" 18 int16 tenth " °C"
          ∷ field "temperature_sensor_11" 20 int16 tenth " °C"
          ∷ field "temperature_sensor_12" 22 int16 tenth " °C"
          ∷ field "temperature_sensor_13" 24 int16 tenth " °C"
          ∷ field "temperature_sensor_14" 26 int16 tenth " °C"
          ∷ field "temperature_sensor_15" 28 int16 tenth " °C"
          ∷ field "temperature_sensor_17" 30 int16 tenth " °C"
          ∷ field "temperature_sensor_18" 32 int16 tenth " °C"
          ∷ field "temperature_sensor_19" 34 int16 tenth " °C"
          ∷ field "temperature_sensor_20" 36 int16 tenth " °C"
          ∷ field "flow_sensor_17" 38 int16 one " l/h"
          ∷ field "flow_sensor_18" 40 int16 one " l/h"
          ∷ field "flow_sensor_19" 42 int16 one " l/h"
          ∷ field "flow_sensor_20" 44 int16 one " l/h"
          ∷ field "relay_1" 46 uint8 one "%"
          ∷ field "relay_2" 47 uint8 one "%"
          ∷ field "relay_3" 48 uint8 one "%"
          ∷ field "relay_4" 49 uint8 one "%"
          ∷ field "relay_5" 50 uint8 one "%"
          ∷ field "relay_6" 51 uint8 one "%"
          ∷ field "relay_7" 52 uint8 one "%"
          ∷ field "relay_8" 53 uint8 one "%"
          ∷ field "relay_9" 54 uint8 one "%"
          ∷ field "relay_10" 55 uint8 one "%"
          ∷ field "relay_11" 56 uint8 one "%"
          ∷ field "relay_12" 57 uint8 one "%"
          ∷ field "relay_13" 58 uint8 one "%"
          ∷ field "relay_14" 59 uint8 one "%"
          ∷ field "output_1" 60 uint8 one "%"
          ∷ field "output_2" 61 uint8 one "%"
          ∷ field "output_3" 62 uint8 one "%"
          ∷ field "output_4" 63 uint8 one "%"
          ∷ field "system_time" 64 uint32 one ""
          ∷ [])
      ∷ entry 0x1F11 0x0010 0x0100 "0x1F11" (
          field "temperature_sensor_1" 0 int16 tenth " °C"
          ∷ field "temperature_sensor_2" 2 int16 tenth " °C"
          ∷ field "temperature_sensor_3" 4 int16 tenth " °C"
          ∷ field "temperature_sensor_4" 6 int16 tenth " °C"
          ∷ field "temperature_sensor_5" 8 int16 tenth " °C"
          ∷ field "temperature_sensor_6" 10 int16 tenth " °C"
          ∷ field "temperature_sensor_7" 12 int16 tenth " °C"
          ∷ field "temperature_sensor_8" 14 int16 tenth " °C"
          ∷ field "temperature_sensor_9" 16 int16 tenth " °C"
          ∷ field "temperature_sensor_10" 18 int16 tenth " °C"
          ∷ field "temperature_sensor_21" 20 int16 tenth " °C"
          ∷ field "temperature_sensor_22" 22 int16 tenth " °C"
          ∷ field "volumenstrom_sensor_16" 24 uint32 one " l/h"
          ∷ field "flow_rate_sensor_21" 28 uint32 one " l/h"
          ∷ field "volumenstrom_sensor_22" 32 uint32 one " l/h"
          ∷ field "druck_sensor_21" 36 int16 hundredth " bar"
          ∷ field "druck_sensor_22" 38 int16 hundredth " bar"
          ∷ field "luftfeuchtigkeit_sensor_21" 40 int16 one "%"
          ∷ field "luftfeuchtigkeit_sensor_22" 41 int16 one "%"
          ∷ field "sensor_za" 42 int16 tenth " °C"
          ∷ field "pump_speed_relay_1" 44 uint8 one "%"
          ∷ field "pump_speed_relay_2" 45 uint8 one "%"
          ∷ field "pump_speed_relay_3" 46 uint8 one "%"
          ∷ field "pump_speed_relay_4" 47 uint8 one "%"
          ∷ field "pump_speed_relay_5" 48 uint8 one "%"
          ∷ field "pump_speed_relay_6" 49 uint8 one "%"
          ∷ field "pump_speed_relay_7" 50 uint8 one "%"
          ∷ field "output_a" 52 uint8 one "%"
          ∷ field "output_b" 53 uint8 one "%"
          ∷ field "output_c" 54 uint8 one "%"
          ∷ field "output_d" 55 uint8 one "%"
          ∷ field "system_date" 56 uint32 one ""
          ∷ field "error_mask" 60 uint32 one ""
          ∷ field "warning_mask" 64 uint32 one ""
          ∷ [])
      ∷ []
