-- ===== src/Vbus/Registry/Generated/From1632.antt =====
-- internal/vbus/registry_gen.go, lines 1235 to 1382: the sources 0x1632 to 0x1911.
use vbus2mqtt.Prelude.{[], ◌∷◌}
use vbus2mqtt.Vbus.Double.{Double, hundredth, one, tenth}
use vbus2mqtt.Vbus.Registry.{int16, uint32, uint8, Registry, entry, field}

module _ {W : Type 0} ⦃d : Double W⦄ where
  unfoldable pub packets_from_1632 : Registry W
  packets_from_1632 =
      entry 0x1632 0x0010 0x0100 "0x1632" (
        field "temperature_sensor_1" 0 int16 tenth " °C"
        ∷ field "temperature_sensor_2" 2 int16 tenth " °C"
        ∷ field "temperature_sensor_3" 4 int16 tenth " °C"
        ∷ field "temperature_sensor_4" 6 int16 tenth " °C"
        ∷ field "temperature_sensor_5" 8 int16 tenth " °C"
        ∷ field "temperature_sensor_6" 10 int16 tenth " °C"
        ∷ field "temperature_sensor_7" 12 int16 tenth " °C"
        ∷ field "temperature_sensor_8" 14 int16 tenth " °C"
        ∷ field "frequency_sensor" 32 int16 one " l/h"
        ∷ field "dipswitch" 34 uint8 one ""
        ∷ field "coding" 48 uint8 one ""
        ∷ field "relay_1" 35 uint8 one "%"
        ∷ field "relay_2" 36 uint8 one "%"
        ∷ field "relay_3" 37 uint8 one "%"
        ∷ field "relay_4" 38 uint8 one "%"
        ∷ field "relay_5" 39 uint8 one "%"
        ∷ field "output_1" 40 int16 one "%"
        ∷ field "output_2" 42 int16 one "%"
        ∷ field "output_3" 44 int16 one "%"
        ∷ field "output_4" 46 int16 one "%"
        ∷ field "lin_out" 50 int16 tenth "%"
        ∷ field "desinfektion_letztes_ergebnis" 49 uint8 one ""
        ∷ field "system_date" 64 uint32 one ""
        ∷ [])
      ∷ entry 0x1711 0x0010 0x0100 "0x1711" (
          field "temperature_sensor_1" 0 int16 tenth " °C"
          ∷ field "temperature_sensor_2" 2 int16 tenth " °C"
          ∷ field "temperature_sensor_3" 4 int16 tenth " °C"
          ∷ field "temperature_sensor_4" 6 int16 tenth " °C"
          ∷ field "temperature_sensor_5" 8 int16 tenth " °C"
          ∷ field "temperature_sensor_6" 10 int16 tenth " °C"
          ∷ field "temperature_sensor_7" 12 int16 tenth " °C"
          ∷ field "temperature_sensor_8" 14 int16 tenth " °C"
          ∷ field "temperature_sensor_9" 16 int16 tenth " °C"
          ∷ field "temperature_sensor_10" 18 int16 tenth " °C"
          ∷ field "temperature_sensor_11" 20 int16 tenth " °C"
          ∷ field "temperature_sensor_12" 22 int16 tenth " °C"
          ∷ field "temperature_sensor_13" 24 int16 tenth " °C"
          ∷ field "temperature_sensor_14" 26 int16 tenth " °C"
          ∷ field "temperature_sensor_15" 28 int16 tenth " °C"
          ∷ field "irradiation_sensor_16" 30 int16 one " W/m²"
          ∷ field "temperature_sensor_17" 32 int16 tenth " °C"
          ∷ field "temperature_sensor_18" 34 int16 tenth " °C"
          ∷ field "temperature_sensor_19" 36 int16 tenth " °C"
          ∷ field "temperature_sensor_20" 38 int16 tenth " °C"
          ∷ field "flow_rate_sensor_13" 40 uint32 one " l/h"
          ∷ field "flow_rate_sensor_14" 44 uint32 one " l/h"
          ∷ field "flow_rate_sensor_15" 48 uint32 one " l/h"
          ∷ field "flow_rate_sensor_17" 52 uint32 one " l/h"
          ∷ field "flow_rate_sensor_18" 56 uint32 one " l/h"
          ∷ field "flow_rate_sensor_19" 60 uint32 one " l/h"
          ∷ field "flow_rate_sensor_20" 64 uint32 one " l/h"
          ∷ field "flow_rate_sensor_21" 104 uint32 one " l/h"
          ∷ field "pressure_sensor_17" 68 int16 hundredth " bar"
          ∷ field "pressure_sensor_18" 70 int16 hundredth " bar"
          ∷ field "pressure_sensor_19" 72 int16 hundredth " bar"
          ∷ field "pressure_sensor_20" 74 int16 hundredth " bar"
          ∷ field "pump_speed_relay_1" 76 uint8 one "%"
          ∷ field "pump_speed_relay_2" 77 uint8 one "%"
          ∷ field "pump_speed_relay_3" 78 uint8 one "%"
          ∷ field "pump_speed_relay_4" 79 uint8 one "%"
          ∷ field "pump_speed_relay_5" 80 uint8 one "%"
          ∷ field "pump_speed_relay_6" 81 uint8 one "%"
          ∷ field "pump_speed_relay_7" 82 uint8 one "%"
          ∷ field "pump_speed_relay_8" 83 uint8 one "%"
          ∷ field "pump_speed_relay_9" 84 uint8 one "%"
          ∷ field "pump_speed_relay_10" 85 uint8 one "%"
          ∷ field "pump_speed_relay_11" 86 uint8 one "%"
          ∷ field "pump_speed_relay_12" 87 uint8 one "%"
          ∷ field "pump_speed_relay_13" 88 uint8 one "%"
          ∷ field "pump_speed_relay_14" 89 uint8 one "%"
          ∷ field "output_a" 100 uint8 one "%"
          ∷ field "output_b" 101 uint8 one "%"
          ∷ field "output_c" 102 uint8 one "%"
          ∷ field "output_d" 103 uint8 one "%"
          ∷ field "system_date" 92 uint32 one ""
          ∷ field "error_mask" 96 uint32 one ""
          ∷ [])
      ∷ entry 0x1911 0x0010 0x0100 "0x1911" (
          field "temperature_sensor_1" 0 int16 tenth " °C"
          ∷ field "temperature_sensor_2" 2 int16 tenth " °C"
          ∷ field "temperature_sensor_3" 4 int16 tenth " °C"
          ∷ field "temperature_sensor_4" 6 int16 tenth " °C"
          ∷ field "temperature_sensor_5" 8 int16 tenth " °C"
          ∷ field "temperature_sensor_6" 10 int16 tenth " °C"
          ∷ field "temperature_sensor_7" 12 int16 tenth " °C"
          ∷ field "temperature_sensor_8" 14 int16 tenth " °C"
          ∷ field "temperature_sensor_9" 16 int16 tenth " °C"
          ∷ field "temperature_sensor_10" 18 int16 tenth " °C"
          ∷ field "temperature_sensor_11" 20 int16 tenth " °C"
          ∷ field "temperature_sensor_12" 22 int16 tenth " °C"
          ∷ field "temperature_sensor_13" 24 int16 tenth " °C"
          ∷ field "temperature_sensor_14" 26 int16 tenth " °C"
          ∷ field "temperature_sensor_15" 28 int16 tenth " °C"
          ∷ field "einstrahlung_sensor_20" 30 int16 one " W/m²"
          ∷ field "temperature_sensor_21" 32 int16 tenth " °C"
          ∷ field "temperature_sensor_22" 34 int16 tenth " °C"
          ∷ field "temperature_sensor_23" 36 int16 tenth " °C"
          ∷ field "temperature_sensor_24" 38 int16 tenth " °C"
          ∷ field "volumenstrom_sensor_16" 40 uint32 one " l/h"
          ∷ field "flow_rate_sensor_17" 44 uint32 one " l/h"
          ∷ field "flow_rate_sensor_18" 48 uint32 one " l/h"
          ∷ field "flow_rate_sensor_19" 52 uint32 one " l/h"
          ∷ field "flow_rate_sensor_21" 56 uint32 one " l/h"
          ∷ field "volumenstrom_sensor_22" 60 uint32 one " l/h"
          ∷ field "volumenstrom_sensor_23" 64 uint32 one " l/h"
          ∷ field "volumenstrom_sensor_24" 68 uint32 one " l/h"
          ∷ field "volumenstrom_sensor_25" 72 uint32 one " l/h"
          ∷ field "volumenstrom_sensor_26" 76 uint32 one " l/h"
          ∷ field "druck_sensor_21" 80 int16 hundredth " bar"
          ∷ field "druck_sensor_22" 82 int16 hundredth " bar"
          ∷ field "druck_sensor_23" 84 int16 hundredth " bar"
          ∷ field "druck_sensor_24" 86 int16 hundredth " bar"
          ∷ field "pump_speed_relay_1" 88 uint8 one "%"
          ∷ field "pump_speed_relay_2" 89 uint8 one "%"
          ∷ field "pump_speed_relay_3" 90 uint8 one "%"
          ∷ field "pump_speed_relay_4" 91 uint8 one "%"
          ∷ field "pump_speed_relay_5" 92 uint8 one "%"
          ∷ field "pump_speed_relay_6" 93 uint8 one "%"
          ∷ field "pump_speed_relay_7" 94 uint8 one "%"
          ∷ field "pump_speed_relay_8" 95 uint8 one "%"
          ∷ field "pump_speed_relay_9" 96 uint8 one "%"
          ∷ field "pump_speed_relay_10" 97 uint8 one "%"
          ∷ field "pump_speed_relay_11" 98 uint8 one "%"
          ∷ field "pump_speed_relay_12" 99 uint8 one "%"
          ∷ field "pump_speed_relay_13" 100 uint8 one "%"
          ∷ field "pump_speed_relay_14" 101 uint8 one "%"
          ∷ field "drehzahl_relais_15" 102 uint8 one "%"
          ∷ field "output_a" 104 uint8 one "%"
          ∷ field "output_b" 105 uint8 one "%"
          ∷ field "output_c" 106 uint8 one "%"
          ∷ field "output_d" 107 uint8 one "%"
          ∷ field "system_date" 108 uint32 one ""
          ∷ field "error_mask" 112 uint32 one ""
          ∷ [])
      ∷ []
