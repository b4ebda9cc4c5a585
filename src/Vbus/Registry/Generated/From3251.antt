-- ===== src/Vbus/Registry/Generated/From3251.antt =====
-- internal/vbus/registry_gen.go, lines 2464 to 2605: the sources 0x3251 to 0x3611.
use vbus2mqtt.Prelude.{[], ◌∷◌}
use vbus2mqtt.Vbus.Double.{Double, hundredth, one, tenth, thousandth}
use vbus2mqtt.Vbus.Registry.{int16, uint16, uint32, uint8, Registry, entry, field}

module _ {W : Type 0} ⦃d : Double W⦄ where
  unfoldable pub packets_from_3251 : Registry W
  packets_from_3251 =
      entry 0x3251 0x0010 0x0100 "0x3251" (
        field "temperature_sensor_1" 0 int16 tenth " °C"
        ∷ field "temperature_sensor_2" 2 int16 tenth " °C"
        ∷ field "temperature_sensor_3" 4 int16 tenth " °C"
        ∷ field "pump_speed_relay_1" 6 int16 one "%"
        ∷ field "error_mask" 7 int16 one ""
        ∷ field "operating_hours_relay_1" 8 int16 one " h"
        ∷ [])
      ∷ entry 0x3271 0x0010 0x0100 "0x3271" (
          field "temperature_sensor_1" 0 int16 tenth " °C"
          ∷ field "temperature_sensor_2" 2 int16 tenth " °C"
          ∷ field "temperature_sensor_3" 4 int16 tenth " °C"
          ∷ field "temperature_sensor_4" 6 int16 tenth " °C"
          ∷ field "pump_speed_pump_1" 8 int16 one "%"
          ∷ field "pump_speed_pump_2" 9 int16 one "%"
          ∷ field "relay_mask" 10 uint8 one ""
          ∷ field "error_mask" 11 uint8 one ""
          ∷ field "system_time" 12 uint16 one ""
          ∷ field "scheme" 14 uint8 one ""
          ∷ field "operating_hours_relay_1" 16 uint16 one ""
          ∷ field "operating_hours_relay_2" 18 uint16 one ""
          ∷ field "version" 26 uint16 hundredth ""
          ∷ [])
      ∷ entry 0x3311 0x0010 0x0100 "0x3311" (
          field "temperature_sensor_1" 0 int16 tenth " °C"
          ∷ field "temperature_sensor_2" 2 int16 tenth " °C"
          ∷ field "temperature_sensor_3" 4 int16 tenth " °C"
          ∷ field "temperature_sensor_4_v102" 6 int16 tenth " °C"
          ∷ field "pump_speed_relay_1_v101" 8 uint16 tenth "%"
          ∷ field "pump_speed_relay_2_v101" 10 uint16 tenth "%"
          ∷ field "pump_speed_relay_1_v102" 8 uint8 one "%"
          ∷ field "pump_speed_relay_2_v102" 9 uint8 one "%"
          ∷ field "error_mask_v102" 10 uint8 one ""
          ∷ field "relay_mask_v102" 11 uint8 one ""
          ∷ field "heat_quantity_v101" 6 uint16 one " kWh"
          ∷ field "heat_quantity_v102" 12 uint16 one " kWh"
          ∷ [])
      ∷ entry 0x3561 0x0010 0x0100 "0x3561" (
          field "countdown_blockage" 1 int16 one ""
          ∷ field "power_excess" 4 uint32 thousandth " W"
          ∷ field "power_heating" 76 uint32 thousandth " W"
          ∷ field "leistung_verbraucher_1_extern" 92 int16 one " W"
          ∷ field "leistung_verbraucher_2_extern" 94 int16 one " W"
          ∷ field "temperatur_heizung_sensor_1" 12 int16 tenth " °C"
          ∷ field "temperatur_speicher_unten_sensor_2" 14 int16 tenth " °C"
          ∷ field "temperature_store_top_sensor_3" 16 int16 tenth " °C"
          ∷ field "temperature_sensor_4" 18 int16 tenth " °C"
          ∷ field "temperature_sensor_6" 104 int16 tenth " °C"
          ∷ field "druck_sensor_6" 106 int16 hundredth " bar"
          ∷ field "speed_loading_pump" 3 uint8 one "%"
          ∷ field "pump_speed_relay_2" 42 uint8 one "%"
          ∷ field "pump_speed_relay_3" 70 uint8 one "%"
          ∷ field "pump_speed_relay_4" 71 uint8 one "%"
          ∷ field "excess_wh" 20 uint32 one " Wh"
          ∷ field "heating_wh" 28 uint32 one " Wh"
          ∷ field "operating_seconds_heating" 36 uint32 one " h"
          ∷ field "operating_seconds_backup_heating" 60 uint32 one " h"
          ∷ field "operating_hours_relay_2" 56 uint32 one " h"
          ∷ field "operating_hours_relay_3" 84 uint32 one " h"
          ∷ field "operating_hours_relay_4" 88 uint32 one " h"
          ∷ field "paramter_target_temperature" 40 int16 tenth " °C"
          ∷ field "paramter_reserve" 44 int16 one " W"
          ∷ field "0_10v_in" 43 int16 tenth " V"
          ∷ field "system_date" 52 uint32 one ""
          ∷ [])
      ∷ entry 0x3611 0x0010 0x0100 "0x3611" (
          field "temperature_sensor_1" 0 int16 tenth " °C"
          ∷ field "temperature_sensor_2" 2 int16 tenth " °C"
          ∷ field "temperature_sensor_3" 4 int16 tenth " °C"
          ∷ field "temperature_sensor_4" 6 int16 tenth " °C"
          ∷ field "temperature_sensor_5" 8 int16 tenth " °C"
          ∷ field "temperature_sensor_6" 10 int16 tenth " °C"
          ∷ field "temperature_sensor_7" 12 int16 tenth " °C"
          ∷ field "temperature_sensor_8" 14 int16 tenth " °C"
          ∷ field "temperature_sensor_9" 16 int16 tenth " °C"
          ∷ field "temperature_sensor_10" 18 int16 tenth " °C"
          ∷ field "temperature_sensor_11" 20 int16 tenth " °C"
          ∷ field "temperature_sensor_12" 22 int16 tenth " °C"
          ∷ field "temperature_sensor_13" 24 int16 tenth " °C"
          ∷ field "temperature_sensor_14" 26 int16 tenth " °C"
          ∷ field "temperature_sensor_15" 28 int16 tenth " °C"
          ∷ field "einstrahlung_sensor_20" 30 int16 one " W/m²"
          ∷ field "temperature_sensor_21" 32 int16 tenth " °C"
          ∷ field "temperature_sensor_22" 34 int16 tenth " °C"
          ∷ field "temperature_sensor_23" 36 int16 tenth " °C"
          ∷ field "temperature_sensor_24" 38 int16 tenth " °C"
          ∷ field "volumenstrom_sensor_16" 40 uint32 one " l/h"
          ∷ field "flow_rate_sensor_17" 44 uint32 one " l/h"
          ∷ field "flow_rate_sensor_18" 48 uint32 one " l/h"
          ∷ field "flow_rate_sensor_19" 52 uint32 one " l/h"
          ∷ field "flow_rate_sensor_21" 56 uint32 one " l/h"
          ∷ field "volumenstrom_sensor_22" 60 uint32 one " l/h"
          ∷ field "volumenstrom_sensor_23" 64 uint32 one " l/h"
          ∷ field "volumenstrom_sensor_24" 68 uint32 one " l/h"
          ∷ field "volumenstrom_sensor_25" 72 uint32 one " l/h"
          ∷ field "volumenstrom_sensor_26" 76 uint32 one " l/h"
          ∷ field "druck_sensor_21" 80 int16 hundredth " bar"
          ∷ field "druck_sensor_22" 82 int16 hundredth " bar"
          ∷ field "druck_sensor_23" 84 int16 hundredth " bar"
          ∷ field "druck_sensor_24" 86 int16 hundredth " bar"
          ∷ field "pump_speed_relay_1" 88 uint8 one "%"
          ∷ field "pump_speed_relay_2" 89 uint8 one "%"
          ∷ field "pump_speed_relay_3" 90 uint8 one "%"
          ∷ field "pump_speed_relay_4" 91 uint8 one "%"
          ∷ field "pump_speed_relay_5" 92 uint8 one "%"
          ∷ field "pump_speed_relay_6" 93 uint8 one "%"
          ∷ field "pump_speed_relay_7" 94 uint8 one "%"
          ∷ field "pump_speed_relay_8" 95 uint8 one "%"
          ∷ field "pump_speed_relay_9" 96 uint8 one "%"
          ∷ field "pump_speed_relay_10" 97 uint8 one "%"
          ∷ field "pump_speed_relay_11" 98 uint8 one "%"
          ∷ field "pump_speed_relay_12" 99 uint8 one "%"
          ∷ field "pump_speed_relay_13" 100 uint8 one "%"
          ∷ field "pump_speed_relay_14" 101 uint8 one "%"
          ∷ field "drehzahl_relais_15" 102 uint8 one "%"
          ∷ field "output_a" 104 uint8 one "%"
          ∷ field "output_b" 105 uint8 one "%"
          ∷ field "output_c" 106 uint8 one "%"
          ∷ field "output_d" 107 uint8 one "%"
          ∷ field "system_date" 108 uint32 one ""
          ∷ field "error_mask" 112 uint32 one ""
          ∷ [])
      ∷ []
