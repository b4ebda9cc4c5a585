-- ===== src/Vbus/Registry/Generated/From1A60.antt =====
-- internal/vbus/registry_gen.go, lines 1645 to 1787: the sources 0x1A60 to 0x1A73.
use vbus2mqtt.Prelude.{[], ◌∷◌}
use vbus2mqtt.Vbus.Double.{Double, hundredth, one, tenth, thousandth}
use vbus2mqtt.Vbus.Registry.{int16, uint16, uint32, uint8, Registry, entry, field}

module _ {W : Type 0} ⦃d : Double W⦄ where
  unfoldable pub packets_from_1a60 : Registry W
  packets_from_1a60 =
      entry 0x1A60 0x0010 0x0100 "0x1A60" (
        field "leistung_verbraucher" 72 uint32 thousandth " W"
        ∷ field "power_excess" 68 uint32 thousandth " W"
        ∷ field "paramter_reserve" 64 uint32 one " W"
        ∷ field "excess" 80 uint32 one " Wh"
        ∷ field "temperature_sensor_1" 16 int16 tenth " °C"
        ∷ field "temperature_sensor_2" 18 int16 tenth " °C"
        ∷ field "temperature_sensor_3" 20 int16 tenth " °C"
        ∷ field "temperature_sensor_4" 22 int16 tenth " °C"
        ∷ field "temperature_sensor_5" 24 int16 tenth " °C"
        ∷ field "temperature_sensor_6" 120 int16 tenth " °C"
        ∷ field "temperature_sensor_7" 122 int16 tenth " °C"
        ∷ field "drehzahl_lüfter" 128 uint16 one ""
        ∷ field "temperature_sensor_ga1" 112 int16 tenth " °C"
        ∷ field "flow_rate_sensor_ga1" 114 int16 one " l/h"
        ∷ field "pressure_sensor_ga1" 116 int16 hundredth " bar"
        ∷ field "luftfeuchtigkeit_sensor_ga1" 118 int16 one "%"
        ∷ field "temperature_sensor_gd1" 136 int16 tenth " °C"
        ∷ field "flow_rate_sensor_gd1" 138 int16 one " l/h"
        ∷ field "pressure_sensor_gd1" 140 int16 hundredth " bar"
        ∷ field "luftfeuchtigkeit_sensor_gd1" 142 int16 one "%"
        ∷ field "output_a" 36 uint16 one "%"
        ∷ field "output_b" 130 uint16 one "%"
        ∷ field "relay_1" 26 uint16 one "%"
        ∷ field "relay_2" 28 uint16 one "%"
        ∷ field "relay_3" 30 uint16 one "%"
        ∷ field "relay_4" 32 uint16 one "%"
        ∷ field "relay_5" 34 uint16 one "%"
        ∷ field "operating_hours_output_a" 60 uint32 one " h"
        ∷ field "betriebsstunden_ausgang_b" 132 uint32 one " h"
        ∷ field "operating_hours_relay_1" 40 uint32 one " h"
        ∷ field "operating_hours_relay_2" 44 uint32 one " h"
        ∷ field "operating_hours_relay_3" 48 uint32 one " h"
        ∷ field "operating_hours_relay_4" 52 uint32 one " h"
        ∷ field "operating_hours_relay_5" 56 uint32 one " h"
        ∷ field "system_date" 4 uint32 one ""
        ∷ [])
      ∷ entry 0x1A61 0x0010 0x0100 "0x1A61" (
          field "immersion_heater_1_parameter_priority" 24 int16 one ""
          ∷ field "immersion_heater_1_temperature_store" 8 int16 tenth " °C"
          ∷ field "immersion_heater_1_parameter_tmax" 22 int16 tenth " °C"
          ∷ field "immersion_heater_1_operating_hours_heating" 14 uint32 one " h"
          ∷ field "immersion_heater_1_operating_hours_backup_heating" 18 uint32 one " h"
          ∷ [])
      ∷ entry 0x1A62 0x0010 0x0100 "0x1A62" (
          field "immersion_heater_2_parameter_priority" 24 int16 one ""
          ∷ field "immersion_heater_2_temperature_store" 8 int16 tenth " °C"
          ∷ field "immersion_heater_2_parameter_tmax" 22 int16 tenth " °C"
          ∷ field "immersion_heater_2_operating_hours_heating" 14 uint32 one " h"
          ∷ field "immersion_heater_2_operating_hours_backup_heating" 18 uint32 one " h"
          ∷ [])
      ∷ entry 0x1A63 0x0010 0x0100 "0x1A63" (
          field "immersion_heater_3_parameter_priority" 24 int16 one ""
          ∷ field "immersion_heater_3_temperature_store" 8 int16 tenth " °C"
          ∷ field "immersion_heater_3_parameter_tmax" 22 int16 tenth " °C"
          ∷ field "immersion_heater_3_operating_hours_heating" 14 uint32 one " h"
          ∷ field "immersion_heater_3_operating_hours_backup_heating" 18 uint32 one " h"
          ∷ [])
      ∷ entry 0x1A64 0x0010 0x0100 "0x1A64" (
          field "heat_pump_parameter_priority" 20 int16 one ""
          ∷ field "heat_pump_operating_hours_operation" 12 uint32 one " h"
          ∷ field "heat_pump_operating_hours_mains_operation" 16 uint32 one " h"
          ∷ [])
      ∷ entry 0x1A65 0x0010 0x0100 "0x1A65" (
          field "wallbox_parameter_priority" 20 int16 one ""
          ∷ field "wallbox_operating_hours_operation" 12 uint32 one " h"
          ∷ field "wallbox_operating_hours_mains_operation" 16 uint32 one " h"
          ∷ [])
      ∷ entry 0x1A71 0x0010 0x0100 "0x1A71" (
          field "temperature_module_1_sensor_1" 0 int16 tenth " °C"
          ∷ field "temperature_module_1_sensor_2" 2 int16 tenth " °C"
          ∷ field "temperature_module_1_sensor_3" 4 int16 tenth " °C"
          ∷ field "temperature_module_1_sensor_4" 6 int16 tenth " °C"
          ∷ field "temperature_module_1_sensor_5" 8 int16 tenth " °C"
          ∷ field "temperature_module_1_sensor_6" 10 int16 tenth " °C"
          ∷ field "drehzahl_modul_1_relais_1" 12 uint8 one "%"
          ∷ field "drehzahl_modul_1_relais_2" 13 uint8 one "%"
          ∷ field "drehzahl_modul_1_relais_3" 14 uint8 one "%"
          ∷ field "drehzahl_modul_1_relais_4" 15 uint8 one "%"
          ∷ field "drehzahl_modul_1_relais_5" 16 uint8 one "%"
          ∷ [])
      ∷ entry 0x1A72 0x0010 0x0100 "0x1A72" (
          field "temperature_module_2_sensor_1" 0 int16 tenth " °C"
          ∷ field "temperature_module_2_sensor_2" 2 int16 tenth " °C"
          ∷ field "temperature_module_2_sensor_3" 4 int16 tenth " °C"
          ∷ field "temperature_module_2_sensor_4" 6 int16 tenth " °C"
          ∷ field "temperature_module_2_sensor_5" 8 int16 tenth " °C"
          ∷ field "temperature_module_2_sensor_6" 10 int16 tenth " °C"
          ∷ field "drehzahl_modul_2_relais_1" 12 uint8 one "%"
          ∷ field "drehzahl_modul_2_relais_2" 13 uint8 one "%"
          ∷ field "drehzahl_modul_2_relais_3" 14 uint8 one "%"
          ∷ field "drehzahl_modul_2_relais_4" 15 uint8 one "%"
          ∷ field "drehzahl_modul_2_relais_5" 16 uint8 one "%"
          ∷ [])
      ∷ entry 0x1A73 0x0010 0x0100 "0x1A73" (
          field "temperature_module_3_sensor_1" 0 int16 tenth " °C"
          ∷ field "temperature_module_3_sensor_2" 2 int16 tenth " °C"
          ∷ field "temperature_module_3_sensor_3" 4 int16 tenth " °C"
          ∷ field "temperature_module_3_sensor_4" 6 int16 tenth " °C"
          ∷ field "temperature_module_3_sensor_5" 8 int16 tenth " °C"
          ∷ field "temperature_module_3_sensor_6" 10 int16 tenth " °C"
          ∷ field "drehzahl_modul_3_relais_1" 12 uint8 one "%"
          ∷ field "drehzahl_modul_3_relais_2" 13 uint8 one "%"
          ∷ field "drehzahl_modul_3_relais_3" 14 uint8 one "%"
          ∷ field "drehzahl_modul_3_relais_4" 15 uint8 one "%"
          ∷ field "drehzahl_modul_3_relais_5" 16 uint8 one "%"
          ∷ [])
      ∷ []
