-- ===== src/Vbus/Registry/Generated/From1A33.antt =====
-- internal/vbus/registry_gen.go, lines 1531 to 1644: the sources 0x1A33 to 0x1A45.
use vbus2mqtt.Prelude.{[], ◌∷◌}
use vbus2mqtt.Vbus.Double.{Double, one, tenth}
use vbus2mqtt.Vbus.Registry.{int16, uint32, uint8, Registry, entry, field}

module _ {W : Type 0} ⦃d : Double W⦄ where
  unfoldable pub packets_from_1a33 : Registry W
  packets_from_1a33 =
      entry 0x1A33 0x0010 0x0100 "0x1A33" (
        field "immersion_heater_3_parameter_priority" 24 int16 one ""
        ∷ field "immersion_heater_3_temperature_store" 8 int16 tenth " °C"
        ∷ field "immersion_heater_3_parameter_tmax" 22 int16 tenth " °C"
        ∷ field "immersion_heater_3_operating_hours_heating" 14 uint32 one " h"
        ∷ field "immersion_heater_3_operating_hours_backup_heating" 18 uint32 one " h"
        ∷ [])
      ∷ entry 0x1A34 0x0010 0x0100 "0x1A34" (
          field "heat_pump_parameter_priority" 20 int16 one ""
          ∷ field "heat_pump_operating_hours_operation" 12 uint32 one " h"
          ∷ field "heat_pump_operating_hours_mains_operation" 16 uint32 one " h"
          ∷ [])
      ∷ entry 0x1A35 0x0010 0x0100 "0x1A35" (
          field "wallbox_parameter_priority" 20 int16 one ""
          ∷ field "wallbox_operating_hours_operation" 12 uint32 one " h"
          ∷ field "wallbox_operating_hours_mains_operation" 16 uint32 one " h"
          ∷ [])
      ∷ entry 0x1A41 0x0010 0x0100 "0x1A41" (
          field "temperature_module_1_sensor_1" 0 int16 tenth " °C"
          ∷ field "temperature_module_1_sensor_2" 2 int16 tenth " °C"
          ∷ field "temperature_module_1_sensor_3" 4 int16 tenth " °C"
          ∷ field "temperature_module_1_sensor_4" 6 int16 tenth " °C"
          ∷ field "temperature_module_1_sensor_5" 8 int16 tenth " °C"
          ∷ field "temperature_module_1_sensor_6" 10 int16 tenth " °C"
          ∷ field "drehzahl_modul_1_relais_1" 12 uint8 one "%"
          ∷ field "drehzahl_modul_1_relais_2" 13 uint8 one "%"
          ∷ field "drehzahl_modul_1_relais_3" 14 uint8 one "%"
          ∷ field "drehzahl_modul_1_relais_4" 15 uint8 one "%"
          ∷ field "drehzahl_modul_1_relais_5" 16 uint8 one "%"
          ∷ [])
      ∷ entry 0x1A42 0x0010 0x0100 "0x1A42" (
          field "temperature_module_2_sensor_1" 0 int16 tenth " °C"
          ∷ field "temperature_module_2_sensor_2" 2 int16 tenth " °C"
          ∷ field "temperature_module_2_sensor_3" 4 int16 tenth " °C"
          ∷ field "temperature_module_2_sensor_4" 6 int16 tenth " °C"
          ∷ field "temperature_module_2_sensor_5" 8 int16 tenth " °C"
          ∷ field "temperature_module_2_sensor_6" 10 int16 tenth " °C"
          ∷ field "drehzahl_modul_2_relais_1" 12 uint8 one "%"
          ∷ field "drehzahl_modul_2_relais_2" 13 uint8 one "%"
          ∷ field "drehzahl_modul_2_relais_3" 14 uint8 one "%"
          ∷ field "drehzahl_modul_2_relais_4" 15 uint8 one "%"
          ∷ field "drehzahl_modul_2_relais_5" 16 uint8 one "%"
          ∷ [])
      ∷ entry 0x1A43 0x0010 0x0100 "0x1A43" (
          field "temperature_module_3_sensor_1" 0 int16 tenth " °C"
          ∷ field "temperature_module_3_sensor_2" 2 int16 tenth " °C"
          ∷ field "temperature_module_3_sensor_3" 4 int16 tenth " °C"
          ∷ field "temperature_module_3_sensor_4" 6 int16 tenth " °C"
          ∷ field "temperature_module_3_sensor_5" 8 int16 tenth " °C"
          ∷ field "temperature_module_3_sensor_6" 10 int16 tenth " °C"
          ∷ field "drehzahl_modul_3_relais_1" 12 uint8 one "%"
          ∷ field "drehzahl_modul_3_relais_2" 13 uint8 one "%"
          ∷ field "drehzahl_modul_3_relais_3" 14 uint8 one "%"
          ∷ field "drehzahl_modul_3_relais_4" 15 uint8 one "%"
          ∷ field "drehzahl_modul_3_relais_5" 16 uint8 one "%"
          ∷ [])
      ∷ entry 0x1A44 0x0010 0x0100 "0x1A44" (
          field "temperature_module_4_sensor_1" 0 int16 tenth " °C"
          ∷ field "temperature_module_4_sensor_2" 2 int16 tenth " °C"
          ∷ field "temperature_module_4_sensor_3" 4 int16 tenth " °C"
          ∷ field "temperature_module_4_sensor_4" 6 int16 tenth " °C"
          ∷ field "temperature_module_4_sensor_5" 8 int16 tenth " °C"
          ∷ field "temperature_module_4_sensor_6" 10 int16 tenth " °C"
          ∷ field "drehzahl_modul_4_relais_1" 12 uint8 one "%"
          ∷ field "drehzahl_modul_4_relais_2" 13 uint8 one "%"
          ∷ field "drehzahl_modul_4_relais_3" 14 uint8 one "%"
          ∷ field "drehzahl_modul_4_relais_4" 15 uint8 one "%"
          ∷ field "drehzahl_modul_4_relais_5" 16 uint8 one "%"
          ∷ [])
      ∷ entry 0x1A45 0x0010 0x0100 "0x1A45" (
          field "temperature_module_5_sensor_1" 0 int16 tenth " °C"
          ∷ field "temperature_module_5_sensor_2" 2 int16 tenth " °C"
          ∷ field "temperature_module_5_sensor_3" 4 int16 tenth " °C"
          ∷ field "temperature_module_5_sensor_4" 6 int16 tenth " °C"
          ∷ field "temperature_module_5_sensor_5" 8 int16 tenth " °C"
          ∷ field "temperature_module_5_sensor_6" 10 int16 tenth " °C"
          ∷ field "drehzahl_modul_5_relais_1" 12 uint8 one "%"
          ∷ field "drehzahl_modul_5_relais_2" 13 uint8 one "%"
          ∷ field "drehzahl_modul_5_relais_3" 14 uint8 one "%"
          ∷ field "drehzahl_modul_5_relais_4" 15 uint8 one "%"
          ∷ field "drehzahl_modul_5_relais_5" 16 uint8 one "%"
          ∷ [])
      ∷ []
