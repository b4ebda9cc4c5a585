-- ===== src/Vbus/Registry/Generated/From2373.antt =====
-- internal/vbus/registry_gen.go, lines 2321 to 2463: the sources 0x2373 to 0x3241.
use vbus2mqtt.Prelude.{[], ◌∷◌}
use vbus2mqtt.Vbus.Double.{Double, hundredth, one, ten_thousandth, tenth}
use vbus2mqtt.Vbus.Registry.{int16, uint16, uint32, uint8, Registry, entry, field}

module _ {W : Type 0} ⦃d : Double W⦄ where
  unfoldable pub packets_from_2373 : Registry W
  packets_from_2373 =
      entry 0x2373 0x0010 0x0100 "0x2373" (
        field "immersion_heater_3_parameter_priority" 24 int16 one ""
        ∷ field "immersion_heater_3_temperature_store" 8 int16 tenth " °C"
        ∷ field "immersion_heater_3_parameter_tmax" 22 int16 tenth " °C"
        ∷ field "immersion_heater_3_operating_hours_heating" 14 uint32 one " h"
        ∷ field "immersion_heater_3_operating_hours_backup_heating" 18 uint32 one " h"
        ∷ [])
      ∷ entry 0x2374 0x0010 0x0100 "0x2374" (
          field "heat_pump_parameter_priority" 20 int16 one ""
          ∷ field "heat_pump_operating_hours_operation" 12 uint32 one " h"
          ∷ field "heat_pump_operating_hours_mains_operation" 16 uint32 one " h"
          ∷ [])
      ∷ entry 0x2375 0x0010 0x0100 "0x2375" (
          field "wallbox_parameter_priority" 20 int16 one ""
          ∷ field "wallbox_operating_hours_operation" 12 uint32 one " h"
          ∷ field "wallbox_operating_hours_mains_operation" 16 uint32 one " h"
          ∷ [])
      ∷ entry 0x3011 0x0010 0x0100 "0x3011" (
          field "flow_temperature" 0 int16 tenth " °C"
          ∷ field "return_temperature" 2 int16 tenth " °C"
          ∷ field "flow_velocity" 4 int16 hundredth " m/s"
          ∷ field "air_flow_volume" 12 uint32 one " m³/h"
          ∷ field "air_flow_mass" 16 uint32 one " kg/h"
          ∷ field "air_duct_diamter" 10 uint16 hundredth " m²"
          ∷ field "air_density" 20 uint16 ten_thousandth " kg/m³"
          ∷ field "air_pressure" 24 uint16 one " hPa"
          ∷ field "power" 22 uint16 tenth " kW"
          ∷ field "heat_quantity_kwh" 28 uint16 one " kWh"
          ∷ field "heat_quantity_mwh" 30 uint16 one " kWh"
          ∷ field "operating_days" 6 uint16 one ""
          ∷ [])
      ∷ entry 0x3112 0x0010 0x0100 "0x3112" (
          field "collector_temperature_tc" 0 int16 tenth " °C"
          ∷ field "speicher_temperatur_ts" 2 int16 tenth " °C"
          ∷ field "temperature_sensor_3" 4 int16 tenth " °C"
          ∷ field "heat_quantity" 8 uint32 one " Wh"
          ∷ field "pump_speed_pc" 12 uint8 one "%"
          ∷ field "control_time_tc" 14 int16 one "%"
          ∷ field "software_version" 16 int16 hundredth ""
          ∷ field "system_time" 20 int16 one ""
          ∷ field "timer" 22 int16 one ""
          ∷ [])
      ∷ entry 0x3113 0x0010 0x0100 "0x3113" (
          field "collector_temperature_tc" 0 int16 tenth " °C"
          ∷ field "speicher_temperatur_ts" 2 int16 tenth " °C"
          ∷ field "heat_quantity" 8 uint32 one " Wh"
          ∷ field "pump_speed_pc" 12 uint8 one "%"
          ∷ field "control_time_tc" 14 int16 one "%"
          ∷ field "software_version" 16 int16 hundredth ""
          ∷ [])
      ∷ entry 0x3114 0x0010 0x0100 "0x3114" (
          field "collector_temperature_tc" 0 int16 tenth " °C"
          ∷ field "speicher_temperatur_ts" 2 int16 tenth " °C"
          ∷ field "heating_return_temperature_tr" 4 int16 tenth " °C"
          ∷ field "sensor_temperature_tm" 6 int16 tenth " °C"
          ∷ field "heat_quantity" 8 uint32 one " Wh"
          ∷ field "pump_speed_pc" 12 uint8 one "%"
          ∷ field "valve_r2" 13 uint8 one "%"
          ∷ field "control_time_tc" 14 int16 one "%"
          ∷ field "software_version" 16 int16 hundredth ""
          ∷ [])
      ∷ entry 0x3211 0x0010 0x0100 "0x3211" (
          field "temperature_sensor_1" 0 int16 tenth " °C"
          ∷ field "temperature_sensor_2" 2 int16 tenth " °C"
          ∷ field "temperature_sensor_3" 4 int16 tenth " °C"
          ∷ field "pump_speed_r1" 6 uint8 one "%"
          ∷ field "error_code" 7 uint8 one ""
          ∷ field "pump_runtime_r1" 8 uint16 one " h"
          ∷ field "loading_status" 10 uint8 one ""
          ∷ field "flags" 11 uint8 one ""
          ∷ [])
      ∷ entry 0x3221 0x0010 0x0100 "0x3221" (
          field "temperature_sensor_1" 0 int16 tenth " °C"
          ∷ field "temperature_sensor_2" 2 int16 tenth " °C"
          ∷ field "temperature_sensor_3" 4 int16 tenth " °C"
          ∷ field "pump_speed_relay_1" 6 uint8 one "%"
          ∷ field "pump_speed_relay_2" 7 uint8 one "%"
          ∷ field "control_flags" 8 uint16 one ""
          ∷ field "error_mask" 10 uint8 one ""
          ∷ field "operating_hours_relay_1" 12 uint16 one " h"
          ∷ field "operating_hours_relay_2" 14 uint16 one " h"
          ∷ [])
      ∷ entry 0x3231 0x0010 0x0100 "0x3231" (
          field "temperature_sensor_1" 0 int16 tenth " °C"
          ∷ field "temperature_sensor_2" 2 int16 tenth " °C"
          ∷ field "temperature_sensor_3" 4 int16 tenth " °C"
          ∷ field "pump_speed_relay_1" 6 int16 one "%"
          ∷ field "error_mask" 7 int16 one ""
          ∷ field "operating_hours_relay_1" 8 int16 one " h"
          ∷ field "relay_mask" 10 int16 one ""
          ∷ [])
      ∷ entry 0x3241 0x0010 0x0100 "0x3241" (
          field "temperature_sensor_1" 0 int16 tenth " °C"
          ∷ field "temperature_sensor_2" 2 int16 tenth " °C"
          ∷ field "temperature_sensor_3" 4 int16 tenth " °C"
          ∷ field "pump_speed_relay_1" 6 uint8 one "%"
          ∷ field "error_mask" 7 uint8 one ""
          ∷ field "relay_mask" 10 uint8 one ""
          ∷ [])
      ∷ []
