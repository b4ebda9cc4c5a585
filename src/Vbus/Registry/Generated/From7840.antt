-- ===== src/Vbus/Registry/Generated/From7840.antt =====
-- internal/vbus/registry_gen.go, lines 4981 to 5075: the sources 0x7840 to 0x7D04.
use vbus2mqtt.Prelude.{[], ◌∷◌}
use vbus2mqtt.Vbus.Double.{Double, hundredth, one, tenth}
use vbus2mqtt.Vbus.Registry.{int16, uint16, uint32, uint8, Registry, entry, field}

module _ {W : Type 0} ⦃d : Double W⦄ where
  unfoldable pub packets_from_7840 : Registry W
  packets_from_7840 =
      entry 0x7840 0x0010 0x0100 "0x7840" (
        field "temperature_sensor_1" 4 int16 tenth " °C"
        ∷ field "temperature_sensor_2" 6 int16 tenth " °C"
        ∷ field "temperature_sensor_3" 8 int16 tenth " °C"
        ∷ field "temperature_sensor_4" 10 int16 tenth " °C"
        ∷ field "pump_speed_relay_1" 20 int16 one "%"
        ∷ field "pump_speed_relay_2" 21 int16 one "%"
        ∷ field "sw_version" 28 int16 hundredth ""
        ∷ field "operating_hours_relay_1" 32 uint32 one " h"
        ∷ field "operating_hours_relay_2" 36 uint32 one " h"
        ∷ field "antifreeze" 67 int16 one ""
        ∷ field "error_mask" 72 uint32 one ""
        ∷ [])
      ∷ entry 0x7841 0x0010 0x0100 "0x7841"
          (field "heat_quantity" 0 uint32 one " Wh" ∷ field "power" 4 uint32 one " W" ∷ [])
      ∷ entry 0x7910 0x0010 0x0100 "0x7910" (
          field "temperature_sensor_1" 0 int16 tenth " °C"
          ∷ field "temperature_sensor_2" 2 int16 tenth " °C"
          ∷ field "temperature_sensor_3" 4 int16 tenth " °C"
          ∷ field "temperature_sensor_4" 6 int16 tenth " °C"
          ∷ field "temperature_sensor_5" 8 int16 tenth " °C"
          ∷ field "temperature_sensor_6" 10 int16 tenth " °C"
          ∷ field "temperature_sensor_7" 12 int16 tenth " °C"
          ∷ field "temperature_sensor_8" 14 int16 tenth " °C"
          ∷ field "temperature_sensor_9" 16 int16 tenth " °C"
          ∷ field "temperature_sensor_10" 18 int16 tenth " °C"
          ∷ field "flow_rate_sensor_s10_v40" 20 uint32 one " l/h"
          ∷ field "irradiation_sensor_cs10" 24 int16 one " W/m²"
          ∷ field "pressure_sensor_rps" 26 int16 hundredth " bar"
          ∷ field "flow_rate_sensor_flowrotor" 28 uint32 one " l/h"
          ∷ field "pump_speed_relay_1" 32 uint8 one "%"
          ∷ field "pump_speed_relay_2" 33 uint8 one "%"
          ∷ field "pump_speed_relay_3" 34 uint8 one "%"
          ∷ field "pump_speed_relay_4" 35 uint8 one "%"
          ∷ field "pump_speed_relay_5" 36 uint8 one "%"
          ∷ field "system_date" 40 uint32 one ""
          ∷ field "error_mask" 44 uint32 one ""
          ∷ [])
      ∷ entry 0x7911 0x0010 0x0100 "0x7911" (
          field "temperature_module_1_sensor_1" 0 int16 tenth " °C"
          ∷ field "temperature_module_1_sensor_2" 2 int16 tenth " °C"
          ∷ field "temperature_module_1_sensor_3" 4 int16 tenth " °C"
          ∷ field "temperature_module_1_sensor_4" 6 int16 tenth " °C"
          ∷ field "temperature_module_1_sensor_5" 8 int16 tenth " °C"
          ∷ field "temperature_module_1_sensor_6" 10 int16 tenth " °C"
          ∷ field "temperature_module_2_sensor_1" 12 int16 tenth " °C"
          ∷ field "temperature_module_2_sensor_2" 14 int16 tenth " °C"
          ∷ field "temperature_module_2_sensor_3" 16 int16 tenth " °C"
          ∷ field "temperature_module_2_sensor_4" 18 int16 tenth " °C"
          ∷ field "temperature_module_2_sensor_5" 20 int16 tenth " °C"
          ∷ field "temperature_module_2_sensor_6" 22 int16 tenth " °C"
          ∷ [])
      ∷ entry 0x7D04 0x0010 0x0100 "0x7D04" (
          field "dhw_temperature" 0 int16 tenth " °C"
          ∷ field "cold_water_temperature" 2 int16 tenth " °C"
          ∷ field "circulation_temperature" 4 int16 tenth " °C"
          ∷ field "flow_rate" 6 int16 tenth " l/min"
          ∷ field "pump_speed_relay_1" 8 uint8 one "%"
          ∷ field "pump_speed_relay_2" 9 uint8 one "%"
          ∷ field "system_time" 10 int16 one ""
          ∷ field "options" 12 uint8 one ""
          ∷ field "status" 13 uint8 one ""
          ∷ field "relay_status" 14 uint8 one ""
          ∷ field "sensor_defective" 15 uint8 one ""
          ∷ field "dhw_set_temperature" 16 uint8 one " °C"
          ∷ field "source_temperature" 17 uint8 one " °C"
          ∷ field "remaining_draw_off" 19 uint8 one " min"
          ∷ field "operating_cycles" 20 uint32 one ""
          ∷ field "max_cold_water_temperature" 32 int16 tenth " °C"
          ∷ field "min_cold_water_temperature" 34 int16 tenth " °C"
          ∷ field "max_flow_rate" 36 int16 one " l/h"
          ∷ field "draw_off_quantity" 38 uint16 tenth " m³"
          ∷ [])
      ∷ []
