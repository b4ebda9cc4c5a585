-- ===== src/Vbus/Registry/Generated/From4A00.antt =====
-- internal/vbus/registry_gen.go, lines 3026 to 3175: the sources 0x4A00 to 0x5231.
use vbus2mqtt.Prelude.{[], ◌∷◌}
use vbus2mqtt.Vbus.Double.{Double, hundredth, one, tenth, thousandth}
use vbus2mqtt.Vbus.Registry.{int16, uint16, uint32, uint8, Registry, entry, field}

module _ {W : Type 0} ⦃d : Double W⦄ where
  unfoldable pub packets_from_4a00 : Registry W
  packets_from_4a00 =
      entry 0x4A00 0x0010 0x0100 "0x4A00" (
        field "tc" 0 int16 tenth " °C"
        ∷ field "cd" 2 int16 tenth " °C"
        ∷ field "cu" 4 int16 tenth " °C"
        ∷ field "p1" 6 uint8 one "%"
        ∷ field "p1s" 13 uint8 one ""
        ∷ field "p2" 7 uint8 one "%"
        ∷ field "ls" 10 int16 tenth ""
        ∷ field "ph" 12 uint8 one ""
        ∷ field "kwh" 16 uint32 tenth " kWh"
        ∷ [])
      ∷ entry 0x5111 0x0010 0x0100 "0x5111" (
          field "temperature_sensor_1" 0 int16 tenth " °C"
          ∷ field "temperature_sensor_2" 2 int16 tenth " °C"
          ∷ field "temperature_sensor_3" 4 int16 tenth " °C"
          ∷ field "temperature_sensor_4" 6 int16 tenth " °C"
          ∷ field "temperature_sensor_5" 8 int16 tenth " °C"
          ∷ field "system_pressure" 10 int16 tenth " bar"
          ∷ field "flow_rate" 12 int16 one " l/h"
          ∷ field "pump_speed_relay_1" 14 uint8 one "%"
          ∷ field "system_message" 15 uint8 one ""
          ∷ field "heat_quantity" 20 uint32 one " Wh"
          ∷ field "date" 24 uint32 one ""
          ∷ field "time" 28 int16 one ""
          ∷ [])
      ∷ entry 0x5112 0x0010 0x0100 "0x5112" (
          field "temperature_sensor_1" 0 int16 tenth " °C"
          ∷ field "temperature_sensor_2" 2 int16 tenth " °C"
          ∷ field "temperature_sensor_3" 4 int16 tenth " °C"
          ∷ field "temperature_sensor_4" 6 int16 tenth " °C"
          ∷ field "flow_rate" 8 int16 one " l/h"
          ∷ field "pump_speed_relay_1" 10 uint8 one "%"
          ∷ field "system_message" 11 uint8 one ""
          ∷ field "power" 12 uint32 thousandth " kW"
          ∷ field "heat_quantity" 16 uint32 one " Wh"
          ∷ field "date" 20 uint32 one ""
          ∷ field "time" 24 int16 one ""
          ∷ [])
      ∷ entry 0x5121 0x0010 0x0100 "0x5121" (
          field "cold_water_temperature" 0 int16 tenth " °C"
          ∷ field "temperature_sensor_2" 2 int16 tenth " °C"
          ∷ field "temperature_sensor_3" 4 int16 tenth " °C"
          ∷ field "set_value" 6 int16 hundredth " °C"
          ∷ field "loading_temperature" 8 int16 hundredth " °C"
          ∷ field "loading_flow_rate" 10 int16 hundredth " l/min"
          ∷ field "hot_water_temperature" 12 int16 hundredth " °C"
          ∷ field "draw_off_flow_rate" 14 int16 hundredth " l/min"
          ∷ field "pwm1" 16 uint8 one "%"
          ∷ field "relay_1" 17 uint8 one "%"
          ∷ field "status" 18 uint8 one ""
          ∷ field "draw_off" 19 uint8 one ""
          ∷ field "error_mask" 20 uint32 one ""
          ∷ field "warning_mask" 24 uint32 one ""
          ∷ field "draw_off_quantity" 36 uint32 tenth ""
          ∷ field "date" 40 uint32 one ""
          ∷ field "system_time" 44 uint16 one ""
          ∷ field "version" 46 uint16 hundredth ""
          ∷ [])
      ∷ entry 0x5141 0x0010 0x0100 "0x5141" (
          field "temperature_sensor_1" 0 int16 tenth " °C"
          ∷ field "temperature_sensor_2" 2 int16 tenth " °C"
          ∷ field "temperature_sensor_3" 4 int16 tenth " °C"
          ∷ field "pump_speed_relay_1" 6 uint8 one "%"
          ∷ field "pump_speed_relay_2" 7 uint8 one "%"
          ∷ field "system_message" 8 uint8 one ""
          ∷ field "error_mask" 10 uint16 one ""
          ∷ field "date" 12 uint32 one ""
          ∷ field "time" 16 int16 one ""
          ∷ [])
      ∷ entry 0x5210 0x0010 0x0100 "0x5210" (
          field "temperature_sensor_1" 0 int16 tenth " °C"
          ∷ field "temperature_sensor_2" 2 int16 tenth " °C"
          ∷ field "temperature_sensor_3" 4 int16 tenth " °C"
          ∷ field "temperature_sensor_4" 6 int16 tenth " °C"
          ∷ field "temperature_sensor_5" 8 int16 tenth " °C"
          ∷ field "pump_speed_relay_1" 10 uint8 one "%"
          ∷ field "pump_speed_relay_2" 11 uint8 one "%"
          ∷ field "flow_rate" 12 uint16 one " l/h"
          ∷ field "antifreeze_ratio" 14 uint8 one "%"
          ∷ field "antifreeze_type" 15 uint8 one ""
          ∷ field "hardware" 22 uint8 one ""
          ∷ field "software" 23 uint8 one ""
          ∷ field "error_mask" 24 uint8 one ""
          ∷ field "error_info_1" 25 uint8 one ""
          ∷ field "error_info_2" 26 uint8 one ""
          ∷ field "relay_mask" 27 uint8 one ""
          ∷ field "system_time" 28 uint16 one ""
          ∷ [])
      ∷ entry 0x5221 0x0010 0x0100 "0x5221" (
          field "temperature_sensor_1" 0 int16 tenth " °C"
          ∷ field "temperature_sensor_2" 2 int16 tenth " °C"
          ∷ field "temperature_sensor_3" 4 int16 tenth " °C"
          ∷ field "pump_speed_relay_1" 6 uint8 one "%"
          ∷ field "error_mask" 7 uint8 one ""
          ∷ field "relay_mask" 10 uint8 one ""
          ∷ field "temperature_sensor_4" 12 int16 tenth " °C"
          ∷ field "temperature_sensor_5" 14 int16 tenth " °C"
          ∷ field "flow_rate" 16 int16 tenth " l/min"
          ∷ [])
      ∷ entry 0x5231 0x0010 0x0100 "0x5231" (
          field "temperature_sensor_1" 0 int16 tenth " °C"
          ∷ field "temperature_sensor_2" 2 int16 tenth " °C"
          ∷ field "temperature_sensor_3" 4 int16 tenth " °C"
          ∷ field "temperature_sensor_4" 6 int16 tenth " °C"
          ∷ field "flow_rate_sensor_5" 8 int16 tenth " l/min"
          ∷ field "pump_speed_1" 10 uint16 tenth "%"
          ∷ field "pump_speed_2" 12 uint8 one "%"
          ∷ field "error_mask" 13 uint8 one ""
          ∷ field "warning_mask" 14 uint8 one ""
          ∷ field "status_mask" 15 uint8 one ""
          ∷ field "heat_quantity" 16 uint32 one " Wh"
          ∷ field "operating_seconds_relay_1" 20 uint32 one " s"
          ∷ field "operating_seconds_relay_2" 24 uint32 one " s"
          ∷ field "draw_off_quantity" 28 uint32 thousandth " m³"
          ∷ field "date" 32 uint32 one ""
          ∷ field "system_time" 36 uint16 one ""
          ∷ field "version" 38 uint16 hundredth ""
          ∷ [])
      ∷ []
