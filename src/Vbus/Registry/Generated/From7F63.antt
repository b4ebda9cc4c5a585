-- ===== src/Vbus/Registry/Generated/From7F63.antt =====
-- internal/vbus/registry_gen.go, lines 5218 to 5283: the sources 0x7F63 to 0x7F71.
use vbus2mqtt.Prelude.{[], ◌∷◌}
use vbus2mqtt.Vbus.Double.{Double, hundredth, one, tenth, thousandth}
use vbus2mqtt.Vbus.Registry.{int16, uint32, uint8, Registry, entry, field}

module _ {W : Type 0} ⦃d : Double W⦄ where
  unfoldable pub packets_from_7f63 : Registry W
  packets_from_7f63 =
      entry 0x7F63 0x0010 0x0100 "0x7F63" (
        field "vload_day_vol2" 0 uint32 tenth " l/(m²*d)"
        ∷ field "qmeas2" 4 uint32 thousandth " kWh/(m²*d)"
        ∷ field "day_error_code" 8 uint32 one ""
        ∷ [])
      ∷ entry 0x7F64 0x0010 0x0100 "0x7F64" (
          field "tcol_est" 0 uint32 tenth " °C"
          ∷ field "flow_rate_est" 4 uint32 one " l/h"
          ∷ field "iam" 8 uint32 one "%"
          ∷ field "diffuse_radiation" 12 uint32 one " W/m²"
          ∷ field "incidence_angle" 16 uint32 one " °"
          ∷ [])
      ∷ entry 0x7F65 0x0010 0x0100 "0x7F65" (
          field "t_ambient1s" 0 int16 tenth " °C"
          ∷ field "t_flow_s11s" 2 int16 tenth " °C"
          ∷ field "t_return_s21s" 4 int16 tenth " °C"
          ∷ field "tsl1s" 6 int16 tenth " °C"
          ∷ field "tmax_temp_s51s" 8 int16 tenth " °C"
          ∷ field "irradiation1s" 10 int16 tenth " W/m²"
          ∷ field "flow_rate11s" 12 uint32 one " l/h"
          ∷ field "flow_rate21s" 16 uint32 one " l/h"
          ∷ field "s61s" 20 int16 tenth " °C"
          ∷ field "s71s" 22 int16 tenth " °C"
          ∷ field "rated_current_11s" 24 int16 hundredth " mA"
          ∷ field "rated_current_21s" 26 int16 hundredth " mA"
          ∷ field "status_flag1s" 36 uint32 one ""
          ∷ [])
      ∷ entry 0x7F71 0x0010 0x0100 "0x7F71" (
          field "temperature_sensor_1" 0 int16 tenth " °C"
          ∷ field "temperature_sensor_2" 2 int16 tenth " °C"
          ∷ field "temperature_sensor_3" 4 int16 tenth " °C"
          ∷ field "temperature_sensor_4" 6 int16 tenth " °C"
          ∷ field "temperature_sensor_5" 8 int16 tenth " °C"
          ∷ field "system_pressure" 10 int16 hundredth " bar"
          ∷ field "flow_rate" 12 int16 one " l/h"
          ∷ field "pump_speed_relay_1" 14 uint8 one "%"
          ∷ field "system_message" 15 uint8 one ""
          ∷ field "power" 16 uint32 one " W"
          ∷ field "heat_quantity" 20 uint32 one " Wh"
          ∷ field "date" 24 uint32 one ""
          ∷ field "time" 28 int16 one ""
          ∷ field "eff_minimum_speed" 30 uint8 one "%"
          ∷ field "debug1" 32 uint32 one ""
          ∷ field "debug2" 36 uint32 one ""
          ∷ field "debug3" 40 uint32 one ""
          ∷ field "debug4" 44 uint32 one ""
          ∷ field "debug5" 48 uint32 one ""
          ∷ field "irradiation" 52 int16 one " W/m²"
          ∷ field "cell_temperature" 54 int16 tenth " °C"
          ∷ [])
      ∷ []
