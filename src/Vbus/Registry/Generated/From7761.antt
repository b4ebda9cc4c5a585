-- ===== src/Vbus/Registry/Generated/From7761.antt =====
-- internal/vbus/registry_gen.go, lines 4832 to 4980: the sources 0x7761 to 0x7822.
use vbus2mqtt.Prelude.{[], ◌∷◌}
use vbus2mqtt.Vbus.Double.{Double, hundredth, one, tenth}
use vbus2mqtt.Vbus.Registry.{int16, uint16, uint32, uint8, Registry, entry, field}

module _ {W : Type 0} ⦃d : Double W⦄ where
  unfoldable pub packets_from_7761 : Registry W
  packets_from_7761 =
      entry 0x7761 0x0010 0x0100 "0x7761" (
        field "temperature_sensor_1" 0 int16 tenth " °C"
        ∷ field "temperature_sensor_2" 2 int16 tenth " °C"
        ∷ field "temperature_sensor_3" 4 int16 tenth " °C"
        ∷ field "temperature_sensor_4" 6 int16 tenth " °C"
        ∷ field "temperature_sensor_5" 8 int16 tenth " °C"
        ∷ field "temperature_sensor_6" 10 int16 tenth " °C"
        ∷ field "temperature_sensor_7" 12 int16 tenth " °C"
        ∷ field "temperature_sensor_8" 14 int16 tenth " °C"
        ∷ field "temperature_sensor_9" 16 int16 tenth " °C"
        ∷ field "temperature_sensor_10" 18 int16 tenth " °C"
        ∷ field "irradiation_cs" 20 int16 one " W/m²"
        ∷ field "impulse_1_v40" 22 uint16 one ""
        ∷ field "digital_input" 24 uint16 one ""
        ∷ field "pump_speed_relay_1" 26 int16 one "%"
        ∷ field "pump_speed_relay_2" 27 int16 one "%"
        ∷ field "pump_speed_relay_3" 28 int16 one "%"
        ∷ field "pump_speed_relay_4" 29 int16 one "%"
        ∷ field "pump_speed_relay_5" 30 int16 one "%"
        ∷ field "pump_speed_relay_6" 31 int16 one "%"
        ∷ field "pump_speed_relay_7" 32 int16 one "%"
        ∷ field "error_mask" 33 uint16 one ""
        ∷ field "messages" 36 uint32 one ""
        ∷ field "filter_runtime" 40 uint16 one " min"
        ∷ field "system_time" 46 int16 one ""
        ∷ field "year" 48 int16 one ""
        ∷ field "month" 50 int16 one ""
        ∷ field "day" 51 int16 one ""
        ∷ field "circulation_time_counter" 52 uint32 one " s"
        ∷ field "extra_filter_time" 56 uint32 one " s"
        ∷ field "pump_monitoring" 60 uint32 one " s"
        ∷ field "solar_min_on_off" 64 uint32 one " s"
        ∷ field "sim5" 68 uint32 one ""
        ∷ field "duration_controlling_period" 72 uint32 one " ms"
        ∷ field "solar_phase" 44 uint8 one ""
        ∷ [])
      ∷ entry 0x7762 0x0010 0x0100 "0x7762" (
          field "flow_temperature" 0 int16 tenth " °C"
          ∷ field "return_temperature" 2 int16 tenth " °C"
          ∷ field "flow_rate_sensor_8" 4 int16 one " l/h"
          ∷ [])
      ∷ entry 0x7774 0x0010 0x0100 "0x7774" (
          field "date" 0 uint32 one ""
          ∷ field "time" 4 int16 one ""
          ∷ field "tss" 8 int16 tenth " °C"
          ∷ field "tef" 10 int16 tenth " °C"
          ∷ field "flow_rate" 18 uint16 one " l/h"
          ∷ field "volume" 20 uint32 hundredth " m³"
          ∷ field "impulse" 96 uint32 one ""
          ∷ field "tss" 24 int16 tenth " °C"
          ∷ field "tsa" 26 int16 tenth " °C"
          ∷ field "flow_rate2" 34 uint16 one " l/h"
          ∷ field "impulse" 96 uint32 one ""
          ∷ field "tac" 36 int16 tenth " °C"
          ∷ field "taf" 38 int16 tenth " °C"
          ∷ field "flow_rate3" 46 uint16 one " l/h"
          ∷ field "impulse" 100 uint32 one ""
          ∷ field "tbc" 48 int16 tenth " °C"
          ∷ field "tbf" 50 int16 tenth " °C"
          ∷ field "flow_rate4" 58 uint16 one " l/h"
          ∷ field "impulse" 104 uint32 one ""
          ∷ field "tsc" 60 int16 tenth " °C"
          ∷ field "tsf" 62 int16 tenth " °C"
          ∷ field "flow_rate5" 70 uint16 one " l/h"
          ∷ field "impulse" 108 uint32 one ""
          ∷ field "current1" 72 uint32 one " Wh"
          ∷ field "current1" 76 uint32 one " kWh"
          ∷ field "impulse" 112 uint32 one ""
          ∷ field "current2" 80 uint32 one " kWh"
          ∷ field "impulse" 116 uint32 one ""
          ∷ field "gas1" 84 uint32 hundredth " m³"
          ∷ field "impulse" 128 uint32 one ""
          ∷ field "therm_energy1" 88 uint32 one " kWh"
          ∷ field "impulse" 120 uint32 one ""
          ∷ field "therm_energy2" 92 uint32 one " kWh"
          ∷ field "impulse" 124 uint32 one ""
          ∷ field "impulse_counter_1_volume_1_2" 96 uint32 one ""
          ∷ field "impulse_counter_2_volume_3" 100 uint32 one ""
          ∷ field "impulse_counter_3_volume_4" 104 uint32 one ""
          ∷ field "impulse_counter_4_volume_5" 108 uint32 one ""
          ∷ field "impulse_counter_5_current_1" 112 uint32 one ""
          ∷ field "impulse_counter_6_current_2" 116 uint32 one ""
          ∷ field "impulse_counter_7_th_energy_1" 120 uint32 one ""
          ∷ field "impulse_counter_8_th_energy_2" 124 uint32 one ""
          ∷ field "impulse_counter_9_gas_1" 128 uint32 one ""
          ∷ [])
      ∷ entry 0x7821 0x0010 0x0100 "0x7821" (
          field "temperature_sensor_1" 0 int16 tenth " °C"
          ∷ field "temperature_sensor_2" 2 int16 tenth " °C"
          ∷ field "temperature_sensor_3" 4 int16 tenth " °C"
          ∷ field "temperature_sensor_4" 6 int16 tenth " °C"
          ∷ field "temperature_sensor_5" 8 int16 tenth " °C"
          ∷ field "temperature_sensor_6" 10 int16 tenth " °C"
          ∷ field "temperature_sensor_7" 12 int16 tenth " °C"
          ∷ field "temperature_sensor_8" 14 int16 tenth " °C"
          ∷ field "temperature_sensor_9" 16 int16 tenth " °C"
          ∷ field "temperature_sensor_10" 18 int16 tenth " °C"
          ∷ field "irradiation_cs" 20 int16 one " W/m²"
          ∷ field "impulse_1_v40" 22 uint16 one ""
          ∷ field "digital_input" 24 uint16 one ""
          ∷ field "pump_speed_relay_1" 26 int16 one "%"
          ∷ field "pump_speed_relay_2" 27 int16 one "%"
          ∷ field "pump_speed_relay_3" 28 int16 one "%"
          ∷ field "pump_speed_relay_4" 29 int16 one "%"
          ∷ field "pump_speed_relay_5" 30 int16 one "%"
          ∷ field "pump_speed_relay_6" 31 int16 one "%"
          ∷ field "pump_speed_relay_7" 32 int16 one "%"
          ∷ field "error_mask" 36 uint16 one ""
          ∷ field "messages" 38 uint16 one ""
          ∷ field "system" 40 int16 one ""
          ∷ field "scheme" 42 uint16 one ""
          ∷ field "flow_set_hc1_module_sensor_18" 44 int16 tenth " °C"
          ∷ field "status_hc1_module" 46 uint16 one ""
          ∷ field "flow_set_hc2_module_sensor_25" 48 int16 tenth " °C"
          ∷ field "status_hc2_module" 50 uint16 one ""
          ∷ field "flow_set_hc3_module_sensor_32" 52 int16 tenth " °C"
          ∷ field "status_hc3_module" 54 uint16 one ""
          ∷ field "flow_set_heating_circuit_sensor_11" 56 int16 tenth " °C"
          ∷ field "heating_circuit_status" 58 uint16 one ""
          ∷ field "system_time" 62 int16 one ""
          ∷ field "year" 64 int16 one ""
          ∷ field "month" 66 int16 one ""
          ∷ field "day" 67 int16 one ""
          ∷ [])
      ∷ entry 0x7822 0x0010 0x0100 "0x7822" (
          field "flow_temperature" 0 int16 tenth " °C"
          ∷ field "return_temperature" 2 int16 tenth " °C"
          ∷ field "flow_rate_sensor_8" 4 int16 one " l/h"
          ∷ [])
      ∷ []
