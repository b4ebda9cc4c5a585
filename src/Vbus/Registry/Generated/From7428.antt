-- ===== src/Vbus/Registry/Generated/From7428.antt =====
-- internal/vbus/registry_gen.go, lines 4279 to 4409: the sources 0x7428 to 0x7513.
use vbus2mqtt.Prelude.{[], ◌∷◌}
use vbus2mqtt.Vbus.Double.{Double, hundredth, one, tenth}
use vbus2mqtt.Vbus.Registry.{int16, uint16, uint32, uint8, Registry, entry, field}

module _ {W : Type 0} ⦃d : Double W⦄ where
  unfoldable pub packets_from_7428 : Registry W
  packets_from_7428 =
      entry 0x7428 0x0010 0x0100 "0x7428" (
        field "s1" 0 int16 tenth " °C"
        ∷ field "s2" 2 int16 tenth " °C"
        ∷ field "s3" 4 int16 tenth " °C"
        ∷ field "s4" 6 int16 tenth " °C"
        ∷ field "s5" 8 int16 tenth " °C"
        ∷ field "sr_1" 24 uint8 one "%"
        ∷ field "sr_2" 25 uint8 one "%"
        ∷ field "sr_3" 26 uint8 one "%"
        ∷ field "sr_4" 27 uint8 one "%"
        ∷ field "flow_v40" 18 int16 one " l/h"
        ∷ field "heat" 48 uint32 one " Wh"
        ∷ field "time" 54 uint16 one ""
        ∷ field "date" 56 uint32 one ""
        ∷ field "version" 52 uint16 hundredth ""
        ∷ field "osr_1" 28 uint32 one " s"
        ∷ field "osr_2" 32 uint32 one " s"
        ∷ field "osr_3" 36 uint32 one " s"
        ∷ field "osr_4" 40 uint32 one " s"
        ∷ field "control_status" 46 uint16 one ""
        ∷ field "unit" 20 uint8 one ""
        ∷ field "error" 44 uint16 one ""
        ∷ [])
      ∷ entry 0x7441 0x0010 0x0100 "0x7441" (
          field "temperature_sensor_1" 4 int16 tenth " °C"
          ∷ field "temperature_sensor_2" 6 int16 tenth " °C"
          ∷ field "temperature_sensor_3" 8 int16 tenth " °C"
          ∷ field "temperature_sensor_4" 10 int16 tenth " °C"
          ∷ field "pump_speed_relay_1" 12 int16 one "%"
          ∷ field "pump_speed_relay_2" 13 int16 one "%"
          ∷ field "controller_output_1" 14 int16 one "%"
          ∷ field "wmz1valuewh" 16 uint32 one " Wh"
          ∷ field "sw_version" 20 uint32 one ""
          ∷ field "operating_seconds_relay_1" 24 uint32 one " s"
          ∷ field "operating_seconds_relay_2" 28 uint32 one " s"
          ∷ field "initialise" 32 uint32 one ""
          ∷ field "filling" 36 uint32 one ""
          ∷ field "stabilise" 40 uint32 one ""
          ∷ field "antifreeze" 44 int16 one ""
          ∷ field "error_mask" 52 uint32 one ""
          ∷ [])
      ∷ entry 0x7442 0x0010 0x0100 "0x7442" (
          field "wmz1valuewh" 0 uint32 one " Wh"
          ∷ field "wmz1powerw" 4 uint32 one " W"
          ∷ field "wmz1valuetodaywh" 8 uint32 one " Wh"
          ∷ field "wmz1valueweekwh" 12 uint32 one " Wh"
          ∷ [])
      ∷ entry 0x7511 0x0010 0x0100 "0x7511" (
          field "collector_temperature" 0 int16 tenth " °C"
          ∷ field "temperature_sp" 2 int16 tenth " °C"
          ∷ field "temperature_ss" 4 int16 tenth " °C"
          ∷ field "hp_flow_temperature" 6 int16 tenth " °C"
          ∷ field "hp_return_temperature" 8 int16 tenth " °C"
          ∷ field "evap_temperature" 10 int16 tenth " °C"
          ∷ field "soil_temperature" 12 int16 tenth " °C"
          ∷ field "flow_rate_collector" 14 int16 tenth " l/min"
          ∷ field "power_pko" 18 uint8 one "%"
          ∷ field "power_ps" 19 uint8 one "%"
          ∷ field "error_mask" 20 uint32 one ""
          ∷ field "pko_nominal_power" 25 uint8 one "%"
          ∷ field "twabs" 26 int16 tenth " °C"
          ∷ field "heat_quantity_sp" 28 uint32 tenth " kWh"
          ∷ field "heat_quantity_ss" 32 uint32 tenth " kWh"
          ∷ field "diff_toutd_24h" 36 int16 tenth " K"
          ∷ field "diff_tss_8h" 38 int16 tenth " K"
          ∷ field "diff_tss_1h" 40 int16 tenth " K"
          ∷ field "operating_sec_heat_pump" 42 int16 one " s"
          ∷ field "time_period_hp_24h" 44 uint32 one " s"
          ∷ field "heat_pump_runtime_24_h" 48 uint32 one " s"
          ∷ field "temperature_th" 56 int16 tenth " °C"
          ∷ field "system_time" 58 int16 one ""
          ∷ [])
      ∷ entry 0x7512 0x0010 0x0100 "0x7512" (
          field "t_sp" 0 uint32 one " s"
          ∷ field "t_ss" 4 uint32 one " s"
          ∷ field "heat_pump_runtime" 8 uint32 one " s"
          ∷ field "number_of_hp_starts" 12 uint32 one ""
          ∷ field "t_wp_ss" 16 uint32 one " s"
          ∷ field "t_ps" 20 uint32 one " s"
          ∷ field "temperature_t_x" 24 int16 tenth " °C"
          ∷ field "temperature_t_xx" 26 int16 tenth " °C"
          ∷ field "c1" 28 int16 hundredth ""
          ∷ field "version" 30 int16 hundredth ""
          ∷ [])
      ∷ entry 0x7513 0x0010 0x0100 "0x7513" (
          field "tko" 0 int16 tenth " °C"
          ∷ field "tsp" 2 int16 tenth " °C"
          ∷ field "tss" 4 int16 tenth " °C"
          ∷ field "tkr" 6 int16 tenth " °C"
          ∷ field "tr" 8 int16 tenth " °C"
          ∷ field "tv" 10 int16 tenth " °C"
          ∷ field "terd" 24 int16 tenth " °C"
          ∷ field "flow_rate_collector" 26 int16 tenth " l/min"
          ∷ field "power_pko" 32 uint8 one "%"
          ∷ field "power_ps" 33 uint8 one "%"
          ∷ field "error_mask" 36 uint32 one ""
          ∷ field "pko_nominal_power" 35 uint8 one "%"
          ∷ field "q_sp" 40 uint32 tenth " kWh"
          ∷ field "q_ss" 44 uint32 tenth " kWh"
          ∷ field "thr" 16 int16 tenth " °C"
          ∷ field "thv" 18 int16 tenth " °C"
          ∷ field "power_p_h" 34 uint8 one "%"
          ∷ field "system_time" 48 int16 one ""
          ∷ field "tx" 20 int16 tenth " °C"
          ∷ field "txx" 22 int16 tenth " °C"
          ∷ field "c1" 50 int16 hundredth ""
          ∷ [])
      ∷ []
