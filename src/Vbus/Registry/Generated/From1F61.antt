-- ===== src/Vbus/Registry/Generated/From1F61.antt =====
-- internal/vbus/registry_gen.go, lines 1910 to 2048: the sources 0x1F61 to 0x2231.
use vbus2mqtt.Prelude.{[], ◌∷◌}
use vbus2mqtt.Vbus.Double.{Double, hundredth, one, tenth, thousandth}
use vbus2mqtt.Vbus.Registry.{int16, uint16, uint32, uint8, Registry, entry, field}

module _ {W : Type 0} ⦃d : Double W⦄ where
  unfoldable pub packets_from_1f61 : Registry W
  packets_from_1f61 =
      entry 0x1F61 0x0010 0x0100 "0x1F61" (
        field "countdown_blockage" 1 int16 one ""
        ∷ field "power_excess" 4 uint32 thousandth " W"
        ∷ field "power_heating" 76 uint32 thousandth " W"
        ∷ field "leistung_verbraucher_1_extern" 92 int16 one " W"
        ∷ field "leistung_verbraucher_2_extern" 94 int16 one " W"
        ∷ field "temperatur_heizung_sensor_1" 12 int16 tenth " °C"
        ∷ field "temperatur_speicher_unten_sensor_2" 14 int16 tenth " °C"
        ∷ field "temperature_store_top_sensor_3" 16 int16 tenth " °C"
        ∷ field "temperature_sensor_4" 18 int16 tenth " °C"
        ∷ field "temperature_sensor_6" 104 int16 tenth " °C"
        ∷ field "druck_sensor_6" 106 int16 hundredth " bar"
        ∷ field "speed_loading_pump" 3 uint8 one "%"
        ∷ field "pump_speed_relay_2" 42 uint8 one "%"
        ∷ field "pump_speed_relay_3" 70 uint8 one "%"
        ∷ field "pump_speed_relay_4" 71 uint8 one "%"
        ∷ field "excess_wh" 20 uint32 one " Wh"
        ∷ field "heating_wh" 28 uint32 one " Wh"
        ∷ field "operating_seconds_heating" 36 uint32 one " h"
        ∷ field "operating_seconds_backup_heating" 60 uint32 one " h"
        ∷ field "operating_hours_relay_2" 56 uint32 one " h"
        ∷ field "operating_hours_relay_3" 84 uint32 one " h"
        ∷ field "operating_hours_relay_4" 88 uint32 one " h"
        ∷ field "paramter_target_temperature" 40 int16 tenth " °C"
        ∷ field "paramter_reserve" 44 int16 one " W"
        ∷ field "0_10v_in" 43 int16 tenth " V"
        ∷ field "system_date" 52 uint32 one ""
        ∷ [])
      ∷ entry 0x2170 0x0010 0x0100 "0x2170" (
          field "temperature_sensor" 0 int16 tenth " °C"
          ∷ field "humidity" 2 int16 tenth "%"
          ∷ field "radiation" 4 int16 one " Bq/m³"
          ∷ field "age_radiation" 6 int16 one " s"
          ∷ [])
      ∷ entry 0x2211 0x0010 0x0100 "0x2211" (
          field "temperature_sensor_1" 0 int16 tenth " °C"
          ∷ field "temperature_sensor_2" 2 int16 tenth " °C"
          ∷ field "temperature_sensor_3" 4 int16 tenth " °C"
          ∷ field "temperature_sensor_4" 6 int16 tenth " °C"
          ∷ field "temperature_sensor_5" 36 int16 tenth " °C"
          ∷ field "flow_rate" 38 int16 one " l/h"
          ∷ field "pump_speed_relay_1" 8 uint8 one "%"
          ∷ field "pump_speed_relay_2" 12 uint8 one "%"
          ∷ field "operating_hours_relay_1" 10 uint16 one " h"
          ∷ field "operating_hours_relay_2" 14 uint16 one " h"
          ∷ field "unittype" 16 uint8 one ""
          ∷ field "system" 17 uint8 one ""
          ∷ field "errormask" 20 uint16 one ""
          ∷ field "system_time" 22 int16 one ""
          ∷ field "status_mask" 24 uint32 one ""
          ∷ field "heat_quantity" 28 uint32 one " Wh"
          ∷ field "sw_version" 32 uint16 hundredth ""
          ∷ [])
      ∷ entry 0x2213 0x0010 0x0100 "0x2213" (
          field "system_time" 22 int16 one ""
          ∷ field "temperature_sensor_1" 0 int16 tenth " °C"
          ∷ field "temperature_sensor_2" 2 int16 tenth " °C"
          ∷ field "temperature_sensor_3" 4 int16 tenth " °C"
          ∷ field "temperature_sensor_4" 6 int16 tenth " °C"
          ∷ field "temperature_gfd" 36 int16 tenth " °C"
          ∷ field "flow_rate_1" 38 int16 one " l/h"
          ∷ field "flow_rate_2" 40 int16 one " l/h"
          ∷ field "pump_speed_relay_1" 8 uint8 one "%"
          ∷ field "pump_speed_relay_2" 12 uint8 one "%"
          ∷ field "operating_hours_relay_1" 10 uint16 one " h"
          ∷ field "operating_hours_relay_2" 14 uint16 one " h"
          ∷ field "pfb1_duty" 44 uint32 thousandth "%"
          ∷ field "pfb1_freq" 48 uint32 thousandth " Hz"
          ∷ field "pfb2_duty" 52 uint32 thousandth "%"
          ∷ field "pfb2_freq" 56 uint32 thousandth " Hz"
          ∷ field "unittype" 16 uint8 one ""
          ∷ field "system" 17 uint8 one ""
          ∷ field "heat_quantity" 28 uint32 one " Wh"
          ∷ field "status_mask" 24 uint32 one ""
          ∷ field "errormask" 20 uint16 one ""
          ∷ field "sw_version" 32 uint16 hundredth ""
          ∷ [])
      ∷ entry 0x2231 0x0010 0x0100 "0x2231" (
          field "collector" 0 int16 tenth " °C"
          ∷ field "store_solar" 2 int16 tenth " °C"
          ∷ field "boiler_temperature" 4 int16 tenth " °C"
          ∷ field "store_base" 6 int16 tenth " °C"
          ∷ field "heating_circuit_return" 8 int16 tenth " °C"
          ∷ field "store_draw_off" 10 int16 tenth " °C"
          ∷ field "dhw_store" 12 int16 tenth " °C"
          ∷ field "circulation_sensor" 14 int16 tenth " °C"
          ∷ field "sensor_9" 16 int16 tenth " °C"
          ∷ field "sensor_10" 18 int16 tenth " °C"
          ∷ field "sensor_11" 20 int16 tenth " °C"
          ∷ field "sensor_12" 22 int16 tenth " °C"
          ∷ field "sensor_13" 24 int16 tenth " °C"
          ∷ field "flow_temperature_hc1" 26 int16 tenth " °C"
          ∷ field "outdoor_temperature" 28 int16 tenth " °C"
          ∷ field "exhaust_temperature" 30 int16 tenth " °C"
          ∷ field "irradiation" 36 int16 one " W/m²"
          ∷ field "impulse_input_1" 38 uint32 one ""
          ∷ field "impulse_input_2" 40 uint32 one ""
          ∷ field "sensor_line_break_mask" 88 uint16 one ""
          ∷ field "sensor_short_circuit_mask" 90 uint16 one ""
          ∷ field "sensor_usage_mask" 80 uint32 one ""
          ∷ field "pump_solar" 42 uint8 one "%"
          ∷ field "pump_stove" 43 uint8 one "%"
          ∷ field "changeover_valve_boiler" 44 uint8 one "%"
          ∷ field "dhw_loading_p" 45 uint8 one "%"
          ∷ field "circulating_pump" 46 uint8 one "%"
          ∷ field "relay_6" 47 uint8 one "%"
          ∷ field "relay_7" 48 uint8 one "%"
          ∷ field "relay_8" 49 uint8 one "%"
          ∷ field "boiler_block" 50 uint8 one "%"
          ∷ field "mixer_open" 51 uint8 one "%"
          ∷ field "mixer_closed" 52 uint8 one "%"
          ∷ field "hc_pump" 53 uint8 one "%"
          ∷ field "gas_oil_pellet_stove" 54 uint8 one "%"
          ∷ field "relay_usage_mask" 84 uint32 one ""
          ∷ field "error_mask" 56 uint16 one ""
          ∷ field "warning_mask" 58 uint16 one ""
          ∷ field "controller_version" 72 uint16 one ""
          ∷ field "system_time" 74 uint16 one ""
          ∷ [])
      ∷ []
