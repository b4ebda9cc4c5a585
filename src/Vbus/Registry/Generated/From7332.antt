-- ===== src/Vbus/Registry/Generated/From7332.antt =====
-- internal/vbus/registry_gen.go, lines 3880 to 4026: the sources 0x7332 to 0x7342.
use vbus2mqtt.Prelude.{[], ◌∷◌}
use vbus2mqtt.Vbus.Double.{Double, hundredth, one, tenth}
use vbus2mqtt.Vbus.Registry.{int16, uint16, uint32, uint8, Registry, entry, field}

module _ {W : Type 0} ⦃d : Double W⦄ where
  unfoldable pub packets_from_7332 : Registry W
  packets_from_7332 =
      entry 0x7332 0x0010 0x0100 "0x7332" (
        field "temperature_sensor_17" 0 int16 tenth " °C"
        ∷ field "temperature_sensor_18" 2 int16 tenth " °C"
        ∷ field "temperature_sensor_19" 4 int16 tenth " °C"
        ∷ field "temperature_sensor_20" 6 int16 tenth " °C"
        ∷ field "temperature_sensor_21" 8 int16 tenth " °C"
        ∷ field "temperature_sensor_22" 10 int16 tenth " °C"
        ∷ field "pump_speed_r14" 12 uint8 one "%"
        ∷ field "pump_speed_r15" 13 uint8 one "%"
        ∷ field "pump_speed_r16" 14 uint8 one "%"
        ∷ field "pump_speed_r17" 15 uint8 one "%"
        ∷ field "pump_speed_r18" 16 uint8 one "%"
        ∷ [])
      ∷ entry 0x7333 0x0010 0x0100 "0x7333" (
          field "temperature_sensor_23" 0 int16 tenth " °C"
          ∷ field "temperature_sensor_24" 2 int16 tenth " °C"
          ∷ field "temperature_sensor_25" 4 int16 tenth " °C"
          ∷ field "temperature_sensor_26" 6 int16 tenth " °C"
          ∷ field "temperature_sensor_27" 8 int16 tenth " °C"
          ∷ field "temperature_sensor_28" 10 int16 tenth " °C"
          ∷ field "pump_speed_r19" 12 uint8 one "%"
          ∷ field "pump_speed_r20" 13 uint8 one "%"
          ∷ field "pump_speed_r21" 14 uint8 one "%"
          ∷ field "pump_speed_r22" 15 uint8 one "%"
          ∷ field "pump_speed_r23" 16 uint8 one "%"
          ∷ [])
      ∷ entry 0x7334 0x0010 0x0100 "0x7334" (
          field "temperature_sensor_29" 0 int16 tenth " °C"
          ∷ field "temperature_sensor_30" 2 int16 tenth " °C"
          ∷ field "temperature_sensor_31" 4 int16 tenth " °C"
          ∷ field "temperature_sensor_32" 6 int16 tenth " °C"
          ∷ field "temperature_sensor_33" 8 int16 tenth " °C"
          ∷ field "temperature_sensor_34" 10 int16 tenth " °C"
          ∷ field "pump_speed_r24" 12 uint8 one "%"
          ∷ field "pump_speed_r25" 13 uint8 one "%"
          ∷ field "pump_speed_r26" 14 uint8 one "%"
          ∷ field "pump_speed_r27" 15 uint8 one "%"
          ∷ field "pump_speed_r28" 16 uint8 one "%"
          ∷ [])
      ∷ entry 0x7335 0x0010 0x0100 "0x7335" (
          field "temperature_sensor_35" 0 int16 tenth " °C"
          ∷ field "temperature_sensor_36" 2 int16 tenth " °C"
          ∷ field "temperature_sensor_37" 4 int16 tenth " °C"
          ∷ field "temperature_sensor_38" 6 int16 tenth " °C"
          ∷ field "temperature_sensor_39" 8 int16 tenth " °C"
          ∷ field "temperature_sensor_40" 10 int16 tenth " °C"
          ∷ field "pump_speed_r29" 12 uint8 one "%"
          ∷ field "pump_speed_r30" 13 uint8 one "%"
          ∷ field "pump_speed_r31" 14 uint8 one "%"
          ∷ field "pump_speed_r32" 15 uint8 one "%"
          ∷ field "pump_speed_r33" 16 uint8 one "%"
          ∷ [])
      ∷ entry 0x7341 0x0010 0x0100 "0x7341" (
          field "s1_sf_k" 0 int16 tenth " °C"
          ∷ field "s2_sf_1" 2 int16 tenth " °C"
          ∷ field "s3_sf_2" 4 int16 tenth " °C"
          ∷ field "s4_sf_3_wt_f_rla1_rlu1" 6 int16 tenth " °C"
          ∷ field "s5_fn_hk_f_rla2" 8 int16 tenth " °C"
          ∷ field "s6_fn_ww_bf_sf_wt" 10 int16 tenth " °C"
          ∷ field "s7_fn_k2" 12 int16 tenth " °C"
          ∷ field "s8_fz" 14 int16 tenth " °C"
          ∷ field "s9_af" 16 int16 tenth " °C"
          ∷ field "s10_vl_f1" 18 int16 tenth " °C"
          ∷ field "s11_fv_1" 20 int16 tenth " °C"
          ∷ field "s12_vl_f2_wa_1_sf_4_f_rlu1" 22 int16 tenth " °C"
          ∷ field "s13_fv_2_wa_2_sf_wt" 24 int16 tenth " °C"
          ∷ field "s14_kf_1_kf_nh" 26 int16 tenth " °C"
          ∷ field "s15_kf_2_sf_k2" 28 int16 tenth " °C"
          ∷ field "s16_bf_bf_1_f_rlu2" 30 int16 tenth " °C"
          ∷ field "sensorvolume_flowreglergas1totalwertl" 32 uint32 one " l"
          ∷ field "sensorvolume_flowreglergas2totalwertl" 36 uint32 one " l"
          ∷ field "sensorvolume_flowreglergds1totalwertl" 40 uint32 one " l"
          ∷ field "sensorvolume_flowreglergds2totalwertl" 44 uint32 one " l"
          ∷ field "sensorreglerdruckgas1wertbar" 48 int16 hundredth " bar"
          ∷ field "sensorreglerdruckgas2wertbar" 50 int16 hundredth " bar"
          ∷ field "sensorreglerdruckgds1wertbar" 52 int16 hundredth " bar"
          ∷ field "sensorreglerdruckgds2wertbar" 54 int16 hundredth " bar"
          ∷ field "r1_sp_1" 56 int16 one "%"
          ∷ field "r2_sp_2" 57 int16 one "%"
          ∷ field "r3_blp_1" 58 int16 one "%"
          ∷ field "r4_sv1_v_rlu" 59 int16 one "%"
          ∷ field "r5_hkp1" 60 int16 one "%"
          ∷ field "r6_mv_1_auf" 61 int16 one "%"
          ∷ field "r7_mv_1_zu" 62 int16 one "%"
          ∷ field "r8_klp_1_hkp_2" 63 int16 one "%"
          ∷ field "r9_klp_2_sp_3" 64 int16 one "%"
          ∷ field "r10_sv_2_hkp_2_v_rl" 65 int16 one "%"
          ∷ field "r11_mv_2_auf_blp_2_sv_3" 66 int16 one "%"
          ∷ field "r12_mv_2_zu_sv_3_v_rlu" 67 int16 one "%"
          ∷ field "r13_zp" 68 int16 one "%"
          ∷ field "r14_rp" 69 int16 one "%"
          ∷ field "hc1tflowset" 72 int16 tenth " °C"
          ∷ field "hc2tflowset" 74 int16 tenth " °C"
          ∷ field "hc3tflowset" 76 int16 tenth " °C"
          ∷ field "hc4tflowset" 78 int16 tenth " °C"
          ∷ field "hc5tflowset" 80 int16 tenth " °C"
          ∷ field "swflset" 82 int16 tenth " °C"
          ∷ field "wmz1valuewh" 84 uint32 one " Wh"
          ∷ field "wmz2valuewh" 88 uint32 one " Wh"
          ∷ field "system_date" 92 uint32 one ""
          ∷ field "sensorbenutzt_bit_031" 96 uint32 one ""
          ∷ field "sensorbenutzt_bit_3163" 100 uint32 one ""
          ∷ field "error_sensorbruch_bit_031" 104 uint32 one ""
          ∷ field "error_sensorbruch_bit_3163" 108 uint32 one ""
          ∷ field "error_sensorkurzschluss_bit_031" 112 uint32 one ""
          ∷ field "error_sensorkurzschluss_bit_3163" 116 uint32 one ""
          ∷ field "errormask" 120 uint16 one ""
          ∷ field "warningmask" 122 uint16 one ""
          ∷ field "systemflowparameteraenderungen" 124 uint16 one ""
          ∷ [])
      ∷ entry 0x7342 0x0010 0x0100 "0x7342" (
          field "temperature_sensor_1" 0 int16 tenth " °C"
          ∷ field "temperature_sensor_2" 2 int16 tenth " °C"
          ∷ field "temperature_sensor_3" 4 int16 tenth " °C"
          ∷ field "temperature_sensor_4" 6 int16 tenth " °C"
          ∷ field "temperature_sensor_5" 8 int16 tenth " °C"
          ∷ field "temperature_sensor_6" 10 int16 tenth " °C"
          ∷ field "pump_speed_r1" 12 uint8 one "%"
          ∷ field "pump_speed_r2" 13 uint8 one "%"
          ∷ field "pump_speed_r3" 14 uint8 one "%"
          ∷ field "pump_speed_r4" 15 uint8 one "%"
          ∷ field "pump_speed_r5" 16 uint8 one "%"
          ∷ [])
      ∷ []
