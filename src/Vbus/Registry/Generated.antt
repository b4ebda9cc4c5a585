-- ===== src/Vbus/Registry/Generated.antt =====
-- `generatedRegistry` of internal/vbus/registry_gen.go, in the order of the file.
mod From0053
mod From1052
mod From105B
mod From1100
mod From1121
mod From1150
mod From1170
mod From1270
mod From1410
mod From1632
mod From1961
mod From1A33
mod From1A60
mod From1A74
mod From1F61
mod From2232
mod From2271
mod From2373
mod From3251
mod From4111
mod From4231
mod From4278
mod From4A00
mod From5251
mod From6610
mod From7140
mod From7179
mod From7311
mod From7332
mod From7343
mod From7352
mod From7428
mod From7521
mod From7611
mod From7721
mod From7761
mod From7840
mod From7E11
mod From7F63
use vbus2mqtt.Prelude.{List, ◌++◌}
use vbus2mqtt.Vbus.Double.{Double}
use vbus2mqtt.Vbus.Registry.{Registry}
use vbus2mqtt.Vbus.Registry.Generated.From0053.{packets_from_0053}
use vbus2mqtt.Vbus.Registry.Generated.From1052.{packets_from_1052}
use vbus2mqtt.Vbus.Registry.Generated.From105B.{packets_from_105b}
use vbus2mqtt.Vbus.Registry.Generated.From1100.{packets_from_1100}
use vbus2mqtt.Vbus.Registry.Generated.From1121.{packets_from_1121}
use vbus2mqtt.Vbus.Registry.Generated.From1150.{packets_from_1150}
use vbus2mqtt.Vbus.Registry.Generated.From1170.{packets_from_1170}
use vbus2mqtt.Vbus.Registry.Generated.From1270.{packets_from_1270}
use vbus2mqtt.Vbus.Registry.Generated.From1410.{packets_from_1410}
use vbus2mqtt.Vbus.Registry.Generated.From1632.{packets_from_1632}
use vbus2mqtt.Vbus.Registry.Generated.From1961.{packets_from_1961}
use vbus2mqtt.Vbus.Registry.Generated.From1A33.{packets_from_1a33}
use vbus2mqtt.Vbus.Registry.Generated.From1A60.{packets_from_1a60}
use vbus2mqtt.Vbus.Registry.Generated.From1A74.{packets_from_1a74}
use vbus2mqtt.Vbus.Registry.Generated.From1F61.{packets_from_1f61}
use vbus2mqtt.Vbus.Registry.Generated.From2232.{packets_from_2232}
use vbus2mqtt.Vbus.Registry.Generated.From2271.{packets_from_2271}
use vbus2mqtt.Vbus.Registry.Generated.From2373.{packets_from_2373}
use vbus2mqtt.Vbus.Registry.Generated.From3251.{packets_from_3251}
use vbus2mqtt.Vbus.Registry.Generated.From4111.{packets_from_4111}
use vbus2mqtt.Vbus.Registry.Generated.From4231.{packets_from_4231}
use vbus2mqtt.Vbus.Registry.Generated.From4278.{packets_from_4278}
use vbus2mqtt.Vbus.Registry.Generated.From4A00.{packets_from_4a00}
use vbus2mqtt.Vbus.Registry.Generated.From5251.{packets_from_5251}
use vbus2mqtt.Vbus.Registry.Generated.From6610.{packets_from_6610}
use vbus2mqtt.Vbus.Registry.Generated.From7140.{packets_from_7140}
use vbus2mqtt.Vbus.Registry.Generated.From7179.{packets_from_7179}
use vbus2mqtt.Vbus.Registry.Generated.From7311.{packets_from_7311}
use vbus2mqtt.Vbus.Registry.Generated.From7332.{packets_from_7332}
use vbus2mqtt.Vbus.Registry.Generated.From7343.{packets_from_7343}
use vbus2mqtt.Vbus.Registry.Generated.From7352.{packets_from_7352}
use vbus2mqtt.Vbus.Registry.Generated.From7428.{packets_from_7428}
use vbus2mqtt.Vbus.Registry.Generated.From7521.{packets_from_7521}
use vbus2mqtt.Vbus.Registry.Generated.From7611.{packets_from_7611}
use vbus2mqtt.Vbus.Registry.Generated.From7721.{packets_from_7721}
use vbus2mqtt.Vbus.Registry.Generated.From7761.{packets_from_7761}
use vbus2mqtt.Vbus.Registry.Generated.From7840.{packets_from_7840}
use vbus2mqtt.Vbus.Registry.Generated.From7E11.{packets_from_7e11}
use vbus2mqtt.Vbus.Registry.Generated.From7F63.{packets_from_7f63}

module _ {W : Type 0} ⦃d : Double W⦄ where
  unfoldable pub generated_registry : Registry W
  unfolding packets_from_0053 packets_from_1052 packets_from_105b packets_from_1100
      packets_from_1121 packets_from_1150 packets_from_1170 packets_from_1270 packets_from_1410
      packets_from_1632 packets_from_1961 packets_from_1a33 packets_from_1a60 packets_from_1a74
      packets_from_1f61 packets_from_2232 packets_from_2271 packets_from_2373 packets_from_3251
      packets_from_4111 packets_from_4231 packets_from_4278 packets_from_4a00 packets_from_5251
      packets_from_6610 packets_from_7140 packets_from_7179 packets_from_7311 packets_from_7332
      packets_from_7343 packets_from_7352 packets_from_7428 packets_from_7521 packets_from_7611
      packets_from_7721 packets_from_7761 packets_from_7840 packets_from_7e11 packets_from_7f63
  generated_registry =
      packets_from_0053
      ++ (packets_from_1052
          ++ (packets_from_105b
              ++ (packets_from_1100
                  ++ (packets_from_1121
                      ++ (packets_from_1150
                          ++ (packets_from_1170
                              ++ (packets_from_1270
                                  ++ (packets_from_1410
                                      ++ (packets_from_1632
                                          ++ (packets_from_1961
                                              ++ (packets_from_1a33
                                                  ++ (packets_from_1a60
                                                      ++ (packets_from_1a74
                                                          ++ (packets_from_1f61
                                                            ++ (packets_from_2232
                                                            ++ (packets_from_2271
                                                            ++ (packets_from_2373
                                                            ++ (packets_from_3251
                                                            ++ (packets_from_4111
                                                            ++ (packets_from_4231
                                                            ++ (packets_from_4278
                                                            ++ (packets_from_4a00
                                                            ++ (packets_from_5251
                                                            ++ (packets_from_6610
                                                            ++ (packets_from_7140
                                                            ++ (packets_from_7179
                                                            ++ (packets_from_7311
                                                            ++ (packets_from_7332
                                                            ++ (packets_from_7343
                                                            ++ (packets_from_7352
                                                            ++ (packets_from_7428
                                                            ++ (packets_from_7521
                                                            ++ (packets_from_7611
                                                            ++ (packets_from_7721
                                                            ++ (packets_from_7761
                                                            ++ (packets_from_7840
                                                            ++ (packets_from_7e11
                                                            ++ (packets_from_7f63))))))))))))))))))))))))))))))))))))))
