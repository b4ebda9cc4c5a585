-- ===== src/Mqtt/Classes/Units.antt =====
-- The classes of the units that stand in the generated table of devices.
use text.Mathlib.Text.{◌==◌ as str_eq}
use text.Mathlib.TextEquality.{eq_iff}
use vbus2mqtt.Prelude.{ℕ, ◌≡◌, refl, Bool, true, ◌&&◌, some, arith, All, All-map}
use vbus2mqtt.Vbus.Double.{Double}
use vbus2mqtt.Vbus.Registry.{FieldDef, PacketDef, lookup, pkey}
use vbus2mqtt.Vbus.Registry.Audit.{all_fields, all_packets, all_packets-find}
use vbus2mqtt.Vbus.Registry.Generated.{generated_registry}
use vbus2mqtt.Mqtt.Classes.{ha_class_from_unit}

module _ (W : Type 0) ⦃d : Double W⦄ where
  is_unclassified : FieldDef W → Bool
  is_unclassified fd =
      str_eq (ha_class_from_unit fd.unit).0 ""
      && str_eq (ha_class_from_unit fd.unit).1 "measurement"

  is_unclassified-eq :
      (fd : FieldDef W)
      → is_unclassified fd ≡ true
      → ha_class_from_unit fd.unit ≡ ("", "measurement")
  unfolding is_unclassified
  is_unclassified-eq fd e = ground (
    arith,
    eq_iff (ha_class_from_unit fd.unit).0 "",
    eq_iff (ha_class_from_unit fd.unit).1 "measurement",
  )

  is_unclassified_table : all_packets is_unclassified (generated_registry {W = W}) ≡ true
  unfolding all_packets all_fields is_unclassified ha_class_from_unit generated_registry
  is_unclassified_table = refl

  -- No field of any packet of the generated table gets a device class, whatever its unit, and each gets
  -- the state class of a measurement.
  pub generated_registry_unclassified :
      (src dst cmd : ℕ) {def : PacketDef W}
      → lookup generated_registry src dst cmd ≡ some def
      → All (λ fd. ha_class_from_unit fd.unit ≡ ("", "measurement")) def.fields
  unfolding lookup
  generated_registry_unclassified src dst cmd {def} e = All-map def.fields is_unclassified-eq (
      all_packets-find is_unclassified generated_registry (pkey src dst cmd) is_unclassified_table
        e)
