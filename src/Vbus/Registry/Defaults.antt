-- ===== src/Vbus/Registry/Defaults.antt =====
-- internal/vbus/registry_custom.go and the `init` functions of both tables. The files are
-- initialised in the order of their names: the custom table first.
use vbus2mqtt.Prelude.{ℕ, ◌≡◌, [], ◌∷◌, Option-cases, inl, inr, none, some, arith, or_else}
use vbus2mqtt.Vbus.Double.{Double, one, tenth}
use vbus2mqtt.Vbus.Registry.{
  int16, uint8, uint16, uint32, Registry, entry, field, find, lookup, pkey,
}
use vbus2mqtt.Vbus.Registry.Generated.{generated_registry}

module _ {W : Type 0} ⦃d : Double W⦄ where
  -- `customRegistry`
  unfoldable pub custom_registry : Registry W
  custom_registry =
      entry 0x4278 0x0010 0x0100 "DeltaSol BS2" (
        field "temp_sensor1" 0 int16 tenth "°C"
        ∷ field "temp_sensor2" 2 int16 tenth "°C"
        ∷ field "temp_sensor3" 4 int16 tenth "°C"
        ∷ field "temp_sensor4" 6 int16 tenth "°C"
        ∷ field "pump_speed_1" 8 uint8 one "%"
        ∷ field "pump_speed_2" 9 uint8 one "%"
        ∷ field "relay_mask" 10 uint16 one ""
        ∷ field "error_mask" 12 uint16 one ""
        ∷ field "operating_hours_1" 14 uint32 one "h"
        ∷ field "operating_hours_2" 18 uint32 one "h"
        ∷ field "heat_quantity" 22 uint32 one "Wh"
        ∷ [])
      ∷ []

module _ {W : Type 0} where
  -- `for k, v := range customRegistry { DefaultRegistry[k] = v }`
  unfoldable pub overwrite_all : Registry W → Registry W → Registry W
  overwrite_all [] reg = reg
  overwrite_all ((k, v) ∷ table) reg = overwrite_all table ((k, v) ∷ reg)

  -- `for k, v := range generatedRegistry`, with the test whether `k` exists.
  unfoldable pub add_missing : Registry W → Registry W → Registry W
  add_missing [] reg = reg
  add_missing ((k, v) ∷ table) reg =
      add_missing table (elim (find k reg) [ none ↦ (k, v) ∷ reg | some _ ↦ reg ])

  find-add_missing :
      (table reg : Registry W) (key : ℕ)
      → find key (add_missing table reg) ≡ or_else (find key reg) (find key table)
  unfolding add_missing find
  find-add_missing [] reg key = ground arith
  find-add_missing ((k, v) ∷ table) reg key = elim (Option-cases (find k reg)) [
    | inl new ↦ ground (arith, new, find-add_missing table ((k, v) ∷ reg) key)
    | inr (old, e) ↦ ground (arith, e, find-add_missing table reg key)
  ]

-- `DefaultRegistry` once both `init` functions have run.
module _ {W : Type 0} ⦃d : Double W⦄ where
  unfoldable pub default_registry : Registry W
  default_registry = add_missing generated_registry (overwrite_all custom_registry [])

  -- A packet of the custom table is found under its addresses, whatever the generated table holds
  -- for them; under any other addresses the packet of the generated table is found.
  pub lookup-default_registry :
      (src dst cmd : ℕ)
      → lookup default_registry src dst cmd
        ≡ or_else (lookup custom_registry src dst cmd) (lookup generated_registry src dst cmd)
  unfolding lookup default_registry overwrite_all custom_registry
  lookup-default_registry src dst cmd =
      find-add_missing generated_registry (overwrite_all custom_registry []) (pkey src dst cmd)
