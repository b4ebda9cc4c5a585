-- ===== src/Vbus/Registry/Audit.antt =====
-- What holds of every field of the generated table, shown by going through all of its lines.
use vbus2mqtt.Prelude.{
  ℕ, ◌+◌, ◌≤◌, ◌≡◌, refl, ap, ◌∙◌, length, Bool, true, ◌&&◌, List, [], ◌∷◌, some, Bool-cases, inl,
  inr, arith, leb, ◌==◌, All,
}
use mathlib.Core.Path.{subst}
use mathlib.Core.List.{map}
use vbus2mqtt.Vbus.Frame.{Bytes}
use vbus2mqtt.Vbus.Double.{Double}
use vbus2mqtt.Vbus.Registry.{FieldDef, PacketDef, Registry, find, lookup, pkey, extract_fields}
use vbus2mqtt.Vbus.Registry.Fields.{width, is_known, fitting, telemetry, extract_fields_lem}
use vbus2mqtt.Vbus.Registry.Generated.{generated_registry}

module _ {W : Type 0} where
  unfoldable pub all_fields : (FieldDef W → Bool) → List (FieldDef W) → Bool
  all_fields p [] = true
  all_fields p (fd ∷ fds) = p fd && all_fields p fds

  -- A test of every field of a table.
  unfoldable pub all_packets : (FieldDef W → Bool) → Registry W → Bool
  all_packets p [] = true
  all_packets p ((k, def) ∷ reg) = all_fields p def.fields && all_packets p reg

  all_fields-All :
      (p : FieldDef W → Bool) (fds : List (FieldDef W))
      → all_fields p fds ≡ true
      → All (λ fd. p fd ≡ true) fds
  unfolding all_fields
  all_fields-All p [] e = tt
  all_fields-All p (fd ∷ fds) e = (ground arith, all_fields-All p fds (ground arith))

  pub all_packets-find :
      (p : FieldDef W → Bool) (reg : Registry W) (key : ℕ) {def : PacketDef W}
      → all_packets p reg ≡ true
      → find key reg ≡ some def
      → All (λ fd. p fd ≡ true) def.fields
  unfolding all_packets find
  all_packets-find p [] key e f = cc
  all_packets-find p ((k, v) ∷ reg) key {def} e f = elim (Bool-cases (k == key)) [
    | inl here ↦
        subst (λ (fds : List (FieldDef W)). All (λ fd. p fd ≡ true) fds) (ground arith)
          (all_fields-All p v.fields (ground arith))
    | inr elsewhere ↦ all_packets-find p reg key (ground arith) (rw elsewhere at f)
  ]

module _ (W : Type 0) ⦃d : Double W⦄ where
  in_bounds : FieldDef W → Bool
  in_bounds fd = is_known fd.type && leb (fd.offset + width fd.type) 196

  in_bounds_table : all_packets in_bounds (generated_registry {W = W}) ≡ true
  unfolding all_packets all_fields in_bounds generated_registry
  in_bounds_table = refl

  in_bounds-known :
      (fd : FieldDef W)
      → in_bounds fd ≡ true
      → (is_known fd.type ≡ true) × (fd.offset + width fd.type ≤ 196)
  unfolding in_bounds
  in_bounds-known fd e = ground arith

  fitting_all :
      (payload : Bytes) (fds : List (FieldDef W))
      → 196 ≤ length payload
      → All (λ fd. in_bounds fd ≡ true) fds
      → fitting payload fds ≡ fds
  unfolding fitting
  fitting_all payload [] h k = refl
  fitting_all payload (fd ∷ fds) h k =
      ground (arith, in_bounds-known fd k.0, fitting_all payload fds h k.1)

  -- A packet of the generated table loses no field to a payload of 196 bytes or more: every field of
  -- it has a type that the decoder knows, lies within those bytes, and is decoded, in order.
  pub generated_registry_decodes :
      (src dst cmd : ℕ) (payload : Bytes) {def : PacketDef W}
      → lookup generated_registry src dst cmd ≡ some def
      → 196 ≤ length payload
      → extract_fields payload def.fields ≡ map (telemetry payload) def.fields
  unfolding lookup
  generated_registry_decodes src dst cmd payload {def} e h =
      extract_fields_lem payload def.fields
      ∙ ap (map (telemetry payload)) (
          fitting_all payload def.fields h
            (all_packets-find in_bounds generated_registry (pkey src dst cmd) in_bounds_table e))
