-- ===== src/Generator/Table.antt =====
-- What every entry of a generated table has.
use Prim.Native.String.{[]}
use mathlib.Core.List.{[] as nil, ◌∷◌ as cons}
use mathlib.Core.Path.{ap₂}
use vbus2mqtt.Prelude.{
  ℕ, ◌≡◌, ◌≢◌, true, false, Bool-cases, inl, inr, List, Option-cases, some, All, arith,
}
use vbus2mqtt.Mqtt.Slug.{Unicode, IsUnicode}
use vbus2mqtt.Vbus.Double.{Double}
use vbus2mqtt.Vbus.Registry.{FieldType, FieldDef, PacketDef, pkey}
use vbus2mqtt.Vbus.Registry.Fields.{is_known}
use vbus2mqtt.Generator.{
  VsPart, VsField, VsPacket, map_parts, map_field, field_lines, is_skipped, add_lines, generate,
}
use vbus2mqtt.Generator.Names.{to_go_field_name_lem}

map_parts-known :
    (ps : List VsPart) {type : FieldType} {offset : ℕ}
    → map_parts ps ≡ some (type, offset)
    → is_known type ≡ true
unfolding map_parts
map_parts-known nil e = cc
map_parts-known (cons p nil) {type} e = ground arith
map_parts-known (cons p (cons q nil)) {type} e = ground arith
map_parts-known (cons p (cons q (cons r nil))) e = cc
map_parts-known (cons p (cons q (cons r (cons s nil)))) {type} e = ground arith
map_parts-known (cons p (cons q (cons r (cons s (cons t ps))))) e = cc

module _ {W : Type 0} where
  -- The decoder knows the type of the field, and the field has a name.
  abbrev pub IsLine : FieldDef W → Type 0
  IsLine fd = (is_known fd.type ≡ true) × (fd.name ≢ [])

  -- A standard broadcast with a field at least.
  abbrev pub IsEntry : ℕ × PacketDef W → Type 0
  IsEntry e =
      ((src : ℕ) × (e.0 ≡ pkey src 0x0010 0x0100)) × (e.1.fields ≢ nil) × All IsLine e.1.fields

module _ (W : Type 0) ⦃d : Double W⦄ (u : Unicode) (good : IsUnicode u) where
  map_field-known :
      (f : VsField) {type : FieldType} {offset : ℕ} {factor : W}
      → map_field f ≡ some (type, offset, factor)
      → is_known type ≡ true
  unfolding map_field
  map_field-known f {type} e = elim (Option-cases (map_parts f.parts)) [
    | inl bad ↦ cc (rw (bad, map_field) at e)
    | inr ((t, o), found) ↦
        ground (arith, map_parts-known f.parts found, rw (found, map_field) at e)
  ]

  field_lines-IsLine : (fs : List VsField) → All IsLine (field_lines {W = W} u fs)
  unfolding field_lines
  field_lines-IsLine nil = tt
  field_lines-IsLine (cons f fs) = elim (Option-cases (map_field {W = W} f)) [
    | inl bad ↦ rw (bad, All) (field_lines-IsLine fs)
    | inr ((type, offset, factor), found) ↦
        rw (found, All)
          ((map_field-known f found, (to_go_field_name_lem u good f.name).0), field_lines-IsLine fs)
  ]

  standard : (pk : VsPacket) → is_skipped pk ≡ false → (pk.dst ≡ 0x0010) × (pk.cmd ≡ 0x0100)
  unfolding is_skipped
  standard pk s = ground arith

  add_lines-IsEntry :
      (pk : VsPacket) (ls : List (FieldDef W)) (rest : List (ℕ × PacketDef W))
      → is_skipped pk ≡ false
      → All IsLine ls
      → All IsEntry rest
      → All IsEntry (add_lines u pk ls rest)
  unfolding add_lines is_skipped
  add_lines-IsEntry pk nil rest s h k = k
  add_lines-IsEntry pk (cons l ls) rest s h k =
      (((pk.src, let (to, cmd) = standard pk s in ap₂ (pkey pk.src) to cmd), cc, h), k)

  -- Where the underscore is no letter and no digit, every entry of a generated table belongs to a
  -- standard broadcast, to 0x0010 with command 0x0100, and has a field at least; every field of it
  -- has a name and a type that the decoder knows.
  pub generate-IsEntry : (pks : List VsPacket) → All IsEntry (generate {W = W} u pks)
  unfolding generate
  generate-IsEntry nil = tt
  generate-IsEntry (cons pk pks) = elim (Bool-cases (is_skipped pk)) [
    | inl skipped ↦ rw (skipped, All) (generate-IsEntry pks)
    | inr used ↦
        rw (used, All)
          (add_lines-IsEntry pk (field_lines u pk.fields) (generate u pks) used
            (field_lines-IsLine pk.fields) (generate-IsEntry pks))
  ]
