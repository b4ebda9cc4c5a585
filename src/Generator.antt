-- ===== src/Generator.antt =====
-- cmd/gen-registry: from the packets of the VSF specification to the lines of the generated table.
-- A line stands as the entry that it makes; the reading of the file's bytes is not here.
pub mod Fields
pub mod Names
pub mod Table
use Prim.Native.Char.{Char, code}
use Prim.Native.String.{String, [], ◌∷◌}
use mathlib.Core.List.{[] as nil, ◌∷◌ as cons}
use vbus2mqtt.Prelude.{
  ℕ, zero, suc, ◌+◌, ◌^◌, Bool, true, false, not, ◌&&◌, ◌||◌, List, Option, none, some, ◌==◌,
  if◌then◌else◌,
}
use vbus2mqtt.Prelude.Int.{ℤ, pos, negsuc}
use vbus2mqtt.Mqtt.Slug.{Unicode, is_underscore, lower, trim_right}
use vbus2mqtt.Vbus.Double.{Double, one}
use vbus2mqtt.Vbus.Registry.{
  FieldType, int16, uint8, uint16, uint32, FieldDef, PacketDef, entry, field,
}

-- `vsPart`, without the factor in floating point, which nothing reads.
pub record VsPart : Type 0 where
  pub offset : ℕ
  pub bit_pos : ℤ
  pub mask : ℕ
  pub is_signed : Bool
  pub raw_factor : ℤ

-- `vsField` and `vsPacket`, without the identifiers that nothing reads.
pub record VsField : Type 0 where
  pub name : String
  pub unit_text : String
  pub precision : ℤ
  pub parts : List VsPart

pub record VsPacket : Type 0 where
  pub dst : ℕ
  pub dst_mask : ℕ
  pub src : ℕ
  pub src_mask : ℕ
  pub cmd : ℕ
  pub name : String
  pub fields : List VsField

-- `p.rawFactor == n`
abbrev pub has_factor : ℕ → VsPart → Bool
has_factor n p = elim p.raw_factor [ pos m ↦ m == n | negsuc m ↦ false ]

abbrev pub is_whole : VsPart → Bool
is_whole p = p.mask == 0xFF

-- `p0.bitPos != 0`
abbrev pub has_bit_pos : VsPart → Bool
has_bit_pos p = elim p.bit_pos [ pos m ↦ not (m == 0) | negsuc m ↦ true ]

-- The `switch` of `mapField` over the number of parts: the type and the offset.
unfoldable pub map_parts : List VsPart → Option (FieldType × ℕ)
map_parts nil = none
map_parts (cons p nil) =
    if has_bit_pos p || (p.mask == 0)
    then none
    else if not (is_whole p)
    then none
    else if p.is_signed
    then some (int16, p.offset)
    else some (uint8, p.offset)
map_parts (cons p (cons q nil)) =
    if not (has_factor 1 p) || not (has_factor 256 q)
    then none
    else if not (is_whole p) || not (is_whole q)
    then none
    else if q.is_signed
    then some (int16, p.offset)
    else some (uint16, p.offset)
map_parts (cons p (cons q (cons r (cons s nil)))) =
    if not (has_factor 1 p) || not (is_whole p)
    then none
    else if not (has_factor 256 q) || not (is_whole q)
    then none
    else if not (has_factor 65536 r) || not (is_whole r)
    then none
    else if not (has_factor 16777216 s) || not (is_whole s)
    then none
    else some (uint32, p.offset)
map_parts _ = none

module _ {W : Type 0} ⦃d : Double W⦄ where
  -- `math.Pow10(-int(f.precision))`
  unfoldable pub scale : ℤ → W
  scale (pos zero) = one
  scale (pos (suc n)) = d.pow10_neg (suc n)
  scale (negsuc n) = d.of_ℤ (pos (10 ^ (n + 1)))

  -- `mapField`: the type, the offset and the factor.
  unfoldable pub map_field : VsField → Option (FieldType × ℕ × W)
  map_field f = elim (map_parts f.parts) [
    | none ↦ none
    | some (type, offset) ↦ some (type, offset, scale f.precision)
  ]

abbrev pub is_separator : Char → Bool
is_separator c = (code c == b' ') || (code c == b'-') || (code c == b'/')

abbrev pub or_field : String → String
or_field [] = "field"
or_field (c ∷ s) = c ∷ s

module _ (u : Unicode) where
  -- One character of the loop of `toGoFieldName`, by whether `prev` is an underscore: what is written,
  -- and whether `prev` is an underscore then.
  unfoldable pub name_step : Bool → Char → Option Char × Bool
  name_step prev c =
      if u.is_letter c || u.is_digit c
      then (some c, is_underscore c)
      else if is_separator c && not prev
      then (some "_", true)
      else (none, prev)

  unfoldable pub name_loop : Bool → String → String
  name_loop prev [] = []
  name_loop prev (c ∷ s) =
      let (written, after) = name_step prev c in
      let rest = name_loop after s in elim written [ none ↦ rest | some x ↦ x ∷ rest ]

  -- `toGoFieldName`
  unfoldable pub to_go_field_name : String → String
  to_go_field_name s = or_field (trim_right (name_loop true (lower u s)))

-- The tests that skip a packet: one without fields, one that is no standard broadcast, a wildcard.
unfoldable pub is_skipped : VsPacket → Bool
is_skipped pk =
    elim pk.fields [ nil ↦ true | cons f fs ↦ false ]
    || not (pk.dst == 0x0010)
    || not (pk.cmd == 0x0100)
    || not (pk.src_mask == 0xFFFF)
    || not (pk.dst_mask == 0xFFFF)

module _ {W : Type 0} ⦃d : Double W⦄ (u : Unicode) where
  -- The lines of a packet's fields: a field that `mapField` refuses has none.
  unfoldable pub field_lines : List VsField → List (FieldDef W)
  field_lines nil = nil
  field_lines (cons f fs) =
      let rest = field_lines fs in
      elim (map_field {W = W} f) [
        | none ↦ rest
        | some (type, offset, factor) ↦
            cons (field (to_go_field_name u f.name) offset type factor f.unit_text) rest
      ]

  unfoldable pub add_lines :
      VsPacket → List (FieldDef W) → List (ℕ × PacketDef W) → List (ℕ × PacketDef W)
  add_lines pk nil rest = rest
  add_lines pk (cons l ls) rest = cons (entry pk.src pk.dst pk.cmd pk.name (cons l ls)) rest

  -- The loop of `generate`.
  unfoldable pub generate : List VsPacket → List (ℕ × PacketDef W)
  generate nil = nil
  generate (cons pk pks) =
      let rest = generate pks in
      if is_skipped pk then rest else add_lines pk (field_lines pk.fields) rest
