-- ===== src/Generator/Fields.antt =====
-- What `mapField` makes of a field, against the value that the specification gives its parts.
use mathlib.Core.Path.{ap₂}
use vbus2mqtt.Prelude.{
  ◌∙◌, ℕ, ◌+◌, ◌*◌, ◌≡◌, true, List, [], ◌∷◌, some, get_or, take, drop, length, arith,
}
use vbus2mqtt.Prelude.Int.{pos_part}
use vbus2mqtt.Vbus.Frame.{Bytes}
use vbus2mqtt.Vbus.Registry.{FieldType}
use vbus2mqtt.Vbus.Registry.Fields.{width, little_endian, read_two, read_four}
use vbus2mqtt.Generator.{VsPart, map_parts, has_factor}

-- The parts lie one behind the other from an offset on.
abbrev pub Consecutive : ℕ → List VsPart → Type 0
Consecutive off [] = Unit
Consecutive off (p ∷ ps) = (p.offset ≡ off) × Consecutive (off + 1) ps

-- The sum of the parts' bytes, each by its factor.
abbrev pub weighted : Bytes → List VsPart → ℕ
weighted payload [] = 0
weighted payload (p ∷ ps) = get_or payload p.offset 0 * pos_part p.raw_factor + weighted payload ps

has_factor_lem : (n : ℕ) (p : VsPart) → has_factor n p ≡ true → pos_part p.raw_factor ≡ n
has_factor_lem n p e = ground arith

two_parts :
    (p q : VsPart) {type : FieldType} {offset : ℕ}
    → map_parts (p ∷ q ∷ []) ≡ some (type, offset)
    → (has_factor 1 p ≡ true) × (has_factor 256 q ≡ true) × (width type ≡ 2) × (offset ≡ p.offset)
unfolding map_parts
two_parts p q {type} {offset} e = ground arith

four_parts :
    (p q r s : VsPart) {type : FieldType} {offset : ℕ}
    → map_parts (p ∷ q ∷ r ∷ s ∷ []) ≡ some (type, offset)
    → (has_factor 1 p ≡ true)
      × (has_factor 256 q ≡ true)
      × (has_factor 65536 r ≡ true)
      × (has_factor 16777216 s ≡ true)
      × (width type ≡ 4)
      × (offset ≡ p.offset)
unfolding map_parts
four_parts p q r s {type} {offset} e = ground arith

-- A field with more than one part: where its parts lie one behind the other, the registry's type and
-- offset name exactly their bytes, and the number read there is the sum that the parts give.
pub map_parts_lem :
    (payload : Bytes) (p q : VsPart) (ps : List VsPart) {type : FieldType} {offset : ℕ}
    → map_parts (p ∷ q ∷ ps) ≡ some (type, offset)
    → Consecutive p.offset (p ∷ q ∷ ps)
    → (width type ≡ length (p ∷ q ∷ ps))
      × (offset ≡ p.offset)
      × (little_endian (take (width type) (drop offset payload)) ≡ weighted payload (p ∷ q ∷ ps))
unfolding map_parts
map_parts_lem payload p q [] {type} {offset} e (_, (at, _)) =
    let (fp, fq, two, off) = two_parts p q e in
    (
      two,
      off,
      ap₂ (λ (w o : ℕ). little_endian (take w (drop o payload))) two off
          ∙ read_two payload p.offset
          ∙ rw (has_factor_lem 1 p fp, has_factor_lem 256 q fq, at) (omega arith),
    )
map_parts_lem payload p q (r ∷ []) e c = cc
map_parts_lem payload p q (r ∷ s ∷ []) {type} {offset} e (_, (at_q, (in_r, (in_s, _)))) =
    let at_r : r.offset ≡ p.offset + 2 = omega arith in
    let at_s : s.offset ≡ p.offset + 3 = omega arith in
    let (fp, fq, fr, fs, four, off) = four_parts p q r s e in
    (
      four,
      off,
      ap₂ (λ (w o : ℕ). little_endian (take w (drop o payload))) four off
          ∙ read_four payload p.offset
          ∙ rw
              (
                has_factor_lem 1 p fp,
                has_factor_lem 256 q fq,
                has_factor_lem 65536 r fr,
                has_factor_lem 16777216 s fs,
                at_q,
                at_r,
                at_s,
              )
              (omega arith),
    )
map_parts_lem payload p q (r ∷ s ∷ t ∷ ps) e c = cc
