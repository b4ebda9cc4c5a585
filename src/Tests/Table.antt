-- ===== src/Tests/Table.antt =====
-- The generator of the table: runs, and its theorems at them.
use mathlib.Core.List.{[] as nil, ◌∷◌ as cons}
use vbus2mqtt.Prelude.{ℕ, ◌≡◌, ◌≢◌, refl, Bool, true, false, some, length, take, drop, All}
use vbus2mqtt.Prelude.Int.{pos}
use vbus2mqtt.Vbus.Double.{tenth}
use vbus2mqtt.Vbus.Frame.{Bytes}
use vbus2mqtt.Vbus.Registry.{int16, entry, field}
use vbus2mqtt.Vbus.Registry.Fields.{width, little_endian}
use vbus2mqtt.Mqtt.Slug.Laws.{EndsClean}
use vbus2mqtt.Mqtt.Slug.{lower, trim_right, cons_trimmed}
use vbus2mqtt.Generator.{
  VsPart, VsField, VsPacket, map_parts, map_field, scale, to_go_field_name, name_loop, name_step,
  field_lines, is_skipped, add_lines, generate,
}
use vbus2mqtt.Generator.Fields.{weighted, map_parts_lem}
use vbus2mqtt.Generator.Names.{starts_with_underscore, NoDouble, to_go_field_name_lem}
use vbus2mqtt.Generator.Table.{IsEntry, generate-IsEntry}
use vbus2mqtt.Tests.Samples.{Decimal, decimals, plain, plain-IsUnicode}

abbrev part : ℕ → ℕ → Bool → VsPart
part offset factor is_signed = record {
  offset = offset;
  bit_pos = pos 0;
  mask = 0xff;
  is_signed = is_signed;
  raw_factor = pos factor;
}

abbrev temperature : VsField
temperature = record {
  name = "flow - temperature 1 ";
  unit_text = " °C";
  precision = pos 1;
  parts = cons (part 4 1 false) (cons (part 5 256 true) nil);
}

abbrev broadcast : VsPacket
broadcast = record {
  dst = 0x0010;
  dst_mask = 0xffff;
  src = 0x4278;
  src_mask = 0xffff;
  cmd = 0x0100;
  name = "0x4278";
  fields = cons temperature nil;
}

generate-broadcast :
    generate {W = Decimal} plain (cons broadcast nil)
    ≡ cons
        (entry 0x4278 0x0010 0x0100 "0x4278"
          (cons (field "flow_temperature_1" 4 int16 tenth " °C") nil))
        nil
unfolding generate is_skipped field_lines add_lines map_field map_parts scale to_go_field_name
    name_loop name_step lower trim_right cons_trimmed
generate-broadcast = refl

-- A signed byte becomes a field of two bytes.
map_parts-signed_byte : map_parts (cons (part 9 1 true) nil) ≡ some (int16, 9)
unfolding map_parts
map_parts-signed_byte = refl

abbrev payload : Bytes
payload = cons 1 (cons 2 (cons 3 (cons 4 (cons 0xd5 (cons 0 nil)))))

map_parts-temperature :
    map_parts (cons (part 4 1 false) (cons (part 5 256 true) nil)) ≡ some (int16, 4)
unfolding map_parts
map_parts-temperature = refl

map_parts_lem_example :
    (width int16 ≡ length (cons (part 4 1 false) (cons (part 5 256 true) nil)))
    × ((part 4 1 false).offset ≡ (part 4 1 false).offset)
    × (little_endian (take (width int16) (drop 4 payload))
        ≡ weighted payload (cons (part 4 1 false) (cons (part 5 256 true) nil)))
map_parts_lem_example =
    map_parts_lem payload (part 4 1 false) (part 5 256 true) nil map_parts-temperature
      (refl, (refl, tt))

to_go_field_name_lem_example :
    (to_go_field_name plain "flow - temperature 1 " ≢ "")
    × (starts_with_underscore (to_go_field_name plain "flow - temperature 1 ") ≡ false)
    × EndsClean (to_go_field_name plain "flow - temperature 1 ")
    × NoDouble (to_go_field_name plain "flow - temperature 1 ")
to_go_field_name_lem_example = to_go_field_name_lem plain plain-IsUnicode "flow - temperature 1 "

generate-IsEntry_example : All IsEntry (generate {W = Decimal} plain (cons broadcast nil))
generate-IsEntry_example = generate-IsEntry Decimal plain plain-IsUnicode (cons broadcast nil)
