-- ===== src/Vbus/Hex.antt =====
-- `fmt.Sprintf("%04X", w)` at a uint16, as parser.go, registry.go and the MQTT client write
-- addresses.
use Prim.Native.Char.{Char, code}
use Prim.Native.String.{String, [], ◌∷◌}
use vbus2mqtt.Prelude.{
  ℕ, ◌+◌, ◌-◌, ◌*◌, ◌/◌, ◌%◌, ◌^◌, ◌<◌, ◌≡◌, refl, sym, ap, ◌∙◌, arith, ltb, ◌==◌, if◌then◌else◌,
}
use vbus2mqtt.Prelude.Bits.{agree_below, agree_below→eq}

pub hex_digit : ℕ → Char
hex_digit d =
    if d == 0
    then "0"
    else if d == 1
    then "1"
    else if d == 2
    then "2"
    else if d == 3
    then "3"
    else if d == 4
    then "4"
    else if d == 5
    then "5"
    else if d == 6
    then "6"
    else if d == 7
    then "7"
    else if d == 8
    then "8"
    else if d == 9
    then "9"
    else if d == 10
    then "A"
    else if d == 11
    then "B"
    else if d == 12
    then "C"
    else if d == 13
    then "D"
    else if d == 14
    then "E"
    else "F"

-- Four digits hold every uint16.
unfoldable pub hex4 : ℕ → String
hex4 w =
    hex_digit (w / 4096 % 16)
    ∷ hex_digit (w / 256 % 16)
    ∷ hex_digit (w / 16 % 16)
    ∷ hex_digit (w % 16)
    ∷ []

-- The number that a text of hexadecimal digits stands for.
abbrev digit_value : ℕ → ℕ
digit_value k = if ltb k b'A' then k - b'0' else k - b'A' + 10

pub hex_value : ℕ → String → ℕ
hex_value acc [] = acc
hex_value acc (c ∷ s) = hex_value (acc * 16 + digit_value (code c)) s

digit_value-hex_digit : (d : ℕ) → d < 16 → digit_value (code (hex_digit d)) ≡ d
unfolding agree_below hex_digit
digit_value-hex_digit = agree_below→eq _ _ 16 refl

-- The four digits of a uint16 stand for it.
pub hex_value-hex4 : (w : ℕ) → w < 2 ^ 16 → hex_value 0 (hex4 w) ≡ w
unfolding hex_value hex4
hex_value-hex4 w h =
    rw
      (
        digit_value-hex_digit (w / 4096 % 16) (omega arith),
        digit_value-hex_digit (w / 256 % 16) (omega arith),
        digit_value-hex_digit (w / 16 % 16) (omega arith),
        digit_value-hex_digit (w % 16) (omega arith),
      )
      (omega arith)

-- Different addresses are written differently.
pub hex4-injective : (v w : ℕ) → v < 2 ^ 16 → w < 2 ^ 16 → hex4 v ≡ hex4 w → v ≡ w
hex4-injective v w hv hw e = sym (hex_value-hex4 v hv) ∙ ap (hex_value 0) e ∙ hex_value-hex4 w hw
