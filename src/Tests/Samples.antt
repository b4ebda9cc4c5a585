-- ===== src/Tests/Samples.antt =====
-- Sample values of the parameters: decimals, durations and tables of characters; a sample frame.
use Prim.Native.Char.{Char, code}
use Prim.Native.String.{String}
use vbus2mqtt.Prelude.{
  ℕ, zero, suc, ◌+◌, ◌*◌, ◌/◌, ◌^◌, ◌≡◌, ◌≢◌, refl, ap, Bool, true, false, ◌&&◌, [], ◌∷◌, Option,
  none, some, leb, ◌==◌, if◌then◌else◌,
}
use vbus2mqtt.Prelude.Int.{ℤ, pos, negsuc}
use vbus2mqtt.Config.{Config, Durations, IsDurations}
use vbus2mqtt.Mqtt.Slug.{Unicode, IsUnicode}
use vbus2mqtt.Vbus.Double.{Double}
use vbus2mqtt.Vbus.Frame.{Frame}

-- A decimal: an integer and how many of its digits stand behind the point.
abbrev pub Decimal : Type 0
Decimal = ℤ × ℕ

abbrev signed : Bool → ℕ → ℤ
signed false n = pos n
signed true zero = pos zero
signed true (suc n) = negsuc n

abbrev is_negative : ℤ → Bool
is_negative (pos n) = false
is_negative (negsuc n) = true

abbrev magnitude : ℤ → ℕ
magnitude (pos n) = n
magnitude (negsuc n) = suc n

abbrev differ : Bool → Bool → Bool
differ true true = false
differ true false = true
differ false b = b

abbrev times : ℤ → ℤ → ℤ
times a b = signed (differ (is_negative a) (is_negative b)) (magnitude a * magnitude b)

-- Halves are rounded away from zero.
abbrev rounded : Decimal → Decimal
rounded (n, k) = (signed (is_negative n) ((2 * magnitude n + 10 ^ k) / (2 * 10 ^ k)), 0)

-- Only a hundred divides.
instance abbrev pub decimals : Double Decimal
decimals = record {
  of_ℤ = λ n. (n, 0);
  mul = λ x y. (times x.0 y.0, x.1 + y.1);
  div = λ x y. if magnitude y.0 == 100 then (x.0, x.1 + 2) else x;
  round = rounded;
  pow10_neg = λ n. (pos 1, n);
  is_finite = λ x. true;
}

-- A duration as a sign and strokes.
abbrev strokes : ℕ → String
strokes zero = ""
strokes (suc n) = String.◌∷◌ "1" (strokes n)

abbrev size : String → ℕ
size String.[] = 0
size (String.◌∷◌ c s) = suc (size s)

size-strokes : (n : ℕ) → size (strokes n) ≡ n
size-strokes zero = refl
size-strokes (suc n) = ap suc (size-strokes n)

abbrev print_strokes : ℤ → String
print_strokes (pos n) = String.◌∷◌ "+" (strokes n)
print_strokes (negsuc n) = String.◌∷◌ "-" (strokes n)

abbrev parse_strokes : String → Option ℤ
parse_strokes String.[] = none
parse_strokes (String.◌∷◌ c s) =
    if code c == b'+' then some (pos (size s)) else some (negsuc (size s))

abbrev pub stroke_durations : Durations
stroke_durations = record { parse = parse_strokes; print = print_strokes }

parse-print_strokes : (n : ℤ) → parse_strokes (print_strokes n) ≡ some n
parse-print_strokes (pos n) = ap (λ (k : ℕ). some (pos k)) (size-strokes n)
parse-print_strokes (negsuc n) = ap (λ (k : ℕ). some (negsuc k)) (size-strokes n)

print_strokes-ne : (n : ℤ) → print_strokes n ≢ ""
print_strokes-ne (pos n) = cc
print_strokes-ne (negsuc n) = cc

pub stroke_durations-IsDurations : IsDurations stroke_durations
stroke_durations-IsDurations = record {
  parse-print = parse-print_strokes;
  print-ne = print_strokes-ne;
}

-- Letters and digits of ASCII in lower case.
abbrev within : ℕ → ℕ → Char → Bool
within lo hi c = leb lo (code c) && leb (code c) hi

abbrev pub plain : Unicode
plain = record { to_lower = λ c. c; is_letter = within b'a' b'z'; is_digit = within b'0' b'9' }

pub plain-IsUnicode : IsUnicode plain
plain-IsUnicode = record {
  to_lower_idem = λ c. refl;
  to_lower-underscore = refl;
  is_letter-underscore = refl;
  is_digit-underscore = refl;
}

-- A frame of a DeltaSol BS2: 21.3 degrees at the first sensor.
abbrev pub bs2_frame : Frame
bs2_frame = record {
  destination = 0x0010;
  source = 0x4278;
  command = 0x0100;
  payload = 0xd5 ∷ 0x00 ∷ 0xff ∷ 0xff ∷ [];
}

abbrev pub sample_config : Config
sample_config = record {
  serial_port = "/dev/ttyUSB0";
  baud_rate = pos 9600;
  mqtt_broker = "tcp://localhost:1883";
  mqtt_topic_prefix = "vbus";
  mqtt_user = "solar";
  mqtt_pass = "secret";
  mqtt_retain = true;
  mqtt_qos = 1;
  publish_interval = pos 30_000_000_000;
  log_level = "info";
  log_format = "json";
  mqtt_ha_discovery = true;
  mqtt_ha_discovery_prefix = "homeassistant";
  web_addr = ":8080";
  web_user = "admin";
  web_pass = "pw";
  config_file = "/data/config.json";
}
