-- ===== src/Config/Env.antt =====
-- `Load` and its helpers in internal/config/config.go.
use Prim.Native.Char.{code}
use Prim.Native.String.{String}
use text.Mathlib.Text.{◌==◌ as str_eq}
use vbus2mqtt.Prelude.{
  ℕ, zero, suc, ◌+◌, ◌-◌, ◌*◌, ◌%◌, ◌^◌, Bool, true, false, ◌&&◌, ◌||◌, Option, none, some, ltb,
  leb, ◌==◌, if◌then◌else◌,
}
use vbus2mqtt.Prelude.Int.{ℤ, pos, negsuc}
use vbus2mqtt.Config.{Config, Durations}

-- `os.Getenv`: the empty text where a variable is not set.
abbrev pub Environment : Type 0
Environment = String → String

-- The digits of a decimal number, read from the front.
unfoldable pub read_digits : ℕ → String → Option ℕ
read_digits acc String.[] = some acc
read_digits acc (String.◌∷◌ c s) =
    let rest = read_digits (acc * 10 + (code c - b'0')) s in
    if leb b'0' (code c) && leb (code c) b'9' then rest else none

-- At least one digit.
unfoldable pub read_number : String → Option ℕ
read_number String.[] = none
read_number (String.◌∷◌ c s) = read_digits 0 (String.◌∷◌ c s)

-- The integer with a sign, if it fits in 64 bits.
unfoldable pub in_int64 : Bool → Option ℕ → Option ℤ
in_int64 minus none = none
in_int64 false (some n) = if ltb n (2 ^ 63) then some (pos n) else none
in_int64 true (some zero) = some (pos 0)
in_int64 true (some (suc n)) = if ltb n (2 ^ 63) then some (negsuc n) else none

-- `strconv.Atoi`
unfoldable pub atoi : String → Option ℤ
atoi String.[] = none
atoi (String.◌∷◌ c s) =
    if code c == b'-'
    then in_int64 true (read_number s)
    else if code c == b'+'
    then in_int64 false (read_number s)
    else in_int64 false (read_number (String.◌∷◌ c s))

-- `strconv.ParseBool`
unfoldable pub parse_bool : String → Option Bool
parse_bool v =
    if str_eq v "1"
      || str_eq v "t"
      || str_eq v "T"
      || str_eq v "TRUE"
      || str_eq v "true"
      || str_eq v "True"
    then some true
    else if str_eq v "0"
        || str_eq v "f"
        || str_eq v "F"
        || str_eq v "FALSE"
        || str_eq v "false"
        || str_eq v "False"
    then some false
    else none

-- `byte(i)` of an int.
unfoldable pub to_byte : ℤ → ℕ
to_byte (pos n) = n % 256
to_byte (negsuc n) = 255 - n % 256

module _ (getenv : Environment) where
  -- `env`
  unfoldable pub env : String → String → String
  env key default = if str_eq (getenv key) "" then default else getenv key

  -- What `envInt`, `envBool` and `envDuration` have in common: the parsed value, and the default
  -- where the variable is not set or cannot be parsed.
  abbrev pub env_parsed : {A : Type 0} → (String → Option A) → String → A → A
  env_parsed parse key default =
      if str_eq (getenv key) ""
      then default
      else elim (parse (getenv key)) [ none ↦ default | some v ↦ v ]

  -- `envInt`
  unfoldable pub env_int : String → ℤ → ℤ
  env_int = env_parsed atoi

  -- `envBool`
  unfoldable pub env_bool : String → Bool → Bool
  env_bool = env_parsed parse_bool

  -- `envDuration`
  unfoldable pub env_duration : Durations → String → ℤ → ℤ
  env_duration t = env_parsed t.parse

  -- `Load`
  unfoldable pub load : Durations → Config
  load t = record {
    serial_port = env "SERIAL_PORT" "";
    baud_rate = env_int "SERIAL_BAUD" (pos 9600);
    mqtt_broker = env "MQTT_BROKER" "tcp://localhost:1883";
    mqtt_topic_prefix = env "MQTT_TOPIC_PREFIX" "vbus";
    mqtt_user = env "MQTT_USER" "";
    mqtt_pass = env "MQTT_PASS" "";
    mqtt_retain = env_bool "MQTT_RETAIN" true;
    mqtt_qos = to_byte (env_int "MQTT_QOS" (pos 0));
    mqtt_ha_discovery = env_bool "MQTT_HA_DISCOVERY" false;
    mqtt_ha_discovery_prefix = env "MQTT_HA_DISCOVERY_PREFIX" "homeassistant";
    publish_interval = env_duration t "PUBLISH_INTERVAL" (pos 30_000_000_000);
    log_level = env "LOG_LEVEL" "info";
    log_format = env "LOG_FORMAT" "json";
    web_addr = env "WEB_ADDR" ":8080";
    web_user = env "WEB_USER" "";
    web_pass = env "WEB_PASS" "";
    config_file = env "CONFIG_FILE" "/data/config.json";
  }
