-- ===== src/Config.antt =====
-- internal/config/config.go: the configuration, and its values from the environment.
pub mod Env
pub mod Store
use Prim.Native.String.{String}
use vbus2mqtt.Prelude.{ℕ, Bool, Option, some, ◌≡◌, ◌≢◌}
use vbus2mqtt.Prelude.Int.{ℤ}

-- `Config`. A `time.Duration` is its number of nanoseconds.
pub record Config : Type 0 where
  pub serial_port : String
  pub baud_rate : ℤ
  pub mqtt_broker : String
  pub mqtt_topic_prefix : String
  pub mqtt_user : String
  pub mqtt_pass : String
  pub mqtt_retain : Bool
  pub mqtt_qos : ℕ
  pub publish_interval : ℤ
  pub log_level : String
  pub log_format : String
  pub mqtt_ha_discovery : Bool
  pub mqtt_ha_discovery_prefix : String
  pub web_addr : String
  pub web_user : String
  pub web_pass : String
  pub config_file : String

-- The text form of durations, which the standard library implements: `time.ParseDuration` and
-- `Duration.String`.
pub record Durations : Type 0 where
  pub parse : String → Option ℤ
  pub print : ℤ → String

-- What the program relies on: a printed duration is read back, and its text is not empty.
pub record IsDurations (t : Durations) : Type 0 where
  pub parse-print : (n : ℤ) → t.parse (t.print n) ≡ some n
  pub print-ne : (n : ℤ) → t.print n ≢ ""
