-- ===== src/Web/Checks.antt =====
-- Which bodies `handlePutConfig` of internal/web/server.go lets through, and what it makes of them.
use Prim.Native.String.{String}
use text.Mathlib.TextEquality.{eq_iff}
use vbus2mqtt.Prelude.{ℕ, ◌^◌, ◌≤◌, ◌≡◌, ◌≢◌, refl, ◌⊎◌, true, Option, none, some, ap, ◌↔◌, arith}
use vbus2mqtt.Prelude.Int.{ℤ, pos, negsuc, ◌≤ℤ◌}
use vbus2mqtt.Config.{Config, Durations}
use vbus2mqtt.Config.Env.{to_byte}
use vbus2mqtt.Config.Store.{holds, to_persisted}
use vbus2mqtt.Web.{
  ConfigDto, World, apply_dto, is_log_level, is_log_format, check_dto, read_interval,
}

abbrev pub IsLogLevel : String → Type 0
IsLogLevel l = (l ≡ "debug") ⊎ ((l ≡ "info") ⊎ ((l ≡ "warn") ⊎ (l ≡ "error")))

abbrev pub IsLogFormat : String → Type 0
IsLogFormat f = (f ≡ "json") ⊎ (f ≡ "text")

-- A body with which a PUT is to be accepted: a structure whose interval can be read and is a second
-- at least, whose QoS is 0, 1 or 2, and whose log level and format are known.
pub record IsValid (t : Durations) (dto : ConfigDto) : Type 0 where
  pub interval : (n : ℤ) × (t.parse dto.publish_interval ≡ some n) × (pos (10 ^ 9) ≤ℤ n)
  pub qos : (pos 0 ≤ℤ dto.mqtt_qos) × (dto.mqtt_qos ≤ℤ pos 2)
  pub level : IsLogLevel dto.log_level
  pub format : IsLogFormat dto.log_format

abbrev pub IsAcceptable : Durations → Option ConfigDto → Type 0
IsAcceptable t none = ⊥
IsAcceptable t (some dto) = IsValid t dto

-- What an accepted structure makes of the configuration. A password that is empty or `****` keeps
-- the old one.
pub record IsApplied (t : Durations) (dto : ConfigDto) (before after : Config) : Type 0 where
  pub serial_port : after.serial_port ≡ dto.serial_port
  pub baud_rate : after.baud_rate ≡ dto.baud_rate
  pub mqtt_broker : after.mqtt_broker ≡ dto.mqtt_broker
  pub mqtt_topic_prefix : after.mqtt_topic_prefix ≡ dto.mqtt_topic_prefix
  pub mqtt_user : after.mqtt_user ≡ dto.mqtt_user
  pub mqtt_pass :
      ((dto.mqtt_pass ≡ "") ⊎ (dto.mqtt_pass ≡ "****")) × (after.mqtt_pass ≡ before.mqtt_pass)
      ⊎ (dto.mqtt_pass ≢ "") × (dto.mqtt_pass ≢ "****") × (after.mqtt_pass ≡ dto.mqtt_pass)
  pub mqtt_retain : after.mqtt_retain ≡ dto.mqtt_retain
  pub mqtt_qos : pos after.mqtt_qos ≡ dto.mqtt_qos
  pub publish_interval : t.parse dto.publish_interval ≡ some after.publish_interval
  pub log_level : after.log_level ≡ dto.log_level
  pub log_format : after.log_format ≡ dto.log_format
  pub mqtt_ha_discovery : after.mqtt_ha_discovery ≡ before.mqtt_ha_discovery
  pub mqtt_ha_discovery_prefix : after.mqtt_ha_discovery_prefix ≡ before.mqtt_ha_discovery_prefix
  pub web_addr : after.web_addr ≡ before.web_addr
  pub web_user : after.web_user ≡ before.web_user
  pub web_pass : after.web_pass ≡ before.web_pass
  pub config_file : after.config_file ≡ before.config_file

-- How an accepted PUT is answered: with 200 where there is no path or the file holds the new
-- configuration, and with 500 where the file could not be written and is as it was.
abbrev pub IsAnswered : Durations → World → World → ℕ → Type 0
IsAnswered t w w' code =
    (w.store.path ≡ "") × (code ≡ 200) × (w'.disk ≡ w.disk)
    ⊎ ((w.store.path ≢ "") × (code ≡ 200) × (w'.disk.main ≡ holds (to_persisted t w'.store.cfg))
        ⊎ (w.store.path ≢ "") × (code ≡ 500) × (w'.disk.main ≡ w.disk.main))

is_log_level_iff : (l : String) → (is_log_level l ≡ true) ↔ IsLogLevel l
is_log_level_iff l =
    ground (arith, eq_iff l "debug", eq_iff l "info", eq_iff l "warn", eq_iff l "error")

is_log_format_iff : (f : String) → (is_log_format f ≡ true) ↔ IsLogFormat f
is_log_format_iff f = ground (arith, eq_iff f "json", eq_iff f "text")

pub check_dto_qos : (dto : ConfigDto) → check_dto dto ≡ none → to_byte dto.mqtt_qos ≤ 2
unfolding check_dto to_byte
check_dto_qos dto e = ground arith

-- The two texts stay unknown to the tactic.
pub check_dto_texts :
    (dto : ConfigDto)
    → check_dto dto ≡ none
    → (is_log_level dto.log_level ≡ true) × (is_log_format dto.log_format ≡ true)
unfolding check_dto
check_dto_texts dto e = ground arith

check_dto-range :
    (dto : ConfigDto) → check_dto dto ≡ none → (pos 0 ≤ℤ dto.mqtt_qos) × (dto.mqtt_qos ≤ℤ pos 2)
unfolding check_dto
check_dto-range dto e = ground arith

check_dto-none :
    (dto : ConfigDto)
    → (pos 0 ≤ℤ dto.mqtt_qos) × (dto.mqtt_qos ≤ℤ pos 2)
    → is_log_level dto.log_level ≡ true
    → is_log_format dto.log_format ≡ true
    → check_dto dto ≡ none
unfolding check_dto
check_dto-none dto qos level format = ground arith

to_byte-range : (q : ℤ) → pos 0 ≤ℤ q → q ≤ℤ pos 2 → pos (to_byte q) ≡ q
unfolding to_byte
to_byte-range (pos k) lo hi = ap pos (omega arith)
to_byte-range (negsuc k) lo hi = absurd (omega arith)

module _ (t : Durations) (dto : ConfigDto) where
  read_interval-some :
      (n : ℤ)
      → t.parse dto.publish_interval ≡ some n
      → pos (10 ^ 9) ≤ℤ n
      → read_interval t dto.publish_interval ≡ some n
  unfolding read_interval
  read_interval-some n e h = ground (arith, e)

  read_interval-parse :
      (n : ℤ)
      → read_interval t dto.publish_interval ≡ some n
      → (t.parse dto.publish_interval ≡ some n) × (pos (10 ^ 9) ≤ℤ n)
  unfolding read_interval
  read_interval-parse n e = ground arith

  -- The checks let through what is to be accepted, and nothing else.
  pub IsValid-passes :
      IsValid t dto
      → (n : ℤ) × (read_interval t dto.publish_interval ≡ some n) × (check_dto dto ≡ none)
  IsValid-passes v =
      let (n, parsed, long) = v.interval in
      (
        n,
        read_interval-some n parsed long,
        check_dto-none dto v.qos ((is_log_level_iff dto.log_level).1 v.level)
            ((is_log_format_iff dto.log_format).1 v.format),
      )

  pub passes-IsValid :
      (n : ℤ) → read_interval t dto.publish_interval ≡ some n → check_dto dto ≡ none → IsValid t dto
  passes-IsValid n e f = record {
    interval = (n, (read_interval-parse n e).0, (read_interval-parse n e).1);
    qos = check_dto-range dto f;
    level = (is_log_level_iff dto.log_level).0 (check_dto_texts dto f).0;
    format = (is_log_format_iff dto.log_format).0 (check_dto_texts dto f).1;
  }

  apply_dto-password :
      (n : ℤ) (c : Config)
      → ((dto.mqtt_pass ≡ "") ⊎ (dto.mqtt_pass ≡ "****"))
          × ((apply_dto dto n c).mqtt_pass ≡ c.mqtt_pass)
        ⊎ (dto.mqtt_pass ≢ "")
          × (dto.mqtt_pass ≢ "****")
          × ((apply_dto dto n c).mqtt_pass ≡ dto.mqtt_pass)
  unfolding apply_dto
  apply_dto-password n c = ground (arith, eq_iff dto.mqtt_pass "", eq_iff dto.mqtt_pass "****")

  pub apply_dto-IsApplied :
      (n : ℤ) (c : Config)
      → read_interval t dto.publish_interval ≡ some n
      → check_dto dto ≡ none
      → IsApplied t dto c (apply_dto dto n c)
  unfolding apply_dto
  apply_dto-IsApplied n c e f = record {
    serial_port = refl;
    baud_rate = refl;
    mqtt_broker = refl;
    mqtt_topic_prefix = refl;
    mqtt_user = refl;
    mqtt_pass = apply_dto-password n c;
    mqtt_retain = refl;
    mqtt_qos = to_byte-range dto.mqtt_qos (check_dto-range dto f).0 (check_dto-range dto f).1;
    publish_interval = (read_interval-parse n e).0;
    log_level = refl;
    log_format = refl;
    mqtt_ha_discovery = refl;
    mqtt_ha_discovery_prefix = refl;
    web_addr = refl;
    web_user = refl;
    web_pass = refl;
    config_file = refl;
  }
