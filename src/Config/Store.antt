-- ===== src/Config/Store.antt =====
-- internal/config/store.go: the configuration that the program shares, kept in a file. A method is one
-- step, which gives the new store; the module Calls takes `Update` apart.
pub mod Files
pub mod Persistence
pub mod Calls
use Prim.Native.String.{String}
use text.Mathlib.Text.{◌==◌ as str_eq}
use vbus2mqtt.Prelude.{ℕ, ◌+◌, ◌%◌, ◌^◌, Bool, not, ◌||◌, Option, none, some, if◌then◌else◌}
use vbus2mqtt.Prelude.Int.{ℤ, pos, ltb_ℤ}
use vbus2mqtt.Config.{Config, Durations}
use vbus2mqtt.Config.Env.{Environment, load}

-- `persisted`, the structure that the file holds as JSON. A pointer is an `Option`.
pub record Persisted : Type 0 where
  pub serial_port : String
  pub baud_rate : ℤ
  pub mqtt_broker : String
  pub mqtt_topic_prefix : String
  pub mqtt_user : String
  pub mqtt_pass : String
  pub mqtt_retain : Option Bool
  pub mqtt_qos : Option ℕ
  pub publish_interval : String
  pub log_level : String
  pub log_format : String

-- What stands under a path. A structure written by `json.MarshalIndent` is read back as it was:
-- a field that `omitempty` leaves out is the zero value again.
pub data FileState : Type 0 where
  missing : FileState
  unreadable : FileState
  malformed : FileState
  holds : Persisted → FileState

-- The two paths that the store writes, `path` and `path + ".tmp"`.
pub record Disk : Type 0 where
  pub main : FileState
  pub tmp : FileState

-- `Store`
pub record Store : Type 0 where
  pub cfg : Config
  pub path : String
  pub version : ℕ

pub data Error : Type 0 where
  read_failed unmarshal_failed mkdir_failed write_failed rename_failed : Error

-- `error`, where `none` is nil.
abbrev pub Result : Type 0
Result = Option Error

-- The text of the file where it has one, else what the configuration says.
abbrev pub overlay : String → String → String
overlay saved current = if not (str_eq saved "") then saved else current

abbrev pub overlay_int : ℤ → ℤ → ℤ
overlay_int saved current = if ltb_ℤ saved (pos 0) || ltb_ℤ (pos 0) saved then saved else current

abbrev pub overlay_pointer : {A : Type 0} → Option A → A → A
overlay_pointer none current = current
overlay_pointer (some saved) current = saved

-- How the file system answers: what `MkdirAll`, `WriteFile` and `Rename` succeed in. A write that
-- fails may leave anything under the path it writes.
pub record Answers : Type 0 where
  pub mkdir_ok : Bool
  pub write_ok : Bool
  pub left_behind : FileState
  pub rename_ok : Bool

module _ (t : Durations) where
  abbrev pub overlay_duration : String → ℤ → ℤ
  overlay_duration saved current =
      if not (str_eq saved "") then overlay_pointer (t.parse saved) current else current

  -- The part of `loadFile` behind the unmarshalling.
  unfoldable pub apply_file : Persisted → Config → Config
  apply_file p cfg = record cfg {
    serial_port = overlay p.serial_port cfg.serial_port;
    baud_rate = overlay_int p.baud_rate cfg.baud_rate;
    mqtt_broker = overlay p.mqtt_broker cfg.mqtt_broker;
    mqtt_topic_prefix = overlay p.mqtt_topic_prefix cfg.mqtt_topic_prefix;
    mqtt_user = overlay p.mqtt_user cfg.mqtt_user;
    mqtt_pass = overlay p.mqtt_pass cfg.mqtt_pass;
    mqtt_retain = overlay_pointer p.mqtt_retain cfg.mqtt_retain;
    mqtt_qos = overlay_pointer p.mqtt_qos cfg.mqtt_qos;
    publish_interval = overlay_duration p.publish_interval cfg.publish_interval;
    log_level = overlay p.log_level cfg.log_level;
    log_format = overlay p.log_format cfg.log_format;
  }

  -- `loadFile`
  unfoldable pub load_file : FileState → Store → Store × Result
  load_file missing s = (s, none)
  load_file unreadable s = (s, some read_failed)
  load_file malformed s = (s, some unmarshal_failed)
  load_file (holds p) s = (record s { cfg = apply_file p s.cfg }, none)

  -- `NewStore`
  unfoldable pub new_store : Environment → Disk → String → Store
  new_store getenv disk path =
      let s : Store = record { cfg = load getenv t; path = path; version = 0 } in
      if not (str_eq path "") then (load_file disk.main s).0 else s

  -- The structure that `saveFile` builds.
  unfoldable pub to_persisted : Config → Persisted
  to_persisted cfg = record {
    serial_port = cfg.serial_port;
    baud_rate = cfg.baud_rate;
    mqtt_broker = cfg.mqtt_broker;
    mqtt_topic_prefix = cfg.mqtt_topic_prefix;
    mqtt_user = cfg.mqtt_user;
    mqtt_pass = cfg.mqtt_pass;
    mqtt_retain = some cfg.mqtt_retain;
    mqtt_qos = some cfg.mqtt_qos;
    publish_interval = t.print cfg.publish_interval;
    log_level = cfg.log_level;
    log_format = cfg.log_format;
  }

  -- `saveFile`
  unfoldable pub save_file : Answers → Config → Disk → Disk × Result
  save_file a cfg disk =
      if not a.mkdir_ok
      then (disk, some mkdir_failed)
      else if not a.write_ok
      then (record disk { tmp = a.left_behind }, some write_failed)
      else if not a.rename_ok
      then (record disk { tmp = holds (to_persisted cfg) }, some rename_failed)
      else (record { main = holds (to_persisted cfg); tmp = missing }, none)

  -- `Update`; the counter is a uint64.
  unfoldable pub update : Answers → (Config → Config) → Store → Disk → Store × Disk × Result
  update a fn s disk =
      let s' : Store = record s { cfg = fn s.cfg; version = (s.version + 1) % 2 ^ 64 } in
      if not (str_eq s.path "")
      then (let (disk', result) = save_file a s'.cfg disk in (s', disk', result))
      else (s', disk, none)
