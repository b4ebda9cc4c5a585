-- ===== src/Config/Store/Persistence.antt =====
-- What a restart finds in the file that `Update` wrote.
use Prim.Native.String.{String}
use text.Mathlib.TextEquality.{eq_iff}
use vbus2mqtt.Prelude.{zero, suc, ◌≡◌, ◌≢◌, refl, ◌⊎◌, inl, inr, none, arith}
use vbus2mqtt.Prelude.Int.{ℤ, pos, negsuc}
use vbus2mqtt.Config.{Config, Durations, IsDurations}
use vbus2mqtt.Config.Env.{Environment, load}
use vbus2mqtt.Config.Store.{
  Disk, Store, Answers, to_persisted, save_file, update, apply_file, load_file, new_store, overlay,
  overlay_int, overlay_duration,
}

-- What a restart makes of a text of the file: the text, or what is there without the file if the
-- text is empty.
abbrev pub IsText : String → String → String → Type 0
IsText saved base after = (saved ≢ "") × (after ≡ saved) ⊎ (saved ≡ "") × (after ≡ base)

abbrev pub IsNumber : ℤ → ℤ → ℤ → Type 0
IsNumber saved base after = (saved ≢ pos 0) × (after ≡ saved) ⊎ (saved ≡ pos 0) × (after ≡ base)

-- The configuration `after` a restart, from the saved one and the environment's.
pub record IsRestarted (saved base after : Config) : Type 0 where
  pub serial_port : IsText saved.serial_port base.serial_port after.serial_port
  pub baud_rate : IsNumber saved.baud_rate base.baud_rate after.baud_rate
  pub mqtt_broker : IsText saved.mqtt_broker base.mqtt_broker after.mqtt_broker
  pub mqtt_topic_prefix :
      IsText saved.mqtt_topic_prefix base.mqtt_topic_prefix after.mqtt_topic_prefix
  pub mqtt_user : IsText saved.mqtt_user base.mqtt_user after.mqtt_user
  pub mqtt_pass : IsText saved.mqtt_pass base.mqtt_pass after.mqtt_pass
  pub mqtt_retain : after.mqtt_retain ≡ saved.mqtt_retain
  pub mqtt_qos : after.mqtt_qos ≡ saved.mqtt_qos
  pub publish_interval : after.publish_interval ≡ saved.publish_interval
  pub log_level : IsText saved.log_level base.log_level after.log_level
  pub log_format : IsText saved.log_format base.log_format after.log_format
  pub mqtt_ha_discovery : after.mqtt_ha_discovery ≡ base.mqtt_ha_discovery
  pub mqtt_ha_discovery_prefix : after.mqtt_ha_discovery_prefix ≡ base.mqtt_ha_discovery_prefix
  pub web_addr : after.web_addr ≡ base.web_addr
  pub web_user : after.web_user ≡ base.web_user
  pub web_pass : after.web_pass ≡ base.web_pass
  pub config_file : after.config_file ≡ base.config_file

overlay-IsText : (saved base : String) → IsText saved base (overlay saved base)
overlay-IsText saved base = ground (arith, eq_iff saved "")

overlay_int-IsNumber : (saved base : ℤ) → IsNumber saved base (overlay_int saved base)
overlay_int-IsNumber (pos zero) base = inr (refl, refl)
overlay_int-IsNumber (pos (suc n)) base = inl (cc, ground arith)
overlay_int-IsNumber (negsuc n) base = inl (cc, ground arith)

module _ (t : Durations) (good : IsDurations t) where
  overlay_duration_print : (n current : ℤ) → overlay_duration t (t.print n) current ≡ n
  overlay_duration_print n current =
      ground (arith, eq_iff (t.print n) "", good.print-ne n, good.parse-print n)

  apply_file-to_persisted :
      (saved base : Config) → IsRestarted saved base (apply_file t (to_persisted t saved) base)
  unfolding apply_file to_persisted
  apply_file-to_persisted saved base = record {
    serial_port = overlay-IsText saved.serial_port base.serial_port;
    baud_rate = overlay_int-IsNumber saved.baud_rate base.baud_rate;
    mqtt_broker = overlay-IsText saved.mqtt_broker base.mqtt_broker;
    mqtt_topic_prefix = overlay-IsText saved.mqtt_topic_prefix base.mqtt_topic_prefix;
    mqtt_user = overlay-IsText saved.mqtt_user base.mqtt_user;
    mqtt_pass = overlay-IsText saved.mqtt_pass base.mqtt_pass;
    mqtt_retain = refl;
    mqtt_qos = refl;
    publish_interval = overlay_duration_print saved.publish_interval base.publish_interval;
    log_level = overlay-IsText saved.log_level base.log_level;
    log_format = overlay-IsText saved.log_format base.log_format;
    mqtt_ha_discovery = refl;
    mqtt_ha_discovery_prefix = refl;
    web_addr = refl;
    web_user = refl;
    web_pass = refl;
    config_file = refl;
  }

  restarted_cfg :
      (a : Answers) (fn : Config → Config) (s : Store) (disk : Disk) (getenv : Environment)
      → s.path ≢ ""
      → (update t a fn s disk).2 ≡ none
      → (new_store t getenv (update t a fn s disk).1 s.path).cfg
        ≡ apply_file t (to_persisted t (fn s.cfg)) (load getenv t)
  unfolding update save_file new_store load_file
  restarted_cfg a fn s disk getenv h e = ground (arith, eq_iff s.path "")

  -- Where a printed duration is read back, after an `Update` that reports no error, on a store with a
  -- path, a store made anew from the file has every setting of
  -- the file: the updated one, or the environment's where the updated text is empty or the updated
  -- baud rate is zero. The settings that the file does not hold come from the environment.
  pub new_store-update :
      (a : Answers) (fn : Config → Config) (s : Store) (disk : Disk) (getenv : Environment)
      → s.path ≢ ""
      → (update t a fn s disk).2 ≡ none
      → IsRestarted
          (fn s.cfg)
          (load getenv t)
          (new_store t getenv (update t a fn s disk).1 s.path).cfg
  new_store-update a fn s disk getenv h e =
      rw (restarted_cfg a fn s disk getenv h e) (apply_file-to_persisted (fn s.cfg) (load getenv t))
