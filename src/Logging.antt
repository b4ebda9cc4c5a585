-- ===== src/Logging.antt =====
-- `setLogLevel` and `watchLogLevel` of cmd/vbus2mqtt/main.go, and the choice of the handler in
-- cmd/vbus2mqtt/dynamic_log.go.
use Prim.Native.String.{String}
use text.Mathlib.Text.{◌==◌ as str_eq}
use vbus2mqtt.Prelude.{ℕ, ◌≡◌, ◌≢◌, ◌⊎◌, not, ◌==◌, if◌then◌else◌, arith}
use vbus2mqtt.Config.Store.{Store}

pub data Level : Type 0 where
  debug info warn error : Level

-- `setLogLevel`
unfoldable pub level_of : String → Level
level_of level =
    if str_eq level "debug"
    then debug
    else if str_eq level "warn"
    then warn
    else if str_eq level "error"
    then error
    else info

-- The variables of `watchLogLevel`: the version seen last, and the level that is set.
pub record Watch : Type 0 where
  pub last_ver : ℕ
  pub level : Level

-- A tick of `watchLogLevel`.
unfoldable pub tick : Store → Watch → Watch
tick s w =
    if not (s.version == w.last_ver)
    then record { last_ver = s.version; level = level_of s.cfg.log_level }
    else w

-- `buildLogger` sets the level, and the watch starts at version 0.
abbrev pub start_watch : Store → Watch
start_watch s = record { last_ver = 0; level = level_of s.cfg.log_level }

pub data Format : Type 0 where
  json_handler text_handler : Format

-- `dynamicHandler.active`
unfoldable pub active : Store → Format
active s = if str_eq s.cfg.log_format "text" then text_handler else json_handler

-- The level that is set is that of the configuration whose version was seen last.
abbrev Agrees : Store → Watch → Type 0
Agrees s w = (w.last_ver ≡ s.version) × (w.level ≡ level_of s.cfg.log_level)

-- However often the store changed since the watch last agreed with it, a tick makes the watch agree
-- with the store, provided that the version has moved or the level was not changed.
pub tick-Agrees :
    (s : Store) (w : Watch)
    → (s.version ≢ w.last_ver) ⊎ (w.level ≡ level_of s.cfg.log_level)
    → Agrees s (tick s w)
unfolding tick
tick-Agrees s w h = ground arith
