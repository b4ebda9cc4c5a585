-- ===== src/Supervisor.antt =====
-- The main loop of cmd/vbus2mqtt/main.go around `readLoop`: the broker's client of a configuration, and
-- within it the serial port, opened again after every failure. The signals and the web server act
-- between the loop's own turns. The waits of a few seconds and the log are left out.
pub mod Shutdown
use vbus2mqtt.Prelude.{ℕ, ◌+◌, ◌≡◌, ◌≢◌, Bool, true, false, not, ◌&&◌, ◌==◌, if◌then◌else◌}
use vbus2mqtt.Bridge.{End, stopped, config_changed, read_failed}

-- Where the loop stands: before the test of the outer loop, before that of the inner loop with the
-- version `ver`, within `readLoop`, or behind both.
pub data Phase : Type 0 where
  outer : Phase
  inner : ℕ → Phase
  reading : ℕ → Phase
  finished : Phase

pub record Supervisor : Type 0 where
  pub phase : Phase
  -- `ctx.Err() != nil`
  pub cancelled : Bool
  -- `store.Version()`, counted without the wrap at 2 ^ 64
  pub version : ℕ
  -- `st`'s mark of the broker
  pub mqtt_connected : Bool
  -- how often the port was opened and closed, a client made and disconnected
  pub opened : ℕ
  pub closed : ℕ
  pub clients : ℕ
  pub disconnected : ℕ

-- What the outside says in one turn of the loop.
pub record Turn : Type 0 where
  -- `mqtt.IsConnected()` after `Connect`
  pub connected : Bool
  -- whether `device.Open` gives a device
  pub opens : Bool
  -- the result of `readLoop`
  pub loop_end : End

-- `ctx.Err() == nil && store.Version() == ver`
abbrev pub goes_on : ℕ → Supervisor → Bool
goes_on ver s = not s.cancelled && (s.version == ver)

-- `st.SetMQTTConnected(false); mqtt.Disconnect()`, behind the inner loop.
abbrev pub leave : Supervisor → Supervisor
leave s = record s { phase = outer; mqtt_connected = false; disconnected = s.disconnected + 1 }

-- What follows `readLoop`: the device is closed, and only a new configuration leaves the loop.
abbrev pub after_loop : ℕ → End → Supervisor → Supervisor
after_loop ver config_changed s = leave (record s { closed = s.closed + 1 })
after_loop ver stopped s = record s { phase = inner ver; closed = s.closed + 1 }
after_loop ver read_failed s = record s { phase = inner ver; closed = s.closed + 1 }

-- One turn at a place.
unfoldable pub advance_at : Phase → Turn → Supervisor → Supervisor
advance_at outer t s =
    if s.cancelled
    then record s { phase = finished }
    else record s { phase = inner s.version; mqtt_connected = t.connected; clients = s.clients + 1 }
advance_at (inner ver) t s =
    if goes_on ver s
    then (if t.opens then record s { phase = reading ver; opened = s.opened + 1 } else s)
    else leave s
advance_at (reading ver) t s = after_loop ver t.loop_end s
advance_at finished t s = s

unfoldable pub advance : Turn → Supervisor → Supervisor
advance t s = advance_at s.phase t s

-- The program before its loop, under a configuration of some version.
abbrev pub started : ℕ → Supervisor
started version = record {
  phase = outer;
  cancelled = false;
  version = version;
  mqtt_connected = false;
  opened = 0;
  closed = 0;
  clients = 0;
  disconnected = 0;
}

-- What happens: a signal cancels the context, an update of the settings counts the version up, a
-- publication of the read loop sets the mark of the broker anew, or the loop takes a turn.
pub data Step : Supervisor → Supervisor → Type 0 where
  signal : {s : Supervisor} → Step s (record s { cancelled = true })
  update : {s : Supervisor} → Step s (record s { version = s.version + 1 })
  mark :
      {s : Supervisor} {ver : ℕ} (b : Bool)
      → s.phase ≡ reading ver
      → Step s (record s { mqtt_connected = b })
  turn : {s : Supervisor} (t : Turn) → Step s (advance t s)

pub data Reachable (version : ℕ) : Supervisor → Type 0 where
  start : Reachable version (started version)
  next : {s s' : Supervisor} → Reachable version s → Step s s' → Reachable version s'
