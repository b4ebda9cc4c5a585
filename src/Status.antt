-- ===== src/Status.antt =====
-- internal/status/status.go: what the bridge tells the web UI. The lock makes each method one step.
-- A time is its number of nanoseconds; zero is the zero time.
use Prim.Native.String.{String}
use vbus2mqtt.Prelude.{ℕ, ◌-◌, ◌/◌, ◌^◌, Bool, false, List, []}

-- `Status`
pub record Status : Type 0 where
  pub mqtt_connected : Bool
  pub last_publish : ℕ
  pub devices : List String
  pub start_time : ℕ

-- `Snapshot`
pub record Snapshot : Type 0 where
  pub mqtt_connected : Bool
  pub last_publish : ℕ
  pub devices : List String
  pub uptime_seconds : ℕ

-- `New`
abbrev pub new_status : ℕ → Status
new_status now = record { mqtt_connected = false; last_publish = 0; devices = []; start_time = now }

-- `SetMQTTConnected`
abbrev pub set_mqtt_connected : Bool → Status → Status
set_mqtt_connected v s = record s { mqtt_connected = v }

-- `SetLastPublish`
abbrev pub set_last_publish : ℕ → Status → Status
set_last_publish t s = record s { last_publish = t }

-- `SetDevices`; the slice is copied, so the caller's does not show through.
abbrev pub set_devices : List String → Status → Status
set_devices devices s = record s { devices = devices }

-- `Snapshot`, at time `now`.
unfoldable pub snapshot : ℕ → Status → Snapshot
snapshot now s = record {
  mqtt_connected = s.mqtt_connected;
  last_publish = s.last_publish;
  devices = s.devices;
  uptime_seconds = (now - s.start_time) / 10 ^ 9;
}
