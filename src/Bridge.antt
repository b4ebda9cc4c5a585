-- ===== src/Bridge.antt =====
-- `readLoop` of cmd/vbus2mqtt/main.go: from reads of the serial port to publications. What the
-- environment decides in one round (the clock, the read, the shared configuration, the broker) is an
-- input. Go visits a map in any order; the model visits it in the order of its entries.
pub mod Latest
pub mod Progress
pub mod Publication
pub mod Sends
pub mod Stream
use Prim.Native.String.{String}
use mathlib.Core.List.{map}
use vbus2mqtt.Prelude.{
  ℕ, ◌+◌, ◌-◌, ◌/◌, ◌^◌, Bool, true, false, not, ◌&&◌, List, [], ◌∷◌, ◌++◌, Option, none, some,
  ◌==◌, if◌then◌else◌,
}
use vbus2mqtt.Prelude.Int.{ℤ, pos, ltb_ℤ}
use vbus2mqtt.Config.{Config}
use vbus2mqtt.Mqtt.Client.{Message, Outcome, Published, publish}
use vbus2mqtt.Mqtt.Slug.{Unicode}
use vbus2mqtt.Status.{Status, set_mqtt_connected, set_last_publish, set_devices}
use vbus2mqtt.Vbus.Double.{Double}
use vbus2mqtt.Vbus.Frame.{Bytes, Frame}
use vbus2mqtt.Vbus.Parser.{Parser, feed, new_parser}
use vbus2mqtt.Vbus.Registry.{Registry, TelemetryField, decode}

-- `accumulator`
pub record Accumulator (W : Type 0) : Type 0 where
  pub device : String
  pub fields : List (TelemetryField W)

-- `map[uint16]*accumulator`, with at most one entry of a source.
abbrev pub Accumulators : Type 0 → Type 0
Accumulators W = List (ℕ × Accumulator W)

module _ {W : Type 0} where
  unfoldable pub latest_of : ℕ → Accumulators W → Option (Accumulator W)
  latest_of src [] = none
  latest_of src ((k, a) ∷ m) = if k == src then some a else latest_of src m

  -- `accum[src] = a`
  unfoldable pub store_at : ℕ → Accumulator W → Accumulators W → Accumulators W
  store_at src a [] = (src, a) ∷ []
  store_at src a ((k, b) ∷ m) = if k == src then (src, a) ∷ m else (k, b) ∷ store_at src a m

-- What one round of the loop meets.
pub record Input (W : Type 0) : Type 0 where
  -- `ctx.Err() != nil`
  pub cancelled : Bool
  -- `store.Version()`
  pub version : ℕ
  -- the bytes of `dev.Read`, or an error
  pub read : Option Bytes
  -- whether paho connected again since the last round
  pub reconnected : Bool
  -- `store.Get()`
  pub cfg : Config
  -- the clock, which does not go back, at the test of the interval, in nanoseconds, and after the
  -- publications
  pub now : ℕ
  pub stamp : ℕ
  -- `IsConnected()` during the publications and after them
  pub connected : Bool
  pub connected_after : Bool
  pub outcome : Message W → Outcome

-- The variables of the loop, the client's cache, the shared status, and the messages sent so far.
pub record State (W : Type 0) : Type 0 where
  pub parser : Parser
  pub accum : Accumulators W
  pub last_publish : ℕ
  pub discovered : List String
  pub status : Status
  pub sent : List (Message W)

-- `nil`, `errConfigChanged`, or an error of the read.
pub data End : Type 0 where
  stopped config_changed read_failed : End

-- A round goes on to the next or ends the loop; `out_of_fuel` is no result of the code.
pub data Loop (W : Type 0) : Type 0 where
  running : State W → Loop W
  ended : End → State W → Loop W
  out_of_fuel : Loop W

module _ {W : Type 0} ⦃d : Double W⦄ where
  -- The loop over the frames: a frame of an unknown device is left out.
  unfoldable pub absorb : Registry W → List Frame → Accumulators W → Accumulators W
  absorb reg [] m = m
  absorb reg (f ∷ fs) m =
      let (name, fields, known) = decode f reg in
      absorb reg fs
        (if known then store_at f.source (record { device = name; fields = fields }) m else m)

module _ {W : Type 0} ⦃d : Double W⦄ (u : Unicode) where
  -- The loop over the accumulators: the cache and the messages. An error is logged.
  unfoldable pub publish_all :
      Input W → Accumulators W → List String → List String × List (Message W)
  publish_all i [] discovered = (discovered, [])
  publish_all i ((src, a) ∷ m) discovered =
      let p =
        publish u i.outcome i.connected (pos (i.now / 10 ^ 9)) i.cfg src a.device a.fields
          discovered in
      let (after, messages) = publish_all i m p.discovered in (after, p.messages ++ messages)

  -- The accumulators' device names.
  abbrev pub device_names : Accumulators W → List String
  device_names = map (λ e. e.1.device)

  abbrev pub is_empty : Accumulators W → Bool
  is_empty [] = true
  is_empty (e ∷ m) = false

  -- `time.Since(lastPublish) >= cfg.PublishInterval`
  abbrev pub interval_elapsed : Input W → ℕ → Bool
  interval_elapsed i last = not (ltb_ℤ (pos (i.now - last)) i.cfg.publish_interval)

  -- The end of a round, from `cfg := store.Get()` on.
  unfoldable pub publish_due : Input W → State W → State W
  publish_due i s =
      if interval_elapsed i s.last_publish && not (is_empty s.accum)
      then (let (after, messages) = publish_all i s.accum s.discovered in
          record s {
            last_publish = i.stamp;
            discovered = after;
            status =
                set_mqtt_connected i.connected_after
                  (set_devices (device_names s.accum) (set_last_publish i.stamp s.status));
            sent = s.sent ++ messages;
          })
      else s

  -- `if n > 0 { frames := parser.Feed(buf[:n]); ... }`
  unfoldable pub take_bytes : Registry W → Bytes → State W → Option (State W)
  take_bytes reg [] s = some s
  take_bytes reg (b ∷ bs) s = elim (feed s.parser (b ∷ bs)) [
    | none ↦ none
    | some (frames, parser) ↦ some (record s { parser = parser; accum = absorb reg frames s.accum })
  ]

  -- The part of a round behind the read.
  unfoldable pub after_read : Registry W → Input W → Option Bytes → State W → Loop W
  after_read reg i none s = ended read_failed s
  after_read reg i (some bytes) s = elim (take_bytes reg bytes s) [
    | none ↦ out_of_fuel
    | some s' ↦ running (publish_due i s')
  ]

  -- The handler of a new connection runs beside the loop; here it runs before a round.
  abbrev pub reconnect : Input W → State W → State W
  reconnect i s = if i.reconnected then record s { discovered = [] } else s

  -- One round: the test of the context, that of the version, the read and what follows it.
  unfoldable pub round : Registry W → ℕ → Input W → State W → Loop W
  round reg start i s =
      if i.cancelled
      then ended stopped s
      else if not (i.version == start)
      then ended config_changed s
      else after_read reg i i.read (reconnect i s)

  -- The loop over the rounds of a session.
  unfoldable pub run : Registry W → ℕ → List (Input W) → State W → Loop W
  run reg start [] s = running s
  run reg start (i ∷ is) s = elim (round reg start i s) [
    | running s' ↦ run reg start is s'
    | ended e s' ↦ ended e s'
    | out_of_fuel ↦ out_of_fuel
  ]

-- The variables at the start of `readLoop`, with the client and the status as they are.
abbrev pub initial : {W : Type 0} → ℕ → List String → Status → State W
initial now discovered status = record {
  parser = new_parser;
  accum = [];
  last_publish = now;
  discovered = discovered;
  status = status;
  sent = [];
}
