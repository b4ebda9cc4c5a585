-- ===== src/Tests/Session.antt =====
-- Sessions of the bridge: runs of the read loop and of the main loop, and the theorems at them.
use mathlib.Core.List.{flatten, map, Memᴰ}
use vbus2mqtt.Vbus.Checksum.{checksum}
use vbus2mqtt.Vbus.Subframe.{restore, restore_all, decode_sub_frame, decode_loop, decode_sub_frames}
use vbus2mqtt.Vbus.Parser.Delivery.{Carries, received}
use vbus2mqtt.Tests.Wire.{reads, reads-Carries}
use vbus2mqtt.Vbus.Parser.{read_body}
use vbus2mqtt.Prelude.{◌≡◌, refl, ◌⊎◌, true, false, List, [], ◌∷◌, ◌++◌, none, some, All, arith}
use vbus2mqtt.Vbus.Frame.{Bytes, Frame}
use vbus2mqtt.Vbus.Parser.{
  new_parser, locate, read_header, round as parser_round, drain_loop, drain, feed,
}
use vbus2mqtt.Vbus.Registry.Defaults.{custom_registry}
use vbus2mqtt.Mqtt.Client.{completed, telemetry, ◌+s◌, payload_of}
use vbus2mqtt.Vbus.Hex.{hex4}
use vbus2mqtt.Prelude.Int.{pos}
use vbus2mqtt.Status.{new_status}
use vbus2mqtt.Bridge.{
  Accumulator, Input, State, running, ended, config_changed, read_failed, absorb, latest_of,
  initial, round, run, after_read, take_bytes, publish_due,
}
use vbus2mqtt.Bridge.Latest.{last_reading}
use vbus2mqtt.Bridge.Progress.{verdict, run_ends}
use vbus2mqtt.Bridge.Publication.{IsDue, IsQuiet, IsPublished, round-Publishes}
use vbus2mqtt.Bridge.Sends.{round-sends}
use vbus2mqtt.Bridge.Stream.{reads_of, run_latest, run_delivers}
use vbus2mqtt.Supervisor.{
  reading, finished, Supervisor, Turn, advance, advance_at, started, signal, turn, Reachable, start,
  next,
}
use vbus2mqtt.Supervisor.Shutdown.{InOrder, Reachable-InOrder, shutdown}
use vbus2mqtt.Tests.Samples.{Decimal, decimals, plain, bs2_frame, sample_config}

-- A round that reads some bytes, long before the interval has passed.
abbrev reads_bytes : Bytes → Input Decimal
reads_bytes bytes = record {
  cancelled = false;
  version = 1;
  read = some bytes;
  reconnected = false;
  cfg = sample_config;
  now = 200;
  stamp = 201;
  connected = true;
  connected_after = true;
  outcome = λ m. completed;
}

abbrev inputs : List (Input Decimal)
inputs = reads_bytes [] ∷ reads_bytes (0xaa ∷ 0x10 ∷ []) ∷ []

abbrev begin : State Decimal
begin = initial 100 [] (new_status 5)

run-inputs :
    run plain custom_registry 1 inputs begin
    ≡ running (record begin { parser = record { buf = 0xaa ∷ 0x10 ∷ [] } })
unfolding run round after_read take_bytes publish_due feed drain drain_loop locate read_header
    absorb parser_round
run-inputs = refl

run_latest_example :
    (frames : List Frame) × (feed new_parser (flatten (reads_of inputs))
      ≡ some (frames, record { buf = 0xaa ∷ 0x10 ∷ [] }))
    × (latest_of 0x4278 begin.accum ≡ last_reading custom_registry 0x4278 frames)
run_latest_example =
    run_latest plain custom_registry 1 100 [] (new_status 5) inputs 0x4278 run-inputs

-- The session that reads the frame in two pieces.
abbrev frame_inputs : List (Input Decimal)
frame_inputs = map reads_bytes reads

abbrev after_frame : State Decimal
after_frame = record begin { accum = absorb custom_registry (bs2_frame ∷ []) [] }

run-frame_inputs : run plain custom_registry 1 frame_inputs begin ≡ running after_frame
unfolding run round after_read take_bytes publish_due feed drain drain_loop locate read_header
    read_body parser_round checksum decode_sub_frames decode_loop decode_sub_frame restore_all
    restore absorb
run-frame_inputs = refl

frame_inputs-Carries : Carries (flatten (reads_of frame_inputs)) (received bs2_frame ∷ [])
unfolding reads_of
frame_inputs-Carries = reads-Carries

run_delivers_example :
    (after_frame.parser ≡ new_parser)
    × (latest_of 0x4278 after_frame.accum
        ≡ last_reading custom_registry 0x4278 (received bs2_frame ∷ []))
run_delivers_example =
    run_delivers plain custom_registry 1 100 [] (new_status 5) frame_inputs 0x4278 run-frame_inputs
      frame_inputs-Carries

abbrev changed : Input Decimal
changed = record (reads_bytes []) { version = 2 }

inputs-go_on : All (λ j. verdict 1 j ≡ none) inputs
unfolding verdict
inputs-go_on = (refl, (refl, tt))

changed-ends : verdict 1 changed ≡ some config_changed
unfolding verdict
changed-ends = refl

run_ends_example :
    (reached : State Decimal) × (last : State Decimal) × (run plain custom_registry 1 inputs begin
      ≡ running reached)
    × (run plain custom_registry 1 (inputs ++ changed ∷ []) begin ≡ ended config_changed last)
    × (last.sent ≡ reached.sent)
    × (last.status ≡ reached.status)
run_ends_example =
    run_ends plain custom_registry 1 inputs changed [] begin inputs-go_on changed-ends

-- A device is known, and the interval has passed.
abbrev reading_1 : Accumulator Decimal
reading_1 = record {
  device = "BS2";
  fields = record { name = "t1"; value = (pos 2130, 2); unit = "°C" } ∷ [];
}

abbrev with_reading : State Decimal
with_reading = record begin { accum = (0x4278, reading_1) ∷ [] }

abbrev overdue : Input Decimal
overdue = record (reads_bytes []) { now = 40_000_000_000; stamp = 40_000_000_001 }

abbrev after_publication : State Decimal
after_publication = publish_due plain overdue with_reading

round-overdue : round plain custom_registry 1 overdue with_reading ≡ running after_publication
unfolding round after_read take_bytes
round-overdue = refl

round-Publishes_example :
    (¬ IsDue overdue 100 after_publication) × IsQuiet with_reading after_publication
    ⊎ IsDue overdue 100 after_publication × IsPublished overdue after_publication
round-Publishes_example = round-Publishes plain custom_registry 1 overdue with_reading round-overdue

known_1 : Memᴰ (0x4278, reading_1) after_publication.accum
unfolding publish_due
known_1 = Memᴰ.head refl

round-sends_example :
    Memᴰ
      (record {
        topic = "vbus" +s "/" +s hex4 0x4278;
        qos = 1;
        retained = true;
        body = telemetry (payload_of 0x4278 "BS2" reading_1.fields (pos 40));
      })
      after_publication.sent
round-sends_example =
    round-sends plain custom_registry 1 overdue with_reading round-overdue (omega arith) refl
      known_1 (refl, tt)

abbrev works : Turn
works = record { connected = true; opens = true; loop_end = config_changed }

abbrev fails : Turn
fails = record { connected = false; opens = false; loop_end = read_failed }

-- Two turns: the client is made, the port is opened.
abbrev in_loop : Supervisor
in_loop = record (started 7) { phase = reading 7; mqtt_connected = true; opened = 1; clients = 1 }

in_loop-run : advance works (advance works (started 7)) ≡ in_loop
unfolding advance advance_at
in_loop-run = refl

reaches : Reachable 7 (record (advance works (advance works (started 7))) { cancelled = true })
reaches = next (next (next start (turn works)) (turn works)) signal

Reachable-InOrder_example :
    InOrder (record (advance works (advance works (started 7))) { cancelled = true })
Reachable-InOrder_example = Reachable-InOrder reaches

shutdown_example :
    let last = advance fails (
      advance works (
        advance fails (record (advance works (advance works (started 7))) { cancelled = true }))) in
    (last.phase ≡ finished)
    × (last.opened ≡ last.closed)
    × (last.clients ≡ last.disconnected)
    × (last.mqtt_connected ≡ false)
shutdown_example = shutdown fails works fails reaches refl
