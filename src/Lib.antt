-- ===== src/Lib.antt =====
-- vbus2mqtt: a bridge from the RESOL VBus, a serial bus of solar controllers, to MQTT.
--
-- The program reads bytes from a serial port, finds the bus's frames in them, decodes the payloads
-- by a table of known devices, keeps the latest values of each device and publishes them at an
-- interval, with Home Assistant discovery messages. Its settings come from the environment and a
-- file and can be changed over HTTP while it runs; a change makes the main loop connect anew.
--
-- Which file models which part:
--   Vbus/Frame, Checksum, Subframe, Parser    internal/vbus/parser.go: Frame, checksum,
--     decodeSubFrames, Parser.Feed with drain. A round of drain's loop is `Parser.round`, in the
--     pieces `locate`, `read_header` and `read_body`; the loop is `drain_loop`.
--   Vbus/Encoder    buildFrame of internal/vbus/parser_test.go, the wire format as a specification.
--   Vbus/Registry    internal/vbus/registry.go: Registry, Lookup, Register, Decode, extractValue.
--   Vbus/Registry/Defaults    internal/vbus/registry_custom.go and both init functions.
--   Vbus/Registry/Generated    the whole table of internal/vbus/registry_gen.go.
--   Vbus/Hex, Vbus/Double    %04X of fmt, and what the decoder does with floating point.
--   Config, Config/Env    internal/config/config.go: Config, Load and its helpers.
--   Config/Store    internal/config/store.go: Store, NewStore, Update, loadFile, saveFile;
--     Config/Store/Calls has Update in the parts between which another call may run: the change, the
--     count, the copy, the directory, the opening of the temporary file, its writing, the renaming.
--   Mqtt/Client, Classes, Slug    internal/mqtt/client.go: Publish, publishDiscovery and the cache,
--     haClassFromUnit, fieldSlug.
--   Status    internal/status/status.go.
--   Web    internal/web/server.go: basicAuth, the routes of Start, all handlers. Whether ServeMux
--     redirects a path to a cleaned one comes with the request.
--   Bridge    readLoop of cmd/vbus2mqtt/main.go: `round` is the body of its loop, `run` the loop over
--     the inputs of the rounds, `absorb` the loop over the frames, `publish_due` the publication.
--   Supervisor    the main loop of cmd/vbus2mqtt/main.go around readLoop: `advance` is one turn, the
--     relation `Step` also has the signals and the updates that come in between.
--   Logging    setLogLevel and watchLogLevel of cmd/vbus2mqtt/main.go, dynamic_log.go.
--   Generator    mapField, toGoFieldName and generate of cmd/gen-registry/main.go.
--   Prelude    shared helpers; Tests    runs, and the theorems applied at concrete inputs.
--
-- How the parts interact: Bridge hands the bytes of a read to Vbus/Parser, the frames to
-- Vbus/Registry and the values to Mqtt/Client, and sets Status; Web reads Status and updates
-- Config/Store; the store's version tells Bridge and Supervisor of an update.
--
-- Bounds and fuel: a byte is a number below 256, a uint16 one below 2 ^ 16, and the wrap-around of
-- checksums, keys, conversions and the store's version is written out. The parser's loop has fuel
-- one above the length of its buffer; every round that goes on takes a byte at least, so it is enough.
-- Every other loop goes along a list.
--
-- Parameters: `Double` for float64, of which no law is used; `Durations` for time.ParseDuration and
-- Duration.String, with the law that a printed duration is read back; `Unicode` for the tables of the
-- package unicode, with the laws that lower case is reached in one step and that the underscore is no
-- letter, no digit and its own lower case; the file system's and paho's answers; the clock. Tests has
-- an instance of each.
--
-- Not modelled: the serial library and internal/device, net/http's sockets, JSON's text, the log's
-- lines, parseVSF and the printing of Go code in cmd/gen-registry, the web page. Locks make each
-- method one step, but for the store's Update, which Config/Store/Calls takes apart. The main loop's
-- version is counted without the wrap.
pub mod Prelude
pub mod Vbus
pub mod Config
pub mod Mqtt
pub mod Status
pub mod Web
pub mod Bridge
pub mod Supervisor
pub mod Generator
pub mod Logging
pub mod Tests
