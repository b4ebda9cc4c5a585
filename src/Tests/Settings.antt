-- ===== src/Tests/Settings.antt =====
-- The settings: runs of the store and of the web server's handlers, and the theorems at them.
use Prim.Native.String.{String}
use text.Mathlib.TextEquality.{eq_iff}
use vbus2mqtt.Prelude.{◌+◌, ◌%◌, ◌^◌, ◌≡◌, ◌≢◌, refl, ◌⊎◌, inl, true, false, none, some, arith}
use vbus2mqtt.Prelude.Int.{pos, negsuc}
use vbus2mqtt.Config.{Config, Durations}
use vbus2mqtt.Config.Env.{Environment, load, atoi, read_number, read_digits, in_int64, to_byte}
use vbus2mqtt.Config.Store.{
  missing, holds, Disk, Store, Answers, to_persisted, save_file, update, new_store, write_failed,
}
use vbus2mqtt.Config.Store.Files.{save_file_atomic, update_lem}
use vbus2mqtt.Config.Store.Persistence.{IsRestarted, new_store-update}
use vbus2mqtt.Status.{new_status}
use vbus2mqtt.Web.{
  ConfigDto, Server, new_server, Request, World, to_dto, put_body, put_dto, put_update,
  read_interval, check_dto, apply_dto, serve,
}
use vbus2mqtt.Web.Access.{IsRefusal, serve_unauthorized, serve_read_only}
use vbus2mqtt.Web.Checks.{IsValid, IsAcceptable, IsApplied, IsAnswered}
use vbus2mqtt.Web.Settings.{IsAccepted, to_dto_redacted, put_body_lem, put_body-to_dto}
use vbus2mqtt.Tests.Samples.{stroke_durations, stroke_durations-IsDurations, sample_config}

-- Numbers and flags of the environment.
atoi-runs :
    (atoi "9600" ≡ some (pos 9600))
    × (atoi "-2" ≡ some (negsuc 1))
    × (atoi "" ≡ none)
    × (atoi "12x" ≡ none)
    × (to_byte (negsuc 0) ≡ 255)
unfolding atoi read_number read_digits in_int64 to_byte
atoi-runs = (refl, refl, refl, refl, refl)

abbrev good_answers : Answers
good_answers = record { mkdir_ok = true; write_ok = true; left_behind = missing; rename_ok = true }

abbrev full_disk : Answers
full_disk = record { mkdir_ok = true; write_ok = false; left_behind = missing; rename_ok = true }

abbrev empty_disk : Disk
empty_disk = record { main = missing; tmp = missing }

abbrev sample_store : Store
sample_store = record { cfg = sample_config; path = "/data/config.json"; version = 3 }

abbrev to_debug : Config → Config
to_debug c = record c { log_level = "debug" }

abbrev no_environment : Environment
no_environment key = ""

abbrev world : World
world = record { store = sample_store; disk = empty_disk; status = new_status 5 }

abbrev server : Server
server = new_server sample_store "1.0"

abbrev anonymous : Request
anonymous = record {
  method = "GET";
  path = "/api/config";
  is_clean = true;
  credentials = none;
  body = none;
}

path_ne : sample_store.path ≢ ""
path_ne = cc

abbrev other_password : String
other_password = "other"

set_ne : (sample_config.mqtt_pass ≢ "") × (other_password ≢ "")
set_ne = (cc, cc)

config_ne : anonymous.path ≢ "/health"
config_ne = ground (arith, eq_iff anonymous.path "/health")

get_ne : anonymous.method ≢ "PUT"
get_ne = ground (arith, eq_iff anonymous.method "PUT")

user_ne : server.web_user ≢ ""
user_ne = cc

refuses : anonymous.credentials ≢ some (server.web_user, server.web_pass)
refuses = cc

-- A write that fails leaves the file and reports the error, but the version has moved.
update-full_disk : update stroke_durations full_disk to_debug sample_store empty_disk ≡ (
  record { cfg = to_debug sample_config; path = "/data/config.json"; version = 4 },
  empty_disk,
  some write_failed,
)
unfolding update save_file
update-full_disk = refl

save_file_atomic_example :
    ((save_file stroke_durations full_disk sample_config empty_disk).1 ≡ none)
      × ((save_file stroke_durations full_disk sample_config empty_disk).0
          ≡ record { main = holds (to_persisted stroke_durations sample_config); tmp = missing })
    ⊎ ((save_file stroke_durations full_disk sample_config empty_disk).1 ≢ none)
      × ((save_file stroke_durations full_disk sample_config empty_disk).0.main ≡ empty_disk.main)
save_file_atomic_example = save_file_atomic stroke_durations full_disk sample_config empty_disk

update_lem_example :
    let (s', disk', result) = update stroke_durations full_disk to_debug sample_store empty_disk in
    (s' ≡ record {
      cfg = to_debug sample_config;
      path = "/data/config.json";
      version = (3 + 1) % 2 ^ 64;
    })
    × ((sample_store.path ≡ "") × (result ≡ none) × (disk' ≡ empty_disk)
        ⊎ ((sample_store.path ≢ "")
              × (result ≡ none)
              × (disk'.main ≡ holds (to_persisted stroke_durations (to_debug sample_config)))
            ⊎ (sample_store.path ≢ "") × (result ≢ none) × (disk'.main ≡ empty_disk.main)))
update_lem_example = update_lem stroke_durations full_disk to_debug sample_store empty_disk

update-good : (update stroke_durations good_answers to_debug sample_store empty_disk).2 ≡ none
unfolding update save_file
update-good = refl

new_store-update_example :
    IsRestarted
      (to_debug sample_config)
      (load no_environment stroke_durations)
      (new_store stroke_durations no_environment
        (update stroke_durations good_answers to_debug sample_store empty_disk).1
        "/data/config.json").cfg
new_store-update_example =
    new_store-update stroke_durations stroke_durations-IsDurations good_answers to_debug
      sample_store empty_disk no_environment path_ne update-good

-- Two passwords that are set look alike.
to_dto_redacted_example :
    to_dto stroke_durations (record sample_config { mqtt_pass = "secret" })
    ≡ to_dto stroke_durations (record sample_config { mqtt_pass = other_password })
to_dto_redacted_example =
    to_dto_redacted stroke_durations sample_config "secret" other_password set_ne.0 set_ne.1

abbrev dto : ConfigDto
dto = record {
  serial_port = "";
  baud_rate = pos 9600;
  mqtt_broker = "tcp://localhost:1883";
  mqtt_topic_prefix = "vbus";
  mqtt_user = "";
  mqtt_pass = "";
  mqtt_retain = true;
  mqtt_qos = pos 2;
  publish_interval = "30s";
  log_level = "info";
  log_format = "json";
}

-- Every text is thirty seconds.
abbrev half_minute : Durations
half_minute = record { parse = λ text. some (pos 30_000_000_000); print = λ n. "30s" }

put_body_lem_example :
    let (w', response) = put_body half_minute good_answers (some dto) world in
    (¬ IsAcceptable half_minute (some dto)) × (w' ≡ world) × (response.code ≡ 400)
    ⊎ ((body : ConfigDto) × (some dto ≡ some body)
        × IsValid half_minute body
        × IsApplied half_minute body sample_config w'.store.cfg
        × IsAccepted w'.store.cfg
        × (w'.store.version ≡ (3 + 1) % 2 ^ 64)
        × (w'.status ≡ world.status)
        × IsAnswered half_minute world w' response.code)
put_body_lem_example = put_body_lem half_minute good_answers (some dto) world

-- The body is accepted, and the password stays.
put_body-run :
    let (w', response) = put_body half_minute good_answers (some dto) world in
    (response.code ≡ 200) × (w'.store.cfg.mqtt_pass ≡ "secret") × (w'.store.cfg.serial_port ≡ "")
unfolding put_body put_dto put_update update save_file read_interval check_dto apply_dto to_byte
put_body-run = (refl, refl, refl)

sample_config-IsAccepted : IsAccepted sample_config
sample_config-IsAccepted = record {
  interval = omega arith;
  qos = omega arith;
  level = refl;
  format = refl;
}

put_body-to_dto_example :
    (put_body stroke_durations good_answers
      (some (to_dto stroke_durations sample_config))
      world).0.store.cfg
    ≡ sample_config
put_body-to_dto_example =
    put_body-to_dto stroke_durations good_answers stroke_durations-IsDurations world
      sample_config-IsAccepted

serve_unauthorized_example :
    ((serve stroke_durations good_answers 9 server anonymous world).0 ≡ world)
    × IsRefusal
        (serve stroke_durations good_answers 9 server anonymous world).1.code
        (serve stroke_durations good_answers 9 server anonymous world).1.content
serve_unauthorized_example =
    serve_unauthorized stroke_durations good_answers 9 server anonymous world user_ne refuses
      config_ne

serve_read_only_example : (serve stroke_durations good_answers 9 server anonymous world).0 ≡ world
serve_read_only_example =
    serve_read_only stroke_durations good_answers 9 server anonymous world (inl get_ne)
