-- ===== src/Web.antt =====
-- internal/web/server.go: the settings UI and its API. A request comes with its body already read as
-- JSON, a response is its code and what it says.
pub mod Access
pub mod Checks
pub mod Settings
use Prim.Native.String.{String}
use text.Mathlib.Text.{◌==◌ as str_eq}
use vbus2mqtt.Prelude.{
  ℕ, ◌^◌, Bool, true, false, not, ◌&&◌, ◌||◌, Option, none, some, if◌then◌else◌,
}
use vbus2mqtt.Prelude.Int.{ℤ, pos, ltb_ℤ}
use vbus2mqtt.Config.{Config, Durations}
use vbus2mqtt.Config.Env.{to_byte}
use vbus2mqtt.Config.Store.{Store, Disk, Answers, update}
use vbus2mqtt.Status.{Status, Snapshot, snapshot}

-- `configDTO`
pub record ConfigDto : Type 0 where
  pub serial_port : String
  pub baud_rate : ℤ
  pub mqtt_broker : String
  pub mqtt_topic_prefix : String
  pub mqtt_user : String
  pub mqtt_pass : String
  pub mqtt_retain : Bool
  pub mqtt_qos : ℤ
  pub publish_interval : String
  pub log_level : String
  pub log_format : String

pub data Rejection : Type 0 where
  invalid_json invalid_interval invalid_qos invalid_log_level invalid_log_format : Rejection

pub data Content : Type 0 where
  page : Content
  health : String → Content
  config : ConfigDto → Content
  status : Snapshot → Content
  saved : Content
  unauthorized save_failed not_found method_not_allowed moved : Content
  rejected : Rejection → Content

pub record Response : Type 0 where
  pub code : ℕ
  pub content : Content

abbrev pub reply : ℕ → Content → Response
reply code content = record { code = code; content = content }

-- `Server`, without the store and the status that it shares.
pub record Server : Type 0 where
  pub version : String
  pub web_user : String
  pub web_pass : String

-- `New`
abbrev pub new_server : Store → String → Server
new_server s version = record {
  version = version;
  web_user = s.cfg.web_user;
  web_pass = s.cfg.web_pass;
}

-- A request, with the credentials of its `Authorization` header, if it has any, and its body as a
-- structure, if it is one. Whether `ServeMux` leaves the path as it is comes with the path.
pub record Request : Type 0 where
  pub method : String
  pub path : String
  pub is_clean : Bool
  pub credentials : Option (String × String)
  pub body : Option ConfigDto

-- What the handlers share.
pub record World : Type 0 where
  pub store : Store
  pub disk : Disk
  pub status : Status

abbrev pub Handler : Type 0
Handler = Request → World → World × Response

-- The test in `basicAuth`.
unfoldable pub authorized : Server → Option (String × String) → Bool
authorized s none = false
authorized s (some (u, p)) = str_eq u s.web_user && str_eq p s.web_pass

-- `basicAuth`
unfoldable pub basic_auth : Server → Handler → Handler
basic_auth s h r w =
    if str_eq s.web_user ""
    then h r w
    else if not (authorized s r.credentials)
    then (w, reply 401 unauthorized)
    else h r w

-- `handleUI` and `handleHealth`
abbrev pub handle_ui : Handler
handle_ui r w = (w, reply 200 page)

abbrev pub handle_health : Server → Handler
handle_health s r w = (w, reply 200 (health s.version))

module _ (t : Durations) where
  -- The structure that `handleGetConfig` answers with.
  unfoldable pub to_dto : Config → ConfigDto
  to_dto cfg = record {
    serial_port = cfg.serial_port;
    baud_rate = cfg.baud_rate;
    mqtt_broker = cfg.mqtt_broker;
    mqtt_topic_prefix = cfg.mqtt_topic_prefix;
    mqtt_user = cfg.mqtt_user;
    mqtt_pass = if not (str_eq cfg.mqtt_pass "") then "****" else "";
    mqtt_retain = cfg.mqtt_retain;
    mqtt_qos = pos cfg.mqtt_qos;
    publish_interval = t.print cfg.publish_interval;
    log_level = cfg.log_level;
    log_format = cfg.log_format;
  }

  -- `handleGetConfig`
  unfoldable pub handle_get_config : Handler
  handle_get_config r w = (w, reply 200 (config (to_dto w.store.cfg)))

-- The function that `handlePutConfig` hands to `Update`.
unfoldable pub apply_dto : ConfigDto → ℤ → Config → Config
apply_dto dto interval c = record c {
  serial_port = dto.serial_port;
  baud_rate = dto.baud_rate;
  mqtt_broker = dto.mqtt_broker;
  mqtt_topic_prefix = dto.mqtt_topic_prefix;
  mqtt_user = dto.mqtt_user;
  mqtt_pass =
      if not (str_eq dto.mqtt_pass "") && not (str_eq dto.mqtt_pass "****")
      then dto.mqtt_pass
      else c.mqtt_pass;
  mqtt_retain = dto.mqtt_retain;
  mqtt_qos = to_byte dto.mqtt_qos;
  publish_interval = interval;
  log_level = dto.log_level;
  log_format = dto.log_format;
}

-- `time.Second`
abbrev pub second : ℤ
second = pos (10 ^ 9)

abbrev pub is_log_level : String → Bool
is_log_level l = str_eq l "debug" || str_eq l "info" || str_eq l "warn" || str_eq l "error"

abbrev pub is_log_format : String → Bool
is_log_format f = str_eq f "json" || str_eq f "text"

-- The checks of `handlePutConfig` behind the interval, in their order.
unfoldable pub check_dto : ConfigDto → Option Rejection
check_dto dto =
    if ltb_ℤ dto.mqtt_qos (pos 0) || ltb_ℤ (pos 2) dto.mqtt_qos
    then some invalid_qos
    else if not (is_log_level dto.log_level)
    then some invalid_log_level
    else if not (is_log_format dto.log_format)
    then some invalid_log_format
    else none

-- The interval, if it can be read and is a second at least.
unfoldable pub read_interval : Durations → String → Option ℤ
read_interval t s = elim (t.parse s) [
  | none ↦ none
  | some interval ↦ if ltb_ℤ interval second then none else some interval
]

module _ (t : Durations) (a : Answers) where
  -- From `s.store.Update` on.
  unfoldable pub put_update : ConfigDto → ℤ → World → World × Response
  put_update dto interval w =
      let (store, disk, result) = update t a (apply_dto dto interval) w.store w.disk in
      let w' : World = record w { store = store; disk = disk } in
      elim result [ some e ↦ (w', reply 500 save_failed) | none ↦ (w', reply 200 saved) ]

  -- `handlePutConfig` on a body that is JSON.
  unfoldable pub put_dto : ConfigDto → World → World × Response
  put_dto dto w = elim (read_interval t dto.publish_interval) [
    | none ↦ (w, reply 400 (rejected invalid_interval))
    | some interval ↦ elim (check_dto dto) [
      | some why ↦ (w, reply 400 (rejected why))
      | none ↦ put_update dto interval w
    ]
  ]

  -- `handlePutConfig`
  unfoldable pub put_body : Option ConfigDto → World → World × Response
  put_body none w = (w, reply 400 (rejected invalid_json))
  put_body (some dto) w = put_dto dto w

  abbrev pub handle_put_config : Handler
  handle_put_config r w = put_body r.body w

-- `handleGetStatus`
abbrev pub handle_get_status : ℕ → Handler
handle_get_status now r w = (w, reply 200 (status (snapshot now w.status)))

-- The routes that `Start` registers. A pattern with GET takes HEAD too, and a path that has routes
-- for other methods only is answered with 405.
module _ (t : Durations) (a : Answers) (now : ℕ) (s : Server) where
  abbrev pub on_get : Handler → Handler
  on_get h r w =
      if str_eq r.method "GET" || str_eq r.method "HEAD"
      then h r w
      else (w, reply 405 method_not_allowed)

  abbrev pub route_config : Handler
  route_config r w =
      if str_eq r.method "PUT"
      then basic_auth s (handle_put_config t a) r w
      else on_get (basic_auth s (handle_get_config t)) r w

  unfoldable pub dispatch : Handler
  dispatch r w =
      if str_eq r.path "/"
      then on_get (basic_auth s handle_ui) r w
      else if str_eq r.path "/health"
      then on_get (handle_health s) r w
      else if str_eq r.path "/api/config"
      then route_config r w
      else if str_eq r.path "/api/status"
      then on_get (basic_auth s (handle_get_status now)) r w
      else (w, reply 404 not_found)

  -- `ServeMux` before the routes: a path that has to be cleaned is answered with 301.
  unfoldable pub serve : Handler
  serve r w =
      if not r.is_clean && not (str_eq r.method "CONNECT")
      then (w, reply 301 moved)
      else dispatch r w
