-- ===== src/Mqtt/Client.antt =====
-- `Client` of internal/mqtt/client.go. The paho client is a parameter: whether it is connected, and
-- how the token of a message ends. The lock on the cache makes each test-and-set one step.
pub mod Connection
pub mod Discovery
pub mod Telemetry
use Prim.Native.String
use Prim.Native.String.{String}
use text.Mathlib.Text.{◌==◌ as str_eq}
use vbus2mqtt.Prelude.{
  ℕ, Bool, true, false, not, ◌&&◌, List, [], ◌∷◌, ◌++◌, Option, none, some, if◌then◌else◌,
}
use vbus2mqtt.Prelude.Int.{ℤ}
use vbus2mqtt.Prelude.Text.{get, put, member}
use vbus2mqtt.Config.{Config}
use vbus2mqtt.Vbus.Double.{Double}
use vbus2mqtt.Vbus.Hex.{hex4}
use vbus2mqtt.Vbus.Registry.{TelemetryField}
use vbus2mqtt.Mqtt.Classes.{ha_class_from_unit}
use vbus2mqtt.Mqtt.Slug.{Unicode, lower, field_slug}

-- `haDevice`
pub record HaDevice : Type 0 where
  pub identifiers : List String
  pub name : String

-- `haDiscoveryPayload`
pub record HaDiscoveryPayload : Type 0 where
  pub name : String
  pub state_topic : String
  pub value_template : String
  pub unique_id : String
  pub unit_of_measurement : String
  pub device_class : String
  pub state_class : String
  pub device : HaDevice

-- `Payload`; a map is a dictionary, and `none` is the nil map that `omitempty` leaves out.
pub record Payload (W : Type 0) : Type 0 where
  pub device : String
  pub source : String
  pub timestamp : ℤ
  pub fields : List (String × W)
  pub units : Option (List (String × String))

-- What `json.Marshal` is given.
pub data Body (W : Type 0) : Type 0 where
  discovery : HaDiscoveryPayload → Body W
  telemetry : Payload W → Body W

-- The arguments of `inner.Publish`.
pub record Message (W : Type 0) : Type 0 where
  pub topic : String
  pub qos : ℕ
  pub retained : Bool
  pub body : Body W

-- How a token ends: `WaitTimeout` succeeds with no error, it does not succeed, or there is an error.
-- A token that ends without an error at QoS 0 says only that paho took the message.
pub data Outcome : Type 0 where
  completed timed_out failed : Outcome

pub data PublishError : Type 0 where
  marshal_failed publish_timeout publish_failed : PublishError

-- What `Publish` gives: the cache, the messages handed to paho in their order, and the error.
pub record Published (W : Type 0) : Type 0 where
  pub discovered : List String
  pub messages : List (Message W)
  pub error : Option PublishError

-- The error that the token of the telemetry gives.
abbrev pub token_error : Outcome → Option PublishError
token_error completed = none
token_error timed_out = some publish_timeout
token_error failed = some publish_failed

-- `if len(p.Units) == 0 { p.Units = nil }`
abbrev pub nil_if_empty : List (String × String) → Option (List (String × String))
nil_if_empty [] = none
nil_if_empty (e ∷ m) = some (e ∷ m)

infixr 65 ◌+s◌
abbrev pub ◌+s◌ : String → String → String
a +s b = String.◌++◌ a b

module _ {W : Type 0} (u : Unicode) where
  -- `cacheKey`
  abbrev pub cache_key : ℕ → TelemetryField W → String
  cache_key src f = hex4 src +s "/" +s f.name

  -- The message of one field in `publishDiscovery`.
  unfoldable pub discovery_message : ℕ → String → Config → TelemetryField W → Message W
  discovery_message src device_name cfg f =
      let src_hex = hex4 src in
      let (dc, sc) = ha_class_from_unit f.unit in
      let unique_id = "vbus2mqtt_" +s lower u src_hex +s "_" +s field_slug u f.name in
      record {
        topic = cfg.mqtt_ha_discovery_prefix +s "/sensor/" +s unique_id +s "/config";
        qos = 0;
        retained = true;
        body = discovery (record {
          name = device_name +s " " +s f.name;
          state_topic = cfg.mqtt_topic_prefix +s "/" +s src_hex;
          value_template = "{{ value_json.fields." +s f.name +s " }}";
          unique_id = unique_id;
          unit_of_measurement = f.unit;
          device_class = dc;
          state_class = sc;
          device = record {
            identifiers = ("vbus2mqtt_" +s lower u src_hex) ∷ [];
            name = device_name;
          };
        });
      }

  -- The loop of `publishDiscovery`: the cache after it, and the messages. A message that times out
  -- or fails is logged, and the loop goes on: its outcome is not read.
  unfoldable pub publish_discovery :
      ℕ → String → Config → List (TelemetryField W) → List String → List String × List (Message W)
  publish_discovery src device_name cfg [] discovered = (discovered, [])
  publish_discovery src device_name cfg (f ∷ fs) discovered =
      let already = member (cache_key src f) discovered in
      let (after, messages) =
        publish_discovery src device_name cfg fs
          (if already then discovered else cache_key src f ∷ discovered) in
      if already
      then (after, messages)
      else (after, discovery_message src device_name cfg f ∷ messages)

module _ {W : Type 0} where
  -- `p.Fields[f.Name] = f.Value`, field by field.
  unfoldable pub put_values : List (TelemetryField W) → List (String × W) → List (String × W)
  put_values [] m = m
  put_values (f ∷ fs) m = put_values fs (put f.name f.value m)

  -- `if f.Unit != "" { p.Units[f.Name] = f.Unit }`, field by field.
  unfoldable pub put_units :
      List (TelemetryField W) → List (String × String) → List (String × String)
  put_units [] m = m
  put_units (f ∷ fs) m = put_units fs (if not (str_eq f.unit "") then put f.name f.unit m else m)

  -- The payload of a publication at time `now`.
  unfoldable pub payload_of : ℕ → String → List (TelemetryField W) → ℤ → Payload W
  payload_of src device fields now = record {
    device = device;
    source = "0x" +s hex4 src;
    timestamp = now;
    fields = put_values fields [];
    units = nil_if_empty (put_units fields []);
  }

module _ {W : Type 0} ⦃d : Double W⦄ where
  -- Whether `json.Marshal` can write the values.
  unfoldable pub all_finite : List (String × W) → Bool
  all_finite [] = true
  all_finite ((k, v) ∷ m) = d.is_finite v && all_finite m

  abbrev pub telemetry_message : ℕ → Config → Payload W → Message W
  telemetry_message src cfg p = record {
    topic = cfg.mqtt_topic_prefix +s "/" +s hex4 src;
    qos = cfg.mqtt_qos;
    retained = cfg.mqtt_retain;
    body = telemetry p;
  }

  -- `Publish`, where paho is connected or not, with the outcome of each message and the time.
  unfoldable pub publish :
      Unicode
      → (Message W → Outcome)
      → Bool
      → ℤ
      → Config
      → ℕ
      → String
      → List (TelemetryField W)
      → List String
      → Published W
  publish u outcome connected now cfg src device fields discovered =
      if not connected
      then record { discovered = discovered; messages = []; error = none }
      else (let (after, announced) =
            (if cfg.mqtt_ha_discovery
              then publish_discovery u src device cfg fields discovered
              else (discovered, [])) in
          let p = payload_of src device fields now in
          let m = telemetry_message src cfg p in
          if not (all_finite p.fields)
          then record { discovered = after; messages = announced; error = some marshal_failed }
          else record {
            discovered = after;
            messages = announced ++ (m ∷ []);
            error = token_error (outcome m);
          })

-- The `OnConnect` handler: the cache is cleared.
abbrev pub on_connect : List String → List String
on_connect discovered = []
