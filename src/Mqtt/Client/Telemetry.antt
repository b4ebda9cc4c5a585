-- ===== src/Mqtt/Client/Telemetry.antt =====
-- The message with a device's values.
use Prim.Native.String.{String}
use mathlib.Core.Option.{get_or}
use text.Mathlib.Text.{◌==◌ as str_eq}
use vbus2mqtt.Prelude.{
  ℕ, ◌≡◌, refl, not, ◌&&◌, Bool-cases, inl, inr, List, [], ◌∷◌, Option, none, some, if◌then◌else◌,
  arith, or_else,
}
use vbus2mqtt.Prelude.Int.{ℤ}
use vbus2mqtt.Prelude.Text.{get, put, get-put}
use vbus2mqtt.Vbus.Registry.{TelemetryField}
use vbus2mqtt.Mqtt.Client.{nil_if_empty, put_values, put_units, payload_of}

nil_if_empty-get :
    (m : List (String × String)) (k : String) → get k (get_or (nil_if_empty m) []) ≡ get k m
nil_if_empty-get [] k = refl
nil_if_empty-get (e ∷ m) k = refl

module _ {W : Type 0} where
  -- The value of the last field with a name.
  unfoldable pub last_value : String → List (TelemetryField W) → Option W
  last_value k [] = none
  last_value k (f ∷ fs) = or_else (last_value k fs) (if str_eq f.name k then some f.value else none)

  -- The unit of the last field with a name among those that have a unit.
  unfoldable pub last_unit : String → List (TelemetryField W) → Option String
  last_unit k [] = none
  last_unit k (f ∷ fs) =
      or_else (last_unit k fs)
        (if str_eq f.name k && not (str_eq f.unit "") then some f.unit else none)

  get-put_values :
      (fs : List (TelemetryField W)) (m : List (String × W)) (k : String)
      → get k (put_values fs m) ≡ or_else (last_value k fs) (get k m)
  unfolding put_values last_value get
  get-put_values [] m k = refl
  get-put_values (f ∷ fs) m k =
      ground (arith, get-put_values fs (put f.name f.value m) k, get-put f.name k f.value m)

  get-put_units :
      (fs : List (TelemetryField W)) (m : List (String × String)) (k : String)
      → get k (put_units fs m) ≡ or_else (last_unit k fs) (get k m)
  unfolding put_units last_unit get
  get-put_units [] m k = refl
  get-put_units (f ∷ fs) m k = elim (Bool-cases (str_eq f.unit "")) [
    | inl e ↦ ground (arith, e, get-put_units fs m k)
    | inr e ↦ ground (arith, e, get-put_units fs (put f.name f.unit m) k, get-put f.name k f.unit m)
  ]

  -- In the payload a name has the value of the last field with that name.
  pub payload_of-values :
      (src : ℕ) (device : String) (fs : List (TelemetryField W)) (now : ℤ) (k : String)
      → get k (payload_of src device fs now).fields ≡ last_value k fs
  unfolding payload_of get
  payload_of-values src device fs now k = ground (arith, get-put_values fs [] k)

  -- In the payload a name has the unit of the last field with that name and a unit, and no unit if
  -- there is none; a nil map counts as the empty one.
  pub payload_of-units :
      (src : ℕ) (device : String) (fs : List (TelemetryField W)) (now : ℤ) (k : String)
      → get k (get_or (payload_of src device fs now).units []) ≡ last_unit k fs
  unfolding payload_of get
  payload_of-units src device fs now k =
      ground (arith, nil_if_empty-get (put_units fs []) k, get-put_units fs [] k)
