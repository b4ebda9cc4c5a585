-- ===== src/Mqtt/Client/Discovery.antt =====
-- What one call of `publishDiscovery` announces.
use Prim.Native.String.{String}
use mathlib.Core.List.{map}
use text.Mathlib.Text.{◌==◌}
use text.Mathlib.TextEquality.{eq_iff}
use vbus2mqtt.Prelude.{
  ℕ, ◌+◌, ◌≡◌, refl, ◌||◌, Bool-cases, inl, inr, List, [], ◌∷◌, if◌then◌else◌, arith,
}
use vbus2mqtt.Prelude.Text.{member}
use vbus2mqtt.Config.{Config}
use vbus2mqtt.Vbus.Registry.{TelemetryField}
use vbus2mqtt.Mqtt.Slug.{Unicode}
use vbus2mqtt.Mqtt.Client.{cache_key, discovery_message, publish_discovery}

-- How often a text stands in a list.
unfoldable pub count : String → List String → ℕ
count k [] = 0
count k (j ∷ s) = (if j == k then 1 else 0) + count k s

module _ {W : Type 0} (u : Unicode) (src : ℕ) where
  abbrev pub keys : List (TelemetryField W) → List String
  keys = map (cache_key u src)

  -- The fields that a call announces: those whose key is not in the cache when their turn comes.
  unfoldable pub announced : List (TelemetryField W) → List String → List (TelemetryField W)
  announced [] discovered = []
  announced (f ∷ fs) discovered =
      let already = member (cache_key u src f) discovered in
      let rest = announced fs (if already then discovered else cache_key u src f ∷ discovered) in
      if already then rest else f ∷ rest

  -- The cache after a call holds what it held and the keys of all fields, and nothing else.
  pub publish_discovery-cache :
      (device : String) (cfg : Config) (fs : List (TelemetryField W)) (discovered : List String)
      (k : String)
      → member k (publish_discovery u src device cfg fs discovered).0
        ≡ member k discovered || member k (keys fs)
  unfolding publish_discovery member
  publish_discovery-cache device cfg [] discovered k = ground arith
  publish_discovery-cache device cfg (f ∷ fs) discovered k =
      elim (Bool-cases (member (cache_key u src f) discovered)) [
        | inl old ↦ ground (
          arith,
          old,
          publish_discovery-cache device cfg fs discovered k,
          eq_iff (cache_key u src f) k,
        )
        | inr new ↦ ground (
          arith,
          new,
          publish_discovery-cache device cfg fs (cache_key u src f ∷ discovered) k,
          eq_iff (cache_key u src f) k,
        )
      ]

  pub messages-announced :
      (device : String) (cfg : Config) (fs : List (TelemetryField W)) (discovered : List String)
      → (publish_discovery u src device cfg fs discovered).1
        ≡ map (discovery_message u src device cfg) (announced fs discovered)
  unfolding publish_discovery announced
  messages-announced device cfg [] discovered = refl
  messages-announced device cfg (f ∷ fs) discovered =
      elim (Bool-cases (member (cache_key u src f) discovered)) [
        | inl old ↦ ground (arith, old, messages-announced device cfg fs discovered)
        | inr new ↦
            ground (arith, new, messages-announced device cfg fs (cache_key u src f ∷ discovered))
      ]

  count-announced :
      (fs : List (TelemetryField W)) (discovered : List String) (k : String)
      → count k (keys (announced fs discovered))
        ≡ (if member k discovered then 0 else if member k (keys fs) then 1 else 0)
  unfolding announced member count
  count-announced [] discovered k = ground arith
  count-announced (f ∷ fs) discovered k =
      elim (Bool-cases (member (cache_key u src f) discovered)) [
        | inl old ↦
            ground (arith, old, count-announced fs discovered k, eq_iff (cache_key u src f) k)
        | inr new ↦ ground (
          arith,
          new,
          count-announced fs (cache_key u src f ∷ discovered) k,
          eq_iff (cache_key u src f) k,
        )
      ]

  -- A call of `publishDiscovery` sends one message for each key of its fields that is not in the
  -- cache, that of the first field with the key, and none for a key that is.
  pub publish_discovery_once :
      (device : String) (cfg : Config) (fs : List (TelemetryField W)) (discovered : List String)
      (k : String)
      → ((publish_discovery u src device cfg fs discovered).1
          ≡ map (discovery_message u src device cfg) (announced fs discovered))
        × (count k (keys (announced fs discovered))
            ≡ (if member k discovered then 0 else if member k (keys fs) then 1 else 0))
  publish_discovery_once device cfg fs discovered k =
      (messages-announced device cfg fs discovered, count-announced fs discovered k)
