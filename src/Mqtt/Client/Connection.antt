-- ===== src/Mqtt/Client/Connection.antt =====
-- What the calls of `publishDiscovery` in one connection send together.
use Prim.Native.String.{String}
use mathlib.Core.List.{map}
use text.Mathlib.Text.{◌==◌}
use text.Mathlib.TextEquality.{eq_iff}
use vbus2mqtt.Prelude.{
  ℕ, ◌≡◌, refl, ap, sym, ◌∙◌, Bool-cases, inl, inr, true, List, [], ◌∷◌, ◌++◌, if◌then◌else◌, arith,
}
use vbus2mqtt.Prelude.Text.{member}
use vbus2mqtt.Config.{Config}
use vbus2mqtt.Vbus.Registry.{TelemetryField}
use vbus2mqtt.Mqtt.Slug.{Unicode}
use vbus2mqtt.Mqtt.Client.{Message, cache_key, discovery_message, publish_discovery, on_connect}
use vbus2mqtt.Mqtt.Client.Discovery.{count}

-- A call: the source, the device's name, the configuration and the fields.
abbrev pub Call : Type 0 → Type 0
Call W = ℕ × String × Config × List (TelemetryField W)

-- One field of a call, with what the call says of it.
abbrev pub Item : Type 0 → Type 0
Item W = ℕ × String × Config × TelemetryField W

abbrev pub items : {W : Type 0} → List (Call W) → List (Item W)
items [] = []
items ((src, device, cfg, fs) ∷ calls) = map (λ f. (src, device, cfg, f)) fs ++ items calls

module _ {W : Type 0} (u : Unicode) where
  abbrev pub item_key : Item W → String
  item_key (src, device, cfg, f) = cache_key u src f

  abbrev pub item_message : Item W → Message W
  item_message (src, device, cfg, f) = discovery_message u src device cfg f

  -- The messages that the calls send, in their order, from a cache on.
  unfoldable pub sent_all : List (Call W) → List String → List (Message W)
  sent_all [] discovered = []
  sent_all ((src, device, cfg, fs) ∷ calls) discovered =
      let (after, messages) = publish_discovery u src device cfg fs discovered in
      messages ++ sent_all calls after

  unfoldable pub without : String → List (Item W) → List (Item W)
  without k [] = []
  without k (x ∷ xs) = let rest = without k xs in if item_key x == k then rest else x ∷ rest

  -- The first item with each key.
  unfoldable pub firsts : List (Item W) → List (Item W)
  firsts [] = []
  firsts (x ∷ xs) = x ∷ without (item_key x) (firsts xs)

  -- The items whose key is in no cache.
  unfoldable unknown : List String → List (Item W) → List (Item W)
  unknown seen [] = []
  unknown seen (x ∷ xs) =
      let rest = unknown seen xs in if member (item_key x) seen then rest else x ∷ rest

  unknown_nil : (xs : List (Item W)) → unknown [] xs ≡ xs
  unfolding unknown member
  unknown_nil [] = refl
  unknown_nil (x ∷ xs) = ap (λ (t : List (Item W)). x ∷ t) (unknown_nil xs)

  unknown-cons :
      (seen : List String) (k : String) (xs : List (Item W))
      → unknown (k ∷ seen) xs ≡ unknown seen (without k xs)
  unfolding unknown without member
  unknown-cons seen k [] = refl
  unknown-cons seen k (x ∷ xs) =
      ground (arith, unknown-cons seen k xs, eq_iff (item_key x) k, eq_iff k (item_key x))

  -- A key that is known need not be taken out.
  unknown-without :
      (seen : List String) (k : String) (xs : List (Item W))
      → member k seen ≡ true
      → unknown seen (without k xs) ≡ unknown seen xs
  unfolding unknown without
  unknown-without seen k [] h = refl
  unknown-without seen k (x ∷ xs) h =
      ground (arith, unknown-without seen k xs h, eq_iff (item_key x) k)

  -- A call sends the items that are not in the cache, each key once, and its cache goes on for the
  -- items `more` of later calls.
  publish_discovery-firsts :
      (src : ℕ) (device : String) (cfg : Config) (fs : List (TelemetryField W))
      (discovered : List String) (more : List (Item W))
      → map item_message (unknown discovered (firsts (map (λ f. (src, device, cfg, f)) fs ++ more)))
        ≡ (publish_discovery u src device cfg fs discovered).1
          ++ map item_message
              (unknown (publish_discovery u src device cfg fs discovered).0 (firsts more))
  unfolding publish_discovery firsts unknown
  publish_discovery-firsts src device cfg [] discovered more = refl
  publish_discovery-firsts src device cfg (f ∷ fs) discovered more =
      let k = cache_key u src f in
      let rest = firsts (map (λ g. (src, device, cfg, g)) fs ++ more) in
      elim (Bool-cases (member k discovered)) [
        | inl old ↦
            rw (old, unknown-without discovered k rest old)
              (publish_discovery-firsts src device cfg fs discovered more)
        | inr new ↦
            rw (new, sym (unknown-cons discovered k rest))
              (ap (λ (t : List (Message W)). discovery_message u src device cfg f ∷ t)
                (publish_discovery-firsts src device cfg fs (k ∷ discovered) more))
      ]

  sent_all-unknown :
      (calls : List (Call W)) (discovered : List String)
      → sent_all calls discovered ≡ map item_message (unknown discovered (firsts (items calls)))
  unfolding sent_all firsts unknown
  sent_all-unknown [] discovered = refl
  sent_all-unknown ((src, device, cfg, fs) ∷ calls) discovered =
      let p = publish_discovery u src device cfg fs discovered in
      ap (λ (t : List (Message W)). p.1 ++ t) (sent_all-unknown calls p.0)
      ∙ sym (publish_discovery-firsts src device cfg fs discovered (items calls))

  count-without :
      (j k : String) (xs : List (Item W))
      → count k (map item_key (without j xs)) ≡ (if j == k then 0 else count k (map item_key xs))
  unfolding count without
  count-without j k [] = ground arith
  count-without j k (x ∷ xs) =
      ground (arith, count-without j k xs, eq_iff (item_key x) j, eq_iff (item_key x) k, eq_iff j k)

  count-firsts :
      (k : String) (xs : List (Item W))
      → count k (map item_key (firsts xs)) ≡ (if member k (map item_key xs) then 1 else 0)
  unfolding count firsts member
  count-firsts k [] = refl
  count-firsts k (x ∷ xs) =
      ground
        (arith, count-without (item_key x) k (firsts xs), count-firsts k xs, eq_iff (item_key x) k)

  -- After a connect the calls of `publishDiscovery`, for whatever sources and under whatever
  -- configurations, together send the message of the first field with each key, in their order, and
  -- no other: a key of a field of the calls is announced exactly once.
  pub sent_all_once :
      (calls : List (Call W)) (discovered : List String) (k : String)
      → (sent_all calls (on_connect discovered) ≡ map item_message (firsts (items calls)))
        × (count k (map item_key (firsts (items calls)))
            ≡ (if member k (map item_key (items calls)) then 1 else 0))
  sent_all_once calls discovered k = (
    sent_all-unknown calls [] ∙ ap (map item_message) (unknown_nil (firsts (items calls))),
    count-firsts k (items calls),
  )
