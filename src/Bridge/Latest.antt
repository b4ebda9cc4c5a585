-- ===== src/Bridge/Latest.antt =====
-- What the accumulators hold after a batch of frames.
use vbus2mqtt.Prelude.{
  ℕ, ◌≡◌, refl, inl, inr, List, [], ◌∷◌, Option, Option-cases, none, some, ◌==◌, if◌then◌else◌,
  or_else, arith,
}
use vbus2mqtt.Vbus.Double.{Double}
use vbus2mqtt.Vbus.Frame.{Frame}
use vbus2mqtt.Vbus.Registry.{Registry, lookup, extract_fields, decode}
use vbus2mqtt.Bridge.{Accumulator, Accumulators, latest_of, store_at, absorb}

module _ {W : Type 0} where
  latest_of-store_at :
      (src k : ℕ) (a : Accumulator W) (m : Accumulators W)
      → latest_of k (store_at src a m) ≡ (if src == k then some a else latest_of k m)
  unfolding latest_of store_at
  latest_of-store_at src k a [] = refl
  latest_of-store_at src k a ((j, b) ∷ m) = ground (arith, latest_of-store_at src k a m)

module _ {W : Type 0} ⦃d : Double W⦄ (reg : Registry W) where
  -- What a frame says of its device, if the registry knows it.
  pub reading : Frame → Option (Accumulator W)
  reading f = elim (lookup reg f.source f.destination f.command) [
    | none ↦ none
    | some def ↦
        some (record { device = def.device_name; fields = extract_fields f.payload def.fields })
  ]

  -- The reading of the last known frame from a source.
  pub last_reading : ℕ → List Frame → Option (Accumulator W)
  last_reading src [] = none
  last_reading src (f ∷ fs) =
      or_else (last_reading src fs) (if f.source == src then reading f else none)

  -- One round of the loop over the frames.
  absorb_known :
      (f : Frame) (fs : List Frame) (m : Accumulators W) {a : Accumulator W}
      → reading f ≡ some a
      → absorb reg (f ∷ fs) m ≡ absorb reg fs (store_at f.source a m)
  unfolding absorb reading decode
  absorb_known f fs m e = elim (Option-cases (lookup reg f.source f.destination f.command)) [
    | inl unknown ↦ ground (arith, unknown)
    | inr (def, known) ↦ ground (arith, known)
  ]

  absorb_unknown :
      (f : Frame) (fs : List Frame) (m : Accumulators W)
      → reading f ≡ none
      → absorb reg (f ∷ fs) m ≡ absorb reg fs m
  unfolding absorb reading decode
  absorb_unknown f fs m e = elim (Option-cases (lookup reg f.source f.destination f.command)) [
    | inl unknown ↦ ground (arith, unknown)
    | inr (def, known) ↦ ground (arith, known)
  ]

  -- After a batch of frames the accumulator of a source is the reading of the last frame from that
  -- source that the registry knows, and what it was if there is none.
  pub absorb_lem :
      (fs : List Frame) (m : Accumulators W) (src : ℕ)
      → latest_of src (absorb reg fs m) ≡ or_else (last_reading src fs) (latest_of src m)
  unfolding last_reading
  absorb_lem [] m src = unfold absorb in refl
  absorb_lem (f ∷ fs) m src = elim (Option-cases (reading f)) [
    | inl unknown ↦ ground (arith, absorb_unknown f fs m unknown, absorb_lem fs m src)
    | inr (a, known) ↦ ground (
      arith,
      absorb_known f fs m known,
      absorb_lem fs (store_at f.source a m) src,
      latest_of-store_at f.source src a m,
    )
  ]
