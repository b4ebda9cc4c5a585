-- ===== src/Vbus/Registry/Fields.antt =====
-- `extractValue` and the loop of `Decode` against a description by little-endian numbers.
use mathlib.Core.List.{map}
use vbus2mqtt.Prelude.{
  ℕ, zero, suc, ◌+◌, ◌-◌, ◌*◌, ◌%◌, ◌^◌, ◌≡◌, ◌≤◌, refl, sym, ◌∙◌, ap, Bool, true, false, List, [],
  ◌∷◌, none, some, arith, bit_and, leb, ◌==◌, if◌then◌else◌, get_or, take, drop, length,
}
use native.Mathlib.Nat.{zero-add, suc-add, add-zero}
use vbus2mqtt.Prelude.Int.{ℤ, pos, negsuc, pos_part, neg_part, ◌≤ℤ◌}
use vbus2mqtt.Vbus.Double.{Double}
use vbus2mqtt.Vbus.Frame.{Bytes}
use vbus2mqtt.Vbus.Registry.{
  FieldType, int16, uint8, uint16, uint32, bit, other, FieldDef, TelemetryField, to_int16,
  extract_typed, extract_value, extract_fields, scaled, read_uint16, read_uint32,
}

-- How many bytes a field takes.
abbrev pub width : FieldType → ℕ
width bit = 1
width uint8 = 1
width int16 = 2
width uint16 = 2
width uint32 = 4
width (other n) = 0

abbrev pub is_known : FieldType → Bool
is_known (other n) = false
is_known _ = true

-- The number that bytes stand for, the lowest first.
abbrev pub little_endian : Bytes → ℕ
little_endian [] = 0
little_endian (b ∷ bs) = b + 256 * little_endian bs

-- The word that stands for a number of 16 bits with a sign, in two's complement.
abbrev pub twos_complement : ℤ → ℕ
twos_complement z = (pos_part z + 2 ^ 16 - neg_part z) % 2 ^ 16

-- The word is read back.
to_int16-twos_complement :
    (z : ℤ) → negsuc (2 ^ 15 - 1) ≤ℤ z → z ≤ℤ pos (2 ^ 15 - 1) → to_int16 (twos_complement z) ≡ z
unfolding to_int16
to_int16-twos_complement (pos k) lo hi = ground arith
to_int16-twos_complement (negsuc k) lo hi = ground arith

-- The bytes of a field.
abbrev pub field_bytes : {W : Type 0} → Bytes → FieldDef W → Bytes
field_bytes payload fd = take (width fd.type) (drop fd.offset payload)

get_or-drop :
    (payload : Bytes) (off i : ℕ) → get_or (drop off payload) i 0 ≡ get_or payload (off + i) 0
get_or-drop payload zero i = rw zero-add
get_or-drop [] (suc off) i = refl
get_or-drop (b ∷ bs) (suc off) i = rw suc-add (get_or-drop bs off i)

-- Up to four bytes, read one by one.
little_endian-read :
    (q : Bytes)
    → (little_endian (take 1 q) ≡ get_or q 0 0)
      × (little_endian (take 2 q) ≡ read_uint16 q 0)
      × (little_endian (take 4 q) ≡ read_uint32 q 0)
little_endian-read [] = omega arith
little_endian-read (a ∷ []) = omega arith
little_endian-read (a ∷ b ∷ []) = omega arith
little_endian-read (a ∷ b ∷ c ∷ []) = omega arith
little_endian-read (a ∷ b ∷ c ∷ e ∷ q) = omega arith

module _ (payload : Bytes) (off : ℕ) where
  pub read_one : little_endian (take 1 (drop off payload)) ≡ get_or payload off 0
  read_one = rw ((little_endian-read (drop off payload)).0, get_or-drop, add-zero)

  pub read_two : little_endian (take 2 (drop off payload)) ≡ read_uint16 payload off
  read_two = omega (
    arith,
    little_endian-read (drop off payload),
    get_or-drop payload off 0,
    get_or-drop payload off 1,
    ap (λ (t : ℕ). get_or payload t 0) (add-zero off),
  )

  pub read_four : little_endian (take 4 (drop off payload)) ≡ read_uint32 payload off
  read_four = omega (
    arith,
    little_endian-read (drop off payload),
    get_or-drop payload off 0,
    get_or-drop payload off 1,
    get_or-drop payload off 2,
    get_or-drop payload off 3,
    ap (λ (t : ℕ). get_or payload t 0) (add-zero off),
  )

module _ {W : Type 0} ⦃d : Double W⦄ where
  -- What a field is worth, by the bytes it takes: a flag for a bit, else the number, signed for
  -- Int16, scaled by the factor and rounded to two decimals.
  pub meaning : FieldType → FieldDef W → ℕ → W
  meaning bit fd n = d.of_ℤ (pos (if bit_and n (2 ^ fd.bit_index % 256) == 0 then 0 else 1))
  meaning int16 fd n = scaled fd.factor (to_int16 n)
  meaning _ fd n = scaled fd.factor (pos n)

  -- The field lies in the payload and has a type that the program knows.
  abbrev pub fits : Bytes → FieldDef W → Bool
  fits payload fd =
      if is_known fd.type then leb (fd.offset + width fd.type) (length payload) else false

  extract_typed_lem :
      (t : FieldType) (payload : Bytes) (fd : FieldDef W)
      → extract_typed t payload fd ≡ (
          if (if is_known t then leb (fd.offset + width t) (length payload) else false)
          then some (meaning t fd (little_endian (take (width t) (drop fd.offset payload))))
          else none)
  unfolding extract_typed meaning
  extract_typed_lem bit payload fd = ground (arith, read_one payload fd.offset)
  extract_typed_lem uint8 payload fd = ground (arith, read_one payload fd.offset)
  extract_typed_lem int16 payload fd = ground (arith, read_two payload fd.offset)
  extract_typed_lem uint16 payload fd = ground (arith, read_two payload fd.offset)
  extract_typed_lem uint32 payload fd = ground (arith, read_four payload fd.offset)
  extract_typed_lem (other n) payload fd = refl

  -- `extractValue` gives the value of the field's bytes where the field lies in the payload and its
  -- type is known, and an error in every other case.
  pub extract_value_lem :
      (payload : Bytes) (fd : FieldDef W)
      → extract_value payload fd ≡ (
          if fits payload fd
          then some (meaning fd.type fd (little_endian (field_bytes payload fd)))
          else none)
  unfolding extract_value
  extract_value_lem payload fd = extract_typed_lem fd.type payload fd

  -- An Int16 field that lies in the payload, and whose bytes stand for a number with a sign in two's
  -- complement, the lowest byte first, has that number's value, by its factor and rounded to two
  -- decimals.
  pub extract_value-int16 :
      (payload : Bytes) (fd : FieldDef W) (z : ℤ)
      → fd.type ≡ int16
      → fd.offset + 2 ≤ length payload
      → negsuc (2 ^ 15 - 1) ≤ℤ z
      → z ≤ℤ pos (2 ^ 15 - 1)
      → little_endian (take 2 (drop fd.offset payload)) ≡ twos_complement z
      → extract_value payload fd
        ≡ some (
            d.div
              (d.round (d.mul (d.mul (d.of_ℤ z) fd.factor) (d.of_ℤ (pos 100))))
              (d.of_ℤ (pos 100)))
  unfolding extract_value extract_typed
  extract_value-int16 payload fd z type fits low high word = rw type (
      ground (
        arith,
        fits,
        ap to_int16 (sym (read_two payload fd.offset) ∙ word),
        to_int16-twos_complement z low high,
      ))

  -- The fields that lie in the payload, in their order.
  unfoldable pub fitting : Bytes → List (FieldDef W) → List (FieldDef W)
  fitting payload [] = []
  fitting payload (fd ∷ fds) =
      if fits payload fd then fd ∷ fitting payload fds else fitting payload fds

  pub telemetry : Bytes → FieldDef W → TelemetryField W
  telemetry payload fd = record {
    name = fd.name;
    value = meaning fd.type fd (little_endian (field_bytes payload fd));
    unit = fd.unit;
  }

  -- The fields of a decoded packet are those of its definition that lie in the payload and have a
  -- known type, in the order of the definition, each with the value of its bytes.
  pub extract_fields_lem :
      (payload : Bytes) (fds : List (FieldDef W))
      → extract_fields payload fds ≡ map (telemetry payload) (fitting payload fds)
  unfolding extract_fields fitting telemetry
  extract_fields_lem payload [] = refl
  extract_fields_lem payload (fd ∷ fds) =
      ground (arith, extract_value_lem payload fd, extract_fields_lem payload fds)
