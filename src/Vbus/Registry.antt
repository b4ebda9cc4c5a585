-- ===== src/Vbus/Registry.antt =====
-- internal/vbus/registry.go: the table of known devices, and the decoding of a payload by it.
-- `W` stands for `float64`. Names and units are texts; an error is `none`, since no caller reads
-- its message. Offsets are natural numbers, as they are in every table of the program.
pub mod Keys
pub mod Fields
pub mod Defaults
pub mod Audit
pub mod Generated
use Prim.Native.String.{String}
use Prim.Native.String
use vbus2mqtt.Prelude.{
  ℕ, ◌+◌, ◌-◌, ◌*◌, ◌%◌, ◌^◌, Bool, true, false, not, List, [], ◌∷◌, Option, none, some, bit_and,
  bit_or, ltb, leb, ◌==◌, if◌then◌else◌, get_or, length,
}
use vbus2mqtt.Prelude.Int.{ℤ, pos, negsuc}
use vbus2mqtt.Vbus.Frame.{Bytes, Frame, le_uint16}
use vbus2mqtt.Vbus.Double.{Double}
use vbus2mqtt.Vbus.Hex.{hex4}

-- `FieldType`, a uint8 with five named values.
pub data FieldType : Type 0 where
  int16 uint8 uint16 uint32 bit : FieldType
  other : ℕ → FieldType

-- `FieldDef`
pub record FieldDef (W : Type 0) : Type 0 where
  pub name : String
  pub offset : ℕ
  pub type : FieldType
  pub factor : W
  pub unit : String
  pub bit_index : ℕ

-- `PacketDef`
pub record PacketDef (W : Type 0) : Type 0 where
  pub device_name : String
  pub fields : List (FieldDef W)

-- `Registry`, a map with the latest entry of a key in front.
abbrev pub Registry : Type 0 → Type 0
Registry W = List (ℕ × PacketDef W)

-- `pkey`, on uint64.
unfoldable pub pkey : ℕ → ℕ → ℕ → ℕ
pkey src dst cmd = bit_or (bit_or (src * 2 ^ 32 % 2 ^ 64) (dst * 2 ^ 16 % 2 ^ 64)) cmd

module _ {W : Type 0} where
  -- `r[key]`
  unfoldable pub find : ℕ → Registry W → Option (PacketDef W)
  find key [] = none
  find key ((k, def) ∷ r) = if k == key then some def else find key r

  -- `Lookup`
  unfoldable pub lookup : Registry W → ℕ → ℕ → ℕ → Option (PacketDef W)
  lookup r src dst cmd = find (pkey src dst cmd) r

  -- `Register`
  unfoldable pub register : Registry W → ℕ → ℕ → ℕ → PacketDef W → Registry W
  register r src dst cmd def = (pkey src dst cmd, def) ∷ r

module _ {W : Type 0} where
  -- A line of a table, `pkey(src, dst, cmd): {DeviceName: name, Fields: ...}`.
  abbrev pub entry : ℕ → ℕ → ℕ → String → List (FieldDef W) → ℕ × PacketDef W
  entry src dst cmd name fields = (pkey src dst cmd, record { device_name = name; fields = fields })

  -- A field of a table, `BitIndex` left at zero.
  abbrev pub field : String → ℕ → FieldType → W → String → FieldDef W
  field name offset type factor unit = record {
    name = name;
    offset = offset;
    type = type;
    factor = factor;
    unit = unit;
    bit_index = 0;
  }

-- `TelemetryField`
pub record TelemetryField (W : Type 0) : Type 0 where
  pub name : String
  pub value : W
  pub unit : String

-- `int16(w)` of a uint16.
unfoldable pub to_int16 : ℕ → ℤ
to_int16 w = if ltb w (2 ^ 15) then pos w else negsuc (2 ^ 16 - w - 1)

-- `binary.LittleEndian.Uint16(payload[off:])` and `Uint32`
abbrev pub read_uint16 : Bytes → ℕ → ℕ
read_uint16 payload off = le_uint16 (get_or payload off 0) (get_or payload (off + 1) 0)

abbrev pub read_uint32 : Bytes → ℕ → ℕ
read_uint32 payload off =
    get_or payload off 0
    + 2 ^ 8 * get_or payload (off + 1) 0
    + 2 ^ 16 * get_or payload (off + 2) 0
    + 2 ^ 24 * get_or payload (off + 3) 0

module _ {W : Type 0} ⦃d : Double W⦄ where
  -- `math.Round(float64(raw)*fd.Factor*100) / 100`
  abbrev pub scaled : W → ℤ → W
  scaled factor raw =
      d.div (d.round (d.mul (d.mul (d.of_ℤ raw) factor) (d.of_ℤ (pos 100)))) (d.of_ℤ (pos 100))

  -- The `switch` of `extractValue`; `none` is an error.
  unfoldable pub extract_typed : FieldType → Bytes → FieldDef W → Option W
  extract_typed bit payload fd =
      if leb (length payload) fd.offset
      then none
      else if not (bit_and (get_or payload fd.offset 0) (2 ^ fd.bit_index % 256) == 0)
      then some (d.of_ℤ (pos 1))
      else some (d.of_ℤ (pos 0))
  extract_typed uint8 payload fd =
      if leb (length payload) fd.offset
      then none
      else some (scaled fd.factor (pos (get_or payload fd.offset 0)))
  extract_typed int16 payload fd =
      if ltb (length payload) (fd.offset + 2)
      then none
      else some (scaled fd.factor (to_int16 (read_uint16 payload fd.offset)))
  extract_typed uint16 payload fd =
      if ltb (length payload) (fd.offset + 2)
      then none
      else some (scaled fd.factor (pos (read_uint16 payload fd.offset)))
  extract_typed uint32 payload fd =
      if ltb (length payload) (fd.offset + 4)
      then none
      else some (scaled fd.factor (pos (read_uint32 payload fd.offset)))
  extract_typed (other n) payload fd = none

  -- `extractValue`
  unfoldable pub extract_value : Bytes → FieldDef W → Option W
  extract_value payload fd = extract_typed fd.type payload fd

  -- The loop of `Decode` over the fields: a field with an error is left out.
  unfoldable pub extract_fields : Bytes → List (FieldDef W) → List (TelemetryField W)
  extract_fields payload [] = []
  extract_fields payload (fd ∷ fds) =
      let rest = extract_fields payload fds in
      elim (extract_value payload fd) [
        | none ↦ rest
        | some val ↦ record { name = fd.name; value = val; unit = fd.unit } ∷ rest
      ]

  -- `Decode`: the device's name, the fields, and whether the device is known.
  unfoldable pub decode : Frame → Registry W → String × List (TelemetryField W) × Bool
  decode f reg = elim (lookup reg f.source f.destination f.command) [
    | none ↦ (String.◌++◌ "src_0x" (hex4 f.source), [], false)
    | some def ↦ (def.device_name, extract_fields f.payload def.fields, true)
  ]
