-- ===== src/Vbus/Frame.antt =====
-- The data of internal/vbus/parser.go. A byte is a number below 256, a le_uint16 one below 2 ^ 16.
use vbus2mqtt.Prelude.{ℕ, ◌+◌, ◌*◌, ◌^◌, ◌<◌, List}

abbrev pub Bytes : Type 0
Bytes = List ℕ

abbrev pub IsByte : ℕ → Type 0
IsByte b = b < 256

abbrev pub IsWord : ℕ → Type 0
IsWord w = w < 2 ^ 16

-- `syncByte`
abbrev pub sync_byte : ℕ
sync_byte = 0xaa

-- `Frame`
pub record Frame : Type 0 where
  pub destination : ℕ
  pub source : ℕ
  pub command : ℕ
  pub payload : Bytes

-- `binary.LittleEndian.Uint16` of two bytes.
abbrev pub le_uint16 : ℕ → ℕ → ℕ
le_uint16 lo hi = lo + 256 * hi
