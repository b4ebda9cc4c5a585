-- ===== src/Vbus/Subframe.antt =====
-- `decodeSubFrames` of internal/vbus/parser.go: six bytes on the wire for four bytes of payload.
pub mod RoundTrip
pub mod Bounds
use vbus2mqtt.Prelude.{
  ℕ, zero, suc, ◌+◌, ◌-◌, ◌*◌, ◌^◌, not, [], ◌∷◌, ◌++◌, Option, none, some, bit_and, bit_or, ◌==◌,
  if◌then◌else◌, get_or, take, drop,
}
use vbus2mqtt.Vbus.Frame.{Bytes}
use vbus2mqtt.Vbus.Checksum.{checksum}

-- `data[from : to]`
abbrev pub slice : ℕ → ℕ → Bytes → Bytes
slice from to bytes = take (to - from) (drop from bytes)

-- `if septett&(1<<uint(j)) != 0 { decoded[j] |= 0x80 }`
unfoldable pub restore : ℕ → ℕ → ℕ → ℕ
restore septett j b = if not (bit_and septett (2 ^ j) == 0) then bit_or b 0x80 else b

-- `for j := range 4`, over the bytes copied from `raw`; `j` counts up.
unfoldable pub restore_all : ℕ → ℕ → Bytes → Bytes
restore_all septett j [] = []
restore_all septett j (b ∷ bs) = restore septett j b ∷ restore_all septett (j + 1) bs

-- One round of the loop over the sub-frames, at `base`; `none` is `return nil, false`.
unfoldable pub decode_sub_frame : Bytes → ℕ → Option Bytes
decode_sub_frame bytes base =
    let raw = slice base (base + 4) bytes in
    let septett = get_or bytes (base + 4) 0 in
    let cs = get_or bytes (base + 5) 0 in
    if not (cs == checksum (slice base (base + 5) bytes))
    then none
    else some (restore_all septett 0 raw)

-- `for i := range nFrames`: `left` rounds from `i` on, appending to `payload`.
unfoldable pub decode_loop : Bytes → ℕ → ℕ → Bytes → Option Bytes
decode_loop bytes zero i payload = some payload
decode_loop bytes (suc left) i payload = elim (decode_sub_frame bytes (i * 6)) [
  | none ↦ none
  | some decoded ↦ decode_loop bytes left (i + 1) (payload ++ decoded)
]

-- `decodeSubFrames`. The caller hands it `n * 6` bytes, so that no index is out of range.
unfoldable pub decode_sub_frames : Bytes → ℕ → Option Bytes
decode_sub_frames bytes n = decode_loop bytes n 0 []
