-- ===== src/Vbus/Parser.antt =====
-- `Parser` of internal/vbus/parser.go: the buffer of raw bytes and the loop that takes frames
-- out of it. The log is left out.
pub mod Measure
pub mod Chunks
pub mod Session
pub mod Delivery
pub mod Bounds
use vbus2mqtt.Prelude.{
  ℕ, zero, suc, ◌+◌, ◌*◌, not, List, [], ◌∷◌, ◌++◌, Option, none, some, Option, ltb, ◌==◌,
  if◌then◌else◌, get_or, drop, length,
}
use vbus2mqtt.Vbus.Frame.{Bytes, Frame, sync_byte, le_uint16}
use vbus2mqtt.Vbus.Checksum.{checksum}
use vbus2mqtt.Vbus.Subframe.{slice, decode_sub_frames}

-- The search for SYNC: the buffer from the first `syncByte` on, `none` where there is none
-- (`idx < 0`).
unfoldable pub locate : Bytes → Option Bytes
locate [] = none
locate (b ∷ bs) = if b == sync_byte then some (b ∷ bs) else locate bs

-- What one round of the `for` loop does: `break` with a buffer, `continue` with a buffer, or
-- append a frame and go on.
pub data Round : Type 0 where
  halt : Bytes → Round
  skip : Bytes → Round
  emit : Frame → Bytes → Round

-- `buf = buf[1:]; continue`
abbrev pub skip_sync : Bytes → Round
skip_sync buf = skip (drop 1 buf)

-- The frame of a header and its payload.
abbrev pub header_frame : Bytes → Bytes → Frame
header_frame buf payload = record {
  destination = le_uint16 (get_or buf 1 0) (get_or buf 2 0);
  source = le_uint16 (get_or buf 3 0) (get_or buf 4 0);
  command = le_uint16 (get_or buf 6 0) (get_or buf 7 0);
  payload = payload;
}

-- From `totalLen := 10 + nFrames*6` on.
unfoldable pub read_body : ℕ → Bytes → Round
read_body n buf =
    if ltb (length buf) (10 + n * 6)
    then halt buf
    else elim (decode_sub_frames (slice 10 (10 + n * 6) buf) n) [
      | none ↦ skip_sync buf
      | some payload ↦ emit (header_frame buf payload) (drop (10 + n * 6) buf)
    ]

-- From `need full header (10 bytes)` on, at a buffer that begins with SYNC.
unfoldable pub read_header : Bytes → Round
read_header buf =
    if ltb (length buf) 10
    then halt buf
    else if not (get_or buf 5 0 == 0x10)
    then skip_sync buf
    else if not (get_or buf 9 0 == checksum (slice 1 9 buf))
    then skip_sync buf
    else read_body (get_or buf 8 0) buf

-- The body of the `for` loop.
unfoldable pub round : Bytes → Round
round buf = elim (locate buf) [ none ↦ halt [] | some at_sync ↦ read_header at_sync ]

-- The loop of `drain`, with fuel; `none` means that the fuel ran out.
unfoldable pub drain_loop : ℕ → Bytes → List Frame → Option (List Frame × Bytes)
drain_loop zero buf out = none
drain_loop (suc fuel) buf out = elim (round buf) [
  | halt rest ↦ some (out, rest)
  | skip rest ↦ drain_loop fuel rest out
  | emit frame rest ↦ drain_loop fuel rest (out ++ (frame ∷ []))
]

-- `drain`: a round that goes on takes a byte at least.
unfoldable pub drain : Bytes → Option (List Frame × Bytes)
drain buf = drain_loop (suc (length buf)) buf []

-- `Parser`
pub record Parser : Type 0 where
  pub buf : Bytes

-- `NewParser`
abbrev pub new_parser : Parser
new_parser = record { buf = [] }

-- `Feed`: the frames, and the parser with what is left in its buffer.
unfoldable pub feed : Parser → Bytes → Option (List Frame × Parser)
feed p bytes = elim (drain (p.buf ++ bytes)) [
  | none ↦ none
  | some (frames, rest) ↦ some (frames, record { buf = rest })
]
