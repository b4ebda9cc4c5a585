-- ===== src/Vbus/Encoder.antt =====
-- `buildFrame` of internal/vbus/parser_test.go: the wire form of a frame, the specification that
-- the parser is held to.
use vbus2mqtt.Prelude.{ℕ, suc, ◌+◌, ◌*◌, ◌/◌, ◌%◌, [], ◌∷◌, ◌++◌}
use vbus2mqtt.Vbus.Frame.{Bytes, Frame, sync_byte}
use vbus2mqtt.Vbus.Checksum.{checksum}

-- The top bits of four bytes, the first byte's lowest.
abbrev pub septett : ℕ → ℕ → ℕ → ℕ → ℕ
septett a b c d = a / 128 + 2 * (b / 128) + 4 * (c / 128) + 8 * (d / 128)

-- Five bytes of a sub-frame: seven bits of each byte of payload, and the septett.
abbrev pub sub_frame_body : ℕ → ℕ → ℕ → ℕ → Bytes
sub_frame_body a b c d = a % 128 ∷ b % 128 ∷ c % 128 ∷ d % 128 ∷ septett a b c d ∷ []

unfoldable pub encode_sub_frame : ℕ → ℕ → ℕ → ℕ → Bytes
encode_sub_frame a b c d = sub_frame_body a b c d ++ (checksum (sub_frame_body a b c d) ∷ [])

-- The payload in sub-frames, the last one filled up with zeros.
unfoldable pub encode_payload : Bytes → Bytes
encode_payload [] = []
encode_payload (a ∷ []) = encode_sub_frame a 0 0 0
encode_payload (a ∷ b ∷ []) = encode_sub_frame a b 0 0
encode_payload (a ∷ b ∷ c ∷ []) = encode_sub_frame a b c 0
encode_payload (a ∷ b ∷ c ∷ d ∷ rest) = encode_sub_frame a b c d ++ encode_payload rest

-- `(len(payloadBytes) + 3) / 4`
unfoldable pub sub_frame_count : Bytes → ℕ
sub_frame_count [] = 0
sub_frame_count (a ∷ []) = 1
sub_frame_count (a ∷ b ∷ []) = 1
sub_frame_count (a ∷ b ∷ c ∷ []) = 1
sub_frame_count (a ∷ b ∷ c ∷ d ∷ rest) = suc (sub_frame_count rest)

-- The payload as the receiver sees it: a multiple of four bytes.
unfoldable pub padded : Bytes → Bytes
padded [] = []
padded (a ∷ []) = a ∷ 0 ∷ 0 ∷ 0 ∷ []
padded (a ∷ b ∷ []) = a ∷ b ∷ 0 ∷ 0 ∷ []
padded (a ∷ b ∷ c ∷ []) = a ∷ b ∷ c ∷ 0 ∷ []
padded (a ∷ b ∷ c ∷ d ∷ rest) = a ∷ b ∷ c ∷ d ∷ padded rest

-- The eight header bytes between SYNC and the header's checksum.
abbrev pub header_body : Frame → Bytes
header_body f =
    f.destination % 256
    ∷ f.destination / 256 % 256
    ∷ f.source % 256
    ∷ f.source / 256 % 256
    ∷ 0x10
    ∷ f.command % 256
    ∷ f.command / 256 % 256
    ∷ sub_frame_count f.payload % 256
    ∷ []

unfoldable pub build_frame : Frame → Bytes
build_frame f = sync_byte ∷ (header_body f ++ (checksum (header_body f) ∷ encode_payload f.payload))
