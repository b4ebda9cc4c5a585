-- ===== src/Tests/Wire.antt =====
-- Frames on the wire: runs of the parser, and its theorems at them.
use mathlib.Core.List.{flatten}
use vbus2mqtt.Prelude.{◌+◌, ◌%◌, ◌<◌, ◌≡◌, ◌↔◌, refl, List, [], ◌∷◌, some, arith, length, All}
use vbus2mqtt.Vbus.Frame.{Bytes, IsByte, Frame}
use vbus2mqtt.Vbus.Checksum.{checksum, total, checksum_lem}
use vbus2mqtt.Vbus.Encoder.{encode_sub_frame, encode_payload, sub_frame_count, padded, build_frame}
use vbus2mqtt.Vbus.Subframe.{restore, restore_all, decode_sub_frame, decode_loop, decode_sub_frames}
use vbus2mqtt.Vbus.Subframe.RoundTrip.{decode-encode_payload}
use vbus2mqtt.Vbus.Parser.{
  Parser, new_parser, locate, read_body, read_header, round, drain_loop, drain, feed,
}
use vbus2mqtt.Vbus.Parser.Measure.{feed_total}
use vbus2mqtt.Vbus.Parser.Session.{feed_all, feed_all-flatten}
use vbus2mqtt.Vbus.Parser.Delivery.{IsSendable, received, Carries, noise, frame, feed_all-Carries}
use vbus2mqtt.Vbus.Parser.Bounds.{IsFrame, longest, feed_bounds}
use vbus2mqtt.Tests.Samples.{bs2_frame}

-- The frame of one sub-frame on the wire.
abbrev wire : Bytes
wire =
    0xaa ∷ 0x10 ∷ 0x00 ∷ 0x78 ∷ 0x42 ∷ 0x10 ∷ 0x00 ∷ 0x01 ∷ 0x01 ∷ 0x23 ∷ 0x55 ∷ 0x00 ∷ 0x7f ∷ 0x7f
    ∷ 0x0d ∷ 0x1f ∷ []

wire-IsByte : All IsByte wire
wire-IsByte = (
  omega arith,
  (
    omega arith,
    (
      omega arith,
      (
        omega arith,
        (
          omega arith,
          (
            omega arith,
            (
              omega arith,
              (
                omega arith,
                (
                  omega arith,
                  (
                    omega arith,
                    (
                      omega arith,
                      (omega arith, (omega arith, (omega arith, (omega arith, (omega arith, tt))))),
                    ),
                  ),
                ),
              ),
            ),
          ),
        ),
      ),
    ),
  ),
)

build_frame-wire : build_frame bs2_frame ≡ wire
unfolding build_frame encode_payload encode_sub_frame sub_frame_count checksum
build_frame-wire = refl

-- Two reads: noise and the first half of the frame, the second half and noise.
abbrev pub reads : List Bytes
reads =
    (0x01 ∷ 0xaa ∷ 0x10 ∷ 0x00 ∷ 0x78 ∷ 0x42 ∷ 0x10 ∷ 0x00 ∷ 0x01 ∷ 0x01 ∷ [])
    ∷ (0x23 ∷ 0x55 ∷ 0x00 ∷ 0x7f ∷ 0x7f ∷ 0x0d ∷ 0x1f ∷ 0x05 ∷ [])
    ∷ []

bs2_frame-IsSendable : IsSendable bs2_frame
unfolding sub_frame_count
bs2_frame-IsSendable = record {
  destination_word = omega arith;
  source_word = omega arith;
  command_word = omega arith;
  payload_bytes = (omega arith, (omega arith, (omega arith, (omega arith, tt))));
  count_fits = omega arith;
}

pub reads-Carries : Carries (flatten reads) (received bs2_frame ∷ [])
unfolding build_frame encode_payload encode_sub_frame sub_frame_count checksum flatten
reads-Carries =
    frame (0x01 ∷ []) bs2_frame (omega arith, tt) bs2_frame-IsSendable
      (noise {bytes = 0x05 ∷ []} (omega arith, tt))

received-bs2_frame : received bs2_frame ≡ bs2_frame
unfolding padded
received-bs2_frame = refl

feed-wire : feed new_parser wire ≡ some (bs2_frame ∷ [], new_parser)
unfolding feed drain drain_loop round locate read_header read_body checksum decode_sub_frames
    decode_loop decode_sub_frame restore_all restore
feed-wire = refl

-- A corrupt byte loses the frame, and the bytes are searched for SYNC again.
feed-corrupt :
    feed new_parser (0xaa ∷ 0x10 ∷ 0x00 ∷ 0x78 ∷ 0x43 ∷ 0x10 ∷ 0x00 ∷ 0x01 ∷ 0x01 ∷ 0x23 ∷ [])
    ≡ some ([], new_parser)
unfolding feed drain drain_loop round locate read_header read_body checksum
feed-corrupt = refl

feed_all-Carries_example : feed_all new_parser reads ≡ some (received bs2_frame ∷ [], new_parser)
feed_all-Carries_example = feed_all-Carries reads reads-Carries

feed_all-flatten_example : feed_all new_parser reads ≡ feed new_parser (flatten reads)
feed_all-flatten_example = feed_all-flatten reads

decode-encode_payload_example :
    decode_sub_frames (encode_payload (0xd5 ∷ 0xff ∷ [])) (sub_frame_count (0xd5 ∷ 0xff ∷ []))
    ≡ some (padded (0xd5 ∷ 0xff ∷ []))
decode-encode_payload_example =
    decode-encode_payload (0xd5 ∷ 0xff ∷ []) (omega arith, (omega arith, tt))

checksum_lem_example :
    (0x1f ≡ checksum (0x55 ∷ 0x00 ∷ 0x7f ∷ 0x7f ∷ 0x0d ∷ []))
    ↔ ((0x1f < 128) × ((total (0x55 ∷ 0x00 ∷ 0x7f ∷ 0x7f ∷ 0x0d ∷ []) + 0x1f) % 128 ≡ 127))
checksum_lem_example = checksum_lem (0x55 ∷ 0x00 ∷ 0x7f ∷ 0x7f ∷ 0x0d ∷ []) 0x1f

feed_bounds_example :
    All IsFrame (bs2_frame ∷ []) × All IsByte new_parser.buf × (length new_parser.buf < longest)
feed_bounds_example = feed_bounds new_parser wire tt wire-IsByte feed-wire

feed_total_example :
    (frames : List Frame) × (q : Parser) × (feed new_parser wire ≡ some (frames, q))
feed_total_example = feed_total new_parser wire
