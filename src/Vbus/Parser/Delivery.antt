-- ===== src/Vbus/Parser/Delivery.antt =====
-- Every frame that is sent arrives, whatever noise stands between the frames and however the
-- stream is cut into reads.
use mathlib.Core.List.{flatten}
use vbus2mqtt.Prelude.{
  ℕ, ◌+◌, ◌-◌, ◌*◌, ◌≡◌, ◌≢◌, refl, ◌∙◌, List, [], ◌∷◌, ◌++◌, none, some, arith, ==_iff, take, drop,
  length, All, length-append, drop-append_length, take-append_length,
}
use vbus2mqtt.Vbus.Frame.{Bytes, IsByte, IsWord, Frame, sync_byte}
use vbus2mqtt.Vbus.Checksum.{checksum}
use vbus2mqtt.Vbus.Encoder.{encode_payload, sub_frame_count, padded, header_body, build_frame}
use vbus2mqtt.Vbus.Subframe.RoundTrip.{decode-encode_payload, length-encode_payload}
use vbus2mqtt.Vbus.Parser.{locate, emit, read_body, read_header, round, new_parser}
use vbus2mqtt.Vbus.Parser.Measure.{Drains, halts, emits}
use vbus2mqtt.Vbus.Parser.Session.{feed_of_Drains, feed_all, feed_all-flatten}

-- What fits on the wire: addresses of 16 bits, at most 255 sub-frames.
pub record IsSendable (f : Frame) : Type 0 where
  pub destination_word : IsWord f.destination
  pub source_word : IsWord f.source
  pub command_word : IsWord f.command
  pub payload_bytes : All IsByte f.payload
  pub count_fits : IsByte (sub_frame_count f.payload)

-- The frame with its payload filled up to whole sub-frames.
abbrev pub received : Frame → Frame
received f = record f { payload = padded f.payload }

take_all : (xs ys : Bytes) (n : ℕ) → n ≡ length xs → take n (xs ++ ys) ≡ xs
take_all xs ys n e = rw e (take-append_length xs ys)

drop_all : (xs ys : Bytes) (n : ℕ) → n ≡ length xs → drop n (xs ++ ys) ≡ ys
drop_all xs ys n e = rw e (drop-append_length xs ys)

read_body-build_frame :
    (f : Frame) (more : Bytes)
    → IsSendable f
    → read_body (sub_frame_count f.payload) (build_frame f ++ more) ≡ emit (received f) more
unfolding read_body build_frame
read_body-build_frame f more s = ground (
  arith,
  length-append (encode_payload f.payload) more,
  length-encode_payload f.payload,
  take_all (encode_payload f.payload) more (10 + sub_frame_count f.payload * 6 - 10)
      (omega (arith, length-encode_payload f.payload)),
  drop_all (build_frame f) more (10 + sub_frame_count f.payload * 6)
      (omega (arith, length-encode_payload f.payload)),
  decode-encode_payload f.payload s.payload_bytes,
)

read_header-build_frame :
    (f : Frame) (more : Bytes)
    → IsSendable f
    → read_header (build_frame f ++ more) ≡ emit (received f) more
unfolding read_header build_frame
read_header-build_frame f more s = ground (
  arith,
  ==_iff (checksum (header_body f)) (checksum (header_body f)),
  read_body-build_frame f more s,
)

-- Line noise: bytes among which there is no SYNC.
abbrev pub IsNoise : Bytes → Type 0
IsNoise = All (λ b. b ≢ sync_byte)

locate_noise : (noise more : Bytes) → IsNoise noise → locate (noise ++ more) ≡ locate more
unfolding locate
locate_noise [] more h = refl
locate_noise (b ∷ bs) more h = ground (arith, locate_noise bs more h.1)

locate_nothing : (noise : Bytes) → IsNoise noise → locate noise ≡ none
unfolding locate
locate_nothing [] h = refl
locate_nothing (b ∷ bs) h = ground (arith, locate_nothing bs h.1)

locate-build_frame :
    (f : Frame) (more : Bytes) → locate (build_frame f ++ more) ≡ some (build_frame f ++ more)
unfolding locate build_frame
locate-build_frame f more = refl

-- The first frame behind line noise is emitted by one round, and the bytes behind it are left.
pub round-build_frame :
    (noise : Bytes) (f : Frame) (more : Bytes)
    → IsNoise noise
    → IsSendable f
    → round (noise ++ (build_frame f ++ more)) ≡ emit (received f) more
unfolding round
round-build_frame noise f more h s =
    rw (locate_noise noise (build_frame f ++ more) h ∙ locate-build_frame f more, round)
      (read_header-build_frame f more s)

-- The bytes of a session: frames with line noise between them, and the frames that are to arrive.
pub data Carries : Bytes → List Frame → Type 0 where
  noise : {bytes : Bytes} → IsNoise bytes → Carries bytes []
  frame :
      (bytes : Bytes) (f : Frame) {rest : Bytes} {frames : List Frame}
      → IsNoise bytes
      → IsSendable f
      → Carries rest frames
      → Carries (bytes ++ (build_frame f ++ rest)) (received f ∷ frames)

Carries-Drains :
    {bytes : Bytes} {frames : List Frame} → Carries bytes frames → Drains bytes frames []
unfolding round
Carries-Drains (noise {bytes} h) = halts (rw (locate_nothing bytes h, round))
Carries-Drains (frame bytes f {rest = rest} h s c) =
    emits (round-build_frame bytes f rest h s) (Carries-Drains c)

-- Every frame that is sent is emitted once, in order, with its addresses, its command and its
-- payload filled up to whole sub-frames; the line noise before, between and behind the frames is
-- dropped, and nothing is left in the buffer. How the bytes are cut into reads does not matter.
pub feed_all-Carries :
    (reads : List Bytes) {frames : List Frame}
    → Carries (flatten reads) frames
    → feed_all new_parser reads ≡ some (frames, new_parser)
feed_all-Carries reads c =
    feed_all-flatten reads ∙ feed_of_Drains new_parser (flatten reads) (Carries-Drains c)
