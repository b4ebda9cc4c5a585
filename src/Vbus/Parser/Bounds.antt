-- ===== src/Vbus/Parser/Bounds.antt =====
-- The parser's frames are well formed, and its buffer stays small.
use mathlib.Core.Path.{subst}
use mathlib.Core.Option.{some-injective}
use vbus2mqtt.Vbus.Checksum.{checksum}
use vbus2mqtt.Vbus.Frame.{sync_byte}
use vbus2mqtt.Prelude.{
  false, ℕ, ◌+◌, ◌-◌, ◌*◌, ◌%◌, ◌<◌, ◌≤◌, ◌≡◌, not, Bool-cases, Option-cases, inl, inr, List, [],
  ◌∷◌, some, arith, ltb, ◌==◌, get_or, drop, length, length-drop, All, All-append, All-take,
  All-drop, get_or-All,
}
use vbus2mqtt.Vbus.Frame.{Bytes, IsByte, IsWord, Frame}
use vbus2mqtt.Vbus.Subframe.{slice, decode_sub_frames}
use vbus2mqtt.Vbus.Subframe.Bounds.{decode_sub_frames_lem, length-take_le}
use vbus2mqtt.Vbus.Parser.{
  locate, Round, halt, skip, emit, read_body, read_header, header_frame, round, Parser, feed,
}
use vbus2mqtt.Vbus.Parser.Measure.{Drains, halts, skips, emits}
use vbus2mqtt.Vbus.Parser.Session.{Drains-feed}

-- A frame as the wire can carry it: words for addresses and command, at most 255 times four bytes.
pub record IsFrame (f : Frame) : Type 0 where
  pub destination : IsWord f.destination
  pub source : IsWord f.source
  pub command : IsWord f.command
  pub payload : All IsByte f.payload
  pub size : length f.payload ≤ 255 * 4
  pub whole : length f.payload % 4 ≡ 0

-- A buffer that is kept is shorter than the longest frame.
abbrev pub longest : ℕ
longest = 10 + 255 * 6

abbrev Bounded : Round → Type 0
Bounded (halt rest) = All IsByte rest × (length rest < longest)
Bounded (skip rest) = All IsByte rest
Bounded (emit f rest) = IsFrame f × All IsByte rest

byte_at : (buf : Bytes) (i : ℕ) → All IsByte buf → IsByte (get_or buf i 0)
byte_at buf i h = get_or-All IsByte buf i 0 h (omega arith)

slice_size :
    (n : ℕ) (buf : Bytes)
    → ltb (length buf) (10 + n * 6) ≡ false
    → n * 6 ≤ length (slice 10 (10 + n * 6) buf)
slice_size n buf full = omega (
  arith,
  length-drop 10 buf,
  length-take_le (10 + n * 6 - 10) (drop 10 buf) (ground (arith, length-drop 10 buf)),
)

header_frame-IsFrame :
    (buf payload : Bytes) (n : ℕ)
    → All IsByte buf
    → IsByte n
    → All IsByte payload
    → length payload ≡ n * 4
    → IsFrame (header_frame buf payload)
header_frame-IsFrame buf payload n h small p e = record {
  destination = omega (arith, byte_at buf 1 h, byte_at buf 2 h);
  source = omega (arith, byte_at buf 3 h, byte_at buf 4 h);
  command = omega (arith, byte_at buf 6 h, byte_at buf 7 h);
  payload = p;
  size = omega arith;
  whole = omega arith;
}

read_body-Bounded : (n : ℕ) (buf : Bytes) → IsByte n → All IsByte buf → Bounded (read_body n buf)
unfolding read_body
read_body-Bounded n buf small h = elim (Bool-cases (ltb (length buf) (10 + n * 6))) [
  | inl short ↦ rw (short, Bounded) (h, ground arith)
  | inr full ↦
      let body = slice 10 (10 + n * 6) buf in
      elim (Option-cases (decode_sub_frames body n)) [
        | inl bad ↦ rw (full, bad, Bounded) (All-drop IsByte 1 buf h)
        | inr (payload, good) ↦
            let (bytes, count) =
              decode_sub_frames_lem body n
                (All-take IsByte (10 + n * 6 - 10) (drop 10 buf) (All-drop IsByte 10 buf h))
                (slice_size n buf full) good in
            rw (full, good, Bounded)
              (
                header_frame-IsFrame buf payload n h small bytes count,
                All-drop IsByte (10 + n * 6) buf h,
              )
      ]
]

read_header-Bounded : (buf : Bytes) → All IsByte buf → Bounded (read_header buf)
unfolding read_header
read_header-Bounded buf h = elim (Bool-cases (ltb (length buf) 10)) [
  | inl short ↦ rw (short, Bounded) (h, ground arith)
  | inr long ↦ elim (Bool-cases (not (get_or buf 5 0 == 0x10))) [
    | inl other ↦ rw (long, other, Bounded) (All-drop IsByte 1 buf h)
    | inr v1 ↦ elim (Bool-cases (not (get_or buf 9 0 == checksum (slice 1 9 buf)))) [
      | inl bad ↦ rw (long, v1, bad, Bounded) (All-drop IsByte 1 buf h)
      | inr good ↦
          rw (long, v1, good, Bounded) (read_body-Bounded (get_or buf 8 0) buf (byte_at buf 8 h) h)
    ]
  ]
]

locate-All :
    (buf : Bytes) {at_sync : Bytes}
    → All IsByte buf
    → locate buf ≡ some at_sync
    → All IsByte at_sync
unfolding locate
locate-All [] h e = cc
locate-All (b ∷ bs) {at_sync} h e = elim (Bool-cases (b == sync_byte)) [
  | inl here ↦ subst (All IsByte) (some-injective _ _ (rw (here, locate) at e)) h
  | inr later ↦ locate-All bs h.1 (rw (later, locate) at e)
]

round-Bounded : (buf : Bytes) → All IsByte buf → Bounded (round buf)
unfolding round
round-Bounded buf h = elim (Option-cases (locate buf)) [
  | inl lost ↦ rw (lost, Bounded) (tt, omega arith)
  | inr (at_sync, found) ↦
      rw (found, Bounded) (read_header-Bounded at_sync (locate-All buf h found))
]

Bounded-round : {r : Round} (buf : Bytes) → All IsByte buf → round buf ≡ r → Bounded r
Bounded-round buf h e = subst Bounded e (round-Bounded buf h)

Drains-Bounded :
    {buf rest : Bytes} {frames : List Frame}
    → All IsByte buf
    → Drains buf frames rest
    → All IsFrame frames × All IsByte rest × (length rest < longest)
Drains-Bounded h (halts {buf} e) = let (rest, short) = Bounded-round buf h e in (tt, rest, short)
Drains-Bounded h (skips {buf} e d) = Drains-Bounded (Bounded-round buf h e) d
Drains-Bounded h (emits {buf} e d) =
    let (f, next) = Bounded-round buf h e in
    let (fs, rest, short) = Drains-Bounded next d in ((f, fs), rest, short)

-- `Feed` on bytes, with bytes in the buffer: every frame that comes out has 16-bit addresses and
-- command and a payload of at most 255 groups of four bytes, and what stays in the buffer is bytes,
-- fewer than the 1540 of the longest frame.
pub feed_bounds :
    (p : Parser) (bytes : Bytes) {frames : List Frame} {q : Parser}
    → All IsByte p.buf
    → All IsByte bytes
    → feed p bytes ≡ some (frames, q)
    → All IsFrame frames × All IsByte q.buf × (length q.buf < longest)
feed_bounds p bytes h k e =
    Drains-Bounded (All-append IsByte p.buf bytes h k) (Drains-feed p bytes e)
