-- ===== src/Vbus/Subframe/RoundTrip.antt =====
-- `decodeSubFrames` reads back what the encoder wrote.
use vbus2mqtt.Prelude.{
  ℕ, suc, ◌+◌, ◌-◌, ◌*◌, ◌%◌, ◌≡◌, refl, sym, ap, ◌∙◌, [], ◌∷◌, ◌++◌, some, arith, ==_iff, get_or,
  take, length, All, append_assoc, append-nil, length-append, drop-append_length,
}
use native.Mathlib.Nat.{zero-add, suc-add}
use vbus2mqtt.Prelude.Bits.{bit_or-128, bit_and-bit_0, bit_and-bit_1, bit_and-bit_2, bit_and-bit_3}
use vbus2mqtt.Vbus.Frame.{Bytes, IsByte}
use vbus2mqtt.Vbus.Checksum.{checksum}
use vbus2mqtt.Vbus.Encoder.{
  septett, sub_frame_body, encode_sub_frame, encode_payload, sub_frame_count, padded,
}
use vbus2mqtt.Vbus.Subframe.{
  slice, restore, restore_all, decode_sub_frame, decode_loop, decode_sub_frames,
}

module _ (a b c d : ℕ) (ha : IsByte a) (hb : IsByte b) (hc : IsByte c) (hd : IsByte d) where
  restore_first : restore (septett a b c d) 0 (a % 128) ≡ a
  unfolding restore
  restore_first = ground (arith, bit_and-bit_0 (septett a b c d), bit_or-128 (a % 128))

  restore_second : restore (septett a b c d) 1 (b % 128) ≡ b
  unfolding restore
  restore_second = ground (arith, bit_and-bit_1 (septett a b c d), bit_or-128 (b % 128))

  restore_third : restore (septett a b c d) 2 (c % 128) ≡ c
  unfolding restore
  restore_third = ground (arith, bit_and-bit_2 (septett a b c d), bit_or-128 (c % 128))

  restore_fourth : restore (septett a b c d) 3 (d % 128) ≡ d
  unfolding restore
  restore_fourth = ground (arith, bit_and-bit_3 (septett a b c d), bit_or-128 (d % 128))

  decode-encode_sub_frame :
      (more : Bytes)
      → decode_sub_frame (encode_sub_frame a b c d ++ more) 0 ≡ some (a ∷ b ∷ c ∷ d ∷ [])
  unfolding decode_sub_frame encode_sub_frame restore_all
  decode-encode_sub_frame more =
      rw ((==_iff sum sum).1 refl, restore_first, restore_second, restore_third, restore_fourth)
    where
      sum : ℕ
      sum = checksum (sub_frame_body a b c d)

get_or-drop :
    (front rest : Bytes) (i : ℕ) → get_or (front ++ rest) (length front + i) 0 ≡ get_or rest i 0
get_or-drop [] rest i = rw zero-add
get_or-drop (x ∷ front) rest i = rw suc-add (get_or-drop front rest i)

slice-drop :
    (front rest : Bytes) (n : ℕ)
    → slice (length front) (length front + n) (front ++ rest) ≡ take n rest
slice-drop front rest n = rw (drop-append_length front rest, cancel)
  where
    cancel : length front + n - length front ≡ n
    cancel = omega arith

decode_sub_frame_at :
    (front rest : Bytes) → decode_sub_frame (front ++ rest) (length front) ≡ decode_sub_frame rest 0
unfolding decode_sub_frame
decode_sub_frame_at front rest =
    simp (slice-drop front rest 4, slice-drop front rest 5, get_or-drop)

-- One round of the loop, at a sub-frame behind `i` others.
decode_loop_step :
    (a b c d : ℕ) (front more acc : Bytes) (i left : ℕ)
    → All IsByte (a ∷ b ∷ c ∷ d ∷ [])
    → length front ≡ i * 6
    → decode_loop (front ++ (encode_sub_frame a b c d ++ more)) (suc left) i acc
      ≡ decode_loop
          ((front ++ encode_sub_frame a b c d) ++ more)
          left
          (i + 1)
          (acc ++ (a ∷ b ∷ c ∷ d ∷ []))
unfolding decode_loop
decode_loop_step a b c d front more acc i left (ha, (hb, (hc, (hd, _)))) e =
    rw (at_front, decode_loop)
      (ap (λ (t : Bytes). decode_loop t left (i + 1) (acc ++ (a ∷ b ∷ c ∷ d ∷ [])))
        (sym (append_assoc front (encode_sub_frame a b c d) more)))
  where
    at_front :
        decode_sub_frame (front ++ (encode_sub_frame a b c d ++ more)) (i * 6)
        ≡ some (a ∷ b ∷ c ∷ d ∷ [])
    at_front = rw (← e) (
        decode_sub_frame_at front (encode_sub_frame a b c d ++ more)
        ∙ decode-encode_sub_frame a b c d ha hb hc hd more)

length-encode_sub_frame : (a b c d : ℕ) → length (encode_sub_frame a b c d) ≡ 6
unfolding encode_sub_frame
length-encode_sub_frame a b c d = refl

-- Sub-frames that stand behind `i` others, with more bytes after them.
decode_loop-encode_payload :
    (payload front more acc : Bytes) (i : ℕ)
    → All IsByte payload
    → length front ≡ i * 6
    → decode_loop (front ++ (encode_payload payload ++ more)) (sub_frame_count payload) i acc
      ≡ some (acc ++ padded payload)
unfolding encode_payload sub_frame_count padded
decode_loop-encode_payload [] front more acc i h e = unfold decode_loop in rw append-nil
decode_loop-encode_payload (a ∷ []) front more acc i (ha, _) e =
    decode_loop_step a 0 0 0 front more acc i 0 (ha, omega arith) e ∙ unfold decode_loop in refl
decode_loop-encode_payload (a ∷ b ∷ []) front more acc i (ha, (hb, _)) e =
    decode_loop_step a b 0 0 front more acc i 0 (ha, (hb, omega arith)) e
    ∙ unfold decode_loop in refl
decode_loop-encode_payload (a ∷ b ∷ c ∷ []) front more acc i (ha, (hb, (hc, _))) e =
    decode_loop_step a b c 0 front more acc i 0 (ha, (hb, (hc, omega arith))) e
    ∙ unfold decode_loop in refl
decode_loop-encode_payload (a ∷ b ∷ c ∷ d ∷ rest) front more acc i (ha, (hb, (hc, (hd, h)))) e =
    rw (append_assoc (encode_sub_frame a b c d) (encode_payload rest) more) (
      decode_loop_step a b c d front (encode_payload rest ++ more) acc i (sub_frame_count rest)
        (ha, (hb, (hc, (hd, tt)))) e
      ∙ decode_loop-encode_payload rest (front ++ encode_sub_frame a b c d) more
          (acc ++ (a ∷ b ∷ c ∷ d ∷ [])) (i + 1) h
          (omega (
            arith,
            length-append front (encode_sub_frame a b c d),
            length-encode_sub_frame a b c d,
          ))
      ∙ rw append_assoc)

-- `decodeSubFrames` gives back every payload of bytes that was encoded, filled up to whole
-- sub-frames.
pub decode-encode_payload :
    (payload : Bytes)
    → All IsByte payload
    → decode_sub_frames (encode_payload payload) (sub_frame_count payload) ≡ some (padded payload)
unfolding decode_sub_frames
decode-encode_payload payload h =
    ap (λ (t : Bytes). decode_loop t (sub_frame_count payload) 0 [])
      (sym (append-nil (encode_payload payload)))
    ∙ decode_loop-encode_payload payload [] [] [] 0 h (omega arith)

pub length-encode_payload :
    (payload : Bytes) → length (encode_payload payload) ≡ sub_frame_count payload * 6
unfolding encode_payload sub_frame_count
length-encode_payload [] = omega arith
length-encode_payload (a ∷ []) = length-encode_sub_frame a 0 0 0
length-encode_payload (a ∷ b ∷ []) = length-encode_sub_frame a b 0 0
length-encode_payload (a ∷ b ∷ c ∷ []) = length-encode_sub_frame a b c 0
length-encode_payload (a ∷ b ∷ c ∷ d ∷ rest) = omega (
  arith,
  length-append (encode_sub_frame a b c d) (encode_payload rest),
  length-encode_sub_frame a b c d,
  length-encode_payload rest,
)
