-- ===== src/Vbus/Subframe/Bounds.antt =====
-- What `decodeSubFrames` gives: bytes, four for each sub-frame.
use mathlib.Core.Path.{subst}
use mathlib.Core.Option.{some-injective}
use vbus2mqtt.Prelude.{
  ℕ, zero, suc, ◌+◌, ◌-◌, ◌*◌, ◌≤◌, ◌≡◌, refl, ap, Option-cases, inl, inr, [], ◌∷◌, ◌++◌, some,
  arith, get_or, take, drop, length, length-append, length-drop, All, All-append, All-take,
  All-drop,
}
use vbus2mqtt.Prelude.Bits.{bit_or-128}
use vbus2mqtt.Vbus.Frame.{Bytes, IsByte}
use vbus2mqtt.Vbus.Subframe.{
  slice, restore, restore_all, decode_sub_frame, decode_loop, decode_sub_frames,
}

restore-IsByte : (septett j b : ℕ) → IsByte b → IsByte (restore septett j b)
unfolding restore
restore-IsByte septett j b h = ground (arith, bit_or-128 b)

restore_all-IsByte :
    (septett j : ℕ) (bs : Bytes) → All IsByte bs → All IsByte (restore_all septett j bs)
unfolding restore_all
restore_all-IsByte septett j [] h = tt
restore_all-IsByte septett j (b ∷ bs) h =
    (restore-IsByte septett j b h.0, restore_all-IsByte septett (j + 1) bs h.1)

length-restore_all : (septett j : ℕ) (bs : Bytes) → length (restore_all septett j bs) ≡ length bs
unfolding restore_all
length-restore_all septett j [] = refl
length-restore_all septett j (b ∷ bs) = ap suc (length-restore_all septett (j + 1) bs)

pub length-take_le : (n : ℕ) (bs : Bytes) → n ≤ length bs → length (take n bs) ≡ n
length-take_le zero bs h = refl
length-take_le (suc n) [] h = elim h [ ]
length-take_le (suc n) (b ∷ bs) h = ap suc (length-take_le n bs (omega arith))

decode_sub_frame_value :
    (bytes : Bytes) (base : ℕ) {decoded : Bytes}
    → decode_sub_frame bytes base ≡ some decoded
    → restore_all (get_or bytes (base + 4) 0) 0 (slice base (base + 4) bytes) ≡ decoded
unfolding decode_sub_frame
decode_sub_frame_value bytes base e = ground arith

decode_sub_frame_lem :
    (bytes : Bytes) (base : ℕ) {decoded : Bytes}
    → All IsByte bytes
    → base + 6 ≤ length bytes
    → decode_sub_frame bytes base ≡ some decoded
    → All IsByte decoded × (length decoded ≡ 4)
decode_sub_frame_lem bytes base {decoded} h k e =
    let raw = slice base (base + 4) bytes in
    let septett = get_or bytes (base + 4) 0 in
    subst (λ (t : Bytes). All IsByte t × (length t ≡ 4)) (decode_sub_frame_value bytes base e)
      (
        restore_all-IsByte septett 0 raw
            (All-take IsByte (base + 4 - base) (drop base bytes) (All-drop IsByte base bytes h)),
        omega (
          arith,
          length-restore_all septett 0 raw,
          length-take_le (base + 4 - base) (drop base bytes)
              (omega (arith, length-drop base bytes)),
        ),
      )

decode_loop-suc :
    (bytes : Bytes) (left i : ℕ) (payload : Bytes) {out : Bytes}
    → decode_loop bytes (suc left) i payload ≡ some out
    → (decoded : Bytes) × (decode_sub_frame bytes (i * 6) ≡ some decoded)
      × (decode_loop bytes left (i + 1) (payload ++ decoded) ≡ some out)
unfolding decode_loop
decode_loop-suc bytes left i payload e = elim (Option-cases (decode_sub_frame bytes (i * 6))) [
  | inl bad ↦ cc (rw (bad, decode_loop) at e)
  | inr (decoded, got) ↦ (decoded, got, rw (got, decode_loop) at e)
]

decode_loop-zero :
    (bytes : Bytes) (i : ℕ) (payload : Bytes) {out : Bytes}
    → decode_loop bytes zero i payload ≡ some out
    → payload ≡ out
unfolding decode_loop
decode_loop-zero bytes i payload e = some-injective _ _ e

decode_loop_lem :
    (bytes : Bytes) (left i : ℕ) (payload : Bytes) {out : Bytes}
    → All IsByte bytes
    → All IsByte payload
    → (i + left) * 6 ≤ length bytes
    → decode_loop bytes left i payload ≡ some out
    → All IsByte out × (length out ≡ length payload + left * 4)
decode_loop_lem bytes zero i payload h p k e =
    subst (λ (t : Bytes). All IsByte t × (length t ≡ length payload + 0))
      (decode_loop-zero bytes i payload e) (p, omega arith)
decode_loop_lem bytes (suc left) i payload {out} h p k e =
    let (decoded, got, rest) = decode_loop-suc bytes left i payload e in
    let (decoded_bytes, four) = decode_sub_frame_lem bytes (i * 6) h (omega arith) got in
    let (out_bytes, count) =
      decode_loop_lem bytes left (i + 1) (payload ++ decoded) h
        (All-append IsByte payload decoded p decoded_bytes) (omega arith) rest in
    (out_bytes, omega (arith, length-append payload decoded))

-- `decodeSubFrames` on enough bytes gives bytes, four for each sub-frame.
pub decode_sub_frames_lem :
    (bytes : Bytes) (n : ℕ) {out : Bytes}
    → All IsByte bytes
    → n * 6 ≤ length bytes
    → decode_sub_frames bytes n ≡ some out
    → All IsByte out × (length out ≡ n * 4)
unfolding decode_sub_frames
decode_sub_frames_lem bytes n h k e =
    let (out_bytes, count) = decode_loop_lem bytes n 0 [] h tt (omega arith) e in
    (out_bytes, omega arith)
