-- ===== src/Vbus/Parser/Measure.antt =====
-- Every round of the parser's loop that goes on shortens the buffer, so the loop ends.
use vbus2mqtt.Prelude.{
  ◌∙◌, ℕ, zero, suc, ◌+◌, ◌*◌, ◌≤◌, ◌<◌, ◌≡◌, refl, List, [], ◌∷◌, ◌++◌, some, inl, inr, arith,
  Option-cases, get_or, length, length-drop, append-nil, append_assoc,
}
use mathlib.Core.Path.{subst₂}
use vbus2mqtt.Vbus.Frame.{Bytes, Frame}
use vbus2mqtt.Vbus.Parser.{
  locate, Round, halt, skip, emit, read_body, read_header, round, drain_loop, drain, Parser, feed,
}

-- What the loop does with a round, as a relation: `Drains buf frames rest` when the rounds from
-- `buf` on emit `frames` and halt with `rest`.
pub data Drains : Bytes → List Frame → Bytes → Type 0 where
  halts : {buf rest : Bytes} → round buf ≡ halt rest → Drains buf [] rest
  skips :
      {buf next rest : Bytes} {frames : List Frame}
      → round buf ≡ skip next
      → Drains next frames rest
      → Drains buf frames rest
  emits :
      {buf next rest : Bytes} {frame : Frame} {frames : List Frame}
      → round buf ≡ emit frame next
      → Drains next frames rest
      → Drains buf (frame ∷ frames) rest

-- The buffer that the round goes on with is shorter.
abbrev Shrinks : ℕ → Round → Type 0
Shrinks n (halt rest) = length rest ≤ n
Shrinks n (skip rest) = length rest < n
Shrinks n (emit frame rest) = length rest < n

locate-length :
    (buf : Bytes) {at_sync : Bytes} → locate buf ≡ some at_sync → length at_sync ≤ length buf
unfolding locate
locate-length [] e = cc
locate-length (b ∷ bs) {at_sync} e = ground (arith, locate-length bs {at_sync = at_sync})

read_header-Shrinks : (buf : Bytes) → Shrinks (length buf) (read_header buf)
unfolding read_header read_body
read_header-Shrinks buf =
    ground (arith, length-drop 1 buf, length-drop (10 + get_or buf 8 0 * 6) buf)

Shrinks-le : {m n : ℕ} (r : Round) → Shrinks m r → m ≤ n → Shrinks n r
Shrinks-le (halt rest) h k = omega arith
Shrinks-le (skip rest) h k = omega arith
Shrinks-le (emit frame rest) h k = omega arith

-- A round that goes on takes a byte at least, and one that halts adds none.
pub round-Shrinks : (buf : Bytes) → Shrinks (length buf) (round buf)
unfolding round
round-Shrinks buf = elim (Option-cases (locate buf)) [
  | inl e ↦ rw (e, Shrinks) (omega arith)
  | inr (at_sync, e) ↦
      rw (e, Shrinks)
        (Shrinks-le (read_header at_sync) (read_header-Shrinks at_sync) (locate-length buf e))
]

-- A buffer from which frames come out until the loop halts.
abbrev Drained : Bytes → Type 0
Drained buf = (frames : List Frame) × (rest : Bytes) × Drains buf frames rest

Drained-round :
    (n : ℕ) (buf : Bytes) (r : Round)
    → round buf ≡ r
    → Shrinks n r
    → ((next : Bytes) → length next < n → Drained next)
    → Drained buf
Drained-round n buf (halt rest) e h later = ([], rest, halts e)
Drained-round n buf (skip next) e h later =
    let (frames, rest, d) = later next h in (frames, rest, skips e d)
Drained-round n buf (emit frame next) e h later =
    let (frames, rest, d) = later next h in (frame ∷ frames, rest, emits e d)

Drained-below : (fuel : ℕ) (buf : Bytes) → length buf < fuel → Drained buf
Drained-below zero buf h = absurd (omega arith)
Drained-below (suc fuel) buf h =
    Drained-round (length buf) buf (round buf) refl (round-Shrinks buf)
      (λ next k. Drained-below fuel next (omega arith))

-- Any fuel above the length of the buffer gives the result of the relation.
drain_loop-Drains :
    (fuel : ℕ) {buf rest : Bytes} {frames : List Frame} (out : List Frame)
    → Drains buf frames rest
    → length buf < fuel
    → drain_loop fuel buf out ≡ some (out ++ frames, rest)
unfolding drain_loop
drain_loop-Drains zero out d h = absurd (omega arith)
drain_loop-Drains (suc fuel) out (halts e) h = rw (e, drain_loop, append-nil)
drain_loop-Drains (suc fuel) out (skips {buf} {next} e d) h =
    rw (e, drain_loop) (drain_loop-Drains fuel out d (omega (arith, rw e at (round-Shrinks buf))))
drain_loop-Drains (suc fuel) out (emits {buf} {next} {frame = frame} {frames = frames} e d) h =
    rw (e, drain_loop)
      (drain_loop-Drains fuel (out ++ (frame ∷ [])) d (omega (arith, rw e at (round-Shrinks buf)))
        ∙ rw append_assoc)

pub drain-Drains :
    {buf rest : Bytes} {frames : List Frame}
    → Drains buf frames rest
    → drain buf ≡ some (frames, rest)
unfolding drain
drain-Drains {buf} d = drain_loop-Drains (suc (length buf)) [] d (omega arith)

pub Drained_lem : (buf : Bytes) → Drained buf
Drained_lem buf = Drained-below (suc (length buf)) buf (omega arith)

pub Drains-drain :
    (buf : Bytes) {rest : Bytes} {frames : List Frame}
    → drain buf ≡ some (frames, rest)
    → Drains buf frames rest
Drains-drain buf e =
    let (frames', rest', d) = Drained_lem buf in
    let same = drain-Drains d in subst₂ (Drains buf) (cc) (cc) d

-- `Feed` ends on every input: the fuel of the model is never used up.
pub feed_total :
    (p : Parser) (bytes : Bytes)
    → (frames : List Frame) × (q : Parser) × (feed p bytes ≡ some (frames, q))
unfolding feed
feed_total p bytes =
    let (frames, rest, d) = Drained_lem (p.buf ++ bytes) in
    (frames, record { buf = rest }, rw (drain-Drains d, feed))
