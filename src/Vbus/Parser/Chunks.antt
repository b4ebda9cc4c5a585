-- ===== src/Vbus/Parser/Chunks.antt =====
-- Rounds of the parser's loop with more bytes behind the buffer.
use vbus2mqtt.Prelude.{
  ℕ, ◌+◌, ◌-◌, ◌*◌, ◌≤◌, ◌≡◌, refl, sym, ◌∙◌, ◌⊎◌, inl, inr, List, [], ◌∷◌, ◌++◌, none, some, arith,
  ltb, Option-cases, Bool-cases, get_or, drop, length, length-drop, append-nil, length-append,
  get_or-append, take-append, drop-append,
}
use vbus2mqtt.Vbus.Frame.{Bytes, Frame}
use vbus2mqtt.Vbus.Subframe.{slice}
use vbus2mqtt.Vbus.Parser.{locate, Round, halt, skip, emit, read_body, read_header, round}
use vbus2mqtt.Vbus.Parser.Measure.{Drains, halts, skips, emits}

slice-append :
    (from to : ℕ) (s more : Bytes)
    → from ≤ to
    → to ≤ length s
    → slice from to (s ++ more) ≡ slice from to s
slice-append from to s more h k =
    rw (drop-append from s more (omega arith))
      (take-append (to - from) (drop from s) more (omega (arith, length-drop from s)))

-- The round at a buffer that has more bytes behind it.
abbrev extend : Round → Bytes → Round
extend (halt rest) more = halt (rest ++ more)
extend (skip rest) more = skip (rest ++ more)
extend (emit frame rest) more = emit frame (rest ++ more)

-- A round either waits for more bytes or is the same with more bytes behind.
abbrev Settled : (Bytes → Round) → Bytes → Bytes → Type 0
Settled f s more = (f s ≡ halt s) ⊎ (f (s ++ more) ≡ extend (f s) more)

read_body-Settled : (n : ℕ) (s more : Bytes) → 10 ≤ length s → Settled (read_body n) s more
unfolding read_body
read_body-Settled n s more h = elim (Bool-cases (ltb (length s) (10 + n * 6))) [
  | inl short ↦ inl (rw short)
  | inr full ↦ inr (
      ground (
        arith,
        length-append s more,
        slice-append 10 (10 + n * 6) s more,
        drop-append 1 s more,
        drop-append (10 + n * 6) s more,
        get_or-append s more 1 0,
        get_or-append s more 2 0,
        get_or-append s more 3 0,
        get_or-append s more 4 0,
        get_or-append s more 6 0,
        get_or-append s more 7 0,
      ))
]

read_header-Settled : (s more : Bytes) → Settled read_header s more
unfolding read_header
read_header-Settled s more = elim (Bool-cases (ltb (length s) 10)) [
  | inl short ↦ inl (rw short)
  | inr full ↦ ground (
    arith,
    length-append s more,
    slice-append 1 9 s more,
    drop-append 1 s more,
    get_or-append s more 5 0,
    get_or-append s more 8 0,
    get_or-append s more 9 0,
    read_body-Settled (get_or s 8 0) s more,
  )
]

locate-append_some :
    (s more : Bytes) {t : Bytes} → locate s ≡ some t → locate (s ++ more) ≡ some (t ++ more)
unfolding locate
locate-append_some [] more e = cc
locate-append_some (b ∷ bs) more {t} e = ground (arith, locate-append_some bs more {t = t})

locate-append_none : (s more : Bytes) → locate s ≡ none → locate (s ++ more) ≡ locate more
unfolding locate
locate-append_none [] more e = refl
locate-append_none (b ∷ bs) more e = ground (arith, locate-append_none bs more)

locate_again : (s : Bytes) {t : Bytes} → locate s ≡ some t → locate t ≡ some t
unfolding locate
locate_again [] e = cc
locate_again (b ∷ bs) {t} e = ground (arith, locate_again bs {t = t})

round_at : (s : Bytes) {t : Bytes} → locate s ≡ some t → round s ≡ read_header t
unfolding round
round_at s e = rw (e, round)

round_lost : (s : Bytes) → locate s ≡ none → round s ≡ halt []
unfolding round
round_lost s e = rw (e, round)

ap_locate : (s t : Bytes) → locate s ≡ locate t → round s ≡ round t
unfolding round
ap_locate s t e = rw (e, round)

-- The code halts with the buffer from SYNC on.
read_header_halt : (t : Bytes) {rest : Bytes} → read_header t ≡ halt rest → rest ≡ t
unfolding read_header read_body
read_header_halt t e = ground arith

-- The loop goes on after this round.
abbrev Goes : Round → Type 0
Goes (halt rest) = ⊥
Goes (skip rest) = Unit
Goes (emit frame rest) = Unit

-- A round that goes on is the same with more bytes behind the buffer.
round-extend :
    (s more : Bytes) (r : Round) → Goes r → round s ≡ r → round (s ++ more) ≡ extend r more
round-extend s more (halt rest) g e = absurd g
round-extend s more r g e = elim (Option-cases (locate s)) [
  | inl lost ↦ ground (arith, round_lost s lost)
  | inr (t, found) ↦ ground (
    arith,
    round_at s found,
    round_at (s ++ more) (locate-append_some s more found),
    read_header-Settled t more,
  )
]

-- A round that halts leaves a buffer that stands for the whole one, whatever follows.
round_halted :
    (s more : Bytes) {rest : Bytes} → round s ≡ halt rest → round (s ++ more) ≡ round (rest ++ more)
round_halted s more {rest} e = elim (Option-cases (locate s)) [
  | inl lost ↦
      let none_left : rest ≡ [] = ground (arith, round_lost s lost) in
      rw none_left (ap_locate _ _ (locate-append_none s more lost))
  | inr (t, found) ↦
      let same : rest ≡ t = read_header_halt t (sym (round_at s found) ∙ e) in
      rw same (
        ap_locate _ _ (
          locate-append_some s more found ∙ sym (locate-append_some t more (locate_again s found))))
]

Drains-same :
    {s t rest : Bytes} {frames : List Frame}
    → round s ≡ round t
    → Drains t frames rest
    → Drains s frames rest
Drains-same e (halts h) = halts (e ∙ h)
Drains-same e (skips h d) = skips (e ∙ h) d
Drains-same e (emits h d) = emits (e ∙ h) d

pub Drains-append :
    {s rest final : Bytes} {frames more_frames : List Frame} (more : Bytes)
    → Drains s frames rest
    → Drains (rest ++ more) more_frames final
    → Drains (s ++ more) (frames ++ more_frames) final
Drains-append {s} more (halts e) d = Drains-same (round_halted s more e) d
Drains-append {s} more (skips {next = next} e c) d =
    skips (round-extend s more (skip next) tt e) (Drains-append more c d)
Drains-append {s} more (emits {next = next} {frame = frame} e c) d =
    emits (round-extend s more (emit frame next) tt e) (Drains-append more c d)

-- What is left in the buffer gives no frame by itself.
pub Drains-rest :
    {s rest : Bytes} {frames : List Frame} → Drains s frames rest → Drains rest [] rest
Drains-rest {s} {rest} (halts e) =
    let same : round s ≡ round rest = simp append-nil at (round_halted s [] e) in
    halts (sym same ∙ e)
Drains-rest (skips e d) = Drains-rest d
Drains-rest (emits e d) = Drains-rest d
