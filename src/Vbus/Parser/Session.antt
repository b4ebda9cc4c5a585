-- ===== src/Vbus/Parser/Session.antt =====
-- `Feed` over a session of reads.
use mathlib.Core.List.{flatten}
use vbus2mqtt.Prelude.{
  ◌≡◌, refl, sym, ◌∙◌, List, [], ◌∷◌, ◌++◌, Option, none, some, arith, append-nil, append_assoc,
}
use vbus2mqtt.Vbus.Frame.{Bytes, Frame}
use vbus2mqtt.Vbus.Parser.{locate, round, drain, Parser, feed, new_parser}
use vbus2mqtt.Vbus.Parser.Measure.{Drains, halts, drain-Drains, Drains-drain, feed_total}
use vbus2mqtt.Vbus.Parser.Chunks.{Drains-append, Drains-rest}

drain-feed :
    (p : Parser) (bytes : Bytes) {frames : List Frame} {q : Parser}
    → feed p bytes ≡ some (frames, q)
    → drain (p.buf ++ bytes) ≡ some (frames, q.buf)
unfolding feed
drain-feed p bytes e = ground arith

pub Drains-feed :
    (p : Parser) (bytes : Bytes) {frames : List Frame} {q : Parser}
    → feed p bytes ≡ some (frames, q)
    → Drains (p.buf ++ bytes) frames q.buf
Drains-feed p bytes e = Drains-drain (p.buf ++ bytes) (drain-feed p bytes e)

pub feed_of_Drains :
    (p : Parser) (bytes : Bytes) {frames : List Frame} {rest : Bytes}
    → Drains (p.buf ++ bytes) frames rest
    → feed p bytes ≡ some (frames, record { buf = rest })
unfolding feed
feed_of_Drains p bytes d = rw (drain-Drains d, feed)

-- Two calls of `Feed` give the frames of one call on the joined bytes, and leave the same buffer.
pub feed-append :
    (p : Parser) (first second : Bytes) {frames more_frames : List Frame} {q r : Parser}
    → feed p first ≡ some (frames, q)
    → feed q second ≡ some (more_frames, r)
    → feed p (first ++ second) ≡ some (frames ++ more_frames, r)
feed-append p first second {frames} {more_frames} {q} {r} e f =
    feed_of_Drains p (first ++ second)
      (rw append_assoc at (Drains-append second (Drains-feed p first e) (Drains-feed q second f)))

-- The reads of a session, one after the other.
unfoldable pub feed_all : Parser → List Bytes → Option (List Frame × Parser)
feed_all p [] = some ([], p)
feed_all p (bytes ∷ more) = elim (feed p bytes) [
  | none ↦ none
  | some (frames, q) ↦ elim (feed_all q more) [
    | none ↦ none
    | some (more_frames, r) ↦ some (frames ++ more_frames, r)
  ]
]

-- The buffer holds nothing that gives a frame by itself, as it is between two calls of `Feed`.
abbrev IsDrained : Parser → Type 0
IsDrained p = Drains p.buf [] p.buf

feed_all-from :
    (p : Parser) (reads : List Bytes) → IsDrained p → feed_all p reads ≡ feed p (flatten reads)
unfolding feed_all flatten
feed_all-from p [] d = sym (feed_of_Drains p [] (rw append-nil d))
feed_all-from p (bytes ∷ reads) d =
    let (frames, q, e) = feed_total p bytes in
    let (more_frames, r, f) = feed_total q (flatten reads) in
    let later : feed_all q reads ≡ some (more_frames, r) =
      feed_all-from q reads (Drains-rest (Drains-feed p bytes e)) ∙ f in
    ground (arith, feed-append p bytes (flatten reads) e f)

-- However the bytes of a session are cut into reads, the parser emits the frames of one read of
-- all of them, in the same order, and ends with the same buffer.
pub feed_all-flatten :
    (reads : List Bytes) → feed_all new_parser reads ≡ feed new_parser (flatten reads)
unfolding round locate
feed_all-flatten reads = feed_all-from new_parser reads (halts refl)
