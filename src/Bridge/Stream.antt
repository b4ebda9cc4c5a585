-- ===== src/Bridge/Stream.antt =====
-- What a session of `readLoop` holds of the bytes that came over the wire.
use mathlib.Core.Path.{subst}
use mathlib.Core.Option.{some-injective}
use Prim.Native.String.{String}
use vbus2mqtt.Status.{Status}
use vbus2mqtt.Prelude.{
  ℕ, ◌≡◌, refl, sym, ◌∙◌, ap, inl, inr, List, [], ◌∷◌, ◌++◌, Option, Option-cases, none, some,
  or_else, arith,
}
use mathlib.Core.List.{flatten}
use vbus2mqtt.Mqtt.Slug.{Unicode}
use vbus2mqtt.Vbus.Double.{Double}
use vbus2mqtt.Vbus.Frame.{Bytes, Frame}
use vbus2mqtt.Vbus.Parser.{Parser, feed, new_parser}
use vbus2mqtt.Vbus.Parser.Delivery.{Carries, feed_all-Carries}
use vbus2mqtt.Vbus.Parser.Session.{feed_all, feed_all-flatten}
use vbus2mqtt.Vbus.Registry.{Registry}
use vbus2mqtt.Bridge.{
  Accumulators, Input, State, initial, running, latest_of, absorb, take_bytes, publish_due,
  reconnect, run,
}
use vbus2mqtt.Bridge.Latest.{last_reading, absorb_lem}
use vbus2mqtt.Bridge.Progress.{verdict, round_running, round_ended, running-injective}

-- The bytes that the rounds read, one list for each read that is not empty.
unfoldable pub reads_of : {W : Type 0} → List (Input W) → List Bytes
reads_of [] = []
reads_of (i ∷ is) = elim i.read [
  | none ↦ reads_of is
  | some [] ↦ reads_of is
  | some (b ∷ bs) ↦ (b ∷ bs) ∷ reads_of is
]

or_else-none : {A : Type 0} (x : Option A) → or_else x none ≡ x
or_else-none none = refl
or_else-none (some a) = refl

module _ {W : Type 0} ⦃d : Double W⦄ (u : Unicode) (reg : Registry W) where
  absorb-append :
      (fs gs : List Frame) (m : Accumulators W)
      → absorb reg (fs ++ gs) m ≡ absorb reg gs (absorb reg fs m)
  unfolding absorb
  absorb-append [] gs m = refl
  absorb-append (f ∷ fs) gs m = absorb-append fs gs _

  take_bytes_feeds :
      (i : Input W) (is : List (Input W)) (bytes : Bytes) (s s' : State W) {gs : List Frame}
      {q : Parser}
      → i.read ≡ some bytes
      → take_bytes u reg bytes s ≡ some s'
      → feed_all s'.parser (reads_of is) ≡ some (gs, q)
      → (frames : List Frame) × (feed_all s.parser (reads_of (i ∷ is)) ≡ some (frames, q))
        × (absorb reg gs s'.accum ≡ absorb reg frames s.accum)
  unfolding take_bytes reads_of feed_all
  take_bytes_feeds i is [] s s' {gs} {q} got taken fed =
      let same : s ≡ s' = some-injective _ _ taken in
      (
        gs,
        rw got (
            subst (λ (t : State W). feed_all t.parser (reads_of is) ≡ some (gs, q)) (sym same) fed),
        ap (λ (t : State W). absorb reg gs t.accum) (sym same),
      )
  take_bytes_feeds i is (b ∷ bs) s s' {gs} {q} got taken fed =
      elim (Option-cases (feed s.parser (b ∷ bs))) [
        | inl bad ↦ cc (rw (bad, take_bytes) at taken)
        | inr ((fs, p), good) ↦
            let same : record s { parser = p; accum = absorb reg fs s.accum } ≡ s' =
              some-injective _ _ (rw (good, take_bytes) at taken) in
            (
              fs ++ gs,
              rw (got, reads_of, feed_all, good)
                  (rw (
                    subst (λ (t : State W). feed_all t.parser (reads_of is) ≡ some (gs, q))
                      (sym same) fed)),
              subst (λ (t : State W). absorb reg gs t.accum ≡ absorb reg (fs ++ gs) s.accum) same
                  (sym (absorb-append fs gs s.accum)),
            )
      ]

  due_parser : (i : Input W) (s : State W) → (publish_due u i s).parser ≡ s.parser
  unfolding publish_due
  due_parser i s = ground arith

  due_accum : (i : Input W) (s : State W) → (publish_due u i s).accum ≡ s.accum
  unfolding publish_due
  due_accum i s = ground arith

  reconnect_parser : (i : Input W) (s : State W) → (reconnect u i s).parser ≡ s.parser
  reconnect_parser i s = ground arith

  reconnect_accum : (i : Input W) (s : State W) → (reconnect u i s).accum ≡ s.accum
  reconnect_accum i s = ground arith

  -- The rounds of a session feed the parser with their reads and keep what the frames say.
  run_feeds :
      (start : ℕ) (is : List (Input W)) (s : State W) {after : State W}
      → run u reg start is s ≡ running after
      → (frames : List Frame) × (feed_all s.parser (reads_of is) ≡ some (frames, after.parser))
        × (after.accum ≡ absorb reg frames s.accum)
  unfolding run absorb feed_all reads_of
  run_feeds start [] s {after} e =
      let same : s ≡ after = running-injective u reg e in
      (
        [],
        sym (ap (λ (t : State W). feed_all t.parser []) (sym same)),
        ap (λ (t : State W). t.accum) (sym same),
      )
  run_feeds start (i ∷ is) s {after} e = elim (Option-cases (verdict start i)) [
    | inl goes ↦
        let (bytes, s', got, taken, r) = round_running u reg start i s goes in
        let (frames, fed, kept) =
          run_feeds start is (publish_due u i s') {after = after} (rw (r, run) at e) in
        let fed_on : feed_all s'.parser (reads_of is) ≡ some (frames, after.parser) =
          subst (λ (t : Parser). feed_all t (reads_of is) ≡ some (frames, after.parser))
            (due_parser i s') fed in
        let (all, fed_all, keeps) =
          take_bytes_feeds i is bytes (reconnect u i s) s' got taken fed_on in
        (
          all,
          subst (λ (t : Parser). feed_all t (reads_of (i ∷ is)) ≡ some (all, after.parser))
              (reconnect_parser i s) fed_all,
          kept
              ∙ ap (absorb reg frames) (due_accum i s')
              ∙ keeps
              ∙ ap (absorb reg all) (reconnect_accum i s),
        )
    | inr (end, ends) ↦
        let (s', r, sent, status) = round_ended u reg start i s ends in cc (rw (r, run) at e)
  ]

  -- While a session of the read loop goes on, however the wire's bytes fell into reads and whatever
  -- was published in between, the parser is that of one read of all bytes, and the accumulator of every
  -- source is the reading of the last frame among those bytes that came from it and that the registry
  -- knows; a source without one has none.
  pub run_latest :
      (start now : ℕ) (discovered : List String) (status : Status) (is : List (Input W)) (src : ℕ)
      {after : State W}
      → run u reg start is (initial now discovered status) ≡ running after
      → (frames : List Frame) × (feed new_parser (flatten (reads_of is))
          ≡ some (frames, after.parser))
        × (latest_of src after.accum ≡ last_reading reg src frames)
  unfolding latest_of
  run_latest start now discovered status is src {after} e =
      let (frames, fed, kept) = run_feeds start is (initial now discovered status) e in
      (
        frames,
        sym (feed_all-flatten (reads_of is)) ∙ fed,
        ap (latest_of src) kept
            ∙ absorb_lem reg frames [] src
            ∙ or_else-none (last_reading reg src frames),
      )

  -- While a session of the read loop goes on whose reads, joined, are frames on the wire with line noise
  -- between them, the parser's buffer is empty and the accumulator of every source is the reading of the
  -- last of those frames that came from it and that the registry knows; a source without one has none.
  pub run_delivers :
      (start now : ℕ) (discovered : List String) (status : Status) (is : List (Input W)) (src : ℕ)
      {frames : List Frame} {after : State W}
      → run u reg start is (initial now discovered status) ≡ running after
      → Carries (flatten (reads_of is)) frames
      → (after.parser ≡ new_parser) × (latest_of src after.accum ≡ last_reading reg src frames)
  run_delivers start now discovered status is src {frames} {after} e c =
      let (found, fed, latest) = run_latest start now discovered status is src e in
      let same : (found, after.parser) ≡ (frames, new_parser) =
        some-injective _ _
          (sym fed ∙ sym (feed_all-flatten (reads_of is)) ∙ feed_all-Carries (reads_of is) c) in
      (
        ap (λ (r : List Frame × Parser). r.1) same,
        latest ∙ ap (λ (r : List Frame × Parser). last_reading reg src r.0) same,
      )
