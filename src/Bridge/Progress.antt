-- ===== src/Bridge/Progress.antt =====
-- How a session of `readLoop` goes on and ends.
use vbus2mqtt.Prelude.{
  ℕ, append-nil, ◌≡◌, refl, ◌∙◌, not, Bool-cases, inl, inr, List, [], ◌∷◌, ◌++◌, Option,
  Option-cases, none, some, ◌==◌, if◌then◌else◌, All, arith,
}
use vbus2mqtt.Mqtt.Slug.{Unicode}
use vbus2mqtt.Vbus.Double.{Double}
use vbus2mqtt.Vbus.Frame.{Bytes}
use vbus2mqtt.Vbus.Parser.Measure.{feed_total}
use vbus2mqtt.Vbus.Registry.{Registry}
use vbus2mqtt.Bridge.{
  Input, State, End, stopped, config_changed, read_failed, running, ended, absorb, take_bytes,
  publish_due, after_read, reconnect, round, run,
}

module _ {W : Type 0} where
  -- What an input makes of the session: the end of it, or `none` where the loop goes on.
  unfoldable pub verdict : ℕ → Input W → Option End
  verdict start i =
      if i.cancelled
      then some stopped
      else if not (i.version == start)
      then some config_changed
      else elim i.read [ none ↦ some read_failed | some bytes ↦ none ]

module _ {W : Type 0} ⦃d : Double W⦄ (u : Unicode) (reg : Registry W) where
  -- The bytes of a read are always taken: the parser's loop ends.
  pub take_bytes_total :
      (bytes : Bytes) (s : State W) → (s' : State W) × (take_bytes u reg bytes s ≡ some s')
  unfolding take_bytes
  take_bytes_total [] s = (s, refl)
  take_bytes_total (b ∷ bs) s =
      let (frames, q, e) = feed_total s.parser (b ∷ bs) in
      (record s { parser = q; accum = absorb reg frames s.accum }, rw (e, take_bytes))

  -- A round with which the session goes on: the bytes are taken, then the publication is due or not.
  pub round_running :
      (start : ℕ) (i : Input W) (s : State W)
      → verdict start i ≡ none
      → (bytes : Bytes) × (s' : State W) × (i.read ≡ some bytes)
        × (take_bytes u reg bytes (reconnect u i s) ≡ some s')
        × (round u reg start i s ≡ running (publish_due u i s'))
  unfolding round verdict after_read
  round_running start i s e = elim (Option-cases i.read) [
    | inl failed ↦ absurd (ground (arith, failed))
    | inr (bytes, got) ↦
        let (s', taken) = take_bytes_total bytes (reconnect u i s) in
        (bytes, s', got, taken, ground (arith, got, taken))
  ]

  pub round_ended :
      (start : ℕ) (i : Input W) (s : State W) {e : End}
      → verdict start i ≡ some e
      → (s' : State W) × (round u reg start i s ≡ ended e s')
        × (s'.sent ≡ s.sent)
        × (s'.status ≡ s.status)
  unfolding round verdict after_read
  round_ended start i s e = elim (Bool-cases i.cancelled) [
    | inl cancel ↦ (s, ground (arith, cancel), refl, refl)
    | inr live ↦ elim (Bool-cases (not (i.version == start))) [
      | inl other ↦ (s, ground (arith, live, other), refl, refl)
      | inr same ↦ elim (Option-cases i.read) [
        | inl failed ↦
            (reconnect u i s, ground (arith, live, same, failed), ground arith, ground arith)
        | inr (bytes, got) ↦ absurd (ground (arith, live, same, got))
      ]
    ]
  ]

  pub run-continues :
      (start : ℕ) (before : List (Input W)) (s : State W)
      → All (λ i. verdict start i ≡ none) before
      → (s' : State W) × ((more : List (Input W))
          → run u reg start (before ++ more) s ≡ run u reg start more s')
  unfolding run
  run-continues start [] s h = (s, λ more. refl)
  run-continues start (i ∷ is) s h =
      let (bytes, taken_state, got, taken, e) = round_running start i s h.0 in
      let (s', later) = run-continues start is (publish_due u i taken_state) h.1 in
      (s', λ more. rw (e, run) (later more))

  -- While no input cancels the session, changes the configuration or fails to be read, the loop goes
  -- on; the first input that does ends it with the result that the input asks for, and that round
  -- sends nothing and leaves the status as it was.
  pub run_ends :
      (start : ℕ) (before : List (Input W)) (i : Input W) (more : List (Input W)) (s : State W)
      {e : End}
      → All (λ j. verdict start j ≡ none) before
      → verdict start i ≡ some e
      → (reached : State W) × (last : State W) × (run u reg start before s ≡ running reached)
        × (run u reg start (before ++ i ∷ more) s ≡ ended e last)
        × (last.sent ≡ reached.sent)
        × (last.status ≡ reached.status)
  unfolding run
  run_ends start before i more s h k =
      let (reached, later) = run-continues start before s h in
      let (last, ends, sent, status) = round_ended start i reached k in
      (reached, last, rw append-nil at (later []), later (i ∷ more) ∙ rw (ends, run), sent, status)

  pub running-injective : {s s' : State W} → running s ≡ running s' → s ≡ s'
  running-injective e = cc
