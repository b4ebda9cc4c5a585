-- ===== src/Bridge/Publication.antt =====
-- When `readLoop` of cmd/vbus2mqtt/main.go publishes, and what the loop and the status keep of it.
use mathlib.Core.List.{map}
use mathlib.Core.Path.{subst}
use vbus2mqtt.Prelude.{
  ℕ, ◌-◌, ◌≡◌, ◌≢◌, ◌↔◌, refl, sym, ap, ◌∙◌, Bool, true, false, not, ◌&&◌, Bool-cases, ◌⊎◌, inl,
  inr, [], ◌∷◌, ◌++◌, Option-cases, some, arith,
}
use vbus2mqtt.Prelude.Int.{pos, ◌≤ℤ◌}
use vbus2mqtt.Mqtt.Slug.{Unicode}
use vbus2mqtt.Vbus.Double.{Double}
use vbus2mqtt.Vbus.Frame.{Bytes}
use vbus2mqtt.Vbus.Registry.{Registry}
use vbus2mqtt.Bridge.{
  Accumulators, Input, State, running, take_bytes, publish_all, publish_due, interval_elapsed,
  is_empty, reconnect, round,
}
use vbus2mqtt.Bridge.Progress.{verdict, round_running, round_ended, running-injective}

module _ {W : Type 0} where
  -- A publication is due: the interval has passed since the last one, and a device is known.
  abbrev pub IsDue : Input W → ℕ → State W → Type 0
  IsDue i last after = (i.cfg.publish_interval ≤ℤ pos (i.now - last)) × (after.accum ≢ [])

  -- What a publication leaves behind.
  abbrev pub IsPublished : Input W → State W → Type 0
  IsPublished i after =
      (after.last_publish ≡ i.stamp)
      × (after.status.last_publish ≡ i.stamp)
      × (after.status.devices ≡ map (λ e. e.1.device) after.accum)
      × (after.status.mqtt_connected ≡ i.connected_after)

  abbrev pub IsQuiet : State W → State W → Type 0
  IsQuiet s after =
      (after.sent ≡ s.sent) × (after.last_publish ≡ s.last_publish) × (after.status ≡ s.status)

  abbrev pub IsRound : Input W → State W → State W → Type 0
  IsRound i s after =
      (¬ IsDue i s.last_publish after) × IsQuiet s after
      ⊎ IsDue i s.last_publish after × IsPublished i after

module _ {W : Type 0} ⦃d : Double W⦄ (u : Unicode) where
  is_empty_iff : (m : Accumulators W) → (m ≢ []) ↔ (is_empty u m ≡ false)
  is_empty_iff [] = (λ h. absurd (h refl), λ e. cc)
  is_empty_iff (e ∷ m) = (λ h. refl, λ e. cc)

  -- The test of `publish_due`.
  abbrev pub is_due : Input W → State W → Bool
  is_due i s = interval_elapsed u i s.last_publish && not (is_empty u s.accum)

  pub is_due_iff : (i : Input W) (s : State W) → (is_due i s ≡ true) ↔ IsDue i s.last_publish s
  is_due_iff i s = ground (arith, is_empty_iff s.accum)

  publish_due_early : (i : Input W) (s : State W) → is_due i s ≡ false → publish_due u i s ≡ s
  unfolding publish_due
  publish_due_early i s e = rw e

  pub publish_due_due :
      (i : Input W) (s : State W)
      → is_due i s ≡ true
      → ((publish_due u i s).accum ≡ s.accum)
        × IsPublished i (publish_due u i s)
        × ((publish_due u i s).sent ≡ s.sent ++ (publish_all u i s.accum s.discovered).1)
  unfolding publish_due
  publish_due_due i s e = rw e (refl, (refl, refl, refl, refl), refl)

  due-cases : (i : Input W) (s : State W) → IsRound i s (publish_due u i s)
  due-cases i s = elim (Bool-cases (is_due i s)) [
    | inl due ↦
        let (known, published, sent) = publish_due_due i s due in
        let (elapsed, some_known) = (is_due_iff i s).0 due in
        inr ((elapsed, λ e. some_known (sym known ∙ e)), published)
    | inr early ↦
        rw (publish_due_early i s early)
          (inl (λ h. let due : is_due i s ≡ true = (is_due_iff i s).1 h in cc, (refl, refl, refl)))
  ]

  pub publish_due_accum : (i : Input W) (s : State W) → (publish_due u i s).accum ≡ s.accum
  publish_due_accum i s = elim (Bool-cases (is_due i s)) [
    | inl due ↦ (publish_due_due i s due).0
    | inr early ↦ ap (λ (t : State W). t.accum) (publish_due_early i s early)
  ]

  IsRound-IsQuiet :
      (i : Input W) (s s' after : State W) → IsQuiet s s' → IsRound i s' after → IsRound i s after
  IsRound-IsQuiet i s s' after (sent, last, status) (inl (early, quiet)) = inl (
    subst (λ (t : ℕ). ¬ IsDue i t after) last early,
    (quiet.0 ∙ sent, quiet.1 ∙ last, quiet.2 ∙ status),
  )
  IsRound-IsQuiet i s s' after (sent, last, status) (inr (due, published)) =
      inr (subst (λ (t : ℕ). IsDue i t after) last due, published)

  module _ (reg : Registry W) where
    take_bytes-IsQuiet :
        (bytes : Bytes) (s : State W) {after : State W}
        → take_bytes u reg bytes s ≡ some after
        → IsQuiet s after
    unfolding take_bytes
    take_bytes-IsQuiet [] s e = ground arith
    take_bytes-IsQuiet (b ∷ bs) s e = ground arith

    -- A round that goes on is a publication, due or not, behind the bytes of the read.
    pub round-publish_due :
        (start : ℕ) (i : Input W) (s : State W) {after : State W}
        → round u reg start i s ≡ running after
        → (s' : State W) × IsQuiet s s' × (after ≡ publish_due u i s')
    unfolding round
    round-publish_due start i s {after} e = elim (Option-cases (verdict start i)) [
      | inl goes ↦
          let (bytes, s', got, taken, r) = round_running u reg start i s goes in
          let quiet = take_bytes-IsQuiet bytes (reconnect u i s) taken in
          (
            s',
            (ground (arith, quiet), ground (arith, quiet), ground (arith, quiet)),
            running-injective u reg (sym e ∙ r),
          )
      | inr (end, ends) ↦
          let (s', r, sent, status) = round_ended u reg start i s ends in absurd (cc)
    ]

    -- A round that goes on publishes exactly if the interval has passed since the last publication
    -- and a device is known. If it does, the loop and the status have the time of the publication, and
    -- the status has the names of all devices known by then and the state of the connection. If it
    -- does not, it sends nothing and leaves the time of the last publication and the status.
    pub round-Publishes :
        (start : ℕ) (i : Input W) (s : State W) {after : State W}
        → round u reg start i s ≡ running after
        → (¬ IsDue i s.last_publish after) × IsQuiet s after
          ⊎ IsDue i s.last_publish after × IsPublished i after
    round-Publishes start i s {after} e =
        let (s', quiet, same) = round-publish_due start i s e in
        subst (λ (r : State W). IsRound i s r) (sym same)
          (IsRound-IsQuiet i s s' (publish_due u i s') quiet (due-cases i s'))
