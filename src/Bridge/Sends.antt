-- ===== src/Bridge/Sends.antt =====
-- What `readLoop` of cmd/vbus2mqtt/main.go sends of the devices it knows.
use Prim.Native.String.{String}
use mathlib.Core.List.{Memᴰ}
use mathlib.Core.List.Memᴰ
use mathlib.Core.Path.{subst}
use vbus2mqtt.Prelude.{
  ℕ, ◌-◌, ◌/◌, ◌^◌, ◌≡◌, refl, sym, true, inl, inr, List, [], ◌∷◌, All, arith, if◌then◌else◌,
}
use vbus2mqtt.Prelude.Int.{pos, ◌≤ℤ◌}
use vbus2mqtt.Prelude.Text.{put}
use vbus2mqtt.Config.{Config}
use vbus2mqtt.Mqtt.Client.{
  Message, Published, telemetry, ◌+s◌, publish, all_finite, put_values, payload_of,
  publish_discovery,
}
use vbus2mqtt.Mqtt.Slug.{Unicode}
use vbus2mqtt.Vbus.Double.{Double}
use vbus2mqtt.Vbus.Hex.{hex4}
use vbus2mqtt.Vbus.Registry.{Registry, TelemetryField}
use vbus2mqtt.Bridge.{
  Accumulator, Accumulators, Input, State, running, publish_all, publish_due, round,
}
use vbus2mqtt.Bridge.Publication.{
  is_due, is_due_iff, publish_due_due, publish_due_accum, round-publish_due,
}

module _ {W : Type 0} where
  all_finite-put :
      ⦃d : Double W⦄
      → (k : String) (v : W) (m : List (String × W)) → d.is_finite v ≡ true
      → all_finite m ≡ true
      → all_finite (put k v m) ≡ true
  unfolding all_finite put
  all_finite-put k v [] e h = rw e refl
  all_finite-put k v ((j, w) ∷ m) e h = ground (arith, all_finite-put k v m e)

  all_finite-put_values :
      ⦃d : Double W⦄
      → (fs : List (TelemetryField W)) (m : List (String × W))
      → All (λ f. d.is_finite f.value ≡ true) fs
      → all_finite m ≡ true
      → all_finite (put_values fs m) ≡ true
  unfolding put_values
  all_finite-put_values [] m h e = e
  all_finite-put_values (f ∷ fs) m h e =
      all_finite-put_values fs (put f.name f.value m) h.1 (all_finite-put f.name f.value m h.0 e)

module _ {W : Type 0} ⦃d : Double W⦄ (u : Unicode) where
  -- What `Publish` sends for a device at a time in seconds.
  abbrev reading_message : Config → ℕ → ℕ → Accumulator W → Message W
  reading_message cfg seconds src a = record {
    topic = cfg.mqtt_topic_prefix +s "/" +s hex4 src;
    qos = cfg.mqtt_qos;
    retained = cfg.mqtt_retain;
    body = telemetry (payload_of src a.device a.fields (pos seconds));
  }

  abbrev sent_by : Input W → List String → ℕ × Accumulator W → Published W
  sent_by i discovered (src, a) =
      publish u i.outcome i.connected (pos (i.now / 10 ^ 9)) i.cfg src a.device a.fields discovered

  publish-sends :
      (i : Input W) (src : ℕ) (a : Accumulator W) (discovered : List String)
      → i.connected ≡ true
      → All (λ f. d.is_finite f.value ≡ true) a.fields
      → Memᴰ
          (reading_message i.cfg (i.now / 10 ^ 9) src a)
          (publish u i.outcome i.connected
            (pos (i.now / 10 ^ 9))
            i.cfg
            src
            a.device
            a.fields
            discovered).messages
  unfolding publish payload_of all_finite
  publish-sends i src a discovered connected finite =
      rw (connected, all_finite-put_values a.fields [] finite refl)
        (Memᴰ.append_right
          (if i.cfg.mqtt_ha_discovery
            then publish_discovery u src a.device i.cfg a.fields discovered
            else (discovered, [])).1
          (Memᴰ.head refl))

  publish_all-sends :
      (i : Input W) (m : Accumulators W) (discovered : List String) {src : ℕ} {a : Accumulator W}
      → i.connected ≡ true
      → Memᴰ (src, a) m
      → All (λ f. d.is_finite f.value ≡ true) a.fields
      → Memᴰ (reading_message i.cfg (i.now / 10 ^ 9) src a) (publish_all u i m discovered).1
  unfolding publish_all
  publish_all-sends i [] discovered connected known finite = elim known [ ]
  publish_all-sends i ((k, b) ∷ m) discovered {src} {a} connected known finite =
      elim (Memᴰ.cases_cons known) [
        | inl same ↦
            Memᴰ.append_left (publish_all u i m (sent_by i discovered (k, b)).discovered).1 (
              subst
                (λ (e : ℕ × Accumulator W).
                  Memᴰ (reading_message i.cfg (i.now / 10 ^ 9) src a)
                    (sent_by i discovered e).messages)
                same (publish-sends i src a discovered connected finite))
        | inr later ↦
            Memᴰ.append_right (sent_by i discovered (k, b)).messages (
              publish_all-sends i m (sent_by i discovered (k, b)).discovered connected later finite)
      ]

  publish_due-sends :
      (i : Input W) (s : State W) {src : ℕ} {a : Accumulator W}
      → i.cfg.publish_interval ≤ℤ pos (i.now - s.last_publish)
      → i.connected ≡ true
      → Memᴰ (src, a) (publish_due u i s).accum
      → All (λ f. d.is_finite f.value ≡ true) a.fields
      → Memᴰ (reading_message i.cfg (i.now / 10 ^ 9) src a) (publish_due u i s).sent
  publish_due-sends i s {src} {a} elapsed connected known finite =
      let known' =
        subst (λ (m : Accumulators W). Memᴰ (src, a) m) (publish_due_accum u i s) known in
      let due : is_due u i s ≡ true =
        (is_due_iff u i s).1
          (elapsed, λ e. Memᴰ.not-nil (subst (λ (m : Accumulators W). Memᴰ (src, a) m) e known')) in
      subst (λ (m : List (Message W)). Memᴰ (reading_message i.cfg (i.now / 10 ^ 9) src a) m)
        (sym (publish_due_due u i s due).2)
        (Memᴰ.append_right s.sent
          (publish_all-sends i s.accum s.discovered connected known' finite))

  module _ (reg : Registry W) where
    -- A round that publishes on a connection sends the reading of every device known by then whose
    -- values are all finite: a message under the topic of the prefix and the source's address, with the
    -- QoS and the retain flag of the configuration, whose body is the payload of the device's fields
    -- at the time of the publication.
    pub round-sends :
        (start : ℕ) (i : Input W) (s : State W) {after : State W} {src : ℕ} {a : Accumulator W}
        → round u reg start i s ≡ running after
        → i.cfg.publish_interval ≤ℤ pos (i.now - s.last_publish)
        → i.connected ≡ true
        → Memᴰ (src, a) after.accum
        → All (λ f. d.is_finite f.value ≡ true) a.fields
        → Memᴰ
            (record {
              topic = i.cfg.mqtt_topic_prefix +s "/" +s hex4 src;
              qos = i.cfg.mqtt_qos;
              retained = i.cfg.mqtt_retain;
              body = telemetry (payload_of src a.device a.fields (pos (i.now / 10 ^ 9)));
            })
            after.sent
    round-sends start i s {after} {src} {a} e elapsed connected known finite =
        let (s', quiet, same) = round-publish_due u reg start i s e in
        let known' = subst (λ (t : State W). Memᴰ (src, a) t.accum) same known in
        subst (λ (t : State W). Memᴰ (reading_message i.cfg (i.now / 10 ^ 9) src a) t.sent)
          (sym same)
          (publish_due-sends i s'
            (subst (λ (t : ℕ). i.cfg.publish_interval ≤ℤ pos (i.now - t)) (sym quiet.1) elapsed)
            connected known' finite)
