-- ===== src/Web/Settings.antt =====
-- The configuration through GET and PUT of internal/web/server.go.
use Prim.Native.String.{String}
use text.Mathlib.Text.{◌==◌ as str_eq}
use text.Mathlib.TextEquality.{eq_iff}
use vbus2mqtt.Prelude.{
  ℕ, ◌+◌, ◌%◌, ◌^◌, ◌≤◌, ◌≡◌, ◌≢◌, refl, ◌∙◌, ◌⊎◌, inl, inr, true, not, ◌&&◌, Option, none, some,
  Bool-cases, Option-cases, if◌then◌else◌, arith,
}
use vbus2mqtt.Prelude.Int.{ℤ, ◌≤ℤ◌}
use vbus2mqtt.Config.{Config, Durations, IsDurations}
use vbus2mqtt.Config.Env.{to_byte}
use vbus2mqtt.Config.Store.{Answers}
use vbus2mqtt.Config.Store.Files.{update_lem}
use vbus2mqtt.Web.Checks.{
  IsValid, IsAcceptable, IsApplied, IsAnswered, check_dto_qos, check_dto_texts, IsValid-passes,
  passes-IsValid, apply_dto-IsApplied,
}
use vbus2mqtt.Web.{
  ConfigDto, Rejection, World, to_dto, apply_dto, second, is_log_level, is_log_format, check_dto,
  read_interval, put_update, put_dto, put_body,
}

-- What the web UI accepts as a configuration.
pub record IsAccepted (c : Config) : Type 0 where
  pub interval : second ≤ℤ c.publish_interval
  pub qos : c.mqtt_qos ≤ 2
  pub level : is_log_level c.log_level ≡ true
  pub format : is_log_format c.log_format ≡ true

-- Two configurations that differ in a password that is set look the same.
pub to_dto_redacted :
    (t : Durations) (cfg : Config) (p q : String)
    → p ≢ ""
    → q ≢ ""
    → to_dto t (record cfg { mqtt_pass = p }) ≡ to_dto t (record cfg { mqtt_pass = q })
unfolding to_dto
to_dto_redacted t cfg p q hp hq = ground (arith, eq_iff p "", eq_iff q "")

module _ (t : Durations) where
  read_interval_bound :
      (text : String) (interval : ℤ) → read_interval t text ≡ some interval → second ≤ℤ interval
  unfolding read_interval
  read_interval_bound text interval e = ground arith

module _ (t : Durations) where
  apply_dto-IsAccepted :
      (dto : ConfigDto) (interval : ℤ) (c : Config)
      → check_dto dto ≡ none
      → read_interval t dto.publish_interval ≡ some interval
      → IsAccepted (apply_dto dto interval c)
  unfolding apply_dto
  apply_dto-IsAccepted dto interval c e f = record {
    interval = read_interval_bound t dto.publish_interval interval f;
    qos = check_dto_qos dto e;
    level = (check_dto_texts dto e).0;
    format = (check_dto_texts dto e).1;
  }

  check_dto-to_dto : (c : Config) → IsAccepted c → check_dto (to_dto t c) ≡ none
  unfolding check_dto to_dto
  check_dto-to_dto c h = ground arith

  read_interval-print :
      IsDurations t
      → (c : Config) → IsAccepted c
      → read_interval t (to_dto t c).publish_interval ≡ some c.publish_interval
  unfolding read_interval to_dto
  read_interval-print good c h = ground (arith, good.parse-print c.publish_interval, h.interval)

  kept_password :
      (p : String)
      → let shown : String = if not (str_eq p "") then "****" else "" in
        (if not (str_eq shown "") && not (str_eq shown "****") then shown else p) ≡ p
  kept_password p = elim (Bool-cases (str_eq p "")) [ inl e ↦ rw e refl | inr e ↦ rw e refl ]

  small : (q : ℕ) → q ≤ 2 → q % 256 ≡ q
  small q h = omega arith

  apply_dto-to_dto : (c : Config) → c.mqtt_qos ≤ 2 → apply_dto (to_dto t c) c.publish_interval c ≡ c
  unfolding apply_dto to_dto to_byte
  apply_dto-to_dto c h = rw (kept_password c.mqtt_pass, small c.mqtt_qos h)

module _ (t : Durations) (a : Answers) where
  put_update_lem :
      (dto : ConfigDto) (n : ℤ) (w : World)
      → let (w', response) = put_update t a dto n w in
        (w'.store.cfg ≡ apply_dto dto n w.store.cfg)
        × (w'.store.version ≡ (w.store.version + 1) % 2 ^ 64)
        × (w'.status ≡ w.status)
        × IsAnswered t w w' response.code
  unfolding put_update
  put_update_lem dto n w = ground (arith, update_lem t a (apply_dto dto n) w.store w.disk)

  put_dto_ok :
      (dto : ConfigDto) (n : ℤ) (w : World)
      → read_interval t dto.publish_interval ≡ some n
      → check_dto dto ≡ none
      → put_dto t a dto w ≡ put_update t a dto n w
  unfolding put_dto
  put_dto_ok dto n w e f = rw (e, put_dto, f)

  put_dto-IsApplied :
      (dto : ConfigDto) (n : ℤ) (w : World)
      → read_interval t dto.publish_interval ≡ some n
      → check_dto dto ≡ none
      → let (w', response) = put_dto t a dto w in
        IsApplied t dto w.store.cfg w'.store.cfg
        × IsAccepted w'.store.cfg
        × (w'.store.version ≡ (w.store.version + 1) % 2 ^ 64)
        × (w'.status ≡ w.status)
        × IsAnswered t w w' response.code
  put_dto-IsApplied dto n w e passed =
      let (cfg, version, status, answered) = put_update_lem dto n w in
      rw (put_dto_ok dto n w e passed) (
        rw cfg (apply_dto-IsApplied t dto n w.store.cfg e passed),
        rw cfg (apply_dto-IsAccepted t dto n w.store.cfg passed e),
        version,
        status,
        answered,
      )

  -- Only a JSON body that passes every check reaches the store.
  put_dto_bad :
      (dto : ConfigDto) (w : World)
      → (read_interval t dto.publish_interval ≡ none)
        ⊎ ((why : Rejection) × (check_dto dto ≡ some why))
      → ((put_dto t a dto w).0 ≡ w) × ((put_dto t a dto w).1.code ≡ 400)
  unfolding put_dto
  put_dto_bad dto w h = ground arith

  -- A PUT whose body is to be refused (no JSON, an interval that cannot be read or is below a second,
  -- a QoS other than 0, 1 and 2, an unknown log level or format) is answered with 400 and changes
  -- nothing. Any other PUT sets every setting that the body has, but for a password that is empty or
  -- `****`, and keeps the others; it counts the version up modulo 2 ^ 64, leaves the status alone, and
  -- is answered with 200 where there is no path or the file holds the new configuration, and with 500
  -- where the file could not be written and is as it was.
  pub put_body_lem :
      (body : Option ConfigDto) (w : World)
      → let (w', response) = put_body t a body w in
        (¬ IsAcceptable t body) × (w' ≡ w) × (response.code ≡ 400)
        ⊎ ((dto : ConfigDto) × (body ≡ some dto)
            × IsValid t dto
            × IsApplied t dto w.store.cfg w'.store.cfg
            × IsAccepted w'.store.cfg
            × (w'.store.version ≡ (w.store.version + 1) % 2 ^ 64)
            × (w'.status ≡ w.status)
            × IsAnswered t w w' response.code)
  unfolding put_body
  put_body_lem none w = inl (λ h. h, refl, refl)
  put_body_lem (some dto) w = elim (Option-cases (read_interval t dto.publish_interval)) [
    | inl bad ↦
        let (same, code) = put_dto_bad dto w (inl bad) in
        inl (λ v. let (n, e, passed) = IsValid-passes t dto v in cc, same, code)
    | inr (n, e) ↦ elim (Option-cases (check_dto dto)) [
      | inl passed ↦
          let (applied, accepted, version, status, answered) = put_dto-IsApplied dto n w e passed in
          inr (
            dto,
            refl,
            passes-IsValid t dto n e passed,
            applied,
            accepted,
            version,
            status,
            answered,
          )
      | inr bad ↦
          let (same, code) = put_dto_bad dto w (inr bad) in
          inl (λ v. let (m, f, passed) = IsValid-passes t dto v in cc, same, code)
    ]
  ]

  -- Where a printed duration is read back, writing back what a GET answered changes no setting of an
  -- accepted configuration; the password, which a GET does not show, is kept too.
  pub put_body-to_dto :
      IsDurations t
      → (w : World) → IsAccepted w.store.cfg
      → (put_body t a (some (to_dto t w.store.cfg)) w).0.store.cfg ≡ w.store.cfg
  unfolding put_body
  put_body-to_dto good w h =
      let dto = to_dto t w.store.cfg in
      let n = w.store.cfg.publish_interval in
      rw
        (put_dto_ok dto n w (read_interval-print t good w.store.cfg h)
          (check_dto-to_dto t w.store.cfg h))
        ((put_update_lem dto n w).0 ∙ apply_dto-to_dto t w.store.cfg h.qos)
