-- ===== src/Web/Access.antt =====
-- Who may read and change what through internal/web/server.go.
use Prim.Native.String.{String}
use text.Mathlib.Text.{◌==◌ as str_eq}
use text.Mathlib.TextEquality.{eq_iff}
use vbus2mqtt.Prelude.{
  ℕ, not, ◌&&◌, ◌≡◌, ◌≢◌, refl, ◌⊎◌, inl, inr, Bool-cases, Option, none, some, false, arith,
}
use vbus2mqtt.Config.{Durations}
use vbus2mqtt.Config.Store.{Answers}
use vbus2mqtt.Web.{
  Content, unauthorized, not_found, method_not_allowed, moved, Server, Request, World, authorized,
  basic_auth, handle_get_config, dispatch, serve,
}

-- The answers that say nothing of the program's state.
abbrev pub IsRefusal : ℕ → Content → Type 0
IsRefusal code content =
    (code ≡ 301) × (content ≡ moved)
    ⊎ ((code ≡ 401) × (content ≡ unauthorized)
        ⊎ ((code ≡ 404) × (content ≡ not_found) ⊎ (code ≡ 405) × (content ≡ method_not_allowed)))

credentials_eq :
    {u v p q : String}
    → u ≡ v
    → p ≡ q
    → ◌≡◌ {A = Option (String × String)} (some (u, p)) (some (v, q))
credentials_eq e f = rw (e, f) refl

authorized_other :
    (s : Server) (c : Option (String × String))
    → c ≢ some (s.web_user, s.web_pass)
    → authorized s c ≡ false
unfolding authorized
authorized_other s none h = refl
authorized_other s (some (u, p)) h = elim (Bool-cases (str_eq u s.web_user)) [
  | inl user ↦ elim (Bool-cases (str_eq p s.web_pass)) [
    | inl pass ↦
        absurd (h (credentials_eq ((eq_iff u s.web_user).0 user) ((eq_iff p s.web_pass).0 pass)))
    | inr pass ↦ ground (arith, pass)
  ]
  | inr user ↦ ground (arith, user)
]

module _ (t : Durations) (a : Answers) (now : ℕ) (s : Server) where
  dispatch_unauthorized :
      (r : Request) (w : World)
      → s.web_user ≢ ""
      → authorized s r.credentials ≡ false
      → r.path ≢ "/health"
      → ((dispatch t a now s r w).0 ≡ w)
        × IsRefusal (dispatch t a now s r w).1.code (dispatch t a now s r w).1.content
  unfolding dispatch basic_auth
  dispatch_unauthorized r w user wrong path =
      ground (arith, eq_iff s.web_user "", eq_iff r.path "/health")

  dispatch_read_only :
      (r : Request) (w : World)
      → (r.method ≢ "PUT") ⊎ (r.path ≢ "/api/config")
      → (dispatch t a now s r w).0 ≡ w
  unfolding dispatch basic_auth handle_get_config
  dispatch_read_only r w h = ground (arith, eq_iff r.method "PUT", eq_iff r.path "/api/config")

  -- With a user configured, a request whose credentials are not that user's name and password, for
  -- anything but the health check, changes nothing and is refused.
  pub serve_unauthorized :
      (r : Request) (w : World)
      → s.web_user ≢ ""
      → r.credentials ≢ some (s.web_user, s.web_pass)
      → r.path ≢ "/health"
      → ((serve t a now s r w).0 ≡ w)
        × IsRefusal (serve t a now s r w).1.code (serve t a now s r w).1.content
  unfolding serve
  serve_unauthorized r w user wrong path =
      elim (Bool-cases (not r.is_clean && not (str_eq r.method "CONNECT"))) [
        | inl unclean ↦ rw unclean (refl, inl (refl, refl))
        | inr clean ↦
            rw clean (dispatch_unauthorized r w user (authorized_other s r.credentials wrong) path)
      ]

  -- A request that is not a PUT of the configuration changes nothing.
  pub serve_read_only :
      (r : Request) (w : World)
      → (r.method ≢ "PUT") ⊎ (r.path ≢ "/api/config")
      → (serve t a now s r w).0 ≡ w
  unfolding serve
  serve_read_only r w h = elim (Bool-cases (not r.is_clean && not (str_eq r.method "CONNECT"))) [
    | inl unclean ↦ rw unclean refl
    | inr clean ↦ rw clean (dispatch_read_only r w h)
  ]
